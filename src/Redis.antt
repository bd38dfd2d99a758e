-- ===== src/Redis.antt =====
-- Locks in Redis: src/services/leader.ts, and the scripts that src/helpers/redis/mutex.ts repeats.
pub mod Locks
pub mod Leader
pub mod Mutex
