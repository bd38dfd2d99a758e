-- ===== src/DevConsole.antt =====
-- The development console's in-memory store: src/devconsole/devconsole.store.ts.
pub mod RingBuffer
pub mod Entries
pub mod Store
