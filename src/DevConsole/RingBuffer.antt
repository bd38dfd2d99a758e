-- ===== src/DevConsole/RingBuffer.antt =====
-- The class `RingBuffer` of src/devconsole/devconsole.store.ts. A slot is `undefined` (`none`) until
-- it is written. The source constructs buffers of capacity 500, 200 and 50 only; at capacity 0 its
-- `% this.capacity` is NaN, and nothing here speaks of that.
pub mod Shape
pub mod Recent
pub mod Tests
use dk_server_foundation.Common.{
  ℕ, suc, ◌+◌, ◌%◌, Option, none, some, List, [], ◌∷◌, ◌++◌, ltb, ◌==◌, nat_eq, if◌then◌else◌,
  replicate, set, take, drop,
}

pub record RingBuffer {ℓ} (T : Type ℓ) : Type ℓ where
  pub buffer : List (Option T)
  pub head : ℕ
  pub count : ℕ
  pub capacity : ℕ

pub data Call {ℓ} (T : Type ℓ) : Type ℓ where
  pushes : T → Call T
  clears : Call T

module _ {ℓ} {T : Type ℓ} where
  unfoldable pub new : ℕ → RingBuffer T
  new capacity = record {
    buffer = replicate capacity none;
    head = 0;
    count = 0;
    capacity = capacity;
  }

  unfoldable pub push : T → RingBuffer T → RingBuffer T
  push item b = record b {
    buffer = set b.buffer b.head (some item);
    head = (b.head + 1) % b.capacity;
    count = if ltb b.count b.capacity then b.count + 1 else b.count;
  }

  -- The source casts the slots to `T[]`; `Shape` shows that none of them is `undefined`.
  unfoldable pub to_array : RingBuffer T → List (Option T)
  to_array b =
      if b.count == 0
      then []
      else if ltb b.count b.capacity
      then take b.count b.buffer
      else drop b.head b.buffer ++ take b.head b.buffer

  unfoldable pub clear : RingBuffer T → RingBuffer T
  clear b = record b { buffer = replicate b.capacity none; head = 0; count = 0 }

  -- The getter.
  unfoldable pub length : RingBuffer T → ℕ
  length b = b.count

  pub step : RingBuffer T → Call T → RingBuffer T
  step b (pushes x) = push x b
  step b clears = clear b

  pub run : RingBuffer T → List (Call T) → RingBuffer T
  run b [] = b
  run b (c ∷ cs) = run (step b c) cs
