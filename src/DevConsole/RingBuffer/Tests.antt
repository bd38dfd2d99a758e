-- ===== src/DevConsole/RingBuffer/Tests.antt =====
-- Runs of the ring buffer of src/devconsole/devconsole.store.ts, and its theorems at inputs.
use dk_server_foundation.Common.{ℕ, ◌≡◌, refl, some, List, [], ◌∷◌, map, arith}
use dk_server_foundation.DevConsole.RingBuffer.{
  Call, pushes, clears, new, push, to_array, clear, length, step, run,
}
use dk_server_foundation.DevConsole.RingBuffer.Recent.{keep_last, since_clear, to_array-run}

abbrev calls : List (Call ℕ)
calls = pushes 9 ∷ (clears ∷ (pushes 1 ∷ (pushes 2 ∷ (pushes 3 ∷ []))))

wraps_round : to_array (run (new 2) calls) ≡ some 2 ∷ (some 3 ∷ [])
unfolding to_array run new step push clear
wraps_round = refl

counts_to_capacity : length (run (new 2) calls) ≡ 2
unfolding length run new step push clear
counts_to_capacity = refl

to_array-run_example : to_array (run (new 2) calls) ≡ map some (keep_last 2 (since_clear [] calls))
to_array-run_example = to_array-run 2 calls (omega arith)
