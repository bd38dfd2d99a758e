-- ===== src/DevConsole/RingBuffer/Recent.antt =====
-- A ring buffer of src/devconsole/devconsole.store.ts against its specification: the last items of
-- the history since it was cleared.
use native.Mathlib.Decide.{dec_lt}
use dk_server_foundation.Common.{
  ℕ, suc, ◌-◌, ◌<◌, ◌≤◌, ◌≡◌, sym, some, List, [], ◌∷◌, ◌++◌, map, arith, ltb, length,
  length-append, length-drop, drop, drop_append_le, drop-drop_one, lt_test, false,
}
use dk_server_foundation.DevConsole.RingBuffer.{
  RingBuffer, Call, pushes, clears, new, push, to_array, clear, step, run,
}
use dk_server_foundation.DevConsole.RingBuffer.Shape.{
  Shape, new-Shape, push-Shape, to_array-Shape, recent,
}

module _ {ℓ} {T : Type ℓ} where
  abbrev pub keep_last : ℕ → List T → List T
  keep_last n xs = drop (length xs - n) xs

  -- The items pushed since the last `clear`, oldest first, after those of `past`.
  pub since_clear : List T → List (Call T) → List T
  since_clear past [] = past
  since_clear past (pushes x ∷ cs) = since_clear (past ++ (x ∷ [])) cs
  since_clear past (clears ∷ cs) = since_clear [] cs

  keep_last_all : (n : ℕ) (xs : List T) → length xs ≤ n → keep_last n xs ≡ xs
  keep_last_all n xs h = let none_gone : length xs - n ≡ 0 = omega arith in rw none_gone

  recent-keep_last :
      (n : ℕ) (xs : List T) (x : T) → recent n (keep_last n xs) x ≡ keep_last n (xs ++ (x ∷ []))
  recent-keep_last n xs x = elim (dec_lt (length xs) n) [
    | yes room ↦
        rw (keep_last_all n xs (omega arith), (lt_test _ _).1 room)
          (sym (keep_last_all n (xs ++ (x ∷ [])) (omega (arith, length-append xs (x ∷ [])))))
    | no more ↦
        let size : length (keep_last n xs) ≡ n = omega (arith, length-drop (length xs - n) xs) in
        let test : ltb (length (keep_last n xs)) n ≡ false = ground (arith, size) in
        let gone : length (xs ++ (x ∷ [])) - n ≡ suc (length xs - n) =
          omega (arith, length-append xs (x ∷ [])) in
        rw (test, gone, ← drop_append_le (length xs - n) xs (x ∷ []) (omega arith))
          (drop-drop_one (length xs - n) (xs ++ (x ∷ [])))
  ]

  run-Shape :
      (cs : List (Call T)) (b : RingBuffer T) (past : List T)
      → 0 < b.capacity
      → Shape b (keep_last b.capacity past)
      → Shape (run b cs) (keep_last b.capacity (since_clear past cs))
  unfolding run step push clear since_clear
  run-Shape [] b past h s = s
  run-Shape (pushes x ∷ cs) b past h s =
      run-Shape cs (push x b) (past ++ (x ∷ [])) h
        (rw (recent-keep_last b.capacity past x) at (push-Shape b _ x s))
  run-Shape (clears ∷ cs) b past h s =
      run-Shape cs (clear b) [] h
        (rw (keep_last_all b.capacity [] (omega arith)) (unfold new in (new-Shape b.capacity h)))

  -- From a fresh buffer of capacity n > 0, after any sequence of pushes and clears, `toArray` gives
  -- the last n items pushed since the last clear, oldest first, and no undefined slot.
  pub to_array-run :
      (n : ℕ) (cs : List (Call T))
      → 0 < n
      → to_array (run (new n) cs) ≡ map some (keep_last n (since_clear [] cs))
  unfolding new
  to_array-run n cs h =
      to_array-Shape _ _
        (run-Shape cs (new n) [] h (rw (keep_last_all n [] (omega arith)) (new-Shape n h)))
