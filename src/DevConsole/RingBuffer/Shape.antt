-- ===== src/DevConsole/RingBuffer/Shape.antt =====
-- How the slots of a ring buffer of src/devconsole/devconsole.store.ts stand for a list of items,
-- oldest first, and what one push does to that list.
use mathlib.Core.List.{map-append}
use native.Mathlib.Decide.{dec_lt}
use native.Mathlib.Nat.{mod-eq_of_lt}
use dk_server_foundation.Common.{
  ℕ, suc, ◌+◌, ◌-◌, ◌%◌, ◌<◌, ◌≤◌, ◌≡◌, refl, sym, ap, ◌∙◌, Option, none, some, List, [], ◌∷◌, ◌++◌,
  map, append-nil, append_assoc, arith, ltb, if◌then◌else◌, length, length-append, length-map,
  replicate, take, drop, set, take-append, drop-append, set-append, lt_test, false,
}
use dk_server_foundation.DevConsole.RingBuffer.{RingBuffer, new, push, to_array}

pub data Shape {ℓ} {T : Type ℓ} (b : RingBuffer T) (xs : List T) : Type ℓ where
  filling :
      length xs < b.capacity
      → b.count ≡ length xs
      → b.head ≡ length xs
      → b.buffer ≡ map some xs ++ replicate (b.capacity - length xs) none
      → Shape b xs
  full :
      (ys zs : List T) (z : T)
      → xs ≡ z ∷ (zs ++ ys)
      → b.buffer ≡ map some ys ++ (some z ∷ map some zs)
      → b.head ≡ length ys
      → b.capacity ≡ length ys + suc (length zs)
      → b.count ≡ b.capacity
      → Shape b xs

wrap_zero : (n m : ℕ) → n + 1 ≡ m → (n + 1) % m ≡ 0
wrap_zero n m h = rw h (grind arith)

wrap_next : (n m : ℕ) → n + 1 < m → (n + 1) % m ≡ n + 1
wrap_next n m h = mod-eq_of_lt h

module _ {ℓ} {T : Type ℓ} where
  pub new-Shape : (capacity : ℕ) → 0 < capacity → Shape {T = T} (new capacity) []
  unfolding new
  new-Shape capacity h = filling h refl refl (rw (sub-zero capacity))
    where
      sub-zero : (n : ℕ) → n - 0 ≡ n
      sub-zero n = omega arith

  pub to_array-Shape : (b : RingBuffer T) (xs : List T) → Shape b xs → to_array b ≡ map some xs
  unfolding to_array
  to_array-Shape b [] (filling lt c h s) = ground arith
  to_array-Shape b (x ∷ xs) (filling lt c h s) =
      let front : take b.count b.buffer ≡ map some (x ∷ xs) =
        rw (s, c)
          (take-append (length (x ∷ xs)) (map some (x ∷ xs)) _ (sym (length-map some (x ∷ xs)))) in
      ground (arith, front)
  to_array-Shape b xs (full ys zs z e s h size c) =
      let n : b.head ≡ length (map some ys) = h ∙ sym (length-map some ys) in
      let back : drop b.head b.buffer ≡ some z ∷ map some zs =
        rw s (drop-append b.head (map some ys) (some z ∷ map some zs) n) in
      let front : take b.head b.buffer ≡ map some ys =
        rw s (take-append b.head (map some ys) (some z ∷ map some zs) n) in
      rw e (ground (arith, back, front, map-append some zs ys))

  -- One push: an item is added, and the oldest one goes if the buffer was full.
  abbrev pub recent : ℕ → List T → T → List T
  recent capacity xs x =
      if ltb (length xs) capacity then xs ++ (x ∷ []) else drop 1 (xs ++ (x ∷ []))

  -- The slot that a push into a buffer with room writes.
  fill_slot :
      (n cap : ℕ) (xs : List T) (x : T)
      → n ≡ length xs
      → length xs < cap
      → set (map some xs ++ replicate (cap - length xs) none) n (some x)
        ≡ map some (xs ++ (x ∷ [])) ++ replicate (cap - length (xs ++ (x ∷ []))) none
  fill_slot n cap xs x h lt =
      let room : cap - length xs ≡ suc (cap - length (xs ++ (x ∷ []))) =
        omega (arith, length-append xs (x ∷ [])) in
      rw
        (
          room,
          set-append n (map some xs) _ none (some x) (h ∙ sym (length-map some xs)),
          map-append some xs (x ∷ []),
        )
        (sym (append_assoc (map some xs) (some x ∷ []) _))

  slot_after :
      (b : RingBuffer T) (xs : List T) (x : T)
      → length xs < b.capacity
      → b.head ≡ length xs
      → b.buffer ≡ map some xs ++ replicate (b.capacity - length xs) none
      → (push x b).buffer
        ≡ map some (xs ++ (x ∷ [])) ++ replicate (b.capacity - length (xs ++ (x ∷ []))) none
  unfolding push
  slot_after b xs x lt h s = rw s (fill_slot b.head b.capacity xs x h lt)

  replicate-none : (n m : ℕ) (xs : List (Option T)) → n ≤ m → xs ++ replicate (n - m) none ≡ xs
  replicate-none n m xs h = let gone : n - m ≡ 0 = omega arith in rw gone (append-nil xs)

  -- The push that writes the last free slot.
  push_last :
      (b : RingBuffer T) (xs : List T) (x : T)
      → length xs + 1 ≡ b.capacity
      → b.count ≡ length xs
      → b.head ≡ length xs
      → (push x b).buffer
        ≡ map some (xs ++ (x ∷ [])) ++ replicate (b.capacity - length (xs ++ (x ∷ []))) none
      → Shape (push x b) (xs ++ (x ∷ []))
  unfolding push
  push_last b [] x last c h s =
      full [] [] x refl (s ∙ replicate-none b.capacity 1 _ (omega arith))
        (wrap_zero b.head b.capacity (omega arith)) (omega arith) (ground arith)
  push_last b (w ∷ xs) x last c h s =
      let size : length (xs ++ (x ∷ [])) ≡ length xs + 1 = length-append xs (x ∷ []) in
      full [] (xs ++ (x ∷ [])) w (sym (append-nil _))
        (s ∙ replicate-none b.capacity _ _ (omega arith))
        (wrap_zero b.head b.capacity (omega arith)) (omega arith) (ground arith)

  push_room :
      (b : RingBuffer T) (xs : List T) (x : T)
      → length xs < b.capacity
      → b.count ≡ length xs
      → b.head ≡ length xs
      → b.buffer ≡ map some xs ++ replicate (b.capacity - length xs) none
      → Shape (push x b) (xs ++ (x ∷ []))
  unfolding push
  push_room b xs x lt c h s = elim (dec_lt (length xs + 1) b.capacity) [
    | yes more ↦
        filling (omega (arith, length-append xs (x ∷ [])))
          (ground (arith, length-append xs (x ∷ [])))
          (wrap_next b.head b.capacity (omega arith) ∙ omega (arith, length-append xs (x ∷ [])))
          (slot_after b xs x lt h s)
    | no last ↦ push_last b xs x (omega arith) c h (slot_after b xs x lt h s)
  ]

  overwritten :
      (b : RingBuffer T) (x z : T) (ys zs : List T)
      → b.buffer ≡ map some ys ++ (some z ∷ map some zs)
      → b.head ≡ length ys
      → (push x b).buffer ≡ map some ys ++ (some x ∷ map some zs)
  unfolding push
  overwritten b x z ys zs s h =
      rw s (set-append b.head (map some ys) _ _ (some x) (h ∙ sym (length-map some ys)))

  push_full :
      (b : RingBuffer T) (x z : T) (ys zs : List T)
      → b.buffer ≡ map some ys ++ (some z ∷ map some zs)
      → b.head ≡ length ys
      → b.capacity ≡ length ys + suc (length zs)
      → b.count ≡ b.capacity
      → Shape (push x b) ((zs ++ ys) ++ (x ∷ []))
  unfolding push
  push_full b x z [] [] s h size c =
      full [] [] x refl (rw (s, h)) (wrap_zero b.head b.capacity (omega arith)) size (ground arith)
  push_full b x z (y ∷ ys) [] s h size c =
      full [] (ys ++ (x ∷ [])) y (sym (append-nil _))
        (overwritten b x z (y ∷ ys) [] s h ∙ sym (map-append some (y ∷ ys) (x ∷ [])))
        (wrap_zero b.head b.capacity (omega arith)) (omega (arith, length-append ys (x ∷ [])))
        (ground arith)
  push_full b x z ys (w ∷ zs) s h size c =
      full (ys ++ (x ∷ [])) zs w (rw append_assoc)
        (overwritten b x z ys (w ∷ zs) s h
          ∙ rw (map-append some ys (x ∷ [])) (sym (append_assoc (map some ys) (some x ∷ []) _)))
        (wrap_next b.head b.capacity (omega arith) ∙ omega (arith, length-append ys (x ∷ [])))
        (omega (arith, length-append ys (x ∷ []))) (ground arith)

  pub push-Shape :
      (b : RingBuffer T) (xs : List T) (x : T)
      → Shape b xs
      → Shape (push x b) (recent b.capacity xs x)
  push-Shape b xs x (filling lt c h s) = rw ((lt_test _ _).1 lt) (push_room b xs x lt c h s)
  push-Shape b xs x (full ys zs z e s h size c) =
      let same : ltb (length xs) b.capacity ≡ false =
        ground (arith, ap length e, length-append zs ys) in
      rw (same, e) (push_full b x z ys zs s h size c)
