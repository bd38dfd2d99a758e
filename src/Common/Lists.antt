-- ===== src/Common/Lists.antt =====
-- Lists measured and indexed by native numbers, and tests on their members.
use Prim.Native.Nat.{ℕ, zero, suc, ◌+◌, ◌-◌, ◌≤◌}
use mathlib.Core.Path.{◌≡◌, refl, ap, subst}
use mathlib.Core.Bool.{Bool, true, false, not, ◌&&◌, ◌||◌}
use mathlib.Core.List.{List, [], ◌∷◌, ◌++◌, map, append_assoc}
use mathlib.Core.Option.{Option, none, some}
use native.Mathlib.Omega.{arith}
use mathlib.Core.Logic.{inl, inr}
use package.dk_server_foundation.Common.Tests.{if◌then◌else◌, Eq, ◌==◌, Bool-cases}

module _ {ℓ} {A : Type ℓ} where
  abbrev pub length : List A → ℕ
  length [] = 0
  length (x ∷ xs) = suc (length xs)

  abbrev pub take : ℕ → List A → List A
  take zero xs = []
  take (suc n) [] = []
  take (suc n) (x ∷ xs) = x ∷ take n xs

  abbrev pub drop : ℕ → List A → List A
  drop zero xs = xs
  drop (suc n) [] = []
  drop (suc n) (x ∷ xs) = drop n xs

  -- A write out of bounds changes nothing.
  abbrev pub set : List A → ℕ → A → List A
  set [] i v = []
  set (x ∷ xs) zero v = v ∷ xs
  set (x ∷ xs) (suc i) v = x ∷ set xs i v

  abbrev pub get_elem? : List A → ℕ → Option A
  get_elem? [] i = none
  get_elem? (x ∷ xs) zero = some x
  get_elem? (x ∷ xs) (suc i) = get_elem? xs i

  abbrev pub replicate : ℕ → A → List A
  replicate zero a = []
  replicate (suc n) a = a ∷ replicate n a

  pub length-append : (xs ys : List A) → length (xs ++ ys) ≡ length xs + length ys
  length-append [] ys = omega arith
  length-append (x ∷ xs) ys = omega (arith, length-append xs ys)

  pub take-append : (n : ℕ) (xs ys : List A) → n ≡ length xs → take n (xs ++ ys) ≡ xs
  take-append zero [] ys h = refl
  take-append (suc n) [] ys h = absurd (omega arith)
  take-append zero (x ∷ xs) ys h = absurd (omega arith)
  take-append (suc n) (x ∷ xs) ys h = rw (take-append n xs ys (omega arith))

  pub drop-append : (n : ℕ) (xs ys : List A) → n ≡ length xs → drop n (xs ++ ys) ≡ ys
  drop-append zero [] ys h = refl
  drop-append (suc n) [] ys h = absurd (omega arith)
  drop-append zero (x ∷ xs) ys h = absurd (omega arith)
  drop-append (suc n) (x ∷ xs) ys h = drop-append n xs ys (omega arith)

  pub set-append :
      (n : ℕ) (xs ys : List A) (y v : A) → n ≡ length xs → set (xs ++ (y ∷ ys)) n v ≡ xs ++ (v ∷ ys)
  set-append zero [] ys y v h = refl
  set-append (suc n) [] ys y v h = absurd (omega arith)
  set-append zero (x ∷ xs) ys y v h = absurd (omega arith)
  set-append (suc n) (x ∷ xs) ys y v h = rw (set-append n xs ys y v (omega arith))

  pub length-drop : (n : ℕ) (xs : List A) → length (drop n xs) ≡ length xs - n
  length-drop zero xs = omega arith
  length-drop (suc n) [] = omega arith
  length-drop (suc n) (x ∷ xs) = omega (arith, length-drop n xs)

  pub drop_append_le :
      (n : ℕ) (xs ys : List A) → n ≤ length xs → drop n (xs ++ ys) ≡ drop n xs ++ ys
  drop_append_le zero xs ys h = refl
  drop_append_le (suc n) [] ys h = absurd (omega arith)
  drop_append_le (suc n) (x ∷ xs) ys h = drop_append_le n xs ys (omega arith)

  pub drop-drop_one : (n : ℕ) (xs : List A) → drop 1 (drop n xs) ≡ drop (suc n) xs
  drop-drop_one zero xs = refl
  drop-drop_one (suc n) [] = refl
  drop-drop_one (suc n) (x ∷ xs) = drop-drop_one n xs

  -- `xs.filter(p)`
  abbrev pub filterb : (A → Bool) → List A → List A
  filterb p [] = []
  filterb p (x ∷ xs) = if p x then x ∷ filterb p xs else filterb p xs

  abbrev pub any : (A → Bool) → List A → Bool
  any p [] = false
  any p (x ∷ xs) = p x || any p xs

  abbrev pub all : (A → Bool) → List A → Bool
  all p [] = true
  all p (x ∷ xs) = p x && all p xs

  -- `xs.find(p)`
  abbrev pub find : (A → Bool) → List A → Option A
  find p [] = none
  find p (x ∷ xs) = if p x then some x else find p xs

pub length-map {ℓ κ} :
    {A : Type ℓ} {B : Type κ} (f : A → B) (xs : List A) → length (map f xs) ≡ length xs
length-map f [] = refl
length-map f (x ∷ xs) = ap suc (length-map f xs)

-- `if (x) xs.push(x)`, at the front.
abbrev pub add_some {ℓ} : {A : Type ℓ} → Option A → List A → List A
add_some none xs = xs
add_some (some x) xs = x ∷ xs

pub add_some-append {ℓ} :
    {A : Type ℓ} (o : Option A) (xs : List A) → add_some o [] ++ xs ≡ add_some o xs
add_some-append none xs = refl
add_some-append (some x) xs = refl

module _ {ℓ κ} {A : Type ℓ} (P : A → Type κ) where
  abbrev pub All : List A → Type κ
  All [] = Unit
  All (x ∷ xs) = P x × All xs

  pub All-append : (xs ys : List A) → All xs → All ys → All (xs ++ ys)
  All-append [] ys h k = k
  All-append (x ∷ xs) ys (p, h) k = (p, All-append xs ys h k)

-- What holds of every value of a function, or of those that pass a filter.
module _ {ℓ κ λ'} {A : Type ℓ} {B : Type κ} (P : B → Type λ') (f : A → B) where
  pub All-over_map : (xs : List A) → ((x : A) → P (f x)) → All P (map f xs)
  All-over_map [] h = tt
  All-over_map (x ∷ xs) h = (h x, All-over_map xs h)

  pub All-over_filter :
      (p : A → Bool) (xs : List A) → ((x : A) → p x ≡ true → P (f x)) → All P (map f (filterb p xs))
  All-over_filter p [] h = tt
  All-over_filter p (x ∷ xs) h = elim (Bool-cases (p x)) [
    | inl e ↦ rw e (h x e, All-over_filter p xs h)
    | inr e ↦ rw e (All-over_filter p xs h)
  ]

-- `xs.includes(a)`
module _ {ℓ} {A : Type ℓ} ⦃e : Eq A⦄ where
  abbrev pub includes : List A → A → Bool
  includes [] a = false
  includes (x ∷ xs) a = x == a || includes xs a

  pub includes-append :
      (xs ys : List A) (a : A) → includes (xs ++ ys) a ≡ (includes xs a || includes ys a)
  includes-append [] ys a = refl
  includes-append (x ∷ xs) ys a = ground (arith, includes-append xs ys a)

  pub includes-filter_ne :
      (xs : List A) (a b : A)
      → includes (filterb (λ x. not (x == a)) xs) b ≡ (not (a == b) && includes xs b)
  includes-filter_ne [] a b = ground arith
  includes-filter_ne (x ∷ xs) a b =
      ground (arith, e.beq_iff x a, e.beq_iff x b, e.beq_iff a b, includes-filter_ne xs a b)

-- A filter that nothing passes.
pub filterb_none {ℓ} :
    {A : Type ℓ} (p : A → Bool) (xs : List A) → All (λ x. p x ≡ false) xs → filterb p xs ≡ []
filterb_none p [] h = refl
filterb_none p (x ∷ xs) (h, hs) = rw (h, filterb_none p xs hs)

pub filterb_keeps {ℓ} :
    {A : Type ℓ} (p : A → Bool) (xs : List A) → All (λ x. p x ≡ true) xs → filterb p xs ≡ xs
filterb_keeps p [] h = refl
filterb_keeps p (x ∷ xs) (h, hs) = rw (h, filterb_keeps p xs hs)

pub All-always {ℓ κ} : {A : Type ℓ} (P : A → Type κ) (xs : List A) → ((x : A) → P x) → All P xs
All-always P [] f = tt
All-always P (x ∷ xs) f = (f x, All-always P xs f)

pub All-map {ℓ κ λ'} :
    {A : Type ℓ} (P : A → Type κ) (Q : A → Type λ') (xs : List A)
    → ((x : A) → P x → Q x)
    → All P xs
    → All Q xs
All-map P Q [] f h = tt
All-map P Q (x ∷ xs) f (p, h) = (f x p, All-map P Q xs f h)

-- Every item of a list has its key among the keys.
module _ {ℓ κ} {A : Type ℓ} {K : Type κ} ⦃e : Eq K⦄ (key : A → K) where
  All-includes_keys_from :
      (ks : List K) (xs : List A) → All (λ x. includes (ks ++ map key xs) (key x) ≡ true) xs
  All-includes_keys_from ks [] = tt
  All-includes_keys_from ks (x ∷ xs) = (
    ground (
      arith,
      includes-append ks (key x ∷ map key xs) (key x),
      (e.beq_iff (key x) (key x)).1 refl,
    ),
    subst (λ ys. All (λ z. includes ys (key z) ≡ true) xs)
        (append_assoc ks (key x ∷ []) (map key xs))
        (All-includes_keys_from (ks ++ (key x ∷ [])) xs),
  )

  pub All-includes_keys : (xs : List A) → All (λ x. includes (map key xs) (key x) ≡ true) xs
  All-includes_keys xs = All-includes_keys_from [] xs
