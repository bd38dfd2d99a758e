-- ===== src/DevConsole/Store/Mutexes.antt =====
-- The mutexes that src/devconsole/devconsole.store.ts calls active, against the entries that its
-- ring buffer shows.
use dk_server_foundation.Common.{
  ℕ, String, Bool, true, false, ◌≡◌, ◌↔◌, refl, none, some, ◌⊎◌, inl, inr, Map, lookup, insert,
  delete, lookup-insert, lookup-delete, nat_eq, string_eq, arith, nat_beq_iff, Option-cases,
}
use text.Mathlib.TextEquality.{eq_iff}
use dk_server_foundation.DevConsole.Entries.{DevConsoleMutexEntry, MutexStatus}
use dk_server_foundation.DevConsole.Store.{
  DevConsoleStore, new, add_mutex_pending, active_entry, acquire_entry, end_entry, fail_entry,
  update_mutex_acquired, update_mutex_released, update_mutex_error, add_mutex_failed,
}

abbrev pub is_open : MutexStatus → Bool
is_open MutexStatus.pending = true
is_open MutexStatus.acquired = true
is_open MutexStatus.released = false
is_open MutexStatus.error = false
is_open MutexStatus.failed = false

-- The calls on mutexes: a caller passes a new object, pending under an id that is not active, or
-- failed.
pub data Step {J : Type 0} : DevConsoleStore J → DevConsoleStore J → Type 0 where
  adds :
      {s : DevConsoleStore J} (ref : ℕ) (e : DevConsoleMutexEntry)
      → lookup ref s.entries ≡ none
      → e.status ≡ MutexStatus.pending
      → lookup e.id s.active_mutexes ≡ none
      → Step s (add_mutex_pending ref e s)
  acquires :
      {s : DevConsoleStore J} (id : String) (waited : Bool) (now : ℕ)
      → Step s (update_mutex_acquired id waited now s)
  releases :
      {s : DevConsoleStore J} (id : String) (now : ℕ) → Step s (update_mutex_released id now s)
  errs :
      {s : DevConsoleStore J} (id : String) (text : String) (now : ℕ)
      → Step s (update_mutex_error id text now s)
  fails :
      {s : DevConsoleStore J} (ref : ℕ) (e : DevConsoleMutexEntry)
      → lookup ref s.entries ≡ none
      → e.status ≡ MutexStatus.failed
      → Step s (add_mutex_failed ref e s)

pub data Steps {J : Type 0} : DevConsoleStore J → DevConsoleStore J → Type 0 where
  stop : {s : DevConsoleStore J} → Steps s s
  more : {s t u : DevConsoleStore J} → Step s t → Steps t u → Steps s u

-- The map leads to entries, and an entry is pending or acquired exactly if its id leads to it.
pub record AreTracked (entries : Map ℕ DevConsoleMutexEntry) (active : Map String ℕ) : Type 0 where
  pub found :
      (id : String) (ref : ℕ)
      → lookup id active ≡ some ref
      → (e : DevConsoleMutexEntry) × (lookup ref entries ≡ some e) × (e.id ≡ id)
  pub tracked :
      (ref : ℕ) (e : DevConsoleMutexEntry)
      → lookup ref entries ≡ some e
      → (is_open e.status ≡ true) ↔ (lookup e.id active ≡ some ref)

abbrev pub IsTracked : {J : Type 0} → DevConsoleStore J → Type 0
IsTracked s = AreTracked s.entries s.active_mutexes

adds-AreTracked :
    (es : Map ℕ DevConsoleMutexEntry) (m : Map String ℕ) (ref : ℕ) (e : DevConsoleMutexEntry)
    → lookup ref es ≡ none
    → is_open e.status ≡ true
    → lookup e.id m ≡ none
    → AreTracked es m
    → AreTracked (insert ref e es) (insert e.id ref m)
adds-AreTracked es m ref e n o free h = record {
  found = λ id r k. ground (
    arith,
    lookup-insert ref r e es,
    lookup-insert e.id id ref m,
    nat_beq_iff ref r,
    eq_iff e.id id,
    h.found id r,
  );
  tracked = λ r f k. ground (
    arith,
    lookup-insert ref r e es,
    lookup-insert e.id f.id ref m,
    nat_beq_iff ref r,
    eq_iff e.id f.id,
    h.tracked r f,
  );
}

fails-AreTracked :
    (es : Map ℕ DevConsoleMutexEntry) (m : Map String ℕ) (ref : ℕ) (e : DevConsoleMutexEntry)
    → lookup ref es ≡ none
    → is_open e.status ≡ false
    → AreTracked es m
    → AreTracked (insert ref e es) m
fails-AreTracked es m ref e n o h = record {
  found = λ id r k. ground (arith, lookup-insert ref r e es, nat_beq_iff ref r, h.found id r);
  tracked = λ r f k.
      ground (arith, lookup-insert ref r e es, nat_beq_iff ref r, h.tracked r f, h.found f.id r);
}

acquires-AreTracked :
    (es : Map ℕ DevConsoleMutexEntry) (m : Map String ℕ) (id : String) (ref : ℕ)
    (e f : DevConsoleMutexEntry)
    → lookup id m ≡ some ref
    → lookup ref es ≡ some e
    → f.id ≡ e.id
    → is_open f.status ≡ true
    → AreTracked es m
    → AreTracked (insert ref f es) m
acquires-AreTracked es m id ref e f a b same o h = record {
  found = λ j r k.
      ground (arith, lookup-insert ref r f es, nat_beq_iff ref r, h.found j r, h.found id ref);
  tracked = λ r g k.
      ground (arith, lookup-insert ref r f es, nat_beq_iff ref r, h.tracked r g, h.found id ref);
}

ends-AreTracked :
    (es : Map ℕ DevConsoleMutexEntry) (m : Map String ℕ) (id : String) (ref : ℕ)
    (e f : DevConsoleMutexEntry)
    → lookup id m ≡ some ref
    → lookup ref es ≡ some e
    → f.id ≡ e.id
    → is_open f.status ≡ false
    → AreTracked es m
    → AreTracked (insert ref f es) (delete id m)
ends-AreTracked es m id ref e f a b same o h = record {
  found = λ j r k. ground (
    arith,
    lookup-insert ref r f es,
    nat_beq_iff ref r,
    lookup-delete id j m,
    eq_iff id j,
    h.found j r,
    h.found id ref,
  );
  tracked = λ r g k. ground (
    arith,
    lookup-insert ref r f es,
    nat_beq_iff ref r,
    lookup-delete id g.id m,
    eq_iff id g.id,
    h.tracked r g,
    h.found id ref,
  );
}

new-IsTracked : (J : Type 0) (now : ℕ) → IsTracked (new {J = J} now)
unfolding new lookup
new-IsTracked J now = record { found = λ id ref h. ground arith; tracked = λ ref e h. ground arith }

module _ {J : Type 0} where
  pub active_entry-cases :
      (id : String) (s : DevConsoleStore J)
      → (active_entry id s ≡ none)
        ⊎ ((ref : ℕ) × (e : DevConsoleMutexEntry) × (active_entry id s ≡ some (ref, e))
            × (lookup id s.active_mutexes ≡ some ref)
            × (lookup ref s.entries ≡ some e))
  unfolding active_entry
  active_entry-cases id s = elim (Option-cases (lookup id s.active_mutexes)) [
    | inl n ↦ inl (ground (arith, n))
    | inr (ref, h) ↦ elim (Option-cases (lookup ref s.entries)) [
      | inl n ↦ inl (ground (arith, h, n))
      | inr (e, k) ↦ inr (ref, e, ground (arith, h, k), h, k)
    ]
  ]

  Step-IsTracked : (s t : DevConsoleStore J) → Step s t → IsTracked s → IsTracked t
  unfolding add_mutex_pending update_mutex_acquired update_mutex_released update_mutex_error
      add_mutex_failed
  Step-IsTracked s _ (adds ref e n p free) h =
      adds-AreTracked s.entries s.active_mutexes ref e n (rw p refl) free h
  Step-IsTracked s _ (fails ref e n p) h =
      fails-AreTracked s.entries s.active_mutexes ref e n (rw p refl) h
  Step-IsTracked s _ (acquires id waited now) h = elim (active_entry-cases id s) [
    | inl n ↦ rw (update_mutex_acquired, n) h
    | inr (ref, e, g, a, b) ↦
        rw (update_mutex_acquired, g)
          (acquires-AreTracked s.entries s.active_mutexes id ref e (acquire_entry waited now e) a b
            refl refl h)
  ]
  Step-IsTracked s _ (releases id now) h = elim (active_entry-cases id s) [
    | inl n ↦ rw (update_mutex_released, n) h
    | inr (ref, e, g, a, b) ↦
        rw (update_mutex_released, g)
          (ends-AreTracked s.entries s.active_mutexes id ref e
            (end_entry MutexStatus.released now e) a b refl refl h)
  ]
  Step-IsTracked s _ (errs id text now) h = elim (active_entry-cases id s) [
    | inl n ↦ rw (update_mutex_error, n) h
    | inr (ref, e, g, a, b) ↦
        rw (update_mutex_error, g)
          (ends-AreTracked s.entries s.active_mutexes id ref e (fail_entry text now e) a b refl refl
            h)
  ]

  Steps-IsTracked_from : (s t : DevConsoleStore J) → Steps s t → IsTracked s → IsTracked t
  Steps-IsTracked_from s _ stop h = h
  Steps-IsTracked_from s u (more {t = t} a rest) h =
      Steps-IsTracked_from t u rest (Step-IsTracked s t a h)

  -- In every store that calls on mutexes make of a new one, in any order and where a caller adds a
  -- new object under an id that is not active, a mutex is active exactly if its entry says that it
  -- is pending or acquired, and every active id leads to an entry with that id.
  pub Steps-IsTracked : (now : ℕ) (t : DevConsoleStore J) → Steps (new now) t → IsTracked t
  Steps-IsTracked now t steps = Steps-IsTracked_from (new now) t steps (new-IsTracked J now)
