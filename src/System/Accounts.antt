-- ===== src/System/Accounts.antt =====
-- The references of processes that the driver takes and gives back (ObReferenceObject and
-- ObDereferenceObject in driver/mapping.c and sysmem.c), against the mapping list.
pub mod Held
pub mod Views
pub mod Mappings
pub mod Ioctls
pub mod Callbacks
use tt_wind.Base.{
  ℕ, ◌+◌, Bool, true, false, List, [], ◌∷◌, ◌++◌, ◌≡◌, refl, ◌==◌, arith, if◌then◌else◌,
}
use tt_wind.Status.{Result, ok, fail}
use tt_wind.Kernel.{Env, Event, Log, OsCall, os, reference_process, dereference_process}
use tt_wind.Context.{Context, World, Shared, UserMapping}
use tt_wind.Monad.{
  M, and_then, ◌>>=◌, ◌>>◌, pure, tell, emit, attempt, undo_with, on_failure, return_status,
}
use tt_wind.Monad.Keeps.{Keeps, Ignores, Overlooks}
use tt_wind.Monad.Outcome.{Outcome}

-- 1 for the process that is counted.
abbrev pub one : (p q : ℕ) → ℕ
one p q = if q == p then 1 else 0

taken_in : ℕ → Event → ℕ
taken_in p (os (reference_process q)) = one p q
taken_in p _ = 0

given_in : ℕ → Event → ℕ
given_in p (os (dereference_process q)) = one p q
given_in p _ = 0

-- The references of process `p` that were taken and given back.
unfoldable pub taken : (p : ℕ) → Log → ℕ
unfolding taken_in
taken p [] = 0
taken p (e ∷ l) = taken_in p e + taken p l

unfoldable pub given : (p : ℕ) → Log → ℕ
unfolding given_in
given p [] = 0
given p (e ∷ l) = given_in p e + given p l

-- The mappings into process `p`.
unfoldable pub held : (p : ℕ) → List UserMapping → ℕ
held p [] = 0
held p (m ∷ ms) = one p m.process + held p ms

-- One reference for each mapping of the list, and `n` more.
abbrev pub Owes : (p n : ℕ) → World → Type 0
Owes p n w = taken p w.log ≡ given p w.log + (held p w.ctx.shared.mapping_list + n)

abbrev pub Accounted : (p : ℕ) → World → Type 0
Accounted p = Owes p 0

-- An event that neither takes nor gives back a reference of a process.
abbrev pub is_neutral : Event → Bool
is_neutral (os (reference_process q)) = false
is_neutral (os (dereference_process q)) = false
is_neutral _ = true

neutral : (p : ℕ) (e : Event) → is_neutral e ≡ true → (taken_in p e ≡ 0) × (given_in p e ≡ 0)
unfolding taken_in given_in
neutral p (os (reference_process q)) h = absurd (cc)
neutral p (os (dereference_process q)) h = absurd (cc)
neutral p _ h = (refl, refl)

module _ (p n : ℕ) where
  pub neutral_event : (e : Event) → is_neutral e ≡ true → Ignores (Owes p n) e
  unfolding taken given
  neutral_event e h = let q = neutral p e h in record { at = λ w o. omega (arith, q.0, q.1) }

  pub tell-taken :
      (q : ℕ) (w : World) → Owes p n w → Owes p (n + one p q) (tell (reference_process q) w).1
  unfolding taken given tell emit
  tell-taken q w o = omega arith

  pub tell-given :
      (q : ℕ) (w : World) → Owes p (n + one p q) w → Owes p n (tell (dereference_process q) w).1
  unfolding taken given tell emit
  tell-given q w o = omega arith
