-- ===== src/Monad/Moves.antt =====
-- Routines that take the world from one property to another, with a third one for the failures.
use tt_wind.Status.{Status, Result, ok, fail}
use tt_wind.Base.{ℕ, Bool, true, false}
use tt_wind.Kernel.{Env, Lock, acquire, release, OsCall, os}
use tt_wind.Context.{World}
use tt_wind.Monad.{
  M, and_then, ◌>>=◌, ◌>>◌, attempt, undo_with, on_failure, return_status, tell, steps, pure, emit,
  with_lock, when, branch, get_process, process_runs,
}
use tt_wind.Monad.Keeps.{Keeps, Ignores}
use tt_wind.Monad.Outcome.{Outcome, with_lock-Outcome}

-- From `P` to `Q` where the routine succeeds, and to `R` where it fails.
pub record Moves {A : Type 0} (P Q R : World → Type 0) (m : M A) : Type 0 where
  pub at : (w : World) → P w → Outcome R (λ _. Q) (m w)

-- From `P` to `Q`, whether it succeeds or fails.
pub record Shifts {A : Type 0} (P Q : World → Type 0) (m : M A) : Type 0 where
  pub at : (w : World) → P w → Q (m w).1

then-Moves :
    {A B : Type 0} (Q S R : World → Type 0) (r : Result A × World) (f : A → M B)
    → Outcome R (λ _. Q) r
    → ((a : A) → Moves Q S R (f a))
    → Outcome R (λ _. S) (and_then r f)
unfolding and_then
then-Moves Q S R (ok a, w) f o h = (h a).at w o
then-Moves Q S R (fail s, w) f o h = o

kept : {A : Type 0} (P : World → Type 0) (r : Result A × World) → P r.1 → Outcome P (λ _. P) r
kept P (ok a, w) o = o
kept P (fail s, w) o = o

whole : {A : Type 0} (P : World → Type 0) (r : Result A × World) → Outcome P (λ _. P) r → P r.1
whole P (ok a, w) o = o
whole P (fail s, w) o = o

failing :
    (A : Type 0) (Q S : World → Type 0) (s : Status) (r : Result (Unit {0}) × World)
    → S r.1
    → Outcome {A = A} S (λ _. Q) (and_then r (λ _ w. (fail s, w)))
unfolding and_then
failing A Q S s (ok a, w) o = o
failing A Q S s (fail t, w) o = o

undone :
    {A : Type 0} (Q R S : World → Type 0) (r : Result A × World) (undo : M (Unit {0}))
    → Outcome R (λ _. Q) r
    → Shifts R S undo
    → Outcome S (λ _. Q) (undo_with undo r.0 r.1)
unfolding undo_with pure ◌>>◌ ◌>>=◌ return_status
undone Q R S (ok a, w) undo o h = o
undone {A = A} Q R S (fail s, w) undo o h = failing A Q S s (undo w) (h.at w o)

module _ {P R : World → Type 0} where
  pub Moves-bind :
      {A B : Type 0} (Q : World → Type 0) {S : World → Type 0} (m : M A) (f : A → M B)
      → Moves P Q R m
      → ((a : A) → Moves Q S R (f a))
      → Moves P S R (m >>= f)
  unfolding ◌>>=◌
  Moves-bind Q {S = S} m f h k = record { at = λ w o. then-Moves Q S R (m w) f (h.at w o) k }

  pub Moves-seq :
      {B : Type 0} (Q : World → Type 0) {S : World → Type 0} (m : M (Unit {0})) (n : M B)
      → Moves P Q R m
      → Moves Q S R n
      → Moves P S R (m >> n)
  unfolding ◌>>◌
  Moves-seq Q m n h k = Moves-bind Q m (λ _. n) h (λ _. k)

  pub Moves-tell : {Q : World → Type 0} (c : OsCall) → Shifts P Q (tell c) → Moves P Q R (tell c)
  unfolding steps
  Moves-tell c h = record { at = λ w o. h.at w o }

pub Moves-Keeps : {A : Type 0} {P : World → Type 0} (m : M A) → Keeps P m → Moves P P P m
Moves-Keeps {P = P} m k = record { at = λ w o. kept P (m w) (k.at w o) }

pub Keeps-Moves : {A : Type 0} {P : World → Type 0} (m : M A) → Moves P P P m → Keeps P m
Keeps-Moves {P = P} m h = record { at = λ w o. whole P (m w) (h.at w o) }

pub Moves-on_failure :
    {A : Type 0} {P Q S : World → Type 0} (R : World → Type 0) (m : M A) (undo : M (Unit {0}))
    → Moves P Q R m
    → Shifts R S undo
    → Moves P Q S (on_failure m undo)
unfolding on_failure ◌>>=◌ attempt and_then
Moves-on_failure {Q = Q} {S = S} R m undo h k = record {
  at = λ w o. undone Q R S (m w) undo (h.at w o) k;
}

-- A routine that never fails.
abbrev pub Runs : {A : Type 0} → (World → Type 0) → (World → Type 0) → M A → Type 0
Runs P Q m = Moves P Q (λ _. ⊥) m

runs :
    {A : Type 0} (Q R : World → Type 0) (r : Result A × World)
    → Outcome (λ _. ⊥) (λ _. Q) r
    → Outcome R (λ _. Q) r
runs Q R (ok a, w) o = o
runs Q R (fail s, w) o = absurd o

ran : {A : Type 0} (Q : World → Type 0) (r : Result A × World) → Outcome (λ _. ⊥) (λ _. Q) r → Q r.1
ran Q (ok a, w) o = o
ran Q (fail s, w) o = absurd o

pub Moves-Runs : {A : Type 0} {P Q R : World → Type 0} (m : M A) → Runs P Q m → Moves P Q R m
Moves-Runs {Q = Q} {R = R} m h = record { at = λ w o. runs Q R (m w) (h.at w o) }

pub Shifts-Runs : {A : Type 0} {P Q : World → Type 0} (m : M A) → Runs P Q m → Shifts P Q m
Shifts-Runs {Q = Q} m h = record { at = λ w o. ran Q (m w) (h.at w o) }

-- The rules for routines that never fail and keep `P`.
module _ {P : World → Type 0} where
  pub Runs-bind :
      {A B : Type 0} (m : M A) (f : A → M B)
      → Runs P P m
      → ((a : A) → Runs P P (f a))
      → Runs P P (m >>= f)
  Runs-bind m f h k = Moves-bind P m f h k

  pub Runs-seq :
      {B : Type 0} (m : M (Unit {0})) (n : M B) → Runs P P m → Runs P P n → Runs P P (m >> n)
  Runs-seq m n h k = Moves-seq P m n h k

  pub Runs-pure : {A : Type 0} (a : A) → Runs P P (pure a)
  unfolding pure
  Runs-pure a = record { at = λ w o. o }

  pub Runs-tell : (c : OsCall) → Ignores P (os c) → Runs P P (tell c)
  unfolding tell emit
  Runs-tell c h = record { at = λ w o. h.at w o }

  pub Runs-when : (b : Bool) (m : M (Unit {0})) → Runs P P m → Runs P P (when b m)
  unfolding when
  Runs-when true m h = h
  Runs-when false m h = Runs-pure tt

  pub Runs-branch :
      {A : Type 0} (b : Bool) (m n : M A) → Runs P P m → Runs P P n → Runs P P (branch b m n)
  unfolding branch
  Runs-branch true m n h k = h
  Runs-branch false m n h k = k

  pub Runs-get_process : ⦃env : Env⦄ → Runs P P get_process
  unfolding get_process
  Runs-get_process = record { at = λ w o. o }

  pub Runs-process_runs : ⦃env : Env⦄ (n : ℕ) → Runs P P (process_runs n)
  unfolding process_runs
  Runs-process_runs n = record { at = λ w o. o }

pub ruleset runs_rules = (
  Runs-bind, Runs-seq, Runs-pure, Runs-tell, Runs-when, Runs-branch, Runs-get_process,
  Runs-process_runs,
)

mapped :
    {A : Type 0} (P Q R S : World → Type 0) (r : Result A × World)
    → ((v : World) → Q v → S v)
    → ((v : World) → P v → R v)
    → Outcome P (λ _. Q) r
    → Outcome R (λ _. S) r
mapped P Q R S (ok a, v) f g o = f v o
mapped P Q R S (fail s, v) f g o = g v o

pub Moves-with_lock :
    {A : Type 0} {P Q R : World → Type 0} (l : Lock) (m : M A)
    → Ignores P (acquire l)
    → Ignores Q (release l)
    → Ignores R (release l)
    → Moves P Q R m
    → Moves P Q R (with_lock l m)
Moves-with_lock {P = P} {Q = Q} {R = R} l m ip iq ir h = record {
  at = λ w o.
      with_lock-Outcome R (λ _. Q) l m w
        (mapped R Q _ _ (m _) (λ v x. iq.at v x) (λ v x. ir.at v x) (h.at _ (ip.at w o)));
}
