-- ===== src/Monad/Outcome.antt =====
-- How a routine ends: what holds of the value and the world after a success, and what holds of the
-- world after every failure.
use tt_wind.Base.{Bool, true, false, Option, none, some, ◌∷◌, ◌≡◌, refl, sym, subst}
use tt_wind.Status.{Status, Result, ok, fail}
use tt_wind.Kernel.{Lock, acquire, release}
use tt_wind.Context.{Context, World}
use tt_wind.Monad.{
  pure, M, and_then, ◌>>=◌, ◌>>◌, return_status, require, from_result, from_option, get_ctx, branch,
  case_option, emit, attempt, undo_with, on_failure, with_lock, steps,
}
use tt_wind.Monad.Keeps.{Keeps}

-- The context as it was.
abbrev pub Frozen : Context → World → Type 0
Frozen c w = w.ctx ≡ c

abbrev pub Outcome :
    {A : Type 0} → (World → Type 0) → (A → World → Type 0) → Result A × World → Type 0
Outcome P Q (ok a, w) = Q a w
Outcome P Q (fail s, w) = P w

module _ {A B : Type 0} (P : World → Type 0) (Q : B → World → Type 0) where
  and_then-Outcome :
      (r : Result A × World) (f : A → M B)
      → P r.1
      → ((a : A) (w : World) → P w → Outcome P Q (f a w))
      → Outcome P Q (and_then r f)
  unfolding and_then
  and_then-Outcome (ok a, w) f p h = h a w p
  and_then-Outcome (fail s, w) f p h = p

  -- A routine that leaves the context alone, first.
  pub bind-Outcome :
      (m : M A) (f : A → M B) (w : World)
      → Keeps P m
      → P w
      → ((a : A) (w' : World) → P w' → Outcome P Q (f a w'))
      → Outcome P Q ((m >>= f) w)
  unfolding ◌>>=◌
  bind-Outcome m f w km p h = and_then-Outcome (m w) f (km.at w p) h

  and_then-tail :
      (R : A → World → Type 0) (r : Result A × World) (f : A → M B)
      → Outcome P R r
      → ((a : A) (w : World) → R a w → Outcome P Q (f a w))
      → Outcome P Q (and_then r f)
  unfolding and_then
  and_then-tail R (ok a, w) f p h = h a w p
  and_then-tail R (fail s, w) f p h = p

  -- A routine with an outcome, first.
  pub tail-Outcome :
      (R : A → World → Type 0) (m : M A) (f : A → M B) (w : World)
      → Outcome P R (m w)
      → ((a : A) (w' : World) → R a w' → Outcome P Q (f a w'))
      → Outcome P Q ((m >>= f) w)
  unfolding ◌>>=◌
  tail-Outcome R m f w p h = and_then-tail R (m w) f p h

  pub result-Outcome :
      (r : Result A) (f : A → M B) (w : World)
      → P w
      → ((a : A) → r ≡ ok a → Outcome P Q (f a w))
      → Outcome P Q ((from_result r >>= f) w)
  unfolding steps
  result-Outcome (ok a) f w p h = h a refl
  result-Outcome (fail s) f w p h = p

  pub option-Outcome :
      (o : Option A) (s : Status) (f : A → M B) (w : World)
      → P w
      → ((a : A) → o ≡ some a → Outcome P Q (f a w))
      → Outcome P Q ((from_option o s >>= f) w)
  unfolding steps
  option-Outcome (some a) s f w p h = h a refl
  option-Outcome none s f w p h = p

module _ {B : Type 0} (P : World → Type 0) (Q : B → World → Type 0) where
  pub weaken-Outcome :
      (R : B → World → Type 0) (r : Result B × World)
      → Outcome P R r
      → ((b : B) (w : World) → R b w → Q b w)
      → Outcome P Q r
  weaken-Outcome R (ok b, w) p h = h b w p
  weaken-Outcome R (fail s, w) p h = p

  pub require-Outcome :
      (b : Bool) (s : Status) (m : M B) (w : World)
      → P w
      → (b ≡ true → Outcome P Q (m w))
      → Outcome P Q ((require b s >> m) w)
  unfolding steps
  require-Outcome true s m w p h = h refl
  require-Outcome false s m w p h = p

  pub get_ctx-Outcome :
      (f : Context → M B) (w : World) → Outcome P Q (f w.ctx w) → Outcome P Q ((get_ctx >>= f) w)
  unfolding steps
  get_ctx-Outcome f w h = h

  -- What undoes the work and returns a failure.
  undone :
      (r : Result (Unit {0}) × World) (s : Status)
      → P r.1
      → Outcome P Q (and_then r (λ _. return_status s))
  unfolding and_then return_status
  undone (ok a, w) s p = p
  undone (fail t, w) s p = p

  pub undo-Outcome :
      (undo : M (Unit {0})) (s : Status) (w : World)
      → Keeps P undo
      → P w
      → Outcome P Q ((undo >> return_status s) w)
  unfolding ◌>>◌ ◌>>=◌
  undo-Outcome undo s w k p = undone (undo w) s (k.at w p)

  pub branch-Outcome :
      (b : Bool) (m n : M B) (w : World)
      → Outcome P Q (m w)
      → Outcome P Q (n w)
      → Outcome P Q (branch b m n w)
  unfolding branch
  branch-Outcome true m n w h k = h
  branch-Outcome false m n w h k = k

  pub case_option-Outcome :
      {A : Type 0} (o : Option A) (m : M B) (f : A → M B) (w : World)
      → Outcome P Q (m w)
      → ((a : A) → Outcome P Q (f a w))
      → Outcome P Q (case_option o m f w)
  unfolding case_option
  case_option-Outcome none m f w h k = h
  case_option-Outcome (some a) m f w h k = k a

  released :
      (l : Lock) (r : Result B × World)
      → Outcome
          (λ w. P (record w { log = release l ∷ w.log }))
          (λ b w. Q b (record w { log = release l ∷ w.log }))
          r
      → Outcome P Q (and_then (ok r.0, r.1) (λ x. emit (release l) >> from_result x))
  unfolding steps
  released l (ok b, w) h = h
  released l (fail s, w) h = h

  pub with_lock-Outcome :
      (l : Lock) (m : M B) (w : World)
      → Outcome
          (λ v. P (record v { log = release l ∷ v.log }))
          (λ b v. Q b (record v { log = release l ∷ v.log }))
          (m (record w { log = acquire l ∷ w.log }))
      → Outcome P Q (with_lock l m w)
  unfolding with_lock ◌>>◌ ◌>>=◌ and_then emit attempt
  with_lock-Outcome l m w h = released l _ h

pub required-Outcome :
    (P : World → Type 0) (Q : Unit {0} → World → Type 0) (b : Bool) (s : Status) (w : World)
    → P w
    → (b ≡ true → Q tt w)
    → Outcome P Q (require b s w)
unfolding require pure return_status
required-Outcome P Q true s w p h = h refl
required-Outcome P Q false s w p h = p

pub ok-Outcome :
    {A : Type 0} (P : World → Type 0) (Q : A → World → Type 0) (r : Result A × World) (a : A)
    → r.0 ≡ ok a
    → Q a r.1
    → Outcome P Q r
ok-Outcome {A = A} P Q (ok b, w) a e q = subst (λ x. Q x w) (same a b (sym e)) q
  where
    same : (x y : A) → ok x ≡ ok y → x ≡ y
    same x y p = cc
ok-Outcome P Q (fail s, w) a e q = absurd cc

-- A test that holds, and a result that is there.
module _ {B : Type 0} (P : World → Type 0) (Q : B → World → Type 0) where
  pub met-Outcome :
      (b : Bool) (s : Status) (m : M B) (w : World)
      → b ≡ true
      → Outcome P Q (m w)
      → Outcome P Q ((require b s >> m) w)
  unfolding steps
  met-Outcome true s m w e h = h
  met-Outcome false s m w e h = absurd cc

  pub given-Outcome :
      {A : Type 0} (r : Result A) (a : A) (f : A → M B) (w : World)
      → r ≡ ok a
      → Outcome P Q (f a w)
      → Outcome P Q ((from_result r >>= f) w)
  unfolding steps
  given-Outcome r a f w e h = rw e h

-- What the outcome says of a value that was returned.
pub outcome_at :
    {A : Type 0} (P : World → Type 0) (Q : A → World → Type 0) (r : Result A × World) (a : A)
    → Outcome P Q r
    → r.0 ≡ ok a
    → Q a r.1
outcome_at P Q (ok b, w) a q e = subst (λ x. Q x w) (same b a e) q
  where
    same : {A : Type 0} (x y : A) → ok x ≡ ok y → x ≡ y
    same x y p = cc
outcome_at P Q (fail s, w) a q e = cc

-- A routine whose failure is undone.
module _ {A : Type 0} (P : World → Type 0) (Q : A → World → Type 0) where
  after_undo :
      (r : Result (Unit {0}) × World) (s : Status)
      → P r.1
      → Outcome P Q (and_then r (λ _ w. (fail s, w)))
  unfolding and_then
  after_undo (ok a, w) s p = p
  after_undo (fail t, w) s p = p

  undo_with-Outcome :
      (r : Result A × World) (undo : M (Unit {0}))
      → Keeps P undo
      → Outcome P Q r
      → Outcome P Q (undo_with undo r.0 r.1)
  unfolding undo_with pure ◌>>◌ ◌>>=◌ return_status
  undo_with-Outcome (ok a, w) undo k o = o
  undo_with-Outcome (fail s, w) undo k o = after_undo (undo w) s (k.at w o)

  pub on_failure-Outcome :
      (m : M A) (undo : M (Unit {0})) (w : World)
      → Keeps P undo
      → Outcome P Q (m w)
      → Outcome P Q (on_failure m undo w)
  unfolding on_failure ◌>>=◌ attempt and_then
  on_failure-Outcome m undo w k o = undo_with-Outcome (m w) undo k o
