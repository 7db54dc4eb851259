-- ===== src/Monad/OnOk.antt =====
-- What holds after a routine that succeeds.
use tt_wind.Base.{Bool, true, false, Option, none, some, ◌∷◌, ◌≡◌, refl, ap, subst}
use tt_wind.Status.{Status, Result, ok, fail}
use tt_wind.Kernel.{Lock, acquire, release}
use tt_wind.Context.{Context, World}
use tt_wind.Monad.{
  M, and_then, ◌>>=◌, ◌>>◌, pure, require, from_result, from_option, attempt, with_lock, emit,
  get_ctx, steps,
}
use tt_wind.Monad.Keeps.{Keeps}

abbrev ok_or : {A : Type 0} → Result A → A → A
ok_or (ok a) d = a
ok_or (fail s) d = d

-- `Q` holds of the value and the world, unless it is a failure.
pub record OnOk {A : Type 0} (Q : A → World → Type 0) (r : Result A × World) : Type 0 where
  pub at : (a : A) → r.0 ≡ ok a → Q a r.1

module _ {A : Type 0} {Q : A → World → Type 0} where
  pub returned-OnOk : (a : A) (w : World) → Q a w → OnOk Q (ok a, w)
  returned-OnOk a w q = record { at = λ b e. subst (λ x. Q x w) (ap (λ r. ok_or r a) e) q }

  pub failed-OnOk : (s : Status) (w : World) → OnOk Q (fail s, w)
  failed-OnOk s w = record { at = λ b e. cc }

  pub pure-OnOk : (a : A) (w : World) → Q a w → OnOk Q (pure a w)
  unfolding pure
  pure-OnOk a w q = returned-OnOk a w q

module _ {A B : Type 0} {Q : B → World → Type 0} where
  and_then-OnOk :
      {R : A → World → Type 0} (r : Result A × World) (f : A → M B)
      → OnOk R r
      → ((a : A) (w : World) → R a w → OnOk Q (f a w))
      → OnOk Q (and_then r f)
  unfolding and_then
  and_then-OnOk (ok a, w) f h k = k a w (h.at a refl)
  and_then-OnOk (fail s, w) f h k = failed-OnOk s w

  pub bind-OnOk :
      {R : A → World → Type 0} (m : M A) (f : A → M B) (w : World)
      → OnOk R (m w)
      → ((a : A) (w' : World) → R a w' → OnOk Q (f a w'))
      → OnOk Q ((m >>= f) w)
  unfolding ◌>>=◌
  bind-OnOk m f w h k = and_then-OnOk (m w) f h k

  -- A routine of which only the frame matters.
  pub frame-OnOk :
      {P : World → Type 0} (m : M A) (f : A → M B) (w : World)
      → Keeps P m
      → P w
      → ((a : A) (w' : World) → P w' → OnOk Q (f a w'))
      → OnOk Q ((m >>= f) w)
  frame-OnOk {P = P} m f w km p k =
      bind-OnOk {R = λ _. P} m f w (record { at = λ a e. km.at w p }) k

module _ {B : Type 0} {Q : B → World → Type 0} where
  pub require-OnOk :
      (b : Bool) (s : Status) (m : M B) (w : World)
      → (b ≡ true → OnOk Q (m w))
      → OnOk Q ((require b s >> m) w)
  unfolding steps
  require-OnOk true s m w h = h refl
  require-OnOk false s m w h = failed-OnOk s w

  pub result-OnOk :
      {A : Type 0} (r : Result A) (f : A → M B) (w : World)
      → ((a : A) → r ≡ ok a → OnOk Q (f a w))
      → OnOk Q ((from_result r >>= f) w)
  unfolding steps
  result-OnOk (ok a) f w h = h a refl
  result-OnOk (fail s) f w h = failed-OnOk s w

  pub option-OnOk :
      {A : Type 0} (o : Option A) (s : Status) (f : A → M B) (w : World)
      → ((a : A) → o ≡ some a → OnOk Q (f a w))
      → OnOk Q ((from_option o s >>= f) w)
  unfolding steps
  option-OnOk (some a) s f w h = h a refl
  option-OnOk none s f w h = failed-OnOk s w

  pub get_ctx-OnOk :
      (f : Context → M B) (w : World) → OnOk Q (f w.ctx w) → OnOk Q ((get_ctx >>= f) w)
  unfolding steps
  get_ctx-OnOk f w h = h

  released-OnOk :
      (l : Lock) (r : Result B × World)
      → OnOk (λ b w. Q b (record w { log = release l ∷ w.log })) r
      → OnOk Q (and_then (ok r.0, r.1) (λ x. emit (release l) >> from_result x))
  unfolding steps
  released-OnOk l (ok b, w) h = returned-OnOk b _ (h.at b refl)
  released-OnOk l (fail s, w) h = failed-OnOk s _

  pub with_lock-OnOk :
      (l : Lock) (m : M B) (w : World)
      → OnOk
          (λ b w'. Q b (record w' { log = release l ∷ w'.log }))
          (m (record w { log = acquire l ∷ w.log }))
      → OnOk Q (with_lock l m w)
  unfolding with_lock ◌>>◌ ◌>>=◌ and_then emit attempt
  with_lock-OnOk l m w h = released-OnOk l _ h
