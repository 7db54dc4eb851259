-- ===== src/Monad/Settles.antt =====
-- Routines that end by themselves: of no failure is the status that of a polling loop of the model
-- that ran out of fuel.
use tt_wind.Base.{ℕ, ◌+◌, ◌*◌, ◌≤◌, arith, Bool, true, false, List, ◌∷◌, ◌≡◌, refl}
use tt_wind.Status.{Status, Result, ok, fail, out_of_fuel}
use tt_wind.Kernel.{Region, Lock, Event, Log, stall, acquire, release, Env}
use tt_wind.Context.{Context, World}
use tt_wind.Monad.{
  M, and_then, ◌>>=◌, ◌>>◌, pure, return_status, require, from_result, attempt, when, branch,
  case_result, get_ctx, modify_ctx, emit, with_lock, steps, read_reg, write_reg, delay, query_time,
}
use tt_wind.Monad.Keeps.{Keeps}

abbrev pub is_real : Status → Bool
is_real out_of_fuel = false
is_real _ = true

-- `V` of the value, or a status of the source.
abbrev pub Good : {A : Type 0} → (A → Type 0) → Result A → Type 0
Good V (ok a) = V a
Good V (fail s) = is_real s ≡ true

abbrev pub Any : {A : Type 0} → A → Type 0
Any a = Unit {0}

pub record Ends {A : Type 0} (V : A → Type 0) (r : Result A × World) : Type 0 where
  pub at : Good V r.0

pub record Settles {A : Type 0} (m : M A) : Type 0 where
  pub at : (w : World) → Good {A = A} Any (m w).0

and_then-Good :
    {A B : Type 0} (V : B → Type 0) (r : Result A × World) (f : A → M B)
    → Good Any r.0
    → ((a : A) (w : World) → Good V (f a w).0)
    → Good V (and_then r f).0
unfolding and_then
and_then-Good V (ok a, w) f h k = k a w
and_then-Good V (fail s, w) f h k = h

pub Settles-bind :
    {A B : Type 0} (m : M A) (f : A → M B)
    → Settles m
    → ((a : A) → Settles (f a))
    → Settles (m >>= f)
unfolding ◌>>=◌
Settles-bind m f km kf = record {
  at = λ w. and_then-Good Any (m w) f (km.at w) (λ a w'. (kf a).at w');
}

pub Settles-seq :
    {B : Type 0} (m : M (Unit {0})) (n : M B) → Settles m → Settles n → Settles (m >> n)
unfolding ◌>>◌
Settles-seq m n km kn = Settles-bind m (λ _. n) km (λ _. kn)

pub Settles-pure : {A : Type 0} (a : A) → Settles (pure a)
unfolding pure
Settles-pure a = record { at = λ w. tt }

pub Settles-return_status :
    {A : Type 0} (s : Status) → is_real s ≡ true → Settles (return_status {A = A} s)
unfolding return_status
Settles-return_status s h = record { at = λ w. h }

pub Settles-require : (b : Bool) (s : Status) → is_real s ≡ true → Settles (require b s)
unfolding steps
Settles-require true s h = record { at = λ w. tt }
Settles-require false s h = record { at = λ w. h }

pub Settles-attempt : {A : Type 0} (m : M A) → Settles (attempt m)
unfolding attempt
Settles-attempt m = record { at = λ w. tt }

pub Settles-branch :
    {A : Type 0} (b : Bool) (m n : M A) → Settles m → Settles n → Settles (branch b m n)
unfolding branch
Settles-branch true m n km kn = km
Settles-branch false m n km kn = kn

pub Settles-case_result :
    {A B : Type 0} (r : Result A) (f : A → M B) (g : Status → M B)
    → ((a : A) → Settles (f a))
    → ((s : Status) → Settles (g s))
    → Settles (case_result r f g)
unfolding case_result
Settles-case_result (ok a) f g kf kg = kf a
Settles-case_result (fail s) f g kf kg = kg s

pub Settles-when : (b : Bool) (m : M (Unit {0})) → Settles m → Settles (when b m)
unfolding when pure
Settles-when true m km = km
Settles-when false m km = record { at = λ w. tt }

pub Settles-get_ctx : Settles get_ctx
unfolding get_ctx
Settles-get_ctx = record { at = λ w. tt }

pub Settles-modify_ctx : (f : Context → Context) → Settles (modify_ctx f)
unfolding modify_ctx
Settles-modify_ctx f = record { at = λ w. tt }

module _ ⦃env : Env⦄ where
  pub Settles-read_reg : (r : Region) (o : ℕ) → Settles (read_reg r o)
  unfolding read_reg
  Settles-read_reg r o = record { at = λ w. tt }

  pub Settles-write_reg : (r : Region) (o v : ℕ) → Settles (write_reg r o v)
  unfolding write_reg emit
  Settles-write_reg r o v = record { at = λ w. tt }

  pub Settles-delay : (us : ℕ) → Settles (delay us)
  unfolding delay emit
  Settles-delay us = record { at = λ w. tt }

  pub Settles-query_time : Settles query_time
  unfolding query_time
  Settles-query_time = record { at = λ w. tt }

pub ruleset settles_rules = (
  refl, Settles-bind, Settles-seq, Settles-pure, Settles-return_status, Settles-require,
  Settles-attempt, Settles-branch, Settles-case_result, Settles-when, Settles-get_ctx,
  Settles-modify_ctx, Settles-read_reg, Settles-write_reg, Settles-delay, Settles-query_time,
)

module _ {A B : Type 0} where
  valued-Good :
      (U : A → Type 0) (V : B → Type 0) (r : Result A × World) (f : A → M B)
      → Good U r.0
      → ((a : A) (w : World) → U a → Good V (f a w).0)
      → Good V (and_then r f).0
  unfolding and_then
  valued-Good U V (ok a, w) f h k = k a w h
  valued-Good U V (fail s, w) f h k = h

  -- A bind of which the continuation knows something of the value.
  pub Ends-bind :
      (U : A → Type 0) (V : B → Type 0) (m : M A) (f : A → M B) (w : World)
      → Ends U (m w)
      → ((a : A) (w' : World) → U a → Ends V (f a w'))
      → Ends V ((m >>= f) w)
  unfolding ◌>>=◌
  Ends-bind U V m f w h k = record { at = valued-Good U V (m w) f h.at (λ a w' u. (k a w' u).at) }

module _ {A : Type 0} where
  pub Settles-Ends : {m : M A} → Settles m → (w : World) → Ends Any (m w)
  Settles-Ends k w = record { at = k.at w }

  -- What `attempt` hands on is the result itself.
  pub attempt-Ends :
      (V : A → Type 0) (m : M A) (w : World) → Ends V (m w) → Ends (Good V) (attempt m w)
  unfolding attempt
  attempt-Ends V m w h = record { at = h.at }

  pub pure-Ends : (V : A → Type 0) (a : A) (w : World) → V a → Ends V (pure a w)
  unfolding pure
  pure-Ends V a w h = record { at = h }

  pub branch-Ends :
      (V : A → Type 0) (b : Bool) (m n : M A) (w : World)
      → (b ≡ true → Ends V (m w))
      → (b ≡ false → Ends V (n w))
      → Ends V (branch b m n w)
  unfolding branch
  branch-Ends V true m n w h k = h refl
  branch-Ends V false m n w h k = k refl

  pub result-Ends :
      (V : A → Type 0) (r : Result A) (w : World) → Good V r → Ends V (from_result r w)
  unfolding from_result
  result-Ends V r w g = record { at = g }

  released-Ends :
      (V : A → Type 0) (l : Lock) (r : Result A × World)
      → Good V r.0
      → Ends V (and_then (ok r.0, r.1) (λ x. emit (release l) >> from_result x))
  unfolding steps
  released-Ends V l r g = record { at = g }

  pub with_lock-Ends :
      (V : A → Type 0) (l : Lock) (m : M A) (w : World)
      → Ends V (m (record w { log = acquire l ∷ w.log }))
      → Ends V (with_lock l m w)
  unfolding with_lock ◌>>◌ ◌>>=◌ and_then emit attempt
  with_lock-Ends V l m w h = released-Ends V l _ h.at

-- The clock does not go back, and a delay takes its time (KeDelayExecutionThread waits at least
-- the interval; an interrupt-time unit is 100 ns).
pub record IsClock (env : Env) : Type 0 where
  pub forward : (e : Event) (l : Log) → env.interrupt_time l ≤ env.interrupt_time (e ∷ l)
  pub delays :
      (us : ℕ) (l : Log) → env.interrupt_time l + 10 * us ≤ env.interrupt_time (stall us ∷ l)

module _ ⦃env : Env⦄ where
  abbrev pub time : World → ℕ
  time w = env.interrupt_time w.log

  abbrev pub After : ℕ → World → Type 0
  After t w = t ≤ time w

  timed-Good :
      {A B : Type 0} (U : A → Type 0) (V : B → Type 0) (t : ℕ) (r : Result A × World) (f : A → M B)
      → After t r.1
      → Good U r.0
      → ((a : A) (w : World) → U a → After t w → Good V (f a w).0)
      → Good V (and_then r f).0
  unfolding and_then
  timed-Good U V t (ok a, w) f h g k = k a w g h
  timed-Good U V t (fail s, w) f h g k = g

  -- A bind of which the continuation knows that the clock has not gone back.
  pub timed-bind :
      {A B : Type 0} (U : A → Type 0) (V : B → Type 0) (t : ℕ) (m : M A) (f : A → M B) (w : World)
      → Keeps (After t) m
      → After t w
      → Ends U (m w)
      → ((a : A) (w' : World) → U a → After t w' → Ends V (f a w'))
      → Ends V ((m >>= f) w)
  unfolding ◌>>=◌
  timed-bind U V t m f w k h g c = record {
    at = timed-Good U V t (m w) f (k.at w h) g.at (λ a w' u h'. (c a w' u h').at);
  }

  -- A loop's tail: a pause, then the next round, which starts that much later.
  pub pause-Ends :
      {A : Type 0} (V : A → Type 0) (c : IsClock env) (t us : ℕ) (m : M A) (w : World)
      → After t w
      → ((w' : World) → After (t + 10 * us) w' → Ends V (m w'))
      → Ends V ((delay us >> m) w)
  unfolding steps
  pause-Ends V c t us m w h k =
      let w' : World = record w { log = stall us ∷ w.log } in
      k w' (later (time w) (time w') h (c.delays us w.log))
    where
      later : (x y : ℕ) → t ≤ x → x + 10 * us ≤ y → t + 10 * us ≤ y
      later x y p q = omega arith

  pub clock-Ends :
      {A : Type 0} (V : A → Type 0) (f : ℕ → M A) (w : World)
      → Ends V (f (time w) w)
      → Ends V ((query_time >>= f) w)
  unfolding steps
  clock-Ends V f w h = h
