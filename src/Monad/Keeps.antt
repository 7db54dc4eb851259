-- ===== src/Monad/Keeps.antt =====
-- Routines that keep a property of the world, on every path.
use tt_wind.Base.{ℕ, Bool, true, false, Option, none, some, ◌∷◌, ◌≡◌, refl}
use tt_wind.Status.{Status, Result, ok, fail}
use tt_wind.Kernel.{
  Region, Lock, OsCall, Event, Env, os, acquire, release, stall, mmio_read, mmio_write, cfg_read,
  cfg_write,
}
use tt_wind.Context.{Context, Shared, World}
use tt_wind.Monad.{
  M, and_then, ◌>>=◌, ◌>>◌, pure, return_status, require, from_result, attempt, ignore, when,
  branch, case_option, case_result, get_ctx, modify_ctx, modify_shared, emit, tell, undo_with,
  or_status, on_failure, from_option, with_lock, steps, as_status, read_reg, write_reg,
  get_bus_data, set_bus_data, delay, query_time, call, get_process, process_runs,
}

pub record Keeps {ℓ} {A : Type 0} (P : World → Type ℓ) (m : M A) : Type ℓ where
  pub at : (w : World) → P w → P (m w).1

-- A property that the event does not touch.
pub record Ignores {ℓ} (P : World → Type ℓ) (e : Event) : Type ℓ where
  pub at : (w : World) → P w → P (record w { log = e ∷ w.log })

-- A property that the update of the context does not touch.
pub record Overlooks {ℓ} (P : World → Type ℓ) (f : Context → Context) : Type ℓ where
  pub at : (w : World) → P w → P (record w { ctx = f w.ctx })

module _ {ℓ} (P : World → Type ℓ) where
  and_then-Keeps :
      {A B : Type 0} (r : Result A × World) (f : A → M B)
      → ((a : A) → Keeps P (f a))
      → P r.1
      → P (and_then r f).1
  unfolding steps
  and_then-Keeps (ok a, w) f h p = (h a).at w p
  and_then-Keeps (fail s, w) f h p = p

module _ {ℓ} {P : World → Type ℓ} where
  pub Keeps-bind :
      {A B : Type 0} (m : M A) (f : A → M B)
      → Keeps P m
      → ((a : A) → Keeps P (f a))
      → Keeps P (m >>= f)
  unfolding ◌>>=◌
  Keeps-bind m f km kf = record { at = λ w p. and_then-Keeps P (m w) f kf (km.at w p) }

  pub Keeps-seq :
      {B : Type 0} (m : M (Unit {0})) (n : M B) → Keeps P m → Keeps P n → Keeps P (m >> n)
  unfolding ◌>>◌
  Keeps-seq m n km kn = Keeps-bind m (λ _. n) km (λ _. kn)

  pub Keeps-pure : {A : Type 0} (a : A) → Keeps P (pure a)
  unfolding pure
  Keeps-pure a = record { at = λ w p. p }

  pub Keeps-return_status : {A : Type 0} (s : Status) → Keeps P (return_status {A = A} s)
  unfolding return_status
  Keeps-return_status s = record { at = λ w p. p }

  pub Keeps-require : (b : Bool) (s : Status) → Keeps P (require b s)
  unfolding steps
  Keeps-require true s = record { at = λ w p. p }
  Keeps-require false s = record { at = λ w p. p }

  pub Keeps-from_result : {A : Type 0} (r : Result A) → Keeps P (from_result r)
  unfolding from_result
  Keeps-from_result r = record { at = λ w p. p }

  pub Keeps-from_option : {A : Type 0} (o : Option A) (s : Status) → Keeps P (from_option o s)
  unfolding steps
  Keeps-from_option none s = record { at = λ w p. p }
  Keeps-from_option (some a) s = record { at = λ w p. p }

  pub Keeps-attempt : {A : Type 0} (m : M A) → Keeps P m → Keeps P (attempt m)
  unfolding attempt
  Keeps-attempt m km = record { at = λ w p. km.at w p }

  pub Keeps-ignore : {A : Type 0} (m : M A) → Keeps P m → Keeps P (ignore m)
  unfolding ignore
  Keeps-ignore m km = Keeps-bind _ _ (Keeps-attempt m km) (λ _. Keeps-pure tt)

  pub Keeps-when : (b : Bool) (m : M (Unit {0})) → Keeps P m → Keeps P (when b m)
  unfolding when
  Keeps-when true m km = km
  Keeps-when false m km = Keeps-pure tt

  pub Keeps-branch :
      {A : Type 0} (b : Bool) (m n : M A) → Keeps P m → Keeps P n → Keeps P (branch b m n)
  unfolding branch
  Keeps-branch true m n km kn = km
  Keeps-branch false m n km kn = kn

  pub Keeps-case_option :
      {A B : Type 0} (o : Option A) (m : M B) (f : A → M B)
      → Keeps P m
      → ((a : A) → Keeps P (f a))
      → Keeps P (case_option o m f)
  unfolding case_option
  Keeps-case_option none m f km kf = km
  Keeps-case_option (some a) m f km kf = kf a

  pub Keeps-case_result :
      {A B : Type 0} (r : Result A) (f : A → M B) (g : Status → M B)
      → ((a : A) → Keeps P (f a))
      → ((s : Status) → Keeps P (g s))
      → Keeps P (case_result r f g)
  unfolding case_result
  Keeps-case_result (ok a) f g kf kg = kf a
  Keeps-case_result (fail s) f g kf kg = kg s

  pub Keeps-get_ctx : Keeps P get_ctx
  unfolding get_ctx
  Keeps-get_ctx = record { at = λ w p. p }

  pub Keeps-modify_ctx : (f : Context → Context) → Overlooks P f → Keeps P (modify_ctx f)
  unfolding modify_ctx
  Keeps-modify_ctx f h = record { at = λ w p. h.at w p }

  pub Keeps-emit : (e : Event) → Ignores P e → Keeps P (emit e)
  unfolding emit
  Keeps-emit e h = record { at = λ w p. h.at w p }

  pub Keeps-tell : (c : OsCall) → Ignores P (os c) → Keeps P (tell c)
  unfolding tell
  Keeps-tell c h = Keeps-emit (os c) h

  pub Keeps-or_status : {A : Type 0} (m : M A) (s : Status) → Keeps P m → Keeps P (or_status m s)
  unfolding or_status
  Keeps-or_status m s km =
      Keeps-bind _ _ (Keeps-attempt m km) (λ r. Keeps-from_result (as_status s r))

  pub Keeps-undo_with :
      {A : Type 0} (undo : M (Unit {0})) (r : Result A) → Keeps P undo → Keeps P (undo_with undo r)
  unfolding undo_with
  Keeps-undo_with undo (ok a) k = Keeps-pure a
  Keeps-undo_with undo (fail s) k = Keeps-seq undo _ k (Keeps-return_status s)

  pub Keeps-on_failure :
      {A : Type 0} (m : M A) (undo : M (Unit {0}))
      → Keeps P m
      → Keeps P undo
      → Keeps P (on_failure m undo)
  unfolding on_failure
  Keeps-on_failure m undo km ku =
      Keeps-bind _ _ (Keeps-attempt m km) (λ r. Keeps-undo_with undo r ku)

  pub Keeps-with_lock :
      {A : Type 0} (l : Lock) (m : M A)
      → Ignores P (acquire l)
      → Ignores P (release l)
      → Keeps P m
      → Keeps P (with_lock l m)
  unfolding with_lock
  Keeps-with_lock l m ia ir km = Keeps-seq _ _ (Keeps-emit _ ia) (
      Keeps-bind _ _ (Keeps-attempt m km)
        (λ r. Keeps-seq _ _ (Keeps-emit _ ir) (Keeps-from_result r)))

  pub Keeps-modify_shared :
      (f : Shared → Shared)
      → Overlooks P (λ c. record c { shared = f c.shared })
      → Keeps P (modify_shared f)
  unfolding modify_shared
  Keeps-modify_shared f h = Keeps-modify_ctx _ h

-- The same at one world, where what was tested is known in the rest.
module _ {ℓ} {B : Type 0} (P : World → Type ℓ) (w : World) (p : P w) where
  pub require-at :
      (b : Bool) (s : Status) (m : M B) → (b ≡ true → P (m w).1) → P ((require b s >> m) w).1
  unfolding steps
  require-at true s m h = h refl
  require-at false s m h = p

  pub option-at :
      {A : Type 0} (o : Option A) (s : Status) (f : A → M B)
      → ((a : A) → o ≡ some a → P (f a w).1)
      → P ((from_option o s >>= f) w).1
  unfolding steps
  option-at (some a) s f h = h a refl
  option-at none s f h = p

module _ {ℓ} ⦃env : Env⦄ {P : World → Type ℓ} where
  pub Keeps-read_reg : (r : Region) (o : ℕ) → Ignores P (mmio_read r o) → Keeps P (read_reg r o)
  unfolding read_reg
  Keeps-read_reg r o h = record { at = λ w p. h.at w p }

  pub Keeps-write_reg :
      (r : Region) (o v : ℕ) → Ignores P (mmio_write r o v) → Keeps P (write_reg r o v)
  unfolding write_reg
  Keeps-write_reg r o v h = Keeps-emit _ h

  pub Keeps-get_bus_data : (o n : ℕ) → Ignores P (cfg_read o n) → Keeps P (get_bus_data o n)
  unfolding get_bus_data
  Keeps-get_bus_data o n h = record { at = λ w p. h.at w p }

  pub Keeps-set_bus_data : (o v n : ℕ) → Ignores P (cfg_write o v n) → Keeps P (set_bus_data o v n)
  unfolding set_bus_data
  Keeps-set_bus_data o v n h = record { at = λ w p. h.at w p }

  pub Keeps-delay : (us : ℕ) → Ignores P (stall us) → Keeps P (delay us)
  unfolding delay
  Keeps-delay us h = Keeps-emit _ h

  pub Keeps-query_time : Keeps P query_time
  unfolding query_time
  Keeps-query_time = record { at = λ w p. p }

  pub Keeps-call : (c : OsCall) → Ignores P (os c) → Keeps P (call c)
  unfolding call
  Keeps-call c h = record { at = λ w p. h.at w p }

  pub Keeps-get_process : Keeps P get_process
  unfolding get_process
  Keeps-get_process = record { at = λ w p. p }

  pub Keeps-process_runs : (n : ℕ) → Keeps P (process_runs n)
  unfolding process_runs
  Keeps-process_runs n = record { at = λ w p. p }

pub ruleset keeps_rules = (
  Keeps-bind, Keeps-seq, Keeps-pure, Keeps-return_status, Keeps-require, Keeps-from_result,
  Keeps-from_option, Keeps-attempt, Keeps-ignore, Keeps-when, Keeps-branch, Keeps-case_option,
  Keeps-case_result, Keeps-get_ctx, Keeps-modify_ctx, Keeps-emit, Keeps-tell, Keeps-or_status,
  Keeps-undo_with, Keeps-on_failure, Keeps-with_lock, Keeps-modify_shared, Keeps-read_reg,
  Keeps-write_reg, Keeps-get_bus_data, Keeps-set_bus_data, Keeps-delay, Keeps-query_time,
  Keeps-call, Keeps-get_process, Keeps-process_runs,
)
