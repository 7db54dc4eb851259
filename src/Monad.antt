-- ===== src/Monad.antt =====
-- A routine of the driver as a step on the device context and the log, with early return:
-- a failure keeps the state that was reached. The primitives are the calls of Kernel.antt.
pub mod Keeps
pub mod OnOk
pub mod Settles
pub mod Outcome
pub mod Moves
use tt_wind.Base.{ℕ, Bool, true, false, Option, none, some, List, ◌∷◌, take, u32}
use tt_wind.Status.{Status, Result, ok, fail}
use tt_wind.Kernel.{
  Region, Lock, OsCall, Event, mmio_read, mmio_write, cfg_read, cfg_write, stall, acquire, release,
  os, Env,
}
use tt_wind.Context.{Context, Shared, World}

abbrev pub M : Type 0 → Type 0
M A = World → Result A × World

unfoldable pub and_then : {A B : Type 0} → Result A × World → (A → M B) → Result B × World
and_then (ok a, w) f = f a w
and_then (fail s, w) f = (fail s, w)

infixl 5 ◌>>=◌ ◌>>◌
unfoldable pub ◌>>=◌ : {A B : Type 0} → M A → (A → M B) → M B
(m >>= f) w = and_then (m w) f

unfoldable pub ◌>>◌ : {B : Type 0} → M (Unit {0}) → M B → M B
m >> k = m >>= λ _. k

unfoldable pub pure : {A : Type 0} → A → M A
pure a w = (ok a, w)

unfoldable pub return_status : {A : Type 0} → Status → M A
return_status s w = (fail s, w)

-- `if (!test) return s;`
unfoldable pub require : Bool → Status → M (Unit {0})
require true s = pure tt
require false s = return_status s

-- A result that was computed elsewhere.
unfoldable pub from_result : {A : Type 0} → Result A → M A
from_result r w = (r, w)

-- A call whose status is looked at, `status = f(…)`, without a return.
unfoldable pub attempt : {A : Type 0} → M A → M (Result A)
attempt m w = let (r, w') = m w in (ok r, w')

-- `(VOID)f(…)`
unfoldable pub ignore : {A : Type 0} → M A → M (Unit {0})
ignore m = attempt m >>= λ _. pure tt

unfoldable pub when : Bool → M (Unit {0}) → M (Unit {0})
when true m = m
when false m = pure tt

-- `if (test) … else …`, and the case splits on a pointer that may be NULL and on a status.
unfoldable pub branch : {A : Type 0} → Bool → M A → M A → M A
branch true m n = m
branch false m n = n

unfoldable pub case_option : {A B : Type 0} → Option A → M B → (A → M B) → M B
case_option none m f = m
case_option (some a) m f = f a

unfoldable pub case_result : {A B : Type 0} → Result A → (A → M B) → (Status → M B) → M B
case_result (ok a) f g = f a
case_result (fail s) f g = g s

unfoldable pub get_ctx : M Context
get_ctx w = (ok w.ctx, w)

unfoldable pub modify_ctx : (Context → Context) → M (Unit {0})
modify_ctx f w = (ok tt, record w { ctx = f w.ctx })

unfoldable pub modify_shared : (Shared → Shared) → M (Unit {0})
modify_shared f = modify_ctx (λ c. record c { shared = f c.shared })

unfoldable pub emit : Event → M (Unit {0})
emit e w = (ok tt, record w { log = e ∷ w.log })

unfoldable pub tell : OsCall → M (Unit {0})
tell c = emit (os c)

-- `if (p == NULL) return s;`, whatever made it NULL.
abbrev pub as_status : {A : Type 0} → Status → Result A → Result A
as_status s (ok a) = ok a
as_status s (fail _) = fail s

unfoldable pub or_status : {A : Type 0} → M A → Status → M A
or_status m s = attempt m >>= λ r. from_result (as_status s r)

-- `if (!NT_SUCCESS(status)) { undo; return status; }`
unfoldable pub undo_with : {A : Type 0} → M (Unit {0}) → Result A → M A
undo_with undo (ok a) = pure a
undo_with undo (fail s) = undo >> return_status s

unfoldable pub on_failure : {A : Type 0} → M A → M (Unit {0}) → M A
on_failure m undo = attempt m >>= undo_with undo

unfoldable pub from_option : {A : Type 0} → Option A → Status → M A
from_option none s = return_status s
from_option (some a) s = pure a

-- A section between WdfWaitLockAcquire and WdfWaitLockRelease; it is left on every path.
unfoldable pub with_lock : {A : Type 0} → Lock → M A → M A
with_lock l m = do emit (acquire l); r ← attempt m; emit (release l); from_result r

module _ ⦃env : Env⦄ where
  unfoldable pub read_reg : Region → ℕ → M ℕ
  read_reg r offset w =
      (ok (u32 (env.mmio_value w.log r offset)), record w { log = mmio_read r offset ∷ w.log })

  unfoldable pub write_reg : Region → ℕ → ℕ → M (Unit {0})
  write_reg r offset value = emit (mmio_write r offset value)

  -- GetBusData never writes more than the length asked for.
  unfoldable pub get_bus_data : ℕ → ℕ → M (List ℕ)
  get_bus_data offset len w = (
    ok (take len (env.bus_data w.log offset len)),
    record w { log = cfg_read offset len ∷ w.log },
  )

  -- Whether SetBusData returned the length.
  unfoldable pub set_bus_data : ℕ → ℕ → ℕ → M Bool
  set_bus_data offset value len w = (
    ok (env.bus_accepts w.log offset value len),
    record w { log = cfg_write offset value len ∷ w.log },
  )

  unfoldable pub delay : ℕ → M (Unit {0})
  delay microseconds = emit (stall microseconds)

  unfoldable pub query_time : M ℕ
  query_time w = (ok (env.interrupt_time w.log), w)

  -- A kernel routine that can fail.
  unfoldable pub call : OsCall → M ℕ
  call c w = (env.os_answer w.log c, record w { log = os c ∷ w.log })

  unfoldable pub get_process : M ℕ
  get_process w = (ok (env.current_process w.log), w)

  unfoldable pub process_runs : ℕ → M Bool
  process_runs p w = (ok (env.is_running w.log p), w)

-- To compute with a routine: name this one on an `unfolding` line.
unfoldable pub steps : Unit {0}
unfolding and_then ◌>>=◌ ◌>>◌ pure return_status require from_result attempt ignore when branch
    case_option case_result get_ctx modify_ctx modify_shared emit tell undo_with or_status
    on_failure from_option with_lock read_reg write_reg get_bus_data set_bus_data delay query_time
    call get_process process_runs
steps = tt
