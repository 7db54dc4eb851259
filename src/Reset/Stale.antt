-- ===== src/Reset/Stale.antt =====
-- The handles after a RESET_DEVICE (driver/reset.c) at the dispatcher (driver/queue.c).
use tt_wind.Base.{
  ℕ, ◌+◌, ◌^◌, ◌≤◌, ◌<◌, true, false, Option, none, some, ◌≡◌, refl, ap, ap₂, ◌∙◌, ◌!=◌, is_some_of,
  u64, arith,
}
use tt_wind.Status.{ok, fail, device_removed}
use tt_wind.Kernel.{Env}
use tt_wind.Context.{Context, World}
use tt_wind.Request.{Request, ResetIn}
use tt_wind.Reset.Arm.{reset_device}
use tt_wind.Reset.Fence.{carried, reset_device-arms}
use tt_wind.Queue.{Ioctl, file_of, is_stale, dispatch}
use tt_wind.Queue.Fences.{dispatch_stale}

old_ne_new : (a g : ℕ) → a ≤ g → g + 1 < 2 ^ 64 → (a != u64 (g + 1)) ≡ true
old_ne_new a g h l = ground arith

self_eq : (a : ℕ) → (a != a) ≡ false
self_eq a = ground arith

-- The tables after the fence, at another handle and at the request's.
other_is_old :
    (file : Option ℕ) (g f : ℕ) (t : ℕ → ℕ) → is_some_of f file ≡ false → carried file g t f ≡ t f
other_is_old none g f t h = refl
other_is_old (some r) g f t h = ground arith

own_is_new : (r g : ℕ) (t : ℕ → ℕ) → carried (some r) g t r ≡ g
own_is_new r g t = ground arith

stale_other :
    (old c : Context) (file : Option ℕ) (f : ℕ)
    → c.reset_generation ≡ u64 (old.reset_generation + 1)
    → c.file_generation ≡ carried file (u64 (old.reset_generation + 1)) old.file_generation
    → old.reset_generation + 1 < 2 ^ 64
    → old.file_generation f ≤ old.reset_generation
    → is_some_of f file ≡ false
    → is_stale c (some f) ≡ true
stale_other old c file f g t l h n =
    ap₂ ◌!=◌ (ap (λ table. table f) t ∙ other_is_old file _ f old.file_generation n) g
    ∙ old_ne_new _ _ h l

current_own :
    (old c : Context) (file : Option ℕ)
    → c.reset_generation ≡ u64 (old.reset_generation + 1)
    → c.file_generation ≡ carried file (u64 (old.reset_generation + 1)) old.file_generation
    → is_stale c file ≡ false
current_own old c none g t = refl
current_own old c (some r) g t =
    ap₂ ◌!=◌ (ap (λ table. table r) t ∙ own_is_new r _ old.file_generation) g ∙ self_eq _

module _ ⦃env : Env⦄ where
  -- After a RESET_DEVICE that succeeds, with the generation not at its greatest value, every ioctl
  -- on another handle whose generation is not above the one before the reset fails with
  -- STATUS_DEVICE_REMOVED and changes nothing, and the request's handle is not stale.
  pub reset_device-fences :
      (req : Request ResetIn) (w : World) (code : Ioctl) (f : ℕ)
      → (reset_device req w).0 ≡ ok tt
      → w.ctx.reset_generation + 1 < 2 ^ 64
      → w.ctx.file_generation f ≤ w.ctx.reset_generation
      → file_of code ≡ some f
      → is_some_of f req.file ≡ false
      → (dispatch code (reset_device req w).1 ≡ (fail device_removed, (reset_device req w).1))
        × (is_stale (reset_device req w).1.ctx req.file ≡ false)
  reset_device-fences req w code f done l h e n =
      let armed = reset_device-arms req w done in
      let c = (reset_device req w).1.ctx in
      (
        dispatch_stale code _
            (ap (is_stale c) e ∙ stale_other w.ctx c req.file f armed.1.1.0 armed.1.1.1.0 l h n),
        current_own w.ctx c req.file armed.1.1.0 armed.1.1.1.0,
      )
