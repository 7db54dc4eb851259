-- ===== src/System/Fenced/Callbacks.antt =====
-- A handle that a reset has left behind, over all callbacks.
use tt_wind.Base.{
  ℕ, ◌+◌, ◌^◌, ◌<◌, Bool, true, false, some, List, [], ◌∷◌, ◌≡◌, refl, ◌==◌, ◌||◌, length, arith,
}
use tt_wind.Status.{fail, device_removed}
use tt_wind.Kernel.{Env}
use tt_wind.Context.{World}
use tt_wind.Monad.{modify_ctx}
use tt_wind.Monad.Keeps.{Keeps, Keeps-seq, Keeps-ignore}
use tt_wind.Device.Prepare.{file_create}
use tt_wind.Device.Power.{self_managed_io_init, self_managed_io_restart, self_managed_io_suspend}
use tt_wind.Frame.Firmware.{power_down-Keeps, sysmem_invalidate-Keeps}
use tt_wind.Queue.{Ioctl, file_of, dispatch, io_device_control}
use tt_wind.System.{
  Callback, ioctl, create, cleanup, prepare, release, init, restart, suspend, run_callback,
}
use tt_wind.System.Dark.{run_all}
use tt_wind.System.Flags.Routines.{
  file_cleanup-Flags, prepare_hardware-Flags, release_hardware-Flags,
}
use tt_wind.System.Fenced.{Older, Older-IsFlags, Older-IsControl}
use tt_wind.System.Fenced.Routines.{kept, power_up-Older, sysmem_arm-Older}
use tt_wind.System.Fenced.Ioctls.{dispatch-Older, stale_refused}

-- The handle is opened (again) among the callbacks.
abbrev opens : ℕ → Callback → Bool
opens file (create f) = f == file
opens file _ = false

unfoldable pub is_opened : ℕ → List Callback → Bool
is_opened file [] = false
is_opened file (c ∷ cs) = opens file c || is_opened file cs

module _ ⦃env : Env⦄ (file n : ℕ) where
  init-Older : Keeps (Older file n) self_managed_io_init
  unfolding self_managed_io_init
  init-Older =
      Keeps-seq _ _ (Keeps-ignore _ (power_up-Older file n))
        (Keeps-ignore _ (sysmem_arm-Older file n))

  suspend-Older : Keeps (Older file n) self_managed_io_suspend
  unfolding self_managed_io_suspend
  suspend-Older =
      Keeps-seq _ _ (sysmem_invalidate-Keeps (Older-IsControl file n))
        (power_down-Keeps (Older-IsControl file n))

  callback-Older :
      (c : Callback) (w : World)
      → n + 1 < 2 ^ 64
      → opens file c ≡ false
      → Older file n w
      → Older file (n + 1) (run_callback c w)
  unfolding run_callback io_device_control self_managed_io_restart file_create modify_ctx
  callback-Older (ioctl code) w t h p = (dispatch-Older file n t code).at w p
  callback-Older (create f) w t h p = (ground (arith, p.0, h), omega (arith, p.1))
  callback-Older (cleanup f) w t h p =
      (kept file n _ (file_cleanup-Flags (Older-IsFlags file n) f)).at w p
  callback-Older (prepare ds) w t h p =
      (kept file n _ (prepare_hardware-Flags (Older-IsFlags file n) ds)).at w p
  callback-Older release w t h p =
      (kept file n _ (release_hardware-Flags (Older-IsFlags file n))).at w p
  callback-Older init w t h p = (kept file n _ init-Older).at w p
  callback-Older restart w t h p = (kept file n _ init-Older).at w p
  callback-Older suspend w t h p = (kept file n _ suspend-Older).at w p

neither : (a b : Bool) → (a || b) ≡ false → (a ≡ false) × (b ≡ false)
neither true b h = absurd cc
neither false b h = (refl, h)

module _ ⦃env : Env⦄ (file : ℕ) where
  run_all-Older :
      (n : ℕ) (cs : List Callback) (w : World)
      → n + length cs < 2 ^ 64
      → is_opened file cs ≡ false
      → Older file n w
      → Older file (n + length cs) (run_all cs w)
  unfolding run_all is_opened
  run_all-Older n [] w t h p = (p.0, omega (arith, p.1))
  run_all-Older n (c ∷ cs) w t h p =
      let s = neither (opens file c) _ h in
      let q = callback-Older file n c w (omega (arith, t)) s.0 p in
      let o = run_all-Older (n + 1) cs _ (omega (arith, t)) s.1 q in (o.0, omega (arith, o.1))

  -- A handle whose generation is below the reset generation: after whatever callbacks in whatever
  -- order, none of which opens the handle, every ioctl on it fails with STATUS_DEVICE_REMOVED and
  -- changes nothing. The generation does not come to its greatest value meanwhile.
  pub run_all-stale :
      (cs : List Callback) (w : World) (code : Ioctl)
      → w.ctx.file_generation file < w.ctx.reset_generation
      → w.ctx.reset_generation + length cs < 2 ^ 64
      → is_opened file cs ≡ false
      → file_of code ≡ some file
      → dispatch code (run_all cs w) ≡ (fail device_removed, run_all cs w)
  run_all-stale cs w code l t h e =
      stale_refused code (run_all cs w) file e
        (run_all-Older w.ctx.reset_generation cs w t h (l, omega arith)).0
