-- ===== src/Queue/Restricted.antt =====
-- The dispatcher (driver/queue.c) and the power callbacks (driver/arc.c) between a reset and its
-- recovery.
use tt_wind.Base.{Bool, true, false, not, ◌&&◌, ◌≡◌, refl, subst, sym, Bool-cases, inl, inr}
use tt_wind.Kernel.{Env, Log}
use tt_wind.Context.{World}
use tt_wind.Monad.Keeps.{Keeps, keeps_rules}
use tt_wind.Queue.{
  Ioctl, get_device_info_code, map_bar_code, unmap_bar_code, allocate_tlb_code, free_tlb_code,
  configure_tlb_code, map_tlb_code, smc_msg_code, reset_device_code, arc_status_code,
  post_reset_code, query_sysmem_code, map_sysmem_code, sysmem_status_code, other_code, handle,
  dispatch, is_stale, file_of, is_allowed_restricted,
}
use tt_wind.Queue.Fences.{dispatch_stale, dispatch_restricted, dispatch_open}
use tt_wind.Device.Power.{self_managed_io_init, self_managed_io_restart, self_managed_io_suspend}
use tt_wind.Frame.Quiet.{Dark, Dark-IsDark, mmio_log, reset_device-Keeps}
use tt_wind.Frame.Dark.{
  query_sysmem-quiet, get_device_info-quiet, self_managed_io_init-quiet,
  self_managed_io_suspend-quiet,
}

abbrev pub is_post_reset : Ioctl → Bool
is_post_reset (post_reset_code r) = true
is_post_reset _ = false

module _ ⦃env : Env⦄ where
  -- The ioctls that pass the fence, but for POST_RESET.
  handle-Dark :
      (l : Log) (code : Ioctl)
      → is_allowed_restricted code ≡ true
      → is_post_reset code ≡ false
      → Keeps (Dark l) (handle code)
  unfolding handle
  handle-Dark l (get_device_info_code r) a h =
      search (keeps_rules, get_device_info-quiet (Dark-IsDark l))
  handle-Dark l (query_sysmem_code r) a h = search (keeps_rules, query_sysmem-quiet (Dark-IsDark l))
  handle-Dark l (reset_device_code r) a h = search (keeps_rules, reset_device-Keeps (Dark-IsDark l))
  handle-Dark l (post_reset_code r) a h = cc
  handle-Dark l (map_bar_code r) a h = cc
  handle-Dark l (unmap_bar_code r) a h = cc
  handle-Dark l (allocate_tlb_code r) a h = cc
  handle-Dark l (free_tlb_code r) a h = cc
  handle-Dark l (configure_tlb_code r) a h = cc
  handle-Dark l (map_tlb_code r) a h = cc
  handle-Dark l (smc_msg_code r) a h = cc
  handle-Dark l (arc_status_code r) a h = cc
  handle-Dark l (map_sysmem_code r) a h = cc
  handle-Dark l (sysmem_status_code r) a h = cc
  handle-Dark l (other_code r) a h = cc

  admits : (b c : Bool) → c ≡ true → (b && not c) ≡ false
  admits true true h = refl
  admits true false h = sym h
  admits false c h = refl

  dispatch-Dark :
      (l : Log) (code : Ioctl) (w : World)
      → is_post_reset code ≡ false
      → Dark l w
      → Dark l (dispatch code w).1
  dispatch-Dark l code w h d = elim (Bool-cases (is_stale w.ctx (file_of code))) [
    | inl s ↦ subst (λ r. Dark l r.1) (sym (dispatch_stale code w s)) d
    | inr s ↦ elim (Bool-cases (is_allowed_restricted code)) [
      | inr a ↦ subst (λ r. Dark l r.1) (sym (dispatch_restricted code w s d.1 a)) d
      | inl a ↦
          subst (λ r. Dark l r.1) (sym (dispatch_open code w s (admits _ _ a)))
            ((handle-Dark l code a h).at w d)
    ]
  ]

  -- While a reset awaits its recovery, every ioctl but POST_RESET leaves the device memory alone
  -- (no register or window access is added to the log) and the restriction in force.
  pub dispatch-dark :
      (code : Ioctl) (w : World)
      → is_post_reset code ≡ false
      → w.ctx.needs_hw_init ≡ true
      → (mmio_log (dispatch code w).1.log ≡ mmio_log w.log)
        × ((dispatch code w).1.ctx.needs_hw_init ≡ true)
  dispatch-dark code w h needs = dispatch-Dark (mmio_log w.log) code w h (refl, needs)

  -- The power callbacks, which no fence guards, access no device memory either while a reset
  -- awaits its recovery, and leave the restriction in force.
  pub power-dark :
      (w : World)
      → w.ctx.needs_hw_init ≡ true
      → ((mmio_log (self_managed_io_init w).1.log ≡ mmio_log w.log)
          × ((self_managed_io_init w).1.ctx.needs_hw_init ≡ true))
        × (((mmio_log (self_managed_io_restart w).1.log ≡ mmio_log w.log)
              × ((self_managed_io_restart w).1.ctx.needs_hw_init ≡ true))
            × ((mmio_log (self_managed_io_suspend w).1.log ≡ mmio_log w.log)
                × ((self_managed_io_suspend w).1.ctx.needs_hw_init ≡ true)))
  unfolding self_managed_io_restart
  power-dark w needs =
      let started = self_managed_io_init-quiet (Dark-IsDark (mmio_log w.log)) (λ _ d. d.1) in
      let stopped = self_managed_io_suspend-quiet (Dark-IsDark (mmio_log w.log)) (λ _ d. d.1) in
      (started.at w (refl, needs), (started.at w (refl, needs), stopped.at w (refl, needs)))
