-- ===== src/System/Restriction.antt =====
-- Every callback, and every world that the driver comes to: a restricted driver has a saved config
-- space and offers no sysmem.
use tt_wind.Base.{ℕ, zero, suc, false, inl, refl}
use tt_wind.Kernel.{Env, Event}
use tt_wind.Context.{World}
use tt_wind.Monad.{modify_ctx}
use tt_wind.Monad.Keeps.{
  Keeps, Ignores, Overlooks, keeps_rules, Keeps-bind, Keeps-seq, Keeps-attempt, Keeps-branch,
  Keeps-pure, Keeps-delay, Keeps-ignore,
}
use tt_wind.Request.{Request, ResetIn}
use tt_wind.Tlb.Program.{kernel_tlb_sanity_check}
use tt_wind.Reset.Recover.{
  await_device, restore_saved, lift_restriction, recover, power_up_tries, reinitialize, post_reset,
}
use tt_wind.Device.Prepare.{file_create}
use tt_wind.Device.Power.{self_managed_io_init, self_managed_io_restart, self_managed_io_suspend}
use tt_wind.Queue.{
  Ioctl, get_device_info_code, map_bar_code, unmap_bar_code, allocate_tlb_code, free_tlb_code,
  configure_tlb_code, map_tlb_code, smc_msg_code, reset_device_code, arc_status_code,
  post_reset_code, query_sysmem_code, map_sysmem_code, sysmem_status_code, other_code, handle,
  dispatch, io_device_control,
}
use tt_wind.System.{
  initial_context, Callback, ioctl, create, cleanup, prepare, release, init, restart, suspend,
  run_callback, Reachable, added, called,
}
use tt_wind.System.Flags.{event_rule}
use tt_wind.System.Flags.Routines.{
  sanity_check-Flags, await_device-Flags, restore_saved-Flags, get_device_info-Flags, map_bar-Flags,
  unmap_bar-Flags, allocate_tlb-Flags, free_tlb-Flags, configure_tlb-Flags, map_tlb-Flags,
  query_sysmem-Flags, map_sysmem-Flags, sysmem_status-Flags, file_cleanup-Flags,
  prepare_hardware-Flags, release_hardware-Flags,
}
use tt_wind.System.Guarded.{
  Guarded, Guarded-IsFlags, same_flags, power_up-Guarded, power_down-Guarded, sysmem_arm-Guarded,
  sysmem_invalidate-Guarded, smc_msg-Guarded, arc_status-Guarded,
}
use tt_wind.System.Saved.{reset_device-Guarded}

module _ ⦃env : Env⦄ where
  event-Guarded : (e : Event) → Ignores Guarded e
  event-Guarded = event_rule Guarded-IsFlags

  lifted-Guarded : Overlooks Guarded (λ c. record c { needs_hw_init = false })
  lifted-Guarded = record { at = λ w p. inl refl }

  sanity_check-Guarded : Keeps Guarded kernel_tlb_sanity_check
  sanity_check-Guarded = sanity_check-Flags Guarded-IsFlags

  await_device-Guarded : Keeps Guarded await_device
  await_device-Guarded = await_device-Flags Guarded-IsFlags

  restore_saved-Guarded : Keeps Guarded restore_saved
  restore_saved-Guarded = restore_saved-Flags Guarded-IsFlags

  recover-Guarded : Keeps Guarded recover
  unfolding recover lift_restriction
  recover-Guarded =
      search
        (
          keeps_rules, lifted-Guarded, sanity_check-Guarded, await_device-Guarded,
          restore_saved-Guarded,
        )
        depth 24

  power_up_tries-Guarded : (n : ℕ) → Keeps Guarded (power_up_tries n)
  unfolding power_up_tries
  power_up_tries-Guarded zero = search keeps_rules
  power_up_tries-Guarded (suc n) = Keeps-bind _ _ (Keeps-attempt _ power_up-Guarded) (λ r.
      Keeps-branch _ _ _ (Keeps-pure _)
        (Keeps-seq _ _ (Keeps-delay _ (event-Guarded _)) (power_up_tries-Guarded n)))

  post_reset-Guarded : (r : Request ResetIn) → Keeps Guarded (post_reset r)
  unfolding post_reset reinitialize
  post_reset-Guarded r =
      search
        (keeps_rules, event-Guarded, recover-Guarded, power_up_tries-Guarded, sysmem_arm-Guarded)
        depth 20

  handle-Guarded : (code : Ioctl) → Keeps Guarded (handle code)
  unfolding handle
  handle-Guarded (get_device_info_code r) =
      Keeps-bind _ _ (get_device_info-Flags Guarded-IsFlags r) (λ _. Keeps-pure _)
  handle-Guarded (map_bar_code r) =
      Keeps-bind _ _ (map_bar-Flags Guarded-IsFlags r) (λ _. Keeps-pure _)
  handle-Guarded (unmap_bar_code r) =
      Keeps-seq _ _ (unmap_bar-Flags Guarded-IsFlags r) (Keeps-pure _)
  handle-Guarded (allocate_tlb_code r) =
      Keeps-bind _ _ (allocate_tlb-Flags Guarded-IsFlags r) (λ _. Keeps-pure _)
  handle-Guarded (free_tlb_code r) = Keeps-seq _ _ (free_tlb-Flags Guarded-IsFlags r) (Keeps-pure _)
  handle-Guarded (configure_tlb_code r) =
      Keeps-seq _ _ (configure_tlb-Flags Guarded-IsFlags r) (Keeps-pure _)
  handle-Guarded (map_tlb_code r) =
      Keeps-bind _ _ (map_tlb-Flags Guarded-IsFlags r) (λ _. Keeps-pure _)
  handle-Guarded (smc_msg_code r) = Keeps-bind _ _ (smc_msg-Guarded r) (λ _. Keeps-pure _)
  handle-Guarded (reset_device_code r) = Keeps-seq _ _ (reset_device-Guarded r) (Keeps-pure _)
  handle-Guarded (arc_status_code r) = Keeps-bind _ _ (arc_status-Guarded r) (λ _. Keeps-pure _)
  handle-Guarded (post_reset_code r) = Keeps-seq _ _ (post_reset-Guarded r) (Keeps-pure _)
  handle-Guarded (query_sysmem_code r) =
      Keeps-bind _ _ (query_sysmem-Flags Guarded-IsFlags r) (λ _. Keeps-pure _)
  handle-Guarded (map_sysmem_code r) =
      Keeps-bind _ _ (map_sysmem-Flags Guarded-IsFlags r) (λ _. Keeps-pure _)
  handle-Guarded (sysmem_status_code r) =
      Keeps-bind _ _ (sysmem_status-Flags Guarded-IsFlags r) (λ _. Keeps-pure _)
  handle-Guarded (other_code r) = search keeps_rules

  dispatch-Guarded : (code : Ioctl) → Keeps Guarded (dispatch code)
  unfolding dispatch
  dispatch-Guarded code = search (keeps_rules, handle-Guarded) depth 12

  init-Guarded : Keeps Guarded self_managed_io_init
  unfolding self_managed_io_init
  init-Guarded = Keeps-seq _ _ (Keeps-ignore _ power_up-Guarded) (Keeps-ignore _ sysmem_arm-Guarded)

  suspend-Guarded : Keeps Guarded self_managed_io_suspend
  unfolding self_managed_io_suspend
  suspend-Guarded = Keeps-seq _ _ sysmem_invalidate-Guarded power_down-Guarded

  callback-Guarded : (c : Callback) (w : World) → Guarded w → Guarded (run_callback c w)
  unfolding run_callback io_device_control self_managed_io_restart file_create modify_ctx
  callback-Guarded (ioctl code) w p = (dispatch-Guarded code).at w p
  callback-Guarded (create file) w p = same_flags w _ refl refl refl p
  callback-Guarded (cleanup file) w p = (file_cleanup-Flags Guarded-IsFlags file).at w p
  callback-Guarded (prepare ds) w p = (prepare_hardware-Flags Guarded-IsFlags ds).at w p
  callback-Guarded release w p = (release_hardware-Flags Guarded-IsFlags).at w p
  callback-Guarded init w p = init-Guarded.at w p
  callback-Guarded restart w p = init-Guarded.at w p
  callback-Guarded suspend w p = suspend-Guarded.at w p

  -- In every world that the driver comes to, by any callbacks in any order: either no reset awaits
  -- its recovery, or the restriction is in force, the saved config space counts as valid, and the
  -- sysmem is not verified.
  pub Reachable-Guarded : (w : World) → Reachable w → Guarded w
  unfolding initial_context
  Reachable-Guarded w (added l) = inl refl
  Reachable-Guarded w (called c v r) = callback-Guarded c v (Reachable-Guarded v r)
