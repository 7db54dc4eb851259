-- ===== src/Queue/Invariant.antt =====
-- The state under StateLock stays sound through every ioctl of the dispatcher (driver/queue.c).
use tt_wind.Base.{ℕ, zero, suc, Bool, true, Option, none, some, List, [], ◌∷◌, ◌≡◌, refl, not}
use tt_wind.Status.{device_busy}
use tt_wind.Kernel.{Env, Event, state_lock, arc_lock}
use tt_wind.Context.{World, UserMapping}
use tt_wind.Monad.{
  M, and_then, ◌>>=◌, ◌>>◌, pure, get_ctx, require, with_lock, emit, attempt, from_result,
}
use tt_wind.Monad.Keeps.{
  Keeps, Ignores, Overlooks, keeps_rules, require-at, Keeps-bind, Keeps-seq, Keeps-read_reg,
  Keeps-pure, Keeps-attempt, Keeps-branch, Keeps-delay,
}
use tt_wind.Request.{Request, ResetIn}
use tt_wind.Arc.Ring.{ArcMsg}
use tt_wind.Arc.Locate.{locate_queue}
use tt_wind.Arc.Exchange.{power_up}
use tt_wind.Sysmem.Arm.{sysmem_arm}
use tt_wind.Tlb.Program.{kernel_tlb_sanity_check}
use tt_wind.Arc.Ioctl.{smc_msg, arc_status}
use tt_wind.Sysmem.Ioctl.{query_sysmem, read_iatu, sysmem_status}
use tt_wind.Reset.Config.{cfg_read_into, device_present, read_command, restore_loop, restore_config}
use tt_wind.Reset.Arm.{
  has_mappings, save_config, prepare_reset, commit_reset, reset_device, fence, carry_forward,
  restrict,
}
use tt_wind.Reset.Recover.{
  await_device, restore_saved, lift_restriction, recover, power_up_tries, reinitialize, post_reset,
}
use tt_wind.Mapping.Table.{reclaim_windows}
use tt_wind.Mapping.Sound.{Sound}
use tt_wind.Mapping.Released.{reclaim-Sound}
use tt_wind.Mapping.Preserves.{
  SoundWorld, sound_event, sound_rules, map_bar-Sound, unmap_bar-Sound, map_sysmem-Sound,
  file_cleanup-Sound, revoke_all_mappings-Sound,
}
use tt_wind.Tlb.Preserves.{
  FindsClear, sound_control, allocate_tlb-Sound, free_tlb-Sound, configure_tlb-Sound, map_tlb-Sound,
}
use tt_wind.Mapping.Teardown.{file_cleanup, revoke_all_mappings}
use tt_wind.Frame.Firmware.{
  msg_send_sync-Keeps, locate_queue-Keeps, power_up-Keeps, sysmem_arm-Keeps,
  kernel_tlb_sanity_check-Keeps,
}
use tt_wind.Queue.{
  Ioctl, get_device_info_code, map_bar_code, unmap_bar_code, allocate_tlb_code, free_tlb_code,
  configure_tlb_code, map_tlb_code, smc_msg_code, reset_device_code, arc_status_code,
  post_reset_code, query_sysmem_code, map_sysmem_code, sysmem_status_code, other_code,
  get_device_info, handle, dispatch, io_device_control,
}

-- Sound, and with no mapping in the list.
abbrev Idle : World → Type 0
Idle w = Sound w.ctx.shared × (w.ctx.shared.mapping_list ≡ [])

module _ ⦃env : Env⦄ where
  Idle-event : (e : Event) → Ignores Idle e
  Idle-event e = record { at = λ w p. p }

  Idle-saved : (s : List ℕ) → Overlooks Idle (λ c. record c { saved_config = s })
  Idle-saved s = record { at = λ w p. p }

  Idle-valid : (b : Bool) → Overlooks Idle (λ c. record c { saved_config_valid = b })
  Idle-valid b = record { at = λ w p. p }

  Idle-fence : Overlooks Idle fence
  unfolding reclaim_windows
  Idle-fence = record { at = λ w p. (reclaim-Sound w.ctx.shared p.0 p.1, p.1) }

  Idle-carry : (file : Option ℕ) → Overlooks Idle (carry_forward file)
  Idle-carry none = record { at = λ w p. p }
  Idle-carry (some f) = record { at = λ w p. p }

  Idle-restrict : Overlooks Idle restrict
  Idle-restrict = record { at = λ w p. p }

  arming-Idle :
      (file : Option ℕ) → Keeps Idle (with_lock arc_lock (prepare_reset >> commit_reset file))
  unfolding prepare_reset save_config device_present read_command cfg_read_into commit_reset
  arming-Idle file =
      search
        (keeps_rules, Idle-event, Idle-saved, Idle-valid, Idle-fence, Idle-carry, Idle-restrict)
        depth 40

  empty_list : (ms : List UserMapping) → not (has_mappings ms) ≡ true → ms ≡ []
  empty_list [] h = refl
  empty_list (m ∷ ms) h = cc

  -- The test under StateLock, then what runs when there is no mapping.
  Idle-Sound :
      (m : M (Unit {0}))
      → Keeps Idle m
      → Keeps SoundWorld (
          with_lock state_lock (get_ctx >>= λ c. pure (has_mappings c.shared.mapping_list))
          >>= λ busy. require (not busy) device_busy >> m)
  unfolding ◌>>=◌ ◌>>◌ and_then with_lock emit attempt from_result get_ctx pure
  Idle-Sound m k = record {
    at = λ w p.
        require-at SoundWorld _ p _ _ _
          (λ h. (k.at _ (p, empty_list w.ctx.shared.mapping_list h)).0);
  }

  reset_device-Sound : (r : Request ResetIn) → Keeps SoundWorld (reset_device r)
  unfolding reset_device
  reset_device-Sound r = search (sound_rules, Idle-Sound, arming-Idle) depth 20

  sound_saved : (s : List ℕ) → Overlooks SoundWorld (λ c. record c { saved_config = s })
  sound_saved s = record { at = λ w p. p }

  sound_lifted : (b : Bool) → Overlooks SoundWorld (λ c. record c { needs_hw_init = b })
  sound_lifted b = record { at = λ w p. p }

  sanity_check-Sound : Keeps SoundWorld kernel_tlb_sanity_check
  sanity_check-Sound = kernel_tlb_sanity_check-Keeps sound_control

  power_up-Sound : Keeps SoundWorld power_up
  power_up-Sound = power_up-Keeps sound_control

  sysmem_arm-Sound : Keeps SoundWorld sysmem_arm
  sysmem_arm-Sound = sysmem_arm-Keeps sound_control

  locate_queue-Sound : Keeps SoundWorld locate_queue
  locate_queue-Sound = locate_queue-Keeps sound_control

  cfg_read_into-Sound : (o : ℕ) (b : List ℕ) (n : ℕ) → Keeps SoundWorld (cfg_read_into o b n)
  unfolding cfg_read_into
  cfg_read_into-Sound o b n = search sound_rules depth 10

  restore_loop-Sound :
      (n i : ℕ) (saved : List ℕ) (b : Bool) → Keeps SoundWorld (restore_loop n i saved b)
  unfolding restore_loop
  restore_loop-Sound zero i saved b = search sound_rules
  restore_loop-Sound (suc n) i saved b = search (sound_rules, restore_loop-Sound n) depth 10

  restore_saved-Sound : Keeps SoundWorld restore_saved
  unfolding restore_saved restore_config
  restore_saved-Sound =
      search (sound_rules, restore_loop-Sound, cfg_read_into-Sound, sound_saved) depth 20

  recover-Sound : Keeps SoundWorld recover
  unfolding recover await_device device_present read_command lift_restriction
  recover-Sound =
      search
        (sound_rules, restore_saved-Sound, cfg_read_into-Sound, sound_lifted, sanity_check-Sound)
        depth 30

  power_up_tries-Sound : (n : ℕ) → Keeps SoundWorld (power_up_tries n)
  unfolding power_up_tries
  power_up_tries-Sound zero = search sound_rules
  power_up_tries-Sound (suc n) = Keeps-bind _ _ (Keeps-attempt _ power_up-Sound) (λ r.
      Keeps-branch _ _ _ (Keeps-pure _)
        (Keeps-seq _ _ (Keeps-delay _ (sound_event _)) (power_up_tries-Sound n)))

  post_reset-Sound : (r : Request ResetIn) → Keeps SoundWorld (post_reset r)
  unfolding post_reset reinitialize
  post_reset-Sound r =
      search (sound_rules, recover-Sound, power_up_tries-Sound, sysmem_arm-Sound) depth 20

  smc_msg-Sound : (r : Request ArcMsg) → Keeps SoundWorld (smc_msg r)
  unfolding smc_msg
  smc_msg-Sound r = search (sound_rules, msg_send_sync-Keeps sound_control) depth 12

  arc_status-Sound : (r : Request (Unit {0})) → Keeps SoundWorld (arc_status r)
  unfolding arc_status
  arc_status-Sound r = search (sound_rules, locate_queue-Sound) depth 16

  read_iatu-Sound : (os : List ℕ) → Keeps SoundWorld (read_iatu os)
  unfolding read_iatu
  read_iatu-Sound [] = search sound_rules
  read_iatu-Sound (o ∷ os) =
      Keeps-bind _ _ (Keeps-read_reg _ _ (sound_event _))
        (λ v. Keeps-bind _ _ (read_iatu-Sound os) (λ vs. Keeps-pure _))

  query_sysmem-Sound : (r : Request (Unit {0})) → Keeps SoundWorld (query_sysmem r)
  unfolding query_sysmem
  query_sysmem-Sound r = search sound_rules depth 12

  sysmem_status-Sound : (r : Request (Unit {0})) → Keeps SoundWorld (sysmem_status r)
  unfolding sysmem_status
  sysmem_status-Sound r = search (sound_rules, read_iatu-Sound) depth 16

  get_device_info-Sound : (r : Request (Unit {0})) → Keeps SoundWorld (get_device_info r)
  unfolding get_device_info
  get_device_info-Sound r = search sound_rules depth 12

  module _ (f : FindsClear env) where
    handle-Sound : (code : Ioctl) → Keeps SoundWorld (handle code)
    unfolding handle
    handle-Sound (get_device_info_code r) = search (sound_rules, get_device_info-Sound)
    handle-Sound (map_bar_code r) = search (sound_rules, map_bar-Sound)
    handle-Sound (unmap_bar_code r) = search (sound_rules, unmap_bar-Sound)
    handle-Sound (allocate_tlb_code r) = search (sound_rules, allocate_tlb-Sound f)
    handle-Sound (free_tlb_code r) = search (sound_rules, free_tlb-Sound)
    handle-Sound (configure_tlb_code r) = search (sound_rules, configure_tlb-Sound)
    handle-Sound (map_tlb_code r) = search (sound_rules, map_tlb-Sound)
    handle-Sound (smc_msg_code r) = search (sound_rules, smc_msg-Sound)
    handle-Sound (reset_device_code r) = search (sound_rules, reset_device-Sound)
    handle-Sound (arc_status_code r) = search (sound_rules, arc_status-Sound)
    handle-Sound (post_reset_code r) = search (sound_rules, post_reset-Sound)
    handle-Sound (query_sysmem_code r) = search (sound_rules, query_sysmem-Sound)
    handle-Sound (map_sysmem_code r) = search (sound_rules, map_sysmem-Sound)
    handle-Sound (sysmem_status_code r) = search (sound_rules, sysmem_status-Sound)
    handle-Sound (other_code r) = search sound_rules

    dispatch-Sound : (code : Ioctl) → Keeps SoundWorld (dispatch code)
    unfolding dispatch
    dispatch-Sound code = search (sound_rules, handle-Sound) depth 12

    -- Every ioctl, with whatever result, keeps the state under StateLock sound: windows and bits
    -- and owners agree, the kernel's window stays reserved, and every mapping of a window belongs
    -- to the window's owner. The bitmap routine is assumed to pick a bit of the bitmap that is clear.
    pub io_device_control-Sound :
        (code : Ioctl) (w : World)
        → Sound w.ctx.shared
        → Sound (io_device_control code w).1.ctx.shared
    unfolding io_device_control
    io_device_control-Sound code w s = (dispatch-Sound code).at w s

  -- The same for the cleanup of a handle and for the revocation of all mappings.
  pub teardown-Sound :
      (file : ℕ) (w : World)
      → Sound w.ctx.shared
      → Sound (file_cleanup file w).1.ctx.shared × Sound (revoke_all_mappings w).1.ctx.shared
  teardown-Sound file w s = ((file_cleanup-Sound file).at w s, revoke_all_mappings-Sound.at w s)
