-- ===== src/System/Fenced/Routines.antt =====
-- The routines that leave the generations alone (driver/reset.c, arc.c, sysmem.c).
use tt_wind.Base.{ℕ, zero, suc, ◌+◌, true, false}
use tt_wind.Kernel.{Env, Event}
use tt_wind.Monad.{M}
use tt_wind.Monad.Keeps.{
  Keeps, Ignores, Overlooks, keeps_rules, Keeps-bind, Keeps-seq, Keeps-attempt, Keeps-branch,
  Keeps-pure, Keeps-delay,
}
use tt_wind.Monad.Moves.{Shifts}
use tt_wind.Request.{Request, ResetIn}
use tt_wind.Arc.Ring.{ArcMsg}
use tt_wind.Arc.Locate.{locate_queue}
use tt_wind.Arc.Exchange.{msg_send_sync, power_up}
use tt_wind.Arc.Ioctl.{smc_msg, arc_status}
use tt_wind.Sysmem.Arm.{sysmem_arm}
use tt_wind.Tlb.Program.{kernel_tlb_sanity_check}
use tt_wind.Reset.Arm.{save_config, prepare_reset}
use tt_wind.Reset.Recover.{
  await_device, restore_saved, lift_restriction, recover, power_up_tries, reinitialize, post_reset,
}
use tt_wind.Frame.Firmware.{
  power_up-Keeps, sysmem_arm-Keeps, locate_queue-Keeps, msg_send_sync-Keeps,
}
use tt_wind.Reset.Config.{device_present, read_command}
use tt_wind.Status.{Status}
use tt_wind.System.Flags.{saved_rule}
use tt_wind.System.Flags.Routines.{
  sanity_check-Flags, await_device-Flags, restore_saved-Flags, cfg_read_into-Flags,
  device_present-Flags, read_command-Flags,
}
use tt_wind.System.Fenced.{Older, Older-IsFlags, Older-IsControl, Older-event, later_bound}

module _ ⦃env : Env⦄ (file n : ℕ) where
  validated : Overlooks (Older file n) (λ c. record c { saved_config_valid = true })
  validated = record { at = λ w p. p }

  lifted : Overlooks (Older file n) (λ c. record c { needs_hw_init = false })
  lifted = record { at = λ w p. p }

  pub event : (e : Event) → Ignores (Older file n) e
  event = Older-event file n

  save_config-Older : Keeps (Older file n) save_config
  unfolding save_config
  save_config-Older =
      search
        (
          keeps_rules,
          cfg_read_into-Flags (Older-IsFlags file n),
          saved_rule (Older-IsFlags file n),
          validated,
        )
        depth 12

  device_present-Older : Keeps (Older file n) device_present
  device_present-Older = device_present-Flags (Older-IsFlags file n)

  read_command-Older : (s : Status) → Keeps (Older file n) (read_command s)
  read_command-Older = read_command-Flags (Older-IsFlags file n)

  pub prepare_reset-Older : Keeps (Older file n) prepare_reset
  unfolding prepare_reset
  prepare_reset-Older =
      search (keeps_rules, event, save_config-Older, device_present-Older, read_command-Older) depth
        20

  sanity_check-Older : Keeps (Older file n) kernel_tlb_sanity_check
  sanity_check-Older = sanity_check-Flags (Older-IsFlags file n)

  await_device-Older : Keeps (Older file n) await_device
  await_device-Older = await_device-Flags (Older-IsFlags file n)

  restore_saved-Older : Keeps (Older file n) restore_saved
  restore_saved-Older = restore_saved-Flags (Older-IsFlags file n)

  recover-Older : Keeps (Older file n) recover
  unfolding recover lift_restriction
  recover-Older =
      search (keeps_rules, lifted, sanity_check-Older, await_device-Older, restore_saved-Older)
        depth 24

  pub power_up-Older : Keeps (Older file n) power_up
  power_up-Older = power_up-Keeps (Older-IsControl file n)

  pub sysmem_arm-Older : Keeps (Older file n) sysmem_arm
  sysmem_arm-Older = sysmem_arm-Keeps (Older-IsControl file n)

  locate_queue-Older : Keeps (Older file n) locate_queue
  locate_queue-Older = locate_queue-Keeps (Older-IsControl file n)

  msg_send_sync-Older : (m : ArcMsg) → Keeps (Older file n) (msg_send_sync m)
  msg_send_sync-Older = msg_send_sync-Keeps (Older-IsControl file n)

  power_up_tries-Older : (left : ℕ) → Keeps (Older file n) (power_up_tries left)
  unfolding power_up_tries
  power_up_tries-Older zero = search keeps_rules
  power_up_tries-Older (suc left) = Keeps-bind _ _ (Keeps-attempt _ power_up-Older) (λ r.
      Keeps-branch _ _ _ (Keeps-pure _)
        (Keeps-seq _ _ (Keeps-delay _ (event _)) (power_up_tries-Older left)))

  pub post_reset-Older : (r : Request ResetIn) → Keeps (Older file n) (post_reset r)
  unfolding post_reset reinitialize
  post_reset-Older r =
      search (keeps_rules, event, recover-Older, power_up_tries-Older, sysmem_arm-Older) depth 20

  pub smc_msg-Older : (r : Request ArcMsg) → Keeps (Older file n) (smc_msg r)
  unfolding smc_msg
  smc_msg-Older r = search (keeps_rules, msg_send_sync-Older) depth 12

  pub arc_status-Older : (r : Request (Unit {0})) → Keeps (Older file n) (arc_status r)
  unfolding arc_status
  arc_status-Older r = search (keeps_rules, event, locate_queue-Older) depth 16

  pub kept :
      {A : Type 0} (m : M A)
      → Keeps {A = A} (Older file n) m
      → Shifts (Older file n) (Older file (n + 1)) m
  kept m k = record { at = λ w p. later_bound file n (m w).1 (k.at w p) }
