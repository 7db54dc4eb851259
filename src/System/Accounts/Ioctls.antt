-- ===== src/System/Accounts/Ioctls.antt =====
-- Every ioctl leaves one reference of a process for each mapping into it (driver/queue.c and what it
-- calls).
use tt_wind.Base.{
  ℕ, zero, suc, Bool, true, false, Option, none, some, List, [], ◌∷◌, ◌≡◌, refl, ap, arith,
}
use tt_wind.Kernel.{Env, Event, os}
use tt_wind.Context.{Context, Shared}
use tt_wind.Monad.{modify_shared}
use tt_wind.Monad.Keeps.{
  Keeps, Overlooks, keeps_rules, Keeps-modify_shared, Keeps-bind, Keeps-seq, Keeps-attempt,
  Keeps-branch, Keeps-pure, Keeps-delay, Keeps-read_reg,
}
use tt_wind.Request.{Request, FreeTlbIn, ConfigureTlbIn, MapTlbIn, ResetIn}
use tt_wind.Arc.Ring.{ArcMsg}
use tt_wind.Arc.Ioctl.{smc_msg, arc_status}
use tt_wind.Sysmem.Ioctl.{query_sysmem, read_iatu, sysmem_status}
use tt_wind.Arc.Locate.{locate_queue}
use tt_wind.Arc.Exchange.{power_up}
use tt_wind.Sysmem.Arm.{sysmem_arm}
use tt_wind.Tlb.Program.{kernel_tlb_sanity_check}
use tt_wind.Tlb.Windows.{
  take_window, allocate_tlb, check_tlb_owner, free_tlb, configure_tlb, map_tlb,
}
use tt_wind.Mapping.Table.{reclaim_windows}
use tt_wind.Reset.Config.{cfg_read_into, device_present, read_command, restore_loop, restore_config}
use tt_wind.Reset.Arm.{save_config, prepare_reset, commit_reset, reset_device, fence, carry_forward}
use tt_wind.Reset.Recover.{
  await_device, restore_saved, lift_restriction, recover, power_up_tries, reinitialize, post_reset,
}
use tt_wind.Frame.Firmware.{
  IsControl, is_call, program_tlb_2m-Keeps, msg_send_sync-Keeps, locate_queue-Keeps, power_up-Keeps,
  sysmem_arm-Keeps, kernel_tlb_sanity_check-Keeps,
}
use tt_wind.Queue.{
  Ioctl, get_device_info_code, map_bar_code, unmap_bar_code, allocate_tlb_code, free_tlb_code,
  configure_tlb_code, map_tlb_code, smc_msg_code, reset_device_code, arc_status_code,
  post_reset_code, query_sysmem_code, map_sysmem_code, sysmem_status_code, other_code,
  get_device_info, handle, dispatch,
}
use tt_wind.System.Accounts.{held, Owes, Accounted, is_neutral, neutral_event}
use tt_wind.System.Accounts.Mappings.{
  create_user_mapping-Accounted, map_bar-Accounted, unmap_bar-Accounted, map_sysmem-Accounted,
}

module _ (p n : ℕ) where
  pub same_list :
      (f : Context → Context)
      → ((c : Context) → (f c).shared.mapping_list ≡ c.shared.mapping_list)
      → Overlooks (Owes p n) f
  same_list f h = record { at = λ w o. omega (arith, o, ap (held p) (h w.ctx)) }

  pub same_list_shared :
      (f : Shared → Shared)
      → ((s : Shared) → (f s).mapping_list ≡ s.mapping_list)
      → Keeps (Owes p n) (modify_shared f)
  same_list_shared f h = Keeps-modify_shared f (same_list _ (λ c. h c.shared))

  pub ruleset accounts_rules = (keeps_rules, neutral_event, same_list_shared, same_list)

neutral_of : (e : Event) → is_call e ≡ false → is_neutral e ≡ true
neutral_of (os c) h = absurd (cc)
neutral_of _ h = refl

module _ ⦃env : Env⦄ (p : ℕ) where
  pub control : IsControl (Accounted p)
  control = record {
    events = λ e h. neutral_event p 0 e (neutral_of e h);
    routes = λ r. same_list p 0 _ (λ c. refl);
    sysmems = λ f. same_list p 0 _ (λ c. refl);
  }

  sanity_check-Accounted : Keeps (Accounted p) kernel_tlb_sanity_check
  sanity_check-Accounted = kernel_tlb_sanity_check-Keeps control

  power_up-Accounted : Keeps (Accounted p) power_up
  power_up-Accounted = power_up-Keeps control

  sysmem_arm-Accounted : Keeps (Accounted p) sysmem_arm
  sysmem_arm-Accounted = sysmem_arm-Keeps control

  locate_queue-Accounted : Keeps (Accounted p) locate_queue
  locate_queue-Accounted = locate_queue-Keeps control

  check_tlb_owner-Accounted : (file t : ℕ) → Keeps (Accounted p) (check_tlb_owner file t)
  unfolding check_tlb_owner
  check_tlb_owner-Accounted file t = search accounts_rules depth 12

  allocate_tlb-Accounted : (r : Request ℕ) → Keeps (Accounted p) (allocate_tlb r)
  unfolding allocate_tlb take_window
  allocate_tlb-Accounted r = search accounts_rules depth 24

  free_tlb-Accounted : (r : Request FreeTlbIn) → Keeps (Accounted p) (free_tlb r)
  unfolding free_tlb
  free_tlb-Accounted r = search (accounts_rules, check_tlb_owner-Accounted) depth 24

  configure_tlb-Accounted : (r : Request ConfigureTlbIn) → Keeps (Accounted p) (configure_tlb r)
  unfolding configure_tlb
  configure_tlb-Accounted r =
      search (accounts_rules, check_tlb_owner-Accounted, program_tlb_2m-Keeps control) depth 24

  map_tlb-Accounted : (r : Request MapTlbIn) → Keeps (Accounted p) (map_tlb r)
  unfolding map_tlb
  map_tlb-Accounted r =
      search (accounts_rules, check_tlb_owner-Accounted, create_user_mapping-Accounted) depth 24

  smc_msg-Accounted : (r : Request ArcMsg) → Keeps (Accounted p) (smc_msg r)
  unfolding smc_msg
  smc_msg-Accounted r = search (accounts_rules, msg_send_sync-Keeps control) depth 12

  arc_status-Accounted : (r : Request (Unit {0})) → Keeps (Accounted p) (arc_status r)
  unfolding arc_status
  arc_status-Accounted r = search (accounts_rules, locate_queue-Accounted) depth 16

  read_iatu-Accounted : (offs : List ℕ) → Keeps (Accounted p) (read_iatu offs)
  unfolding read_iatu
  read_iatu-Accounted [] = search accounts_rules
  read_iatu-Accounted (o ∷ offs) =
      Keeps-bind _ _ (Keeps-read_reg _ _ (neutral_event p 0 _ refl))
        (λ v. Keeps-bind _ _ (read_iatu-Accounted offs) (λ vs. Keeps-pure _))

  sysmem_status-Accounted : (r : Request (Unit {0})) → Keeps (Accounted p) (sysmem_status r)
  unfolding sysmem_status
  sysmem_status-Accounted r = search (accounts_rules, read_iatu-Accounted) depth 16

  cfg_read_into-Accounted : (o : ℕ) (b : List ℕ) (n : ℕ) → Keeps (Accounted p) (cfg_read_into o b n)
  unfolding cfg_read_into
  cfg_read_into-Accounted o b n = search accounts_rules depth 10

  fence-Accounted : Overlooks (Accounted p) fence
  unfolding reclaim_windows
  fence-Accounted = same_list p 0 _ (λ c. refl)

  carry-Accounted : (file : Option ℕ) → Overlooks (Accounted p) (carry_forward file)
  carry-Accounted none = same_list p 0 _ (λ c. refl)
  carry-Accounted (some f) = same_list p 0 _ (λ c. refl)

  reset_device-Accounted : (r : Request ResetIn) → Keeps (Accounted p) (reset_device r)
  unfolding reset_device prepare_reset save_config device_present read_command commit_reset
  reset_device-Accounted r =
      search (accounts_rules, cfg_read_into-Accounted, fence-Accounted, carry-Accounted) depth 60

  restore_loop-Accounted :
      (n i : ℕ) (saved : List ℕ) (b : Bool) → Keeps (Accounted p) (restore_loop n i saved b)
  unfolding restore_loop
  restore_loop-Accounted zero i saved b = search accounts_rules
  restore_loop-Accounted (suc n) i saved b =
      search (accounts_rules, restore_loop-Accounted n) depth 10

  recover-Accounted : Keeps (Accounted p) recover
  unfolding recover await_device device_present read_command restore_saved restore_config
      lift_restriction
  recover-Accounted =
      search
        (accounts_rules, cfg_read_into-Accounted, restore_loop-Accounted, sanity_check-Accounted)
        depth 60

  power_up_tries-Accounted : (n : ℕ) → Keeps (Accounted p) (power_up_tries n)
  unfolding power_up_tries
  power_up_tries-Accounted zero = search accounts_rules
  power_up_tries-Accounted (suc n) = Keeps-bind _ _ (Keeps-attempt _ power_up-Accounted) (λ r.
      Keeps-branch _ _ _ (Keeps-pure _)
        (Keeps-seq _ _ (Keeps-delay _ (neutral_event p 0 _ refl)) (power_up_tries-Accounted n)))

  post_reset-Accounted : (r : Request ResetIn) → Keeps (Accounted p) (post_reset r)
  unfolding post_reset reinitialize
  post_reset-Accounted r =
      search (accounts_rules, recover-Accounted, power_up_tries-Accounted, sysmem_arm-Accounted)
        depth 20

  handle-Accounted : (code : Ioctl) → Keeps (Accounted p) (handle code)
  unfolding handle get_device_info query_sysmem
  handle-Accounted (get_device_info_code r) = search accounts_rules depth 12
  handle-Accounted (map_bar_code r) = search (accounts_rules, map_bar-Accounted)
  handle-Accounted (unmap_bar_code r) = search (accounts_rules, unmap_bar-Accounted)
  handle-Accounted (allocate_tlb_code r) = search (accounts_rules, allocate_tlb-Accounted)
  handle-Accounted (free_tlb_code r) = search (accounts_rules, free_tlb-Accounted)
  handle-Accounted (configure_tlb_code r) = search (accounts_rules, configure_tlb-Accounted)
  handle-Accounted (map_tlb_code r) = search (accounts_rules, map_tlb-Accounted)
  handle-Accounted (smc_msg_code r) = search (accounts_rules, smc_msg-Accounted)
  handle-Accounted (reset_device_code r) = search (accounts_rules, reset_device-Accounted)
  handle-Accounted (arc_status_code r) = search (accounts_rules, arc_status-Accounted)
  handle-Accounted (post_reset_code r) = search (accounts_rules, post_reset-Accounted)
  handle-Accounted (query_sysmem_code r) = search accounts_rules depth 12
  handle-Accounted (map_sysmem_code r) = search (accounts_rules, map_sysmem-Accounted)
  handle-Accounted (sysmem_status_code r) = search (accounts_rules, sysmem_status-Accounted)
  handle-Accounted (other_code r) = search accounts_rules

  pub dispatch-Accounted : (code : Ioctl) → Keeps (Accounted p) (dispatch code)
  unfolding dispatch
  dispatch-Accounted code = search (accounts_rules, handle-Accounted) depth 12
