-- ===== src/System/Flags/Routines.antt =====
-- The routines that leave NeedsHwInit and SavedConfigValid alone and never take SysmemVerified up
-- (driver/mapping.c, tlb.c, device.c, and the parts of sysmem.c and reset.c that do so).
use tt_wind.Base.{ℕ, zero, suc, Bool, Option, List, [], ◌∷◌}
use tt_wind.Status.{Status}
use tt_wind.Kernel.{Env, Region, CacheType}
use tt_wind.Context.{World, UserMapping, MappingKind, mdl_kind, section_kind, NocTlbConfig}
use tt_wind.Monad.Keeps.{
  Keeps, Keeps-bind, Keeps-seq, Keeps-pure, Keeps-read_reg, Keeps-get_ctx, Keeps-require,
  Keeps-modify_ctx,
}
use tt_wind.Request.{Request, MapBarIn, MapSysmemIn, FreeTlbIn, ConfigureTlbIn, MapTlbIn}
use tt_wind.Mapping.View.{
  map_io_to_user, unmap_kind, free_kind, unmap_user_view, unmap_in_owner, destroy_mapping,
  destroy_all, insert_mapping, create_user_mapping,
}
use tt_wind.Mapping.Ioctl.{map_bar, take_mapping, unmap_bar}
use tt_wind.Mapping.Teardown.{file_cleanup, revoke_all_mappings}
use tt_wind.Tlb.Program.{program_tlb_2m, kernel_tlb_sanity_check}
use tt_wind.Tlb.Windows.{
  take_window, allocate_tlb, check_tlb_owner, free_tlb, configure_tlb, map_tlb,
}
use tt_wind.Sysmem.Buffer.{try_tiers, sysmem_allocate, sysmem_free}
use tt_wind.Sysmem.Ioctl.{query_sysmem, read_iatu, sysmem_status, map_sysmem, map_sysmem_to_user}
use tt_wind.Device.Resources.{Descriptor, query_interface, read_pci_identity}
use tt_wind.Device.Prepare.{map_region, map_required, map_optional, prepare_hardware}
use tt_wind.Device.Release.{unmap_region, release_hardware}
use tt_wind.Reset.Config.{cfg_read_into, device_present, read_command, restore_loop, restore_config}
use tt_wind.Reset.Recover.{await_device, restore_saved}
use tt_wind.Queue.{get_device_info}
use tt_wind.System.Flags.{
  IsFlags, flag_rules, event_rule, stop_rule, sysmem_rule, down_rule, mapped_rule, bars_rule,
  identity_rule, bus_rule, saved_rule,
}

module _ ⦃env : Env⦄ {P : World → Type 0} (k : IsFlags P) where
  unmap_kind-Flags : (m : MappingKind) (va : ℕ) → Keeps P (unmap_kind m va)
  unfolding unmap_kind
  unmap_kind-Flags (mdl_kind mdl) va = search flag_rules
  unmap_kind-Flags (section_kind base) va = search flag_rules

  free_kind-Flags : (m : MappingKind) → Keeps P (free_kind m)
  unfolding free_kind
  free_kind-Flags (mdl_kind mdl) = search flag_rules
  free_kind-Flags (section_kind base) = search flag_rules

  destroy_mapping-Flags : (m : UserMapping) → Keeps P (destroy_mapping m)
  unfolding destroy_mapping unmap_in_owner unmap_user_view
  destroy_mapping-Flags m = search (flag_rules, unmap_kind-Flags, free_kind-Flags) depth 20

  destroy_all-Flags : (ms : List UserMapping) → Keeps P (destroy_all ms)
  unfolding destroy_all
  destroy_all-Flags [] = search flag_rules
  destroy_all-Flags (m ∷ ms) = Keeps-seq _ _ (destroy_mapping-Flags m) (destroy_all-Flags ms)

  pub file_cleanup-Flags : (file : ℕ) → Keeps P (file_cleanup file)
  unfolding file_cleanup
  file_cleanup-Flags file = search (flag_rules, destroy_all-Flags) depth 20

  revoke-Flags : Keeps P revoke_all_mappings
  unfolding revoke_all_mappings
  revoke-Flags = search (flag_rules, destroy_all-Flags) depth 20

  map_io_to_user-Flags : (a n : ℕ) (c : CacheType) (p : ℕ) → Keeps P (map_io_to_user a n c p)
  unfolding map_io_to_user
  map_io_to_user-Flags a n c p = search flag_rules depth 20

  create_user_mapping-Flags :
      (file requestor : Option ℕ) (phys len mode : ℕ) (t : Option ℕ)
      → Keeps P (create_user_mapping file requestor phys len mode t)
  unfolding create_user_mapping insert_mapping
  create_user_mapping-Flags file requestor phys len mode t =
      search (flag_rules, map_io_to_user-Flags, destroy_mapping-Flags) depth 30

  pub map_bar-Flags : (r : Request MapBarIn) → Keeps P (map_bar r)
  unfolding map_bar
  map_bar-Flags r = search (flag_rules, create_user_mapping-Flags) depth 24

  pub unmap_bar-Flags : (r : Request ℕ) → Keeps P (unmap_bar r)
  unfolding unmap_bar take_mapping
  unmap_bar-Flags r = search (flag_rules, destroy_mapping-Flags) depth 20

  pub map_sysmem-Flags : (r : Request MapSysmemIn) → Keeps P (map_sysmem r)
  unfolding map_sysmem map_sysmem_to_user
  map_sysmem-Flags r = search flag_rules depth 40

  pub allocate_tlb-Flags : (r : Request ℕ) → Keeps P (allocate_tlb r)
  unfolding allocate_tlb take_window
  allocate_tlb-Flags r = search flag_rules depth 24

  pub free_tlb-Flags : (r : Request FreeTlbIn) → Keeps P (free_tlb r)
  unfolding free_tlb check_tlb_owner
  free_tlb-Flags r = search flag_rules depth 24

  program-Flags : (i : ℕ) (c : NocTlbConfig) → Keeps P (program_tlb_2m i c)
  unfolding program_tlb_2m
  program-Flags i c = search flag_rules depth 12

  pub sanity_check-Flags : Keeps P kernel_tlb_sanity_check
  unfolding kernel_tlb_sanity_check
  sanity_check-Flags = search (flag_rules, program-Flags) depth 12

  pub configure_tlb-Flags : (r : Request ConfigureTlbIn) → Keeps P (configure_tlb r)
  unfolding configure_tlb check_tlb_owner
  configure_tlb-Flags r = search (flag_rules, program-Flags) depth 24

  pub map_tlb-Flags : (r : Request MapTlbIn) → Keeps P (map_tlb r)
  unfolding map_tlb check_tlb_owner
  map_tlb-Flags r = search (flag_rules, create_user_mapping-Flags) depth 24

  pub get_device_info-Flags : (r : Request (Unit {0})) → Keeps P (get_device_info r)
  unfolding get_device_info
  get_device_info-Flags r = search flag_rules depth 12

  pub query_sysmem-Flags : (r : Request (Unit {0})) → Keeps P (query_sysmem r)
  unfolding query_sysmem
  query_sysmem-Flags r = search flag_rules depth 12

  read_iatu-Flags : (os : List ℕ) → Keeps P (read_iatu os)
  unfolding read_iatu
  read_iatu-Flags [] = search flag_rules
  read_iatu-Flags (o ∷ os) =
      Keeps-bind _ _ (Keeps-read_reg _ _ (event_rule k _))
        (λ v. Keeps-bind _ _ (read_iatu-Flags os) (λ vs. Keeps-pure _))

  pub sysmem_status-Flags : (r : Request (Unit {0})) → Keeps P (sysmem_status r)
  unfolding sysmem_status
  sysmem_status-Flags r = search (flag_rules, read_iatu-Flags) depth 16

  try_tiers-Flags : (sizes : List ℕ) (i : ℕ) (n : Option ℕ) → Keeps P (try_tiers sizes i n)
  unfolding try_tiers
  try_tiers-Flags [] i n = search flag_rules
  try_tiers-Flags (s ∷ rest) i n = search (flag_rules, sysmem_rule, try_tiers-Flags rest) depth 12

  sysmem_allocate-Flags : Keeps P sysmem_allocate
  unfolding sysmem_allocate
  sysmem_allocate-Flags = search (flag_rules, sysmem_rule, try_tiers-Flags) depth 16

  map_region-Flags : (r : Region) (phys len : ℕ) → Keeps P (map_region r phys len)
  unfolding map_region
  map_region-Flags r phys len = search (flag_rules, mapped_rule) depth 12

  identity-Flags : Keeps P read_pci_identity
  unfolding read_pci_identity query_interface
  identity-Flags = search (flag_rules, identity_rule k, bus_rule k) depth 24

  pub prepare_hardware-Flags : (ds : List Descriptor) → Keeps P (prepare_hardware ds)
  unfolding prepare_hardware map_required map_optional
  prepare_hardware-Flags ds =
      search
        (
          flag_rules,
          identity-Flags,
          bars_rule k,
          mapped_rule,
          map_region-Flags,
          sysmem_allocate-Flags,
        )
        depth 40

  unmap_region-Flags : (b : Bool) (r : Region) (len : ℕ) → Keeps P (unmap_region b r len)
  unfolding unmap_region
  unmap_region-Flags b r len = search (flag_rules, mapped_rule) depth 12

  sysmem_free-Flags : Keeps P sysmem_free
  unfolding sysmem_free
  sysmem_free-Flags = search (flag_rules, down_rule) depth 12

  pub release_hardware-Flags : Keeps P release_hardware
  unfolding release_hardware
  release_hardware-Flags =
      search
        (
          flag_rules,
          revoke-Flags,
          unmap_region-Flags,
          bars_rule k,
          stop_rule k,
          bus_rule k,
          sysmem_free-Flags,
        )
        depth 40

  pub cfg_read_into-Flags : (o : ℕ) (b : List ℕ) (n : ℕ) → Keeps P (cfg_read_into o b n)
  unfolding cfg_read_into
  cfg_read_into-Flags o b n = search flag_rules depth 10

  pub device_present-Flags : Keeps P device_present
  unfolding device_present
  device_present-Flags = search (flag_rules, cfg_read_into-Flags) depth 10

  pub read_command-Flags : (s : Status) → Keeps P (read_command s)
  unfolding read_command
  read_command-Flags s = search (flag_rules, cfg_read_into-Flags) depth 10

  restore_loop-Flags : (n i : ℕ) (saved : List ℕ) (b : Bool) → Keeps P (restore_loop n i saved b)
  unfolding restore_loop
  restore_loop-Flags zero i saved b = search flag_rules
  restore_loop-Flags (suc n) i saved b = search (flag_rules, restore_loop-Flags n) depth 10

  pub await_device-Flags : Keeps P await_device
  unfolding await_device
  await_device-Flags = search (flag_rules, device_present-Flags, read_command-Flags) depth 12

  restore_config-Flags : (saved : List ℕ) → Keeps P (restore_config saved)
  unfolding restore_config
  restore_config-Flags saved = search (flag_rules, restore_loop-Flags) depth 10

  pub restore_saved-Flags : Keeps P restore_saved
  unfolding restore_saved
  restore_saved-Flags = Keeps-bind _ _ Keeps-get_ctx (λ c.
      Keeps-bind _ _ (restore_config-Flags _) (λ b. Keeps-seq _ _ (Keeps-require b _) (
        Keeps-bind _ _ (cfg_read_into-Flags _ _ _)
          (λ r. Keeps-modify_ctx _ (saved_rule k r.buffer)))))
