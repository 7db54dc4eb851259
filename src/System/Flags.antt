-- ===== src/System/Flags.antt =====
-- What the routines of the driver leave of the flags NeedsHwInit, SavedConfigValid and
-- SysmemVerified and of the generations: they leave them alone, or take SysmemVerified down.
pub mod Routines
use tt_wind.Base.{ℕ, zero, suc, Bool, true, false, Option, none, some, List, [], ◌∷◌, ◌≡◌, refl}
use tt_wind.Status.{Status}
use tt_wind.Kernel.{Env, Event, Region, CacheType}
use tt_wind.Context.{
  Context, World, Sysmem, BarDesc, Identity, ArcRoute, Shared, UserMapping, MappingKind, mdl_kind,
  section_kind, NocTlbConfig,
}
use tt_wind.Monad.{modify_ctx, modify_shared}
use tt_wind.Monad.Keeps.{Keeps, Ignores, Overlooks, keeps_rules, Keeps-bind, Keeps-seq}
use tt_wind.Request.{Request, MapBarIn, MapSysmemIn, FreeTlbIn, ConfigureTlbIn, MapTlbIn}
use tt_wind.Mapping.View.{
  map_io_to_user, unmap_kind, free_kind, unmap_user_view, unmap_in_owner, destroy_mapping,
  destroy_all, insert_mapping, create_user_mapping,
}
use tt_wind.Mapping.Ioctl.{map_bar, take_mapping, unmap_bar}
use tt_wind.Mapping.Teardown.{file_cleanup, revoke_all_mappings}
use tt_wind.Tlb.Program.{program_tlb_2m, kernel_tlb_sanity_check}
use tt_wind.Tlb.Windows.{
  take_window, allocate_tlb, check_tlb_owner, free_tlb, configure_tlb, map_tlb,
}
use tt_wind.Sysmem.Buffer.{modify_sysmem, try_tiers, sysmem_allocate, sysmem_free}
use tt_wind.Sysmem.Ioctl.{query_sysmem, read_iatu, sysmem_status, map_sysmem, map_sysmem_to_user}
use tt_wind.Device.Resources.{Descriptor, query_interface, read_pci_identity}
use tt_wind.Device.Prepare.{modify_mapped, map_region, map_required, map_optional, prepare_hardware}
use tt_wind.Device.Release.{unmap_region, release_hardware}
use tt_wind.Reset.Config.{cfg_read_into, device_present, read_command, restore_loop, restore_config}
use tt_wind.Reset.Recover.{await_device, restore_saved}
use tt_wind.Queue.{get_device_info}

-- A property of the three flags and the generations that does not ask for SysmemVerified.
pub record IsFlags (P : World → Type 0) : Type 0 where
  pub events : (w : World) (e : Event) → P w → P (record w { log = e ∷ w.log })
  pub contexts :
      (w : World) (c : Context)
      → c.needs_hw_init ≡ w.ctx.needs_hw_init
      → c.saved_config_valid ≡ w.ctx.saved_config_valid
      → c.sysmem.is_verified ≡ w.ctx.sysmem.is_verified
      → c.reset_generation ≡ w.ctx.reset_generation
      → c.file_generation ≡ w.ctx.file_generation
      → P w
      → P (record w { ctx = c })
  pub unverified :
      (w : World) (c : Context)
      → c.needs_hw_init ≡ w.ctx.needs_hw_init
      → c.saved_config_valid ≡ w.ctx.saved_config_valid
      → c.sysmem.is_verified ≡ false
      → c.reset_generation ≡ w.ctx.reset_generation
      → c.file_generation ≡ w.ctx.file_generation
      → P w
      → P (record w { ctx = c })

module _ ⦃env : Env⦄ {P : World → Type 0} (k : IsFlags P) where
  pub event_rule : (e : Event) → Ignores P e
  event_rule e = record { at = λ w p. k.events w e p }

  pub shared_rule : (f : Shared → Shared) → Keeps P (modify_shared f)
  unfolding modify_shared modify_ctx
  shared_rule f = record { at = λ w p. k.contexts w _ refl refl refl refl refl p }

  pub mapped_rule : (r : Region) (b : Bool) → Keeps P (modify_mapped r b)
  unfolding modify_ctx
  mapped_rule r b = record { at = λ w p. k.contexts w _ refl refl refl refl refl p }

  pub bars_rule : (b : List BarDesc) → Overlooks P (λ c. record c { bars = b })
  bars_rule b = record { at = λ w p. k.contexts w _ refl refl refl refl refl p }

  pub identity_rule : (f : Context → Identity) → Overlooks P (λ c. record c { identity = f c })
  identity_rule f = record { at = λ w p. k.contexts w _ refl refl refl refl refl p }

  pub bus_rule : (b : Bool) → Overlooks P (λ c. record c { bus_if_valid = b })
  bus_rule b = record { at = λ w p. k.contexts w _ refl refl refl refl refl p }

  pub saved_rule : (s : List ℕ) → Overlooks P (λ c. record c { saved_config = s })
  saved_rule s = record { at = λ w p. k.contexts w _ refl refl refl refl refl p }

  pub stop_rule :
      (r : ArcRoute)
      → Overlooks P
          (λ c. record c { arc_route = r; sysmem = record (c.sysmem) { is_verified = false } })
  stop_rule r = record { at = λ w p. k.unverified w _ refl refl refl refl refl p }

  pub sysmem_rule :
      (f : Sysmem → Sysmem)
      → ((s : Sysmem) → (f s).is_verified ≡ s.is_verified)
      → Keeps P (modify_sysmem f)
  unfolding modify_sysmem modify_ctx
  sysmem_rule f h = record { at = λ w p. k.contexts w _ refl refl (h w.ctx.sysmem) refl refl p }

  pub down_rule :
      (f : Sysmem → Sysmem) → ((s : Sysmem) → (f s).is_verified ≡ false) → Keeps P (modify_sysmem f)
  unfolding modify_sysmem modify_ctx
  down_rule f h = record { at = λ w p. k.unverified w _ refl refl (h w.ctx.sysmem) refl refl p }

  pub ruleset flag_rules = (keeps_rules, event_rule, shared_rule)
