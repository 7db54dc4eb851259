-- ===== src/System/Dark.antt =====
-- The driver between a reset and its recovery: any sequence of callbacks.
use tt_wind.Base.{ℕ, Bool, true, false, Option, List, [], ◌∷◌, ◌≡◌, refl, All, ◌∙◌}
use tt_wind.Kernel.{Env, Log, Region}
use tt_wind.Context.{
  Context, World, Sysmem, BarDesc, Identity, ArcRoute, Shared, UserMapping, MappingKind, mdl_kind,
  section_kind,
}
use tt_wind.Monad.{modify_ctx, modify_shared}
use tt_wind.Monad.Keeps.{Keeps, Overlooks, Keeps-seq}
use tt_wind.Mapping.View.{
  unmap_kind, free_kind, unmap_user_view, unmap_in_owner, destroy_mapping, destroy_all,
}
use tt_wind.Mapping.Teardown.{file_cleanup, revoke_all_mappings}
use tt_wind.Sysmem.Buffer.{modify_sysmem, try_tiers, sysmem_allocate, sysmem_free}
use tt_wind.Device.Resources.{Descriptor, query_interface, read_pci_identity}
use tt_wind.Device.Prepare.{
  modify_mapped, map_region, map_required, map_optional, prepare_hardware, file_create,
}
use tt_wind.Device.Release.{unmap_region, release_hardware}
use tt_wind.Frame.Quiet.{IsDark, Dark, Dark-IsDark, mmio_log, quiet_rules}
use tt_wind.Queue.{io_device_control}
use tt_wind.Queue.Restricted.{is_post_reset, dispatch-dark, power-dark}
use tt_wind.System.{
  Callback, ioctl, create, cleanup, prepare, release, init, restart, suspend, run_callback,
}

-- Every callback but the POST_RESET ioctl.
abbrev pub recovers : Callback → Bool
recovers (ioctl code) = is_post_reset code
recovers _ = false

module _ ⦃env : Env⦄ {P : World → Type 0} (k : IsDark P) where
  unmap_kind-Dark : (m : MappingKind) (va : ℕ) → Keeps P (unmap_kind m va)
  unfolding unmap_kind
  unmap_kind-Dark (mdl_kind mdl) va = search quiet_rules
  unmap_kind-Dark (section_kind base) va = search quiet_rules

  free_kind-Dark : (m : MappingKind) → Keeps P (free_kind m)
  unfolding free_kind
  free_kind-Dark (mdl_kind mdl) = search quiet_rules
  free_kind-Dark (section_kind base) = search quiet_rules

  destroy_mapping-Dark : (m : UserMapping) → Keeps P (destroy_mapping m)
  unfolding destroy_mapping unmap_in_owner unmap_user_view
  destroy_mapping-Dark m = search (quiet_rules, unmap_kind-Dark, free_kind-Dark) depth 20

  destroy_all-Dark : (ms : List UserMapping) → Keeps P (destroy_all ms)
  unfolding destroy_all
  destroy_all-Dark [] = search quiet_rules
  destroy_all-Dark (m ∷ ms) = Keeps-seq _ _ (destroy_mapping-Dark m) (destroy_all-Dark ms)

  shared_rule : (f : Shared → Shared) → Keeps P (modify_shared f)
  unfolding modify_shared modify_ctx
  shared_rule f = record { at = λ w p. k.contexts w _ refl p }

  file_cleanup-Dark : (file : ℕ) → Keeps P (file_cleanup file)
  unfolding file_cleanup
  file_cleanup-Dark file = search (quiet_rules, shared_rule, destroy_all-Dark) depth 20

  revoke_all_mappings-Dark : Keeps P revoke_all_mappings
  unfolding revoke_all_mappings
  revoke_all_mappings-Dark = search (quiet_rules, shared_rule, destroy_all-Dark) depth 20

  sysmem_rule : (f : Sysmem → Sysmem) → Keeps P (modify_sysmem f)
  unfolding modify_sysmem modify_ctx
  sysmem_rule f = record { at = λ w p. k.contexts w _ refl p }

  mapped_rule : (r : Region) (b : Bool) → Keeps P (modify_mapped r b)
  unfolding modify_ctx
  mapped_rule r b = record { at = λ w p. k.contexts w _ refl p }

  bars_rule : (b : List BarDesc) → Overlooks P (λ c. record c { bars = b })
  bars_rule b = record { at = λ w p. k.contexts w _ refl p }

  identity_rule : (f : Context → Identity) → Overlooks P (λ c. record c { identity = f c })
  identity_rule f = record { at = λ w p. k.contexts w _ refl p }

  bus_rule : (b : Bool) → Overlooks P (λ c. record c { bus_if_valid = b })
  bus_rule b = record { at = λ w p. k.contexts w _ refl p }

  stop_rule :
      (b : Bool) (r : ArcRoute)
      → Overlooks P
          (λ c. record c { arc_route = r; sysmem = record (c.sysmem) { is_verified = b } })
  stop_rule b r = record { at = λ w p. k.contexts w _ refl p }

  try_tiers-Dark : (sizes : List ℕ) (i : ℕ) (n : Option ℕ) → Keeps P (try_tiers sizes i n)
  unfolding try_tiers
  try_tiers-Dark [] i n = search quiet_rules
  try_tiers-Dark (s ∷ rest) i n = search (quiet_rules, sysmem_rule, try_tiers-Dark rest) depth 12

  sysmem_allocate-Dark : Keeps P sysmem_allocate
  unfolding sysmem_allocate
  sysmem_allocate-Dark = search (quiet_rules, sysmem_rule, try_tiers-Dark) depth 16

  map_region-Dark : (r : Region) (phys len : ℕ) → Keeps P (map_region r phys len)
  unfolding map_region
  map_region-Dark r phys len = search (quiet_rules, mapped_rule) depth 12

  read_pci_identity-Dark : Keeps P read_pci_identity
  unfolding read_pci_identity query_interface
  read_pci_identity-Dark = search (quiet_rules, identity_rule, bus_rule) depth 24

  prepare_hardware-Dark : (ds : List Descriptor) → Keeps P (prepare_hardware ds)
  unfolding prepare_hardware map_required map_optional
  prepare_hardware-Dark ds =
      search
        (
          quiet_rules, read_pci_identity-Dark, bars_rule, mapped_rule, map_region-Dark,
          sysmem_allocate-Dark,
        )
        depth 40

  release_hardware-Dark : Keeps P release_hardware
  unfolding release_hardware unmap_region sysmem_free
  release_hardware-Dark =
      search
        (
          quiet_rules, revoke_all_mappings-Dark, mapped_rule, bars_rule, stop_rule, bus_rule,
          sysmem_rule,
        )
        depth 40

module _ ⦃env : Env⦄ where
  callback-Dark :
      (l : Log) (c : Callback) (w : World)
      → recovers c ≡ false
      → Dark l w
      → Dark l (run_callback c w)
  unfolding run_callback io_device_control file_create modify_ctx
  callback-Dark l (ioctl code) w h (q, n) = let (e, m) = dispatch-dark code w h n in (e ∙ q, m)
  callback-Dark l (create file) w h d = d
  callback-Dark l (cleanup file) w h d = (file_cleanup-Dark (Dark-IsDark l) file).at w d
  callback-Dark l (prepare ds) w h d = (prepare_hardware-Dark (Dark-IsDark l) ds).at w d
  callback-Dark l release w h d = (release_hardware-Dark (Dark-IsDark l)).at w d
  callback-Dark l init w h (q, n) = let (e, m) = (power-dark w n).0 in (e ∙ q, m)
  callback-Dark l restart w h (q, n) = let (e, m) = (power-dark w n).1.0 in (e ∙ q, m)
  callback-Dark l suspend w h (q, n) = let (e, m) = (power-dark w n).1.1 in (e ∙ q, m)

  unfoldable pub run_all : List Callback → World → World
  run_all [] w = w
  run_all (c ∷ cs) w = run_all cs (run_callback c w)

  run_all-Dark :
      (l : Log) (cs : List Callback) (w : World)
      → All (λ c. recovers c ≡ false) cs
      → Dark l w
      → Dark l (run_all cs w)
  unfolding run_all
  run_all-Dark l [] w h d = d
  run_all-Dark l (c ∷ cs) w (h, hs) d = run_all-Dark l cs _ hs (callback-Dark l c w h d)

  -- While a reset awaits its recovery, whatever callbacks are called in whatever order, as long as
  -- none of them is a POST_RESET: no access of device memory is added to the log, and the
  -- restriction stays in force.
  pub run_all-dark :
      (cs : List Callback) (w : World)
      → All (λ c. recovers c ≡ false) cs
      → w.ctx.needs_hw_init ≡ true
      → (mmio_log (run_all cs w).log ≡ mmio_log w.log) × ((run_all cs w).ctx.needs_hw_init ≡ true)
  run_all-dark cs w h n = run_all-Dark (mmio_log w.log) cs w h (refl, n)
