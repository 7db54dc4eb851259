-- ===== src/System/Invariant.antt =====
-- What holds of the driver in every world that it comes to.
use tt_wind.Base.{ℕ, Bool, List, [], ◌∷◌}
use tt_wind.Kernel.{Env, Region}
use tt_wind.Context.{World, Sysmem, BarDesc, Identity, ArcRoute}
use tt_wind.Monad.{modify_ctx}
use tt_wind.Monad.Keeps.{Keeps, Overlooks, Keeps-ignore, Keeps-seq}
use tt_wind.Mapping.Sound.{Sound}
use tt_wind.Mapping.Released.{init-Sound}
use tt_wind.Mapping.Preserves.{
  SoundWorld, sound_rules, file_cleanup-Sound, revoke_all_mappings-Sound,
}
use tt_wind.Tlb.Preserves.{FindsClear, sound_control}
use tt_wind.Sysmem.Buffer.{modify_sysmem, try_tiers, sysmem_allocate, sysmem_free}
use tt_wind.Device.Resources.{Descriptor, query_interface, read_pci_identity}
use tt_wind.Device.Prepare.{
  modify_mapped, map_region, map_required, map_optional, prepare_hardware, file_create,
}
use tt_wind.Device.Release.{unmap_region, release_hardware}
use tt_wind.Device.Power.{self_managed_io_init, self_managed_io_restart, self_managed_io_suspend}
use tt_wind.Frame.Firmware.{
  power_up-Keeps, power_down-Keeps, sysmem_arm-Keeps, sysmem_invalidate-Keeps,
}
use tt_wind.Queue.Invariant.{io_device_control-Sound}
use tt_wind.System.{
  initial_context, Callback, ioctl, create, cleanup, prepare, release, init, restart, suspend,
  run_callback, Reachable, added, called,
}

module _ ⦃env : Env⦄ where
  modify_sysmem-Sound : (f : Sysmem → Sysmem) → Keeps SoundWorld (modify_sysmem f)
  unfolding modify_sysmem modify_ctx
  modify_sysmem-Sound f = record { at = λ w p. p }

  modify_mapped-Sound : (r : Region) (b : Bool) → Keeps SoundWorld (modify_mapped r b)
  unfolding modify_ctx
  modify_mapped-Sound r b = record { at = λ w p. p }

  -- The updates of the context that leave the state under StateLock as it is.
  bars-Sound : (b : List BarDesc) → Overlooks SoundWorld (λ c. record c { bars = b })
  bars-Sound b = record { at = λ w p. p }

  identity-Sound :
      (f : Identity → Identity) → Overlooks SoundWorld (λ c. record c { identity = f c.identity })
  identity-Sound f = record { at = λ w p. p }

  bus-Sound : (b : Bool) → Overlooks SoundWorld (λ c. record c { bus_if_valid = b })
  bus-Sound b = record { at = λ w p. p }

  stop-Sound :
      (b : Bool) (r : ArcRoute)
      → Overlooks SoundWorld
          (λ c. record c { arc_route = r; sysmem = record (c.sysmem) { is_verified = b } })
  stop-Sound b r = record { at = λ w p. p }

  try_tiers-Sound : (sizes : List ℕ) (i : ℕ) (n : _) → Keeps SoundWorld (try_tiers sizes i n)
  unfolding try_tiers
  try_tiers-Sound [] i n = search sound_rules
  try_tiers-Sound (s ∷ rest) i n =
      search (sound_rules, modify_sysmem-Sound, try_tiers-Sound rest) depth 12

  sysmem_allocate-Sound : Keeps SoundWorld sysmem_allocate
  unfolding sysmem_allocate
  sysmem_allocate-Sound = search (sound_rules, modify_sysmem-Sound, try_tiers-Sound) depth 16

  sysmem_free-Sound : Keeps SoundWorld sysmem_free
  unfolding sysmem_free
  sysmem_free-Sound = search (sound_rules, modify_sysmem-Sound) depth 12

  read_pci_identity-Sound : Keeps SoundWorld read_pci_identity
  unfolding read_pci_identity query_interface
  read_pci_identity-Sound = search (sound_rules, identity-Sound, bus-Sound) depth 24

  map_region-Sound : (r : Region) (phys len : ℕ) → Keeps SoundWorld (map_region r phys len)
  unfolding map_region
  map_region-Sound r phys len = search (sound_rules, modify_mapped-Sound) depth 12

  map_required-Sound : Keeps SoundWorld map_required
  unfolding map_required
  map_required-Sound = search (sound_rules, map_region-Sound, modify_mapped-Sound) depth 20

  map_optional-Sound :
      (b : Bool) (r : Region) (phys len : ℕ) → Keeps SoundWorld (map_optional b r phys len)
  unfolding map_optional
  map_optional-Sound b r phys len = search (sound_rules, map_region-Sound) depth 12

  unmap_region-Sound : (b : Bool) (r : Region) (len : ℕ) → Keeps SoundWorld (unmap_region b r len)
  unfolding unmap_region
  unmap_region-Sound b r len = search (sound_rules, modify_mapped-Sound) depth 12

  prepare_hardware-Sound : (ds : List Descriptor) → Keeps SoundWorld (prepare_hardware ds)
  unfolding prepare_hardware
  prepare_hardware-Sound ds =
      search
        (
          sound_rules, read_pci_identity-Sound, bars-Sound, map_required-Sound, map_optional-Sound,
          sysmem_allocate-Sound,
        )
        depth 20

  release_hardware-Sound : Keeps SoundWorld release_hardware
  unfolding release_hardware
  release_hardware-Sound =
      search
        (
          sound_rules, revoke_all_mappings-Sound, unmap_region-Sound, bars-Sound, stop-Sound,
          bus-Sound, sysmem_free-Sound,
        )
        depth 30

  power_up_callback-Sound : Keeps SoundWorld self_managed_io_init
  unfolding self_managed_io_init
  power_up_callback-Sound =
      Keeps-seq _ _ (Keeps-ignore _ (power_up-Keeps sound_control))
        (Keeps-ignore _ (sysmem_arm-Keeps sound_control))

  suspend-Sound : Keeps SoundWorld self_managed_io_suspend
  unfolding self_managed_io_suspend
  suspend-Sound =
      search (sound_rules, power_down-Keeps sound_control, sysmem_invalidate-Keeps sound_control)

  module _ (f : FindsClear env) where
    run_callback-Sound :
        (c : Callback) (w : World) → Sound w.ctx.shared → Sound (run_callback c w).ctx.shared
    unfolding run_callback self_managed_io_restart file_create modify_ctx
    run_callback-Sound (ioctl code) w s = io_device_control-Sound f code w s
    run_callback-Sound (create file) w s = s
    run_callback-Sound (cleanup file) w s = (file_cleanup-Sound file).at w s
    run_callback-Sound (prepare ds) w s = (prepare_hardware-Sound ds).at w s
    run_callback-Sound release w s = release_hardware-Sound.at w s
    run_callback-Sound init w s = power_up_callback-Sound.at w s
    run_callback-Sound restart w s = power_up_callback-Sound.at w s
    run_callback-Sound suspend w s = suspend-Sound.at w s

    -- Whatever callbacks the framework has called, in whatever order and with whatever results, the
    -- state under StateLock is sound: windows, bits and owners agree, the kernel's window is
    -- reserved, and every mapping of a window belongs to the window's owner. The bitmap routine is
    -- assumed to pick a bit of the bitmap that is clear.
    pub Reachable-Sound : (w : World) → Reachable w → Sound w.ctx.shared
    unfolding initial_context
    Reachable-Sound w (added l) = init-Sound
    Reachable-Sound w (called c v r) = run_callback-Sound c v (Reachable-Sound v r)
