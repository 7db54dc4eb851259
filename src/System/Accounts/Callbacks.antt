-- ===== src/System/Accounts/Callbacks.antt =====
-- Every callback of the driver leaves one reference of a process for each mapping into it.
use tt_wind.Base.{ℕ, ◌+◌, Bool, Option, List, [], ◌∷◌, ◌≡◌, refl, ap, arith}
use tt_wind.Kernel.{Env, Region}
use tt_wind.Context.{World, Sysmem}
use tt_wind.Monad.{modify_ctx}
use tt_wind.Monad.Keeps.{Keeps, Keeps-seq, Keeps-ignore, Keeps-modify_ctx}
use tt_wind.Sysmem.Buffer.{modify_sysmem, try_tiers, sysmem_allocate, sysmem_free}
use tt_wind.Sysmem.Arm.{sysmem_invalidate}
use tt_wind.Arc.Exchange.{power_down}
use tt_wind.Device.Resources.{Descriptor, query_interface, read_pci_identity}
use tt_wind.Device.Prepare.{
  modify_mapped, map_region, map_required, map_optional, prepare_hardware, file_create,
}
use tt_wind.Device.Release.{unmap_region, release_hardware}
use tt_wind.Device.Power.{self_managed_io_init, self_managed_io_restart, self_managed_io_suspend}
use tt_wind.Frame.Firmware.{
  power_up-Keeps, power_down-Keeps, sysmem_arm-Keeps, sysmem_invalidate-Keeps,
}
use tt_wind.Queue.{io_device_control}
use tt_wind.System.{
  Callback, ioctl, create, cleanup, prepare, release, init, restart, suspend, run_callback,
}
use tt_wind.System.Dark.{run_all}
use tt_wind.System.Accounts.{taken, given, held, Accounted}
use tt_wind.System.Accounts.Mappings.{file_cleanup-Accounted, revoke_all_mappings-Accounted}
use tt_wind.System.Accounts.Ioctls.{same_list, accounts_rules, control, dispatch-Accounted}

module _ ⦃env : Env⦄ (p : ℕ) where
  modify_sysmem-Accounted : (f : Sysmem → Sysmem) → Keeps (Accounted p) (modify_sysmem f)
  unfolding modify_sysmem
  modify_sysmem-Accounted f = Keeps-modify_ctx _ (same_list p 0 _ (λ c. refl))

  modify_mapped-Accounted : (r : Region) (b : Bool) → Keeps (Accounted p) (modify_mapped r b)
  modify_mapped-Accounted r b = Keeps-modify_ctx _ (same_list p 0 _ (λ c. refl))

  try_tiers-Accounted :
      (sizes : List ℕ) (i : ℕ) (n : Option ℕ) → Keeps (Accounted p) (try_tiers sizes i n)
  unfolding try_tiers
  try_tiers-Accounted [] i n = search accounts_rules
  try_tiers-Accounted (s ∷ rest) i n =
      search (accounts_rules, modify_sysmem-Accounted, try_tiers-Accounted rest) depth 12

  sysmem_allocate-Accounted : Keeps (Accounted p) sysmem_allocate
  unfolding sysmem_allocate
  sysmem_allocate-Accounted =
      search (accounts_rules, modify_sysmem-Accounted, try_tiers-Accounted) depth 16

  sysmem_free-Accounted : Keeps (Accounted p) sysmem_free
  unfolding sysmem_free
  sysmem_free-Accounted = search (accounts_rules, modify_sysmem-Accounted) depth 12

  map_region-Accounted : (r : Region) (phys len : ℕ) → Keeps (Accounted p) (map_region r phys len)
  unfolding map_region
  map_region-Accounted r phys len = search (accounts_rules, modify_mapped-Accounted) depth 12

  prepare_hardware-Accounted : (ds : List Descriptor) → Keeps (Accounted p) (prepare_hardware ds)
  unfolding prepare_hardware read_pci_identity query_interface map_required map_optional
  prepare_hardware-Accounted ds =
      search
        (accounts_rules, map_region-Accounted, modify_mapped-Accounted, sysmem_allocate-Accounted)
        depth 60

  unmap_region-Accounted :
      (b : Bool) (r : Region) (len : ℕ) → Keeps (Accounted p) (unmap_region b r len)
  unfolding unmap_region
  unmap_region-Accounted b r len = search (accounts_rules, modify_mapped-Accounted) depth 12

  release_hardware-Accounted : Keeps (Accounted p) release_hardware
  unfolding release_hardware
  release_hardware-Accounted =
      search
        (
          accounts_rules, revoke_all_mappings-Accounted, unmap_region-Accounted,
          sysmem_free-Accounted,
        )
        depth 40

  power_up_callback-Accounted : Keeps (Accounted p) self_managed_io_init
  unfolding self_managed_io_init
  power_up_callback-Accounted =
      Keeps-seq _ _ (Keeps-ignore _ (power_up-Keeps (control p)))
        (Keeps-ignore _ (sysmem_arm-Keeps (control p)))

  power_down-Accounted : Keeps (Accounted p) power_down
  power_down-Accounted = power_down-Keeps (control p)

  invalidate-Accounted : Keeps (Accounted p) sysmem_invalidate
  invalidate-Accounted = sysmem_invalidate-Keeps (control p)

  suspend-Accounted : Keeps (Accounted p) self_managed_io_suspend
  unfolding self_managed_io_suspend
  suspend-Accounted = search (accounts_rules, power_down-Accounted, invalidate-Accounted)

  run_callback-Accounted :
      (c : Callback) (w : World) → Accounted p w → Accounted p (run_callback c w)
  unfolding run_callback io_device_control self_managed_io_restart file_create modify_ctx
  run_callback-Accounted (ioctl code) w o = (dispatch-Accounted p code).at w o
  run_callback-Accounted (create file) w o = o
  run_callback-Accounted (cleanup file) w o = (file_cleanup-Accounted p file).at w o
  run_callback-Accounted (prepare ds) w o = (prepare_hardware-Accounted ds).at w o
  run_callback-Accounted release w o = release_hardware-Accounted.at w o
  run_callback-Accounted init w o = power_up_callback-Accounted.at w o
  run_callback-Accounted restart w o = power_up_callback-Accounted.at w o
  run_callback-Accounted suspend w o = suspend-Accounted.at w o

  run_all-Accounted : (cs : List Callback) (w : World) → Accounted p w → Accounted p (run_all cs w)
  unfolding run_all
  run_all-Accounted [] w o = o
  run_all-Accounted (c ∷ cs) w o = run_all-Accounted cs _ (run_callback-Accounted c w o)

  -- A driver that starts without mappings, with as many references of a process taken as given back:
  -- after whatever callbacks in whatever order and with whatever results, the references of the
  -- process that were taken are those given back and one more for each mapping into the process that
  -- is in the list.
  pub run_all-accounts :
      (cs : List Callback) (w : World)
      → w.ctx.shared.mapping_list ≡ []
      → taken p w.log ≡ given p w.log
      → taken p (run_all cs w).log
        ≡ given p (run_all cs w).log + held p (run_all cs w).ctx.shared.mapping_list
  unfolding held
  run_all-accounts cs w e b =
      let o = run_all-Accounted cs w (omega (arith, b, ap (held p) e)) in omega (arith, o)
