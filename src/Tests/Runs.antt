-- ===== src/Tests/Runs.antt =====
-- The theorems on sequences of callbacks at concrete runs.
use tt_wind.Base.{◌+◌, true, some, List, [], ◌∷◌, ◌≡◌, refl}
use tt_wind.Context.{World, tlb_2m_size}
use tt_wind.Mapping.Sound.{Sound}
use tt_wind.Device.Resources.{memory}
use tt_wind.Frame.Quiet.{mmio_log}
use tt_wind.Queue.{allocate_tlb_code, map_bar_code, map_tlb_code, reset_device_code}
use tt_wind.System.{
  Callback, ioctl, create, prepare, restart, suspend, cleanup, Reachable, added, called,
  initial_context, run_callback,
}
use tt_wind.System.Invariant.{Reachable-Sound}
use tt_wind.System.Guarded.{Guarded}
use tt_wind.System.Restriction.{Reachable-Guarded}
use tt_wind.System.Dark.{run_all, run_all-dark}
use tt_wind.System.Accounts.{taken, given, held}
use tt_wind.System.Accounts.Callbacks.{run_all-accounts}
use tt_wind.Tests.Sim.{sim, fresh, restricted, request}
use tt_wind.Tests.Machine.{sim-FindsClear}

-- The device is started with one BAR of 512 MiB, handle 7 opens it, allocates a window and maps it.
abbrev loaded : World
loaded = record { ctx = initial_context; log = [] }

abbrev prepared : World
prepared =
    run_callback ⦃env = sim⦄
      (prepare (record { type = memory; start = 0x800000000; len = 0x20000000 } ∷ [])) loaded

abbrev opened : World
opened = run_callback ⦃env = sim⦄ (create 7) prepared

abbrev allocated : World
allocated = run_callback ⦃env = sim⦄ (ioctl (allocate_tlb_code (request tlb_2m_size))) opened

abbrev in_use : World
in_use =
    run_callback ⦃env = sim⦄
      (ioctl (map_tlb_code (request (record { tlb_id = 0; cache_mode = 0 })))) allocated

in_use-Reachable : Reachable ⦃env = sim⦄ in_use
in_use-Reachable = called _ _ (called _ _ (called _ _ (called _ _ (added []))))

Reachable-Sound_example : Sound (in_use.ctx.shared)
Reachable-Sound_example = Reachable-Sound ⦃env = sim⦄ sim-FindsClear in_use in_use-Reachable

-- Another reset, a sleep and a wake-up, and a window request that the fence refuses.
abbrev dark_calls : List Callback
dark_calls =
    ioctl (reset_device_code (request (record { flags = 0; reserved = 0 })))
    ∷ suspend
    ∷ restart
    ∷ ioctl (allocate_tlb_code (request tlb_2m_size))
    ∷ cleanup 7
    ∷ []

run_all-dark_example :
    (mmio_log (run_all ⦃env = sim⦄ dark_calls restricted).log ≡ mmio_log [])
    × ((run_all ⦃env = sim⦄ dark_calls restricted).ctx.needs_hw_init ≡ true)
run_all-dark_example =
    run_all-dark ⦃env = sim⦄ dark_calls restricted (refl, (refl, (refl, (refl, (refl, tt))))) refl

-- Handle 7 resets the device instead.
abbrev armed : World
armed =
    run_callback ⦃env = sim⦄
      (ioctl (reset_device_code (request (record { flags = 0; reserved = 0 })))) opened

armed-Reachable : Reachable ⦃env = sim⦄ armed
armed-Reachable = called _ _ (called _ _ (called _ _ (added [])))

Reachable-Guarded_example : Guarded armed
Reachable-Guarded_example = Reachable-Guarded ⦃env = sim⦄ armed armed-Reachable

-- Handle 7 maps two pages of BAR 0 twice, handle 8 another one, and 7 goes.
abbrev bar_calls : List Callback
bar_calls =
    ioctl
      (map_bar_code (request (record { bar_index = 0; cache_mode = 0; offset = 0; len = 0x2000 })))
    ∷ ioctl (
        map_bar_code (request (record { bar_index = 0; cache_mode = 0; offset = 0; len = 0x2000 })))
    ∷ ioctl (
        map_bar_code
          (record (request (record { bar_index = 0; cache_mode = 0; offset = 0; len = 0x1000 })) {
            file = some 8;
          }))
    ∷ cleanup 7
    ∷ []

no_references : taken 9 [] ≡ given 9 []
unfolding taken given
no_references = refl

run_all-accounts_example :
    taken 9 (run_all ⦃env = sim⦄ bar_calls fresh).log
    ≡ given 9 (run_all ⦃env = sim⦄ bar_calls fresh).log
      + held 9 (run_all ⦃env = sim⦄ bar_calls fresh).ctx.shared.mapping_list
run_all-accounts_example = run_all-accounts ⦃env = sim⦄ 9 bar_calls fresh refl no_references
