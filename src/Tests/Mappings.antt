-- ===== src/Tests/Mappings.antt =====
-- UNMAP_BAR and ReleaseHardware on the simulated machine.
use tt_wind.Base.{ℕ, ◌≡◌, refl, none}
use tt_wind.Status.{ok}
use tt_wind.Context.{World}
use tt_wind.Monad.{steps}
use tt_wind.Monad.Outcome.{Frozen, Outcome}
use tt_wind.Request.{Request, MapBarIn}
use tt_wind.Mapping.Table.{find_mapping, may_insert}
use tt_wind.Mapping.View.{create_user_mapping, map_io_to_user, insert_mapping}
use tt_wind.Mapping.Ioctl.{map_bar, unmap_bar}
use tt_wind.Mapping.Unmapped.{Removed, unmap_bar-unmaps, map_bar-unmap_bar}
use tt_wind.Device.Stopped.{Stopped}
use tt_wind.Tests.Sim.{sim, fresh, request}

abbrev map_request : Request MapBarIn
map_request = request (record { bar_index = 0; cache_mode = 0; offset = 0x1000; len = 0x2000 })

abbrev unmap_request : Request ℕ
unmap_request = request 0x1000

abbrev mapped : World
mapped = (map_bar ⦃env = sim⦄ map_request fresh).1

unmap_bar-unmaps_example :
    Outcome
      (Frozen (mapped.ctx))
      (Removed unmap_request (mapped.ctx))
      (unmap_bar ⦃env = sim⦄ unmap_request mapped)
unmap_bar-unmaps_example = unmap_bar-unmaps ⦃env = sim⦄ unmap_request mapped

at_address :
    (map_bar ⦃env = sim⦄ map_request fresh).0 ≡ ok (record { user_va = 0x1000; len = 0x2000 })
unfolding map_bar create_user_mapping map_io_to_user insert_mapping may_insert steps
at_address = refl

none_there : (f : ℕ) → find_mapping f 0x1000 fresh.ctx.shared.mapping_list ≡ none
unfolding find_mapping
none_there f = refl

map_bar-unmap_bar_example :
    ((unmap_bar ⦃env = sim⦄ unmap_request mapped).0 ≡ ok tt)
    × ((unmap_bar ⦃env = sim⦄ unmap_request mapped).1.ctx ≡ fresh.ctx)
map_bar-unmap_bar_example =
    map_bar-unmap_bar ⦃env = sim⦄ map_request unmap_request fresh
      (record { user_va = 0x1000; len = 0x2000 }) at_address refl refl (λ f _. none_there f)
