-- ===== src/Mapping/Teardown.antt =====
-- EvtFileCleanup and the revocation at ReleaseHardware (driver/mapping.c).
use tt_wind.Base.{ℕ, []}
use tt_wind.Kernel.{Env, state_lock}
use tt_wind.Monad.{M, ◌>>=◌, ◌>>◌, pure, get_ctx, modify_shared, with_lock}
use tt_wind.Mapping.Table.{owned_mappings, release_handle, reclaim_windows}
use tt_wind.Mapping.View.{destroy_all}

module _ ⦃env : Env⦄ where
  unfoldable pub file_cleanup : (file : ℕ) → M (Unit {0})
  file_cleanup file = do
    doomed ← with_lock state_lock (do
      ctx ← get_ctx
      modify_shared (release_handle file)
      pure (owned_mappings file ctx.shared))
    destroy_all doomed

  unfoldable pub revoke_all_mappings : M (Unit {0})
  revoke_all_mappings = do
    doomed ← with_lock state_lock (do
      ctx ← get_ctx
      modify_shared (λ s. reclaim_windows (record s { mapping_list = [] }))
      pure ctx.shared.mapping_list)
    destroy_all doomed
