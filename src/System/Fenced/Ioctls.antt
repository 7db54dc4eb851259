-- ===== src/System/Fenced/Ioctls.antt =====
-- Every ioctl leaves an older handle older (driver/queue.c).
use tt_wind.Base.{
  ℕ, some, ap, ◌∙◌, ◌!=◌, arith, ◌+◌, ◌^◌, ◌<◌, true, false, ◌≡◌, is_some_of, Bool-cases, inl, inr,
}
use tt_wind.Kernel.{Env}
use tt_wind.Context.{World}
use tt_wind.Monad.{◌>>◌}
use tt_wind.Monad.Keeps.{
  keeps_rules, Keeps-bind, Keeps-pure, Keeps-from_result, Keeps-require, Keeps-get_ctx,
}
use tt_wind.Monad.Moves.{Shifts}
use tt_wind.Request.{Request, ResetIn}
use tt_wind.Reset.Arm.{reset_device}
use tt_wind.Queue.{
  Ioctl, get_device_info_code, map_bar_code, unmap_bar_code, allocate_tlb_code, free_tlb_code,
  configure_tlb_code, map_tlb_code, smc_msg_code, reset_device_code, arc_status_code,
  post_reset_code, query_sysmem_code, map_sysmem_code, sysmem_status_code, other_code, handle,
  dispatch, file_of,
}
use tt_wind.Queue.{is_stale}
use tt_wind.Queue.Fences.{dispatch_stale}
use tt_wind.Status.{fail, device_removed}
use tt_wind.Mapping.Released.{owned_by}
use tt_wind.System.Flags.Routines.{
  get_device_info-Flags, map_bar-Flags, unmap_bar-Flags, allocate_tlb-Flags, free_tlb-Flags,
  configure_tlb-Flags, map_tlb-Flags, query_sysmem-Flags, map_sysmem-Flags, sysmem_status-Flags,
}
use tt_wind.System.Fenced.{
  Older, Older-IsFlags, later_bound, Shifts-after, Shifts-before, Shifts-with_lock,
  commit_reset-Older,
}
use tt_wind.System.Fenced.Routines.{
  prepare_reset-Older, post_reset-Older, smc_msg-Older, arc_status-Older, event, kept,
}

-- A handle with a generation below the reset generation is refused.
pub stale_refused :
    ⦃env : Env⦄ (code : Ioctl) (w : World) (file : ℕ)
    → file_of code ≡ some file
    → w.ctx.file_generation file < w.ctx.reset_generation
    → dispatch code w ≡ (fail device_removed, w)
stale_refused code w file e l = dispatch_stale code w (ap (is_stale w.ctx) e ∙ unequal _ _ l)
  where
    unequal : (a b : ℕ) → a < b → (a != b) ≡ true
    unequal a b l = ground arith

module _ ⦃env : Env⦄ (file n : ℕ) where
  dispatched :
      (code : Ioctl)
      → Shifts (Older file n) (Older file (n + 1)) (handle code)
      → Shifts (Older file n) (Older file (n + 1)) (dispatch code)
  unfolding dispatch ◌>>◌
  dispatched code h =
      let i = later_bound file n in
      Shifts-after _ _ i Keeps-get_ctx (λ c.
        Shifts-after _ _ i (Keeps-require _ _)
          (λ _. Shifts-after _ _ i (Keeps-require _ _) (λ _. h)))

module _ ⦃env : Env⦄ (file n : ℕ) (top : n + 1 < 2 ^ 64) where
  reset_device-Older :
      (r : Request ResetIn)
      → is_some_of file r.file ≡ false
      → Shifts (Older file n) (Older file (n + 1)) (reset_device r)
  unfolding reset_device ◌>>◌
  reset_device-Older r h =
      let i = later_bound file n in
      Shifts-after _ _ i (Keeps-from_result _) (λ input.
        Shifts-after _ _ i (Keeps-require _ _) (λ _. Shifts-after _ _ i Keeps-get_ctx (λ c.
          Shifts-after _ _ i (Keeps-require _ _) (λ _.
            Shifts-after _ _ i (search (keeps_rules, event file n) depth 12) (λ busy.
              Shifts-after _ _ i (Keeps-require _ _) (λ _.
                Shifts-with_lock _ _ (event file n _) (event file (n + 1) _) (
                  Shifts-after _ _ i (prepare_reset-Older file n)
                    (λ _. commit_reset-Older file n top r.file h))))))))

  -- RESET_DEVICE raises the generation, every other handler leaves it.
  handle-Older :
      (code : Ioctl)
      → is_some_of file (file_of code) ≡ false
      → Shifts (Older file n) (Older file (n + 1)) (handle code)
  unfolding handle ◌>>◌
  handle-Older (get_device_info_code r) h =
      kept file n _
        (Keeps-bind _ _ (get_device_info-Flags (Older-IsFlags file n) r) (λ _. Keeps-pure _))
  handle-Older (map_bar_code r) h =
      kept file n _ (Keeps-bind _ _ (map_bar-Flags (Older-IsFlags file n) r) (λ _. Keeps-pure _))
  handle-Older (unmap_bar_code r) h =
      kept file n _ (Keeps-bind _ _ (unmap_bar-Flags (Older-IsFlags file n) r) (λ _. Keeps-pure _))
  handle-Older (allocate_tlb_code r) h =
      kept file n _
        (Keeps-bind _ _ (allocate_tlb-Flags (Older-IsFlags file n) r) (λ _. Keeps-pure _))
  handle-Older (free_tlb_code r) h =
      kept file n _ (Keeps-bind _ _ (free_tlb-Flags (Older-IsFlags file n) r) (λ _. Keeps-pure _))
  handle-Older (configure_tlb_code r) h =
      kept file n _
        (Keeps-bind _ _ (configure_tlb-Flags (Older-IsFlags file n) r) (λ _. Keeps-pure _))
  handle-Older (map_tlb_code r) h =
      kept file n _ (Keeps-bind _ _ (map_tlb-Flags (Older-IsFlags file n) r) (λ _. Keeps-pure _))
  handle-Older (smc_msg_code r) h =
      kept file n _ (Keeps-bind _ _ (smc_msg-Older file n r) (λ _. Keeps-pure _))
  handle-Older (reset_device_code r) h =
      Shifts-before _ _ (reset_device-Older r h) (λ _. Keeps-pure _)
  handle-Older (arc_status_code r) h =
      kept file n _ (Keeps-bind _ _ (arc_status-Older file n r) (λ _. Keeps-pure _))
  handle-Older (post_reset_code r) h =
      kept file n _ (Keeps-bind _ _ (post_reset-Older file n r) (λ _. Keeps-pure _))
  handle-Older (query_sysmem_code r) h =
      kept file n _
        (Keeps-bind _ _ (query_sysmem-Flags (Older-IsFlags file n) r) (λ _. Keeps-pure _))
  handle-Older (map_sysmem_code r) h =
      kept file n _ (Keeps-bind _ _ (map_sysmem-Flags (Older-IsFlags file n) r) (λ _. Keeps-pure _))
  handle-Older (sysmem_status_code r) h =
      kept file n _
        (Keeps-bind _ _ (sysmem_status-Flags (Older-IsFlags file n) r) (λ _. Keeps-pure _))
  handle-Older (other_code r) h = kept file n _ (search keeps_rules)

  -- The ioctls of other handles pass the fence or not, those of the handle itself are refused.
  pub dispatch-Older : (code : Ioctl) → Shifts (Older file n) (Older file (n + 1)) (dispatch code)
  dispatch-Older code = elim (Bool-cases (is_some_of file (file_of code))) [
    | inl e ↦ record { at = λ w p. refused w p e }
    | inr e ↦ passed e
  ]
    where
      refused :
          (w : World)
          → Older file n w
          → is_some_of file (file_of code) ≡ true
          → Older file (n + 1) (dispatch code w).1
      refused w p e =
          rw (stale_refused code w file (owned_by file _ e) p.0) (later_bound file n w p)

      passed :
          is_some_of file (file_of code) ≡ false
          → Shifts (Older file n) (Older file (n + 1)) (dispatch code)
      passed e = dispatched file n code (handle-Older code e)
