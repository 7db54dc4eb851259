-- ===== src/Tool/Windows.antt =====
-- Reads of the card (tools/ttwind-info/ttwind-info.c): bar0read, tlbread and tlbreadx.
use tt_wind.Base.{ℕ, ◌+◌, ◌-◌, some, List, bit_and, u64}
use tt_wind.Context.{NocTlbConfig, tlb_2m_size}
use tt_wind.Request.{cache_uc}
use tt_wind.Tool.Calls.{
  Text, Host, T, ◌>>=◌, pure, on_answer, code_after, ioctl, load, map_bar, unmap_bar, allocate_tlb,
  configure_tlb, map_tlb, free_tlb, on_option,
}
use tt_wind.Tool.Args.{
  offset_arg, read_args, readx_fields, fields_config, unicast_config, cache_of, offset_in,
}
use tt_wind.Tool.Device.{ExitCode, with_first_device}

module _ ⦃host : Host⦄ where
  unfoldable pub bar0_body : (offset h : ℕ) → T ℕ
  bar0_body offset h = do
    m ← ioctl h (
        map_bar (record {
          bar_index = 0;
          cache_mode = cache_uc;
          offset = offset - bit_and offset 0xFFF;
          len = 0x1000;
        }))
    on_answer m (pure 2) (λ out _. do
      _ ← load (u64 (out.user_va + bit_and offset 0xFFF))
      u ← ioctl h (unmap_bar out.user_va)
      pure (code_after u 0))

  unfoldable pub cmd_bar0read : (rounds : ℕ) → Text → T ExitCode
  cmd_bar0read rounds arg =
      on_option (offset_arg arg) (pure (some 2))
        (λ offset. with_first_device rounds (bar0_body offset))

  -- From CONFIGURE_TLB to the label out_free.
  unfoldable pub read_window : NocTlbConfig → (cache_mode addr h id : ℕ) → T ℕ
  read_window cfg cache_mode addr h id = do
    c ← ioctl h (configure_tlb (record { tlb_id = id; reserved = 0; config = cfg }))
    on_answer c (pure 2) (λ _ _. do
      m ← ioctl h (map_tlb (record { tlb_id = id; cache_mode = cache_mode }))
      on_answer m (pure 2) (λ va _. do
        _ ← load (u64 (va + offset_in addr))
        u ← ioctl h (unmap_bar va)
        pure (code_after u 0)))

  -- A window around a body, which ends at the label that frees it.
  unfoldable pub with_window : (h : ℕ) → (ℕ → T ℕ) → T ℕ
  with_window h body = do
    a ← ioctl h (allocate_tlb tlb_2m_size)
    on_answer a (pure 2) (λ id _. do
      rc ← body id
      f ← ioctl h (free_tlb (record { tlb_id = id; reserved = 0 }))
      pure (code_after f rc))

  unfoldable pub cmd_tlbread : (rounds : ℕ) → (x y addr : Text) → T ExitCode
  cmd_tlbread rounds x_arg y_arg addr_arg =
      on_option (read_args x_arg y_arg addr_arg) (pure (some 2)) (λ (x, y, addr).
        with_first_device rounds
          (λ h. with_window h (read_window (unicast_config x y addr) cache_uc addr h)))

  unfoldable pub cmd_tlbreadx : (rounds : ℕ) → List Text → T ExitCode
  cmd_tlbreadx rounds argv = on_option (readx_fields argv) (pure (some 2)) (λ f.
      with_first_device rounds
        (λ h. with_window h (read_window (fields_config f) (cache_of f.wc) f.addr h)))
