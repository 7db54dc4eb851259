-- ===== src/Tool/Sysmem.antt =====
-- The pinned memory (tools/ttwind-info/ttwind-info.c): sysmem and sysmemtest.
use tt_wind.Base.{ℕ, zero, suc, ◌+◌, ◌*◌, Bool, true, ◌==◌, ◌&&◌, ltb, u32, u64, if◌then◌else◌}
use tt_wind.Request.{MapOut, cache_uc}
use tt_wind.Sysmem.Ioctl.{QuerySysmemOut}
use tt_wind.Tool.Calls.{
  Host, T, ◌>>=◌, ◌>>◌, pure, branch, on_answer, code_after, ioctl, load, store, unmap_bar,
  configure_tlb, map_tlb, query_sysmem, map_sysmem, sysmem_status,
}
use tt_wind.Tool.Args.{unicast_config, offset_in}
use tt_wind.Tool.Device.{ExitCode, with_first_device}
use tt_wind.Tool.Windows.{with_window}

-- sizeof(TTWIND_QUERY_SYSMEM_OUT)
abbrev pub query_bytes : ℕ
query_bytes = 48

abbrev pub test_off : ℕ
test_off = 0x100

-- `expect[i]`
abbrev pub expected : ℕ → ℕ
expected i = u32 (0x74747335 + i * 0x01010101)

module _ ⦃host : Host⦄ where
  -- The report of SYSMEM_STATUS is printed and does not change the exit code.
  unfoldable pub sysmem_body : (h : ℕ) → T ℕ
  sysmem_body h = do
    a ← ioctl h query_sysmem
    on_answer a (pure 2) (λ q returned.
        branch (ltb returned query_bytes) (pure 2)
          (do _ ← ioctl h sysmem_status; pure (if q.total_size == 0 then 1 else 0)))

  unfoldable pub cmd_sysmem : (rounds : ℕ) → T ExitCode
  cmd_sysmem rounds = with_first_device rounds sysmem_body

  -- The first loop of sysmemtest from index `i` on, and the loop that clears the words again.
  unfoldable pub write_pattern : (left i va : ℕ) → T (Unit {0})
  write_pattern zero i va = pure tt
  write_pattern (suc left) i va = do store (va + 4 * i) (expected i); write_pattern left (i + 1) va

  unfoldable pub clear_pattern : (left i va : ℕ) → T (Unit {0})
  clear_pattern zero i va = pure tt
  clear_pattern (suc left) i va = do store (va + 4 * i) 0; clear_pattern left (i + 1) va

  -- Whether every word that is read is the expected one.
  unfoldable pub read_pattern : (left i va : ℕ) (matches : Bool) → T Bool
  read_pattern zero i va matches = pure matches
  read_pattern (suc left) i va matches = do
    got ← load (va + 4 * i)
    read_pattern left (i + 1) va (matches && (got == expected i))

  -- From CONFIGURE_TLB to the label out_free_tlb.
  unfoldable pub compare_over_noc : (x noc_addr sysva h id : ℕ) → T ℕ
  compare_over_noc x noc_addr sysva h id = do
    c ←
        ioctl h (
          configure_tlb
            (record { tlb_id = id; reserved = 0; config = unicast_config x 0 noc_addr }))
    on_answer c (pure 2) (λ _ _. do
      m ← ioctl h (map_tlb (record { tlb_id = id; cache_mode = cache_uc }))
      on_answer m (pure 2) (λ va _. do
        matches ← read_pattern 4 0 (u64 (va + offset_in noc_addr)) true
        clear_pattern 4 0 sysva
        u ← ioctl h (unmap_bar va)
        pure (code_after u (if matches then 0 else 1))))

  -- With the memory mapped: the pattern, the window, and the label out_unmap_sysmem.
  unfoldable pub with_sysmem : QuerySysmemOut → (h : ℕ) → MapOut → T ℕ
  with_sysmem q h out = do
    let sysva = u64 (out.user_va + test_off)
    write_pattern 4 0 sysva
    rc ← with_window h (compare_over_noc q.pcie_tile_x (u64 (q.noc_address + test_off)) sysva h)
    u ← ioctl h (unmap_bar out.user_va)
    pure (code_after u rc)

  unfoldable pub sysmemtest_body : (h : ℕ) → T ℕ
  sysmemtest_body h = do
    a ← ioctl h query_sysmem
    on_answer a (pure 2) (λ q _. branch (q.total_size == 0) (pure 2) (do
      m ← ioctl h (map_sysmem (record { offset = 0; len = 1024 * 1024 }))
      on_answer m (pure 2) (λ out _. with_sysmem q h out)))

  unfoldable pub cmd_sysmemtest : (rounds : ℕ) → T ExitCode
  cmd_sysmemtest rounds = with_first_device rounds sysmemtest_body
