-- ===== src/Arc/Ring.antt =====
-- The request and the response ring of the message queue (TtWindArcTryPush and TtWindArcTryPop
-- of driver/arc.c).
pub mod Counters
pub mod Bounds
use tt_wind.Base.{
  ℕ, zero, suc, ◌+◌, ◌*◌, ◌%◌, List, [], ◌∷◌, ◌!=◌, ltb, not, ◌==◌, u32, sub32, all_ones32,
}
use tt_wind.Status.{device_does_not_exist, device_busy}
use tt_wind.Kernel.{Env}
use tt_wind.Monad.{M, ◌>>=◌, ◌>>◌, pure, require}
use tt_wind.Arc.Access.{csm_read32, csm_write32}
use tt_wind.Arc.Locate.{Queue}

-- TTWIND_ARC_MSG: the header and the seven payload words.
pub record ArcMsg : Type 0 where
  pub header : ℕ
  pub payload : List ℕ

abbrev pub queue_header_size : ℕ
queue_header_size = 32

abbrev pub msg_size : ℕ
msg_size = 32

-- `(wptr - rptr) % (2 * NumEntries)` on UINT32.
unfoldable pub occupancy : (wptr rptr num_entries : ℕ) → ℕ
occupancy w r n = sub32 w r % (2 * n)

-- `(ptr + 1) % (2 * NumEntries)`
unfoldable pub advance : (ptr num_entries : ℕ) → ℕ
advance p n = u32 (p + 1) % (2 * n)

abbrev pub request_base : Queue → ℕ
request_base q = u32 (q.base + queue_header_size)

abbrev pub response_base : Queue → ℕ
response_base q = u32 (q.base + queue_header_size + q.num_entries * msg_size)

module _ ⦃env : Env⦄ where
  -- A ring pointer; all-1s means that the device is gone.
  unfoldable pub read_pointer : ℕ → M ℕ
  read_pointer addr = do
    p ← csm_read32 addr
    require (p != all_ones32) device_does_not_exist
    pure p

  unfoldable pub write_words : List ℕ → ℕ → M (Unit {0})
  write_words [] addr = pure tt
  write_words (v ∷ vs) addr = csm_write32 (u32 addr) v >> write_words vs (addr + 4)

  unfoldable pub read_words : (count addr : ℕ) → M (List ℕ)
  read_words zero addr = pure []
  read_words (suc count) addr = do
    v ← csm_read32 (u32 addr)
    vs ← read_words count (addr + 4)
    pure (v ∷ vs)

  unfoldable pub try_push : ArcMsg → Queue → M (Unit {0})
  try_push msg q = do
    wptr ← read_pointer (u32 (q.base + 0x00))
    rptr ← read_pointer (u32 (q.base + 0x10))
    require (ltb (occupancy wptr rptr q.num_entries) q.num_entries) device_busy
    write_words (msg.header ∷ msg.payload) (request_base q + wptr % q.num_entries * msg_size)
    csm_write32 (u32 (q.base + 0x00)) (advance wptr q.num_entries)

  unfoldable pub try_pop : Queue → M ArcMsg
  try_pop q = do
    rptr ← read_pointer (u32 (q.base + 0x04))
    wptr ← read_pointer (u32 (q.base + 0x14))
    require (not (occupancy wptr rptr q.num_entries == 0)) device_busy
    let slot = response_base q + rptr % q.num_entries * msg_size
    header ← csm_read32 (u32 slot)
    payload ← read_words 7 (slot + 4)
    csm_write32 (u32 (q.base + 0x04)) (advance rptr q.num_entries)
    pure (record { header = header; payload = payload })
