-- ===== src/Reset/Config.antt =====
-- Config-space access over the bus interface (driver/reset.c).
use tt_wind.Base.{
  ℕ, zero, suc, ◌+◌, ◌*◌, ◌/◌, Bool, true, List, [], ◌∷◌, ◌==◌, ◌&&◌, length, overlay, word16,
  word32,
}
use tt_wind.Status.{Status}
use tt_wind.Kernel.{Env}
use tt_wind.Context.{pci_cfg_save_bytes}
use tt_wind.Monad.{branch, M, ◌>>=◌, ◌>>◌, pure, require, get_ctx, get_bus_data, set_bus_data}

abbrev pub cfg_vendor_id : ℕ
cfg_vendor_id = 0x00

abbrev pub cfg_command : ℕ
cfg_command = 0x04

abbrev pub cmd_parity : ℕ
cmd_parity = 0x0040

-- The buffer after the call, and whether all of it was read. A short read has written its part.
pub record CfgRead : Type 0 where
  pub complete : Bool
  pub buffer : List ℕ

-- The dword of the save at index `i`.
abbrev pub saved_dword : List ℕ → ℕ → ℕ
saved_dword saved i = word32 saved (i * 4)

module _ ⦃env : Env⦄ where
  unfoldable pub cfg_read_into : (offset : ℕ) (buffer : List ℕ) (len : ℕ) → M CfgRead
  cfg_read_into offset buffer len = do
    bytes ← get_bus_data offset len
    pure (record { complete = length bytes == len; buffer = overlay bytes buffer })

  unfoldable pub device_present : M Bool
  device_present = do
    ctx ← get_ctx
    r ← cfg_read_into cfg_vendor_id (0xFF ∷ 0xFF ∷ []) 2
    pure (r.complete && (word16 r.buffer 0 == ctx.identity.vendor_id))

  -- The command register, or `s` for a short read.
  unfoldable pub read_command : Status → M ℕ
  read_command s = do
    r ← cfg_read_into cfg_command (0 ∷ 0 ∷ []) 2
    require r.complete s
    pure (word16 r.buffer 0)

  -- The dwords from index `i` on, without the command register.
  unfoldable pub restore_loop : (left i : ℕ) → List ℕ → Bool → M Bool
  restore_loop zero i saved done = pure done
  restore_loop (suc left) i saved done = do
    accepted ←
        branch (i == cfg_command / 4) (pure true) (set_bus_data (i * 4) (saved_dword saved i) 4)
    restore_loop left (i + 1) saved (done && accepted)

  unfoldable pub restore_config : List ℕ → M Bool
  restore_config saved = do
    done ← restore_loop (pci_cfg_save_bytes / 4) 0 saved true
    accepted ← set_bus_data cfg_command (saved_dword saved (cfg_command / 4)) 4
    pure (done && accepted)
