-- ===== src/Reset/Arm.antt =====
-- IOCTL_TTWIND_RESET_DEVICE (driver/reset.c).
use tt_wind.Base.{
  ℕ, ◌+◌, Bool, true, false, Option, none, some, List, [], ◌∷◌, ◌==◌, ◌&&◌, not, update, bit_or,
  u64,
}
use tt_wind.Status.{
  invalid_parameter, device_not_ready, device_busy, device_does_not_exist, device_data_error,
}
use tt_wind.Kernel.{Env, state_lock, arc_lock}
use tt_wind.Context.{Context, UserMapping, bar_count, pci_cfg_save_bytes}
use tt_wind.Monad.{
  when, M, ◌>>=◌, ◌>>◌, pure, require, from_result, get_ctx, modify_ctx, with_lock, set_bus_data,
}
use tt_wind.Request.{Request, ResetIn}
use tt_wind.Mapping.Table.{reclaim_windows}
use tt_wind.Reset.Config.{cfg_command, cmd_parity, cfg_read_into, device_present, read_command}

abbrev pub ifc_timer_control_off : ℕ
ifc_timer_control_off = 0x930

abbrev pub ifc_timer_target_off : ℕ
ifc_timer_target_off = 0x934

abbrev pub has_mappings : List UserMapping → Bool
has_mappings [] = false
has_mappings (m ∷ ms) = true

abbrev pub is_zero_input : ResetIn → Bool
is_zero_input input = (input.flags == 0) && (input.reserved == 0)

abbrev pub is_started : Context → Bool
is_started ctx = ctx.bus_if_valid && not (bar_count ctx == 0)

-- The new generation, with every window back in the allocator.
abbrev pub fence : Context → Context
fence c = record c {
  reset_generation = u64 (c.reset_generation + 1);
  shared = reclaim_windows c.shared;
}

-- The resetting handle moves to the new generation.
abbrev pub carry_forward : Option ℕ → Context → Context
carry_forward none c = c
carry_forward (some f) c = record c {
  file_generation = update c.file_generation f c.reset_generation;
}

-- NeedsHwInit goes up, SysmemVerified down.
abbrev pub restrict : Context → Context
restrict c = record c { needs_hw_init = true; sysmem = record (c.sysmem) { is_verified = false } }

module _ ⦃env : Env⦄ where
  unfoldable pub save_config : M (Unit {0})
  save_config = do
    ctx ← get_ctx
    r ← cfg_read_into 0 ctx.saved_config pci_cfg_save_bytes
    modify_ctx (λ c. record c { saved_config = r.buffer })
    require r.complete device_data_error
    modify_ctx (λ c. record c { saved_config_valid = true })

  -- Everything before the generation fence: it can fail, and leaves the device unarmed.
  unfoldable pub prepare_reset : M (Unit {0})
  prepare_reset = do
    present ← device_present
    require present device_does_not_exist
    ctx ← get_ctx
    when (not ctx.needs_hw_init) save_config
    command ← read_command device_data_error
    accepted ← set_bus_data cfg_command (bit_or command cmd_parity) 2
    require accepted device_data_error

  -- The fence, the restriction and the two timer writes.
  unfoldable pub commit_reset : Option ℕ → M (Unit {0})
  commit_reset file = do
    with_lock state_lock (modify_ctx fence)
    modify_ctx (carry_forward file)
    modify_ctx restrict
    _ ← set_bus_data ifc_timer_target_off 0x1 4
    _ ← set_bus_data ifc_timer_control_off 0x11 4
    pure tt

  unfoldable pub reset_device : Request ResetIn → M (Unit {0})
  reset_device req = do
    input ← from_result req.input
    require (is_zero_input input) invalid_parameter
    ctx ← get_ctx
    require (is_started ctx) device_not_ready
    busy ← with_lock state_lock (get_ctx >>= λ c. pure (has_mappings c.shared.mapping_list))
    require (not busy) device_busy
    with_lock arc_lock (prepare_reset >> commit_reset req.file)
