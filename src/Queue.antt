-- ===== src/Queue.antt =====
-- driver/queue.c: the device-control dispatcher with its two fences, and GET_DEVICE_INFO.
pub mod Fences
pub mod Restricted
pub mod Invariant
use tt_wind.Base.{
  ℕ, zero, suc, Bool, true, false, Option, none, some, List, [], ◌∷◌, ◌!=◌, ◌&&◌, not,
}
use tt_wind.Status.{
  Status, success, Result, ok, fail, device_removed, reinitialization_needed,
  invalid_device_request,
}
use tt_wind.Kernel.{Env}
use tt_wind.Context.{Context, Identity, BarDesc, World, max_bars, bar_count}
use tt_wind.Monad.{M, ◌>>=◌, ◌>>◌, pure, return_status, require, from_result, get_ctx}
use tt_wind.Request.{
  Request, MapBarIn, MapOut, FreeTlbIn, ConfigureTlbIn, MapTlbIn, MapSysmemIn, ResetIn,
}
use tt_wind.Mapping.Ioctl.{map_bar, unmap_bar}
use tt_wind.Tlb.Windows.{allocate_tlb, free_tlb, configure_tlb, map_tlb}
use tt_wind.Arc.Ring.{ArcMsg}
use tt_wind.Arc.Ioctl.{ArcStatusOut, smc_msg, arc_status}
use tt_wind.Reset.Arm.{reset_device}
use tt_wind.Reset.Recover.{post_reset}
use tt_wind.Sysmem.Ioctl.{QuerySysmemOut, SysmemStatusOut, query_sysmem, map_sysmem, sysmem_status}

-- TTWIND_DEVICE_INFO_OUT.
pub record DeviceInfoOut : Type 0 where
  pub identity : Identity
  pub bar_count : ℕ
  pub bars : List BarDesc

-- The control code with the request.
pub data Ioctl : Type 0 where
  get_device_info_code : Request (Unit {0}) → Ioctl
  map_bar_code : Request MapBarIn → Ioctl
  unmap_bar_code : Request ℕ → Ioctl
  allocate_tlb_code : Request ℕ → Ioctl
  free_tlb_code : Request FreeTlbIn → Ioctl
  configure_tlb_code : Request ConfigureTlbIn → Ioctl
  map_tlb_code : Request MapTlbIn → Ioctl
  smc_msg_code : Request ArcMsg → Ioctl
  reset_device_code : Request ResetIn → Ioctl
  arc_status_code : Request (Unit {0}) → Ioctl
  post_reset_code : Request ResetIn → Ioctl
  query_sysmem_code : Request (Unit {0}) → Ioctl
  map_sysmem_code : Request MapSysmemIn → Ioctl
  sysmem_status_code : Request (Unit {0}) → Ioctl
  other_code : Request (Unit {0}) → Ioctl

-- WdfRequestGetFileObject of the request.
abbrev pub file_of : Ioctl → Option ℕ
file_of (get_device_info_code r) = r.file
file_of (map_bar_code r) = r.file
file_of (unmap_bar_code r) = r.file
file_of (allocate_tlb_code r) = r.file
file_of (free_tlb_code r) = r.file
file_of (configure_tlb_code r) = r.file
file_of (map_tlb_code r) = r.file
file_of (smc_msg_code r) = r.file
file_of (reset_device_code r) = r.file
file_of (arc_status_code r) = r.file
file_of (post_reset_code r) = r.file
file_of (query_sysmem_code r) = r.file
file_of (map_sysmem_code r) = r.file
file_of (sysmem_status_code r) = r.file
file_of (other_code r) = r.file

-- What may run while a reset has not been recovered from.
abbrev pub is_allowed_restricted : Ioctl → Bool
is_allowed_restricted (get_device_info_code r) = true
is_allowed_restricted (query_sysmem_code r) = true
is_allowed_restricted (reset_device_code r) = true
is_allowed_restricted (post_reset_code r) = true
is_allowed_restricted _ = false

-- The output structure of a handler that succeeded.
pub data Reply : Type 0 where
  device_info : DeviceInfoOut → Reply
  mapped : MapOut → Reply
  window : (tlb_id : ℕ) → Reply
  window_va : (user_va : ℕ) → Reply
  message : ArcMsg → Reply
  arc_report : ArcStatusOut → Reply
  sysmem_info : QuerySysmemOut → Reply
  sysmem_report : SysmemStatusOut → Reply
  no_output : Reply

-- sizeof(*out), as the wire-size assertions of ttwind_ioctl.h have it.
abbrev pub reply_size : Reply → ℕ
reply_size (device_info _) = 120
reply_size (mapped _) = 16
reply_size (window _) = 8
reply_size (window_va _) = 8
reply_size (message _) = 32
reply_size (arc_report _) = 40
reply_size (sysmem_info _) = 48
reply_size (sysmem_report _) = 192
reply_size no_output = 0

-- A handle of an earlier generation.
abbrev pub is_stale : Context → Option ℕ → Bool
is_stale ctx none = false
is_stale ctx (some f) = ctx.file_generation f != ctx.reset_generation

-- The first `n` entries of the BAR table, zeros behind the recorded ones.
unfoldable pub bar_table : (n : ℕ) → List BarDesc → List BarDesc
bar_table zero bars = []
bar_table (suc n) [] = record { phys = 0; size = 0 } ∷ bar_table n []
bar_table (suc n) (b ∷ bars) = b ∷ bar_table n bars

-- WdfRequestCompleteWithInformation: the status and the number of bytes written.
pub record Completion : Type 0 where
  pub status : Status
  pub bytes : ℕ
  pub reply : Option Reply

abbrev pub complete : Result Reply → Completion
complete (ok r) = record { status = success; bytes = reply_size r; reply = some r }
complete (fail s) = record { status = s; bytes = 0; reply = none }

module _ ⦃env : Env⦄ where
  unfoldable pub get_device_info : Request (Unit {0}) → M DeviceInfoOut
  get_device_info req = do
    _ ← from_result req.output
    ctx ← get_ctx
    pure (record {
      identity = ctx.identity;
      bar_count = bar_count ctx;
      bars = bar_table max_bars ctx.bars;
    })

  -- The switch on the control code.
  unfoldable pub handle : Ioctl → M Reply
  handle (get_device_info_code r) = get_device_info r >>= λ out. pure (device_info out)
  handle (map_bar_code r) = map_bar r >>= λ out. pure (mapped out)
  handle (unmap_bar_code r) = unmap_bar r >> pure no_output
  handle (allocate_tlb_code r) = allocate_tlb r >>= λ id. pure (window id)
  handle (free_tlb_code r) = free_tlb r >> pure no_output
  handle (configure_tlb_code r) = configure_tlb r >> pure no_output
  handle (map_tlb_code r) = map_tlb r >>= λ va. pure (window_va va)
  handle (smc_msg_code r) = smc_msg r >>= λ out. pure (message out)
  handle (reset_device_code r) = reset_device r >> pure no_output
  handle (arc_status_code r) = arc_status r >>= λ out. pure (arc_report out)
  handle (post_reset_code r) = post_reset r >> pure no_output
  handle (query_sysmem_code r) = query_sysmem r >>= λ out. pure (sysmem_info out)
  handle (map_sysmem_code r) = map_sysmem r >>= λ out. pure (mapped out)
  handle (sysmem_status_code r) = sysmem_status r >>= λ out. pure (sysmem_report out)
  handle (other_code r) = return_status invalid_device_request

  -- The two fences, then the switch.
  unfoldable pub dispatch : Ioctl → M Reply
  dispatch code = do
    ctx ← get_ctx
    require (not (is_stale ctx (file_of code))) device_removed
    require (not (ctx.needs_hw_init && not (is_allowed_restricted code))) reinitialization_needed
    handle code

  unfoldable pub io_device_control : Ioctl → World → Completion × World
  io_device_control code w = let (r, w') = dispatch code w in (complete r, w')
