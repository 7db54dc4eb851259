-- ===== src/Request.antt =====
-- A device-control request (WDFREQUEST) and the buffers of driver/ttwind_ioctl.h. The answers of
-- WdfRequestRetrieveInputBuffer and WdfRequestRetrieveOutputBuffer are part of the request: the
-- input structure, or the status of a buffer that is missing or too short.
use tt_wind.Base.{ℕ, Option}
use tt_wind.Status.{Result}
use tt_wind.Context.{NocTlbConfig}

-- `file` is WdfRequestGetFileObject, `requestor` is IoGetRequestorProcess; either may be NULL.
pub record Request (In : Type 0) : Type 0 where
  pub file : Option ℕ
  pub requestor : Option ℕ
  pub input : Result In
  pub output : Result (Unit {0})

pub record MapBarIn : Type 0 where
  pub bar_index : ℕ
  pub cache_mode : ℕ
  pub offset : ℕ
  pub len : ℕ

-- TTWIND_MAP_BAR_OUT and TTWIND_MAP_SYSMEM_OUT.
pub record MapOut : Type 0 where
  pub user_va : ℕ
  pub len : ℕ

pub record FreeTlbIn : Type 0 where
  pub tlb_id : ℕ
  pub reserved : ℕ

pub record ConfigureTlbIn : Type 0 where
  pub tlb_id : ℕ
  pub reserved : ℕ
  pub config : NocTlbConfig

pub record MapTlbIn : Type 0 where
  pub tlb_id : ℕ
  pub cache_mode : ℕ

pub record MapSysmemIn : Type 0 where
  pub offset : ℕ
  pub len : ℕ

-- TTWIND_RESET_DEVICE_IN and TTWIND_POST_RESET_IN.
pub record ResetIn : Type 0 where
  pub flags : ℕ
  pub reserved : ℕ

abbrev pub cache_uc : ℕ
cache_uc = 0

abbrev pub cache_wc : ℕ
cache_wc = 1
