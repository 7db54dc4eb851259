-- ===== src/Status.antt =====
-- The NTSTATUS codes that the driver returns (driver/*.c), and the outcome of a call.
use tt_wind.Base.{ℕ, Bool, true, false}

-- The success code and the failures by name. `os_error` stands for a failure code that comes
-- from the kernel or the framework, which the driver passes on unread.
pub data Status : Type 0 where
  success : Status
  invalid_handle invalid_parameter insufficient_resources access_denied : Status
  invalid_device_state device_not_ready not_found device_removed : Status
  reinitialization_needed invalid_device_request device_busy : Status
  device_does_not_exist device_data_error io_device_error invalid_address : Status
  not_supported io_timeout device_protocol_error device_configuration_error : Status
  os_error : ℕ → Status
  -- A polling loop of the model used up its fuel; no status of the source.
  out_of_fuel : Status

-- STATUS_SUCCESS with a result, or another status.
pub data Result {ℓ} (A : Type ℓ) : Type ℓ where
  ok : A → Result A
  fail : Status → Result A

abbrev pub status_of {ℓ} : {A : Type ℓ} → Result A → Status
status_of (ok a) = success
status_of (fail s) = s

abbrev pub is_ok {ℓ} : {A : Type ℓ} → Result A → Bool
is_ok (ok a) = true
is_ok (fail s) = false

-- `status != STATUS_DEVICE_BUSY`, negated.
abbrev pub is_busy : Status → Bool
is_busy device_busy = true
is_busy _ = false
