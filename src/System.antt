-- ===== src/System.antt =====
-- The driver as a whole: the context after EvtDeviceAdd (driver/driver.c) and the callbacks that the
-- framework calls on it, one after the other.
pub mod Invariant
pub mod Dark
pub mod Flags
pub mod Guarded
pub mod Saved
pub mod Restriction
pub mod Accounts
pub mod Fenced
use tt_wind.Base.{ℕ, false, none, List, [], ◌∷◌, replicate, length}
use tt_wind.Status.{success}
use tt_wind.Kernel.{Env, Log}
use tt_wind.Context.{
  Context, World, Identity, Mapped, Sysmem, no_route, not_run, not_tried, zero_probe,
  pci_cfg_save_bytes,
}
use tt_wind.Mapping.Table.{init_shared}
use tt_wind.Mapping.Teardown.{file_cleanup}
use tt_wind.Device.Resources.{Descriptor}
use tt_wind.Device.Prepare.{prepare_hardware, file_create}
use tt_wind.Device.Release.{release_hardware}
use tt_wind.Device.Power.{self_managed_io_init, self_managed_io_restart, self_managed_io_suspend}
use tt_wind.Queue.{Ioctl, io_device_control}

-- The zeroed context, after TtWindMappingInitDevice.
unfoldable pub initial_context : Context
initial_context = record {
  identity = record {
    vendor_id = 0;
    device_id = 0;
    subsystem_vendor_id = 0;
    subsystem_id = 0;
    bus = 0;
    device = 0;
    function = 0;
    pci_domain = 0;
  };
  bars = [];
  mapped = record {
    tlb_regs = false;
    kernel_tlb = false;
    arc_apb_axi = false;
    bar2_iatu = false;
    noc_id_regs = false;
  };
  arc_route = no_route;
  sysmem = record {
    va = none;
    phys = 0;
    size = 0;
    is_verified = false;
    pcie_tile_x = 0;
    stage = not_run;
    last_status = success;
    tier_result = not_tried ∷ not_tried ∷ not_tried ∷ [];
    noc_id_raw = 0;
    probes = zero_probe ∷ zero_probe ∷ zero_probe ∷ [];
    outbound = λ i. record { base = 0; limit = 0; target = 0; enabled = false };
  };
  needs_hw_init = false;
  reset_generation = 0;
  file_generation = λ f. 0;
  saved_config = replicate pci_cfg_save_bytes 0;
  saved_config_valid = false;
  bus_if_valid = false;
  shared = init_shared;
}

-- One callback: an ioctl, the creation or the cleanup of a handle, the start and the stop of the
-- hardware, and the power callbacks.
pub data Callback : Type 0 where
  ioctl : Ioctl → Callback
  create cleanup : (file : ℕ) → Callback
  prepare : List Descriptor → Callback
  release init restart suspend : Callback

module _ ⦃env : Env⦄ where
  unfoldable pub run_callback : Callback → World → World
  run_callback (ioctl code) w = (io_device_control code w).1
  run_callback (create file) w = (file_create file w).1
  run_callback (cleanup file) w = (file_cleanup file w).1
  run_callback (prepare resources) w = (prepare_hardware resources w).1
  run_callback release w = (release_hardware w).1
  run_callback init w = (self_managed_io_init w).1
  run_callback restart w = (self_managed_io_restart w).1
  run_callback suspend w = (self_managed_io_suspend w).1

  -- The worlds that the driver comes to from the initial context, in whatever order the callbacks
  -- are called, with whatever happened before it was loaded.
  pub data Reachable : World → Type 0 where
    added : (l : Log) → Reachable (record { ctx = initial_context; log = l })
    called : (c : Callback) (w : World) → Reachable w → Reachable (run_callback c w)
