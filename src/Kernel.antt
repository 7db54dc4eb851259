-- ===== src/Kernel.antt =====
-- What the driver asks of the kernel, of the framework and of the hardware (the calls in
-- driver/*.c). None of it is under the repository: a call is recorded as an event, and the
-- answer is a function of all the events before it, which the definitions take as the
-- instance argument `Env`.
use tt_wind.Base.{ℕ, Bool, List, Option}
use tt_wind.Status.{Result}

-- The kernel mappings of device memory in the device context: TlbRegs, KernelTlb, ArcApbAxi,
-- Bar2Iatu and NocIdRegs.
pub data Region : Type 0 where
  tlb_regs kernel_tlb arc_apb_axi bar2_iatu noc_id_regs : Region

-- StateLock and ArcLock.
pub data Lock : Type 0 where
  state_lock arc_lock : Lock

-- MmNonCached and MmWriteCombined.
pub data CacheType : Type 0 where
  non_cached write_combined : CacheType

-- Calls of kernel routines, by what the driver passes to them.
pub data OsCall : Type 0 where
  allocate_pool free_pool : OsCall
  reference_process dereference_process attach_process detach_process : ℕ → OsCall
  allocate_mdl : (va len : ℕ) → OsCall
  fill_mdl : (mdl : ℕ) → List ℕ → OsCall
  free_mdl : (mdl : ℕ) → OsCall
  map_locked_pages : (mdl : ℕ) → CacheType → OsCall
  unmap_locked_pages : (va mdl : ℕ) → OsCall
  open_physical_memory close_section : OsCall
  map_view : (offset size : ℕ) → OsCall
  unmap_view : (base : ℕ) → OsCall
  map_io_space : Region → (phys len : ℕ) → OsCall
  unmap_io_space : Region → (len : ℕ) → OsCall
  numa_node query_bus_interface dereference_bus_interface : OsCall
  query_bus_number query_address : OsCall
  -- The node is `none` for MM_ANY_NODE_OK.
  allocate_contiguous : (size : ℕ) (node : Option ℕ) → OsCall
  free_contiguous : (va size : ℕ) → OsCall
  zero_buffer : (va size : ℕ) → OsCall

pub data Event : Type 0 where
  mmio_read : Region → (offset : ℕ) → Event
  mmio_write : Region → (offset value : ℕ) → Event
  cfg_read : (offset len : ℕ) → Event
  cfg_write : (offset value len : ℕ) → Event
  ram_write : (offset value : ℕ) → Event
  stall : (microseconds : ℕ) → Event
  acquire release : Lock → Event
  os : OsCall → Event

-- Everything that happened, the latest event first.
abbrev pub Log : Type 0
Log = List Event

-- Of RtlFindClearBitsAndSet only its choice of a bit is a parameter; `none` is 0xFFFFFFFF.
pub record Env : Type 0 where
  -- READ_REGISTER_ULONG
  pub mmio_value : Log → Region → ℕ → ℕ
  -- The bytes that GetBusData puts into the buffer; it returns their number.
  pub bus_data : Log → (offset len : ℕ) → List ℕ
  -- Whether SetBusData takes all the bytes.
  pub bus_accepts : Log → (offset value len : ℕ) → Bool
  -- KeQueryInterruptTime
  pub interrupt_time : Log → ℕ
  -- The pointer or number that a routine returns, or its failure.
  pub os_answer : Log → OsCall → Result ℕ
  -- PsGetCurrentProcess, and whether PsGetProcessExitStatus is STATUS_PENDING.
  pub current_process : Log → ℕ
  pub is_running : Log → ℕ → Bool
  -- MmGetPhysicalAddress
  pub physical_of : ℕ → ℕ
  pub find_clear : (ℕ → Bool) → Option ℕ
