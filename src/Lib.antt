-- ===== src/Lib.antt =====
-- The tt-wind driver: a model of its logic and what holds of it.
--
-- tt-wind is a Windows kernel driver (WDF) for a PCI accelerator card. User processes open it and
-- send ioctls: they map parts of the card's BARs and the pinned system memory, allocate and
-- configure TLB windows, exchange messages with the ARC firmware, and reset the card.
--
-- The parts, the files that model them and the code:
--   Kernel          what is not under the repository: the kernel, the framework, the PCI bus and the
--                   hardware. A call is an event of a log, its answer a function of the log before
--                   it, given by the parameter `Env` (MmMapIoSpaceEx, READ_REGISTER_ULONG,
--                   GetBusData, KeQueryInterruptTime, RtlFindClearBitsAndSet and so on).
--   Context         TTWIND_DEVICE_CONTEXT and what it holds (driver/ttwind.h), the constants.
--   Request         the request and the wire structures (driver/ttwind_ioctl.h).
--   Monad           routines as steps on context and log with early return; Monad.Keeps,
--                   Monad.Moves, Monad.OnOk and Monad.Settles hold the rules for proofs.
--   Mapping         driver/mapping.c: Table has the sections under StateLock, View the mapping into a
--                   process and its destruction, Ioctl MAP_BAR and UNMAP_BAR, Teardown the cleanup
--                   of a handle and the revocation.
--   Tlb             driver/tlb.c: Pack the register image (TtWindPutField, TtWindPackTlb2M), Program
--                   the register writes and the sanity check, Windows the four handlers.
--   Arc             driver/arc.c: Access the register routes and CSM words, Locate the discovery of
--                   the queue, Ring push and pop, Exchange TtWindArcMsgSendSync and the power
--                   messages, Ioctl SMC_MSG and ARC_STATUS.
--   Sysmem          driver/sysmem.c: Buffer the allocation, Arm the iATU, the tile and the loopback
--                   check, Ioctl the three handlers.
--   Reset           driver/reset.c: Config the config-space accesses, Arm RESET_DEVICE, Recover
--                   POST_RESET.
--   Device          driver/device.c with the power callbacks of driver/arc.c and FileCreate of
--                   driver/driver.c.
--   Queue           driver/queue.c: the fences, the switch and the completion.
--   Frame           what the routines that talk to the card leave alone.
--   System          the driver as a whole: its callbacks as steps from EvtDeviceAdd on;
--                   System.Accounts counts the references of processes, System.Fenced follows a
--                   handle that a reset has left behind.
--   Tool            tools/ttwind-info/ttwind-info.c, a client of the driver: Calls the trace of its
--                   calls and the parameter `Host` that answers them, Args the arguments, Device
--                   the interface list, Windows, Messages and Sysmem the subcommands, Main main;
--                   Tool.Balance holds the rules for proofs on what is given back.
--   Tests           a simulated card and the theorems at concrete inputs.
--
-- How they interact: the dispatcher of Queue runs the handlers of the other parts one after the
-- other (the default queue is sequential) on one context. The mapping list, the window bitmap and the
-- owner table are the record `Shared`, which only the sections under StateLock change; needs_hw_init
-- and the reset generation are changed by Reset only, a handle's generation by Reset and FileCreate,
-- and the fences read all three.
--
-- Numbers: C integers are natural numbers, with the wrap-around of their width written out where the
-- source computes (u16, u32, u64, sub32); an address or length of a structure is used as it is.
-- Pointers that are only compared (handles, processes) are numbers, NULL is `none`.
--
-- Loops: over arrays and lists they are structural recursion. The two polling loops of driver/arc.c
-- run on fuel: 2502 rounds for the 500 ms of TtWindArcLocateQueue and 5002 for the 1000 ms of
-- TtWindArcMsgSendSync, with a delay of 200 us in every round but the last, so that the deadline is
-- passed before the fuel is used up; `out_of_fuel` marks that case. The polls of ttwind-info have 151
-- rounds, for 15000 ms in steps of 100. Its loop over the two calls for the interface list has no
-- bound in the source; there the rounds are an argument, and `none` marks a run that needs more.
--
-- Not modelled: DriverEntry, EvtDeviceAdd and TtWindQueueInitialize beyond the initial context (they
-- register callbacks), KdPrint, PAGED_CODE and the assertions, concurrency between a power callback
-- and an ioctl (each runs as a whole; the locks are events), the contents of memory that the driver
-- writes through a pointer (recorded as events), and the console text of ttwind-info.
mod Base
pub mod Status
pub mod Kernel
pub mod Context
pub mod Monad
pub mod Request
pub mod Tlb
pub mod Mapping
pub mod Arc
pub mod Sysmem
pub mod Reset
pub mod Queue
pub mod Device
pub mod Frame
pub mod System
pub mod Tool
pub mod Tests
