-- ===== src/Tool/Calls.antt =====
-- The calls that tools/ttwind-info makes: DeviceIoControl with the structures of
-- driver/ttwind_ioctl.h, the handle, the interface list, memory through a mapping, and Sleep. What
-- answers them is the parameter `Host`; the trace has each call with its answer, the latest first.
-- Text on the console is left out.
use tt_wind.Base.{ℕ, Bool, true, false, Option, none, some, List, ◌∷◌}
use tt_wind.Request.{MapBarIn, MapOut, FreeTlbIn, ConfigureTlbIn, MapTlbIn, MapSysmemIn, ResetIn}
use tt_wind.Arc.Ring.{ArcMsg}
use tt_wind.Arc.Ioctl.{ArcStatusOut}
use tt_wind.Sysmem.Ioctl.{QuerySysmemOut, SysmemStatusOut}
use tt_wind.Queue.{DeviceInfoOut}

-- The bytes of an argument, or the characters of a path, without the terminator.
abbrev pub Text : Type 0
Text = List ℕ

-- The control codes that the tool uses, with their input.
pub data Control : Type 0 where
  get_device_info : Control
  map_bar : MapBarIn → Control
  unmap_bar : (user_va : ℕ) → Control
  allocate_tlb : (size : ℕ) → Control
  configure_tlb : ConfigureTlbIn → Control
  map_tlb : MapTlbIn → Control
  free_tlb : FreeTlbIn → Control
  smc_msg : ArcMsg → Control
  arc_status : Control
  reset_device : ResetIn → Control
  post_reset : ResetIn → Control
  query_sysmem : Control
  map_sysmem : MapSysmemIn → Control
  sysmem_status : Control

-- The output structure of a code: the window, the address, or the structure itself.
abbrev pub Output : Control → Type 0
Output get_device_info = DeviceInfoOut
Output (map_bar _) = MapOut
Output (unmap_bar _) = Unit {0}
Output (allocate_tlb _) = ℕ
Output (configure_tlb _) = Unit {0}
Output (map_tlb _) = ℕ
Output (free_tlb _) = Unit {0}
Output (smc_msg _) = ArcMsg
Output arc_status = ArcStatusOut
Output (reset_device _) = Unit {0}
Output (post_reset _) = Unit {0}
Output query_sysmem = QuerySysmemOut
Output (map_sysmem _) = MapOut
Output sysmem_status = SysmemStatusOut

-- TRUE with the output and the bytes returned, or FALSE with GetLastError.
pub data Answer (A : Type 0) : Type 0 where
  success : (out : A) (returned : ℕ) → Answer A
  failure : (error : ℕ) → Answer A

-- CR_SUCCESS with the characters, CR_BUFFER_SMALL, or another CONFIGRET.
pub data Listing : Type 0 where
  filled : List ℕ → Listing
  buffer_small refused : Listing

pub data Call : Type 0 where
  control : (handle : ℕ) (c : Control) → Answer (Output c) → Call
  create_file : (path : Text) (handle : Option ℕ) → Call
  close_handle : (handle : ℕ) → Call
  read_u32 : (va value : ℕ) → Call
  write_u32 : (va value : ℕ) → Call
  sleep : (milliseconds : ℕ) → Call
  list_size : (chars : Option ℕ) → Call
  list_paths : Listing → Call

abbrev pub Trace : Type 0
Trace = List Call

-- `strtoui64` gives the value and the number of characters that were read; `error_busy` is the
-- constant ERROR_BUSY.
pub record Host : Type 0 where
  pub device_io_control : Trace → (handle : ℕ) (c : Control) → Answer (Output c)
  pub create : Trace → Text → Option ℕ
  pub memory : Trace → (va : ℕ) → ℕ
  pub interface_list_size : Trace → Option ℕ
  pub can_allocate : Trace → (chars : ℕ) → Bool
  pub interface_list : Trace → (chars : ℕ) → Listing
  pub strtoui64 : Text → ℕ × ℕ
  pub error_busy : ℕ

abbrev pub T : Type 0 → Type 0
T A = Trace → A × Trace

infixl 5 ◌>>=◌ ◌>>◌
unfoldable pub ◌>>=◌ : {A B : Type 0} → T A → (A → T B) → T B
(m >>= f) t = let (a, t') = m t in f a t'

unfoldable pub ◌>>◌ : {B : Type 0} → T (Unit {0}) → T B → T B
m >> k = m >>= λ _. k

unfoldable pub pure : {A : Type 0} → A → T A
pure a t = (a, t)

unfoldable pub record_call : Call → T (Unit {0})
record_call c t = (tt, c ∷ t)

unfoldable pub branch : {A : Type 0} → Bool → T A → T A → T A
branch true m n = m
branch false m n = n

-- The two ways a DeviceIoControl goes on, and those of a pointer or a handle.
unfoldable pub on_answer : {A B : Type 0} → Answer A → T B → (A → ℕ → T B) → T B
on_answer (success a n) m f = f a n
on_answer (failure e) m f = m

unfoldable pub on_option : {A B : Type 0} → Option A → T B → (A → T B) → T B
on_option none m f = m
on_option (some a) m f = f a

-- `if (!DeviceIoControl(…)) rc = 2;`
abbrev pub code_after : {A : Type 0} → Answer A → ℕ → ℕ
code_after (success a n) rc = rc
code_after (failure e) rc = 2

module _ ⦃host : Host⦄ where
  unfoldable pub ioctl : (handle : ℕ) (c : Control) → T (Answer (Output c))
  ioctl h c t = let a = host.device_io_control t h c in (a, control h c a ∷ t)

  unfoldable pub open_path : Text → T (Option ℕ)
  open_path path t = let h = host.create t path in (h, create_file path h ∷ t)

  unfoldable pub load : ℕ → T ℕ
  load va t = let v = host.memory t va in (v, read_u32 va v ∷ t)

unfoldable pub store : ℕ → ℕ → T (Unit {0})
store va v = record_call (write_u32 va v)
