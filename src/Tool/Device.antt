-- ===== src/Tool/Device.antt =====
-- Finding and opening a device (tools/ttwind-info/ttwind-info.c): get_interface_list,
-- open_first_device, and the listing of all devices with query_device.
use tt_wind.Base.{
  ℕ, zero, suc, ◌+◌, Bool, Option, none, some, List, [], ◌∷◌, ◌==◌, ltb, length, get_or, take,
  if◌then◌else◌,
}
use tt_wind.Tool.Calls.{
  Text, Host, Listing, filled, buffer_small, refused, T, ◌>>=◌, ◌>>◌, pure, record_call, branch,
  on_answer, on_option, get_device_info, close_handle, list_size, list_paths, ioctl, open_path,
}
use tt_wind.Tool.Args.{drop}

-- The buffer, NULL, or a model that ran out of fuel.
pub data Found : Type 0 where
  paths : List ℕ → Found
  no_list out_of_rounds : Found

-- sizeof(TTWIND_DEVICE_INFO_OUT)
abbrev pub info_size : ℕ
info_size = 120

-- `*p`, with zeros behind the buffer.
abbrev pub first_char : List ℕ → ℕ
first_char p = get_or p 0 0

unfoldable pub wcslen : List ℕ → ℕ
wcslen [] = 0
wcslen (c ∷ p) = let rest = wcslen p in if c == 0 then 0 else suc rest

-- `none` where the model ran out of fuel.
abbrev pub ExitCode : Type 0
ExitCode = Option ℕ

module _ ⦃host : Host⦄ where
  unfoldable pub ask_list_size : T (Option ℕ)
  ask_list_size t = let n = host.interface_list_size t in (n, list_size n ∷ t)

  unfoldable pub ask_list : (chars : ℕ) → T Listing
  ask_list chars t = let l = host.interface_list t chars in (l, list_paths l ∷ t)

  -- calloc
  unfoldable pub allocates : (chars : ℕ) → T Bool
  allocates chars t = (host.can_allocate t chars, t)

  unfoldable pub listed : Listing → T Found → T Found
  listed (filled cs) again = pure (paths cs)
  listed buffer_small again = again
  listed refused again = pure no_list

  -- Another round only where the list has grown between the two calls.
  unfoldable pub get_interface_list : (rounds : ℕ) → T Found
  get_interface_list zero = pure out_of_rounds
  get_interface_list (suc rounds) = do
    size ← ask_list_size
    on_option size (pure no_list) (λ chars. do
      room ← allocates chars
      branch room (ask_list chars >>= λ l. listed l (get_interface_list rounds)) (pure no_list))

  -- `h = open_first_device(); if (h == INVALID_HANDLE_VALUE) return 2;`, the body, and CloseHandle.
  unfoldable pub opened : Option ℕ → (ℕ → T ℕ) → T ExitCode
  opened none body = pure (some 2)
  opened (some h) body = do rc ← body h; record_call (close_handle h); pure (some rc)

  unfoldable pub open_first : Found → (ℕ → T ℕ) → T ExitCode
  open_first out_of_rounds body = pure none
  open_first no_list body = pure (some 2)
  open_first (paths list) body =
      branch (first_char list == 0) (pure (some 2))
        (open_path (take (wcslen list) list) >>= λ h. opened h body)

  unfoldable pub with_first_device : (rounds : ℕ) → (ℕ → T ℕ) → T ExitCode
  with_first_device rounds body = get_interface_list rounds >>= λ list. open_first list body

  -- 0 for success, 1 for a failure.
  unfoldable pub query_device : Text → T ℕ
  query_device path = do
    handle ← open_path path
    on_option handle (pure 1) (λ h. do
      a ← ioctl h get_device_info
      record_call (close_handle h)
      on_answer a (pure 1) (λ info returned. pure (if ltb returned info_size then 1 else 0)))

  -- The walk of main over the strings of the list: how many devices were found, and failed.
  unfoldable pub query_all : (fuel : ℕ) (list : List ℕ) (found failed : ℕ) → T (ℕ × ℕ)
  query_all zero list found failed = pure (found, failed)
  query_all (suc fuel) list found failed = do
    let n = wcslen list
    branch (first_char list == 0) (pure (found, failed)) (do
      rc ← query_device (take n list)
      query_all fuel (drop (n + 1) list) (found + 1) (if rc == 0 then failed else failed + 1))

  abbrev pub listing_code : ℕ × ℕ → ℕ
  listing_code (found, failed) = if found == 0 then 1 else if failed == 0 then 0 else 2

  unfoldable pub query_found : Found → T ExitCode
  query_found out_of_rounds = pure none
  query_found no_list = pure (some 2)
  query_found (paths list) =
      query_all (length list) list 0 0 >>= λ counts. pure (some (listing_code counts))

  unfoldable pub list_devices : (rounds : ℕ) → T ExitCode
  list_devices rounds = get_interface_list rounds >>= query_found
