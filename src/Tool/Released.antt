-- ===== src/Tool/Released.antt =====
-- Every command of ttwind-info gives back the handle, the windows and the mappings that it took.
use tt_wind.Base.{ℕ, zero, suc, none, some, List, [], ◌∷◌, ◌≡◌, refl}
use tt_wind.Tool.Calls.{Text, Host, Listing, filled, buffer_small, refused, Trace, T, on_option}
use tt_wind.Tool.Device.{
  Found, paths, no_list, out_of_rounds, ask_list_size, ask_list, allocates, listed,
  get_interface_list, opened, open_first, with_first_device, query_device, query_all, query_found,
  list_devices,
}
use tt_wind.Tool.Windows.{cmd_bar0read, cmd_tlbread, cmd_tlbreadx}
use tt_wind.Tool.Messages.{cmd_arcmsg, cmd_arcstatus, cmd_reset}
use tt_wind.Tool.Sysmem.{cmd_sysmem, cmd_sysmemtest}
use tt_wind.Tool.Main.{
  Command, bar0read, tlbread, tlbreadx, arcmsg, arcstatus, sysmem, sysmemtest, reset, usage,
  run_command, main,
}
use tt_wind.Tool.Balance.{
  handle, pending, Balanced, Releases, Balanced-pure, Balanced-bind, Balanced-branch, Releases-bind,
  Releases-close, Balanced-opening, Balanced-on_answer, Balanced-on_option,
}
use tt_wind.Tool.Balance.Rules.{Balanced-get_device_info}
use tt_wind.Tool.Balance.Bodies.{
  bar0_body-Balanced, with_window-Balanced, read_window-Balanced, arcmsg_body-Balanced,
  arcstatus_body-Balanced, reset_body-Balanced, sysmem_body-Balanced, sysmemtest_body-Balanced,
}

module _ ⦃host : Host⦄ where
  asked : Balanced ask_list_size
  unfolding ask_list_size pending
  asked = record { at = λ t. refl }

  answered : (chars : ℕ) → Balanced (ask_list chars)
  unfolding ask_list pending
  answered chars = record { at = λ t. refl }

  room : (chars : ℕ) → Balanced (allocates chars)
  unfolding allocates
  room chars = record { at = λ t. refl }

  again : (l : Listing) (m : T Found) → Balanced m → Balanced (listed l m)
  unfolding listed
  again (filled cs) m p = Balanced-pure _
  again buffer_small m p = p
  again refused m p = Balanced-pure _

  get_interface_list-Balanced : (rounds : ℕ) → Balanced (get_interface_list rounds)
  unfolding get_interface_list
  get_interface_list-Balanced zero = Balanced-pure _
  get_interface_list-Balanced (suc rounds) = Balanced-bind _ _ asked (λ size.
      Balanced-on_option size _ _ (Balanced-pure _) (λ chars. Balanced-bind _ _ (room chars) (λ r.
        Balanced-branch r _ _
          (Balanced-bind _ _ (answered chars) (λ l. again l _ (get_interface_list-Balanced rounds)))
          (Balanced-pure _))))

  opened-Releases :
      (h : ℕ) (body : ℕ → T ℕ)
      → ((h : ℕ) → Balanced (body h))
      → Releases (handle h) (opened (some h) body)
  unfolding opened
  opened-Releases h body p = Releases-bind _ _ _ (p h) (λ rc. Releases-close h _ (Balanced-pure _))

  open_first-Balanced :
      (f : Found) (body : ℕ → T ℕ) → ((h : ℕ) → Balanced (body h)) → Balanced (open_first f body)
  unfolding open_first opened
  open_first-Balanced out_of_rounds body p = Balanced-pure none
  open_first-Balanced no_list body p = Balanced-pure (some 2)
  open_first-Balanced (paths list) body p =
      Balanced-branch _ _ _ (Balanced-pure _)
        (Balanced-opening _ _ (Balanced-pure _) (λ h. opened-Releases h body p))

  with_first_device-Balanced :
      (rounds : ℕ) (body : ℕ → T ℕ)
      → ((h : ℕ) → Balanced (body h))
      → Balanced (with_first_device rounds body)
  unfolding with_first_device
  with_first_device-Balanced rounds body p =
      Balanced-bind _ _ (get_interface_list-Balanced rounds) (λ f. open_first-Balanced f body p)

  query_device-Balanced : (path : Text) → Balanced (query_device path)
  unfolding query_device on_option
  query_device-Balanced path = Balanced-opening path _ (Balanced-pure 1) (λ h.
      Releases-bind _ _ _ (Balanced-get_device_info h) (λ a.
        Releases-close h _ (Balanced-on_answer a _ _ (Balanced-pure 1) (λ _ _. Balanced-pure _))))

  query_all-Balanced :
      (fuel : ℕ) (list : List ℕ) (found failed : ℕ) → Balanced (query_all fuel list found failed)
  unfolding query_all
  query_all-Balanced zero list found failed = Balanced-pure _
  query_all-Balanced (suc fuel) list found failed =
      Balanced-branch _ _ _ (Balanced-pure _)
        (Balanced-bind _ _ (query_device-Balanced _) (λ rc. query_all-Balanced fuel _ _ _))

  query_found-Balanced : (f : Found) → Balanced (query_found f)
  unfolding query_found
  query_found-Balanced out_of_rounds = Balanced-pure none
  query_found-Balanced no_list = Balanced-pure (some 2)
  query_found-Balanced (paths list) =
      Balanced-bind _ _ (query_all-Balanced _ list 0 0) (λ c. Balanced-pure _)

  list_devices-Balanced : (rounds : ℕ) → Balanced (list_devices rounds)
  unfolding list_devices
  list_devices-Balanced rounds =
      Balanced-bind _ _ (get_interface_list-Balanced rounds) query_found-Balanced

  ruleset bodies = (
    Balanced-pure, Balanced-on_option, with_first_device-Balanced, with_window-Balanced,
    read_window-Balanced, bar0_body-Balanced, arcmsg_body-Balanced, arcstatus_body-Balanced,
    reset_body-Balanced, sysmem_body-Balanced, sysmemtest_body-Balanced,
  )

  run_command-Balanced : (rounds : ℕ) (c : Command) → Balanced (run_command rounds c)
  unfolding run_command cmd_bar0read cmd_tlbread cmd_tlbreadx cmd_arcmsg cmd_arcstatus cmd_sysmem
      cmd_sysmemtest cmd_reset
  run_command-Balanced rounds (bar0read offset) = search bodies
  run_command-Balanced rounds (tlbread x y addr) =
      Balanced-on_option _ _ _ (Balanced-pure _) (λ (a, b, c). search bodies)
  run_command-Balanced rounds (tlbreadx argv) = search bodies
  run_command-Balanced rounds (arcmsg argv) = search bodies
  run_command-Balanced rounds arcstatus = search bodies
  run_command-Balanced rounds sysmem = search bodies
  run_command-Balanced rounds sysmemtest = search bodies
  run_command-Balanced rounds reset = search bodies
  run_command-Balanced rounds usage = Balanced-pure _

  -- Whatever the driver and the system answer, and whatever the arguments are: at the end of a run
  -- the tool holds what it held before it. Every handle that it opened is closed, every window that
  -- it was given has been given to FREE_TLB, and every address that a mapping gave it has been given
  -- to UNMAP_BAR.
  pub main-releases :
      (rounds : ℕ) (argv : List Text) (t : Trace) → pending (main rounds argv t).1 ≡ pending t
  unfolding main
  main-releases rounds [] t = (list_devices-Balanced rounds).at t
  main-releases rounds (word ∷ rest) t = (run_command-Balanced rounds _).at t
