-- ===== src/Tool/Messages.antt =====
-- Messages to the firmware and the reset (tools/ttwind-info/ttwind-info.c): arcmsg, arcstatus and
-- reset.
use tt_wind.Base.{
  ℕ, zero, suc, ◌+◌, Bool, true, false, some, List, [], ◌∷◌, ◌==◌, leb, ltb, get_or, if◌then◌else◌,
}
use tt_wind.Request.{ResetIn}
use tt_wind.Arc.Ring.{ArcMsg}
use tt_wind.Arc.Ioctl.{ArcStage, queue_ok}
use tt_wind.Tool.Calls.{
  Text, Host, Answer, success, failure, T, ◌>>=◌, ◌>>◌, pure, record_call, sleep, on_answer,
  on_option, branch, ioctl, smc_msg, arc_status, reset_device, post_reset,
}
use tt_wind.Tool.Args.{message_words}
use tt_wind.Tool.Device.{ExitCode, with_first_device}

-- The words that were given, with zeros up to the eighth.
abbrev pub message_of : List ℕ → ArcMsg
message_of ws = record {
  header = get_or ws 0 0;
  payload =
      get_or ws 1 0
      ∷ get_or ws 2 0
      ∷ get_or ws 3 0
      ∷ get_or ws 4 0
      ∷ get_or ws 5 0
      ∷ get_or ws 6 0
      ∷ get_or ws 7 0
      ∷ [];
}

-- sizeof(TTWIND_SMC_MSG_INOUT) and sizeof(TTWIND_ARC_STATUS_OUT)
abbrev pub msg_bytes : ℕ
msg_bytes = 32

abbrev pub status_bytes : ℕ
status_bytes = 40

-- A polling loop of the model used up its fuel; no exit code of the source.
abbrev pub out_of_fuel_code : ℕ
out_of_fuel_code = 3

abbrev pub is_queue_ok : ArcStage → Bool
is_queue_ok queue_ok = true
is_queue_ok _ = false

-- TTWIND_RESET_DEVICE_IN and TTWIND_POST_RESET_IN, zeroed.
abbrev pub zero_reset : ResetIn
zero_reset = record { flags = 0; reserved = 0 }

-- The rounds with `waited` = 0, 100, …, 15000.
abbrev pub poll_rounds : ℕ
poll_rounds = 151

module _ ⦃host : Host⦄ where
  unfoldable pub arcmsg_body : List ℕ → (h : ℕ) → T ℕ
  arcmsg_body ws h = do
    a ← ioctl h (smc_msg (message_of ws))
    on_answer a (pure 2) (λ _ returned. pure (if ltb returned msg_bytes then 2 else 0))

  unfoldable pub cmd_arcmsg : (rounds : ℕ) → List Text → T ExitCode
  cmd_arcmsg rounds argv =
      on_option (message_words argv) (pure (some 2))
        (λ ws. with_first_device rounds (arcmsg_body ws))

  unfoldable pub arcstatus_body : (h : ℕ) → T ℕ
  arcstatus_body h = do
    a ← ioctl h arc_status
    on_answer a (pure 2) (λ st returned.
        pure (if ltb returned status_bytes then 2 else if is_queue_ok st.stage then 0 else 1))

  unfoldable pub cmd_arcstatus : (rounds : ℕ) → T ExitCode
  cmd_arcstatus rounds = with_first_device rounds arcstatus_body

  -- One poll, and what follows from it: the exit code, or another round.
  abbrev pub gave_up : (error : ℕ) → ℕ
  gave_up e = if e == host.error_busy then 1 else 2

  unfoldable pub polled : Answer (Unit {0}) → (waited : ℕ) → T ℕ → T ℕ
  polled (success _ _) waited again = pure 0
  polled (failure e) waited again =
      branch (leb 15000 waited) (pure (gave_up e)) (record_call (sleep 100) >> again)

  unfoldable pub poll_loop : (fuel waited h : ℕ) → T ℕ
  poll_loop zero waited h = pure out_of_fuel_code
  poll_loop (suc fuel) waited h =
      ioctl h (post_reset zero_reset) >>= λ a. polled a waited (poll_loop fuel (waited + 100) h)

  unfoldable pub reset_body : (h : ℕ) → T ℕ
  reset_body h = do
    a ← ioctl h (reset_device zero_reset)
    on_answer a (pure 2) (λ _ _. record_call (sleep 1000) >> poll_loop poll_rounds 0 h)

  unfoldable pub cmd_reset : (rounds : ℕ) → T ExitCode
  cmd_reset rounds = with_first_device rounds reset_body
