-- ===== src/Tool/Main.antt =====
-- main of tools/ttwind-info/ttwind-info.c, with argv from argv[1] on.
use tt_wind.Base.{List, [], ◌∷◌, leb, length, ℕ, some, if◌then◌else◌}
use tt_wind.Tool.Calls.{Text, Host, T, pure}
use tt_wind.Tool.Args.{codes, text_eq}
use tt_wind.Tool.Device.{ExitCode, list_devices}
use tt_wind.Tool.Windows.{cmd_bar0read, cmd_tlbread, cmd_tlbreadx}
use tt_wind.Tool.Messages.{cmd_arcmsg, cmd_arcstatus, cmd_reset}
use tt_wind.Tool.Sysmem.{cmd_sysmem, cmd_sysmemtest}

-- What the comparisons of main select.
pub data Command : Type 0 where
  bar0read : Text → Command
  tlbread : (x y addr : Text) → Command
  tlbreadx arcmsg : List Text → Command
  arcstatus sysmem sysmemtest reset usage : Command

pub data Word : Type 0 where
  bar0read_word tlbread_word tlbreadx_word arcmsg_word arcstatus_word sysmem_word : Word
  sysmemtest_word reset_word other_word : Word

unfoldable pub word_of : Text → Word
word_of s =
    if text_eq s (codes "bar0read")
    then bar0read_word
    else if text_eq s (codes "tlbread")
    then tlbread_word
    else if text_eq s (codes "tlbreadx")
    then tlbreadx_word
    else if text_eq s (codes "arcmsg")
    then arcmsg_word
    else if text_eq s (codes "arcstatus")
    then arcstatus_word
    else if text_eq s (codes "sysmem")
    then sysmem_word
    else if text_eq s (codes "sysmemtest")
    then sysmemtest_word
    else if text_eq s (codes "reset")
    then reset_word
    else other_word

-- The tests of argc; `argc - 2` is the number of arguments behind the word.
unfoldable pub select : Word → List Text → Command
select bar0read_word (offset ∷ []) = bar0read offset
select tlbread_word (x ∷ y ∷ addr ∷ []) = tlbread x y addr
select tlbreadx_word (arg ∷ rest) = tlbreadx (arg ∷ rest)
select arcmsg_word (arg ∷ rest) = if leb (length rest) 7 then arcmsg (arg ∷ rest) else usage
select arcstatus_word [] = arcstatus
select sysmem_word [] = sysmem
select sysmemtest_word [] = sysmemtest
select reset_word [] = reset
select _ _ = usage

module _ ⦃host : Host⦄ where
  unfoldable pub run_command : (rounds : ℕ) → Command → T ExitCode
  run_command rounds (bar0read offset) = cmd_bar0read rounds offset
  run_command rounds (tlbread x y addr) = cmd_tlbread rounds x y addr
  run_command rounds (tlbreadx argv) = cmd_tlbreadx rounds argv
  run_command rounds (arcmsg argv) = cmd_arcmsg rounds argv
  run_command rounds arcstatus = cmd_arcstatus rounds
  run_command rounds sysmem = cmd_sysmem rounds
  run_command rounds sysmemtest = cmd_sysmemtest rounds
  run_command rounds reset = cmd_reset rounds
  run_command rounds usage = pure (some 2)

  unfoldable pub main : (rounds : ℕ) → List Text → T ExitCode
  main rounds [] = list_devices rounds
  main rounds (word ∷ rest) = run_command rounds (select (word_of word) rest)
