-- ===== src/Tests/Tool.antt =====
-- A host for the tool in which every call but GET_DEVICE_INFO succeeds, a number is written as one
-- character, and two devices are listed; and the theorems on the tool at concrete arguments.
use tt_wind.Base.{ℕ, true, some, List, [], ◌∷◌, ◌≡◌, ◌⊎◌, refl, map, arith}
use tt_wind.Status.{ok}
use tt_wind.Context.{World}
use tt_wind.Sysmem.Ioctl.{unavailable}
use tt_wind.Tlb.Windows.{configure_tlb, claim_window}
use tt_wind.Tool.Calls.{
  Text, Host, Control, Output, Answer, success, failure, filled, get_device_info, map_bar,
  unmap_bar, allocate_tlb, configure_tlb as configure_call, map_tlb, free_tlb, smc_msg, arc_status,
  reset_device, post_reset, query_sysmem, map_sysmem, sysmem_status,
}
use tt_wind.Tool.Args.{
  codes, Fields, Key, addr_key, xend_key, wc_key, defaults, readx_fields, fields_config,
  parse_pairs, parse_pair, parse_u64, after_equals, find_key, starts_with, checked_fields,
}
use tt_wind.Tool.Device.{paths, query_found}
use tt_wind.Tool.Messages.{reset_body}
use tt_wind.Tool.Main.{main}
use tt_wind.Tool.Balance.{pending}
use tt_wind.Tool.Released.{main-releases}
use tt_wind.Tool.Polls.{Refused, Armed, reset_body-ends}
use tt_wind.Tool.Accepted.{config_request, exact_config, tlbreadx-accepted}
use tt_wind.Tool.Listing.{multi_string, exit_of, query_each, query_found-codes}
use tt_wind.Tool.Pairs.{ReadsBack, written, given, parse_pairs-written}
use tt_wind.Tests.Sim.{sim, fresh}

answers : (c : Control) → Answer (Output c)
answers get_device_info = failure 5
answers (map_bar i) = success (record { user_va = 4096; len = i.len }) 16
answers (unmap_bar va) = success tt 0
answers (allocate_tlb s) = success 3 8
answers (configure_call i) = success tt 0
answers (map_tlb i) = success 8192 8
answers (free_tlb i) = success tt 0
answers (smc_msg m) = success m 32
answers arc_status = failure 5
answers (reset_device i) = success tt 0
answers (post_reset i) = failure 170
answers query_sysmem = success unavailable 48
answers (map_sysmem i) = success (record { user_va = 65536; len = i.len }) 16
answers sysmem_status = failure 5

read_one : Text → ℕ × ℕ
read_one [] = (0, 0)
read_one (c ∷ s) = (c, 1)

abbrev host_sim : Host
host_sim = record {
  device_io_control = λ t h c. answers c;
  create = λ t path. some 11;
  memory = λ t va. 0;
  interface_list_size = λ t. some 7;
  can_allocate = λ t n. true;
  interface_list = λ t n. filled (multi_string (codes "a" ∷ codes "bc" ∷ []));
  strtoui64 = read_one;
  error_busy = 170;
}

abbrev digit : ℕ → Text
digit v = v ∷ []

digit-ReadsBack : ReadsBack host_sim digit
unfolding read_one
digit-ReadsBack = record {
  value = λ v h. refl;
  whole = λ v h. refl;
  some_digit = λ v h. omega arith;
}

abbrev read_command : List Text
read_command = codes "tlbread" ∷ digit 1 ∷ digit 2 ∷ digit 64 ∷ []

main-releases_example : pending (main ⦃host = host_sim⦄ 1 read_command []).1 ≡ pending []
main-releases_example = main-releases ⦃host = host_sim⦄ 1 read_command []

reset_body-ends_example :
    Refused ⦃host = host_sim⦄ 11 [] (reset_body ⦃host = host_sim⦄ 11 [])
    ⊎ Armed ⦃host = host_sim⦄ 11 [] (reset_body ⦃host = host_sim⦄ 11 [])
reset_body-ends_example = reset_body-ends ⦃host = host_sim⦄ 11 []

abbrev pairs : List (Key × ℕ)
pairs = (addr_key, 4096) ∷ (xend_key, 5) ∷ (wc_key, 1) ∷ (xend_key, 6) ∷ []

abbrev pair_fields : Fields
pair_fields = record defaults { have_addr = true; addr = 4096; xend = 6; wc = 1 }

parse_pairs-written_example :
    parse_pairs ⦃host = host_sim⦄ (map (written digit) pairs) defaults ≡ some (given pairs defaults)
parse_pairs-written_example =
    parse_pairs-written ⦃host = host_sim⦄ digit digit-ReadsBack pairs defaults (omega arith)

abbrev owner_world : World
owner_world = record fresh {
  ctx = record (fresh.ctx) { shared = claim_window 3 7 fresh.ctx.shared };
}

read_fields : readx_fields ⦃host = host_sim⦄ (map (written digit) pairs) ≡ some pair_fields
unfolding readx_fields checked_fields parse_pairs parse_pair parse_u64 after_equals find_key
    starts_with read_one
read_fields = refl

tlbreadx-accepted_example :
    ((configure_tlb ⦃env = sim⦄ (config_request 7 3 (fields_config pair_fields)) owner_world).0
      ≡ ok tt)
    × (fields_config pair_fields ≡ exact_config pair_fields)
tlbreadx-accepted_example =
    tlbreadx-accepted ⦃host = host_sim⦄ ⦃env = sim⦄ (map (written digit) pairs) pair_fields 7 3
      owner_world read_fields refl refl refl

abbrev two_paths : List Text
two_paths = codes "a" ∷ codes "bc" ∷ []

query_found-codes_example : query_found ⦃host = host_sim⦄ (paths (multi_string two_paths)) [] ≡ (
  some (exit_of (query_each ⦃host = host_sim⦄ two_paths []).0),
  (query_each ⦃host = host_sim⦄ two_paths []).1,
)
query_found-codes_example = query_found-codes ⦃host = host_sim⦄ two_paths [] (omega arith)
