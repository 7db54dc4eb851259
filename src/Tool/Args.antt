-- ===== src/Tool/Args.antt =====
-- The arguments of tools/ttwind-info/ttwind-info.c: parse_u64 and the key=value pairs of tlbreadx.
use Prim.Native.Char.{code}
use Prim.Native.String.{String}
use tt_wind.Base.{
  ℕ, zero, suc, ◌-◌, Bool, true, false, Option, none, some, List, [], ◌∷◌, ◌==◌, ◌!=◌, ◌&&◌, ◌||◌,
  leb, ◌%◌, bit_and, u8, u16, get_or, if◌then◌else◌,
}
use mathlib.Core.Option
use tt_wind.Context.{NocTlbConfig, zero_config, tlb_2m_size}
use tt_wind.Request.{cache_uc, cache_wc}
use tt_wind.Tool.Calls.{Text, Host}

-- The characters of a literal.
abbrev pub codes : String → Text
codes String.[] = []
codes (String.◌∷◌ c s) = code c ∷ codes s

abbrev pub drop : ℕ → Text → Text
drop zero s = s
drop (suc n) [] = []
drop (suc n) (c ∷ s) = drop n s

-- `strncmp(s, key, strlen(key)) == 0`
unfoldable pub starts_with : (key s : Text) → Bool
starts_with [] s = true
starts_with (k ∷ key) [] = false
starts_with (k ∷ key) (c ∷ s) = (k == c) && starts_with key s

-- strcmp
unfoldable pub text_eq : Text → Text → Bool
text_eq [] [] = true
text_eq [] (d ∷ t) = false
text_eq (c ∷ s) [] = false
text_eq (c ∷ s) (d ∷ t) = (c == d) && text_eq s t

-- What follows the first `=`, which `strchr` finds.
unfoldable pub after_equals : Text → Option Text
after_equals [] = none
after_equals (c ∷ s) = if c == b'=' then some s else after_equals s

-- The variables of cmd_tlbreadx.
pub record Fields : Type 0 where
  pub have_addr : Bool
  pub addr : ℕ
  pub xend : ℕ
  pub yend : ℕ
  pub xstart : ℕ
  pub ystart : ℕ
  pub noc : ℕ
  pub mcast : ℕ
  pub ordering : ℕ
  pub linked : ℕ
  pub staticvc : ℕ
  pub wc : ℕ

abbrev pub defaults : Fields
defaults = record {
  have_addr = false;
  addr = 0;
  xend = 0;
  yend = 0;
  xstart = 0;
  ystart = 0;
  noc = 0;
  mcast = 0;
  ordering = 1;
  linked = 0;
  staticvc = 0;
  wc = 0;
}

pub data Key : Type 0 where
  addr_key xend_key yend_key xstart_key ystart_key noc_key mcast_key : Key
  ordering_key linked_key staticvc_key wc_key : Key

abbrev pub spelling : Key → Text
spelling addr_key = codes "addr="
spelling xend_key = codes "xend="
spelling yend_key = codes "yend="
spelling xstart_key = codes "xstart="
spelling ystart_key = codes "ystart="
spelling noc_key = codes "noc="
spelling mcast_key = codes "mcast="
spelling ordering_key = codes "ordering="
spelling linked_key = codes "linked="
spelling staticvc_key = codes "staticvc="
spelling wc_key = codes "wc="

-- The order of the comparisons.
abbrev pub keys : List Key
keys =
    addr_key ∷ xend_key ∷ yend_key ∷ xstart_key ∷ ystart_key ∷ noc_key ∷ mcast_key ∷ ordering_key
    ∷ linked_key ∷ staticvc_key ∷ wc_key ∷ []

unfoldable pub find_key : List Key → Text → Option Key
find_key [] s = none
find_key (k ∷ ks) s = if starts_with (spelling k) s then some k else find_key ks s

-- `*dst = value`
abbrev pub set_field : Key → ℕ → Fields → Fields
set_field addr_key v f = record f { have_addr = true; addr = v }
set_field xend_key v f = record f { xend = v }
set_field yend_key v f = record f { yend = v }
set_field xstart_key v f = record f { xstart = v }
set_field ystart_key v f = record f { ystart = v }
set_field noc_key v f = record f { noc = v }
set_field mcast_key v f = record f { mcast = v }
set_field ordering_key v f = record f { ordering = v }
set_field linked_key v f = record f { linked = v }
set_field staticvc_key v f = record f { staticvc = v }
set_field wc_key v f = record f { wc = v }

-- "field out of range", negated.
abbrev pub in_range : Fields → Bool
in_range f =
    leb f.xend 0x3F
    && (leb f.yend 0x3F
        && (leb f.xstart 0x3F
            && (leb f.ystart 0x3F
                && (leb f.noc 1
                    && (leb f.mcast 1
                        && (leb f.ordering 3
                            && (leb f.linked 1 && (leb f.staticvc 1 && leb f.wc 1))))))))

-- The checks after the loop.
unfoldable pub checked_fields : Option Fields → Option Fields
checked_fields none = none
checked_fields (some f) = if f.have_addr && ((f.addr % 4 == 0) && in_range f) then some f else none

abbrev pub win_mask : ℕ
win_mask = tlb_2m_size - 1

-- `addr & ~win_mask` and `addr & win_mask`
abbrev pub block_of : ℕ → ℕ
block_of addr = addr - bit_and addr win_mask

abbrev pub offset_in : ℕ → ℕ
offset_in addr = bit_and addr win_mask

-- The configuration of tlbreadx, and the one of tlbread and sysmemtest.
abbrev pub fields_config : Fields → NocTlbConfig
fields_config f = record zero_config {
  addr = block_of f.addr;
  x_end = u16 f.xend;
  y_end = u16 f.yend;
  x_start = u16 f.xstart;
  y_start = u16 f.ystart;
  noc = u8 f.noc;
  mcast = u8 f.mcast;
  ordering = u8 f.ordering;
  linked = u8 f.linked;
  static_vc = u8 f.staticvc;
}

abbrev pub unicast_config : (x y addr : ℕ) → NocTlbConfig
unicast_config x y addr = record zero_config {
  addr = block_of addr;
  x_end = u16 x;
  y_end = u16 y;
  ordering = 1;
}

abbrev pub cache_of : (wc : ℕ) → ℕ
cache_of wc = if wc == 0 then cache_uc else cache_wc

module _ ⦃host : Host⦄ where
  unfoldable pub parse_u64 : Text → Option ℕ
  parse_u64 s =
      let (value, end) = host.strtoui64 s in
      if (end == 0) || (get_or s end 0 != 0) then none else some value

  -- One argument of tlbreadx.
  unfoldable pub parse_pair : Text → Fields → Option Fields
  parse_pair arg f = elim (after_equals arg) [
    | none ↦ none
    | some value ↦ elim (find_key keys arg) [
      | none ↦ none
      | some k ↦ Option.map (λ v. set_field k v f) (parse_u64 value)
    ]
  ]

  unfoldable pub parse_pairs : List Text → Fields → Option Fields
  parse_pairs [] f = some f
  parse_pairs (arg ∷ rest) f = elim (parse_pair arg f) [ none ↦ none | some g ↦ parse_pairs rest g ]

  unfoldable pub readx_fields : List Text → Option Fields
  readx_fields argv = checked_fields (parse_pairs argv defaults)

  -- The three arguments of tlbread with their checks: x, y and the address.
  unfoldable pub read_args : (x y addr : Text) → Option (ℕ × ℕ × ℕ)
  read_args x_arg y_arg addr_arg = elim (parse_u64 x_arg) [
    | none ↦ none
    | some x ↦ elim (parse_u64 y_arg) [
      | none ↦ none
      | some y ↦ elim (parse_u64 addr_arg) [
        | none ↦ none
        | some addr ↦
            if leb x 0x3F && (leb y 0x3F && (addr % 4 == 0)) then some (x, y, addr) else none
      ]
    ]
  ]

  -- The offset of bar0read.
  unfoldable pub offset_arg : Text → Option ℕ
  offset_arg s = elim (parse_u64 s) [
    | none ↦ none
    | some offset ↦ if offset % 4 == 0 then some offset else none
  ]

  -- The words of arcmsg, at most eight, each of 32 bits.
  unfoldable pub message_words : List Text → Option (List ℕ)
  message_words [] = some []
  message_words (arg ∷ rest) = elim (parse_u64 arg) [
    | none ↦ none
    | some word ↦
        if leb word 0xFFFFFFFF then Option.map (λ ws. word ∷ ws) (message_words rest) else none
  ]
