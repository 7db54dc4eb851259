-- ===== src/Tool/Pairs.antt =====
-- Writing the arguments of tlbreadx and reading them again (tools/ttwind-info/ttwind-info.c).
use tt_wind.Base.{
  ℕ, ◌<◌, ◌^◌, some, List, [], ◌∷◌, ◌++◌, ◌≡◌, ◌≢◌, ◌==◌, ◌&&◌, ◌∙◌, ap, Bool, true, false,
  if◌then◌else◌, refl, arith, length, get_or, All, map,
}
use tt_wind.Tool.Calls.{Text, Host}
use tt_wind.Tool.Args.{
  codes, Fields, Key, addr_key, xend_key, yend_key, xstart_key, ystart_key, noc_key, mcast_key,
  ordering_key, linked_key, staticvc_key, wc_key, spelling, keys, find_key, set_field, after_equals,
  starts_with, parse_u64, parse_pair, parse_pairs,
}

-- The documented behaviour of strtoull on a number that is written out: all of it is read.
pub record ReadsBack (host : Host) (print : ℕ → Text) : Type 0 where
  pub value : (v : ℕ) → v < 2 ^ 64 → (host.strtoui64 (print v)).0 ≡ v
  pub whole : (v : ℕ) → v < 2 ^ 64 → (host.strtoui64 (print v)).1 ≡ length (print v)
  pub some_digit : (v : ℕ) → length (print v) ≢ 0

get_or-length : (s : Text) → get_or s (length s) 0 ≡ 0
get_or-length [] = refl
get_or-length (c ∷ s) = get_or-length s

after_equals-spelling : (k : Key) (s : Text) → after_equals (spelling k ++ s) ≡ some s
unfolding after_equals
after_equals-spelling addr_key s = refl
after_equals-spelling xend_key s = refl
after_equals-spelling yend_key s = refl
after_equals-spelling xstart_key s = refl
after_equals-spelling ystart_key s = refl
after_equals-spelling noc_key s = refl
after_equals-spelling mcast_key s = refl
after_equals-spelling ordering_key s = refl
after_equals-spelling linked_key s = refl
after_equals-spelling staticvc_key s = refl
after_equals-spelling wc_key s = refl

find_key-spelling : (k : Key) (s : Text) → find_key keys (spelling k ++ s) ≡ some k
unfolding find_key starts_with
find_key-spelling addr_key s = refl
find_key-spelling xend_key s = refl
find_key-spelling yend_key s = refl
find_key-spelling xstart_key s = refl
find_key-spelling ystart_key s = refl
find_key-spelling noc_key s = refl
find_key-spelling mcast_key s = refl
find_key-spelling ordering_key s = refl
find_key-spelling linked_key s = refl
find_key-spelling staticvc_key s = refl
find_key-spelling wc_key s = refl

-- The names that the usage text gives to the fields.
abbrev pub name : Key → Text
name addr_key = codes "addr"
name xend_key = codes "xend"
name yend_key = codes "yend"
name xstart_key = codes "xstart"
name ystart_key = codes "ystart"
name noc_key = codes "noc"
name mcast_key = codes "mcast"
name ordering_key = codes "ordering"
name linked_key = codes "linked"
name staticvc_key = codes "staticvc"
name wc_key = codes "wc"

-- `name=number`
abbrev pub written : (ℕ → Text) → Key × ℕ → Text
written print (k, v) = name k ++ b'=' ∷ print v

abbrev pub same_text : Text → Text → Bool
same_text [] [] = true
same_text [] (d ∷ t) = false
same_text (c ∷ s) [] = false
same_text (c ∷ s) (d ∷ t) = (c == d) && same_text s t

-- The number last given under the name, or what was there before.
abbrev pub last : Text → List (Key × ℕ) → ℕ → ℕ
last s [] v = v
last s ((k, n) ∷ pairs) v = last s pairs (if same_text (name k) s then n else v)

abbrev pub is_given : Text → List (Key × ℕ) → Bool → Bool
is_given s [] b = b
is_given s ((k, n) ∷ pairs) b = is_given s pairs (if same_text (name k) s then true else b)

-- Every field by the number last given under its name.
abbrev pub given : List (Key × ℕ) → Fields → Fields
given pairs f = record {
  have_addr = is_given (codes "addr") pairs f.have_addr;
  addr = last (codes "addr") pairs f.addr;
  xend = last (codes "xend") pairs f.xend;
  yend = last (codes "yend") pairs f.yend;
  xstart = last (codes "xstart") pairs f.xstart;
  ystart = last (codes "ystart") pairs f.ystart;
  noc = last (codes "noc") pairs f.noc;
  mcast = last (codes "mcast") pairs f.mcast;
  ordering = last (codes "ordering") pairs f.ordering;
  linked = last (codes "linked") pairs f.linked;
  staticvc = last (codes "staticvc") pairs f.staticvc;
  wc = last (codes "wc") pairs f.wc;
}

given-first :
    (k : Key) (v : ℕ) (pairs : List (Key × ℕ)) (f : Fields)
    → given pairs (set_field k v f) ≡ given ((k, v) ∷ pairs) f
given-first addr_key v pairs f = refl
given-first xend_key v pairs f = refl
given-first yend_key v pairs f = refl
given-first xstart_key v pairs f = refl
given-first ystart_key v pairs f = refl
given-first noc_key v pairs f = refl
given-first mcast_key v pairs f = refl
given-first ordering_key v pairs f = refl
given-first linked_key v pairs f = refl
given-first staticvc_key v pairs f = refl
given-first wc_key v pairs f = refl

spelled : (k : Key) (s : Text) → name k ++ b'=' ∷ s ≡ spelling k ++ s
spelled addr_key s = refl
spelled xend_key s = refl
spelled yend_key s = refl
spelled xstart_key s = refl
spelled ystart_key s = refl
spelled noc_key s = refl
spelled mcast_key s = refl
spelled ordering_key s = refl
spelled linked_key s = refl
spelled staticvc_key s = refl
spelled wc_key s = refl

module _ ⦃host : Host⦄ (print : ℕ → Text) (reads : ReadsBack host print) where
  parse_u64-print : (v : ℕ) → v < 2 ^ 64 → parse_u64 (print v) ≡ some v
  unfolding parse_u64
  parse_u64-print v h =
      ground (arith, reads.value v h, reads.whole v h, reads.some_digit v, get_or-length (print v))

  parse_pair-written :
      (k : Key) (v : ℕ) (f : Fields)
      → v < 2 ^ 64
      → parse_pair (written print (k, v)) f ≡ some (set_field k v f)
  unfolding parse_pair
  parse_pair-written k v f h =
      ap (λ s. parse_pair s f) (spelled k (print v))
      ∙ rw (
        parse_pair,
        after_equals-spelling k (print v),
        find_key-spelling k (print v),
        parse_u64-print v h,
      )

  -- With a strtoull that reads a written number: from any arguments name=number, of any fields in any
  -- order and as often as wanted, every field is read as the number last given under its own name,
  -- and stays as it was where there is none; have_addr tells whether an address was given.
  pub parse_pairs-written :
      (pairs : List (Key × ℕ)) (f : Fields)
      → All (λ p. p.1 < 2 ^ 64) pairs
      → parse_pairs (map (written print) pairs) f ≡ some (given pairs f)
  unfolding parse_pairs
  parse_pairs-written [] f h = refl
  parse_pairs-written ((k, v) ∷ pairs) f h =
      rw (parse_pairs, parse_pair-written k v f h.0)
        (parse_pairs-written pairs _ h.1 ∙ ap (λ g. some g) (given-first k v pairs f))
