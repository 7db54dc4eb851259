-- ===== src/Tool/Listing.antt =====
-- The list of interface paths (tools/ttwind-info/ttwind-info.c, main): strings that end in NUL, and
-- an empty one at the end.
use tt_wind.Base.{
  ℕ, zero, suc, ◌+◌, ◌≤◌, ◌≢◌, false, some, List, [], ◌∷◌, ◌++◌, ◌≡◌, refl, ap, ap₂, subst, ◌∙◌,
  ◌==◌, arith, length, take, All, if◌then◌else◌,
}
use tt_wind.Tool.Calls.{Text, Host, Trace, T, ◌>>=◌, pure, branch}
use tt_wind.Tool.Args.{drop}
use tt_wind.Tool.Device.{
  first_char, wcslen, query_device, query_all, paths, query_found, listing_code,
}

abbrev pub multi_string : List Text → List ℕ
multi_string [] = 0 ∷ []
multi_string (p ∷ ps) = p ++ 0 ∷ multi_string ps

-- A path is not empty and has no NUL in it.
abbrev pub IsPath : Text → Type 0
IsPath [] = ⊥
IsPath (c ∷ cs) = All (λ x. x ≢ 0) (c ∷ cs)

abbrev pub failures : List ℕ → ℕ
failures [] = 0
failures (rc ∷ rcs) = (if rc == 0 then 0 else 1) + failures rcs

-- 1 without a device, 0 if every query succeeded, 2 if one failed.
abbrev pub exit_of : List ℕ → ℕ
exit_of [] = 1
exit_of (rc ∷ rcs) = if failures (rc ∷ rcs) == 0 then 0 else 2

module _ ⦃host : Host⦄ where
  -- The devices queried one after the other, and their results.
  unfoldable pub query_each : List Text → T (List ℕ)
  query_each [] = pure []
  query_each (p ∷ ps) = query_device p >>= λ rc. query_each ps >>= λ rcs. pure (rc ∷ rcs)

wcslen-path : (p : Text) (rest : List ℕ) → All (λ x. x ≢ 0) p → wcslen (p ++ 0 ∷ rest) ≡ length p
unfolding wcslen
wcslen-path [] rest h = refl
wcslen-path (c ∷ p) rest h = ground (arith, wcslen-path p rest h.1)

take-path : (p : Text) (rest : List ℕ) → take (length p) (p ++ rest) ≡ p
take-path [] rest = refl
take-path (c ∷ p) rest = ap (λ q. c ∷ q) (take-path p rest)

drop-suc-path : (p : Text) (rest : List ℕ) → drop (suc (length p)) (p ++ 0 ∷ rest) ≡ rest
drop-suc-path [] rest = refl
drop-suc-path (c ∷ p) rest = drop-suc-path p rest

drop-path : (p : Text) (rest : List ℕ) → drop (length p + 1) (p ++ 0 ∷ rest) ≡ rest
drop-path p rest =
    let e : suc (length p) ≡ length p + 1 = omega arith in
    subst (λ n. drop n (p ++ 0 ∷ rest) ≡ rest) e (drop-suc-path p rest)

first_char-path : (p : Text) (rest : List ℕ) → IsPath p → (first_char (p ++ rest) == 0) ≡ false
first_char-path [] rest h = absurd h
first_char-path (c ∷ p) rest h = ground arith

IsPath-chars : (p : Text) → IsPath p → All (λ x. x ≢ 0) p
IsPath-chars [] h = absurd h
IsPath-chars (c ∷ p) h = h

length-past : (p : Text) (rest : List ℕ) → length rest + 1 ≤ length (p ++ 0 ∷ rest)
length-past [] rest = omega arith
length-past (c ∷ p) rest = omega (arith, length-past p rest)

length-multi_string : (ps : List Text) → length ps ≤ length (multi_string ps)
length-multi_string [] = omega arith
length-multi_string (p ∷ ps) =
    omega (arith, length-multi_string ps, length-past p (multi_string ps))

module _ ⦃host : Host⦄ where
  abbrev counted : (found failed : ℕ) → List ℕ × Trace → (ℕ × ℕ) × Trace
  counted found failed (rcs, t) = ((found + length rcs, failed + failures rcs), t)

  one_more :
      (rc found failed : ℕ) (r : List ℕ × Trace)
      → counted (found + 1) (if rc == 0 then failed else failed + 1) r
        ≡ counted found failed (rc ∷ r.0, r.1)
  one_more rc found failed r = ap₂ (λ a b. ((a, b), r.1)) (omega arith) (ground arith)

  query_all-step :
      (fuel : ℕ) (p : Text) (rest : List ℕ) (found failed : ℕ)
      → IsPath p
      → query_all (suc fuel) (p ++ 0 ∷ rest) found failed ≡ (
          query_device p >>= λ rc.
          query_all fuel rest (found + 1) (if rc == 0 then failed else failed + 1))
  unfolding query_all branch
  query_all-step fuel p rest found failed h = rw (
    first_char-path p (0 ∷ rest) h,
    wcslen-path p rest (IsPath-chars p h),
    take-path p (0 ∷ rest),
    drop-path p rest,
  )

  query_all-end :
      (fuel found failed : ℕ) → query_all fuel (0 ∷ []) found failed ≡ pure (found, failed)
  unfolding query_all branch
  query_all-end zero found failed = refl
  query_all-end (suc fuel) found failed = refl

  query_all-each :
      (fuel : ℕ) (ps : List Text) (found failed : ℕ) (t : Trace)
      → All IsPath ps
      → length ps ≤ fuel
      → query_all fuel (multi_string ps) found failed t ≡ counted found failed (query_each ps t)
  unfolding query_each pure ◌>>=◌
  query_all-each fuel [] found failed t h l =
      ap (λ m. m t) (query_all-end fuel found failed)
      ∙ ap₂ (λ a b. ((a, b), t)) (omega arith) (omega arith)
  query_all-each zero (p ∷ ps) found failed t h l = absurd (omega arith)
  query_all-each (suc fuel) (p ∷ ps) found failed t h l =
      ap (λ m. m t) (query_all-step fuel p (multi_string ps) found failed h.0)
      ∙ query_all-each fuel ps (found + 1) _ _ h.1 (omega arith)
      ∙ one_more (query_device p t).0 found failed _

  -- For a list of paths that are not empty, the tool queries each device once, in the order of the
  -- list. Its exit code is 1 for an empty list, 0 if every query succeeded, and 2 if one failed.
  pub query_found-codes :
      (ps : List Text) (t : Trace)
      → All IsPath ps
      → query_found (paths (multi_string ps)) t
        ≡ (some (exit_of (query_each ps t).0), (query_each ps t).1)
  unfolding query_found pure ◌>>=◌
  query_found-codes ps t h =
      ap (λ r. (some (listing_code r.0), r.1))
        (query_all-each (length (multi_string ps)) ps 0 0 t h (length-multi_string ps))
      ∙ ap (λ n. (some n, (query_each ps t).1)) (codes_agree (query_each ps t).0)
    where
      codes_agree : (rcs : List ℕ) → listing_code (0 + length rcs, 0 + failures rcs) ≡ exit_of rcs
      codes_agree [] = refl
      codes_agree (rc ∷ rcs) = ground arith
