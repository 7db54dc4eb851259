-- ===== src/Mapping/Shown.antt =====
-- What a view of an MDL shows (driver/mapping.c): the pages that were last written to its page array,
-- at the address that MmMapLockedPagesSpecifyCache gave.
use tt_wind.Base.{
  ℕ, zero, suc, ◌+◌, ◌/◌, ◌^◌, ◌<◌, Option, none, some, List, [], ◌∷◌, ◌≡◌, refl, ◌∙◌, ap, ◌==◌,
  length, get_elem?, if◌then◌else◌, arith, u32, ◌>>>◌,
}
use tt_wind.Status.{Result, ok, fail}
use tt_wind.Kernel.{
  Env, Log, CacheType, non_cached, write_combined, os, fill_mdl, free_mdl, map_locked_pages,
  unmap_locked_pages,
}
use tt_wind.Context.{World, UserMapping, mdl_kind, page_size}
use tt_wind.Request.{cache_wc}
use tt_wind.Mapping.View.{page_frames}

-- The page array of the MDL.
unfoldable pub frames_of : Log → (mdl : ℕ) → Option (List ℕ)
frames_of [] mdl = none
frames_of (os (fill_mdl m fs) ∷ l) mdl =
    let rest = frames_of l mdl in if m == mdl then some fs else rest
frames_of (os (free_mdl m) ∷ l) mdl = let rest = frames_of l mdl in if m == mdl then none else rest
frames_of (_ ∷ l) mdl = frames_of l mdl

abbrev answered_view : CacheType → Result ℕ → Option (ℕ × CacheType)
answered_view c (ok va) = some (va, c)
answered_view c (fail s) = none

module _ ⦃env : Env⦄ where
  -- The address and the caching of the MDL's view.
  unfoldable pub view_of : Log → (mdl : ℕ) → Option (ℕ × CacheType)
  view_of [] mdl = none
  view_of (os (map_locked_pages m c) ∷ l) mdl =
      let rest = view_of l mdl in
      if m == mdl then answered_view c (env.os_answer l (map_locked_pages m c)) else rest
  view_of (os (unmap_locked_pages va m) ∷ l) mdl =
      let rest = view_of l mdl in if m == mdl then none else rest
  view_of (_ ∷ l) mdl = view_of l mdl

  -- The mapping's MDL describes the pages of the physical range from `phys` on, `len` bytes, one after
  -- the other, and is mapped at the mapping's address with the caching that was asked for.
  pub record ShowsRange (phys len mode : ℕ) (m : UserMapping) (w : World) : Type 0 where
    pub mdl : ℕ
    pub kind : m.kind ≡ mdl_kind mdl
    pub frames : List ℕ
    pub filled : frames_of w.log mdl ≡ some frames
    pub count : length frames ≡ len / page_size
    pub each : (i : ℕ) → i < len / page_size → get_elem? frames i ≡ some (phys / page_size + i)
    pub placed :
        view_of w.log mdl
        ≡ some (m.user_va, if mode == cache_wc then write_combined else non_cached)

  -- The same with the array that the code fills.
  pub record Shown (phys len mode : ℕ) (m : UserMapping) (w : World) : Type 0 where
    pub mdl : ℕ
    pub kind : m.kind ≡ mdl_kind mdl
    pub filled : frames_of w.log mdl ≡ some (page_frames (u32 (len >>> 12)) (phys >>> 12))
    pub placed :
        view_of w.log mdl
        ≡ some (m.user_va, if mode == cache_wc then write_combined else non_cached)

length-page_frames : (n b : ℕ) → length (page_frames n b) ≡ n
unfolding page_frames
length-page_frames zero b = refl
length-page_frames (suc n) b = ap suc (length-page_frames n (b + 1))

nth-page_frames : (n b i : ℕ) → i < n → get_elem? (page_frames n b) i ≡ some (b + i)
unfolding page_frames
nth-page_frames zero b i h = absurd (omega (arith, h))
nth-page_frames (suc n) b zero h = ap (λ k. some k) (omega arith)
nth-page_frames (suc n) b (suc i) h =
    nth-page_frames n (b + 1) i (omega (arith, h)) ∙ ap (λ k. some k) (omega arith)

pub Shown-ShowsRange :
    ⦃env : Env⦄ (phys len mode : ℕ) (m : UserMapping) (w : World)
    → len < 2 ^ 32
    → Shown phys len mode m w
    → ShowsRange phys len mode m w
Shown-ShowsRange phys len mode m w h s = record {
  mdl = s.mdl;
  kind = s.kind;
  frames = page_frames (u32 (len >>> 12)) (phys >>> 12);
  filled = s.filled;
  count = length-page_frames _ _ ∙ omega (arith, h);
  each = λ i l. nth-page_frames (u32 (len >>> 12)) (phys >>> 12) i (omega (arith, h, l));
  placed = s.placed;
}
