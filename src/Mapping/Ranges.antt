-- ===== src/Mapping/Ranges.antt =====
-- The range that MAP_BAR hands out (driver/mapping.c).
use tt_wind.Base.{
  ℕ, ◌+◌, ◌-◌, ◌%◌, ◌^◌, u64, ◌≤◌, ◌<◌, true, none, some, ◌≡◌, refl, ◌&&◌, not, leb, ◌==◌, arith,
  get_elem?,
}
use tt_wind.Base.Bits.{and_low}
use tt_wind.Status.{ok, invalid_parameter}
use tt_wind.Kernel.{Env}
use tt_wind.Context.{Context, World, BarDesc, max_map_bytes, page_size}
use tt_wind.Monad.{◌>>◌, pure}
use tt_wind.Monad.Outcome.{
  Frozen, Outcome, tail-Outcome, result-Outcome, option-Outcome, require-Outcome, get_ctx-Outcome,
}
use tt_wind.Request.{Request, MapBarIn, MapOut}
use tt_wind.Mapping.Ioctl.{map_bar, is_page_aligned}
use tt_wind.Mapping.Shown.{ShowsRange, Shown-ShowsRange}
use tt_wind.Mapping.Created.{Appended, Created, create_user_mapping-Outcome}

pub record MappedBar ⦃env : Env⦄ (req : Request MapBarIn) (old : Context) (out : MapOut) (w : World)
    : Type 0 where
  pub input : MapBarIn
  pub given : req.input ≡ ok input
  pub bar : BarDesc
  pub listed : get_elem? old.bars input.bar_index ≡ some bar
  pub inside : input.offset + input.len ≤ bar.size
  pub sized : (0 < input.len) × (input.len ≤ max_map_bytes)
  pub aligned : (input.offset % page_size ≡ 0) × (input.len % page_size ≡ 0)
  pub appended : Appended old req.file input.len none out.user_va w
  pub shows :
      ShowsRange ((bar.phys + input.offset) % 2 ^ 64) input.len input.cache_mode appended.mapping w
  pub answered : out.len ≡ input.len

aligned_parts :
    (x y : ℕ)
    → (is_page_aligned x && is_page_aligned y) ≡ true
    → (x % page_size ≡ 0) × (y % page_size ≡ 0)
aligned_parts x y e = ground (arith, and_low 12 x, and_low 12 y)

sized_parts : (n : ℕ) → (not (n == 0) && leb n max_map_bytes) ≡ true → (0 < n) × (n ≤ max_map_bytes)
sized_parts n e = ground arith

inside_parts : (o n s : ℕ) → (leb n s && leb o (s - n)) ≡ true → o + n ≤ s
inside_parts o n s e = ground arith

small : (n : ℕ) → n ≤ max_map_bytes → n < 2 ^ 32
small n h = omega (arith, h)

module _ ⦃env : Env⦄ where
  -- MAP_BAR: on success the context has one mapping more, at the end of the list, of the requesting
  -- handle and of no window; the range that was asked for is page-aligned, not empty, at most 8 MiB
  -- long and inside the BAR; and the mapping's MDL has exactly the pages of the BAR's physical address
  -- plus the offset (as a 64-bit sum), and is mapped at the returned address with the caching that
  -- was asked for. On every failure the context is as it was.
  pub map_bar-maps :
      (req : Request MapBarIn) (w : World)
      → Outcome (Frozen (w.ctx)) (MappedBar req (w.ctx)) (map_bar req w)
  unfolding map_bar ◌>>◌ pure
  map_bar-maps req w =
      let c : Context = w.ctx in
      let Q : MapOut → World → Type 0 = MappedBar req c in
      result-Outcome (Frozen c) Q req.input _ w refl (λ input given.
        result-Outcome (Frozen c) Q req.output _ w refl (λ _ _. get_ctx-Outcome (Frozen c) Q _ w (
          require-Outcome (Frozen c) Q _ _ _ w refl (λ _.
            require-Outcome (Frozen c) Q _ _ _ w refl (λ _.
              require-Outcome (Frozen c) Q _ _ _ w refl (λ aligned.
                require-Outcome (Frozen c) Q _ _ _ w refl (λ sized.
                  option-Outcome (Frozen c) Q (get_elem? c.bars input.bar_index) invalid_parameter _
                    w refl
                    (λ bar listed. require-Outcome (Frozen c) Q _ _ _ w refl (λ inside.
                      tail-Outcome (Frozen c) Q
                        (Created c req.file (u64 (bar.phys + input.offset)) input.len
                          input.cache_mode none)
                        _ _ w
                        (create_user_mapping-Outcome req.file req.requestor _ input.len
                          input.cache_mode none c w refl)
                        (λ va w' a.
                          answer input bar va w' given listed inside sized aligned a))))))))))
    where
      answer :
          (input : MapBarIn) (bar : BarDesc) (va : ℕ) (w' : World)
          → req.input ≡ ok input
          → get_elem? w.ctx.bars input.bar_index ≡ some bar
          → (leb input.len bar.size && leb input.offset (bar.size - input.len)) ≡ true
          → (not (input.len == 0) && leb input.len max_map_bytes) ≡ true
          → (is_page_aligned input.offset && is_page_aligned input.len) ≡ true
          → Created
              (w.ctx)
              req.file
              (u64 (bar.phys + input.offset))
              input.len
              input.cache_mode
              none
              va
              w'
          → Outcome
              (Frozen (w.ctx))
              (MappedBar req (w.ctx))
              (pure (record { user_va = va; len = input.len }) w')
      answer input bar va w' given listed inside sized aligned a = record {
        input = input;
        given = given;
        bar = bar;
        listed = listed;
        inside = inside_parts _ _ _ inside;
        sized = sized_parts _ sized;
        aligned = aligned_parts _ _ aligned;
        appended = a.0;
        shows = Shown-ShowsRange _ input.len _ _ w' (small input.len (sized_parts _ sized).1) a.1;
        answered = refl;
      }
