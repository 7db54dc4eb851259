-- ===== src/Sysmem/Shown.antt =====
-- What a section view of the physical memory shows (driver/sysmem.c).
use tt_wind.Base.{
  ℕ, ◌+◌, ◌-◌, ◌%◌, ◌^◌, ◌≤◌, ◌==◌, Bool, true, false, Option, none, some, [], ◌∷◌, ◌≡◌, refl,
  arith, if◌then◌else◌, ◌!=◌, ◌<<<◌, ◌>>>◌,
}
use tt_wind.Status.{Result, ok, fail}
use tt_wind.Kernel.{
  Env, Log, os, map_view, unmap_view, attach_process, detach_process, close_section,
}
use tt_wind.Context.{Context, World, UserMapping, section_kind}
use tt_wind.Monad.{
  ◌>>=◌, ◌>>◌, pure, when, tell, call, attempt, from_result, get_process, steps, and_then,
}
use tt_wind.Monad.Outcome.{Frozen, Outcome, bind-Outcome}
use tt_wind.Mapping.Frozen.{frozen_rules}
use tt_wind.Sysmem.Ioctl.{SectionView, map_sysmem_to_user}

abbrev answered_at : Result ℕ → (base : ℕ) → Bool
answered_at (ok b) base = b == base
answered_at (fail s) base = false

module _ ⦃env : Env⦄ where
  -- The physical start and the size of the view at the address.
  unfoldable pub section_of : Log → (base : ℕ) → Option (ℕ × ℕ)
  section_of [] base = none
  section_of (os (map_view o n) ∷ l) base =
      let rest = section_of l base in
      if answered_at (env.os_answer l (map_view o n)) base then some (o, n) else rest
  section_of (os (unmap_view b) ∷ l) base =
      let rest = section_of l base in if b == base then none else rest
  section_of (_ ∷ l) base = section_of l base

  -- A view at `base` holds the physical range from `phys` on, `len` bytes, and `va` is where in it
  -- the range starts.
  pub record Holds (phys len base va : ℕ) (l : Log) : Type 0 where
    pub start : ℕ
    pub size : ℕ
    pub view : section_of l base ≡ some (start, size)
    pub granular : start % 2 ^ 16 ≡ 0
    pub starts : start ≤ phys
    pub ends : phys + len ≤ start + size
    pub here : va ≡ base + (phys - start)

  pub record ShowsSection (phys len : ℕ) (m : UserMapping) (w : World) : Type 0 where
    pub base : ℕ
    pub kind : m.kind ≡ section_kind base
    pub holds : Holds phys len base m.user_va w.log

  -- The same of the view that is returned.
  abbrev pub Viewed : Context → (phys len : ℕ) → SectionView → World → Type 0
  Viewed c phys len v w = (w.ctx ≡ c) × Holds phys len v.base v.va w.log

  self : (k : ℕ) → (k == k) ≡ true
  self k = ground arith

  answered :
      (c : Context) (phys len p : ℕ) (b : Bool) (r : Result ℕ) (x : Context) (l : Log)
      → x ≡ c
      → env.os_answer l (map_view (phys >>> 16 <<< 16) (len + (phys - (phys >>> 16 <<< 16)))) ≡ r
      → Outcome (Frozen c) (Viewed c phys len) (
          (when b (tell (detach_process p))
              >> (tell close_section
                  >> (from_result r >>= λ base.
                      pure (record { base = base; va = base + (phys - (phys >>> 16 <<< 16)) }))))
            (record {
              ctx = x;
              log = os (map_view (phys >>> 16 <<< 16) (len + (phys - (phys >>> 16 <<< 16)))) ∷ l;
            }))
  unfolding steps section_of
  answered c phys len p true (ok base) x l e a = (
    e,
    record {
      start = phys >>> 16 <<< 16;
      size = len + (phys - (phys >>> 16 <<< 16));
      view = rw a (rw (self base) refl);
      granular = omega arith;
      starts = omega arith;
      ends = omega arith;
      here = refl;
    },
  )
  answered c phys len p false (ok base) x l e a = (
    e,
    record {
      start = phys >>> 16 <<< 16;
      size = len + (phys - (phys >>> 16 <<< 16));
      view = rw a (rw (self base) refl);
      granular = omega arith;
      starts = omega arith;
      ends = omega arith;
      here = refl;
    },
  )
  answered c phys len p true (fail s) x l e a = e
  answered c phys len p false (fail s) x l e a = e

  attached :
      (c : Context) (phys len p : ℕ) (b : Bool) (w : World)
      → w.ctx ≡ c
      → Outcome (Frozen c) (Viewed c phys len) (
          (when b (tell (attach_process p))
              >> (attempt
                    (call (map_view (phys >>> 16 <<< 16) (len + (phys - (phys >>> 16 <<< 16)))))
                  >>= λ mapped.
                      when b (tell (detach_process p))
                      >> (tell close_section
                          >> (from_result mapped >>= λ base. pure (record {
                            base = base;
                            va = base + (phys - (phys >>> 16 <<< 16));
                          })))))
            w)
  unfolding steps call
  attached c phys len p true w e =
      answered c phys len p true _ w.ctx (os (attach_process p) ∷ w.log) e refl
  attached c phys len p false w e = answered c phys len p false _ w.ctx w.log e refl

  current_known :
      (c : Context) (phys len process : ℕ) (w : World)
      → w.ctx ≡ c
      → Outcome (Frozen c) (Viewed c phys len) (
          (get_process >>= λ current.
          when (process != current) (tell (attach_process process))
          >> (attempt (call (map_view (phys >>> 16 <<< 16) (len + (phys - (phys >>> 16 <<< 16)))))
              >>= λ mapped.
                  when (process != current) (tell (detach_process process))
                  >> (tell close_section
                      >> (from_result mapped >>= λ base.
                          pure
                            (record { base = base; va = base + (phys - (phys >>> 16 <<< 16)) })))))
            w)
  unfolding get_process ◌>>=◌ and_then
  current_known c phys len process w e = attached c phys len process _ w e

  pub map_sysmem_to_user-Viewed :
      (c : Context) (phys len process : ℕ) (w : World)
      → w.ctx ≡ c
      → Outcome (Frozen c) (Viewed c phys len) (map_sysmem_to_user phys len process w)
  unfolding map_sysmem_to_user
  map_sysmem_to_user-Viewed c phys len process w p =
      bind-Outcome (Frozen c) _ _ _ w (search frozen_rules) p
        (λ _ w1 p1. current_known c phys len process w1 p1)
