-- ===== src/Sysmem/Mapped.antt =====
-- The range that MAP_SYSMEM hands out (driver/sysmem.c).
use tt_wind.Base.{ℕ, ◌+◌, ◌%◌, ◌≤◌, ◌<◌, ◌^◌, true, none, ◌≡◌}
use mathlib.Core.Option
use tt_wind.Status.{ok}
use tt_wind.Kernel.{Env}
use tt_wind.Context.{Context, World, UserMapping, page_size, section_kind}
use tt_wind.Monad.Outcome.{Frozen, Outcome}
use tt_wind.Request.{Request, MapSysmemIn, MapOut}
use tt_wind.Mapping.Created.{Appended}
use tt_wind.Sysmem.Ioctl.{SectionView}
use tt_wind.Sysmem.Shown.{ShowsSection}

pub record MappedSysmem ⦃env : Env⦄ (req : Request MapSysmemIn) (old : Context) (out : MapOut)
    (w : World) : Type 0 where
  pub input : MapSysmemIn
  pub given : req.input ≡ ok input
  pub usable : old.sysmem.is_verified ≡ true
  pub inside : input.offset + input.len ≤ old.sysmem.size
  pub sized : 0 < input.len
  pub aligned : (input.offset % page_size ≡ 0) × (input.len % page_size ≡ 0)
  pub appended : Appended old req.file input.len none out.user_va w
  pub shows : ShowsSection ((old.sysmem.phys + input.offset) % 2 ^ 64) input.len appended.mapping w
  pub answered : out.len ≡ input.len

module _ ⦃env : Env⦄ (c : Context) where
  abbrev section_mapping : (owner process : ℕ) → SectionView → (len : ℕ) → UserMapping
  section_mapping owner process view len = record {
    file = owner;
    process = process;
    kind = section_kind view.base;
    user_va = view.va;
    len = len;
    tlb_id = none;
  }
