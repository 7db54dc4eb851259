-- ===== src/Tlb/Preserves.antt =====
-- The TLB handlers (driver/tlb.c) keep the state under StateLock sound.
use tt_wind.Base.{ℕ, ◌<◌, Bool, true, false, some, ◌≡◌, refl, not}
use tt_wind.Status.{invalid_device_state}
use tt_wind.Kernel.{Env}
use tt_wind.Context.{World, tlb_2m_count}
use tt_wind.Monad.{
  M, and_then, ◌>>=◌, ◌>>◌, get_ctx, modify_ctx, modify_shared, require, pure, steps,
}
use tt_wind.Monad.Keeps.{Keeps, require-at, option-at}
use tt_wind.Request.{Request, FreeTlbIn, ConfigureTlbIn, MapTlbIn}
use tt_wind.Mapping.Table.{tlb_has_mappings}
use tt_wind.Mapping.Sound.{claim-Sound, free-Sound}
use tt_wind.Mapping.Released.{owned_by}
use tt_wind.Tlb.Windows.{
  take_window, allocate_tlb, check_tlb_owner, free_tlb, configure_tlb, map_tlb, free_window,
  claim_window,
}
use tt_wind.Frame.Firmware.{IsControl, program_tlb_2m-Keeps}
use tt_wind.Mapping.Preserves.{SoundWorld, create_user_mapping-Sound, sound_rules}

-- RtlFindClearBitsAndSet on the bitmap of the windows: it picks a bit of the bitmap that is clear.
pub record FindsClear (env : Env) : Type 0 where
  pub picks :
      (b : ℕ → Bool) (i : ℕ) → env.find_clear b ≡ some i → (i < tlb_2m_count) × (b i ≡ false)

module _ ⦃env : Env⦄ where
  -- The TLB handlers.
  pub check_tlb_owner-Sound : (file t : ℕ) → Keeps SoundWorld (check_tlb_owner file t)
  unfolding check_tlb_owner
  check_tlb_owner-Sound file t = search sound_rules depth 12

  pub map_tlb-Sound : (r : Request MapTlbIn) → Keeps SoundWorld (map_tlb r)
  unfolding map_tlb
  map_tlb-Sound r = search (sound_rules, check_tlb_owner-Sound, create_user_mapping-Sound) depth 24

  pub sound_control : IsControl SoundWorld
  sound_control = record {
    events = λ e n. record { at = λ w p. p };
    routes = λ r. record { at = λ w p. p };
    sysmems = λ f. record { at = λ w p. p };
  }

  pub configure_tlb-Sound : (r : Request ConfigureTlbIn) → Keeps SoundWorld (configure_tlb r)
  unfolding configure_tlb
  configure_tlb-Sound r =
      search (sound_rules, check_tlb_owner-Sound, program_tlb_2m-Keeps sound_control) depth 24

  pub take_window-Sound : FindsClear env → (file : ℕ) → Keeps SoundWorld (take_window file)
  unfolding take_window ◌>>=◌ and_then get_ctx ◌>>◌ modify_shared modify_ctx pure
  take_window-Sound f file = record {
    at = λ w p. option-at SoundWorld w p _ _ _ (λ i e. claimed w i file (f.picks _ i e) p);
  }
    where
      claimed :
          (w : World) (i file : ℕ)
          → (i < tlb_2m_count) × (w.ctx.shared.tlb_bitmap i ≡ false)
          → SoundWorld w
          → SoundWorld ((modify_shared (claim_window i file) >> pure i) w).1
      claimed w i file c p = claim-Sound w.ctx.shared i file c.0 c.1 p

  pub allocate_tlb-Sound : FindsClear env → (r : Request ℕ) → Keeps SoundWorld (allocate_tlb r)
  unfolding allocate_tlb
  allocate_tlb-Sound f r = search (sound_rules, take_window-Sound f) depth 16

  both-at :
      {B : Type 0} (b c : Bool) (s t : _) (m : M B) (w : World)
      → SoundWorld w
      → (c ≡ true → SoundWorld (m w).1)
      → SoundWorld (and_then ((require b s >> require c t) w) (λ _. m)).1
  unfolding steps
  both-at true true s t m w p h = h refl
  both-at true false s t m w p h = p
  both-at false c s t m w p h = p

  pub free_section-Sound :
      (file t : ℕ)
      → Keeps SoundWorld (
          check_tlb_owner file t
          >> (get_ctx >>= λ ctx.
              require (not (tlb_has_mappings ctx.shared t)) invalid_device_state
              >> modify_shared (free_window t)))
  unfolding check_tlb_owner ◌>>=◌ ◌>>◌ and_then get_ctx modify_shared modify_ctx
  free_section-Sound file t = record {
    at = λ w p. both-at _ _ _ _ _ w p (λ o.
        require-at SoundWorld w p _ _ _
          (λ h. free-Sound w.ctx.shared t file (owned_by file _ o) (negated _ h) p));
  }
    where
      negated : (b : Bool) → not b ≡ true → b ≡ false
      negated true e = cc
      negated false e = refl

  pub free_tlb-Sound : (r : Request FreeTlbIn) → Keeps SoundWorld (free_tlb r)
  unfolding free_tlb
  free_tlb-Sound r = search (sound_rules, free_section-Sound) depth 16
