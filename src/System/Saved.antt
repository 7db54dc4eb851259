-- ===== src/System/Saved.antt =====
-- RESET_DEVICE and POST_RESET (driver/reset.c), then every callback: a restricted driver has a saved
-- config space and offers no sysmem.
use tt_wind.Base.{ℕ, Bool, true, false, Option, none, some, ◌≡◌, inl, inr, refl, ◌∙◌, not, bit_or}
use tt_wind.Status.{Result, ok, fail, device_data_error}
use tt_wind.Kernel.{Env, Event}
use tt_wind.Context.{World}
use tt_wind.Monad.{◌>>=◌, ◌>>◌, require, when, pure, modify_ctx, set_bus_data}
use tt_wind.Monad.Keeps.{
  Keeps, Ignores, Overlooks, keeps_rules, Keeps-bind, Keeps-require, Keeps-set_bus_data,
  Keeps-modify_ctx,
}
use tt_wind.Monad.Outcome.{Outcome, bind-Outcome, tail-Outcome, require-Outcome, get_ctx-Outcome}
use tt_wind.Request.{Request, ResetIn}
use tt_wind.Reset.Config.{read_command, cfg_command, cmd_parity}
use tt_wind.Reset.Arm.{
  save_config, prepare_reset, commit_reset, reset_device, fence, carry_forward, restrict,
}
use tt_wind.Reset.Gate.{Lifted}
use tt_wind.System.Flags.{IsFlags, event_rule, saved_rule}
use tt_wind.System.Flags.Routines.{device_present-Flags, read_command-Flags, cfg_read_into-Flags}
use tt_wind.System.Guarded.{Guarded, Guarded-IsFlags, same_flags}

Lifted-IsFlags : IsFlags Lifted
Lifted-IsFlags = record {
  events = λ w e p. p;
  contexts = λ w c n v d g t p. n ∙ p;
  unverified = λ w c n v d g t p. n ∙ p;
}

-- Guarded, with a valid save.
abbrev Saved : World → Type 0
Saved w = Guarded w × (w.ctx.saved_config_valid ≡ true)

Saved-IsFlags : IsFlags Saved
Saved-IsFlags = record {
  events = λ w e p. (Guarded-IsFlags.events w e p.0, p.1);
  contexts = λ w c n v d g t p. (same_flags w c n v d p.0, v ∙ p.1);
  unverified = λ w c n v d g t p. (Guarded-IsFlags.unverified w c n v d g t p.0, v ∙ p.1);
}

soften :
    (r : Result (Unit {0}) × World) → Outcome Lifted (λ _. Saved) r → Outcome Guarded (λ _. Saved) r
soften (ok a, w) p = p
soften (fail s, w) p = inl p

kept : (r : Result (Unit {0}) × World) → Saved r.1 → Outcome Guarded (λ _. Saved) r
kept (ok a, w) p = p
kept (fail s, w) p = p.0

reached : (r : Result (Unit {0}) × World) → Outcome Guarded (λ _. Saved) r → Guarded r.1
reached (ok a, w) p = p.0
reached (fail s, w) p = p

module _ ⦃env : Env⦄ where
  validated :
      (w : World)
      → Lifted w
      → Outcome Lifted (λ _. Saved) (modify_ctx (λ c. record c { saved_config_valid = true }) w)
  unfolding modify_ctx
  validated w l = (inl l, refl)

  save_config-Saved : (w : World) → Lifted w → Outcome Lifted (λ _. Saved) (save_config w)
  unfolding save_config ◌>>◌
  save_config-Saved w l =
      get_ctx-Outcome Lifted (λ _. Saved) _ w
        (bind-Outcome Lifted (λ _. Saved) _ _ w (cfg_read_into-Flags Lifted-IsFlags _ _ _) l
          (λ r w1 l1.
            bind-Outcome Lifted (λ _. Saved) _ _ w1
              (Keeps-modify_ctx _ (saved_rule Lifted-IsFlags r.buffer)) l1
              (λ _ w2 l2. require-Outcome Lifted (λ _. Saved) _ _ _ w2 l2 (λ _. validated w2 l2))))

  Saved-once :
      (b : Bool) (w : World)
      → w.ctx.needs_hw_init ≡ b
      → Guarded w
      → Outcome Guarded (λ _. Saved) (when (not b) save_config w)
  unfolding when pure
  Saved-once true w e (inl l) = cc
  Saved-once true w e (inr s) = (inr s, s.valid)
  Saved-once false w e p = soften _ (save_config-Saved w e)

  command-Saved : Keeps Saved (
      read_command device_data_error >>= λ command.
      set_bus_data cfg_command (bit_or command cmd_parity) 2 >>= λ accepted.
      require accepted device_data_error)
  command-Saved = Keeps-bind _ _ (read_command-Flags Saved-IsFlags _) (λ c.
      Keeps-bind _ _ (Keeps-set_bus_data _ _ _ (event_rule Saved-IsFlags _))
        (λ a. Keeps-require a _))

  prepare_reset-Saved : (w : World) → Guarded w → Outcome Guarded (λ _. Saved) (prepare_reset w)
  unfolding prepare_reset ◌>>◌
  prepare_reset-Saved w p =
      bind-Outcome Guarded (λ _. Saved) _ _ w (device_present-Flags Guarded-IsFlags) p
        (λ present w1 p1.
          require-Outcome Guarded (λ _. Saved) _ _ _ w1 p1
            (λ _.
              get_ctx-Outcome Guarded (λ _. Saved) _ w1
                (tail-Outcome Guarded (λ _. Saved) (λ _. Saved) _ _ w1
                  (Saved-once w1.ctx.needs_hw_init w1 refl p1)
                  (λ _ w2 p2. kept _ (command-Saved.at w2 p2)))))

  fence-Saved : Overlooks Saved fence
  fence-Saved = record { at = λ w p. (same_flags w _ refl refl refl p.0, p.1) }

  carry-Saved : (file : Option ℕ) → Overlooks Saved (carry_forward file)
  carry-Saved none = record { at = λ w p. p }
  carry-Saved (some f) = record { at = λ w p. (same_flags w _ refl refl refl p.0, p.1) }

  restrict-Saved : Overlooks Saved restrict
  restrict-Saved = record {
    at = λ w p. (inr (record { needs = refl; valid = p.1; down = refl }), p.1);
  }

  event-Saved : (e : Event) → Ignores Saved e
  event-Saved = event_rule Saved-IsFlags

  commit_reset-Saved : (file : Option ℕ) → Keeps Saved (commit_reset file)
  unfolding commit_reset
  commit_reset-Saved file =
      search (keeps_rules, event-Saved, fence-Saved, carry-Saved, restrict-Saved) depth 20

  arming-Guarded : (file : Option ℕ) → Keeps Guarded (prepare_reset >> commit_reset file)
  unfolding ◌>>◌
  arming-Guarded file = record {
    at = λ w p. reached _ (
        tail-Outcome Guarded (λ _. Saved) (λ _. Saved) _ _ w (prepare_reset-Saved w p)
          (λ _ w1 p1. kept _ ((commit_reset-Saved file).at w1 p1)));
  }

  event-Guarded : (e : Event) → Ignores Guarded e
  event-Guarded = event_rule Guarded-IsFlags

  pub reset_device-Guarded : (r : Request ResetIn) → Keeps Guarded (reset_device r)
  unfolding reset_device
  reset_device-Guarded r = search (keeps_rules, event-Guarded, arming-Guarded) depth 20
