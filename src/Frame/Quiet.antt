-- ===== src/Frame/Quiet.antt =====
-- The device-memory accesses of a run, and the routines of the reset (driver/reset.c) that have
-- none or that keep the restriction.
use tt_wind.Base.{ℕ, Bool, true, false, Option, none, some, List, [], ◌∷◌, ◌≡◌, refl, ◌∙◌}
use tt_wind.Status.{Status}
use tt_wind.Kernel.{
  Event, Log, Env, mmio_read, mmio_write, cfg_read, cfg_write, ram_write, stall, acquire, release,
  os, Lock, OsCall,
}
use tt_wind.Context.{Context, World}
use tt_wind.Monad.Keeps.{Keeps, Ignores, Overlooks, Keeps-get_ctx, keeps_rules}
use tt_wind.Request.{Request, ResetIn}
use tt_wind.Reset.Config.{cfg_read_into, device_present, read_command}
use tt_wind.Reset.Arm.{
  save_config, prepare_reset, commit_reset, reset_device, fence, carry_forward, restrict,
}

-- Accesses to mapped device memory, BAR registers and windows.
abbrev pub is_mmio : Event → Bool
is_mmio (mmio_read r o) = true
is_mmio (mmio_write r o v) = true
is_mmio _ = false

unfoldable pub mmio_log : Log → Log
mmio_log [] = []
mmio_log (mmio_read r o ∷ es) = mmio_read r o ∷ mmio_log es
mmio_log (mmio_write r o v ∷ es) = mmio_write r o v ∷ mmio_log es
mmio_log (cfg_read o n ∷ es) = mmio_log es
mmio_log (cfg_write o v n ∷ es) = mmio_log es
mmio_log (ram_write o v ∷ es) = mmio_log es
mmio_log (stall t ∷ es) = mmio_log es
mmio_log (acquire l ∷ es) = mmio_log es
mmio_log (release l ∷ es) = mmio_log es
mmio_log (os c ∷ es) = mmio_log es

-- A property of the world that depends on the accesses and the restriction alone.
pub record IsDark {ℓ} (P : World → Type ℓ) : Type ℓ where
  pub silent : (w : World) (e : Event) → is_mmio e ≡ false → P w → P (record w { log = e ∷ w.log })
  pub contexts :
      (w : World) (c : Context)
      → c.needs_hw_init ≡ w.ctx.needs_hw_init
      → P w
      → P (record w { ctx = c })
  pub restricts :
      (w : World) (c : Context) → c.needs_hw_init ≡ true → P w → P (record w { ctx = c })

module _ ⦃env : Env⦄ {P : World → Type 0} (k : IsDark P) where
  pub cfg_read_rule : (o n : ℕ) → Ignores P (cfg_read o n)
  cfg_read_rule o n = record { at = λ w p. k.silent w _ refl p }

  pub cfg_write_rule : (o v n : ℕ) → Ignores P (cfg_write o v n)
  cfg_write_rule o v n = record { at = λ w p. k.silent w _ refl p }

  pub acquire_rule : (l : Lock) → Ignores P (acquire l)
  acquire_rule l = record { at = λ w p. k.silent w _ refl p }

  pub release_rule : (l : Lock) → Ignores P (release l)
  release_rule l = record { at = λ w p. k.silent w _ refl p }

  pub os_rule : (c : OsCall) → Ignores P (os c)
  os_rule l = record { at = λ w p. k.silent w _ refl p }

  pub saved_rule : (s : List ℕ) → Overlooks P (λ c. record c { saved_config = s })
  saved_rule s = record { at = λ w p. k.contexts w _ refl p }

  pub valid_rule : (b : Bool) → Overlooks P (λ c. record c { saved_config_valid = b })
  valid_rule b = record { at = λ w p. k.contexts w _ refl p }

  pub fence_rule : Overlooks P fence
  fence_rule = record { at = λ w p. k.contexts w _ refl p }

  pub carry_rule : (file : Option ℕ) → Overlooks P (carry_forward file)
  carry_rule none = record { at = λ w p. k.contexts w _ refl p }
  carry_rule (some f) = record { at = λ w p. k.contexts w _ refl p }

  pub restrict_rule : Overlooks P restrict
  restrict_rule = record { at = λ w p. k.restricts w _ refl p }

  pub ruleset quiet_rules = (
    keeps_rules, cfg_read_rule, cfg_write_rule, acquire_rule, release_rule, os_rule, saved_rule,
    valid_rule, fence_rule, carry_rule, restrict_rule,
  )

  pub cfg_read_into-Keeps : (o : ℕ) (b : List ℕ) (n : ℕ) → Keeps P (cfg_read_into o b n)
  unfolding cfg_read_into
  cfg_read_into-Keeps o b n = search quiet_rules depth 10

  pub device_present-Keeps : Keeps P device_present
  unfolding device_present cfg_read_into
  device_present-Keeps = search quiet_rules depth 10

  pub read_command-Keeps : (s : Status) → Keeps P (read_command s)
  unfolding read_command cfg_read_into
  read_command-Keeps s = search quiet_rules depth 10

  save_config-Keeps : Keeps P save_config
  unfolding save_config cfg_read_into
  save_config-Keeps = search quiet_rules depth 12

  prepare_reset-Keeps : Keeps P prepare_reset
  unfolding prepare_reset
  prepare_reset-Keeps =
      search (quiet_rules, device_present-Keeps, read_command-Keeps, save_config-Keeps) depth 14

  commit_reset-Keeps : (file : Option ℕ) → Keeps P (commit_reset file)
  unfolding commit_reset
  commit_reset-Keeps file = search quiet_rules depth 14

  pub reset_device-Keeps : (req : Request ResetIn) → Keeps P (reset_device req)
  unfolding reset_device
  reset_device-Keeps req = search (quiet_rules, prepare_reset-Keeps, commit_reset-Keeps) depth 18

-- The part of a world that IsDark looks at.
abbrev pub Dark : Log → World → Type 0
Dark l w = (mmio_log w.log ≡ l) × (w.ctx.needs_hw_init ≡ true)

abbrev pub Quiet : Log → World → Type 0
Quiet l w = mmio_log w.log ≡ l

abbrev pub Restricted : World → Type 0
Restricted w = w.ctx.needs_hw_init ≡ true

mmio_log-silent : (e : Event) (l : Log) → is_mmio e ≡ false → mmio_log (e ∷ l) ≡ mmio_log l
unfolding mmio_log
mmio_log-silent (mmio_read r o) l h = cc
mmio_log-silent (mmio_write r o v) l h = cc
mmio_log-silent (cfg_read o n) l h = refl
mmio_log-silent (cfg_write o v n) l h = refl
mmio_log-silent (ram_write o v) l h = refl
mmio_log-silent (stall t) l h = refl
mmio_log-silent (acquire k) l h = refl
mmio_log-silent (release k) l h = refl
mmio_log-silent (os c) l h = refl

pub Quiet-IsDark : (l : Log) → IsDark (Quiet l)
Quiet-IsDark l = record {
  silent = λ w e s p. mmio_log-silent e w.log s ∙ p;
  contexts = λ w c s p. p;
  restricts = λ w c s p. p;
}

pub Dark-IsDark : (l : Log) → IsDark (Dark l)
Dark-IsDark l = record {
  silent = λ w e s p. (mmio_log-silent e w.log s ∙ p.0, p.1);
  contexts = λ w c s p. (p.0, s ∙ p.1);
  restricts = λ w c s p. (p.0, s);
}

pub Restricted-IsDark : IsDark Restricted
Restricted-IsDark = record {
  silent = λ w e s p. p;
  contexts = λ w c s p. s ∙ p;
  restricts = λ w c s p. s;
}
