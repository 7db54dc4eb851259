-- ===== src/System/Fenced.antt =====
-- A handle that is older than the reset generation (driver/reset.c, driver/queue.c): what the
-- routines leave of the generations.
pub mod Routines
pub mod Ioctls
pub mod Callbacks
use tt_wind.Base.{
  ℕ, ◌+◌, ◌^◌, ◌≤◌, ◌<◌, Bool, true, false, Option, none, some, ◌≡◌, ap, ◌==◌, is_some_of, u64,
  arith, update,
}
use tt_wind.Status.{Result, ok, fail}
use tt_wind.Kernel.{Env, Event, Lock, acquire, release}
use tt_wind.Context.{World}
use tt_wind.Monad.{M, and_then, ◌>>=◌, ◌>>◌, modify_ctx, with_lock, emit, attempt, from_result}
use tt_wind.Monad.Keeps.{Keeps, Ignores, Overlooks, keeps_rules, Keeps-seq, Keeps-modify_ctx}
use tt_wind.Monad.Moves.{Shifts}
use tt_wind.Frame.Firmware.{IsControl}
use tt_wind.Reset.Arm.{fence, carry_forward, restrict, commit_reset}
use tt_wind.System.Flags.{IsFlags}

-- The handle's generation is below the reset generation, which is at most `n`.
abbrev pub Older : (file n : ℕ) → World → Type 0
Older file n w =
    (w.ctx.file_generation file < w.ctx.reset_generation) × (w.ctx.reset_generation ≤ n)

module _ (file n : ℕ) where
  pub Older-IsFlags : IsFlags (Older file n)
  Older-IsFlags = record {
    events = λ w e p. p;
    contexts =
        λ w c m v d g t p. (omega (arith, g, ap (λ h. h file) t, p.0), omega (arith, g, p.1));
    unverified =
        λ w c m v d g t p. (omega (arith, g, ap (λ h. h file) t, p.0), omega (arith, g, p.1));
  }

  pub Older-IsControl : IsControl (Older file n)
  Older-IsControl = record {
    events = λ e h. record { at = λ w p. p };
    routes = λ r. record { at = λ w p. p };
    sysmems = λ f. record { at = λ w p. p };
  }

  pub Older-event : (e : Event) → Ignores (Older file n) e
  Older-event e = record { at = λ w p. p }

  pub later_bound : (w : World) → Older file n w → Older file (n + 1) w
  later_bound w p = (p.0, omega (arith, p.1))

module _ {Q : World → Type 0} where
  keep_after :
      {A B : Type 0} (r : Result A × World) (f : A → M B)
      → Q r.1
      → ((a : A) → Keeps Q (f a))
      → Q (and_then r f).1
  unfolding and_then
  keep_after (ok a, w) f q k = (k a).at w q
  keep_after (fail s, w) f q k = q

  unlocked :
      {A : Type 0} (l : Lock) (r : Result A × World)
      → Ignores Q (release l)
      → Q r.1
      → Q (and_then (ok r.0, r.1) (λ x. emit (release l) >> from_result x)).1
  unfolding and_then emit from_result ◌>>◌ ◌>>=◌
  unlocked l (ok a, w) i q = i.at w q
  unlocked l (fail s, w) i q = i.at w q

-- A routine after one that keeps `P`, and one before some that keep `Q`.
module _ {P Q : World → Type 0} where
  shift_after :
      {A B : Type 0} (r : Result A × World) (f : A → M B)
      → ((w : World) → P w → Q w)
      → P r.1
      → ((a : A) → Shifts P Q (f a))
      → Q (and_then r f).1
  unfolding and_then
  shift_after (ok a, w) f i p k = (k a).at w p
  shift_after (fail s, w) f i p k = i w p

  pub Shifts-after :
      {A B : Type 0} (m : M A) (f : A → M B)
      → ((w : World) → P w → Q w)
      → Keeps P m
      → ((a : A) → Shifts P Q (f a))
      → Shifts P Q (m >>= f)
  unfolding ◌>>=◌
  Shifts-after m f i h k = record { at = λ w p. shift_after (m w) f i (h.at w p) k }

  pub Shifts-before :
      {A B : Type 0} (m : M A) (f : A → M B)
      → Shifts P Q m
      → ((a : A) → Keeps Q (f a))
      → Shifts P Q (m >>= f)
  unfolding ◌>>=◌
  Shifts-before m f h k = record { at = λ w p. keep_after (m w) f (h.at w p) k }

  pub Shifts-with_lock :
      {A : Type 0} (l : Lock) (m : M A)
      → Ignores P (acquire l)
      → Ignores Q (release l)
      → Shifts P Q m
      → Shifts P Q (with_lock l m)
  unfolding with_lock ◌>>◌ ◌>>=◌ and_then emit attempt
  Shifts-with_lock l m ip iq h = record { at = λ w p. unlocked l (m _) iq (h.at _ (ip.at w p)) }

module _ ⦃env : Env⦄ (file n : ℕ) (top : n + 1 < 2 ^ 64) where
  raised : Shifts (Older file n) (Older file (n + 1)) (modify_ctx fence)
  unfolding modify_ctx
  raised = record { at = λ w p. (omega (arith, p.0, p.1, top), omega (arith, p.0, p.1, top)) }

  carried :
      (holder : Option ℕ)
      → is_some_of file holder ≡ false
      → Overlooks (Older file (n + 1)) (carry_forward holder)
  carried none h = record { at = λ w p. p }
  carried (some r) h = record { at = λ w p. (ground (arith, p.0), p.1) }

  restricted : Overlooks (Older file (n + 1)) restrict
  restricted = record { at = λ w p. p }

  -- The fence raises the generation, and the handle that is carried forward is another one.
  pub commit_reset-Older :
      (holder : Option ℕ)
      → is_some_of file holder ≡ false
      → Shifts (Older file n) (Older file (n + 1)) (commit_reset holder)
  unfolding commit_reset ◌>>◌
  commit_reset-Older holder h =
      Shifts-before _ _
        (Shifts-with_lock _ _ (Older-event file n _) (Older-event file (n + 1) _) raised)
        (λ _. Keeps-seq _ _ (Keeps-modify_ctx _ (carried holder h)) (
          Keeps-seq _ _ (Keeps-modify_ctx _ restricted)
            (search (keeps_rules, Older-event file (n + 1)) depth 12)))
