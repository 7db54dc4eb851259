-- ===== src/Reset/Restored.antt =====
-- The config space that the restore leaves (driver/reset.c).
use tt_wind.Base.{
  ℕ, zero, suc, ◌+◌, ◌*◌, ◌/◌, ◌<◌, ◌≤◌, Bool, true, false, Option, none, some, List, [], ◌∷◌, ◌==◌,
  ◌&&◌, ◌≡◌, ◌≢◌, ◌⊎◌, refl, sym, subst, ◌∙◌, if◌then◌else◌, arith, Bool-cases, inl, inr, ==_iff,
}
use tt_wind.Status.{Result, ok, fail}
use tt_wind.Kernel.{Env, Log, cfg_write}
use tt_wind.Context.{World, pci_cfg_save_bytes}
use tt_wind.Monad.{and_then, ◌>>=◌, pure, set_bus_data, steps}
use tt_wind.Reset.Config.{cfg_command, saved_dword, restore_loop, restore_config}

-- The dword that was last written at the offset.
unfoldable pub written : Log → ℕ → Option ℕ
written [] o = none
written (cfg_write p v len ∷ l) o =
    let rest = written l o in if (p == o) && (len == 4) then some v else rest
written (_ ∷ l) o = written l o

module _ ⦃env : Env⦄ where
  -- The writes of the config space since `old`, and whether the bus took all of them.
  data Writes (old : Log) : Bool → Log → Type 0 where
    no_writes : Writes old true old
    write :
        {taken : Bool} {l : Log} (offset value len : ℕ)
        → Writes old taken l
        → Writes old (taken && env.bus_accepts l offset value len) (cfg_write offset value len ∷ l)

  skipped :
      (i k v : ℕ) (l : Log)
      → i ≢ k
      → written (cfg_write (i * 4) v 4 ∷ l) (k * 4) ≡ written l (k * 4)
  unfolding written
  skipped i k v l h = ground arith

  hit :
      (saved : List ℕ) (i k : ℕ) (l : Log)
      → i ≡ k
      → written (cfg_write (i * 4) (saved_dword saved i) 4 ∷ l) (k * 4) ≡ some (saved_dword saved k)
  unfolding written
  hit saved i k l e =
      subst
        (λ j.
          written (cfg_write (j * 4) (saved_dword saved j) 4 ∷ l) (k * 4)
          ≡ some (saved_dword saved k))
        (sym e) (same (saved_dword saved k))
    where
      same : (v : ℕ) → written (cfg_write (k * 4) v 4 ∷ l) (k * 4) ≡ some v
      same v = ground arith

  -- A dword outside the range, or the one of the command register, is left alone.
  passed :
      (left i : ℕ) (saved : List ℕ) (done : Bool) (w : World) (k : ℕ)
      → ((k < i) ⊎ (k ≡ cfg_command / 4))
      → written ((restore_loop left i saved done w).1.log) (k * 4) ≡ written w.log (k * 4)
  unfolding restore_loop steps
  passed zero i saved done w k h = refl
  passed (suc left) i saved done w k h = elim (Bool-cases (i == cfg_command / 4)) [
    | inl e ↦ rw e (passed left (i + 1) saved _ _ k (ground arith))
    | inr e ↦ rw e (passed left (i + 1) saved _ _ k (ground arith) ∙ skipped i k _ _ (ground arith))
  ]

  restored :
      (left i : ℕ) (saved : List ℕ) (done : Bool) (w : World) (k : ℕ)
      → i ≤ k
      → k < i + left
      → k ≢ cfg_command / 4
      → written ((restore_loop left i saved done w).1.log) (k * 4) ≡ some (saved_dword saved k)
  unfolding restore_loop steps
  restored zero i saved done w k l u n = absurd (omega arith)
  restored (suc left) i saved done w k l u n = elim (Bool-cases (i == cfg_command / 4)) [
    | inl e ↦ rw e (restored left (i + 1) saved _ _ k (ground arith) (omega arith) n)
    | inr e ↦ rw e (elim (Bool-cases (k == i)) [
      | inl f ↦ passed left (i + 1) saved _ _ k (ground arith) ∙ hit saved i k _ (ground arith)
      | inr f ↦ restored left (i + 1) saved _ _ k (ground arith) (omega arith) n
    ])
  ]

  still : {old : Log} {l : Log} (b : Bool) → Writes old b l → Writes old (b && true) l
  still true h = h
  still false h = h

  -- The loop ends with a Boolean, which says whether all its writes were taken.
  abbrev Reported : (old : Log) → Result Bool × World → Type 0
  Reported old (ok b, w) = Writes old b w.log
  Reported old (fail s, w) = ⊥

  reports :
      (left i : ℕ) (saved : List ℕ) (done : Bool) (old : Log) (w : World)
      → Writes old done w.log
      → Reported old (restore_loop left i saved done w)
  unfolding restore_loop steps
  reports zero i saved done old w h = h
  reports (suc left) i saved done old w h = elim (Bool-cases (i == cfg_command / 4)) [
    | inl e ↦ rw e (reports left (i + 1) saved _ old _ (still done h))
    | inr e ↦ rw e (reports left (i + 1) saved _ old _ (write _ _ _ h))
  ]

  loop_context :
      (left i : ℕ) (saved : List ℕ) (done : Bool) (w : World)
      → (restore_loop left i saved done w).1.ctx ≡ w.ctx
  unfolding restore_loop steps
  loop_context zero i saved done w = refl
  loop_context (suc left) i saved done w = elim (Bool-cases (i == cfg_command / 4)) [
    | inl e ↦ rw e (loop_context left (i + 1) saved _ _)
    | inr e ↦ rw e (loop_context left (i + 1) saved _ _)
  ]

  -- What the restore leaves, with the command register written once and last.
  pub record Restored (saved : List ℕ) (k : ℕ) (old : World) (r : Result Bool × World)
      : Type 0 where
    reported : Reported (old.log) r
    context : r.1.ctx ≡ old.ctx
    dword : written (r.1.log) (k * 4) ≡ some (saved_dword saved k)
    earlier : Log
    latest : r.1.log ≡ cfg_write cfg_command (saved_dword saved (cfg_command / 4)) 4 ∷ earlier
    untouched : written earlier cfg_command ≡ written (old.log) cfg_command

  finish :
      (saved : List ℕ) (k : ℕ) (w : World) (r : Result Bool × World)
      → Reported w.log r
      → r.1.ctx ≡ w.ctx
      → written (r.1.log) cfg_command ≡ written w.log cfg_command
      → ((k ≡ cfg_command / 4) ⊎ (written (r.1.log) (k * 4) ≡ some (saved_dword saved k)))
      → Restored saved k w (
          and_then r (λ done.
            set_bus_data cfg_command (saved_dword saved (cfg_command / 4)) 4 >>= λ accepted.
            pure (done && accepted)))
  unfolding steps
  finish saved k w (fail s, v) h c u d = absurd h
  finish saved k w (ok b, v) h c u d = record {
    reported = write _ _ _ h;
    context = c;
    dword = last d;
    earlier = v.log;
    latest = refl;
    untouched = u;
  }
    where
      last :
          ((k ≡ cfg_command / 4) ⊎ (written v.log (k * 4) ≡ some (saved_dword saved k)))
          → written
              (cfg_write (cfg_command / 4 * 4) (saved_dword saved (cfg_command / 4)) 4 ∷ v.log)
              (k * 4)
            ≡ some (saved_dword saved k)
      last (inl e) = hit saved (cfg_command / 4) k v.log (sym e)
      last (inr e) = elim (Bool-cases (k == cfg_command / 4)) [
        | inl f ↦ hit saved (cfg_command / 4) k v.log (ground arith)
        | inr f ↦ skipped (cfg_command / 4) k _ v.log (ground arith) ∙ e
      ]

  -- For every dword of the saved part of the config space: after the restore the dword that was
  -- last written at its offset is the saved one; the latest write is that of the command register,
  -- and the ones before it leave the command register alone; the context is as it was, and the
  -- restore ends with a Boolean that says whether the bus took every write.
  pub restore_config-restores :
      (saved : List ℕ) (w : World) (k : ℕ)
      → k < pci_cfg_save_bytes / 4
      → Restored saved k w (restore_config saved w)
  unfolding restore_config ◌>>=◌
  restore_config-restores saved w k h =
      finish saved k w _ (reports _ 0 saved true w.log w no_writes) (loop_context _ 0 saved true w)
        (passed _ 0 saved true w 1 (inr refl))
        (elim (Bool-cases (k == cfg_command / 4)) [
          | inl e ↦ inl ((==_iff k _).0 e)
          | inr e ↦ inr (restored _ 0 saved true w k (omega arith) h (ground arith))
        ])
