-- ===== src/Reset/Back.antt =====
-- A card that is back after a reset, and what POST_RESET finds on it (driver/reset.c).
use tt_wind.Base.{
  ℕ, zero, suc, ◌+◌, ◌*◌, ◌<◌, ◌/◌, ◌%◌, ◌^◌, Bool, true, false, Option, none, some, List, [], ◌∷◌,
  ◌==◌, ◌&&◌, ◌≡◌, refl, if◌then◌else◌, arith, Bool-cases, inl, inr, bit_and, word16, ==_iff,
}
use tt_wind.Status.{Result, ok, device_does_not_exist, device_busy}
use tt_wind.Kernel.{Env, Event, Log, tlb_regs, mmio_read, mmio_write, cfg_write}
use tt_wind.Context.{World, pci_cfg_save_bytes}
use tt_wind.Monad.{
  require, modify_ctx, steps, read_reg, write_reg, get_bus_data, set_bus_data, ◌>>=◌, pure,
}
use tt_wind.Monad.Outcome.{Outcome, tail-Outcome, get_ctx-Outcome, met-Outcome}
use tt_wind.Tlb.Pack.{pack_tlb_2m, put_field}
use tt_wind.Tlb.Program.{program_tlb_2m, kernel_tlb_sanity_check}
use tt_wind.Reset.Config.{
  cfg_vendor_id, cfg_command, cmd_parity, cfg_read_into, device_present, read_command, restore_loop,
  restore_config, saved_dword,
}
use tt_wind.Reset.Recover.{await_device, restore_saved}

abbrev pub is_config_write : Event → Bool
is_config_write (cfg_write o v n) = true
is_config_write _ = false

-- The log since `old`, in which the config space was not written.
pub data Since (old : Log) : Log → Type 0 where
  here : Since old old
  later : (e : Event) (l : Log) → is_config_write e ≡ false → Since old l → Since old (e ∷ l)

-- The value last written to a TLB register.
unfoldable pub register : Log → ℕ → Option ℕ
register [] o = none
register (mmio_write tlb_regs p v ∷ l) o =
    let rest = register l o in if p == o then some v else rest
register (_ ∷ l) o = register l o

-- The vendor is a word of 16 bits; the card answers in config space with its vendor and without the marker until config space is
-- written, the bus takes every write, and the TLB registers read back what was written to them.
pub record IsBack (env : Env) (vendor : ℕ) (old : Log) : Type 0 where
  pub fits : vendor < 2 ^ 16
  pub present :
      (l : Log)
      → Since old l
      → env.bus_data l cfg_vendor_id 2 ≡ vendor % 2 ^ 8 ∷ vendor / 2 ^ 8 ∷ []
  pub low : ℕ
  pub high : ℕ
  pub command : (l : Log) → Since old l → env.bus_data l cfg_command 2 ≡ low ∷ high ∷ []
  pub unmarked : bit_and (word16 (low ∷ high ∷ []) 0) cmd_parity ≡ 0
  pub accepts : (l : Log) (o v n : ℕ) → env.bus_accepts l o v n ≡ true
  pub reads : (l : Log) (o v : ℕ) → register l o ≡ some v → env.mmio_value l tlb_regs o ≡ v

module _ ⦃env : Env⦄ {vendor : ℕ} {old : Log} (back : IsBack env vendor old) where
  -- Nothing is claimed of the world.
  abbrev pub Ran : {A : Type 0} → Result A × World → Type 0
  Ran r = Outcome (λ w. ⊥) (λ a w. Unit {0}) r

  abbrev Took : Result Bool × World → Type 0
  Took r = Outcome (λ w. ⊥) (λ b w. b ≡ true) r

  present-Took :
      (w : World)
      → Since old w.log
      → w.ctx.identity.vendor_id ≡ vendor
      → Outcome (λ v. ⊥) (λ b v. (b ≡ true) × Since old v.log) (device_present w)
  unfolding device_present cfg_read_into get_bus_data steps
  present-Took w s e = rw (back.present w.log s) (
    (==_iff (word16 (vendor % 2 ^ 8 ∷ vendor / 2 ^ 8 ∷ []) 0) _).1 (omega (arith, back.fits, e)),
    later _ _ refl s,
  )

  marker_read-Ran :
      (w : World)
      → Since old w.log
      → Ran (
          (read_command device_does_not_exist >>= λ command.
          require (bit_and command cmd_parity == 0) device_busy)
            w)
  unfolding read_command cfg_read_into get_bus_data steps
  marker_read-Ran w s = rw (back.command w.log s, back.unmarked) tt

  pub await_device-Ran :
      (w : World) → Since old w.log → w.ctx.identity.vendor_id ≡ vendor → Ran (await_device w)
  unfolding await_device
  await_device-Ran w s e =
      tail-Outcome _ _ (λ b v. (b ≡ true) × Since old v.log) _ _ w (present-Took w s e)
        (λ b v q. met-Outcome _ _ b _ _ v q.0 (marker_read-Ran v q.1))

  restore_loop-Took :
      (left i : ℕ) (saved : List ℕ) (w : World) → Took (restore_loop left i saved true w)
  unfolding restore_loop set_bus_data steps
  restore_loop-Took zero i saved w = refl
  restore_loop-Took (suc left) i saved w = elim (Bool-cases (i == cfg_command / 4)) [
    | inl e ↦ rw e (restore_loop-Took left (i + 1) saved _)
    | inr e ↦
        rw (e, back.accepts w.log (i * 4) (saved_dword saved i) 4)
          (restore_loop-Took left (i + 1) saved _)
  ]

  command_written-Took :
      (done : Bool) (value : ℕ) (w : World)
      → done ≡ true
      → Took ((set_bus_data cfg_command value 4 >>= λ accepted. pure (done && accepted)) w)
  unfolding set_bus_data steps
  command_written-Took done value w e = rw (e, back.accepts w.log cfg_command value 4) refl

  restore_config-Took : (saved : List ℕ) (w : World) → Took (restore_config saved w)
  unfolding restore_config
  restore_config-Took saved w =
      tail-Outcome _ _ (λ b v. b ≡ true) _ _ w (restore_loop-Took _ 0 saved w)
        (λ b v q. command_written-Took b _ v q)

  saved_again-Ran :
      (buffer : List ℕ) (w : World)
      → Ran (
          (cfg_read_into 0 buffer pci_cfg_save_bytes >>= λ r.
          modify_ctx (λ c. record c { saved_config = r.buffer }))
            w)
  unfolding cfg_read_into get_bus_data steps
  saved_again-Ran buffer w = tt

  pub restore_saved-Ran : (w : World) → Ran (restore_saved w)
  unfolding restore_saved
  restore_saved-Ran w = get_ctx-Outcome _ _ _ w (
      tail-Outcome _ _ (λ b v. b ≡ true) _ _ w (restore_config-Took _ w)
        (λ b v q. met-Outcome _ _ b _ _ v q (saved_again-Ran _ v)))

  pub sanity_check-passes : (w : World) → (kernel_tlb_sanity_check w).0 ≡ ok tt
  unfolding kernel_tlb_sanity_check program_tlb_2m pack_tlb_2m put_field steps read_reg write_reg
      register
  sanity_check-passes w =
      rw
        (back.reads
          (mmio_write tlb_regs 2420 64
            ∷ mmio_write tlb_regs 2416 16384
            ∷ mmio_write tlb_regs 2412 0
            ∷ w.log)
          2412 0 refl)
        (rw
          (back.reads
            (mmio_read tlb_regs 2412
              ∷ mmio_write tlb_regs 2420 64
              ∷ mmio_write tlb_regs 2416 16384
              ∷ mmio_write tlb_regs 2412 0
              ∷ w.log)
            2416 16384 refl)
          (rw
            (back.reads
              (mmio_read tlb_regs 2416
                ∷ mmio_read tlb_regs 2412
                ∷ mmio_write tlb_regs 2420 64
                ∷ mmio_write tlb_regs 2416 16384
                ∷ mmio_write tlb_regs 2412 0
                ∷ w.log)
              2420 64 refl)
            refl))
