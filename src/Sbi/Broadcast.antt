-- ===== src/Sbi/Broadcast.antt =====
-- sbi_send_ipi and the remote fences (sbi_commands/ipi.c, sbi_commands/rfnc.c) over a whole mask.
pub mod Calls
use mathlib.Core.Path.{subst}
use echelon_sbi.Base.{
  ℕ, ◌^◌, ◌<◌, ◌≡◌, refl, ◌≢◌, ◌⊎◌, inl, inr, Bool, true, false, Bool-cases, not, update, bit_or,
  ◌∷◌, [], if◌then◌else◌, ◌==◌, arith,
}
use echelon_sbi.Machine.{
  Config, Machine, HartCommand, printed, fence_i, sfence_vma, hartcmd_smode_softint,
  hartcmd_remote_fence_i, hartcmd_remote_sfence_vma, hartcmd_remote_sfence_vma_asid,
}
use echelon_sbi.Machine.Run.{Cmd, ok, ◌>>=◌, ◌>>◌, pure, and_then, cpu_fencei, cpu_sfencevma}
use echelon_sbi.Machine.Csr.{csr_bitset, with_csr, csr_mip}
use echelon_sbi.Sbi.Codes.{SbiRet, sbiret, sbi_success, sbi_err_invalid_param}
use echelon_sbi.Sbi.Valid.{is_valid_hartid}
use echelon_sbi.Sbi.HartMask.{xlen, effective_mask, effective_base, check_loop, action_loop}
use echelon_sbi.Sbi.HartMask.Select.{Selects, selects, selects_iff, check_loop_iff}
use echelon_sbi.Sbi.HartMask.Deliver.{
  IsReady, signal, Raise, IsLocal, Delivered, remote, action_loop-Delivered,
}
use echelon_sbi.Sbi.Ipi.{send_ipi_to, sbi_send_ipi}
use echelon_sbi.Sbi.RemoteFence.{
  remote_fence_i_on, sbi_remote_fence_i, remote_sfence_vma_on, sbi_remote_sfence_vma,
  remote_sfence_vma_asid_on, sbi_remote_sfence_vma_asid,
}

-- The harts that a call names, with a base of -1 for all.
abbrev pub Names : Config → (mask base h : ℕ) → Type 0
Names c mask base h = Selects xlen (effective_mask c mask base) (effective_base c base) h

-- The other named harts have the command in their mailboxes and the interrupt raised; no other
-- mailbox and no lock has changed; the CSRs have, by `raise`, exactly if the caller is named.
pub record IsBroadcast (c : Config) (mask base : ℕ) (raise : Raise)
    (build : HartCommand → ℕ → HartCommand) (m m' : Machine) : Type 0 where
  pub sent :
      (h : ℕ)
      → Names c mask base h
      → h ≢ m.mhartid
      → (m'.hart_commands h ≡ build m.stack_command h) × (m'.msip h ≡ 1)
  pub spared :
      (h : ℕ)
      → ¬ Names c mask base h ⊎ (h ≡ m.mhartid)
      → (m'.hart_commands h ≡ m.hart_commands h) × (m'.msip h ≡ m.msip h)
  pub raised : Names c mask base m.mhartid → m'.csr ≡ raise m.mhartid m.csr
  pub kept : ¬ Names c mask base m.mhartid → m'.csr ≡ m.csr
  pub locks : (h : ℕ) → m'.hart_command_que_locks h ≡ m.hart_command_que_locks h

not_selects : (n mask base h : ℕ) → ¬ Selects n mask base h → selects n 0 mask base h ≡ false
not_selects n mask base h none = elim (Bool-cases (selects n 0 mask base h)) [
  | inl some ↦ absurd (none ((selects_iff n mask base h).0 some))
  | inr free ↦ free
]

remote-true :
    (mask base self h : ℕ)
    → Selects xlen mask base h
    → h ≢ self
    → remote xlen 0 mask base self h ≡ true
remote-true mask base self h s ne = ground (arith, (selects_iff xlen mask base h).1 s)

remote-false :
    (mask base self h : ℕ)
    → ¬ Selects xlen mask base h ⊎ (h ≡ self)
    → remote xlen 0 mask base self h ≡ false
remote-false mask base self h (inl none) = ground (arith, not_selects xlen mask base h none)
remote-false mask base self h (inr same) = ground arith

module _ (c : Config) (mask base : ℕ) where
  -- Every other named hart can be sent a command without waiting.
  abbrev pub AllReady : Machine → Type 0
  AllReady m = (h : ℕ) → Names c mask base h → h ≢ m.mhartid → IsReady h m

  abbrev pub AllValid : Type 0
  AllValid = (h : ℕ) → Names c mask base h → is_valid_hartid c h ≡ true

  pub check_passes :
      AllValid → check_loop c xlen 0 (effective_mask c mask base) (effective_base c base) ≡ true
  check_passes valid = (check_loop_iff c xlen _ _).1 valid

  pub check_fails :
      (h : ℕ)
      → Names c mask base h
      → is_valid_hartid c h ≡ false
      → check_loop c xlen 0 (effective_mask c mask base) (effective_base c base) ≡ false
  check_fails h s bad =
      elim (Bool-cases (check_loop c xlen 0 (effective_mask c mask base) (effective_base c base))) [
        | inl passed ↦ cc ((check_loop_iff c xlen _ _).0 passed h s)
        | inr failed ↦ failed
      ]

module _ (c : Config) (mask base : ℕ) (raise : Raise) (build : HartCommand → ℕ → HartCommand) where
  abbrev named : ℕ → Bool
  named h = selects xlen 0 (effective_mask c mask base) (effective_base c base) h

  abbrev others : (self h : ℕ) → Bool
  others self h = remote xlen 0 (effective_mask c mask base) (effective_base c base) self h

  Delivered-IsBroadcast :
      (m m' : Machine)
      → Delivered raise build (named m.mhartid) (others m.mhartid) m m'
      → IsBroadcast c mask base raise build m m'
  Delivered-IsBroadcast m m' d = record {
    sent = λ h s ne. ground (arith, d.commands h, d.msip h, remote-true _ _ m.mhartid h s ne);
    spared = λ h free. ground (arith, d.commands h, d.msip h, remote-false _ _ m.mhartid h free);
    raised = λ s. ground (arith, d.csr, (selects_iff xlen _ _ m.mhartid).1 s);
    kept = λ none. ground (arith, d.csr, not_selects xlen _ _ m.mhartid none);
    locks = d.locks;
  }

  pub loop-IsBroadcast :
      (here : Cmd (Unit {0})) (after : Machine → Machine) (m : Machine)
      → IsLocal here after raise
      → AllReady c mask base m
      → (m' : Machine) × (action_loop
            (signal here build)
            xlen
            0
            (effective_mask c mask base)
            (effective_base c base)
            m
          ≡ ok tt m')
        × IsBroadcast c mask base raise build m m'
  loop-IsBroadcast here after m loc ready =
      let (m', run, d) =
        action_loop-Delivered here after raise build loc xlen 0 (effective_mask c mask base)
          (effective_base c base) m.mhartid m (omega arith) refl
          (λ h e. ready h ((selects_iff xlen _ _ h).0 (ground arith)) (ground arith)) in
      (m', run, Delivered-IsBroadcast m m' d)
