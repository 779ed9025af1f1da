-- ===== src/Machine/Run.antt =====
-- Commands over a machine: how a run of C code ends, the bind, and the primitives. The locks are
-- those of thread_locking.S.
use echelon_sbi.Base.{ℕ, ◌==◌, if◌then◌else◌, update, String, List, ◌∷◌}
use echelon_sbi.Machine.{
  Machine, CpuContext, HartCommand, Event, printed, fence_i, sfence_vma, stored,
}

-- `spin`: a wait for a word that only another hart changes. `idle`: `idle_loop`.
-- `switch`: `switch_context`. `delegate`: `s_delegation_trampoline`. None of them returns.
pub data Run (A : Type 0) : Type 0 where
  ok : A → Machine → Run A
  spin : Machine → Run A
  idle : Machine → Run A
  switch : (context : ℕ) → Machine → Run A
  delegate : (context cause stval : ℕ) → Machine → Run A

abbrev pub Cmd : Type 0 → Type 0
Cmd A = Machine → Run A

abbrev pub pure : {A : Type 0} → A → Cmd A
pure = ok

module _ {A B : Type 0} where
  abbrev pub and_then : Run A → (A → Cmd B) → Run B
  and_then (ok a m) k = k a m
  and_then (spin m) k = spin m
  and_then (idle m) k = idle m
  and_then (switch c m) k = switch c m
  and_then (delegate c cause stval m) k = delegate c cause stval m

  infixl 5 ◌>>=◌ ◌>>◌
  abbrev pub ◌>>=◌ : Cmd A → (A → Cmd B) → Cmd B
  m >>= k = λ s. and_then (m s) k

  abbrev pub ◌>>◌ : Cmd A → Cmd B → Cmd B
  m >> n = m >>= λ _. n

-- A read of the state, and a change of it.
abbrev pub read : {A : Type 0} → (Machine → A) → Cmd A
read f m = ok (f m) m

abbrev pub modify : (Machine → Machine) → Cmd (Unit {0})
modify f m = ok tt (f m)

abbrev pub emit : Event → Cmd (Unit {0})
emit e = modify λ m. record m { events = e ∷ m.events }

abbrev pub printm : String → List ℕ → Cmd (Unit {0})
printm format args = emit (printed format args)

abbrev pub cpu_fencei : Cmd (Unit {0})
cpu_fencei = emit fence_i

abbrev pub cpu_sfencevma : Cmd (Unit {0})
cpu_sfencevma = emit sfence_vma

abbrev pub store32 : (address value : ℕ) → Cmd (Unit {0})
store32 a v = emit (stored a v)

abbrev pub idle_loop : {A : Type 0} → Cmd A
idle_loop = idle

abbrev pub switch_context : {A : Type 0} → (context : ℕ) → Cmd A
switch_context = switch

abbrev pub s_delegation_trampoline : {A : Type 0} → (context cause stval : ℕ) → Cmd A
s_delegation_trampoline = delegate

-- `ksem_wait`: spin while the lock is not zero, then swap a one in; `ksem_post` stores a zero.
unfoldable pub ksem_wait_command : ℕ → Cmd (Unit {0})
ksem_wait_command h m =
    if m.hart_command_que_locks h == 0
    then ok tt (record m { hart_command_que_locks = update m.hart_command_que_locks h 1 })
    else spin m

unfoldable pub ksem_post_command : ℕ → Cmd (Unit {0})
ksem_post_command h =
    modify λ m. record m { hart_command_que_locks = update m.hart_command_que_locks h 0 }

unfoldable pub ksem_wait_hsm : ℕ → Cmd (Unit {0})
ksem_wait_hsm h m =
    if m.sbi_hsm_locks h == 0
    then ok tt (record m { sbi_hsm_locks = update m.sbi_hsm_locks h 1 })
    else spin m

unfoldable pub ksem_post_hsm : ℕ → Cmd (Unit {0})
ksem_post_hsm h = modify λ m. record m { sbi_hsm_locks = update m.sbi_hsm_locks h 0 }

-- `while (clint_hart_msip_ctls[h]) {}`
unfoldable pub wait_msip : ℕ → Cmd (Unit {0})
wait_msip h m = if m.msip h == 0 then ok tt m else spin m

abbrev pub set_msip : (h v : ℕ) → Cmd (Unit {0})
set_msip h v = modify λ m. record m { msip = update m.msip h v }

abbrev pub set_command : ℕ → HartCommand → Cmd (Unit {0})
set_command h c = modify λ m. record m { hart_commands = update m.hart_commands h c }

abbrev pub set_hsm_state : (h v : ℕ) → Cmd (Unit {0})
set_hsm_state h v = modify λ m. record m { sbi_hsm_states = update m.sbi_hsm_states h v }

abbrev pub set_context : ℕ → CpuContext → Cmd (Unit {0})
set_context p c = modify λ m. record m { contexts = update m.contexts p c }
