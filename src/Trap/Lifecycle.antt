-- ===== src/Trap/Lifecycle.antt =====
-- A command from the sender's call to the receiver's handler: hsm.c and context_switch.c together.
use echelon_sbi.Base.{ℕ, ◌≡◌, ◌≢◌, ◌∙◌, true, update_self, update_ne, arith}
use mathlib.Core.Path.{subst}
use echelon_sbi.Machine.{Config, Machine, context_ptr, hartcmd_starthart}
use echelon_sbi.Machine.Run.{ok, switch}
use echelon_sbi.Sbi.Codes.{sbiret, sbi_success}
use echelon_sbi.Sbi.Valid.{is_valid_hartid, is_valid_phys_mem_addr}
use echelon_sbi.Sbi.HartMask.Deliver.{IsReady}
use echelon_sbi.Sbi.HartState.{sbi_hart_start}
use echelon_sbi.Sbi.HartState.Outcomes.{
  IsRunning, start_command, started_machine, sbi_hart_start_lem,
}
use echelon_sbi.Trap.Interrupt.{on_hart_command, interrupt_c_handler}
use echelon_sbi.Trap.Interrupt.Receive.{on_hart}
use echelon_sbi.Trap.Interrupt.Start.{IsStarted, on_starthart-IsStarted}

pub on_hart_command-start :
    (c : Config) (m : Machine)
    → (m.hart_commands m.mhartid).command ≡ hartcmd_starthart
    → m.sbi_hsm_locks m.mhartid ≡ 0
    → (m' : Machine) × (interrupt_c_handler c 3 m
        ≡ switch (context_ptr m.hart_contexts_user m.mhartid) m')
      × IsStarted m.mhartid (m.hart_commands m.mhartid) m m'
unfolding interrupt_c_handler on_hart_command
on_hart_command-start c m start free =
    let (m', run, done) = on_starthart-IsStarted c (m.hart_commands m.mhartid) m free in
    (m', ground (arith, run), done)

-- The state and the mailbox of a hart are as they were.
pub record SameHart (j : ℕ) (m m' : Machine) : Type 0 where
  pub state : m'.sbi_hsm_states j ≡ m.sbi_hsm_states j
  pub interrupt : m'.msip j ≡ m.msip j
  pub command : m'.hart_commands j ≡ m.hart_commands j

abbrev pub Starts : Config → (h start_addr opaque : ℕ) → Machine → Type 0
Starts c h start_addr opaque m =
    (m₁ : Machine) × (sbi_hart_start c h start_addr opaque m ≡ ok (sbiret sbi_success 0) m₁)
    × (m₂ : Machine) × (interrupt_c_handler c 3 (on_hart h m₁)
        ≡ switch (context_ptr m.hart_contexts_user h) m₂)
    × IsStarted h (start_command m.stack_command h start_addr opaque) (on_hart h m₁) m₂
    × ((j : ℕ) → j ≢ h → SameHart j m m₂)

-- A hart that sbi_hart_start starts does start. If the call meets its conditions (a valid other hart
-- in no running state, a valid address, the hart's state lock and mailbox free), it returns success,
-- and the software interrupt that it raises takes the target out of the machine mode handler to its
-- user context: supervisor mode at the given address, the hart id in a0, the opaque value in a1, every
-- other register zero. The target is then started, its lock and mailbox free, and the state, command and
-- interrupt of every other hart, the caller's included, are as they were before the call.
pub sbi_hart_start-IsStarted :
    (c : Config) (h start_addr opaque : ℕ) (m : Machine)
    → is_valid_hartid c h ≡ true
    → is_valid_phys_mem_addr c start_addr 2 ≡ true
    → h ≢ m.mhartid
    → m.sbi_hsm_locks h ≡ 0
    → ¬ IsRunning (m.sbi_hsm_states h)
    → IsReady h m
    → Starts c h start_addr opaque m
sbi_hart_start-IsStarted c h start_addr opaque m valid address other free stopped ready =
    let m₁ = started_machine m h start_addr opaque in
    let (m₂, run, done) = on_hart_command-start c (on_hart h m₁) (ground arith) (ground arith) in
    (
      m₁,
      sbi_hart_start_lem c h start_addr opaque m valid address other free stopped ready,
      m₂,
      run,
      subst (λ k. IsStarted h k (on_hart h m₁) m₂) (update_self m.hart_commands h _) done,
      λ j ne.
          let (state, interrupt, command) = done.others j ne in
          record {
            state = state ∙ update_ne m.sbi_hsm_states h _ j ne;
            interrupt = interrupt ∙ update_ne m.msip h 1 j ne;
            command = command ∙ update_ne m.hart_commands h _ j ne;
          },
    )
