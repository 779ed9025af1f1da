-- ===== src/Trap/Exception/Spares.antt =====
-- What a supervisor call leaves of the contexts when it returns: the calls of base.c, time.c and hsm.c.
use echelon_sbi.Base.{ℕ, ◌≡◌, Bool, true, false, ◌==◌, if◌then◌else◌, ◌||◌, arith}
use echelon_sbi.Machine.{Config, Machine, CpuContext, HartCommand}
use echelon_sbi.Machine.Run.{
  Run, Cmd, ok, spin, idle, switch, delegate, and_then, ◌>>=◌, ◌>>◌, ksem_wait_command,
  ksem_post_command, wait_msip, ksem_wait_hsm, ksem_post_hsm,
}
use echelon_sbi.Machine.Csr.{csr_write, csr_bitset, csr_bitclr}
use echelon_sbi.HartCommand.{on_machine, send_hart_command_que}
use echelon_sbi.Sbi.BaseExtension.{sbi_get_spec_version, sbi_get_impl_id, sbi_probe_extension}
use echelon_sbi.Sbi.Time.{sbi_set_timer, set_mtimecmp, set_mtimecmphi}
use echelon_sbi.Sbi.HartState.{
  start_hart_locked, sbi_hart_start, sbi_hart_stop, sbi_hart_get_status, sbi_hart_suspend,
  suspend_default,
}
use echelon_sbi.Sbi.Codes.{sbi_hsm_started, sbi_hsm_start_pending, sbi_hsm_resume_pending}

abbrev pub Contexts : Type 0
Contexts = ℕ → CpuContext

-- A run that returns has the contexts `cs`.
abbrev pub Leaves : {A : Type 0} → Contexts → Run A → Type 0
Leaves cs (ok a m) = m.contexts ≡ cs
Leaves cs _ = Unit

abbrev pub Spares : {A : Type 0} → Cmd A → Type 0
Spares c = (m : Machine) (cs : Contexts) → m.contexts ≡ cs → Leaves cs (c m)

and_then-Leaves :
    {A B : Type 0} (cs : Contexts) (r : Run A) (k : A → Cmd B)
    → Leaves cs r
    → ((a : A) → Spares (k a))
    → Leaves cs (and_then r k)
and_then-Leaves cs (ok a m) k l next = next a m cs l
and_then-Leaves cs (spin m) k l next = tt
and_then-Leaves cs (idle m) k l next = tt
and_then-Leaves cs (switch p m) k l next = tt
and_then-Leaves cs (delegate p c v m) k l next = tt

pub if-Spares :
    {A : Type 0} (b : Bool) (x y : Cmd A) → Spares x → Spares y → Spares (if b then x else y)
if-Spares true x y p q = p
if-Spares false x y p q = q

pub send_hart_command_que-Spares :
    (h : ℕ) (c : HartCommand) → Spares (send_hart_command_que on_machine h c)
unfolding send_hart_command_que ksem_wait_command ksem_post_command wait_msip
send_hart_command_que-Spares h c m cs same = ground arith

pub sbi_get-Spares : Spares sbi_get_spec_version × Spares sbi_get_impl_id
unfolding sbi_get_spec_version sbi_get_impl_id
sbi_get-Spares = (λ m cs e. e, λ m cs e. e)

pub sbi_probe_extension-Spares : (e : ℕ) → Spares (sbi_probe_extension e)
unfolding sbi_probe_extension
sbi_probe_extension-Spares e m cs same = ground arith

pub sbi_set_timer-Spares : (t : ℕ) → Spares (sbi_set_timer t)
unfolding sbi_set_timer set_mtimecmp set_mtimecmphi csr_write csr_bitset csr_bitclr
sbi_set_timer-Spares t m cs same = ground arith

pub bind-Spares :
    {A B : Type 0} (x : Cmd A) (k : A → Cmd B)
    → Spares x
    → ((a : A) → Spares (k a))
    → Spares (x >>= k)
bind-Spares x k p next m cs same = and_then-Leaves cs (x m) k (p m cs same) next

ksem_wait_hsm-Spares : (h : ℕ) → Spares (ksem_wait_hsm h)
unfolding ksem_wait_hsm
ksem_wait_hsm-Spares h m cs same = ground arith

-- The start command goes out, and then the call returns.
send-Spares :
    {A : Type 0} (h : ℕ) (c : HartCommand) (a : A)
    → Spares (send_hart_command_que on_machine h c >> ok a)
send-Spares h c a =
    bind-Spares (send_hart_command_que on_machine h c) (λ _. ok a)
      (send_hart_command_que-Spares h c) λ _ m cs same. same

start_hart_locked-Spares : (h a o : ℕ) → Spares (start_hart_locked h a o)
unfolding start_hart_locked ksem_post_hsm
start_hart_locked-Spares h a o =
    bind-Spares (ksem_wait_hsm h) _ (ksem_wait_hsm-Spares h) λ _ m cs same.
      if-Spares
        (m.sbi_hsm_states h == sbi_hsm_started
          || m.sbi_hsm_states h == sbi_hsm_start_pending
          || m.sbi_hsm_states h == sbi_hsm_resume_pending)
        _ _ (λ m cs same. same) (λ m cs same. send-Spares h _ _ _ cs same) m cs same

pub sbi_hart_start-Spares : (c : Config) (h a o : ℕ) → Spares (sbi_hart_start c h a o)
unfolding sbi_hart_start
sbi_hart_start-Spares c h a o m cs same = ground (arith, start_hart_locked-Spares h a o m cs same)

pub sbi_hart_stop-Spares : Spares sbi_hart_stop
unfolding sbi_hart_stop ksem_wait_hsm ksem_post_hsm
sbi_hart_stop-Spares m cs same = ground arith

pub sbi_hart_get_status-Spares : (c : Config) (h : ℕ) → Spares (sbi_hart_get_status c h)
unfolding sbi_hart_get_status
sbi_hart_get_status-Spares c h m cs same = ground arith

pub sbi_hart_suspend-Spares : (c : Config) (t a o : ℕ) → Spares (sbi_hart_suspend c t a o)
unfolding sbi_hart_suspend suspend_default ksem_wait_hsm ksem_post_hsm
sbi_hart_suspend-Spares c t a o m cs same = ground arith
