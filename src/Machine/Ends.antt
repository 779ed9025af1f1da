-- ===== src/Machine/Ends.antt =====
-- Runs that return, and commands that touch only the CSRs, the timer flags and the events.
use echelon_sbi.Base.{ℕ, ◌≡◌, refl, Bool, true, false, if◌then◌else◌}
use echelon_sbi.Machine.{Machine}
use echelon_sbi.Machine.Run.{Run, Cmd, ok, switch, and_then}

pub data Ends {A : Type 0} (P : A → Machine → Type 0) : Run A → Type 0 where
  ends : {a : A} {m : Machine} → P a m → Ends P (ok a m)

pub Ends-run :
    {A : Type 0} {P : A → Machine → Type 0} {r : Run A}
    → Ends P r
    → (a : A) × (m : Machine) × (r ≡ ok a m) × P a m
Ends-run (ends {a} {m} p) = (a, m, refl, p)

pub bind :
    {A B : Type 0} {P : A → Machine → Type 0} {Q : B → Machine → Type 0} {r : Run A} {k : A → Cmd B}
    → Ends P r
    → ((a : A) (m : Machine) → P a m → Ends Q (k a m))
    → Ends Q (and_then r k)
bind (ends p) next = next _ _ p

-- Runs that leave for a context.
pub data Switches {A : Type 0} (P : ℕ → Machine → Type 0) : Run A → Type 0 where
  switches : {context : ℕ} {m : Machine} → P context m → Switches P (switch context m)

pub Switches-run :
    {A : Type 0} {P : ℕ → Machine → Type 0} {r : Run A}
    → Switches P r
    → (context : ℕ) × (m : Machine) × (r ≡ switch context m) × P context m
Switches-run (switches {context} {m} p) = (context, m, refl, p)

pub bind_switch :
    {A B : Type 0} {P : A → Machine → Type 0} {Q : ℕ → Machine → Type 0} {r : Run A} {k : A → Cmd B}
    → Ends P r
    → ((a : A) (m : Machine) → P a m → Switches Q (k a m))
    → Switches Q (and_then r k)
bind_switch (ends p) next = next _ _ p

-- `m` has the mailboxes, locks, states and contexts of `m₀`.
abbrev pub Keeps : Machine → Machine → Type 0
Keeps m₀ m =
    (m.mhartid ≡ m₀.mhartid)
    × (m.hart_commands ≡ m₀.hart_commands)
    × (m.msip ≡ m₀.msip)
    × (m.hart_command_que_locks ≡ m₀.hart_command_que_locks)
    × (m.sbi_hsm_locks ≡ m₀.sbi_hsm_locks)
    × (m.sbi_hsm_states ≡ m₀.sbi_hsm_states)
    × (m.contexts ≡ m₀.contexts)
    × (m.hart_contexts ≡ m₀.hart_contexts)
    × (m.hart_contexts_user ≡ m₀.hart_contexts_user)

abbrev pub IsQuiet : {A : Type 0} → Cmd A → Type 0
IsQuiet c = (m₀ m : Machine) → Keeps m₀ m → Ends (λ _ m'. Keeps m₀ m') (c m)

pub if-IsQuiet :
    {A : Type 0} (b : Bool) (x y : Cmd A) → IsQuiet x → IsQuiet y → IsQuiet (if b then x else y)
if-IsQuiet true x y p q = p
if-IsQuiet false x y p q = q
