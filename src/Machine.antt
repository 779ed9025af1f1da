-- ===== src/Machine.antt =====
-- The state that the firmware's handlers share: the globals of main.c, context_switch.c and hsm.c,
-- the CLINT's registers, and each hart's CSRs and thread-local variables (main.h, inc/memmap,
-- interrupts/context_switch.h). A handler is a command over it, run by hart `mhartid`.
pub mod Run
pub mod Csr
pub mod Ends
use echelon_sbi.Base.{ℕ, ◌+◌, ◌*◌, String, List}

-- `#ifdef MM_CUSTOM_EMU`, `#ifdef MM_QEMU_VIRT`
pub data Board : Type 0 where
  custom_emu qemu_virt : Board

-- The macros of main.h, and the board of the build.
pub record Config : Type 0 where
  pub total_hart_count : ℕ
  pub use_hart_count : ℕ
  pub memory_base : ℕ
  pub memory_available : ℕ
  pub board : Board

-- `CPU_Context`; registers are words, and `regs 0` is the program counter.
pub record CpuContext : Type 0 where
  pub context_id : ℕ
  pub execution_mode : ℕ
  pub reserved_0 : ℕ
  pub regs : ℕ → ℕ

-- `Hart_Command`
pub record HartCommand : Type 0 where
  pub command : ℕ
  pub param0 : ℕ
  pub param1 : ℕ
  pub param2 : ℕ
  pub param3 : ℕ
  pub param4 : ℕ
  pub param5 : ℕ

-- `sizeof(CPU_Context)`: 35 words. The pointer `base + i` into an array of contexts.
abbrev pub ct_size : ℕ
ct_size = 140

abbrev pub context_ptr : (base i : ℕ) → ℕ
context_ptr base i = base + i * ct_size

-- What a handler does that leaves no trace in memory, and the stores to device registers.
pub data Event : Type 0 where
  printed : String → List ℕ → Event
  fence_i : Event
  sfence_vma : Event
  stored : (address value : ℕ) → Event

pub record Machine : Type 0 where
  pub mhartid : ℕ
  -- `__thread` variables, by hart
  pub hart_has_menvcfg : ℕ → ℕ
  pub hart_using_ext_sstc : ℕ → ℕ
  -- CSRs, by hart and number
  pub csr : ℕ → ℕ → ℕ
  -- CLINT
  pub msip : ℕ → ℕ
  pub mtimecmp : ℕ → ℕ
  pub mtimecmphi : ℕ → ℕ
  -- memory: 32-bit words by address
  pub word_at : ℕ → ℕ
  -- globals, by hart
  pub hart_commands : ℕ → HartCommand
  pub hart_command_que_locks : ℕ → ℕ
  pub sbi_hsm_locks : ℕ → ℕ
  pub sbi_hsm_states : ℕ → ℕ
  -- the contexts in memory, by address, and the globals that point to the first of an array
  pub contexts : ℕ → CpuContext
  pub hart_contexts : ℕ
  pub hart_contexts_exception : ℕ
  pub hart_contexts_user : ℕ
  pub kernel_load_to_point : ℕ
  -- what an uninitialised `Hart_Command` on the stack holds
  pub stack_command : HartCommand
  -- newest first
  pub events : List Event

abbrev pub reg_pc : ℕ
reg_pc = 0

abbrev pub reg_a0 : ℕ
reg_a0 = 10

abbrev pub reg_a1 : ℕ
reg_a1 = 11

abbrev pub reg_a2 : ℕ
reg_a2 = 12

abbrev pub reg_a3 : ℕ
reg_a3 = 13

abbrev pub reg_a4 : ℕ
reg_a4 = 14

abbrev pub reg_a5 : ℕ
reg_a5 = 15

abbrev pub reg_a6 : ℕ
reg_a6 = 16

abbrev pub reg_a7 : ℕ
reg_a7 = 17

abbrev pub em_m : ℕ
em_m = 3

abbrev pub em_s : ℕ
em_s = 1

abbrev pub em_u : ℕ
em_u = 0

abbrev pub clint_base : ℕ
clint_base = 0x02000000

abbrev pub clint_mtimecmps : ℕ
clint_mtimecmps = 0x4000

abbrev pub hartcmd_switchcontext : ℕ
hartcmd_switchcontext = 1

abbrev pub hartcmd_starthart : ℕ
hartcmd_starthart = 14

abbrev pub hartcmd_remote_fence_i : ℕ
hartcmd_remote_fence_i = 17

abbrev pub hartcmd_remote_sfence_vma : ℕ
hartcmd_remote_sfence_vma = 18

abbrev pub hartcmd_remote_sfence_vma_asid : ℕ
hartcmd_remote_sfence_vma_asid = 19

abbrev pub hartcmd_smode_softint : ℕ
hartcmd_smode_softint = 20
