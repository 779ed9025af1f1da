-- ===== src/Examples.antt =====
-- The theorems at concrete inputs: a board with four harts, of which hart 0 runs the handlers.
mod Boots
mod Calls
mod Harts
mod Images
mod Memory
mod Mailboxes
mod Paged
mod Printing
mod Systems
mod Traps
use echelon_sbi.Base.{ℕ, []}
use echelon_sbi.Machine.{Config, Machine, CpuContext, HartCommand, qemu_virt}

abbrev pub quad : Config
quad = record {
  total_hart_count = 4;
  use_hart_count = 4;
  memory_base = 0x80000000;
  memory_available = 0x08000000;
  board = qemu_virt;
}

abbrev pub no_command : HartCommand
no_command = record {
  command = 0;
  param0 = 0;
  param1 = 0;
  param2 = 0;
  param3 = 0;
  param4 = 0;
  param5 = 0;
}

abbrev pub blank_context : CpuContext
blank_context = record { context_id = 0; execution_mode = 1; reserved_0 = 0; regs = λ r. r }

-- Every hart stopped, every mailbox and lock free.
abbrev pub at_rest : Machine
at_rest = record {
  mhartid = 0;
  hart_has_menvcfg = λ h. 0;
  hart_using_ext_sstc = λ h. 0;
  csr = λ h c. 0;
  msip = λ h. 0;
  mtimecmp = λ h. 7;
  mtimecmphi = λ h. 1;
  word_at = λ a. 0;
  hart_commands = λ h. no_command;
  hart_command_que_locks = λ h. 0;
  sbi_hsm_locks = λ h. 0;
  sbi_hsm_states = λ h. 1;
  contexts = λ p. blank_context;
  hart_contexts = 0x80010000;
  hart_contexts_exception = 0x80011000;
  hart_contexts_user = 0x80012000;
  kernel_load_to_point = 0x80400000;
  stack_command = no_command;
  events = [];
}
