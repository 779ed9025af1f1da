-- ===== src/Lib.antt =====
-- The supervisor binary interface firmware echelon_sbi (src/*.c, rv32): the calls that a kernel makes
-- with `ecall`, the trap handlers that take them, and the mailboxes by which the harts send each
-- other commands.
--
-- A trap enters src/interrupts/context_switch.c. Its exception_c_handler takes a call from
-- supervisor mode to call_to_sbi of src/sbi_commands.c, which goes to a call of src/sbi_commands/; the
-- calls that concern other harts write a command to the mailbox of each of them
-- (send_hart_command_que) and raise its software interrupt, which enters interrupt_c_handler there.
--
-- Base        numbers, words, bits, lists: what the other modules share.
-- Machine     the globals, CSRs, device registers and contexts that the handlers share, as one record;
--             a handler is a command from a machine to a run (Machine.Run), which ends with a value, in
--             a wait that only another hart ends (spin), in idle_loop (idle), in switch_context
--             (switch), or in s_delegation_trampoline (delegate).
-- HartCommand the senders of src/interrupts/context_switch.c, with the locks of src/thread_locking.S. Its
--             send_hart_command_que and the receiver's release are written over an interface of accesses
--             (MailboxOps), which is read as commands over the machine and as a list of accesses.
--             Interleaving has those accesses in any order: Code by the code, and steps of a mailbox
--             to which Refinement relates it.
-- Sbi         src/sbi_commands.c (Dispatch, Valid) and src/sbi_commands/: base.c (BaseExtension),
--             time.c (Time), ipi.c (Ipi), rfnc.c (RemoteFence), hsm.c (HartState), srst.c
--             (SystemReset). The loops over a hart mask that ipi.c and rfnc.c repeat are in HartMask; what
--             a whole loop delivers is in Broadcast.
-- Trap        src/interrupts/context_switch.c: Interrupt, Exception, Context, Decode, PageTable;
--             Lifecycle joins the call that starts a hart and the interrupt that carries it out.
-- Allocator   src/memalloc.c: kallocinit, kmalloc, kfree and the stacks, over a memory of words; Sections
--             is the list of sections that a memory holds, InOrder requests without a free in between.
-- Pages       the page allocator of src/memalloc.c, over a memory of words; Free is kfree_page.
-- Text        drivers/uart.c and src/string.c, over a memory of bytes: Compare and Copies have what the
--             routines find and what they leave.
-- Print       src/printm.c. Numeral is `_itoa`, Convert the conversions and printm, with the state of
--             its local variables in Printer; Directive and Layout are formats and fields as printm takes
--             them, to which Render relates it: other than in C's standard the width of a string is the
--             most that is written of it, a character has no width, and `#` gives zero a prefix too.
--             Bounds is about its buffer.
-- Archive     src/dataparse/cpio_parse.c; Entries is the list of entries that a memory holds.
-- DeviceTree  src/dataparse/dtb_parse.c; Tokens is the list of tokens that a memory holds.
-- Boot        src/main.c: where kmain finds the kernel, the device tree and the file system and
--             where it puts them (Place, Copy), and both together (Whole); the mailboxes that kinit
--             leaves and the command that starts hart 0 (StartHart); all of kinit (Contexts, SetUp), whose
--             arrays the machine has by hart, as they are if each has its own memory.
-- Examples    the theorems at concrete inputs.
--
-- Words are numbers below 2 ^ 32 with the wrap-around written out; a `long` or `int` is its bit
-- pattern. The macros of src/main.h are a configuration, so that the theorems hold for any number of
-- harts; what concerns the mask of all harts holds for 32 at most, since C does not define a shift by
-- more than 31, and what concerns kinit for as many as its heap has room for. An uninitialised Hart_Command holds what the stack held (stack_command). A CSR is a plain
-- register: its reserved bits and the hardware's own writes are not modelled, nor are the caches
-- that fences order; a fence is an event. What is printed is an event too.
--
-- Loops have their number of rounds: 32 for a hart mask and for the registers, 2 for the two levels of
-- a page table walk, 16 for the pairs of registers that are printed, which are no more than 15.
-- The loops of the allocator have as many rounds as the block has bytes, more than it has sections.
-- strlen, strcpy, strcmp and the search in an archive have 2 ^ 32 rounds, as many as there are addresses;
-- the walk over a device tree has one more than its block has bytes, of which a token takes four; the
-- loop that raises the address of the kernel has 2049, one more than there are pages of 2 MiB. Addresses of
-- bytes go past no end of the address space, as C has it for pointers; where the code reckons with an
-- address as a number, the wrap-around is written out.
--
-- The trap handlers and the calls print by events, with the format and its arguments; Print says what
-- those become on the console. Memory is words for the trap handlers and the allocators, and bytes
-- for Text, Archive, DeviceTree and Boot.
--
-- Not modelled: the assembly files other than the locks; of src/main.c, what kmain prints and what
-- kinit copies to the storage of the threads; the lock of printm; and of src/dataparse/dtb_parse.c, the
-- loop over the reserved ranges, whose count nothing reads. Where the linker puts texts is a parameter,
-- and so is what the compiler makes of a shift that C does not define.
pub mod Allocator
pub mod Archive
pub mod Base
pub mod Boot
pub mod DeviceTree
pub mod Examples
pub mod HartCommand
pub mod Machine
pub mod Pages
pub mod Print
pub mod Sbi
pub mod Text
pub mod Trap
