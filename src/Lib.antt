-- ===== src/Lib.antt =====
-- Toshokan runs bare-metal code ("friend" cores) beside a Linux process ("hakase"). This library
-- models the parts of the program that carry its logic and proves what makes them correct.
--
-- The parts and how they interact:
-- - FriendLoader/ is a kernel module. It hands the memory of the friend cores to a process
--   (mmap), registers a device file for each core, and starts a core when its file is opened.
-- - hakase/ is linked into the process. It maps that memory, copies the friend binary there
--   (ElfLoader), prepares the page tables and the trampoline (Loader16), and opens the device
--   files.
-- - friend/ is linked into the friend binary.
-- - common/ has the memory layout, and the Offloader by which a friend core has a piece of code
--   run by the hakase process.
--
-- Files:
-- - Base (Tests, Lists, Words, Masks, Bits, Options, Int): shared names, Boolean tests, lists,
--   families, machine words, bounds on bit operations, integers. A word is a number below 2 ^ 64;
--   sums that may wrap are written out with %.
-- - Layout: the constants of common/memory.h. Layout/Align: align of common/align.h.
-- - Offload: common/offload.h and common/offload.S as a step function of a processor over the
--   shared memory of an Offloader; processor 0 is the hakase process in a loop over TryReceive,
--   every other number a friend core in a loop over _OFFLOAD. Loc names the places in the code,
--   one for each shared access. Stages, Steps: the invariant, one stage for each step of one use
--   of the macro. Safety, Progress: what follows for every schedule. Registers: the three
--   assembly routines on the registers and the stack.
-- - Hakase/PageTables: Loader16::InitPageTables; Walk is the processor's page walk, by the
--   manual; Leads says which entries lead it where; Entries and Identity prove what is mapped.
--   The loop has 513 rounds of fuel, one for each of the 512 pages and one for the last test.
-- - Hakase/Elf: Headers are the wrappers Ehdr, Phdr and Shdr; Deploy is ElfLoader::Deploy over a
--   memory of bytes. Each loop has 2 ^ 16 + 1 rounds of fuel, and the counts in the header are
--   16-bit fields, so no loop runs out (Deploy/Scan). Deploy/Listed has the entries of the two
--   header tables as the ELF format has them; Contents and Accepts are by these what Deploy
--   leaves and what it decides.
-- - Hakase/Startup: check_version, check_bootparam and boot of hakase/hakase.cc. A file is its
--   bytes, a text ends at the first 0, and the loop of boot has as much fuel as the number of the
--   first core that cannot be opened.
-- - Hakase/Trampoline: the processor that runs hakase/friend_boot16.S, with the exceptions of the
--   instructions used; Code has the instructions and runs them from label to label, with a round
--   of fuel for each of the four pieces and one for the end; Bytes has the data; Real and
--   Protected run the pieces, Arrival the whole, and Installed puts Loader16::Init before it.
-- - Hakase/Setup: setup of hakase/hakase.cc, with mmap_friend_mem, Loader16::Init and
--   export_init, on the files and the memory of the process. The page tables and the shared
--   variables start as the words that Deploy has left. Setup/Leaves is what a success leaves, and
--   Setup/Ready when there is one.
-- - Friend/Runtime: friend_init of friend/init.cc as steps of any number of cores, with the
--   memory they share; Counting and Reaching count the cores on either side of friend_main, and
--   Gathered is about cores that have all entered. Friend/Stacks: the stack pointers of
--   friend/boot.S.
-- - FriendLoader/Apic: wakeup_secondary_cpu_via_init of cpu_hotplug.c as a list of events, where
--   the answers of the hardware depend on the events before. FriendLoader/Hotplug: cpu_start,
--   cpu_unplug, get_cpu_num, cpu_replug, and the open and close handlers of cpudevice.c.
-- - FriendLoader/Mmap: the mmap handlers of call_interface.c. FriendLoader/Kernel: a table of
--   what is registered with the kernel. FriendLoader/CharDevice, CpuDevice, Module: the
--   registrations of call_interface.c, cpudevice.c, version.c and main.c, which take the answers
--   of the kernel's calls as arguments.
-- - Tutorial/Cpu: the tables, cr3 and the kept translations of the core that runs a program of
--   tutorial/paging; a core here keeps every translation until invlpg drops it. Tutorial/Paging:
--   Console is what the programs print and read, Mapping, Hierarchy and AddressSpace are
--   friend_main of the programs of these names, and CopyOnWrite is copy_on_write/friend.cc:
--   my_memcpy on words, with a round of fuel for each, and in Program the whole program, where a
--   store that faults may be tried as often as its fuel says; Coherent, Phases, Shares and
--   Outcome follow its loops, Stale its end, and Handler is about its handler.
-- - Tutorial/Idt: setup_inthandler of the tutorials, and how a processor reads what it writes.
--   Tutorial/Faults: an instruction that faults and is tried again after its handler, with fuel
--   for the tries, whose end is told from a core that stops; PageFault is paging/pagefault,
--   Division is interrupt/jump and interrupt/exception_recovery.
-- - Hakase/Interrupt: the InterruptController of hakase/deprecated; Vectors says which vector
--   SetIntCallback takes.
-- - Sample: the program of sample/ with friend_init around it, as steps of the hakase process and
--   the cores. Counts has the invariants, Following its relation to Friend/Runtime, Gone the
--   cores that are out of friend_main, Verdict and Fair the result of test_main.
-- - SampleOld: sample_old/paging, sample_old/intro and sample_old/common. Machine is the core of
--   a sample, with memory by bytes: the first GB of addresses lies from 0x80000000 on, as the
--   samples take it to (Tables/Linked is about the tables that keep it so), and other addresses
--   are walked. Common is common.cc, Host is exec.cc. Tables has the samples 001 to 014, 031 to
--   035 and 100, one main each in Tables/Programs; Intro has the two of sample_old/intro; Apps
--   has 021 to 024, 041 and 042, which call two small binaries: where these stand and whose code
--   a byte belongs to is an argument, Link. The loop of puts has two rounds of fuel
--   (Common/Locks).
-- - Tests modules: runs on concrete inputs, and each of the results below at such an input.
--
-- Left out: printing and logging; the build scripts; the menus that the tutorials print. The
-- templates of the tutorials (tutorial_template) are the same programs as the tutorials. The
-- channel of the old samples is not part of the repository: its messages are a list. The number
-- of a core in boot is not bounded, as neither its name in buf nor an int overflows on any real
-- machine; the instructions of the trampoline are taken by label, not from the bytes that the
-- assembler makes of them. Memory is sequentially consistent, and the eight words of saved
-- registers are read or written in one step, which the lock and the two flags protect.
pub mod Base
pub mod Layout
pub mod Offload
pub mod Hakase
pub mod Friend
pub mod FriendLoader
pub mod Tutorial
pub mod Sample
pub mod SampleOld
