-- ===== src/Lib.antt =====
-- Aerogel OS: a verification library for the C code of the kernel, its drivers and its C library.
--
-- Each file opens with a comment that names the code it is about. Paths are from the repository's
-- root, and a definition keeps the name of the function that it models; the prefix that C needs
-- (`pmm_`, `pci_`, `ata_`, `vga_`, `sched_`) is the name of the module here.
--
-- - Common: the library names that all files use, tables and bits (Bytes), integers (Int), arrays and
--   memory as functions of the index (Array), lists (Lists).
-- - Pmm: the physical page allocator, kernel/mm/pmm.c. Its state is the bitmap and the counters; the
--   addresses that the linker provides and the memory map of the boot loader are arguments.
-- - Heap: the kernel's heap, kernel/mm/heap.c. A header is kept at its address, and a proof reads the
--   list of headers as cells that fill the memory from its start to its end.
-- - Vmm: the page tables of x86, kernel/mm/vmm.c, with the page allocator as part of the state; a table is written
--   only where its page is mapped to itself. Vmm64: the
--   four levels of tables of x86_64, arch/x86_64/mm/vmm.c, which form a tree of tables at their addresses.
-- - Efi: the page tables and the memory map that the UEFI loader makes, arch/x86_64/boot/efi_main.c; the
--   map is read by the page allocator, and the tables by the look-up of Vmm64.
-- - Spinlock: the locks of libs/libk/spinlock.c, with threads that interleave as a step relation.
-- - Sched: the run queue and the threads, kernel/sched/sched.c and thread.c. A thread is its address,
--   and each field of the thread block is an array over the addresses.
-- - Libc: memory, strings and numbers, libs/libc/src/string.c and stdlib.c, over a memory of bytes.
-- - Printf: formatted output, libs/libc/src/printf.c.
-- - Io: port input and output, kernel/include/io.h. A device is not part of the program: what it
--   answers is an arbitrary stream of words, and the writes are recorded, the newest first.
-- - Keyboard and Mouse: the PS/2 drivers, drivers/input/ps2_keyboard.c and ps2_mouse.c.
-- - VgaText: the text console, drivers/display/vga_text.c.
-- - Pit: the timer, drivers/timer/pit.c.
-- - Framebuffer: drawing on the linear framebuffer, drivers/display/framebuffer.c, over memory, with its
--   font. An `int` is the 32-bit word of its two's complement.
-- - Gui: the windows, kernel/gui/gui.c, over Framebuffer. The functions of the windows' keys are numbers.
-- - Kprintf: printing in the kernel, libs/libk/kprintf.c, and what kernel/panic.c prints, over Printf.
-- - Pci: the bus scan, drivers/bus/pci.c, over the configuration space as a function of the address.
-- - Ata: the disk driver, drivers/storage/ata.c.
-- - Vfs: path resolution and the mount table, kernel/fs/vfs.c, over an interface (FileSystem) for what a
--   node's functions do. Tmpfs: the file system in memory, kernel/fs/tmpfs.c, over a store of nodes.
--   Fat32: file reads, directories and names of kernel/fs/fat32.c, over a function that reads a sector.
-- - Rtl8139: the network card, drivers/net/rtl8139.c; what the card writes to the receive buffer is
--   arbitrary in each round of a poll.
-- - Shell: the line editor, the argument splitter and the command `cat`, userspace/shell/shell.c, over a list
--   of key events and the interface of Vfs.
-- - Setup: the first start, userspace/setup/setup.c, over the line editor, Tmpfs and Vfs.
-- - Tables: the descriptor and gate tables, gdt.c and idt.c of arch/x86/cpu and arch/x86_64/cpu. Interrupts: the
--   interrupt controller and the dispatch, isr.c there.
--
-- How they interact: the drivers call the ports of Io; the page allocator, the heap and the scheduler
-- stand by themselves and keep their state in one record, which each operation takes and returns; the
-- page tables take their pages from the page allocator, which reads the memory map of the loader; the
-- disk driver is what the FAT32 file system reads from; the file system in memory is an instance of the
-- interface of Vfs, through which the setup and the shell find their files.
--
-- Numbers are natural numbers, and a computation that can wrap has its modulus written out. A C loop
-- that counts is structural recursion on the rounds left. A loop that walks a string or a ring has
-- fuel, and `none` says that it ran out; the theorems about it give the fuel that is enough. A walk
-- along the blocks of the heap needs more fuel than there are blocks, and a file read is given one round
-- more than it has bytes to read, since each round takes one at least. The polls
-- of the disk driver are bounded by 100000 in the source, and here too.
--
-- What is not modelled: code in assembly and in Rust, the calls of the firmware, printing on the
-- consoles, the initialisation of the PS/2 controllers, the drawing of lines at an angle, the glue between
-- the card and the library in Rust, and the other commands of the shell.
pub mod Common
pub mod Pmm
pub mod Libc
pub mod Printf
pub mod Kprintf
pub mod Io
pub mod Keyboard
pub mod VgaText
pub mod Mouse
pub mod Pci
pub mod Ata
pub mod Sched
pub mod Framebuffer
pub mod Gui
pub mod Spinlock
pub mod Vfs
pub mod Tmpfs
pub mod Efi
pub mod Fat32
pub mod Tables
pub mod Interrupts
pub mod Heap
pub mod Vmm
pub mod Vmm64
pub mod Setup
pub mod Shell
pub mod Rtl8139
pub mod Pit
