-- ===== src/Lib.antt =====
-- Redshift, a kernel for i686: the scheduler, the memory management, libk and the devices.
--
-- The kernel boots, sets up its memory and its interrupts, and then runs processes that a timer
-- interrupt switches between. The parts and the files that model them:
--   * Sched.Process: src/sched/process.c. The static variables and the heap of processes are the
--     record Sched; `process_spawn` and `process_switch` give an Outcome. A history of calls is the
--     relation Step. Sched.CpuState is `struct cpu_state` of
--     include/arch/i686/redshift/hal/cpu/state.h.
--   * Mem.Align and Mem.Static: the macros of include/arch/i686/redshift/mem/common.h, and
--     src/mem/static.c, whose variable `heap_addr` is passed and returned.
--   * Mem.Frames and Mem.Pages: arch/i686/mem/paging.c, the bitmap of frames as a list of 32-bit
--     words and the page directory with the memory that its tables lie in. Pages take their tables
--     from the static allocator.
--   * Mem.Heap: arch/i686/mem/heap.c and src/kernel/kmalloc.c. Blocks are headers and footers in a
--     memory of bytes, and the list of blocks is a sorted array of their addresses there.
--   * Libk.Char, Libk.String and Libk.List: libk/kchar.c, libk/kstring.c and libk/klist.c. Strings
--     that are read are lists of bytes, those that are written lie in a memory, and lists lie in a
--     store of nodes.
--   * Libk.Memory, Libk.SortedArray and Libk.Format: libk/kmemory.c with its two headers,
--     libk/ksorted_array.c and libk/kstring_format.c, on the same memory. The parts of the format
--     are Output for the arguments, Directives for what follows a `%`, and Printing for the whole.
--   * Kernel.Console, Kernel.Printk, Kernel.Interrupt, Kernel.Timer, Kernel.Sleep, Kernel.Initrd
--     and Kernel.Symbols: the files of these names under src/kernel. Messages go to the console;
--     handlers and callbacks appear as calls that the functions give, and which callbacks come back
--     is an argument.
--   * Boot.Descriptors and Boot.Pit: arch/i686/boot/gdt.c, idt.c and pit.c, the tables as
--     functions from an index to an entry.
--   * Boot.Multiboot, Boot.Modules and Boot.MemoryMap: the tags of
--     include/redshift/boot/multiboot2.h in memory, src/boot/boot_module.c and
--     arch/i686/hal/memory.c, whose lists are lists here. Mem.Heap.Region takes the memory map.
--   * Util.Tar: src/util/tar.c, on an archive as a function from offsets to bytes.
--   * Base: tests, lists, words and bits that the parts share. Examples: the theorems at concrete
--     inputs.
-- A function of the source has the same name here. It takes the state and gives the new one; an
-- assertion or a panic is `none` or an outcome, and numbers wrap around at their width by `%`. The
-- results of `kmalloc` and of the allocators of libk are arguments. The interrupt flag, which
-- SAVE_INTERRUPT_STATE and RESTORE_INTERRUPT_STATE handle, is modelled in the scheduler, the frame
-- allocator, the timer, the ramdisk and printk, and left out elsewhere. The debug messages that
-- functions print are left out.
--
-- Copies: `kmemory_copy` decrements its size twice for each byte, so a copy between two addresses, of 8
-- and more, that differ runs through the whole memory. Libk.Memory models it as it is. In the
-- scheduler, the console, the sorted array and the symbol table, whose states are more than bytes,
-- such a call is an outcome of its own or `none`, since nothing is known of the state behind it.
--
-- Fuel: a walk round a queue takes one step for each of its members, so the number of processes is
-- enough, which the theorem on histories shows. The loop that reverses a string takes at most as
-- many rounds as the string has bytes, and the loop that sleeps at most as many as there are ticks.
-- The loops that pop and free the nodes of a list are on fuel that their caller gives. The loops over
-- a format take a round for each of its bytes, which their theorem shows to be enough, and the loop
-- over the tags one for each tag. `kmemory_copy` takes fuel for 2^32 rounds. `heap_alloc` calls
-- itself once after it has expanded the heap, each call on a unit of fuel.
--
-- Not modelled: the process table takes `kmemory_fill8` as its documentation in
-- include/libk/kmemory.h has it; `paging_init`, which writes behind the bitmap that it allocates; the
-- entry of the kernel and the rest of the boot code, the debug output, the identification of the
-- processor and the assembly files. The `DEBUG_ASSERT`s of libk/klist.c are left out, as in a build
-- with NDEBUG, and that of `get_smallest_hole` that the size is not 0. What lies behind an array is
-- not modelled, but for the elements of a sorted array and the buffers of formatted output, which lie
-- in a memory.
pub mod Base
pub mod Sched
pub mod Mem
pub mod Libk
pub mod Kernel
pub mod Boot
pub mod Util
pub mod Examples
