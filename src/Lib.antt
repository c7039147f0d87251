-- ===== src/Lib.antt =====
-- Verification of the kernel of bolgenos-ng: its memory allocators, from the free lists up to
-- kmalloc, its scheduler with the interrupt locks and the lists of tasks, the dispatch of interrupts,
-- its PS/2 controller and keyboard, its console, its timer arithmetic, its formatted output and the
-- descriptors of its segments.
--
-- Parts of the program, and how they interact:
--   * kernel/libkernelcxx/include/mem_utils.hpp (Utils/MemUtils) and bitarray.hpp (Utils/BitArray):
--     alignment on 32-bit words, and bits in memory that the caller provides.
--   * kernel/libkernelcxx/src/ostream.cpp (Utils/Ostream): the output of numbers and strings, with
--     the setters of the format and the guard that gives it back.
--   * kernel/libkernelcxx/src/cstring.cpp and string.cpp (Utils/Cstring), and in include/
--     ext/fixed_size_vector.hpp, memory.hpp and optional.hpp (Utils/FixedSizeVector, UniquePtr and
--     CxxOptional): strings in memory, a vector in an array, and owners of objects.
--   * kernel/libkernelcxx/include/forward_list.hpp (Utils/ForwardList) and
--     ext/intrusive_circular_list.hpp (Utils/CircularList): a list of nodes from an allocator, and a
--     circle through the objects themselves.
--   * kernel/memory/free_list.cpp (Memory/FreeList): the list of the free blocks of one order, which
--     is threaded through the free pages themselves and squashes a block with its buddy.
--   * kernel/memory/buddy_allocator.cpp and memory_region.hpp (Memory/Buddy): eleven free lists;
--     `put` cuts a run of pages into aligned blocks and passes squashed blocks on to the next order,
--     `get` takes a block from the lowest order that has one and puts back the rest.
--   * kernel/memory/page_allocator.cpp (Memory/PageAllocator): blocks of pages from the buddy system,
--     with a bit at the last page of each block in use, from which `deallocate` reads the size.
--   * kernel/memory/slab.cpp (Memory/Slab): elements of one size in such a block, with a bit map.
--   * kernel/memory/mallocator.cpp (Memory/Mallocator): a chain of slabs, and pages for what is too
--     large or finds the slabs full.
--   * kernel/memory/memory.cpp (Memory/Setup): the region of the high memory, and the start of the
--     allocators on it, one after the other.
--   * kernel/devices/src/vga_console.cpp (Devices/VgaConsole): the text screen and its cursor.
--   * kernel/devices/src/keyboard.cpp and keyboard.hpp (Devices/Keyboard): keys and characters.
--   * kernel/devices/ps2/src/ps2_keyboard_sm.cpp (Devices/Ps2/Keyboard): the state machine that takes
--     the bytes of the keyboard and prints on the console.
--   * kernel/devices/src/frequency_divider.cpp, pit.cpp and kernel/libkernelcxx/src/time.cpp
--     (Devices/FrequencyDivider, Pit and Time): the timer's dividers, its start, the jiffies, and
--     sleeping until they have advanced.
--   * kernel/threading, kernel/x86/src/irq.cpp and kernel/devices/interrupt_controller (Irq): the
--     interrupt flag and its locks; InterruptsManager, with a list of handlers for each vector; and
--     PIC 8259, which is told of the end of each interrupt. Irq/Dump prints the state of the
--     processor at an interrupt.
--   * kernel/sched (Sched): the tasks in a circular list, the finished ones in a forward list, and the
--     loop that switches to each task in turn and then removes the finished ones.
--   * kernel/devices/ps2/src/controller.cpp, line.cpp and ps2_keyboard.cpp (Devices/Ps2/Controller,
--     Line and Setup): the bytes to and from the two lines, the probing of drivers and the start.
--   * kernel/x86 (X86): descriptors of segments and gates, their bits, and the global table.
--
-- How the state and the operations correspond to the code. An object is a record of its fields, and
-- an operation a function from the record to the new record and the result, under the name that it
-- has in the source (`set` of the bit array is `set_value`, `yield` of the scheduler `yield_task`,
-- `operator+` of strings `join`, and the operators `<<` are named for what they show). Memory/Machine has what the allocators
-- run on: a memory of one word for each address, and the results `panicked`, `fault` and
-- `out_of_fuel` beside a value. A pointer is an address; null is 0. FreeList::put is cut into a
-- definition for each of its branches. A function that loops over an array has its loop beside it
-- as a definition with the rounds that are left. The nodes of a list are a function from addresses to
-- cells, and an address without a cell is dangling. The answers of `new` are arguments. A driver runs
-- over ports that are a parameter: a state of the world, and what reading, writing and sleeping do to
-- it. The scheduler and its tasks are one machine: Sched/Loop has its steps, which end where control
-- passes on.
--
-- Children of a module hold its invariant and its proofs: Memory/FreeList/Chain says when memory and
-- a list object stand for a sequence of frames, Memory/Buddy/Invariant does so for the eleven lists,
-- with Memory/Buddy/Cover counting how often a page is held; Memory/PageAllocator/Blocks adds the
-- blocks in use. The client modules use these invariants and the theorems about the operations, and
-- nothing of the lists below.
--
-- Bounds and fuel. `size_t`, `unsigned long` and pointers have 32 bits; a sum or a product that can
-- pass 2 ^ 32 has its `%` written out. The walks along a free list take the counted items of the list
-- plus 1 or 2 as fuel, the loop of `put` the size of the block, the search for squashed blocks the
-- number of the lists, the search for an order 32 rounds; the loops over lists of nodes take more than
-- their length, and sleeping more than the yields until its end. The theorems about these operations
-- state that they return, so the fuel is enough. The loop of the keyboard's state machine and that of
-- `clean_buffer` take their fuel as an argument, since they do not always end.
--
-- Not modelled: the output of log messages, the assembler of the task switch, of the flags and of the
-- loading of tables, the traps, the interrupt table, the serial port, the kernel's entry and its own
-- tests, and the rest of kernel/libkernelcxx. The guards of the page allocator against interrupts
-- make each of its operations one step. The size of a slab object, which the compiler lays out, the
-- end of the kernel, and what memory holds before a bit map is placed on it are arguments.
pub mod Base
pub mod Utils
pub mod Memory
pub mod Devices
pub mod Irq
pub mod Sched
pub mod X86
pub mod Tests
