-- ===== src/Lib.antt =====
-- mpipin pins the processes of an MPI job on one node to disjoint sets of CPUs that share
-- caches and NUMA nodes. Every process of the job runs `mpipin`, which meets the others in a
-- shared memory, gets its set, and executes the program.
--
-- The parts, and how they interact. `main` opens the shared memory `struct part_exec` and
-- collects in it the CPUs that the processes may use. `pin_process` is the barrier: the
-- processes enter a list in the order of their PIDs and wait; the last to come wakes the first
-- of the list, which reads the topology and partitions the CPUs for all ranks; each process
-- takes the next rank, sets its affinity and wakes the next of the list. The CPU sets are
-- bitmaps of the C library, searched by the routines of bitops.c; bitmap.c works on bitmaps of
-- any size.
--
-- Base has the helpers: the names of the libraries, tests and lists over the native numbers,
-- the signed integers of C, error numbers, and counting. Bits and Word are the bits of numbers
-- and the operators of C on `unsigned long`.
--
-- The files and their sources:
--   Bitops: bitops.c (find_first_bit, find_next_bit, and for clear bits find_first_zero_bit,
--   find_next_zero_bit in Bitops.Zero), include/bitops.h (test_bit) and
--   include/arch/aarch64/arch-bitops.h (__ffs, set_bit, clear_bit).
--   Bitmap: bitmap.c and include/bitmap.h. Bitmap.Logic has __bitmap_empty, full, equal,
--   complement, and, or, xor, andnot, intersects and subset; Bitmap.Shift has
--   __bitmap_shift_left and __bitmap_shift_right, Bitmap.Parse bitmap_parse, Bitmap.Ranges
--   bitmap_parselist and bitmap_scnlistprintf; Bitmap.Range has bitmap_set and bitmap_clear,
--   Bitmap.Area bitmap_find_next_zero_area, Bitmap.Region the allocation and release of
--   regions, and Bitmap.Fold for_each_set_bit of include/bitops.h and bitmap_fold.
--   CpuSet: the iterators cpuset_first, cpuset_next and for_each_cpu of mpipin.c, and the
--   macros CPU_SET, CPU_CLR, CPU_ISSET and CPU_COUNT of the C library as it documents them.
--   Ascii: what the program uses of <ctype.h>, of string functions and of the formats of
--   printf and scanf.
--   Topology: the records cache_topology, cpu_topology and node_topology of mpipin.c.
--   Pin: struct part_exec and struct process_list_item of mpipin.c. Pin.Assign is the loop of
--   pin_process that gives one rank its CPUs, Pin.Partition the loop over the ranks,
--   Pin.Queue the list of processes, Pin.Barrier the two halves of pin_process before and
--   behind its wait, and Pin.Job the processes of a job in any order.
--   Pin.Init: what main of mpipin.c does with the shared memory: its initialisation, the
--   union of the CPUs, and the search for more.
--   Sysfs: the collection of the topology in mpipin.c. Sysfs has read_file to read_string,
--   Sysfs.Collect collect_cache_topology to collect_topology; the modules below have the
--   proofs.
--   Main: main of mpipin.c. Main.Options has the options and their checks, Main.Enter the way
--   through the shared memory to pin_process and the exits, Main.Enter.Node the processes of
--   a node that enter one after the other, Main.Meeting the processes that enter while others
--   are in pin_process already, and Main.Program the parts together.
--   Tests: runs on a machine of four CPUs and on small bitmaps, and the theorems at these
--   inputs.
--
-- How the code is modelled. The state of pin_process is the record PartExec, and an index -1 of
-- an entry is `none`; where the code would use index -1, the result is `out_of_range` or
-- `lost`. An array is a function of the index, a bitmap the list of its words, and a read past
-- the end of the list is 0. What pin_process does under the mutex up to pthread_cond_timedwait
-- is `arrive`, and what it does behind it is `resume`, or `proceed` for a process that does not
-- wait. A step of a job is one of these, and a move of the processes of a node is such a step
-- or an entry of main under the lock of the file. The system is a parameter of pin_process, the
-- record Services: whether the topology can be read and what it is, whether memory can be had,
-- and whether an affinity can be set.
--
-- The system that the collection of the topology runs on is the record Host, and its state the
-- record Store, which counts the blocks that are not freed and the descriptors that are not
-- closed. A function that may fail is a function from the state to a result and a state, `goto
-- out` with a block to free is `with_block`, and a chain of reads into an object is run_steps.
-- The two loops of __bitmap_parse and of __bitmap_parselist are one recursion on the length of
-- the buffer: the end of the inner loop at a comma goes on with the next round of the outer
-- one. A buffer that snprintf writes to is the string in it, the sum of the lengths, and
-- whether a write went past its end.
--
-- Bounds and fuel. Words have 64 bits and wrap around. A search for a bit has a round for each
-- word and one more. A walk along the list has 1025 rounds, one more than it has slots.
-- bitmap_set and bitmap_clear have nr / 64 + 2 rounds: each but the first and the last changes
-- a whole word. The search for a free region has a round for each bit and one more, and each
-- moves on by a region. The search for a clear range has a round for each bit and one more, and
-- each starts behind a set bit that the last has met. The loop of bitmap_scnlistprintf has a
-- round for each bit, and each moves on.
--
-- Not modelled: the printing of bitmaps in hexadecimal, the weight and the maps of bit
-- positions other than bitmap_fold of bitmap.c, messages and print_usage, what getopt_long does
-- with the arguments, list.h, a copy of the list of the Linux kernel, and the helpers in x86
-- assembly. Pin.Job has no step for a time-out; what a time-out does to the shared memory is in
-- Pin.Barrier.Abort.
pub mod Base
pub mod Bits
pub mod Word
pub mod Bitops
pub mod Bitmap
pub mod CpuSet
pub mod Ascii
pub mod Topology
pub mod Sysfs
pub mod Pin
pub mod Main
mod Tests
