-- ===== src/Lib.antt =====
-- A verification library for the programs of this repository: vms, a simulated virtual memory with
-- three levels of page tables and copy on write, pht, a parallel hash table, wut, user threads, ssp, a
-- library that starts, watches and signals processes, and tps, which lists the processes of /proc.
--
-- The parts of vms and their files here. The state of the program, its static variables and the bytes
-- of the mapping, is the record Machine of Vms/Machine.antt; a call is a function from a state to a
-- result and a state, or to the way that it stops (an exit with its code, a failed assertion, an access
-- out of an array or of the mapping). Memory is a function from addresses to bytes (Vms/Memory.antt).
--   - vms/src/pte.c: Vms/Pte.antt, one function on the 64-bit word for each vms_pte_ function.
--   - vms/src/page_table.c: Vms/PageTable.antt.
--   - vms/src/pages.c: Vms/Pages.antt. What sysconf and mmap return are arguments of init.
--   - vms/src/mmu.c: Vms/Mmu.antt. The loop of mmu is a recursion on six rounds of fuel: each of the
--     three levels is read at most twice, and the walk that it is compared with has no fuel.
--   - vms/src/vms.c: Vms/Fault.antt (page_fault_handler) and Vms/Fork.antt (vms_fork_copy and
--     vms_fork_copy_on_write; their loops are recursions on the number of entries left). The modules of
--     Vms/Fork are about the innermost loops: Copy and its modules about that of vms_fork_copy,
--     Shared, Entry and Table about that of the other, Written about a write fault after it.
-- mmu calls the page table functions and the handler of vms.c; the handler and the forks call the
-- allocator. The tests of Vms/Tests.antt run the scenario of vms/src/main.c.
--
-- The parts of pht and their files here.
--   - pht/src/hash-table-common.c: Pht/Text.antt, C strings as lists of bytes and their hash.
--   - pht/src/hash-table-base.c: Pht/Chain.antt (one list) and Pht/Base.antt (the table).
--   - pht/src/pht-tester.c: Pht/Tester.antt, the numbers of the command line and the place of a
--     key; Pht/Tester/Runs.antt, the array data, its generation, and the three parts of main. Strings and
--     Generated prove that the array holds strings, Missing and Threaded what the parts of main count.
--     A read or a write outside of data, and a free of what is no allocation, end the model's run.
--   - pht/src/hash-table-v1.c and pht/src/hash-table-v2.c: Pht/Threads.antt has add_entry as the steps
--     of any number of threads, with the mutex of a key as a parameter; Pht/V1.antt has one mutex, and
--     Pht/V2.antt one for each list. A schedule is the list of the threads in the order of their turns,
--     as long as one likes. pthread_mutex_lock of a held mutex waits, also in the thread that holds it,
--     as a default mutex does. The search under the mutex is one step, the write another.
-- A key is a string that is not NULL and does not change while a table holds it. calloc is taken to
-- succeed, as the code takes it.
--
-- The parts of wut. wut/src/wut.c is Wut.antt, with the thread objects, the array `threads` and the
-- ready queue as the record Wut, and Wut/Library.antt, with one function for each library function: a
-- call is the code up to its return or to the switch to another context, and join_rest is what wut_join
-- does when it runs again. A list operation on an entry that the queue does not have ends the run.
-- malloc, mmap and the context functions are taken to succeed, and threads_count does not overflow.
--
-- The parts of ssp. ssp/src/ssp.c is Ssp.antt, with the array `processes`, its counters and the lines
-- written so far as the record State, Ssp/Spawn.antt (ssp_create and what the child does),
-- Ssp/Status.antt (statuses, signals, ssp_wait) and Ssp/Print.antt (ssp_unknown and ssp_print). The
-- kernel and the C library are the record System over a type of worlds; the laws that a theorem needs
-- of them (HasMemory, ExecFails, Reaps, Waits) are its hypotheses, and Ssp/Tests.antt has a small kernel for
-- which they hold. A call ends the run by exit, by the program that replaces the child, by an access out
-- of the array or through NULL, or out of rounds: ssp_unknown has as many rounds as its argument says,
-- and one more than the children that have ended are enough. Ssp/Shows.antt is the abstract view, the list
-- of the processes with an id; Grow, Create, Child, Decode, Wait, Unknown, Rows, Printed and Session prove the
-- operations against it. Ids and sizes do not overflow an int; the readdir of close_fds gives a list of
-- entries that the closing does not change.
--
-- The parts of tps. tps/src/main.c is Tps.antt, over the record Files of the calls that it makes: the
-- array `file` with its bytes from the entry before, the lines written and the number of bytes written
-- past an array are its state. The names that readdir gives are a list. Tps/Status.antt proves what is
-- read from a status file, Tps/Listing.antt and Tps/Stale.antt what is printed. The laws
-- of the kernel that they need (IsSteady, Idle, IsProcess) are about one file opened at a time: what a
-- read gives is what the file just opened holds, also when the descriptor had another file before.
--
-- Not modelled: what vms and pht print (print_fatal_page_fault, perror, the tester's report), the timing,
-- parse_opt and the errors of pthread_create in pht/src/pht-tester.c, and the stacks and contexts of
-- wut.
--
-- Common.antt and its modules hold Boolean tests, arrays as lists, `&` and `|` as arithmetic, the type
-- int, strings, and calls that may end the run (Call).
pub mod Common
pub mod Vms
pub mod Pht
pub mod Wut
pub mod Ssp
pub mod Tps
