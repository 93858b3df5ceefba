-- ===== src/Lib.antt =====
-- fflib: communication, computation and their dependencies as operations that a progress thread
-- drives. This library models the C code below src and proves what makes it correct. Paths below
-- are those of the repository.
--
-- The parts, from the bottom up:
-- - Base: native numbers, lists, options, the return codes of src/ff.h, and their lemmas;
--   Base/Bits has those of the exclusive or.
-- - Arman: src/utils/ffarman.c, the manager of free indices. ffarman_create, ffarman_get and
--   ffarman_put are create, get and put. Arman/Stack says what a manager holds, Arman/Client
--   what its clients may rely on.
-- - Storage: src/ffstorage.c, pools of equal blocks that can grow. alloc_pool_internal,
--   ffstorage_pool_create, _destroy, _get and _put have a definition each; get and put work on
--   one pool, pool_get and pool_put on the array of pools.
-- - Op: src/ffop.c and ffop.h, operations and their dependencies. A State holds all operations
--   by address, a counter of ids, a log of what was posted and completed, and the state of the
--   binding. ffop_create, ffop_hb, ffop_post, ffop_complete, ffop_test and ffop_wait are create,
--   hb, post, complete, test and wait. ffop_post and ffop_complete call each other.
-- - Schedule: src/ffschedule.c and ffnop.c, a graph between a begin and an end. A System is a
--   State with the schedules.
-- - Buffer: src/ffbuffer.c and ffdatatype.c, descriptors and the heap.
-- - Gcomp: src/components/gcomp. Gcomp/Sum has the functions of the operators, Gcomp/Operator
--   the tables, Gcomp/Post the computation when it is posted.
-- - Mpi: src/components/mpi. Transfer posts sends and receives, Progresser keeps the table of
--   requests, on an index manager.
-- - Progress: src/ffprogress.c. One round of the thread asks each progresser for the completed
--   operations and completes them with Op.
-- - Calls: src/ffsend.c, ffrecv.c and ffcomp.c, the calls of the user that create a buffer and
--   an operation.
-- - Allreduce: src/colls/ffallreduce.c, which builds a schedule by recursive doubling out of the
--   calls of all these parts. Allreduce/Callbacks has the two callbacks of the schedule,
--   Allreduce/Graph the graph of the schedule and its rounds, Allreduce/Values the values in the
--   receive buffers of all ranks, round by round.
-- - Binding: src/bindings/mpi_binding.c and the tables of src/ffinternal.h, and the call of
--   ffop_post through them. Binding/Local has the operations that are done when they are posted,
--   Binding/BuiltIn the computations with the built-in operators.
-- - Setup: src/ff.c and src/components/mpi/ffmpi.c, ffinit and fffinalize with the pools, the
--   tables and the thread that they start and stop. A Library is the state of all parts, a Host
--   what MPI, malloc and pthreads answer. Setup/Again has a second ffinit, Setup/Posts a
--   computation through the tables.
-- - Pools: the calls of src/ffop.c, src/ffschedule.c and src/ffbuffer.c that take blocks from
--   the pools of Storage and give them back.
-- - Examples: runs of the model and the theorems at concrete inputs.
--
-- How the code is modelled: a pointer is a number, and NULL is `none` (0 in Buffer). A function
-- of the code takes the state it works on and returns the new one, its result code and its
-- outputs. `none` as a result says that an assertion fails, that the behaviour is undefined, or
-- that fuel is used up, as each definition says. uint32_t and uint64_t wrap where the code can
-- reach the bound. A block that a pool gives is an argument, except in Pools. The memory of a
-- pool is NULL, in use or freed, and a use of freed memory has no result. What MPI, malloc and
-- realloc answer is a parameter. What a post does in the binding is a parameter of Op, and
-- impl_post of Binding is what it stands for. The spin locks make a call of the index manager,
-- and a computation into a shared destination, one step; the thread and the user are interleaved
-- as the moves of Op/Round.
--
-- Fuel: post and complete of Op take fuel for the depth of the graph, and a height of the graph
-- below it is enough (Op/Live, Op/Round). vsum takes more than its number of elements, drain of
-- Progress more than the length of the ready list, and the loop of an allreduce k + 1 rounds for
-- 2^k ranks.
--
-- Not modelled: printing and logging; the overflow of the int mask of an allreduce above 2^30
-- ranks; memory below the size of an element; the checks that are compiled only with ARGS_CHECK,
-- CHECK_ARGS or WAIT_COND; the tree version of the allreduce, which is not compiled; the tests,
-- the benchmark and the drawings.
pub mod Base
pub mod Binding
pub mod Arman
pub mod Op
pub mod Storage
pub mod Schedule
pub mod Mpi
pub mod Buffer
pub mod Gcomp
pub mod Progress
pub mod Calls
pub mod Allreduce
pub mod Pools
pub mod Setup
pub mod Examples
