-- ===== src/Lib.antt =====
-- servcraft, a collection of C tools for servers: containers (include, util), a stack allocator and
-- its hints for lightweight threads (p7r), a runtime of coroutines with its locks (p7), a dictionary
-- for dynamic libraries (s1), and an event reactor (ek3). Paths are from the root of the repository.
--
-- Parts and files:
--   include/util_list.h -> Util/Ring: nodes are addresses, the store holds the link fields; each
--     inline function is a function on stores, and the loop macros are functions with fuel.
--     Ring/Chain says what sequence a ring stands for; Edits, Removal and Walks are the operations.
--   util/scraft_poolize.h -> Util/Pool, on top of Ring.
--   util/scraft_hashtable.c, .h -> Util/Hashtable: a chain is the sequence of its keys. View is the
--     map that a table stands for; Laws and Lifetime are about the operations.
--   util/scraft_lru_cache.c -> Util/LruCache, over the tree as an instance argument.
--   p7r/p7r_stack_allocator.c, .h -> P7r/StackPage for one provider of pages, P7r/StackAllocator
--     for masters, slaves and the fallback.
--   p7r/p7r_stack_hint.c, .h -> P7r/StackHint: policies on top of StackAllocator, and the callbacks
--     of a hint as a key of Hashtable.
--   p7r/p7r_stack_hint_dictionary.c, .h -> P7r/HintDictionary, hints as keys of Util/Hashtable.
--   p7r/p7r_uthread.c, p7r_uthread_def.h -> P7r/Scheduler: the queues of one carrier; its Bus for
--     sched_bus_refresh, its Lifespan for what uthreads and the carrier do in turn and for
--     p7r_init. Queues and Turn are about the queues, Laws about the choice of the next uthread,
--     Steps about all of it in any order. P7r/Delegation is p7r_delegate, with p7r/p7r_timing.c.
--   p7r/p7r_uthread.c, p7r_api.c -> P7r/Carriers: all schedulers, their messages, p7r_execute and
--     p7r_submit, which takes a future out of Util/Arena. Boxes, Given and Order are about the messages
--     between two carriers, Balance and Submit about what comes from outside.
--   p7r/p7r_future.h -> P7r/Futures: a future and the waits for it.
--   util/scraft_arena.c -> Util/Arena; Start is about its start, Lives about all its calls.
--   p7/spin.c, .h -> P7/Spin: where a lock comes from and goes to, Scan for the search among the
--     reserved ones, Lives for all calls; its Lock is the lock word, one shared access per step.
--   p7/rwspin.c, .h -> P7/RwSpin: a step relation on any number of threads, one shared access per
--     step, sequentially consistent. P7/Threads counts threads by where they stand.
--   p7/p7impl.c, .h -> P7/DoubleQueue, the two lists by which carriers hand over requests and
--     messages, one shared access per step; P7/Runtime, a carrier with its coroutines: Coroutines
--     for their life, Waking for messages, timers and files, Mail, Requests, Schedule for a turn of
--     sched_loop, Blocking, Timing, Lifetime for p7_init and p7_finalize. A function that switches to
--     the scheduler is two definitions, before and after the switch. Queues is about the lists:
--     New and Spawned for p7_coro_new, Woken and Timed for what wakes, Turn for a whole turn, Ready,
--     Created and Concat for what a coroutine calls, Steps for all of it in any order.
--   ek3/ek3_reactor.c, .h -> Ek3/Reactor for sessions and events, with Lifetime, Deploy, and Poll for
--     ek3_poll.
--   p7/p7_namespace.c, .h -> P7/Namespace, a client of Util/Hashtable, with the calls of the locks
--     and of the table recorded in order.
--   s1/s1_hashdic.c, .h -> S1/HashDic, whose string hash is compared with that of Util/Hashtable;
--     Single is about a dictionary with one entry for each key.
--   s1/s1_dlbase.c, .h -> S1/DlBase: the versions of one library, its calls and its reloads; S1/DlMgr:
--     the libraries by alias, a client of S1/HashDic, with aliases shorter than FILENAME_MAX.
--   Prelude holds the names and lemmas that all share, Tests the runs on concrete inputs.
--
-- Conventions: a function keeps its name, or the part after the prefix of its file; a result none is undefined
-- behaviour (a NULL that is followed, a division by zero) or, in a function with fuel, a loop that
-- has not ended; what the kernel and the root allocator return is an argument. Machine integers are
-- natural numbers with their wrap-around written out.
-- Fuel: list_foreach and move_all need one more than the length of the ring; cut has the capacity
-- plus one, at least one more than the number of stacks.
--
-- The loop of ek3_poll over the timers has fuel, of which it needs one where it ends. The search
-- among the reserved spinlocks has fuel, of which as many as there are locks are enough where it ends.
-- The earliest timer of ek3 is a function of the calls made so far.
-- The loop of p7r_blocking_point runs over what its rounds meet, and takes as many rounds as that.
--
-- Not modelled: the end of the schedulers of p7r, p7r_poolize and the creation of threads, the chain
-- of features, the red-black tree and the message buffers (copies of other projects'), machine
-- contexts, allocator proxies, the digest that names a session of ek3, the mutexes of s1, and weak
-- memory orders. The timer tree of p7 is the log of the calls of it. A write to a pipe that fails and is tried again yields in between,
-- and what other coroutines do then is no part of the operation.
pub mod Ek3
pub mod P7
pub mod P7r
pub mod Prelude
pub mod S1
pub mod Tests
pub mod Util
