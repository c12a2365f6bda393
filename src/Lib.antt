-- ===== src/Lib.antt =====
-- The recommender: a program that trains a Caffe network by minibatch gradient descent, and the
-- headers of the base library that is shipped with it.
--
-- The program is src/run_training.cpp (`main`) with src/data_loader.hpp and src/data_loader.cpp
-- (`DataLoader`). `main` loads one file twice, for training and for validation, prints its
-- first elements, and runs 100000 iterations: a random minibatch of 100 consecutive lines, a gradient
-- by the Caffe library, an update of the parameters, and a validation every 500 iterations.
-- The library's code is in the headers below apsara/stone; the rest of it is a binary.
--
-- The files:
--   Prelude, Run: shared names; lists and Boolean tests on numbers; the result of code that can
--     return, write past the end of an array, fault (other undefined behaviour), abort at a failed
--     assertion or check, or still be running.
--   Loader: `DataLoader`, one definition per function (`ReadFloat` is read_float, `RunThroughFile`
--     is run_through_file, `AllocateData` is allocate_data, `LoadData` is load_data), with a child for
--     the shape of the files (Text), the first pass (Count), the second pass (Fill, Lines), both
--     (Load) and the loops that do not end (Hang).
--   Training: `main` and its loop, with a child for the arrays (Batch), the choice of a minibatch
--     (Minibatch), the update (Update), the loop (Main) and the whole program (Program).
--   Stone.StringPiece: apsara/stone/string/string_piece.h. Substring, Characters, Compare and Slice
--     hold the theorems on its searches, its comparisons and its parts.
--   Stone.IntegerEncoding: apsara/stone/encoding/integer/integer_encoding.h.
--   Stone.IntrusiveList: apsara/stone/containers/intrusive_list.h, the singly linked list
--     (Sequence) and, in Doubly, the doubly linked one (Circle, Operations, Erase).
--   Stone.LockFree: apsara/stone/threading/lockfree/lockfree_detail.h, with the theorems on words and
--     tags (Words, Tags), and in Stack lockfree_stack.h: its threads' steps, the constructor (Construct),
--     the invariant of the chains (Invariant, Moves, Exchanges, Refinement, Interleaving) and the runs
--     (Linear, Runs, Fresh), with what each call has done and returns (Ledger; Calls here, and in Queue and
--     FreeList). A thread stands at an access to shared memory, which is one step, and a
--     schedule says which thread goes on; memory is sequentially consistent.
--     Queue is lockfree_queue.h, in the same way: the nodes by their positions (Positions, Invariant,
--     Rely, Moves), what each kind of step keeps (Allocation, FreeList, Tail, Head, Writes, Steps, Fix,
--     Refinement), the runs (Interleaving, Linear, Runs, Fresh), a `Push` that runs
--     alone (Alone) and a `Pop` that waits (Progress).
--     FreeList is free_list.h, with a count of all exchanges beside the tag (Invariant, Moves, Refinement,
--     Interleaving, Runs), and its size (Sizes).
--     `Push` and `Pop` of the queue are the steps from acquire_head and from pop_head, `FixList` those of fix_head,
--     fix_next and fix_prev. The memory that `new` gives to the queue is taken to hold no `mPrev` with the
--     tag of a position but the first, as memory of zeros does; the code does not ensure it.
--   Stone.Futures: apsara/stone/threading/sync/future.h, the lists of `FutureGroup` (Queue),
--     `FuturePtr` (Pointers), `FutureClass` and `FutureClosure` (Closures).
--   Stone.Closure: apsara/stone/base/closure.h, one family of closures for any lists of types of the
--     arguments, and sequences of calls of `Run` (Calls).
--   Stone.RefCounted: apsara/stone/memory/ref_counted.h, the counts over sequences of calls (Counts).
--   Stone.ScopedPtr: apsara/stone/memory/scoped_ptr.h, what a scoped pointer owns (Ownership),
--     and scoped arrays (Arrays).
--   Stone.Locks: apsara/stone/threading/sync/lock.h. SpinRw is `SpinRWLock`, step by step, with what the
--     quota counts (Quota), who holds the lock (Exclusion) and that it is not stuck (Progress). Scoped is
--     code with objects that lock and unlock in their constructor and destructor, on the classes over
--     pthread (Mutexes, ReadWrite).
--   Stone.Singleton: apsara/stone/memory/singleton.h, step by step, with what each thread knows (Steps,
--     Race) and that there is one object (Once).
--   Stone.Raft: apsara/stone/consensus/raft/log_id.h, the order of `LogId` (Order), and entry.h, sequences
--     of `AppendLog` (Entries).
--   Stone.Logging: apsara/stone/logging/logging.h, the macros and `LogInfo`: a place that logs a sample
--     (Sampling, Doubling, Rates), sections and `LOG_TRACE_IF` (Sections). Sinks is `Logger` and
--     `SinkConfig` of logging_impl.h, and Configured what is read from them.
--   The files Examples hold the theorems at concrete inputs.
--
-- State is passed explicitly: a `FILE *` is the rest of its bytes, an array is a list, the memory of
-- the linked lists is a function from addresses to pointers. `unsigned int` and `size_t` wrap at
-- 2 ^ 32 and 2 ^ 64, written out; `char` is signed, so that EOF in a `char` is the byte 255.
-- A loop runs on fuel and returns `running` where the fuel ends. The theorems on loops that end name
-- the fuel that is enough; those on loops that do not end hold for any fuel.
--
-- `LoadData` has no `return`, which C++ leaves undefined: what its end does is a parameter, and the
-- theorems on runs that go on behind it take it to return.
--
-- Parameters: the arithmetic of `float`, `atof`, `rand`, `Ref` and `Unref` of `Future`, the stack traces
-- and number formats of the logs, the locks of
-- pthread, the classes that protobuf generates, and the Caffe library, which is taken to read as many
-- elements as its interface says and to keep the lengths of its arrays.
-- Not modelled: messages, the scripts and configuration around the program, generated headers, and
-- the parts of the base library whose code is in its binary.
pub mod Loader
pub mod Prelude
pub mod Run
pub mod Stone
pub mod Training
