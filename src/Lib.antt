-- ===== src/Lib.antt =====
-- Talon async I/O, a header-only C++17 library over io_uring (include/talon/).
--
-- The program's parts. A user makes an `AsyncTask` (async_io_task.hpp) around a descriptor, a
-- `KernelBuf` (async_io_kernelbuf.hpp) and a completion handler, and gives it to an `IOHandler`
-- (async_io_handler.hpp) by `AddTask`. That checks two gates, takes an entry of the ring, and submits.
-- The event loop reads completions and dispatches each to its task, which succeeds, is resubmitted,
-- starts a chained task, or is deleted. A thread may wait for the end of a task through `DoneState`
-- (async_io_result.hpp). `TcpServer` and `TcpClient` (async_io_tcp_server.hpp, async_io_tcp_client.hpp)
-- make sockets and tasks for them. Tasks and buffers live in pools of nodes (async_io_pool.hpp).
--
-- Which file models which part.
--   Prelude       shared names, Boolean tests, lists over native numbers, signed integers
--   Constants     async_io_constants.hpp: flags, sizes, `AsyncIoConfig`, `TaskType`, `TaskState`
--   Result        async_io_result.hpp: `IOResult`; `Signal`, `Reset`, `Wait` as one thread sees them
--   Result/Protocol   `Wait` against `Signal()`: atomic state, mutex, condition variable
--   KernelBuf     async_io_kernelbuf.hpp: the record and the fields that hold a result
--   KernelBuf/Storage   the storage tiers: `AllocateStorage`, `DestroyStorage`, `Resize`, moves
--   KernelBuf/Pooled    `KernelBuf` over `BufferPool`
--   InlineFunction    async_io_task.hpp: `InlineFunction`, over a heap of callables
--   InlineFunction/Program   programs over several of them, and what they mean
--   Traits        async_io_traits.hpp: `FunctionTraits`; the checks of `CreateTaskWithHandler`
--   Task          async_io_task.hpp: `AsyncTask`, its setters, `WaitForCompletion`
--   Task/Buffer   the getters, and the methods that replace the buffer
--   Task/Memory   `operator new` and `operator delete` of a task, over its pool
--   Handler/World     what an `IOHandler` works on, and a monad with faults for its methods
--   Handler/UserData  the word that an entry carries: address and event flag
--   Handler/Submit    `AddTask`, `SubmitTask`, `HandleConnect`, `QueueFailedTask`, `HandleFailedTask`
--   Handler/Dispatch  the event handlers, `DispatchCqe`, `RunEventLoop`, `Cancel`, `RequestShutdown`
--   Handler/Threads   `AddTask` in several threads, with the event loop
--   Handler/Process   the handlers of a process: construction, signals, shutdown, destruction
--   Handler/Queries   what a user reads of a handler; `Flush`
--   Tcp           `TcpServer` and `TcpClient`, over the log of their socket calls
--   Pool/Nodes    the `next` fields of all nodes as one memory
--   Pool/LockFree `LockFreeStack` of async_io_pool.hpp: `Push`, `PushChain` and `Pop` of threads
--   Pool/Cache    the caches of a thread, with `FlushHalf`
--   Pool/FreeList `MutexStack`, and what both pools do with a free list and a cache
--   Pool/ObjectPool, Pool/BufferPool   the two pools as one thread uses them
--   Pool/Threads  both pools with a cache for each of their threads, over Pool/LockFree
--   Tests         runs at concrete inputs, and the theorems at them
-- The other modules hold proofs, and are named for what they prove.
--
-- How state corresponds. A method is a function named as in the source, in snake case, from the
-- state to the state and a result. A task is a value on a heap, `World.tasks`; an access to a task
-- that was deleted is the outcome `fault`. `World.ring` is the log of the calls made to liburing; what
-- `io_uring_get_sqe` answers is a parameter that may depend on that log (`Env`). The completion handler
-- of a task is a parameter too, and may change all of the state. errno values and AF_INET are those of
-- the Linux ABI. Methods of `IOHandler` run without interference in most modules; interleavings are
-- modelled where the source is built for them, in Result/Protocol, Pool/LockFree, Pool/Threads and
-- Handler/Threads, one access at a time. The fields `owner`, `active`, `ended` and `counted_down` of
-- Handler/Threads stand for what no variable of the source holds: who has a task (a thread, the
-- submission queue or the kernel), which tasks have a slot, how many slots have ended, how often the
-- count went down. So do `holder` of Pool/LockFree, who has a node, and `in_use` of Pool/Threads, what is
-- given out.
--
-- Fuel. `AddTask` and what it calls may call one another without end, and the EAGAIN loop has no
-- bound, so `add_task`, `retry_add_task` and `delete_task` take fuel, and running out is an outcome of
-- its own. The theorems that a call returns hold from one round of fuel on, which is what their
-- statements show as `suc fuel`. The walk through a batch of a cache takes as many turns as the batch
-- has nodes: one more than the capacity of the cache is given, and no batch is longer.
-- The count of free nodes stops at a million by itself.
--
-- Integers. A count in flight is an unbounded signed integer (the source's is 64 bits wide); tags of
-- the lock-free stack wrap at 2 ^ 64; words of an entry are below 2 ^ 64.
--
-- Not modelled: `DebugLog` (diagnostics), caches that a destroyed `ObjectPool` leaves behind, what
-- `std::bind` does with a handler, the examples and the tests.
-- A buffer sees the pool through an interface, `BlockPool`, which `block_pool` of KernelBuf/Pooled
-- fills; the first word of a block there is the `next` field of the pool's node. Addresses are natural numbers, 0 is null; what `std::aligned_alloc` answers is a parameter.
pub mod Prelude
pub mod Constants
pub mod Result
pub mod Pool
pub mod KernelBuf
pub mod InlineFunction
pub mod Traits
pub mod Task
pub mod Handler
pub mod Tcp
pub mod Tests
