-- ===== src/Task/Memory.antt =====
-- `operator new` and `operator delete` of `AsyncTask` (include/talon/async_io_task.hpp), over the pool
-- of tasks that `GetTaskPool` makes (include/talon/async_io_pool.hpp).
pub mod RoundTrip
use async_io.Prelude.{ℕ, ◌+◌, Bool, Option, none, some, List, [], ◌∷◌, ◌==◌, if◌then◌else◌}
use async_io.Constants.{object_pool_default_capacity, object_pool_grow_batch}
use async_io.Pool.Nodes.{Node}
use async_io.Pool.Cache.{Cache}
use async_io.Pool.ObjectPool.{ObjectPool, create, acquire, release_memory}

-- The pool of `AsyncTask<void>`, and what the global operators gave and took, the latest first.
pub record TaskMemory : Type 0 where
  pub pool : ObjectPool
  pub given : List Node
  pub taken_back : List Node

-- `aligned_alloc` is that of the pool, `global_new` the answer of `::operator new` by the number of
-- its calls before. `pooled` is the compile-time test for `AsyncTask<void>`.
module _ (aligned_alloc : ℕ → ℕ → Node) (sizeof_task : ℕ) (global_new : List Node → Node) where
  -- `GetTaskPool<AsyncTask<void>>()`, at its first call.
  unfoldable pub task_pool : Cache → ObjectPool
  task_pool cache =
      create aligned_alloc sizeof_task object_pool_default_capacity object_pool_grow_batch cache

  unfoldable pub global_operator_new : TaskMemory → Node × TaskMemory
  global_operator_new m = let mem = global_new m.given in (mem, record m { given = mem ∷ m.given })

  unfoldable pub operator_new : (pooled : Bool) → TaskMemory → Node × TaskMemory
  unfolding global_operator_new
  operator_new pooled m =
      if pooled
      then (let mem = acquire aligned_alloc sizeof_task m.pool in
          if mem.0 == 0
          then global_operator_new (record m { pool = mem.1 })
          else (mem.0, record m { pool = mem.1 }))
      else global_operator_new m

-- `::operator delete` of a null pointer does nothing.
unfoldable pub global_operator_delete : Node → TaskMemory → TaskMemory
global_operator_delete ptr m = if ptr == 0 then m else record m { taken_back = ptr ∷ m.taken_back }

-- `none`: the walk of `ReleaseMemory` has no end.
unfoldable pub operator_delete : (pooled : Bool) → Node → TaskMemory → Option TaskMemory
unfolding global_operator_delete
operator_delete pooled ptr m =
    if pooled
    then (if ptr == 0
        then some (global_operator_delete ptr m)
        else elim (release_memory ptr m.pool) [
          | none ↦ none
          | some p ↦ some (record m { pool = p })
        ])
    else some (global_operator_delete ptr m)
