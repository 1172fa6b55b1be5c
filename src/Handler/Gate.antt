-- ===== src/Handler/Gate.antt =====
-- The gates of `AddTask`: a task that is already submitted, and the limit on operations in flight.
use async_io.Prelude.{ℕ, suc, ◌≡◌, ◌≢◌, refl, false, some, pos, ◌≤ℤ◌, ◌<ℤ◌, arith}
use async_io.Constants.{TaskState}
use async_io.Result.{literal}
use async_io.Task.{Ptr, null, AsyncTask}
use async_io.Handler.World.{Env, World, ok, update, load, modify}
use async_io.Handler.Submit.{add_task, try_transition_to_submitted, reserve_slot}

module _ (env : Env) (fuel : ℕ) (p : Ptr) (w : World) {t : AsyncTask} (live : p ≢ null)
    (at : w.tasks p ≡ some t) where
  -- `AddTask` of a task that is submitted already returns false, and writes nothing but its text and
  -- its detached flag: nothing is submitted or counted.
  pub add_task-submitted :
      t.task_state ≡ TaskState.submitted
      → (w' : World) × (add_task env (suc fuel) p w ≡ ok false w')
        × (w'.tasks p
            ≡ some (record t { debug_str = literal "failed: already executing"; detach = false }))
        × ((q : Ptr) → q ≢ p → w'.tasks q ≡ w.tasks q)
        × (w'.inflight_count ≡ w.inflight_count)
        × (w'.ring ≡ w.ring)
  unfolding add_task try_transition_to_submitted reserve_slot load modify
  add_task-submitted e = (
    record w {
      tasks =
          update
            (update w.tasks p (some (record t { debug_str = literal "failed: already executing" })))
            p (some (record t { debug_str = literal "failed: already executing"; detach = false }));
    },
    ground arith,
    ground arith,
    λ q ne. ground arith,
    refl,
    refl,
  )

  -- At the limit `AddTask` of a task that is not submitted returns false; the task is ready then, and
  -- otherwise as it was, and nothing is submitted or counted.
  pub add_task-saturated :
      t.task_state ≢ TaskState.submitted
      → pos 0 <ℤ env.config.max_inflight_ops
      → env.config.max_inflight_ops ≤ℤ w.inflight_count
      → (w' : World) × (add_task env (suc fuel) p w ≡ ok false w')
        × (w'.tasks p ≡ some (record t { task_state = TaskState.ready }))
        × ((q : Ptr) → q ≢ p → w'.tasks q ≡ w.tasks q)
        × (w'.inflight_count ≡ w.inflight_count)
        × (w'.ring ≡ w.ring)
  unfolding add_task try_transition_to_submitted reserve_slot load modify
  add_task-saturated e limited full = (
    record w {
      tasks =
          update (update w.tasks p (some (record t { task_state = TaskState.submitted }))) p
            (some (record t { task_state = TaskState.ready }));
    },
    ground arith,
    ground arith,
    λ q ne. ground arith,
    refl,
    refl,
  )
