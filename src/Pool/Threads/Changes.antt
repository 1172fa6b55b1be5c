-- ===== src/Pool/Threads/Changes.antt =====
-- No step takes back an exchange, so a bound at the end of a run holds all along.
use async_io.Prelude.{ℕ, ◌≤◌, List, [], ◌∷◌, arith}
use async_io.Pool.Nodes.{Node}
use async_io.Pool.ObjectPool.{walk_fuel}
use async_io.Pool.LockFree as LockFree
use async_io.Pool.LockFree.{is_free, is_held}
use async_io.Pool.LockFree.Steps.{step_changes}
use async_io.Pool.FreeList.Grow.{block_nodes}
use async_io.Pool.Threads.{
  Kind, obj_size, Phase, SharedPool, Action, acquire, release, go, fail, allocated, write,
  hand_over, on_stack, go_on, set_phase, set_cache, give, put, flush, end_pop, ensure, advance,
  fail_exchange, receive, begin, start_acquire, start_release, step, run, reach,
}

module _ (k : Kind) (i : ℕ) (p : SharedPool) where
  advance_changes : (f : Phase) → p.stack.changes ≤ (advance k i f p).1.stack.changes
  unfolding advance ensure end_pop go_on give set_phase set_cache put on_stack
  advance_changes (Phase.popping is_first) = ground (arith, step_changes i LockFree.go p.stack)
  advance_changes (Phase.publishing n r again) = ground (arith, step_changes i LockFree.go p.stack)
  advance_changes (Phase.flushing n r obj) = ground (arith, step_changes i LockFree.go p.stack)
  advance_changes (Phase.carving ((n, x) ∷ ws) nodes again) =
      omega (arith, step_changes i (LockFree.scribble n x) p.stack)
  advance_changes (Phase.carving [] [] again) = omega arith
  advance_changes (Phase.carving [] (n ∷ r) again) =
      omega (arith, step_changes i (LockFree.push_chain n r) p.stack)
  advance_changes (Phase.linking ((m, x) ∷ ws) n r obj) =
      omega (arith, step_changes i (LockFree.scribble m x) p.stack)
  advance_changes (Phase.linking [] n r obj) =
      omega (arith, step_changes i (LockFree.push_chain n (reach walk_fuel p.stack.next n)) p.stack)
  advance_changes Phase.looking_again = omega (arith, step_changes i LockFree.pop p.stack)
  advance_changes Phase.ensuring = ground arith
  advance_changes Phase.resting = omega arith
  advance_changes (Phase.growing count again) = omega arith
  advance_changes (Phase.storing count block again) = omega arith
  advance_changes Phase.last_resort = omega arith

  fail_changes : (f : Phase) → p.stack.changes ≤ (fail_exchange k i f p).stack.changes
  unfolding fail_exchange on_stack
  fail_changes (Phase.popping is_first) = omega (arith, step_changes i LockFree.fail p.stack)
  fail_changes (Phase.publishing n r again) = omega (arith, step_changes i LockFree.fail p.stack)
  fail_changes (Phase.flushing n r obj) = omega (arith, step_changes i LockFree.fail p.stack)
  fail_changes Phase.resting = omega arith
  fail_changes _ = omega arith

  receive_changes : (f : Phase) (b : Node) → p.stack.changes ≤ (receive k i f b p).1.stack.changes
  unfolding receive go_on give set_phase on_stack
  receive_changes (Phase.growing count again) b =
      ground (arith, step_changes i (LockFree.obtain (block_nodes (obj_size k) count b)) p.stack)
  receive_changes Phase.last_resort b =
      ground (arith, step_changes i (LockFree.obtain (b ∷ [])) p.stack)
  receive_changes Phase.resting b = omega arith
  receive_changes _ b = omega arith

  release_changes : (n : Node) → p.stack.changes ≤ (start_release k i n p).stack.changes
  unfolding start_release put flush set_phase set_cache
  release_changes n = ground arith

  acquire_changes : p.stack.changes ≤ (start_acquire k i p).1.stack.changes
  unfolding start_acquire go_on give set_phase set_cache on_stack
  acquire_changes = ground (arith, step_changes i LockFree.pop p.stack)

  begin_changes : (f : Phase) (a : Action) → p.stack.changes ≤ (begin k i f a p).1.stack.changes
  unfolding begin go_on on_stack
  begin_changes Phase.resting acquire = acquire_changes
  begin_changes Phase.resting (release n) = ground (arith, release_changes n)
  begin_changes Phase.resting (write n x) =
      ground (arith, step_changes i (LockFree.scribble n x) p.stack)
  begin_changes Phase.resting (hand_over n j) =
      ground (arith, step_changes i (LockFree.hand_over n j) p.stack)
  begin_changes Phase.resting go = omega arith
  begin_changes Phase.resting fail = omega arith
  begin_changes Phase.resting (allocated b) = omega arith
  begin_changes _ a = omega arith

  pub pool_step_changes : (a : Action) → p.stack.changes ≤ (step k i a p).1.stack.changes
  unfolding step go_on
  pool_step_changes go = advance_changes (p.phase i)
  pool_step_changes fail = fail_changes (p.phase i)
  pool_step_changes (allocated b) = receive_changes (p.phase i) b
  pool_step_changes acquire = begin_changes (p.phase i) acquire
  pool_step_changes (release n) = begin_changes (p.phase i) (release n)
  pool_step_changes (write n x) = begin_changes (p.phase i) (write n x)
  pool_step_changes (hand_over n j) = begin_changes (p.phase i) (hand_over n j)

module _ (k : Kind) where
  pub run_changes :
      (acts : List (ℕ × Action)) (p : SharedPool) → p.stack.changes ≤ (run k acts p).stack.changes
  unfolding run
  run_changes [] p = omega arith
  run_changes ((i, a) ∷ rest) p =
      omega (arith, pool_step_changes k i p a, run_changes rest (step k i a p).1)
