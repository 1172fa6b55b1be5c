-- ===== src/Pool/Threads/Given.antt =====
-- What `Acquire` returns was with no thread, or the thread's own, and not in use.
use async_io.Prelude.{
  ℕ, ◌-◌, ◌≡◌, ◌≢◌, inl, inr, Bool, true, false, some, [], ◌∷◌, ◌==◌, Bool-cases, ==_of_ne, arith,
}
use async_io.Pool.Nodes.{Node}
use async_io.Pool.Cache.{Cache, contents, reset}
use async_io.Pool.Cache as Cache
use async_io.Pool.LockFree as LockFree
use async_io.Pool.LockFree.{Stack, popped, is_free, is_held, go, obtain}
use async_io.Pool.LockFree.Chains.{free-unheld}
use async_io.Pool.LockFree.Calls.{PopOutcome, go_pop, obtain_takes}
use async_io.Pool.Threads.{
  Kind, Phase, SharedPool, Action, acquire, release, allocated, write, hand_over, on_stack, go_on,
  give, set_phase, set_cache, end_pop, advance, receive, begin, start_acquire, step,
}
use async_io.Pool.Threads.Invariant.{Local, PoolInv}
use async_io.Pool.Threads.Locals.{occ-pop}
use async_io.Pool.Threads.Advance.{Pops-is_idle, at_rest}

-- `Acquire` by thread `i` has returned `n`, which was nobody's.
abbrev pub Given : ℕ → SharedPool → SharedPool → Node → Type 0
Given i p p' n = (p.in_use n ≡ false) × (p'.in_use n ≡ true) × (p'.stack.holder n ≡ some i)

module _ (k : Kind) (i : ℕ) (p : SharedPool) (v : PoolInv k p) (n : Node) (live : n ≢ 0) where
  popping_gives :
      (is_first : Bool)
      → Local k i p.stack p.in_use (p.stack.pc i) (p.caches i) (Phase.popping is_first)
      → (advance k i (Phase.popping is_first) p).0 ≡ some n
      → Given i p (advance k i (Phase.popping is_first) p).1 n
  unfolding advance end_pop on_stack go_on give set_phase
  popping_gives is_first own =
      let s' = LockFree.step i go p.stack in
      elim (go_pop i p.stack v.stack_inv own.stage) [
        | PopOutcome.goes_on pops holders nexts ↦
            rw (Pops-is_idle (s'.pc i) pops) (λ e. absurd (cc e))
        | PopOutcome.finds_none idle null holders nexts ↦
            rw (at_rest (s'.pc i) idle) (rw null (λ e. absurd (cc e)))
        | PopOutcome.takes idle some_there free holders nexts ↦ rw (at_rest (s'.pc i) idle) (
            rw (==_of_ne (popped (p.stack.pc i)) 0 some_there) (λ e.
              let same : popped (p.stack.pc i) ≡ n = cc e in
              let unused = v.unheld_unused n (rw same at free) in
              (unused, ground arith, rw holders (ground arith))))
      ]

  last_resort_gives :
      (b : Node)
      → Local k i p.stack p.in_use (p.stack.pc i) (p.caches i) Phase.last_resort
      → (receive k i Phase.last_resort b p).0 ≡ some n
      → Given i p (receive k i Phase.last_resort b p).1 n
  unfolding receive on_stack go_on give set_phase
  last_resort_gives b own = elim (Bool-cases (b == 0)) [
    | inl failed ↦ rw failed (λ e. absurd (ground arith))
    | inr got ↦ elim (Bool-cases (is_free p.stack (b ∷ []))) [
      | inr taken ↦ rw got (rw taken (λ e. absurd (cc e)))
      | inl free ↦ rw got (
          rw free (λ e.
            let same : b ≡ n = cc e in
            let nobody = free-unheld (b ∷ []) p.stack b free (ground arith) in
            let unused = v.unheld_unused n (rw same at nobody) in
            let w = obtain_takes i p.stack own.stage (b ∷ []) free in
            (unused, ground arith, rw w (ground arith))))
    ]
  ]

  acquire_gives :
      Local k i p.stack p.in_use (p.stack.pc i) (p.caches i) Phase.resting
      → (start_acquire k i p).0 ≡ some n
      → Given i p (start_acquire k i p).1 n
  unfolding start_acquire give go_on set_phase set_cache on_stack Cache.pop
  acquire_gives own =
      let c = p.caches i in
      elim (Bool-cases (c.count == 0)) [
        | inl nothing ↦ rw nothing (λ e. absurd (cc e))
        | inr there ↦
            let top = c.nodes (c.count - 1) in
            let mine = own.own top (ground (arith, occ-pop top c (ground arith))) in
            rw there (
              rw (==_of_ne top 0 mine.2) (λ e.
                let same : top ≡ n = cc e in (rw same at mine.1, ground arith, rw same at mine.0)))
      ]

  advance_gives :
      (f : Phase)
      → Local k i p.stack p.in_use (p.stack.pc i) (p.caches i) f
      → (advance k i f p).0 ≡ some n
      → Given i p (advance k i f p).1 n
  unfolding advance go_on
  advance_gives (Phase.popping is_first) own e = popping_gives is_first own e
  advance_gives (Phase.carving ((m, x) ∷ ws) nodes again) own e = absurd (cc e)
  advance_gives (Phase.carving [] [] again) own e = absurd (cc e)
  advance_gives (Phase.carving [] (m ∷ r) again) own e = absurd (cc e)
  advance_gives (Phase.linking ((m, x) ∷ ws) batch r obj) own e = absurd (cc e)
  advance_gives (Phase.linking [] batch r obj) own e = absurd (cc e)
  advance_gives Phase.resting own e = absurd (cc e)
  advance_gives Phase.ensuring own e = absurd (cc e)
  advance_gives (Phase.growing count again) own e = absurd (cc e)
  advance_gives (Phase.storing count block again) own e = absurd (cc e)
  advance_gives (Phase.publishing m r again) own e = absurd (cc e)
  advance_gives Phase.looking_again own e = absurd (cc e)
  advance_gives Phase.last_resort own e = absurd (cc e)
  advance_gives (Phase.flushing m r obj) own e = absurd (cc e)

  receive_gives :
      (f : Phase) (b : Node)
      → Local k i p.stack p.in_use (p.stack.pc i) (p.caches i) f
      → (receive k i f b p).0 ≡ some n
      → Given i p (receive k i f b p).1 n
  unfolding receive go_on
  receive_gives Phase.last_resort b own e = last_resort_gives b own e
  receive_gives (Phase.growing count again) b own e = absurd (ground arith)
  receive_gives Phase.resting b own e = absurd (cc e)
  receive_gives (Phase.popping is_first) b own e = absurd (cc e)
  receive_gives Phase.ensuring b own e = absurd (cc e)
  receive_gives (Phase.storing count block again) b own e = absurd (cc e)
  receive_gives (Phase.carving ws nodes again) b own e = absurd (cc e)
  receive_gives (Phase.publishing m r again) b own e = absurd (cc e)
  receive_gives Phase.looking_again b own e = absurd (cc e)
  receive_gives (Phase.linking ws m r obj) b own e = absurd (cc e)
  receive_gives (Phase.flushing m r obj) b own e = absurd (cc e)

  begin_gives :
      (f : Phase) (a : Action)
      → Local k i p.stack p.in_use (p.stack.pc i) (p.caches i) f
      → (begin k i f a p).0 ≡ some n
      → Given i p (begin k i f a p).1 n
  unfolding begin go_on
  begin_gives Phase.resting acquire own e = acquire_gives own e
  begin_gives Phase.resting (release m) own e = absurd (ground arith)
  begin_gives Phase.resting (write m x) own e = absurd (ground arith)
  begin_gives Phase.resting (hand_over m j) own e = absurd (ground arith)
  begin_gives Phase.resting Action.go own e = absurd (cc e)
  begin_gives Phase.resting Action.fail own e = absurd (cc e)
  begin_gives Phase.resting (allocated b) own e = absurd (cc e)
  begin_gives (Phase.popping is_first) a own e = absurd (cc e)
  begin_gives Phase.ensuring a own e = absurd (cc e)
  begin_gives (Phase.growing count again) a own e = absurd (cc e)
  begin_gives (Phase.storing count block again) a own e = absurd (cc e)
  begin_gives (Phase.carving ws nodes again) a own e = absurd (cc e)
  begin_gives (Phase.publishing m r again) a own e = absurd (cc e)
  begin_gives Phase.looking_again a own e = absurd (cc e)
  begin_gives Phase.last_resort a own e = absurd (cc e)
  begin_gives (Phase.linking ws m r obj) a own e = absurd (cc e)
  begin_gives (Phase.flushing m r obj) a own e = absurd (cc e)

  pub step_gives : (a : Action) → (step k i a p).0 ≡ some n → Given i p (step k i a p).1 n
  unfolding step go_on
  step_gives Action.go e = advance_gives (p.phase i) (v.threads i) e
  step_gives Action.fail e = absurd (cc e)
  step_gives (allocated b) e = receive_gives (p.phase i) b (v.threads i) e
  step_gives acquire e = begin_gives (p.phase i) acquire (v.threads i) e
  step_gives (release m) e = begin_gives (p.phase i) (release m) (v.threads i) e
  step_gives (write m x) e = begin_gives (p.phase i) (write m x) (v.threads i) e
  step_gives (hand_over m j) e = begin_gives (p.phase i) (hand_over m j) (v.threads i) e
