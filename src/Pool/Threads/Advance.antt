-- ===== src/Pool/Threads/Advance.antt =====
-- The next access of a thread in a call keeps the invariant of the shared pool.
use async_io.Prelude.{
  ℕ, zero, suc, ◌+◌, ◌<◌, ◌^◌, ◌≡◌, refl, Bool, true, false, List, [], ◌∷◌, ==_of_ne, if◌then◌else◌,
  arith,
}
use async_io.Pool.Nodes.{Node, Memory, upd}
use async_io.Pool.Count.{occ}
use async_io.Pool.Cache as Cache
use async_io.Pool.ObjectPool.{walk_fuel}
use async_io.Pool.LockFree.{Pc, Stack, Action, popped, released, go, pop, scribble, push_chain}
use async_io.Pool.LockFree as LockFree
use async_io.Pool.LockFree.Calls.{Pops, Pushes, PopOutcome, PushOutcome, go_pop, go_push}
use async_io.Pool.FreeList.Grow.{block_nodes}
use async_io.Pool.Threads.{
  Kind, capacity, obj_size, grow_count, first_miss, ensure, Store, Phase, SharedPool, set_phase,
  on_stack, set_cache, give, go_on, after_grow, put, end_pop, advance, is_idle, carve_stores,
}
use async_io.Pool.Threads.Invariant.{
  transit, Stage, Local, PoolInv, Kept, still, Only-upd, Only-same,
}
use async_io.Pool.Threads.Locals.{zero_of, push_counts, push_room, Local-less}
use async_io.Pool.Threads.Kinds.{
  given_unused, given_same, given_keeps, on_stack-Inv, moves_on, moves_alone, scribbled-Inv,
  published-Inv, pop_begun-Inv, returned-Inv,
}
use async_io.Pool.Threads.Sizes.{obj_size-positive}
use async_io.Pool.Threads.Stores.{carve_stores-Leads, carve_stores-Within, reach-Leads}

pub Pops-is_idle : (c : Pc) → Pops c → is_idle c ≡ false
unfolding is_idle
Pops-is_idle Pc.idle p = absurd p
Pops-is_idle (Pc.push_loaded n r o t) p = refl
Pops-is_idle (Pc.push_stored n r o t) p = refl
Pops-is_idle (Pc.pop_loaded o t) p = refl
Pops-is_idle (Pc.pop_read o t x) p = refl

Pushes-is_idle : (c : Pc) (n : Node) (r : List Node) → Pushes c n r → is_idle c ≡ false
unfolding is_idle
Pushes-is_idle Pc.idle n r p = absurd p
Pushes-is_idle (Pc.push_loaded n' r' o t) n r p = refl
Pushes-is_idle (Pc.push_stored n' r' o t) n r p = refl
Pushes-is_idle (Pc.pop_loaded o t) n r p = refl
Pushes-is_idle (Pc.pop_read o t x) n r p = refl

pub at_rest : (c : Pc) → c ≡ Pc.idle → is_idle c ≡ true
unfolding is_idle
at_rest c e = rw e refl

module _ (k : Kind) (i : ℕ) (p : SharedPool) (v : PoolInv k p)
    (small : p.stack.changes + 1 < 2 ^ 64) where
  after_miss :
      (is_first : Bool) (c : Pc) (next : Memory)
      → c ≡ Pc.idle
      → let f = if is_first then first_miss k else Phase.last_resort in
        (transit k f ≡ []) × Stage k c next f
  unfolding first_miss
  after_miss false c next idle = (refl, idle)
  after_miss true c next idle = at_kind k
    where
      at_kind : (k' : Kind) → (transit k (first_miss k') ≡ []) × Stage k c next (first_miss k')
      at_kind (Kind.object_pool sizeof_t grow_batch) = (refl, idle)
      at_kind (Kind.buffer_class idx) = (refl, idle)

  ensuring-Inv :
      Local k i p.stack p.in_use (p.stack.pc i) (p.caches i) Phase.ensuring
      → Kept k i p (advance k i Phase.ensuring p).1
  unfolding advance ensure go_on set_phase
  ensuring-Inv own = at_flag p.populated
    where
      filling : Phase
      filling = Phase.growing (grow_count k) true

      at_flag :
          (b : Bool)
          → Kept k i p (
              if b
              then set_phase i Phase.looking_again p
              else set_phase i filling (record p { populated = true }))
      at_flag true =
          moves_alone k i p v small Phase.ensuring Phase.looking_again refl refl refl
            (Only-upd i p.phase Phase.looking_again) (λ x. omega arith) own.stage own
      at_flag false =
          moves_alone k i p v small Phase.ensuring filling refl refl refl
            (Only-upd i p.phase filling) (λ x. omega arith) own.stage own

  popping-Inv :
      (is_first : Bool)
      → p.phase i ≡ Phase.popping is_first
      → Local k i p.stack p.in_use (p.stack.pc i) (p.caches i) (Phase.popping is_first)
      → Kept k i p (advance k i (Phase.popping is_first) p).1
  unfolding advance end_pop on_stack go_on give set_phase
  popping-Inv is_first at own =
      let s' = LockFree.step i go p.stack in
      elim (go_pop i p.stack v.stack_inv own.stage) [
        | PopOutcome.goes_on pops holders nexts ↦ rw (Pops-is_idle (s'.pc i) pops) (
            moves_on k i p v small go (Phase.popping is_first) (Phase.popping is_first) refl refl
              refl (Only-same i p.phase (Phase.popping is_first) at) holders (λ x. omega arith) pops
              own)
        | PopOutcome.finds_none idle null holders nexts ↦ rw (at_rest (s'.pc i) idle) (
            rw null (
              let f = if is_first then first_miss k else Phase.last_resort in
              let (nothing, stage) = after_miss is_first (s'.pc i) s'.next idle in
              moves_on k i p v small go (Phase.popping is_first) f refl refl refl
                (Only-upd i p.phase f) holders (λ x. rw nothing (omega arith)) stage own))
        | PopOutcome.takes idle live free holders nexts ↦
            let n = popped (p.stack.pc i) in
            rw (at_rest (s'.pc i) idle) (
              rw (==_of_ne n 0 live) (
                on_stack-Inv k i p v small go (p.caches i) Phase.resting refl
                  (Only-same i p.caches (p.caches i) refl) (Only-upd i p.phase Phase.resting)
                  (λ x none_there.
                    given_unused p.stack.holder p.in_use n i x (v.unheld_unused x)
                      (rw holders at none_there))
                  (λ j ne x h. given_same p.stack.holder p.in_use n i j x free h)
                  (Local-less k i p.stack s' p.in_use (upd p.in_use n true) (p.stack.pc i) (s'.pc i)
                    (p.caches i) (p.caches i) (Phase.popping is_first) Phase.resting
                    (λ x. omega arith)
                    (λ x here held unused.
                      rw holders (given_keeps p.stack.holder p.in_use n i x free held unused))
                    own.room idle own)))
      ]

  storing-Inv :
      (count : ℕ) (block : Node) (again : Bool)
      → Local k i p.stack p.in_use (p.stack.pc i) (p.caches i) (Phase.storing count block again)
      → Kept k i p (advance k i (Phase.storing count block again) p).1
  unfolding advance go_on set_phase carve_stores
  storing-Inv count block again own =
      let f =
        Phase.carving (carve_stores (obj_size k) count block) (block_nodes (obj_size k) count block)
          again in
      moves_alone k i p v small (Phase.storing count block again) f refl refl refl
        (Only-upd i p.phase f) (λ x. omega arith) (stage count) own
    where
      stage :
          (count : ℕ)
          → Stage k (p.stack.pc i) p.stack.next (
              Phase.carving
                (carve_stores (obj_size k) count block)
                (block_nodes (obj_size k) count block)
                again)
      stage zero = (own.stage.0, refl)
      stage (suc count) = (
        own.stage.0,
        (
          carve_stores-Leads (obj_size k) (obj_size-positive k) count block p.stack.next,
          carve_stores-Within (obj_size k) (obj_size-positive k) count block,
        ),
      )

  carving-Inv :
      (ws : List Store) (nodes : List Node) (again : Bool)
      → Local k i p.stack p.in_use (p.stack.pc i) (p.caches i) (Phase.carving ws nodes again)
      → Kept k i p (advance k i (Phase.carving ws nodes again) p).1
  unfolding advance go_on set_phase on_stack after_grow
  carving-Inv [] [] again own =
      let f = if again then Phase.looking_again else Phase.resting in
      moves_alone k i p v small (Phase.carving [] [] again) f refl refl refl (Only-upd i p.phase f)
        (λ x. ground arith) (ground (arith, own.stage.0)) own
  carving-Inv ((n, x) ∷ ws) [] again own = absurd (cc own.stage.1)
  carving-Inv ((n, x) ∷ ws) (m ∷ r) again own =
      scribbled-Inv k i p v small n x (Phase.carving ((n, x) ∷ ws) (m ∷ r) again)
        (Phase.carving ws (m ∷ r) again) own.stage.1.1.0 own.stage.0 refl refl refl
        (Only-upd i p.phase (Phase.carving ws (m ∷ r) again)) (λ y. omega arith)
        (refl, (own.stage.1.0, own.stage.1.1.1)) own
  carving-Inv [] (n ∷ r) again own =
      published-Inv k i p v small n r (Phase.carving [] (n ∷ r) again) (Phase.publishing n r again)
        own.stage.0 own.stage.1.0 refl refl refl (Only-upd i p.phase (Phase.publishing n r again))
        (λ x. omega arith) (λ x. omega arith) (λ c h. h) own

  publishing-Inv :
      (n : Node) (r : List Node) (again : Bool)
      → p.phase i ≡ Phase.publishing n r again
      → Local k i p.stack p.in_use (p.stack.pc i) (p.caches i) (Phase.publishing n r again)
      → Kept k i p (advance k i (Phase.publishing n r again) p).1
  unfolding advance go_on set_phase on_stack after_grow
  publishing-Inv n r again at own =
      let s' = LockFree.step i go p.stack in
      elim (go_push i n r p.stack own.stage) [
        | PushOutcome.goes_on pushes holders nexts ↦ rw (Pushes-is_idle (s'.pc i) n r pushes) (
            moves_on k i p v small go (Phase.publishing n r again) (Phase.publishing n r again) refl
              refl refl (Only-same i p.phase (Phase.publishing n r again) at) holders
              (λ x. omega arith) pushes own)
        | PushOutcome.returns idle holders nexts ↦ rw (at_rest (s'.pc i) idle) (
            let f = if again then Phase.looking_again else Phase.resting in
            returned-Inv k i p v small n r (p.caches i) (Phase.publishing n r again) f refl idle
              holders (Only-same i p.caches (p.caches i) refl) refl (Only-upd i p.phase f)
              (λ x. ground arith) own.room (λ next. ground arith) own)
      ]

  looking_again-Inv :
      Local k i p.stack p.in_use (p.stack.pc i) (p.caches i) Phase.looking_again
      → Kept k i p (advance k i Phase.looking_again p).1
  unfolding advance go_on set_phase on_stack
  looking_again-Inv own =
      pop_begun-Inv k i p v small Phase.looking_again (Phase.popping false) own.stage refl refl refl
        (Only-upd i p.phase (Phase.popping false)) (λ x. omega arith) (λ c h. h) own

  linking-Inv :
      (ws : List Store) (n : Node) (r : List Node) (obj : Node)
      → Local k i p.stack p.in_use (p.stack.pc i) (p.caches i) (Phase.linking ws n r obj)
      → Kept k i p (advance k i (Phase.linking ws n r obj) p).1
  unfolding advance go_on set_phase on_stack
  linking-Inv ((m, x) ∷ ws) n r obj own =
      let (at, leads, within, short) = own.stage in
      scribbled-Inv k i p v small m x (Phase.linking ((m, x) ∷ ws) n r obj)
        (Phase.linking ws n r obj) (omega (arith, within.0)) at refl refl refl
        (Only-upd i p.phase (Phase.linking ws n r obj)) (λ y. omega arith)
        (refl, leads, within.1, short) own
  linking-Inv [] n r obj own =
      let (at, leads, within, short) = own.stage in
      let live = zero_of (occ 0 r) (λ here. (own.own 0 (omega (arith, here))).2 refl) in
      let walked = reach-Leads walk_fuel p.stack.next n r leads live short in
      rw walked (
        published-Inv k i p v small n r (Phase.linking [] n r obj) (Phase.flushing n r obj) at leads
          refl refl refl (Only-upd i p.phase (Phase.flushing n r obj)) (λ x. omega arith)
          (λ x. omega arith) (λ c h. h) own)

  flushing-Inv :
      (n : Node) (r : List Node) (obj : Node)
      → p.phase i ≡ Phase.flushing n r obj
      → Local k i p.stack p.in_use (p.stack.pc i) (p.caches i) (Phase.flushing n r obj)
      → Kept k i p (advance k i (Phase.flushing n r obj) p).1
  unfolding advance go_on set_phase set_cache on_stack put
  flushing-Inv n r obj at own =
      let s' = LockFree.step i go p.stack in
      elim (go_push i n r p.stack own.stage) [
        | PushOutcome.goes_on pushes holders nexts ↦ rw (Pushes-is_idle (s'.pc i) n r pushes) (
            moves_on k i p v small go (Phase.flushing n r obj) (Phase.flushing n r obj) refl refl
              refl (Only-same i p.phase (Phase.flushing n r obj) at) holders (λ x. omega arith)
              pushes own)
        | PushOutcome.returns idle holders nexts ↦ rw (at_rest (s'.pc i) idle) (
            let c' = (Cache.push (capacity k) obj (p.caches i)).1 in
            returned-Inv k i p v small n r c' (Phase.flushing n r obj) Phase.resting refl idle
              holders (Only-upd i p.caches c') refl (Only-upd i p.phase Phase.resting)
              (λ x. omega (arith, push_counts (capacity k) obj x (p.caches i)))
              (push_room (capacity k) obj (p.caches i) own.room) (λ next. refl) own)
      ]

  pub advance-Inv :
      (f : Phase)
      → p.phase i ≡ f
      → Local k i p.stack p.in_use (p.stack.pc i) (p.caches i) f
      → Kept k i p (advance k i f p).1
  unfolding advance go_on
  advance-Inv Phase.resting at own = still k i p v
  advance-Inv (Phase.popping is_first) at own = popping-Inv is_first at own
  advance-Inv Phase.ensuring at own = ensuring-Inv own
  advance-Inv (Phase.growing count again) at own = still k i p v
  advance-Inv (Phase.storing count block again) at own = storing-Inv count block again own
  advance-Inv (Phase.carving ws nodes again) at own = carving-Inv ws nodes again own
  advance-Inv (Phase.publishing n r again) at own = publishing-Inv n r again at own
  advance-Inv Phase.looking_again at own = looking_again-Inv own
  advance-Inv Phase.last_resort at own = still k i p v
  advance-Inv (Phase.linking ws n r obj) at own = linking-Inv ws n r obj own
  advance-Inv (Phase.flushing n r obj) at own = flushing-Inv n r obj at own
