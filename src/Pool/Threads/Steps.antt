-- ===== src/Pool/Threads/Steps.antt =====
-- Every step keeps the invariant of the shared pool.
use async_io.Prelude.{
  ℕ, ◌+◌, ◌-◌, ◌<◌, ◌^◌, ◌≡◌, ◌≢◌, refl, sym, ◌∙◌, inl, inr, Bool, true, false, none, some, List,
  [], ◌∷◌, ◌==◌, Bool-cases, ==_of_ne, leb, if◌then◌else◌, arith,
}
use async_io.Pool.Nodes.{Node, upd}
use async_io.Pool.Count.{occ}
use async_io.Pool.Cache.{Cache, contents, slice}
use async_io.Pool.Cache as Cache
use async_io.Pool.LockFree.{
  Pc, Stack, granted, is_free, is_held, go, pop, scribble, push_chain, obtain,
}
use async_io.Pool.LockFree as LockFree
use async_io.Pool.LockFree.Chains.{free-unheld, granted_here, granted_outside}
use async_io.Pool.LockFree.Calls.{pop_starts, obtain_takes, fail_pop, fail_push}
use async_io.Pool.FreeList.Grow.{block_nodes, block_nodes-Once}
use async_io.Pool.Threads.{
  Kind, obj_size, Phase, SharedPool, set_phase, on_stack, set_cache, give, go_on, after_grow,
  fail_exchange, receive, start_acquire,
}
use async_io.Pool.Threads.Invariant.{Local, PoolInv, Kept, still, Only-upd, Only-same}
use async_io.Pool.Threads.Locals.{occ-pop, Local-less, Local-same, Local-more}
use async_io.Pool.Threads.Kinds.{
  given_unused, given_same, given_keeps, on_stack-Inv, alone-Inv, moves_on, moves_alone,
}
use async_io.Pool.Threads.Sizes.{obj_size-positive}
use async_io.Pool.Threads.Stores.{block_nodes_live}

module _ (k : Kind) (i : ℕ) (p : SharedPool) (v : PoolInv k p)
    (small : p.stack.changes + 1 < 2 ^ 64) where
  pub fail_exchange-Inv :
      (f : Phase)
      → p.phase i ≡ f
      → Local k i p.stack p.in_use (p.stack.pc i) (p.caches i) f
      → Kept k i p (fail_exchange k i f p)
  unfolding fail_exchange on_stack
  fail_exchange-Inv (Phase.popping is_first) at own =
      let (pops, holders, nexts) = fail_pop i p.stack own.stage in
      moves_on k i p v small LockFree.fail (Phase.popping is_first) (Phase.popping is_first) refl
        refl refl (Only-same i p.phase (Phase.popping is_first) at) holders (λ x. omega arith) pops
        own
  fail_exchange-Inv (Phase.publishing n r again) at own =
      let (pushes, holders, nexts) = fail_push i n r p.stack own.stage in
      moves_on k i p v small LockFree.fail (Phase.publishing n r again) (Phase.publishing n r again)
        refl refl refl (Only-same i p.phase (Phase.publishing n r again) at) holders
        (λ x. omega arith) pushes own
  fail_exchange-Inv (Phase.flushing n r obj) at own =
      let (pushes, holders, nexts) = fail_push i n r p.stack own.stage in
      moves_on k i p v small LockFree.fail (Phase.flushing n r obj) (Phase.flushing n r obj) refl
        refl refl (Only-same i p.phase (Phase.flushing n r obj) at) holders (λ x. omega arith)
        pushes own
  fail_exchange-Inv Phase.resting at own = still k i p v
  fail_exchange-Inv Phase.ensuring at own = still k i p v
  fail_exchange-Inv (Phase.growing count again) at own = still k i p v
  fail_exchange-Inv (Phase.storing count block again) at own = still k i p v
  fail_exchange-Inv (Phase.carving ws nodes again) at own = still k i p v
  fail_exchange-Inv Phase.looking_again at own = still k i p v
  fail_exchange-Inv Phase.last_resort at own = still k i p v
  fail_exchange-Inv (Phase.linking ws n r obj) at own = still k i p v

  granted_unused :
      (ns : List Node) (x : Node) → granted ns i p.stack.holder x ≡ none → p.in_use x ≡ false
  granted_unused ns x nobody = elim (Bool-cases (leb 1 (occ x ns))) [
    | inl here ↦
        let mine = granted_here ns i p.stack.holder x (ground arith) in absurd (ground arith)
    | inr out ↦
        v.unheld_unused x (sym (granted_outside ns i p.stack.holder x (ground arith)) ∙ nobody)
  ]

  pub growing-Inv :
      (count : ℕ) (again : Bool) (b : Node)
      → Local k i p.stack p.in_use (p.stack.pc i) (p.caches i) (Phase.growing count again)
      → Kept k i p (receive k i (Phase.growing count again) b p).1
  unfolding receive go_on set_phase on_stack after_grow
  growing-Inv count again b own = elim (Bool-cases (b == 0)) [
    | inl failed ↦ rw failed (
        let f = if again then Phase.looking_again else Phase.resting in
        moves_alone k i p v small (Phase.growing count again) f refl refl refl
          (Only-upd i p.phase f) (λ x. ground arith) (ground (arith, own.stage)) own)
    | inr got ↦ elim (Bool-cases (is_free p.stack (block_nodes (obj_size k) count b))) [
      | inr taken ↦ rw got (rw taken (still k i p v))
      | inl free ↦
          let ns = block_nodes (obj_size k) count b in
          let f = Phase.storing count b again in
          let live : b ≢ 0 = ground arith in
          let w = obtain_takes i p.stack own.stage ns free in
          let s' = LockFree.step i (obtain ns) p.stack in
          let holders : s'.holder ≡ granted ns i p.stack.holder = rw w refl in
          rw got (
            rw free (
              on_stack-Inv k i p v small (obtain ns) (p.caches i) f refl
                (Only-same i p.caches (p.caches i) refl) (Only-upd i p.phase f)
                (λ x nobody. granted_unused ns x (rw holders at nobody)) (λ j ne x h. refl)
                (Local-more k i p.stack s' p.in_use (p.stack.pc i) (s'.pc i) (p.caches i)
                  (Phase.growing count again) f ns free holders v.unheld_unused
                  (block_nodes-Once (obj_size k) count b (obj_size-positive k))
                  (block_nodes_live (obj_size k) count b live) refl refl
                  (rw w ((Only-upd i p.stack.pc Pc.idle).0), live) own)))
    ]
  ]

  pub last_resort-Inv :
      (b : Node)
      → Local k i p.stack p.in_use (p.stack.pc i) (p.caches i) Phase.last_resort
      → Kept k i p (receive k i Phase.last_resort b p).1
  unfolding receive go_on set_phase on_stack give
  last_resort-Inv b own = elim (Bool-cases (b == 0)) [
    | inl failed ↦ rw failed (
        moves_alone k i p v small Phase.last_resort Phase.resting refl refl refl
          (Only-upd i p.phase Phase.resting) (λ x. omega arith) own.stage own)
    | inr got ↦ elim (Bool-cases (is_free p.stack (b ∷ []))) [
      | inr taken ↦ rw got (rw taken (still k i p v))
      | inl free ↦
          let w = obtain_takes i p.stack own.stage (b ∷ []) free in
          let s' = LockFree.step i (obtain (b ∷ [])) p.stack in
          let holders : s'.holder ≡ upd p.stack.holder b (some i) = rw w refl in
          let nobody = free-unheld (b ∷ []) p.stack b free (ground arith) in
          rw got (
            rw free (
              on_stack-Inv k i p v small (obtain (b ∷ [])) (p.caches i) Phase.resting refl
                (Only-same i p.caches (p.caches i) refl) (Only-upd i p.phase Phase.resting)
                (λ x unheld.
                  given_unused p.stack.holder p.in_use b i x (v.unheld_unused x)
                    (rw holders at unheld))
                (λ j ne x h. given_same p.stack.holder p.in_use b i j x nobody h)
                (Local-less k i p.stack s' p.in_use (upd p.in_use b true) (p.stack.pc i) (s'.pc i)
                  (p.caches i) (p.caches i) Phase.last_resort Phase.resting (λ x. omega arith)
                  (λ x here held unused.
                    rw holders (given_keeps p.stack.holder p.in_use b i x nobody held unused))
                  own.room (rw w ((Only-upd i p.stack.pc Pc.idle).0)) own)))
    ]
  ]

  -- A node that the thread has comes into use.
  taken_unused :
      (n x : Node)
      → p.stack.holder n ≡ some i
      → p.stack.holder x ≡ none
      → upd p.in_use n true x ≡ false
  taken_unused n x mine nobody =
      let differ : x ≢ n = λ e. ground arith in ground (arith, v.unheld_unused x)

  taken_same :
      (n j x : Node)
      → j ≢ i
      → p.stack.holder n ≡ some i
      → p.stack.holder x ≡ some j
      → upd p.in_use n true x ≡ p.in_use x
  taken_same n j x ne mine held = let differ : x ≢ n = λ e. ground arith in ground arith

  pub acquire-Inv :
      Local k i p.stack p.in_use (p.stack.pc i) (p.caches i) Phase.resting
      → Kept k i p (start_acquire k i p).1
  unfolding start_acquire give go_on set_phase set_cache on_stack Cache.pop
  acquire-Inv own =
      let c = p.caches i in
      elim (Bool-cases (c.count == 0)) [
        | inl nothing ↦
            let w = pop_starts i p.stack own.stage in
            let s' = LockFree.step i pop p.stack in
            let at = Pc.pop_loaded p.stack.head p.stack.tag in
            rw nothing (
              on_stack-Inv k i p v small pop c (Phase.popping true) refl (Only-upd i p.caches c)
                (Only-upd i p.phase (Phase.popping true)) (λ x h. v.unheld_unused x (rw w at h))
                (λ j ne x h. refl)
                (Local-same k i p.stack s' p.in_use (p.stack.pc i) (s'.pc i) c Phase.resting
                  (Phase.popping true) (rw w refl) (λ x. omega arith)
                  (rw w (rw ((Only-upd i p.stack.pc at).0) tt)) own))
        | inr there ↦
            let n = c.nodes (c.count - 1) in
            let c' : Cache = record c { count = c.count - 1 } in
            let split = λ (x : Node). occ-pop x c (ground arith) in
            let mine = own.own n (ground (arith, split n)) in
            rw there (
              rw (==_of_ne n 0 mine.2) (
                alone-Inv k i p v small c' Phase.resting refl (Only-upd i p.caches c')
                  (Only-upd i p.phase Phase.resting) (λ x h. taken_unused n x mine.0 h)
                  (λ j ne x h. taken_same n j x ne mine.0 h)
                  (Local-less k i p.stack p.stack p.in_use (upd p.in_use n true) (p.stack.pc i)
                    (p.stack.pc i) c c' Phase.resting Phase.resting (λ x. omega (arith, split x))
                    (λ x here held unused. (held, ground (arith, split x, own.once x)))
                    (omega (arith, own.room)) own.stage own)))
      ]
