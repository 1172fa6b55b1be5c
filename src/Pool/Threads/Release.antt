-- ===== src/Pool/Threads/Release.antt =====
-- `ReleaseMemory` and `Deallocate`, up to the stores of a batch, keep the invariant of the shared pool.
use async_io.Prelude.{
  ℕ, suc, ◌+◌, ◌-◌, ◌/◌, ◌<◌, ◌≤◌, ◌^◌, ◌≡◌, ◌≢◌, refl, inl, inr, true, false, some, [], ◌∷◌,
  Bool-cases, leb, arith,
}
use async_io.Pool.Nodes.{Node, upd}
use async_io.Pool.Count.{occ}
use async_io.Pool.Cache.{Cache, contents, slice}
use async_io.Pool.Cache as Cache
use async_io.Pool.Cache.Flush.{length-slice, first, others, kept, occ-kept}
use async_io.Pool.Threads.{
  Kind, capacity, Phase, SharedPool, set_phase, set_cache, put, flush, start_release, link_stores,
}
use async_io.Pool.Threads.Invariant.{Stage, count_mine, Local, PoolInv, Kept, Only, Only-upd}
use async_io.Pool.Threads.Locals.{zero_of, push_counts, push_room, Local-returned}
use async_io.Pool.Threads.Kinds.{alone-Inv}
use async_io.Pool.Threads.Sizes.{capacity_bounds}
use async_io.Pool.Threads.Stores.{link_stores-Leads, link_stores-Within}

module _ (k : Kind) (i : ℕ) (p : SharedPool) (v : PoolInv k p)
    (small : p.stack.changes + 1 < 2 ^ 64) where
  -- `ReleaseMemory` of a node `n` that the thread has in use.
  module _ (n : Node) (mine : p.stack.holder n ≡ some i) (in_use : p.in_use n ≡ true) (live : n ≢ 0)
      (own : Local k i p.stack p.in_use (p.stack.pc i) (p.caches i) Phase.resting) where
    given_back-Inv :
        {p' : SharedPool} (c' : Cache) (f' : Phase)
        → p'.stack ≡ p.stack
        → p'.in_use ≡ upd p.in_use n false
        → Only i p.caches p'.caches c'
        → Only i p.phase p'.phase f'
        → ((x : Node)
            → count_mine k c' f' x ≤ count_mine k (p.caches i) Phase.resting x + occ x (n ∷ []))
        → c'.count ≤ capacity k
        → Stage k (p.stack.pc i) p.stack.next f'
        → Kept k i p p'
    given_back-Inv {p'} c' f' e uses caches phases less room stage =
        alone-Inv k i p v small c' f' e caches phases
          (λ x nobody.
            rw uses (let differ : x ≢ n = λ q. ground arith in ground (arith, v.unheld_unused x)))
          (λ j ne x held. rw uses (let differ : x ≢ n = λ q. ground arith in ground arith))
          (rw uses (
            Local-returned k i p.stack p.in_use (p.stack.pc i) (p.caches i) c' Phase.resting f' n
              mine in_use live less room stage own))

    put_back-Inv : Kept k i p (put k i n (record p { in_use = upd p.in_use n false }))
    unfolding put set_cache set_phase
    put_back-Inv =
        let c' = (Cache.push (capacity k) n (p.caches i)).1 in
        given_back-Inv c' Phase.resting refl refl (Only-upd i p.caches c')
          (Only-upd i p.phase Phase.resting)
          (λ x. omega (arith, push_counts (capacity k) n x (p.caches i)))
          (push_room (capacity k) n (p.caches i) own.room) own.stage

    flush-Inv : Kept k i p (flush k i n (record p { in_use = upd p.in_use n false }))
    unfolding flush set_cache set_phase
    flush-Inv =
        let c = p.caches i in
        let bounds = capacity_bounds k in
        elim (Bool-cases (leb c.count (capacity k / 4))) [
          | inl few ↦ rw few put_back-Inv
          | inr many ↦
              let split = λ (x : Node). occ-kept c x (ground (arith, bounds)) in
              let m = c.count / 2 - 1 in
              let from = suc (c.count - c.count / 2) in
              let f = Phase.linking (link_stores c.nodes from m (first c)) (first c) (others c) n in
              rw many (
                given_back-Inv (kept c) f refl refl (Only-upd i p.caches (kept c))
                  (Only-upd i p.phase f) (λ x. omega (arith, split x)) (omega (arith, own.room))
                  (
                    own.stage,
                    link_stores-Leads c.nodes m from (first c) p.stack.next
                        (λ x. omega (arith, own.once x, split x))
                        (zero_of (occ 0 (first c ∷ others c))
                          (λ here. (own.own 0 (omega (arith, here, split 0))).2 refl)),
                    link_stores-Within c.nodes m from (first c),
                    omega (arith, length-slice c.nodes m from, own.room, bounds),
                  ))
        ]

    pub release-Inv : Kept k i p (start_release k i n p)
    unfolding start_release
    release-Inv = elim (Bool-cases ((Cache.push (capacity k) n (p.caches i)).0)) [
      | inl has_room ↦ rw has_room put_back-Inv
      | inr full ↦ rw full flush-Inv
    ]
