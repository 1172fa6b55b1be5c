-- ===== src/Pool/FreeList/Return.antt =====
-- A returned node: nothing that is free is lost, and nothing is free twice.
use async_io.Prelude.{
  ℕ, zero, suc, ◌+◌, ◌-◌, ◌/◌, ◌<◌, ◌≤◌, ◌≡◌, ◌≢◌, refl, ap, List, [], ◌∷◌, ◌++◌, some, arith,
  length, true, false, leb, ==_of_ne, leb→le, Bool-cases, inl, inr,
}
use async_io.Pool.Nodes.{Node, Memory, upd, Chain}
use async_io.Pool.Count.{occ, Once, last, occ-append, Chain-same}
use async_io.Pool.Cache.{Cache, slice, contents, push}
use async_io.Pool.Cache.Flush.{
  occ-slice, link_rest-frame, link_rest-Chain, first, others, kept, linked, occ-kept, flush_half-eq,
  length-slice,
}
use async_io.Pool.FreeList.{Shelf, walk, put_batch, give_back, push_chain}
use async_io.Pool.FreeList.Join.{join, walk-last}

-- The nodes of the list are `xs`; no node is free twice, and none of the cache is null.
pub record Holds (capacity : ℕ) (s : Shelf) (xs : List Node) : Type 0 where
  pub chain : Chain s.stack.next s.stack.head xs
  pub once : (x : Node) → occ x (contents s.cache) + occ x xs ≤ 1
  pub nonnull : occ 0 (contents s.cache) ≡ 0
  pub room : s.cache.count ≤ capacity

-- How often a node is free.
abbrev pub free : Shelf → List Node → Node → ℕ
free s xs x = occ x (contents s.cache) + occ x xs

slice-upd :
    (nodes : ℕ → Node) (m i k : ℕ) (n : Node)
    → i + m ≤ k
    → slice (upd nodes k n) i m ≡ slice nodes i m
slice-upd nodes zero i k n far = refl
slice-upd nodes (suc m) i k n far =
    let rest = slice-upd nodes m (suc i) k n (omega (arith, far)) in ground (arith, rest)

pub occ-push :
    (x n : Node) (c : Cache)
    → occ x (slice (upd c.nodes c.count n) 0 (c.count + 1)) ≡ occ x (contents c) + occ x (n ∷ [])
occ-push x n c =
    let split =
      occ-slice x (upd c.nodes c.count n) c.count 0 c.count 1 (c.count + 1) (omega arith)
        (omega arith) in
    let before = slice-upd c.nodes c.count 0 c.count n (omega arith) in
    let hit : upd c.nodes c.count n c.count ≡ n = ground arith in rw split (rw before (rw hit refl))

unfoldable pub put_in_cache : Node → Shelf → Shelf
put_in_cache n s = record s {
  cache = record { nodes = upd s.cache.nodes s.cache.count n; count = s.cache.count + 1 };
}

put_in_cache-Holds :
    (capacity : ℕ) (n : Node) (s : Shelf) (xs : List Node)
    → s.cache.count < capacity
    → Holds capacity s xs
    → n ≢ 0
    → free s xs n ≡ 0
    → Holds capacity (put_in_cache n s) xs
unfolding put_in_cache
put_in_cache-Holds capacity n s xs few h live new = record {
  chain = h.chain;
  once = λ x. ground (arith, occ-push x n s.cache, h.once x);
  nonnull = ground (arith, occ-push 0 n s.cache, h.nonnull);
  room = omega (arith, few);
}

-- After `FlushHalf`, the walk and `PushChain`.
unfoldable pub after_flush : Shelf → Shelf
after_flush s = record {
  stack = record {
    next = upd (linked s.cache s.stack.next) (last (first s.cache) (others s.cache)) s.stack.head;
    head = first s.cache;
  };
  cache = kept s.cache;
}

after_flush-free :
    (s : Shelf) (xs : List Node) (x : Node)
    → 2 ≤ s.cache.count
    → free (after_flush s) ((first s.cache ∷ others s.cache) ++ xs) x ≡ free s xs x
unfolding after_flush
after_flush-free s xs x many =
    omega (arith, occ-kept s.cache x many, occ-append x (first s.cache ∷ others s.cache) xs)

after_flush-Holds :
    (capacity : ℕ) (s : Shelf) (xs : List Node)
    → 2 ≤ s.cache.count
    → Holds capacity s xs
    → Holds capacity (after_flush s) ((first s.cache ∷ others s.cache) ++ xs)
unfolding after_flush
after_flush-Holds capacity s xs many h =
    let batch : List Node = first s.cache ∷ others s.cache in
    let split = λ (x : Node). occ-kept s.cache x many in
    let batch_once : Once batch = λ x. omega (arith, h.once x, split x) in
    let batch_nonnull : occ 0 batch ≡ 0 = omega (arith, h.nonnull, split 0) in
    let same : (x : Node) → 1 ≤ occ x xs → linked s.cache s.stack.next x ≡ s.stack.next x =
      λ x is_in.
        link_rest-frame s.cache.nodes (s.cache.count / 2 - 1)
          (suc (s.cache.count - s.cache.count / 2)) (first s.cache) s.stack.next x
          (omega (arith, h.once x, split x, is_in)) in
    record {
      chain =
          join (linked s.cache s.stack.next) (first s.cache) s.stack.head (first s.cache)
            (others s.cache) xs
            (λ x. omega (arith, h.once x, after_flush-free s xs x many, occ-append x batch xs))
            (link_rest-Chain s.cache.nodes (s.cache.count / 2 - 1)
              (suc (s.cache.count - s.cache.count / 2)) (first s.cache) s.stack.next batch_once
              batch_nonnull)
            (Chain-same s.stack.next (linked s.cache s.stack.next) s.stack.head xs same h.chain);
      once = λ x. omega (arith, h.once x, after_flush-free s xs x many);
      nonnull = omega (arith, h.nonnull, split 0);
      room = omega (arith, h.room);
    }

push-full :
    (capacity : ℕ) (n : Node) (c : Cache) → capacity ≤ c.count → push capacity n c ≡ (false, c)
unfolding push
push-full capacity n c full = ground arith

push-room :
    (capacity : ℕ) (n : Node) (c : Cache)
    → c.count < capacity
    → push capacity n c ≡ (true, record { nodes = upd c.nodes c.count n; count = c.count + 1 })
unfolding push
push-room capacity n c few = ground arith

pub give_back-room :
    (fuel capacity : ℕ) (n : Node) (s : Shelf)
    → s.cache.count < capacity
    → give_back fuel capacity n s ≡ some (put_in_cache n s)
unfolding give_back push put_in_cache
give_back-room fuel capacity n s few = ground arith

put_batch-eq :
    (fuel capacity : ℕ) (n head batch tail : Node) (c : Cache) (next : Memory)
    → c.count < capacity
    → batch ≢ 0
    → walk fuel next batch ≡ some tail
    → put_batch fuel capacity n head (batch, c, next)
      ≡ some (record {
        stack = record { next = upd next tail head; head = batch };
        cache = record { nodes = upd c.nodes c.count n; count = c.count + 1 };
      })
unfolding put_batch push_chain
put_batch-eq fuel capacity n head batch tail c next few live walked = rw (==_of_ne batch 0 live) (
    rw walked (
      ap
        (λ r.
          some (record { stack = record { next = upd next tail head; head = batch }; cache = r.1 }))
        (push-room capacity n c few)))

pub give_back-full :
    (fuel capacity : ℕ) (n : Node) (s : Shelf) (xs : List Node)
    → 2 ≤ capacity
    → capacity < fuel
    → s.cache.count ≡ capacity
    → Holds capacity s xs
    → give_back fuel capacity n s ≡ some (put_in_cache n (after_flush s))
unfolding give_back put_in_cache after_flush
give_back-full fuel capacity n s xs big enough full h =
    let flush = flush_half-eq capacity s.cache s.stack.next (omega (arith, big, full)) in
    let many : 2 ≤ s.cache.count = omega (arith, big, full) in
    let batch : List Node = first s.cache ∷ others s.cache in
    let split = λ (x : Node). occ-kept s.cache x many in
    let linked_up =
      link_rest-Chain s.cache.nodes (s.cache.count / 2 - 1)
        (suc (s.cache.count - s.cache.count / 2)) (first s.cache) s.stack.next
        (λ x. omega (arith, h.once x, split x)) (omega (arith, h.nonnull, split 0)) in
    let short : length (others s.cache) < fuel = omega (
      arith,
      length-slice s.cache.nodes (s.cache.count / 2 - 1) (suc (s.cache.count - s.cache.count / 2)),
      enough,
      full,
    ) in
    let walked =
      walk-last (linked s.cache s.stack.next) fuel (first s.cache) (others s.cache) short
        linked_up in
    let live : first s.cache ≢ 0 = linked_up.1 in
    rw (push-full capacity n s.cache (omega (arith, full))) (
      rw flush (
        put_batch-eq fuel capacity n s.stack.head (first s.cache)
          (last (first s.cache) (others s.cache)) (kept s.cache) (linked s.cache s.stack.next)
          (omega (arith, many, full)) live walked))

-- `ReleaseMemory` and `Deallocate`, with room in the cache or not: the node becomes free, once, and
-- every node that was free stays so. Fuel beyond the capacity is enough for the walk. The node is
-- not null and was not free before.
pub give_back-conserves :
    (fuel capacity : ℕ) (n : Node) (s : Shelf) (xs : List Node)
    → 2 ≤ capacity
    → capacity < fuel
    → Holds capacity s xs
    → n ≢ 0
    → free s xs n ≡ 0
    → (t : Shelf) × (ys : List Node) × (give_back fuel capacity n s ≡ some t)
      × Holds capacity t ys
      × ((x : Node) → free t ys x ≡ occ x (n ∷ []) + free s xs x)
unfolding put_in_cache after_flush
give_back-conserves fuel capacity n s xs big enough h live new =
    elim (Bool-cases (leb capacity s.cache.count)) [
      | inl is_full ↦
          let full : s.cache.count ≡ capacity =
            omega (arith, h.room, leb→le capacity s.cache.count is_full) in
          let many : 2 ≤ s.cache.count = omega (arith, full, big) in
          let same = λ (x : Node). after_flush-free s xs x many in
          (
            put_in_cache n (after_flush s),
            (first s.cache ∷ others s.cache) ++ xs,
            give_back-full fuel capacity n s xs big enough full h,
            put_in_cache-Holds capacity n (after_flush s) ((first s.cache ∷ others s.cache) ++ xs)
                (omega (arith, many, full)) (after_flush-Holds capacity s xs many h) live
                (omega (arith, same n, new)),
            λ x. omega (arith, occ-push x n (kept s.cache), same x),
          )
      | inr has_room ↦
          let few : s.cache.count < capacity = ground (arith, has_room) in
          (
            put_in_cache n s,
            xs,
            give_back-room fuel capacity n s few,
            put_in_cache-Holds capacity n s xs few h live new,
            λ x. omega (arith, occ-push x n s.cache),
          )
    ]
