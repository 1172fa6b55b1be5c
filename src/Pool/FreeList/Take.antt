-- ===== src/Pool/FreeList/Take.antt =====
-- A node that is handed out was free, and is free no more.
use async_io.Prelude.{
  ℕ, ◌+◌, ◌-◌, ◌≤◌, ◌≡◌, ◌≢◌, refl, List, [], ◌∷◌, ◌==◌, arith, Bool-cases, inl, inr,
}
use async_io.Pool.Nodes.{Node}
use async_io.Pool.Count.{occ}
use async_io.Pool.Cache.{Cache, slice, contents}
use async_io.Pool.Cache as Cache
use async_io.Pool.Cache.Flush.{occ-slice}
use async_io.Pool.FreeList.{Shelf, pop, take_free}
use async_io.Pool.FreeList.Return.{Holds, free}

-- The cache without its top entry.
abbrev pub without_top : Shelf → Shelf
without_top s = record s { cache = record s.cache { count = s.cache.count - 1 } }

occ-top :
    (c : Cache) (x : Node)
    → c.count ≢ 0
    → occ x (contents c)
      ≡ occ x (slice c.nodes 0 (c.count - 1)) + occ x (c.nodes (c.count - 1) ∷ [])
occ-top c x some_left =
    occ-slice x c.nodes (c.count - 1) 0 (c.count - 1) 1 c.count (omega arith)
      (omega (arith, some_left))

pub take_free-cached :
    (s : Shelf)
    → s.cache.count ≢ 0
    → s.cache.nodes (s.cache.count - 1) ≢ 0
    → take_free s ≡ (s.cache.nodes (s.cache.count - 1), without_top s)
unfolding take_free Cache.pop
take_free-cached s some_left live = ground arith

pub take_free-listed :
    (s : Shelf) (n : Node)
    → s.cache.count ≡ 0
    → s.stack.head ≡ n
    → n ≢ 0
    → take_free s ≡ (n, record s { stack = record s.stack { head = s.stack.next n } })
unfolding take_free Cache.pop pop
take_free-listed s n empty at live = ground (arith, at)

pub take_free-nothing : (s : Shelf) → s.cache.count ≡ 0 → s.stack.head ≡ 0 → take_free s ≡ (0, s)
unfolding take_free Cache.pop pop
take_free-nothing s empty at = ground arith

pub contents-empty : (x : Node) (c : Cache) → c.count ≡ 0 → occ x (contents c) ≡ 0
contents-empty x c empty = rw empty refl

-- The top entry of the cache is not null.
top_live : (c : Cache) → c.count ≢ 0 → occ 0 (contents c) ≡ 0 → c.nodes (c.count - 1) ≢ 0
top_live c some_left nonnull = ground (arith, occ-top c 0 some_left)

-- What a call of `take_free` promises: a node that was free, and the rest.
abbrev pub Took : (capacity : ℕ) (s : Shelf) (xs : List Node) → Node × Shelf → Type 0
Took capacity s xs (n, t) =
    (n ≢ 0)
    × (ys : List Node) × Holds capacity t ys
    × ((x : Node) → occ x (n ∷ []) + free t ys x ≡ free s xs x)

pub take_free-takes :
    (capacity : ℕ) (s : Shelf) (xs : List Node) (z : Node)
    → Holds capacity s xs
    → 1 ≤ free s xs z
    → Took capacity s xs (take_free s)
take_free-takes capacity s xs z h is_free = elim (Bool-cases (s.cache.count == 0)) [
  | inl empty_test ↦ from_list xs h is_free (ground (arith, empty_test))
  | inr some_test ↦ from_cache (ground (arith, some_test))
]
  where
    from_cache : s.cache.count ≢ 0 → Took capacity s xs (take_free s)
    from_cache some_left =
        let top = λ (x : Node). occ-top s.cache x some_left in
        let live = top_live s.cache some_left h.nonnull in
        rw (take_free-cached s some_left live) (
          live,
          xs,
          record {
            chain = h.chain;
            once = λ x. omega (arith, h.once x, top x);
            nonnull = omega (arith, h.nonnull, top 0);
            room = omega (arith, h.room);
          },
          λ x. omega (arith, top x),
        )

    from_list :
        (xs : List Node)
        → Holds capacity s xs
        → 1 ≤ free s xs z
        → s.cache.count ≡ 0
        → Took capacity s xs (take_free s)
    from_list [] h is_free empty =
        let none_left : ⊥ = omega (arith, contents-empty z s.cache empty, is_free) in
        elim none_left [ ]
    from_list (n ∷ xs) h is_free empty =
        let listed = take_free-listed s n empty h.chain.0 h.chain.1 in
        rw listed (
          h.chain.1,
          xs,
          record {
            chain = h.chain.2;
            once = λ x. ground (arith, h.once x);
            nonnull = h.nonnull;
            room = h.room;
          },
          λ x. omega arith,
        )

-- Nothing is free, so both tries find nothing and change nothing.
pub take_free-none :
    (capacity : ℕ) (s : Shelf) (xs : List Node)
    → Holds capacity s xs
    → ((x : Node) → free s xs x ≡ 0)
    → (xs ≡ []) × (take_free s ≡ (0, s))
take_free-none capacity s [] h none_free = elim (Bool-cases (s.cache.count == 0)) [
  | inl empty_test ↦ (refl, take_free-nothing s (ground (arith, empty_test)) h.chain)
  | inr some_test ↦
      let top = occ-top s.cache (s.cache.nodes (s.cache.count - 1)) (ground (arith, some_test)) in
      let absurd : ⊥ = ground (arith, top, none_free (s.cache.nodes (s.cache.count - 1))) in
      elim absurd [ ]
]
take_free-none capacity s (n ∷ xs) h none_free =
    let absurd : ⊥ = ground (arith, none_free n) in elim absurd [ ]
