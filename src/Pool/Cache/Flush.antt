-- ===== src/Pool/Cache/Flush.antt =====
-- What `FlushHalf` links is a list of its own, and it leaves every other node alone.
use async_io.Prelude.{
  ℕ, zero, suc, ◌+◌, ◌-◌, ◌≡◌, ◌<◌, ◌≤◌, ◌/◌, length, refl, sym, ap, subst, List, ◌∷◌, arith,
}
use async_io.Pool.Nodes.{Node, Memory, upd, Chain}
use async_io.Pool.Count.{occ, Once, absent_of_Once, Once-tail}
use async_io.Pool.Cache.{Cache, slice, contents, link_rest, flush_half}

pub occ-slice :
    (x : Node) (nodes : ℕ → Node) (m i j k t : ℕ)
    → i + m ≡ j
    → m + k ≡ t
    → occ x (slice nodes i t) ≡ occ x (slice nodes i m) + occ x (slice nodes j k)
occ-slice x nodes zero i j k t at all =
    let same_start : j ≡ i = omega (arith, at) in
    let same_length : k ≡ t = omega (arith, all) in rw same_start (rw same_length (omega arith))
occ-slice x nodes (suc m) i j k zero at all = omega arith
occ-slice x nodes (suc m) i j k (suc t) at all =
    ground (arith, occ-slice x nodes m (suc i) j k t (omega arith) (omega arith))

pub link_rest-frame :
    (nodes : ℕ → Node) (m i : ℕ) (tail : Node) (next : Memory) (x : Node)
    → occ x (tail ∷ slice nodes i m) ≡ 0
    → link_rest nodes i m tail next x ≡ next x
unfolding link_rest
link_rest-frame nodes zero i tail next x out = ground arith
link_rest-frame nodes (suc m) i tail next x out =
    ground (arith, link_rest-frame nodes m (suc i) (nodes i) (upd next tail (nodes i)) x)

pub link_rest-Chain :
    (nodes : ℕ → Node) (m i : ℕ) (tail : Node) (next : Memory)
    → Once (tail ∷ slice nodes i m)
    → occ 0 (tail ∷ slice nodes i m) ≡ 0
    → Chain (link_rest nodes i m tail next) tail (tail ∷ slice nodes i m)
unfolding link_rest
link_rest-Chain nodes zero i tail next once nonnull = (refl, ground arith, ground arith)
link_rest-Chain nodes (suc m) i tail next once nonnull =
    let rest =
      link_rest-Chain nodes m (suc i) (nodes i) (upd next tail (nodes i))
        (Once-tail tail (slice nodes i (suc m)) once) (ground arith) in
    let kept =
      link_rest-frame nodes m (suc i) (nodes i) (upd next tail (nodes i)) tail
        (absent_of_Once tail (slice nodes i (suc m)) once) in
    let linked : link_rest nodes i (suc m) tail next tail ≡ nodes i = ground (arith, kept) in
    (
      refl,
      ground arith,
      subst (λ p. Chain (link_rest nodes i (suc m) tail next) p (slice nodes i (suc m)))
          (sym linked) rest,
    )

pub length-slice : (nodes : ℕ → Node) (m i : ℕ) → length (slice nodes i m) ≡ m
length-slice nodes zero i = refl
length-slice nodes (suc m) i = ap suc (length-slice nodes m (suc i))

-- The first node that `FlushHalf` hands out, and those behind it.
abbrev pub first : Cache → Node
first c = c.nodes (c.count - c.count / 2)

abbrev pub others : Cache → List Node
others c = slice c.nodes (suc (c.count - c.count / 2)) (c.count / 2 - 1)

abbrev pub kept : Cache → Cache
kept c = record c { count = c.count - c.count / 2 }

abbrev pub linked : Cache → Memory → Memory
linked c = link_rest c.nodes (suc (c.count - c.count / 2)) (c.count / 2 - 1) (first c)

pub flush_half-eq :
    (capacity : ℕ) (c : Cache) (next : Memory)
    → capacity / 4 < c.count
    → flush_half capacity c next ≡ (first c, kept c, linked c next)
unfolding flush_half
flush_half-eq capacity c next many = ground arith

pub occ-kept :
    (c : Cache) (x : Node)
    → 2 ≤ c.count
    → occ x (contents c) ≡ occ x (contents (kept c)) + occ x (first c ∷ others c)
occ-kept c x many =
    occ-slice x c.nodes (c.count - c.count / 2) 0 (c.count - c.count / 2) (suc (c.count / 2 - 1))
      c.count (omega arith) (omega (arith, many))
