-- ===== src/Pool/FreeList/Frame.antt =====
-- The word at the start of a block that is given back, and taken again: neither writes it.
use async_io.Prelude.{
  ℕ, suc, ◌-◌, ◌/◌, ◌<◌, ◌≤◌, ◌≡◌, ◌≢◌, refl, sym, ap, ◌∙◌, List, ◌∷◌, some, arith, leb, leb→le,
  Bool-cases, inl, inr,
}
use async_io.Pool.Nodes.{Node}
use async_io.Pool.Count.{occ, last_ne}
use async_io.Pool.Cache.Flush.{link_rest-frame, first, others, occ-kept}
use async_io.Pool.FreeList.{Shelf, give_back, take_free}
use async_io.Pool.FreeList.Return.{
  Holds, free, put_in_cache, after_flush, give_back-room, give_back-full,
}
use async_io.Pool.FreeList.Take.{without_top, take_free-cached}

after_flush-frame :
    (s : Shelf) (n : Node)
    → 2 ≤ s.cache.count
    → occ n (first s.cache ∷ others s.cache) ≡ 0
    → (after_flush s).stack.next n ≡ s.stack.next n
unfolding after_flush
after_flush-frame s n many out =
    let rest =
      link_rest-frame s.cache.nodes (s.cache.count / 2 - 1)
        (suc (s.cache.count - s.cache.count / 2)) (first s.cache) s.stack.next n out in
    let not_last = last_ne n (first s.cache) (others s.cache) out in ground (arith, rest, not_last)

take_free-returned :
    (n : Node) (s : Shelf)
    → n ≢ 0
    → take_free (put_in_cache n s) ≡ (n, without_top (put_in_cache n s))
unfolding put_in_cache
take_free-returned n s live =
    let t = put_in_cache n s in
    let top : t.cache.nodes (t.cache.count - 1) ≡ n = ground arith in
    take_free-cached t (omega arith) (λ e. live (sym top ∙ e)) ∙ ap (λ x. (x, without_top t)) top

-- A node that is given back is on top of the cache then, and its `next` field is as it was.
pub give_back-frame :
    (fuel capacity : ℕ) (n : Node) (s : Shelf) (xs : List Node)
    → 2 ≤ capacity
    → capacity < fuel
    → Holds capacity s xs
    → n ≢ 0
    → free s xs n ≡ 0
    → (t : Shelf) × (give_back fuel capacity n s ≡ some t)
      × (t.stack.next n ≡ s.stack.next n)
      × (take_free t ≡ (n, without_top t))
unfolding put_in_cache
give_back-frame fuel capacity n s xs big enough h live new =
    elim (Bool-cases (leb capacity s.cache.count)) [
      | inl is_full ↦
          let full : s.cache.count ≡ capacity =
            omega (arith, h.room, leb→le capacity s.cache.count is_full) in
          let many : 2 ≤ s.cache.count = omega (arith, full, big) in
          (
            put_in_cache n (after_flush s),
            give_back-full fuel capacity n s xs big enough full h,
            after_flush-frame s n many (omega (arith, occ-kept s.cache n many, new)),
            take_free-returned n (after_flush s) live,
          )
      | inr has_room ↦
          let few : s.cache.count < capacity = ground (arith, has_room) in
          (
            put_in_cache n s,
            give_back-room fuel capacity n s few,
            refl,
            take_free-returned n s live,
          )
    ]
