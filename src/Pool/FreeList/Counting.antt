-- ===== src/Pool/FreeList/Counting.antt =====
-- The count that `ApproximateFreeCount` returns.
use async_io.Prelude.{
  ℕ, zero, suc, ◌+◌, ◌<◌, ◌≤◌, ◌≡◌, List, [], ◌∷◌, some, length, ltb, arith, Bool-cases, inl, inr,
}
use Prim.Native.Nat.{min}
use async_io.Pool.Nodes.{Node, Memory, Chain}
use async_io.Pool.FreeList.{count_nodes}

pub count_nodes-min :
    (next : Memory) (fuel n count : ℕ) (xs : List Node)
    → count ≤ 1_000_000
    → 1_000_000 < count + fuel
    → Chain next n xs
    → count_nodes fuel next n count ≡ some (min (count + length xs) 1_000_000)
unfolding count_nodes
count_nodes-min next zero n count xs few enough c = ground arith
count_nodes-min next (suc fuel) n count [] few enough c = ground (arith, c)
count_nodes-min next (suc fuel) n count (x ∷ xs) few enough c =
    elim (Bool-cases (ltb count 1_000_000)) [
      | inl less ↦
          let rest =
            count_nodes-min next fuel (next x) (count + 1) xs (ground (arith, less))
              (omega (arith, enough)) c.2 in
          rw c.0 (ground (arith, c.1, rest, less))
      | inr enough_counted ↦ ground (arith, enough_counted)
    ]
