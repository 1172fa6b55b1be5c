-- ===== src/Pool/FreeList/Join.antt =====
-- `PushChain` behind the walk puts a batch in front of the list.
use async_io.Prelude.{ℕ, zero, suc, ◌<◌, ◌≡◌, refl, List, [], ◌∷◌, ◌++◌, some, arith, length}
use async_io.Pool.Nodes.{Node, Memory, upd, Chain, Chain-upd}
use async_io.Pool.Count.{occ, Once, absent_of_Once, Once-tail, ∉_of_occ, last, last_ne, occ-append}
use async_io.Pool.FreeList.{walk}

pub join :
    (next : Memory) (x h p : Node) (xs ys : List Node)
    → Once ((x ∷ xs) ++ ys)
    → Chain next p (x ∷ xs)
    → Chain next h ys
    → Chain (upd next (last x xs) h) p ((x ∷ xs) ++ ys)
join next x h p [] ys once c d =
    let kept = Chain-upd next x h h ys (∉_of_occ x ys (absent_of_Once x ys once)) d in
    let moved : upd next x h x ≡ h = ground arith in (c.0, c.1, rw moved kept)
join next x h p (y ∷ xs) ys once c d =
    let rest = join next y h (next x) xs ys (Once-tail x ((y ∷ xs) ++ ys) once) c.2 d in
    let out : occ x (y ∷ xs) ≡ 0 =
      omega (arith, absent_of_Once x ((y ∷ xs) ++ ys) once, occ-append x (y ∷ xs) ys) in
    let other = last_ne x y xs out in
    let moved : upd next (last y xs) h x ≡ next x = ground (arith, other) in
    (c.0, c.1, rw moved rest)

pub walk-last :
    (next : Memory) (fuel : ℕ) (x : Node) (xs : List Node)
    → length xs < fuel
    → Chain next x (x ∷ xs)
    → walk fuel next x ≡ some (last x xs)
unfolding walk
walk-last next zero x xs enough c = ground arith
walk-last next (suc fuel) x [] enough c = ground (arith, c.2)
walk-last next (suc fuel) x (y ∷ xs) enough c =
    let step : next x ≡ y = c.2.0 in
    let rest = walk-last next fuel y xs (omega (arith, enough)) (refl, c.2.1, c.2.2) in
    ground (arith, c.2.1)
