-- ===== src/Pool/Count.antt =====
-- How often a node occurs in a list: lists that agree on it hold the same nodes, in any order.
use async_io.Prelude.{ℕ, ◌+◌, ◌≤◌, ◌≡◌, ◌≢◌, List, [], ◌∷◌, ◌++◌, ◌==◌, if◌then◌else◌, arith}
use async_io.Pool.Nodes.{Node, Memory, Chain, ◌∉◌}

abbrev pub occ : Node → List Node → ℕ
occ x [] = 0
occ x (y ∷ ys) = (if y == x then 1 else 0) + occ x ys

pub occ-append : (x : Node) (xs ys : List Node) → occ x (xs ++ ys) ≡ occ x xs + occ x ys
occ-append x [] ys = omega arith
occ-append x (y ∷ xs) ys = ground (arith, occ-append x xs ys)

pub ∉_of_occ : (x : Node) (xs : List Node) → occ x xs ≡ 0 → x ∉ xs
∉_of_occ x [] e = tt
∉_of_occ x (y ∷ xs) e = (ground arith, ∉_of_occ x xs (ground arith))

-- No node twice.
abbrev pub Once : List Node → Type 0
Once xs = (x : Node) → occ x xs ≤ 1

pub absent_of_Once : (x : Node) (xs : List Node) → Once (x ∷ xs) → occ x xs ≡ 0
absent_of_Once x xs once = ground (arith, once x)

pub Once-tail : (x : Node) (xs : List Node) → Once (x ∷ xs) → Once xs
Once-tail x xs once y = ground (arith, once y)

abbrev pub last : Node → List Node → Node
last x [] = x
last x (y ∷ ys) = last y ys

pub last_occurs : (x : Node) (xs : List Node) → 1 ≤ occ (last x xs) (x ∷ xs)
last_occurs x [] = ground arith
last_occurs x (y ∷ ys) = ground (arith, last_occurs y ys)

-- A node that does not occur is not the last one.
pub last_ne : (z x : Node) (xs : List Node) → occ z (x ∷ xs) ≡ 0 → z ≢ last x xs
last_ne z x [] e = ground arith
last_ne z x (y ∷ ys) e = last_ne z y ys (ground arith)

-- A list runs through any memory that agrees on its nodes.
pub Chain-same :
    (next other : Memory) (p : Node) (xs : List Node)
    → ((x : Node) → 1 ≤ occ x xs → other x ≡ next x)
    → Chain next p xs
    → Chain other p xs
Chain-same next other p [] same c = c
Chain-same next other p (x ∷ xs) same c =
    let rest =
      Chain-same next other (next x) xs (λ y in_rest. same y (ground (arith, in_rest))) c.2 in
    let here : other x ≡ next x = same x (ground arith) in (c.0, c.1, rw here rest)
