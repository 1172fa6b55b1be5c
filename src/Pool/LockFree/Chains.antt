-- ===== src/Pool/LockFree/Chains.antt =====
-- A chain of nodes that a thread holds, before it is on the stack, and after.
use async_io.Prelude.{
  ℕ, ◌≤◌, ◌==◌, Bool-cases, inl, inr, ◌≡◌, ◌≢◌, refl, true, false, Option, none, some, List, [],
  ◌∷◌, ◌++◌, All, arith,
}
use async_io.Pool.Nodes.{Node, Memory, upd, Chain, ◌∉◌, Distinct}
use async_io.Pool.Count.{last, occ}
use async_io.Pool.LockFree.{Stack, released, is_in, is_held, is_unheld, is_free, granted, is_chain}

unheld_of : (o : Option ℕ) → is_unheld o ≡ true → o ≡ none
unfolding is_unheld
unheld_of none h = refl
unheld_of (some j) h = absurd (ground arith)

-- Thread `i` holds the nodes `n ∷ r`, none twice, and each but the last leads to the following one.
abbrev pub IsChain : Memory → (Node → Option ℕ) → ℕ → Node → List Node → Type 0
IsChain next holder i n [] = (holder n ≡ some i) × (n ≢ 0)
IsChain next holder i n (x ∷ r) =
    (holder n ≡ some i) × (n ≢ 0) × (next n ≡ x) × (n ∉ (x ∷ r)) × IsChain next holder i x r

not_in_of_is_in : (n : Node) (xs : List Node) → is_in n xs ≡ false → n ∉ xs
not_in_of_is_in n [] e = tt
not_in_of_is_in n (x ∷ xs) e = (ground arith, not_in_of_is_in n xs (ground arith))

pub held_of : (o : Option ℕ) (i : ℕ) → is_held o i ≡ true → o ≡ some i
unfolding is_held
held_of none i h = cc
held_of (some j) i h = ground arith

pub is_chain-IsChain :
    (next : Memory) (holder : Node → Option ℕ) (i : ℕ) (n : Node) (r : List Node)
    → is_chain next holder i n r ≡ true
    → IsChain next holder i n r
unfolding is_chain
is_chain-IsChain next holder i n [] e = (held_of (holder n) i (ground arith), ground arith)
is_chain-IsChain next holder i n (x ∷ r) e = (
  held_of (holder n) i (ground arith),
  ground arith,
  ground arith,
  not_in_of_is_in n (x ∷ r) (ground arith),
  is_chain-IsChain next holder i x r (ground arith),
)

pub last_held :
    (next : Memory) (holder : Node → Option ℕ) (i : ℕ) (n : Node) (r : List Node)
    → IsChain next holder i n r
    → holder (last n r) ≡ some i
last_held next holder i n [] c = c.0
last_held next holder i n (x ∷ r) c = last_held next holder i x r c.4

pub chain-held :
    (next : Memory) (holder : Node → Option ℕ) (i : ℕ) (n : Node) (r : List Node)
    → IsChain next holder i n r
    → (holder n ≡ some i) × (n ≢ 0)
chain-held next holder i n [] c = c
chain-held next holder i n (x ∷ r) c = (c.0, c.1)

-- The chain is there after steps that keep what thread `i` holds.
pub IsChain-same :
    (next next' : Memory) (holder holder' : Node → Option ℕ) (i : ℕ) (n : Node) (r : List Node)
    → ((m : Node) → holder m ≡ some i → holder' m ≡ some i)
    → ((m : Node) → holder m ≡ some i → next' m ≡ next m)
    → IsChain next holder i n r
    → IsChain next' holder' i n r
IsChain-same next next' holder holder' i n [] h k c = (h n c.0, c.1)
IsChain-same next next' holder holder' i n (x ∷ r) h k c = (
  h n c.0,
  c.1,
  ground (arith, k n c.0),
  c.3,
  IsChain-same next next' holder holder' i x r h k c.4,
)

outside_last : (n x : Node) (r : List Node) → n ∉ (x ∷ r) → n ≢ last x r
outside_last n x [] out = ground arith
outside_last n x (y ∷ r) out = outside_last n y r out.1

pub IsChain-upd :
    (next : Memory) (holder : Node → Option ℕ) (i : ℕ) (n : Node) (r : List Node) (o : Node)
    → IsChain next holder i n r
    → IsChain (upd next (last n r) o) holder i n r
IsChain-upd next holder i n [] o c = c
IsChain-upd next holder i n (x ∷ r) o c =
    (c.0, c.1, ground (arith, outside_last n x r c.3), c.3, IsChain-upd next holder i x r o c.4)

-- The chain in front of the stack.
pub Chain-append :
    (next : Memory) (holder : Node → Option ℕ) (i : ℕ) (n head : Node) (r items : List Node)
    → IsChain next holder i n r
    → next (last n r) ≡ head
    → Chain next head items
    → Chain next n ((n ∷ r) ++ items)
Chain-append next holder i n head [] items c e t = (refl, c.1, rw e t)
Chain-append next holder i n head (x ∷ r) items c e t =
    (refl, c.1, rw c.2 (Chain-append next holder i x head r items c.4 e t))

not_in-append : (n : Node) (xs ys : List Node) → n ∉ xs → n ∉ ys → n ∉ (xs ++ ys)
not_in-append n [] ys a b = b
not_in-append n (x ∷ xs) ys a b = (a.0, not_in-append n xs ys a.1 b)

pub not_in_of_held :
    (holder : Node → Option ℕ) (n i : ℕ) (xs : List Node)
    → holder n ≡ some i
    → All (λ x. holder x ≡ none) xs
    → n ∉ xs
not_in_of_held holder n i [] h u = tt
not_in_of_held holder n i (x ∷ xs) h u = (λ e. ground arith, not_in_of_held holder n i xs h u.1)

pub Distinct-append :
    (next : Memory) (holder : Node → Option ℕ) (i : ℕ) (n : Node) (r items : List Node)
    → IsChain next holder i n r
    → All (λ x. holder x ≡ none) items
    → Distinct items
    → Distinct ((n ∷ r) ++ items)
Distinct-append next holder i n [] items c u d = (not_in_of_held holder n i items c.0 u, d)
Distinct-append next holder i n (x ∷ r) items c u d = (
  not_in-append n (x ∷ r) items c.3 (not_in_of_held holder n i items c.0 u),
  Distinct-append next holder i x r items c.4 u d,
)

-- What is on the stack then is with no thread.
pub released-append :
    (xs items : List Node) (holder : Node → Option ℕ)
    → All (λ x. holder x ≡ none) items
    → All (λ x. released xs holder x ≡ none) (xs ++ items)
released-append [] items holder u = u
released-append (x ∷ xs) items holder u =
    (ground arith, more xs (xs ++ items) (released-append xs items holder u))
  where
    more :
        (ys zs : List Node)
        → All (λ y. released ys holder y ≡ none) zs
        → All (λ y. released (x ∷ ys) holder y ≡ none) zs
    more ys [] h = tt
    more ys (z ∷ zs) h = (ground (arith, h.0), more ys zs h.1)

-- Other threads keep what they hold.
pub released_other :
    (next : Memory) (holder : Node → Option ℕ) (i j : ℕ) (n : Node) (r : List Node) (m : Node)
    → IsChain next holder i n r
    → j ≢ i
    → holder m ≡ some j
    → released (n ∷ r) holder m ≡ some j
released_other next holder i j n [] m c ne h = ground arith
released_other next holder i j n (x ∷ r) m c ne h =
    ground (arith, released_other next holder i j x r m c.4 ne h)

pub unheld-upd :
    (holder : Node → Option ℕ) (n : Node) (v : Option ℕ) (xs : List Node)
    → n ∉ xs
    → All (λ x. holder x ≡ none) xs
    → All (λ x. upd holder n v x ≡ none) xs
unheld-upd holder n v [] out u = tt
unheld-upd holder n v (x ∷ xs) out u = (ground arith, unheld-upd holder n v xs out.1 u.1)

-- Memory from the system was with no thread and not on the stack.
pub granted_other :
    (ns : List Node) (i : ℕ) (s : Stack)
    → is_free s ns ≡ true
    → (m : Node) (j : ℕ) → s.holder m ≡ some j
    → granted ns i s.holder m ≡ some j
unfolding is_free
granted_other [] i s free m j h = h
granted_other (n ∷ ns) i s free m j h =
    let rest = granted_other ns i s (ground arith) m j h in
    let none_there = unheld_of (s.holder n) (ground arith) in ground arith

pub granted-unheld :
    (ns : List Node) (i : ℕ) (s : Stack)
    → is_free s ns ≡ true
    → All (λ x. s.holder x ≡ none) s.items
    → All (λ x. granted ns i s.holder x ≡ none) s.items
unfolding is_free
granted-unheld [] i s free u = u
granted-unheld (n ∷ ns) i s free u =
    unheld-upd (granted ns i s.holder) n (some i) s.items (not_in_of_is_in n s.items (ground arith))
      (granted-unheld ns i s (ground arith) u)

pub granted_here :
    (ns : List Node) (i : ℕ) (holder : Node → Option ℕ) (m : Node)
    → 1 ≤ occ m ns
    → granted ns i holder m ≡ some i
granted_here [] i holder m h = absurd (omega arith)
granted_here (n ∷ ns) i holder m h = elim (Bool-cases (n == m)) [
  | inl same ↦ ground arith
  | inr differ ↦ ground (arith, granted_here ns i holder m (ground arith))
]

pub granted_outside :
    (ns : List Node) (i : ℕ) (holder : Node → Option ℕ) (m : Node)
    → occ m ns ≡ 0
    → granted ns i holder m ≡ holder m
granted_outside [] i holder m h = refl
granted_outside (n ∷ ns) i holder m h = ground (arith, granted_outside ns i holder m)

pub free-unheld :
    (ns : List Node) (s : Stack) (m : Node) → is_free s ns ≡ true → 1 ≤ occ m ns → s.holder m ≡ none
unfolding is_free
free-unheld [] s m free h = absurd (omega arith)
free-unheld (n ∷ ns) s m free h = elim (Bool-cases (n == m)) [
  | inl same ↦ let here : n ≡ m = ground arith in rw here at (unheld_of (s.holder n) (ground arith))
  | inr differ ↦ free-unheld ns s m (ground arith) (ground arith)
]
