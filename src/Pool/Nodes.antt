-- ===== src/Pool/Nodes.antt =====
-- The `next` fields of all nodes, as one memory, and the lists that run through it.
use async_io.Prelude.{ℕ, ◌≡◌, ◌≢◌, List, [], ◌∷◌, ◌==◌, if◌then◌else◌, All, arith}

-- The address of a node; 0 is `nullptr`.
abbrev pub Node : Type 0
Node = ℕ

abbrev pub Memory : Type 0
Memory = Node → Node

abbrev pub upd {ℓ} : {A : Type ℓ} → (ℕ → A) → ℕ → A → ℕ → A
upd f a v b = if b == a then v else f b

-- From `p` the `next` fields lead through the nodes `xs` to null.
abbrev pub Chain : Memory → Node → List Node → Type 0
Chain next p [] = p ≡ 0
Chain next p (x ∷ xs) = (p ≡ x) × (x ≢ 0) × Chain next (next x) xs

infix 40 ◌∉◌
abbrev pub ◌∉◌ : Node → List Node → Type 0
n ∉ xs = All (λ x. x ≢ n) xs

abbrev pub Distinct : List Node → Type 0
Distinct [] = Unit
Distinct (x ∷ xs) = (x ∉ xs) × Distinct xs

-- A write to a node outside leaves a list as it was.
pub Chain-upd :
    (next : Memory) (n v p : Node) (xs : List Node)
    → n ∉ xs
    → Chain next p xs
    → Chain (upd next n v) p xs
Chain-upd next n v p [] out c = c
Chain-upd next n v p (x ∷ xs) out c =
    (c.0, c.1, ground (arith, Chain-upd next n v (next x) xs out.1 c.2))
