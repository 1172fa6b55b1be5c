-- ===== src/Pool/Threads/Stores.antt =====
-- The stores of `FlushHalf` and `GrowPool` link their nodes, whatever other threads do meanwhile.
use async_io.Prelude.{
  ℕ, zero, suc, ◌+◌, ◌<◌, ◌≤◌, ◌≡◌, ◌≢◌, refl, sym, subst, ap, ◌∙◌, true, false, some, Option, List,
  [], ◌∷◌, length, All, ==_of_ne, arith,
}
use async_io.Pool.Nodes.{Node, Memory, upd, Chain}
use async_io.Pool.Count.{occ, Once}
use async_io.Pool.Cache.{slice, link_rest}
use async_io.Pool.Cache.Flush.{link_rest-Chain}
use async_io.Pool.FreeList.Grow.{block_nodes, before_block}
use async_io.Pool.LockFree.{is_in, is_held, is_chain}
use async_io.Pool.Threads.{Store, link_stores, carve_rest, carve_stores, reach}

-- All of some stores made.
abbrev pub apply : List Store → Memory → Memory
apply [] next = next
apply ((n, v) ∷ ws) next = apply ws (upd next n v)

-- From `n` the `next` fields lead through `r` to null.
abbrev pub Leads : Memory → Node → List Node → Type 0
Leads next n [] = next n ≡ 0
Leads next n (x ∷ r) = (next n ≡ x) × Leads next x r

-- The stores are to these nodes.
abbrev pub Within : List Store → List Node → Type 0
Within ws ns = All (λ w. 1 ≤ occ w.0 ns) ws

pub apply-same :
    (ws : List Store) (next other : Memory) (x : Node)
    → other x ≡ next x
    → apply ws other x ≡ apply ws next x
apply-same [] next other x e = e
apply-same ((n, v) ∷ ws) next other x e =
    apply-same ws (upd next n v) (upd other n v) x (ground arith)

apply_outside :
    (ws : List Store) (ns : List Node) (next : Memory) (x : Node)
    → Within ws ns
    → occ x ns ≡ 0
    → apply ws next x ≡ next x
apply_outside [] ns next x h out = refl
apply_outside ((n, v) ∷ ws) ns next x h out =
    let differ : n ≢ x = λ e. ground arith in
    apply_outside ws ns (upd next n v) x h.1 out ∙ ground arith

pub Leads-same :
    (next other : Memory) (n : Node) (r : List Node)
    → ((x : Node) → 1 ≤ occ x (n ∷ r) → other x ≡ next x)
    → Leads next n r
    → Leads other n r
Leads-same next other n [] same h = same n (ground arith) ∙ h
Leads-same next other n (x ∷ r) same h = (
  same n (ground arith) ∙ h.0,
  Leads-same next other x r (λ y here. same y (omega (arith, here))) h.1,
)

Chain-Leads : (next : Memory) (n : Node) (r : List Node) → Chain next n (n ∷ r) → Leads next n r
Chain-Leads next n [] c = c.2
Chain-Leads next n (x ∷ r) c = (c.2.0, Chain-Leads next x r (refl, c.2.1, c.2.2))

link_stores-apply :
    (nodes : ℕ → Node) (m i : ℕ) (tail : Node) (next : Memory)
    → apply (link_stores nodes i m tail) next ≡ link_rest nodes i m tail next
unfolding link_stores link_rest
link_stores-apply nodes zero i tail next = refl
link_stores-apply nodes (suc m) i tail next =
    link_stores-apply nodes m (suc i) (nodes i) (upd next tail (nodes i))

pub link_stores-Leads :
    (nodes : ℕ → Node) (m i : ℕ) (tail : Node) (next : Memory)
    → Once (tail ∷ slice nodes i m)
    → occ 0 (tail ∷ slice nodes i m) ≡ 0
    → Leads (apply (link_stores nodes i m tail) next) tail (slice nodes i m)
link_stores-Leads nodes m i tail next once live =
    Chain-Leads (apply (link_stores nodes i m tail) next) tail (slice nodes i m) (
      subst (λ other. Chain other tail (tail ∷ slice nodes i m))
        (sym (link_stores-apply nodes m i tail next))
        (link_rest-Chain nodes m i tail next once live))

Within-wider : (ws : List Store) (n : Node) (ns : List Node) → Within ws ns → Within ws (n ∷ ns)
Within-wider [] n ns h = tt
Within-wider (w ∷ ws) n ns h = (omega (arith, h.0), Within-wider ws n ns h.1)

pub link_stores-Within :
    (nodes : ℕ → Node) (m i : ℕ) (tail : Node)
    → Within (link_stores nodes i m tail) (tail ∷ slice nodes i m)
unfolding link_stores
link_stores-Within nodes zero i tail = (ground arith, tt)
link_stores-Within nodes (suc m) i tail = (
  ground arith,
  Within-wider (link_stores nodes (suc i) m (nodes i)) tail (slice nodes i (suc m))
      (link_stores-Within nodes m (suc i) (nodes i)),
)

-- The nodes of a block are not null.
pub block_nodes_live :
    (size count : ℕ) (ptr : Node) → ptr ≢ 0 → occ 0 (block_nodes size count ptr) ≡ 0
block_nodes_live size count ptr live = before_block size count ptr 0 (ground arith)

module _ (size : ℕ) (sized : 0 < size) where
  carve_rest-Within :
      (count : ℕ) (ptr tail : Node)
      → Within (carve_rest size count ptr tail) (tail ∷ block_nodes size count ptr)
  unfolding carve_rest
  carve_rest-Within zero ptr tail = (ground arith, tt)
  carve_rest-Within (suc count) ptr tail = (
    ground arith,
    (
      ground arith,
      Within-wider (carve_rest size count (ptr + size) ptr) tail
          (ptr ∷ block_nodes size count (ptr + size)) (carve_rest-Within count (ptr + size) ptr),
    ),
  )

  carve_rest-Leads :
      (count : ℕ) (ptr tail : Node) (next : Memory)
      → tail < ptr
      → Leads (apply (carve_rest size count ptr tail) next) tail (block_nodes size count ptr)
  unfolding carve_rest
  carve_rest-Leads zero ptr tail next low = ground arith
  carve_rest-Leads (suc count) ptr tail next low =
      let stored = upd (upd next ptr 0) tail ptr in
      let kept =
        apply_outside (carve_rest size count (ptr + size) ptr)
          (ptr ∷ block_nodes size count (ptr + size)) stored tail
          (carve_rest-Within count (ptr + size) ptr)
          (ground (arith, before_block size count (ptr + size) tail (omega (arith, low)))) in
      (kept ∙ ground arith, carve_rest-Leads count (ptr + size) ptr stored (omega (arith, sized)))

  pub carve_stores-Leads :
      (count : ℕ) (block : Node) (next : Memory)
      → Leads
          (apply (carve_stores size (suc count) block) next)
          block
          (block_nodes size count (block + size))
  unfolding carve_stores
  carve_stores-Leads count block next =
      carve_rest-Leads count (block + size) block (upd next block 0) (omega (arith, sized))

  pub carve_stores-Within :
      (count : ℕ) (block : Node)
      → Within (carve_stores size (suc count) block) (block ∷ block_nodes size count (block + size))
  unfolding carve_stores
  carve_stores-Within count block = (ground arith, carve_rest-Within count (block + size) block)

-- The walk finds the nodes of the batch.
pub reach-Leads :
    (fuel : ℕ) (next : Memory) (n : Node) (r : List Node)
    → Leads next n r
    → occ 0 r ≡ 0
    → length r < fuel
    → reach fuel next n ≡ r
unfolding reach
reach-Leads zero next n r h live enough = absurd (omega arith)
reach-Leads (suc fuel) next n [] h live enough = ground arith
reach-Leads (suc fuel) next n (x ∷ r) h live enough =
    let rest = reach-Leads fuel next x r h.1 (ground arith) (omega arith) in
    rw h.0 (rw (==_of_ne x 0 (ground arith)) (ap (◌∷◌ x) rest))

is_in_of_occ : (n : Node) (xs : List Node) → occ n xs ≡ 0 → is_in n xs ≡ false
is_in_of_occ n [] e = refl
is_in_of_occ n (x ∷ xs) e = ground (arith, is_in_of_occ n xs (ground arith))

-- What `PushChain` asks of its chain.
pub is_chain-Leads :
    (next : Memory) (holder : Node → Option ℕ) (i : ℕ) (n : Node) (r : List Node)
    → Leads next n r
    → Once (n ∷ r)
    → ((x : Node) → 1 ≤ occ x (n ∷ r) → (holder x ≡ some i) × (x ≢ 0))
    → is_chain next holder i n r ≡ true
unfolding is_chain is_held
is_chain-Leads next holder i n [] h once own = ground (arith, own n)
is_chain-Leads next holder i n (x ∷ r) h once own =
    let rest =
      is_chain-Leads next holder i x r h.1 (λ y. omega (arith, once y))
        (λ y here. own y (omega (arith, here))) in
    let apart = is_in_of_occ n (x ∷ r) (ground (arith, once n)) in ground (arith, own n, h.0)
