-- ===== src/Pool/FreeList/Grow.antt =====
-- A new block makes its nodes free, and keeps the others.
use async_io.Prelude.{
  ℕ, zero, suc, ◌+◌, ◌<◌, ◌≤◌, ◌≡◌, ◌≢◌, ◌⊎◌, inl, inr, refl, sym, ap, subst, List, [], ◌∷◌, ◌++◌,
  if◌then◌else◌, arith, ==_of_ne,
}
use async_io.Pool.Nodes.{Node, Memory, upd, Chain}
use async_io.Pool.Count.{occ, Once, absent_of_Once, Once-tail, last, Chain-same, occ-append}
use async_io.Pool.Cache.{contents}
use async_io.Pool.FreeList.{Shelf, MutexStack, carve, add_block, push_chain}
use async_io.Pool.FreeList.Join.{join}
use async_io.Pool.FreeList.Return.{Holds, free}

-- The addresses in a block.
abbrev pub block_nodes : (size count : ℕ) → Node → List Node
block_nodes size zero ptr = []
block_nodes size (suc count) ptr = ptr ∷ block_nodes size count (ptr + size)

pub before_block :
    (size count : ℕ) (ptr x : Node) → x < ptr → occ x (block_nodes size count ptr) ≡ 0
before_block size zero ptr x less = refl
before_block size (suc count) ptr x less =
    ground (arith, before_block size count (ptr + size) x (omega (arith, less)))

pub block_nodes-Once : (size count : ℕ) (ptr : Node) → 1 ≤ size → Once (block_nodes size count ptr)
block_nodes-Once size zero ptr big x = omega arith
block_nodes-Once size (suc count) ptr big x = ground (
  arith,
  block_nodes-Once size count (ptr + size) big x,
  before_block size count (ptr + size) ptr (omega (arith, big)),
)

-- The memory behind the loop, its last node closed.
closed : (size count : ℕ) (ptr h t : Node) → Memory → Memory
closed size count ptr h t next = let c = carve size count ptr h t next in upd c.2 c.1 0

-- One turn of the loop behind the first node.
carve-suc :
    (size count : ℕ) (ptr h t : Node) (next : Memory)
    → h ≢ 0
    → carve size (suc count) ptr h t next
      ≡ carve size count (ptr + size) h ptr (upd (upd next ptr 0) t ptr)
unfolding carve
carve-suc size count ptr h t next live =
    ap
      (λ first.
        carve size count (ptr + size) (if first then ptr else h) ptr
          (if first then upd next ptr 0 else upd (upd next ptr 0) t ptr))
      (==_of_ne h 0 live)

closed-suc :
    (size count : ℕ) (ptr h t : Node) (next : Memory)
    → h ≢ 0
    → closed size (suc count) ptr h t next
      ≡ closed size count (ptr + size) h ptr (upd (upd next ptr 0) t ptr)
unfolding closed
closed-suc size count ptr h t next live =
    ap (λ c. upd c.2 c.1 0) (carve-suc size count ptr h t next live)

closed-zero : (size ptr h t : ℕ) (next : Memory) → closed size zero ptr h t next ≡ upd next t 0
unfolding closed carve
closed-zero size ptr h t next = refl

carve-ends :
    (size count : ℕ) (ptr h t : Node) (next : Memory)
    → h ≢ 0
    → ((carve size count ptr h t next).0 ≡ h)
      × ((carve size count ptr h t next).1 ≡ last t (block_nodes size count ptr))
unfolding carve
carve-ends size zero ptr h t next live = (refl, refl)
carve-ends size (suc count) ptr h t next live =
    rw (carve-suc size count ptr h t next live)
      (carve-ends size count (ptr + size) h ptr (upd (upd next ptr 0) t ptr) live)

carve-frame :
    (size count : ℕ) (ptr h t : Node) (next : Memory) (x : Node)
    → h ≢ 0
    → occ x (t ∷ block_nodes size count ptr) ≡ 0
    → closed size count ptr h t next x ≡ next x
carve-frame size zero ptr h t next x live out = rw (closed-zero size ptr h t next) (ground arith)
carve-frame size (suc count) ptr h t next x live out =
    let rest =
      carve-frame size count (ptr + size) h ptr (upd (upd next ptr 0) t ptr) x live
        (ground arith) in
    rw (closed-suc size count ptr h t next live) (ground (arith, rest, out))

carve-Chain :
    (size count : ℕ) (ptr h t : Node) (next : Memory)
    → h ≢ 0
    → Once (t ∷ block_nodes size count ptr)
    → occ 0 (t ∷ block_nodes size count ptr) ≡ 0
    → Chain (closed size count ptr h t next) t (t ∷ block_nodes size count ptr)
carve-Chain size zero ptr h t next live once nonnull =
    let ended : closed size zero ptr h t next t ≡ 0 =
      rw (closed-zero size ptr h t next) (ground arith) in
    (refl, ground arith, ended)
carve-Chain size (suc count) ptr h t next live once nonnull =
    let rest =
      carve-Chain size count (ptr + size) h ptr (upd (upd next ptr 0) t ptr) live
        (Once-tail t (block_nodes size (suc count) ptr) once) (ground arith) in
    let kept =
      carve-frame size count (ptr + size) h ptr (upd (upd next ptr 0) t ptr) t live
        (absent_of_Once t (block_nodes size (suc count) ptr) once) in
    let linked : closed size (suc count) ptr h t next t ≡ ptr =
      rw (closed-suc size count ptr h t next live) (ground (arith, kept)) in
    let same = closed-suc size count ptr h t next live in
    (
      refl,
      ground arith,
      rw linked
          (subst (λ m. Chain m ptr (ptr ∷ block_nodes size count (ptr + size))) (sym same) rest),
    )

fresh_closed : (size count : ℕ) → Node → Memory → Memory
fresh_closed size count block next = closed size count (block + size) block block (upd next block 0)

add_block-eq :
    (size count : ℕ) (block : Node) (s : MutexStack)
    → block ≢ 0
    → add_block size (suc count) block s ≡ record {
      next =
          upd
            (fresh_closed size count block s.next)
            (last block (block_nodes size count (block + size)))
            s.head;
      head = block;
    }
unfolding add_block carve fresh_closed closed push_chain
add_block-eq size count block s live =
    let c : Node × Node × Memory =
      carve size count (block + size) block block (upd s.next block 0) in
    let ends = carve-ends size count (block + size) block block (upd s.next block 0) live in
    let head_is : c.0 ≡ block = ends.0 in
    let tail_is : c.1 ≡ last block (block_nodes size count (block + size)) = ends.1 in
    rw head_is (rw (==_of_ne block 0 live) (rw tail_is refl))

fresh_closed-frame :
    (size count : ℕ) (block : Node) (next : Memory) (x : Node)
    → block ≢ 0
    → occ x (block_nodes size (suc count) block) ≡ 0
    → fresh_closed size count block next x ≡ next x
unfolding fresh_closed
fresh_closed-frame size count block next x live out =
    let rest = carve-frame size count (block + size) block block (upd next block 0) x live out in
    ground (arith, rest, out)

fresh_closed-Chain :
    (size count : ℕ) (block : Node) (next : Memory)
    → block ≢ 0
    → Once (block_nodes size (suc count) block)
    → occ 0 (block_nodes size (suc count) block) ≡ 0
    → Chain (fresh_closed size count block next) block (block_nodes size (suc count) block)
unfolding fresh_closed
fresh_closed-Chain size count block next live once nonnull =
    carve-Chain size count (block + size) block block (upd next block 0) live once nonnull

one_is_zero : (a b : ℕ) → (1 ≤ a → b ≡ 0) → (a ≡ 0) ⊎ (b ≡ 0)
one_is_zero zero b if_some = inl refl
one_is_zero (suc a) b if_some = inr (if_some (omega arith))

-- `GrowPool` and `EnsureClassPopulated` put the nodes of the block in front of the list.
pub add_block-Holds :
    (capacity size count : ℕ) (block : Node) (s : Shelf) (xs : List Node)
    → 1 ≤ size
    → block ≢ 0
    → Holds capacity s xs
    → ((x : Node) → 1 ≤ occ x (block_nodes size (suc count) block) → free s xs x ≡ 0)
    → Holds capacity
        (record s { stack = add_block size (suc count) block s.stack })
        (block_nodes size (suc count) block ++ xs)
add_block-Holds capacity size count block s xs big live h new =
    let batch : List Node = block_nodes size (suc count) block in
    let batch_once = block_nodes-Once size (suc count) block big in
    let apart = λ (x : Node). one_is_zero (occ x batch) (free s xs x) (new x) in
    let next : Memory = fresh_closed size count block s.stack.next in
    let same : (x : Node) → 1 ≤ occ x xs → next x ≡ s.stack.next x = λ x is_in.
      fresh_closed-frame size count block s.stack.next x live
        (elim (apart x) [ inl out ↦ out | inr out ↦ omega (arith, is_in, out) ]) in
    let total : (x : Node) → occ x (contents s.cache) + occ x (batch ++ xs) ≤ 1 = λ x.
      elim (apart x) [
        | inl out ↦ omega (arith, out, h.once x, occ-append x batch xs)
        | inr out ↦ omega (arith, out, batch_once x, occ-append x batch xs)
      ] in
    let total_of_list : Once (batch ++ xs) = λ x. omega (arith, total x) in
    rw (add_block-eq size count block s.stack live) (record {
      chain =
          join next block s.stack.head block (block_nodes size count (block + size)) xs
            total_of_list
            (fresh_closed-Chain size count block s.stack.next live batch_once
              (before_block size (suc count) block 0 (omega (arith, live))))
            (Chain-same s.stack.next next s.stack.head xs same h.chain);
      once = total;
      nonnull = h.nonnull;
      room = h.room;
    })
