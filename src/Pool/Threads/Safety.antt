-- ===== src/Pool/Threads/Safety.antt =====
-- What holds of the shared pool after any interleaving: no node is in two places, and `Acquire` never
-- gives out one that is in use.
use async_io.Prelude.{
  Bool, ℕ, zero, suc, ◌+◌, ◌<◌, ◌≤◌, ◌^◌, ◌≡◌, ◌≢◌, refl, ◌∙◌, inl, inr, true, false, Option, none,
  some, List, [], ◌∷◌, ◌==◌, Bool-cases, All, arith,
}
use async_io.Pool.Nodes.{Node, Memory, Chain, Distinct, ◌∉◌}
use async_io.Pool.Count.{occ}
use async_io.Pool.Cache.{Cache, contents, reset}
use async_io.Pool.LockFree.{Pc, Stack}
use async_io.Pool.LockFree.Steps.{fresh, fresh-Inv}
use async_io.Pool.Threads.{Kind, Phase, resets, SharedPool, Action, create, step, run}
use async_io.Pool.Threads.Invariant.{transit, Stage, Local, PoolInv}
use async_io.Pool.Threads.Locals.{zero_of}
use async_io.Pool.Threads.Given.{step_gives}
use async_io.Pool.Threads.Reached.{step-Inv}
use async_io.Pool.Threads.Changes.{pool_step_changes, run_changes}

-- A thread at rest with an empty cache, or about to allocate.
empty-Local :
    (k : Kind) (j : ℕ) (s : Stack) (used : Node → Bool) (c : Cache) (f : Phase)
    → c.count ≡ 0
    → transit k f ≡ []
    → Stage k Pc.idle s.next f
    → Local k j s used Pc.idle c f
empty-Local k j s used c f few nothing stage = record {
  once = λ x. rw (few, nothing) (omega arith);
  own = λ x here. absurd (let h : 1 ≤ 0 = rw (few, nothing) at here in omega arith);
  room = rw few (omega arith);
  stage = stage;
}

create-Inv :
    (k : Kind) (i count : ℕ) (next : Memory) (caches : ℕ → Cache)
    → ((j : ℕ) → resets k i j ≡ false → (caches j).count ≡ 0)
    → PoolInv k (create k i count next caches)
unfolding create reset
create-Inv (Kind.buffer_class idx) i count next caches others = record {
  stack_inv = fresh-Inv next (λ n. none);
  unheld_unused = λ x h. refl;
  threads = λ j.
      empty-Local (Kind.buffer_class idx) j (fresh next (λ n. none)) (λ n. false) (caches j)
        Phase.resting (others j refl) refl refl;
}
create-Inv (Kind.object_pool sizeof_t grow_batch) i count next caches others = record {
  stack_inv = fresh-Inv next (λ n. none);
  unheld_unused = λ x h. refl;
  threads = λ j. elim (Bool-cases (j == i)) [
    | inl same ↦ rw same (
        empty-Local (Kind.object_pool sizeof_t grow_batch) j (fresh next (λ n. none)) (λ n. false)
          (reset (caches j)) (Phase.growing count false) refl refl refl)
    | inr differ ↦ rw differ (
        empty-Local (Kind.object_pool sizeof_t grow_batch) j (fresh next (λ n. none)) (λ n. false)
          (caches j) Phase.resting (others j differ) refl refl)
  ];
}

module _ (k : Kind) where
  run-Inv :
      (acts : List (ℕ × Action)) (p : SharedPool)
      → (run k acts p).stack.changes + 1 < 2 ^ 64
      → PoolInv k p
      → PoolInv k (run k acts p)
  unfolding run
  run-Inv [] p small v = v
  run-Inv ((i, a) ∷ rest) p small v =
      let q = (step k i a p).1 in
      run-Inv rest q small
        (step-Inv k i p v (omega (arith, small, pool_step_changes k i p a, run_changes k rest q))
          a).inv

-- A node on the stack is with no thread, and there once.
on_stack-unheld :
    (x : Node) (xs : List Node) (holder : Node → Option ℕ)
    → All (λ y. holder y ≡ none) xs
    → 1 ≤ occ x xs
    → holder x ≡ none
on_stack-unheld x [] holder u here = absurd (omega arith)
on_stack-unheld x (y ∷ xs) holder u here = elim (Bool-cases (y == x)) [
  | inl same ↦ let e : y ≡ x = ground arith in rw e at u.0
  | inr differ ↦ on_stack-unheld x xs holder u.1 (ground arith)
]

occ-absent : (x : Node) (xs : List Node) → x ∉ xs → occ x xs ≡ 0
occ-absent x [] out = refl
occ-absent x (y ∷ xs) out = ground (arith, occ-absent x xs out.1, out.0)

occ-Distinct : (x : Node) (xs : List Node) → Distinct xs → occ x xs ≤ 1
occ-Distinct x [] d = omega arith
occ-Distinct x (y ∷ xs) d = elim (Bool-cases (y == x)) [
  | inl same ↦ let e : y ≡ x = ground arith in ground (arith, occ-absent y xs d.0)
  | inr differ ↦ ground (arith, occ-Distinct x xs d.1)
]

-- Of three counts of at most 1, no two are above 0.
exclusive :
    (a b c : ℕ)
    → a ≤ 1
    → b ≤ 1
    → c ≤ 1
    → (1 ≤ a → 1 ≤ b → ⊥)
    → (1 ≤ a → 1 ≤ c → ⊥)
    → (1 ≤ b → 1 ≤ c → ⊥)
    → a + b + c ≤ 1
exclusive zero zero c a₁ b₁ c₁ ab ac bc = omega arith
exclusive zero (suc b) c a₁ b₁ c₁ ab ac bc = omega (arith, zero_of c (bc (omega arith)))
exclusive (suc a) b c a₁ b₁ c₁ ab ac bc =
    omega (arith, zero_of b (ab (omega arith)), zero_of c (ac (omega arith)))

module _ (k : Kind) (p : SharedPool) (v : PoolInv k p) where
  cached :
      (j : ℕ) (x : Node)
      → 1 ≤ occ x (contents (p.caches j))
      → (p.stack.holder x ≡ some j) × (p.in_use x ≡ false)
  cached j x here = let mine = (v.threads j).own x (omega (arith, here)) in (mine.0, mine.1)

  stacked : (x : Node) → 1 ≤ occ x p.stack.items → p.stack.holder x ≡ none
  stacked x here = on_stack-unheld x p.stack.items p.stack.holder v.stack_inv.unheld here

  apart :
      (j k : ℕ) (x : Node)
      → j ≢ k
      → occ x (contents (p.caches j)) + occ x (contents (p.caches k)) + occ x p.stack.items ≤ 1
  apart j k x ne =
      exclusive (occ x (contents (p.caches j))) (occ x (contents (p.caches k)))
        (occ x p.stack.items) (omega (arith, (v.threads j).once x))
        (omega (arith, (v.threads k).once x)) (occ-Distinct x p.stack.items v.stack_inv.distinct)
        (λ a b. let (m, _) = cached j x a in let (n, _) = cached k x b in ground arith)
        (λ a c. let (m, _) = cached j x a in let n = stacked x c in ground arith)
        (λ b c. let (m, _) = cached k x b in let n = stacked x c in ground arith)

  nowhere :
      (j : ℕ) (x : Node)
      → p.in_use x ≡ true
      → occ x (contents (p.caches j)) + occ x p.stack.items ≡ 0
  nowhere j x used = omega (
    arith,
    zero_of (occ x (contents (p.caches j))) (λ a. let (_, u) = cached j x a in ground arith),
    zero_of (occ x p.stack.items) (λ c. let u = v.unheld_unused x (stacked x c) in ground arith),
  )

-- A new pool after the steps `acts`.
abbrev pub pool_after :
    (k : Kind) (i count : ℕ) (next : Memory) (caches : ℕ → Cache) → List (ℕ × Action) → SharedPool
pool_after k i count next caches acts = run k acts (create k i count next caches)

module _ (k : Kind) (i count : ℕ) (next : Memory) (caches : ℕ → Cache)
    (new : (j : ℕ) → resets k i j ≡ false → (caches j).count ≡ 0) (acts : List (ℕ × Action))
    (small : (pool_after k i count next caches acts).stack.changes + 1 < 2 ^ 64) where
  reached : PoolInv k (pool_after k i count next caches acts)
  reached =
      run-Inv k acts (create k i count next caches) small (create-Inv k i count next caches new)

  -- In an `ObjectPool` or a class of a `BufferPool`, whose threads had empty caches (but for the
  -- one that constructs an `ObjectPool`), after any interleaving of the calls of any number of threads,
  -- with fewer than 2 ^ 64 - 1 successful exchanges: the `next` fields lead from the head through the
  -- nodes of the list; no node is twice in the list and the caches of any two threads; and a node in
  -- use is in none of them.
  pub each_node_once :
      let p = pool_after k i count next caches acts in
      Chain p.stack.next p.stack.head p.stack.items
      × ((j l : ℕ) (x : Node)
          → j ≢ l
          → occ x (contents (p.caches j)) + occ x (contents (p.caches l)) + occ x p.stack.items ≤ 1)
      × ((j : ℕ) (x : Node)
          → p.in_use x ≡ true
          → occ x (contents (p.caches j)) + occ x p.stack.items ≡ 0)
  each_node_once =
      let p = pool_after k i count next caches acts in
      (reached.stack_inv.chain, apart k p reached, nowhere k p reached)

  module _ (j : ℕ) (a : Action) where
    -- After any interleaving as above: what `Acquire` or `Allocate` of any thread returns, unless it
    -- is null, was not in use; now it is, this thread alone has it, and it is in no cache and not in
    -- the list.
    pub acquire_gives_unused :
        (n : Node)
        → (step k j a (pool_after k i count next caches acts)).0 ≡ some n
        → n ≢ 0
        → let p = pool_after k i count next caches acts in
          let p' = (step k j a p).1 in
          (p.in_use n ≡ false)
          × (p'.in_use n ≡ true)
          × (p'.stack.holder n ≡ some j)
          × ((l : ℕ) → occ n (contents (p'.caches l)) + occ n p'.stack.items ≡ 0)
    acquire_gives_unused n answer live =
        let p = pool_after k i count next caches acts in
        let p' = (step k j a p).1 in
        let (before, after, mine) = step_gives k j p reached n live a answer in
        let kept = step-Inv k j p reached small a in
        (before, after, mine, λ l. nowhere k p' kept.inv l n after)

    -- After any interleaving as above: a node that another thread `l` has in use is not touched by a
    -- step of thread `j`. It stays in use with `l`, and nothing is written into it.
    pub used_untouched :
        (l : ℕ) (n : Node)
        → l ≢ j
        → (pool_after k i count next caches acts).in_use n ≡ true
        → (pool_after k i count next caches acts).stack.holder n ≡ some l
        → let p = pool_after k i count next caches acts in
          let p' = (step k j a p).1 in
          (p'.in_use n ≡ true) × (p'.stack.holder n ≡ some l) × (p'.stack.next n ≡ p.stack.next n)
    used_untouched l n ne used held =
        let p = pool_after k i count next caches acts in
        let kept = step-Inv k j p reached small a in
        let frame = kept.frames l ne in
        (frame.same_use n held ∙ used, (frame.leaves n held).0, (frame.leaves n held).1)
