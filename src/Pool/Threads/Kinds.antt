-- ===== src/Pool/Threads/Kinds.antt =====
-- The kinds of steps that a thread makes in the shared pool, each with what it needs to keep the invariant.
use async_io.Prelude.{
  ℕ, ◌+◌, ◌<◌, ◌≤◌, ◌^◌, ◌≡◌, ◌≢◌, refl, sym, ◌∙◌, inl, inr, Bool, true, false, Option, none, some,
  List, ◌∷◌, ◌==◌, Bool-cases, leb, arith,
}
use async_io.Pool.Nodes.{Node, Memory, upd}
use async_io.Pool.Count.{occ}
use async_io.Pool.Cache.{Cache}
use async_io.Pool.LockFree.{Pc, Stack, Action, popped, released, go, pop, scribble, push_chain}
use async_io.Pool.LockFree as LockFree
use async_io.Pool.LockFree.Steps.{step-Inv}
use async_io.Pool.LockFree.Moves.{step-Leaves, step_pc}
use async_io.Pool.LockFree.Calls.{Pops, Pushes, pop_starts, scribble_writes, push_chain_starts}
use async_io.Pool.Threads.{Kind, capacity, Phase, SharedPool}
use async_io.Pool.Threads.Invariant.{
  transit, Stage, count_mine, Local, PoolInv, Kept, Only, stepped, Only-upd, Only-same,
}
use async_io.Pool.Threads.Locals.{released_outside, Local-less, Local-same}
use async_io.Pool.Threads.Stores.{Leads, is_chain-Leads}

-- A node that was with no thread comes into use.
module _ (holder : Node → Option ℕ) (in_use : Node → Bool) (n i : ℕ) where
  pub given_unused :
      (x : Node)
      → (holder x ≡ none → in_use x ≡ false)
      → upd holder n (some i) x ≡ none
      → upd in_use n true x ≡ false
  given_unused x unused free = elim (Bool-cases (x == n)) [
    | inl same ↦ absurd (ground arith)
    | inr differ ↦ ground (arith, unused)
  ]

  pub given_same :
      (j : ℕ) (x : Node) → holder n ≡ none → holder x ≡ some j → upd in_use n true x ≡ in_use x
  given_same j x free held = let differ : x ≢ n = λ e. ground arith in ground arith

  pub given_keeps :
      (x : Node)
      → holder n ≡ none
      → holder x ≡ some i
      → in_use x ≡ false
      → (upd holder n (some i) x ≡ some i) × (upd in_use n true x ≡ false)
  given_keeps x free held unused = let differ : x ≢ n = λ e. ground arith in ground arith

module _ (k : Kind) (i : ℕ) (p : SharedPool) (v : PoolInv k p)
    (small : p.stack.changes + 1 < 2 ^ 64) where
  -- A step on the stack, and whatever the thread does by itself then.
  pub on_stack-Inv :
      {p' : SharedPool} (a : Action) (c : Cache) (f : Phase)
      → p'.stack ≡ LockFree.step i a p.stack
      → Only i p.caches p'.caches c
      → Only i p.phase p'.phase f
      → ((x : Node) → p'.stack.holder x ≡ none → p'.in_use x ≡ false)
      → ((j : ℕ) → j ≢ i → (x : Node) → p.stack.holder x ≡ some j → p'.in_use x ≡ p.in_use x)
      → Local k i p'.stack p'.in_use (p'.stack.pc i) c f
      → Kept k i p p'
  on_stack-Inv {p'} a c f e caches phases unused same_use own =
      stepped k i p p' c f v (rw e (step-Inv i a p.stack small v.stack_inv))
        (λ j ne. rw e (step-Leaves i j a p.stack v.stack_inv ne, step_pc i j a p.stack ne)) caches
        phases unused same_use own

  -- A step that has to do with the thread alone.
  pub alone-Inv :
      {p' : SharedPool} (c : Cache) (f : Phase)
      → p'.stack ≡ p.stack
      → Only i p.caches p'.caches c
      → Only i p.phase p'.phase f
      → ((x : Node) → p.stack.holder x ≡ none → p'.in_use x ≡ false)
      → ((j : ℕ) → j ≢ i → (x : Node) → p.stack.holder x ≡ some j → p'.in_use x ≡ p.in_use x)
      → Local k i p.stack p'.in_use (p.stack.pc i) c f
      → Kept k i p p'
  alone-Inv {p'} c f e caches phases unused same_use own =
      stepped k i p p' c f v (rw e v.stack_inv) (λ j ne. rw e (λ m h. (h, refl), refl)) caches
        phases (rw e unused) same_use (rw e own)

  -- Nothing but the place in a call changes, in a call on the stack or out of it.
  pub moves_on :
      {p' : SharedPool} (a : Action) (f f' : Phase)
      → p'.stack ≡ LockFree.step i a p.stack
      → p'.caches ≡ p.caches
      → p'.in_use ≡ p.in_use
      → Only i p.phase p'.phase f'
      → p'.stack.holder ≡ p.stack.holder
      → ((x : Node) → occ x (transit k f') ≤ occ x (transit k f))
      → Stage k (p'.stack.pc i) p'.stack.next f'
      → Local k i p.stack p.in_use (p.stack.pc i) (p.caches i) f
      → Kept k i p p'
  moves_on {p'} a f f' e caches uses phases holders less stage own =
      on_stack-Inv a (p.caches i) f' e (rw caches (Only-same i p.caches (p.caches i) refl)) phases
        (rw (holders, uses) v.unheld_unused) (λ j ne x h. rw uses refl)
        (rw uses (
          Local-same k i p.stack p'.stack p.in_use (p.stack.pc i) (p'.stack.pc i) (p.caches i) f f'
            holders less stage own))

  pub moves_alone :
      {p' : SharedPool} (f f' : Phase)
      → p'.stack ≡ p.stack
      → p'.caches ≡ p.caches
      → p'.in_use ≡ p.in_use
      → Only i p.phase p'.phase f'
      → ((x : Node) → occ x (transit k f') ≤ occ x (transit k f))
      → Stage k (p.stack.pc i) p.stack.next f'
      → Local k i p.stack p.in_use (p.stack.pc i) (p.caches i) f
      → Kept k i p p'
  moves_alone {p'} f f' e caches uses phases less stage own =
      alone-Inv (p.caches i) f' e (rw caches (Only-same i p.caches (p.caches i) refl)) phases
        (rw uses v.unheld_unused) (λ j ne x h. rw uses refl)
        (rw uses (
          Local-same k i p.stack p.stack p.in_use (p.stack.pc i) (p.stack.pc i) (p.caches i) f f'
            refl less stage own))

  -- One store to a node that the thread has.
  pub scribbled-Inv :
      {p' : SharedPool} (n x : Node) (f f' : Phase)
      → 1 ≤ occ n (transit k f)
      → p.stack.pc i ≡ Pc.idle
      → p'.stack ≡ LockFree.step i (scribble n x) p.stack
      → p'.caches ≡ p.caches
      → p'.in_use ≡ p.in_use
      → Only i p.phase p'.phase f'
      → ((x : Node) → occ x (transit k f') ≤ occ x (transit k f))
      → Stage k Pc.idle (upd p.stack.next n x) f'
      → Local k i p.stack p.in_use (p.stack.pc i) (p.caches i) f
      → Kept k i p p'
  scribbled-Inv {p'} n x f f' here at e caches uses phases less stage own =
      let w = e ∙ scribble_writes i p.stack at n x (own.own n (omega (arith, here))).0 in
      moves_on (scribble n x) f f' e caches uses phases (rw w refl) less
        (rw w (rw ((Only-upd i p.stack.pc Pc.idle).0) stage)) own

  -- `PushChain` starts, with a chain that the thread has.
  pub published-Inv :
      {p' : SharedPool} (n : Node) (r : List Node) (f f' : Phase)
      → p.stack.pc i ≡ Pc.idle
      → Leads p.stack.next n r
      → p'.stack ≡ LockFree.step i (push_chain n r) p.stack
      → p'.caches ≡ p.caches
      → p'.in_use ≡ p.in_use
      → Only i p.phase p'.phase f'
      → ((x : Node) → occ x (n ∷ r) ≤ occ x (transit k f))
      → ((x : Node) → occ x (transit k f') ≤ occ x (transit k f))
      → ((c : Pc) → Pushes c n r → Stage k c p.stack.next f')
      → Local k i p.stack p.in_use (p.stack.pc i) (p.caches i) f
      → Kept k i p p'
  published-Inv {p'} n r f f' at leads e caches uses phases among less stage own =
      let good =
        is_chain-Leads p.stack.next p.stack.holder i n r leads
          (λ x. omega (arith, among x, own.once x))
          (λ x here. let mine = own.own x (omega (arith, among x, here)) in (mine.0, mine.2)) in
      let w = e ∙ push_chain_starts i p.stack at n r good in
      let c = Pc.push_loaded n r p.stack.head p.stack.tag in
      moves_on (push_chain n r) f f' e caches uses phases (rw w refl) less
        (rw w (rw ((Only-upd i p.stack.pc c).0) (stage c (refl, refl)))) own

  -- `Pop` starts.
  pub pop_begun-Inv :
      {p' : SharedPool} (f f' : Phase)
      → p.stack.pc i ≡ Pc.idle
      → p'.stack ≡ LockFree.step i pop p.stack
      → p'.caches ≡ p.caches
      → p'.in_use ≡ p.in_use
      → Only i p.phase p'.phase f'
      → ((x : Node) → occ x (transit k f') ≤ occ x (transit k f))
      → ((c : Pc) → Pops c → Stage k c p.stack.next f')
      → Local k i p.stack p.in_use (p.stack.pc i) (p.caches i) f
      → Kept k i p p'
  pop_begun-Inv {p'} f f' at e caches uses phases less stage own =
      let w = e ∙ pop_starts i p.stack at in
      let c = Pc.pop_loaded p.stack.head p.stack.tag in
      moves_on pop f f' e caches uses phases (rw w refl) less
        (rw w (rw ((Only-upd i p.stack.pc c).0) (stage c tt))) own

  -- `PushChain` returns: the chain is on the stack.
  pub returned-Inv :
      {p' : SharedPool} (n : Node) (r : List Node) (c' : Cache) (f f' : Phase)
      → p'.stack ≡ LockFree.step i go p.stack
      → (LockFree.step i go p.stack).pc i ≡ Pc.idle
      → (LockFree.step i go p.stack).holder ≡ released (n ∷ r) p.stack.holder
      → Only i p.caches p'.caches c'
      → p'.in_use ≡ p.in_use
      → Only i p.phase p'.phase f'
      → ((x : Node) → count_mine k c' f' x + occ x (n ∷ r) ≤ count_mine k (p.caches i) f x)
      → c'.count ≤ capacity k
      → ((next : Memory) → Stage k Pc.idle next f')
      → Local k i p.stack p.in_use (p.stack.pc i) (p.caches i) f
      → Kept k i p p'
  returned-Inv {p'} n r c' f f' e idle holders caches uses phases less room stage own =
      on_stack-Inv go c' f' e caches phases
        (λ x free. rw uses (elim (Bool-cases (leb 1 (occ x (n ∷ r)))) [
          | inl here ↦ (own.own x (ground (arith, less x, here))).1
          | inr out ↦
              let same = released_outside (n ∷ r) p.stack.holder x (ground arith) in
              v.unheld_unused x (sym same ∙ rw holders at (rw e at free))
        ]))
        (λ j ne x h. rw uses refl)
        (rw uses (
          Local-less k i p.stack p'.stack p.in_use p.in_use (p.stack.pc i) (p'.stack.pc i)
            (p.caches i) c' f f' (λ x. omega (arith, less x))
            (λ x here held unused. (
              rw e (
                  rw holders (
                    released_outside (n ∷ r) p.stack.holder x
                      (omega (arith, less x, here, own.once x))
                    ∙ held)),
              unused,
            ))
            room (rw e (rw idle (stage (LockFree.step i go p.stack).next))) own))
