-- ===== src/Pool/LockFree/Steps.antt =====
-- The invariant holds in every reachable state, and what follows for `Push` and `Pop`.
use async_io.Prelude.{
  not, ℕ, ◌+◌, ◌≤◌, ◌<◌, ◌^◌, ◌≡◌, refl, inl, inr, true, ◌&&◌, Option, none, some, List, [], ◌∷◌,
  ◌==◌, Bool-cases, All, arith,
}
use async_io.Pool.Nodes.{Node, upd, Chain, Distinct}
use async_io.Pool.LockFree.{
  Pc, Stack, Action, push, push_chain, pop, go, fail, scribble, obtain, hand_over, is_free, granted,
  tail, advance, fail_exchange, begin, move_to, is_held, is_chain, step, run,
}
use async_io.Pool.Count.{last}
use async_io.Pool.LockFree.Chains.{
  IsChain-upd, last_held, held_of, is_chain-IsChain, not_in_of_held, granted_other, granted-unheld,
  unheld-upd,
}
use async_io.Pool.LockFree.Invariant.{
  Inv, PcInv, local-Inv, holder-Inv, write-Inv, push-Inv, pop-Inv, chain_top,
}

advance-Inv :
    (i : ℕ) (c : Pc) (s : Stack)
    → PcInv s i c
    → s.changes + 1 < 2 ^ 64
    → Inv s
    → Inv (advance i c s)
unfolding advance move_to
advance-Inv i Pc.idle s own small v = v
advance-Inv i (Pc.push_loaded n r o t) s own small v =
    write-Inv i (last n r) o (Pc.push_stored n r o t) s (last_held s.next s.holder i n r own.0)
      (IsChain-upd s.next s.holder i n r o own.0, own.1, ground arith) v
advance-Inv i (Pc.push_stored n r o t) s own small v =
    elim (Bool-cases ((s.head == o) && (s.tag == t))) [
      | inl hit ↦
          let same : t ≡ s.tag = ground arith in
          rw hit (rw same (push-Inv i n r s own.0 (ground (arith, own.2)) small v))
      | inr miss ↦
          rw miss
            (local-Inv i (Pc.push_loaded n r s.head s.tag) s (own.0, (omega arith, λ e. refl)) v)
    ]
advance-Inv i (Pc.pop_loaded o t) s own small v = elim (Bool-cases (o == 0)) [
  | inl empty ↦ rw empty (local-Inv i Pc.idle s tt v)
  | inr more ↦ rw more (local-Inv i (Pc.pop_read o t (s.next o)) s (ground arith, own, λ e. refl) v)
]
advance-Inv i (Pc.pop_read o t x) s own small v =
    elim (Bool-cases ((s.head == o) && (s.tag == t))) [
      | inl hit ↦
          let same : t ≡ s.tag = ground arith in
          let here : o ≡ s.head = ground arith in
          let (xs, top) = chain_top s v (ground (arith, own.0)) in
          rw hit (rw (same, here) (pop-Inv i x xs s top (ground (arith, own.2)) small v))
      | inr miss ↦ rw miss (local-Inv i (Pc.pop_loaded s.head s.tag) s (omega arith, λ e. refl) v)
    ]

fail_exchange-Inv : (i : ℕ) (c : Pc) (s : Stack) → PcInv s i c → Inv s → Inv (fail_exchange i c s)
unfolding fail_exchange move_to
fail_exchange-Inv i Pc.idle s own v = v
fail_exchange-Inv i (Pc.push_loaded n r o t) s own v = v
fail_exchange-Inv i (Pc.pop_loaded o t) s own v = v
fail_exchange-Inv i (Pc.push_stored n r o t) s own v =
    local-Inv i (Pc.push_loaded n r s.head s.tag) s (own.0, (omega arith, λ e. refl)) v
fail_exchange-Inv i (Pc.pop_read o t x) s own v =
    local-Inv i (Pc.pop_loaded s.head s.tag) s (omega arith, λ e. refl) v

begin-Inv : (i : ℕ) (c : Pc) (a : Action) (s : Stack) → s.pc i ≡ c → Inv s → Inv (begin i c a s)
unfolding begin move_to
begin-Inv i Pc.idle (push n) s e v = elim (Bool-cases (is_held (s.holder n) i && not (n == 0))) [
  | inl good ↦
      let held : is_held (s.holder n) i ≡ true = ground arith in
      rw good (
        local-Inv i (Pc.push_loaded n [] s.head s.tag) s
          ((held_of (s.holder n) i held, ground arith), (omega arith, λ q. refl)) v)
  | inr bad ↦ rw bad v
]
begin-Inv i Pc.idle (push_chain n r) s e v = elim (Bool-cases (is_chain s.next s.holder i n r)) [
  | inl good ↦ rw good (
      local-Inv i (Pc.push_loaded n r s.head s.tag) s
        (is_chain-IsChain s.next s.holder i n r good, (omega arith, λ q. refl)) v)
  | inr bad ↦ rw bad v
]
begin-Inv i Pc.idle pop s e v =
    local-Inv i (Pc.pop_loaded s.head s.tag) s (omega arith, λ q. refl) v
begin-Inv i Pc.idle (scribble n x) s e v = elim (Bool-cases (is_held (s.holder n) i)) [
  | inl held ↦ rw held (write-Inv i n x Pc.idle s (held_of (s.holder n) i held) tt v)
  | inr other ↦ rw other v
]
begin-Inv i Pc.idle (obtain ns) s e v = elim (Bool-cases (is_free s ns)) [
  | inl free ↦ rw free (
      holder-Inv i (granted ns i s.holder) s (λ j ne m h. granted_other ns i s free m j h)
        (granted-unheld ns i s free v.unheld) v)
  | inr taken ↦ rw taken v
]
begin-Inv i Pc.idle (hand_over n j) s e v = elim (Bool-cases (is_held (s.holder n) i)) [
  | inl held ↦
      let mine = held_of (s.holder n) i held in
      rw held (
        holder-Inv i (upd s.holder n (some j)) s (λ k ne m h. ground arith)
          (unheld-upd s.holder n (some j) s.items
            (not_in_of_held s.holder n i s.items mine v.unheld) v.unheld)
          v)
  | inr other ↦ rw other v
]
begin-Inv i Pc.idle go s e v = v
begin-Inv i Pc.idle fail s e v = v
begin-Inv i (Pc.push_loaded n r o t) a s e v = v
begin-Inv i (Pc.push_stored n r o t) a s e v = v
begin-Inv i (Pc.pop_loaded o t) a s e v = v
begin-Inv i (Pc.pop_read o t y) a s e v = v

pub step-Inv : (i : ℕ) (a : Action) (s : Stack) → s.changes + 1 < 2 ^ 64 → Inv s → Inv (step i a s)
unfolding step
step-Inv i go s small v = advance-Inv i (s.pc i) s (v.threads i) small v
step-Inv i fail s small v = fail_exchange-Inv i (s.pc i) s (v.threads i) v
step-Inv i (push n) s small v = begin-Inv i (s.pc i) (push n) s refl v
step-Inv i (push_chain n r) s small v = begin-Inv i (s.pc i) (push_chain n r) s refl v
step-Inv i pop s small v = begin-Inv i (s.pc i) pop s refl v
step-Inv i (scribble n x) s small v = begin-Inv i (s.pc i) (scribble n x) s refl v
step-Inv i (obtain ns) s small v = begin-Inv i (s.pc i) (obtain ns) s refl v
step-Inv i (hand_over n j) s small v = begin-Inv i (s.pc i) (hand_over n j) s refl v

advance_changes : (i : ℕ) (c : Pc) (s : Stack) → s.changes ≤ (advance i c s).changes
unfolding advance move_to
advance_changes i Pc.idle s = omega arith
advance_changes i _ s = ground arith

fail_changes : (i : ℕ) (c : Pc) (s : Stack) → s.changes ≤ (fail_exchange i c s).changes
unfolding fail_exchange move_to
fail_changes i Pc.idle s = omega arith
fail_changes i _ s = omega arith

begin_changes : (i : ℕ) (c : Pc) (a : Action) (s : Stack) → s.changes ≤ (begin i c a s).changes
unfolding begin move_to
begin_changes i Pc.idle go s = omega arith
begin_changes i Pc.idle _ s = ground arith
begin_changes i _ a s = omega arith

pub step_changes : (i : ℕ) (a : Action) (s : Stack) → s.changes ≤ (step i a s).changes
unfolding step
step_changes i go s = advance_changes i (s.pc i) s
step_changes i fail s = fail_changes i (s.pc i) s
step_changes i (push n) s = begin_changes i (s.pc i) (push n) s
step_changes i (push_chain n r) s = begin_changes i (s.pc i) (push_chain n r) s
step_changes i pop s = begin_changes i (s.pc i) pop s
step_changes i (scribble n x) s = begin_changes i (s.pc i) (scribble n x) s
step_changes i (obtain ns) s = begin_changes i (s.pc i) (obtain ns) s
step_changes i (hand_over n j) s = begin_changes i (s.pc i) (hand_over n j) s

pub run_changes : (acts : List (ℕ × Action)) (s : Stack) → s.changes ≤ (run acts s).changes
unfolding run
run_changes [] s = omega arith
run_changes ((i, a) ∷ rest) s = omega (arith, step_changes i a s, run_changes rest (step i a s))

pub run_from-Inv :
    (acts : List (ℕ × Action)) (s : Stack)
    → (run acts s).changes + 1 < 2 ^ 64
    → Inv s
    → Inv (run acts s)
unfolding run
run_from-Inv [] s small v = v
run_from-Inv ((i, a) ∷ rest) s small v =
    run_from-Inv rest (step i a s) small
      (step-Inv i a s (omega (arith, small, step_changes i a s, run_changes rest (step i a s))) v)

-- The outcome of the exchange in `Pop` where it succeeds.
advance_pop :
    (i : ℕ) (o : Node) (t : ℕ) (x : Node) (c : Pc) (s : Stack)
    → c ≡ Pc.pop_read o t x
    → s.head ≡ o
    → s.tag ≡ t
    → let s' = advance i c s in
      (s'.head ≡ x) × (s'.items ≡ tail s.items) × (s'.holder o ≡ some i) × (s'.next ≡ s.next)
unfolding advance
advance_pop i o t x c s e here same = ground arith

pop_exchange :
    (i : ℕ) (o : Node) (t : ℕ) (x : Node) (s : Stack)
    → s.changes + 1 < 2 ^ 64
    → Inv s
    → s.pc i ≡ Pc.pop_read o t x
    → s.head ≡ o
    → s.tag ≡ t
    → let s' = step i go s in
      (s.items ≡ o ∷ s'.items)
      × (s.holder o ≡ none)
      × (s'.holder o ≡ some i)
      × Chain s'.next s'.head s'.items
unfolding step
pop_exchange i o t x s small v e here same =
    let own : PcInv s i (Pc.pop_read o t x) = rw e at (v.threads i) in
    let (xs, top) = chain_top s v (ground (arith, own.0)) in
    let (h, l, u, n) = advance_pop i o t x (s.pc i) s e here same in
    let v' = advance-Inv i (s.pc i) s (v.threads i) small v in
    (ground arith, ground (arith, v.unheld), u, v'.chain)

-- A new stack: empty, no exchange made, all threads between calls.
abbrev pub fresh : (next : Node → Node) (holder : Node → Option ℕ) → Stack
fresh next holder = record {
  next = next;
  head = 0;
  tag = 0;
  items = [];
  holder = holder;
  changes = 0;
  pc = λ i. Pc.idle;
}

pub fresh-Inv : (next : Node → Node) (holder : Node → Option ℕ) → Inv (fresh next holder)
fresh-Inv next holder = record {
  chain = refl;
  distinct = tt;
  unheld = tt;
  counted = refl;
  threads = λ i. tt;
}

module _ (next : Node → Node) (holder : Node → Option ℕ) (acts : List (ℕ × Action))
    (small : (run acts (fresh next holder)).changes + 1 < 2 ^ 64) where
  -- After any interleaving of calls of any number of threads, with fewer than 2 ^ 64 - 1 successful
  -- exchanges, the `next` fields lead from the head through exactly the nodes pushed and not popped,
  -- each once, and no thread holds one of them.
  pub memory_is_stack :
      let s = run acts (fresh next holder) in
      Chain s.next s.head s.items × Distinct s.items × All (λ x. s.holder x ≡ none) s.items
  memory_is_stack =
      let v = run_from-Inv acts (fresh next holder) small (fresh-Inv next holder) in
      (v.chain, v.distinct, v.unheld)

  -- When the exchange of a `Pop` succeeds, it takes the top of the stack: the node was held by no
  -- thread and is held by this one now, and the memory leads through the other nodes, although others
  -- may have popped, overwritten and pushed the same node since it was read.
  pub pop_takes_top :
      (i : ℕ) (o : Node) (t : ℕ) (x : Node)
      → let s = run acts (fresh next holder) in
        let s' = step i go s in
        s.pc i ≡ Pc.pop_read o t x
        → s.head ≡ o
        → s.tag ≡ t
        → (s.items ≡ o ∷ s'.items)
          × (s.holder o ≡ none)
          × (s'.holder o ≡ some i)
          × Chain s'.next s'.head s'.items
  pop_takes_top i o t x e here same =
      pop_exchange i o t x (run acts (fresh next holder)) small
        (run_from-Inv acts (fresh next holder) small (fresh-Inv next holder)) e here same
