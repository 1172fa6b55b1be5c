-- ===== src/Pool/LockFree/Calls.antt =====
-- A thread's own steps: what it finds changed when it starts a call, goes on in it and returns.
use async_io.Prelude.{
  ℕ, ◌≡◌, ◌≢◌, refl, inl, inr, true, ◌&&◌, none, some, List, ◌∷◌, ◌==◌, Bool-cases, arith,
}
use async_io.Pool.Nodes.{Node, upd}
use async_io.Pool.Count.{occ, last_ne}
use async_io.Pool.LockFree.{
  Pc, popped, Stack, push_chain, pop, go, fail, scribble, obtain, hand_over, advance, fail_exchange,
  begin, move_to, is_held, is_chain, is_free, released, granted, step,
}
use async_io.Pool.LockFree.Invariant.{Inv, PcInv}
use async_io.Pool.LockFree.Moves.{top_unheld}

-- A thread in `Pop`, and one that pushes the chain `n ∷ r`.
abbrev pub Pops : Pc → Type 0
Pops (Pc.pop_loaded o t) = Unit
Pops (Pc.pop_read o t x) = Unit
Pops _ = ⊥

abbrev pub Pushes : Pc → Node → List Node → Type 0
Pushes (Pc.push_loaded n' r' o t) n r = (n' ≡ n) × (r' ≡ r)
Pushes (Pc.push_stored n' r' o t) n r = (n' ≡ n) × (r' ≡ r)
Pushes _ n r = ⊥

module _ (i : ℕ) (s : Stack) (at : s.pc i ≡ Pc.idle) where
  pub pop_starts : step i pop s ≡ record s { pc = upd s.pc i (Pc.pop_loaded s.head s.tag) }
  unfolding step begin move_to
  pop_starts = rw at refl

  pub scribble_writes :
      (n x : Node)
      → s.holder n ≡ some i
      → step i (scribble n x) s ≡ record s { next = upd s.next n x; pc = upd s.pc i Pc.idle }
  unfolding step begin is_held
  scribble_writes n x held = rw at (ground arith)

  pub push_chain_starts :
      (n : Node) (r : List Node)
      → is_chain s.next s.holder i n r ≡ true
      → step i (push_chain n r) s ≡ record s { pc = upd s.pc i (Pc.push_loaded n r s.head s.tag) }
  unfolding step begin move_to
  push_chain_starts n r good = rw at (rw good refl)

  pub obtain_takes :
      (ns : List Node)
      → is_free s ns ≡ true
      → step i (obtain ns) s ≡ record s { holder = granted ns i s.holder; pc = upd s.pc i Pc.idle }
  unfolding step begin
  obtain_takes ns free = rw at (rw free refl)

  pub hand_over_passes :
      (n : Node) (j : ℕ)
      → s.holder n ≡ some i
      → step i (hand_over n j) s
        ≡ record s { holder = upd s.holder n (some j); pc = upd s.pc i Pc.idle }
  unfolding step begin is_held
  hand_over_passes n j held = rw at (ground arith)

-- `Pop` goes on, or returns null, or returns a node that was with no thread.
pub data PopOutcome (i : ℕ) (c : Pc) (s s' : Stack) : Type 0 where
  goes_on : Pops (s'.pc i) → s'.holder ≡ s.holder → s'.next ≡ s.next → PopOutcome i c s s'
  finds_none :
      s'.pc i ≡ Pc.idle
      → popped c ≡ 0
      → s'.holder ≡ s.holder
      → s'.next ≡ s.next
      → PopOutcome i c s s'
  takes :
      s'.pc i ≡ Pc.idle
      → popped c ≢ 0
      → s.holder (popped c) ≡ none
      → s'.holder ≡ upd s.holder (popped c) (some i)
      → s'.next ≡ s.next
      → PopOutcome i c s s'

advance_pop :
    (i : ℕ) (c : Pc) (s : Stack) → Inv s → PcInv s i c → Pops c → PopOutcome i c s (advance i c s)
unfolding advance move_to popped
advance_pop i Pc.idle s v own p = absurd p
advance_pop i (Pc.push_loaded n r o t) s v own p = absurd p
advance_pop i (Pc.push_stored n r o t) s v own p = absurd p
advance_pop i (Pc.pop_loaded o t) s v own p = elim (Bool-cases (o == 0)) [
  | inl empty ↦ rw empty (finds_none (ground arith) (ground arith) refl refl)
  | inr more ↦ rw more (goes_on (ground arith) refl refl)
]
advance_pop i (Pc.pop_read o t x) s v own p = elim (Bool-cases ((s.head == o) && (s.tag == t))) [
  | inl hit ↦
      let here : o ≡ s.head = ground arith in
      let free = top_unheld s v (ground (arith, own.0)) in
      rw hit (takes (ground arith) own.0 (rw here free) refl refl)
  | inr miss ↦ rw miss (goes_on (ground arith) refl refl)
]

pub go_pop : (i : ℕ) (s : Stack) → Inv s → Pops (s.pc i) → PopOutcome i (s.pc i) s (step i go s)
unfolding step
go_pop i s v p = advance_pop i (s.pc i) s v (v.threads i) p

-- A push goes on, with a store at most to a node of its chain, or returns.
pub data PushOutcome (i : ℕ) (n : Node) (r : List Node) (s s' : Stack) : Type 0 where
  goes_on :
      Pushes (s'.pc i) n r
      → s'.holder ≡ s.holder
      → ((x : Node) → occ x (n ∷ r) ≡ 0 → s'.next x ≡ s.next x)
      → PushOutcome i n r s s'
  returns :
      s'.pc i ≡ Pc.idle
      → s'.holder ≡ released (n ∷ r) s.holder
      → s'.next ≡ s.next
      → PushOutcome i n r s s'

advance_push :
    (i : ℕ) (c : Pc) (n : Node) (r : List Node) (s : Stack)
    → Pushes c n r
    → PushOutcome i n r s (advance i c s)
unfolding advance move_to
advance_push i Pc.idle n r s p = absurd p
advance_push i (Pc.pop_loaded o t) n r s p = absurd p
advance_push i (Pc.pop_read o t x) n r s p = absurd p
advance_push i (Pc.push_loaded n' r' o t) n r s p =
    rw (p.0, p.1)
      (goes_on (ground arith) refl (λ x out. let differ = last_ne x n r out in ground arith))
advance_push i (Pc.push_stored n' r' o t) n r s p =
    elim (Bool-cases ((s.head == o) && (s.tag == t))) [
      | inl hit ↦ rw hit (rw (p.0, p.1) (returns (ground arith) refl refl))
      | inr miss ↦ rw miss (rw (p.0, p.1) (goes_on (ground arith) refl (λ x out. refl)))
    ]

pub go_push :
    (i : ℕ) (n : Node) (r : List Node) (s : Stack)
    → Pushes (s.pc i) n r
    → PushOutcome i n r s (step i go s)
unfolding step
go_push i n r s p = advance_push i (s.pc i) n r s p

fail_in_pop :
    (i : ℕ) (c : Pc) (s : Stack)
    → s.pc i ≡ c
    → Pops c
    → let s' = fail_exchange i c s in Pops (s'.pc i) × (s'.holder ≡ s.holder) × (s'.next ≡ s.next)
unfolding fail_exchange move_to
fail_in_pop i Pc.idle s e p = absurd p
fail_in_pop i (Pc.push_loaded n r o t) s e p = absurd p
fail_in_pop i (Pc.push_stored n r o t) s e p = absurd p
fail_in_pop i (Pc.pop_loaded o t) s e p = rw e (tt, refl, refl)
fail_in_pop i (Pc.pop_read o t x) s e p = (ground arith, refl, refl)

-- An exchange that fails for no reason leaves a call where it may be.
pub fail_pop :
    (i : ℕ) (s : Stack)
    → Pops (s.pc i)
    → let s' = step i fail s in Pops (s'.pc i) × (s'.holder ≡ s.holder) × (s'.next ≡ s.next)
unfolding step
fail_pop i s p = fail_in_pop i (s.pc i) s refl p

fail_in_push :
    (i : ℕ) (c : Pc) (n : Node) (r : List Node) (s : Stack)
    → s.pc i ≡ c
    → Pushes c n r
    → let s' = fail_exchange i c s in
      Pushes (s'.pc i) n r × (s'.holder ≡ s.holder) × (s'.next ≡ s.next)
unfolding fail_exchange move_to
fail_in_push i Pc.idle n r s e p = absurd p
fail_in_push i (Pc.pop_loaded o t) n r s e p = absurd p
fail_in_push i (Pc.pop_read o t x) n r s e p = absurd p
fail_in_push i (Pc.push_loaded n' r' o t) n r s e p = rw e (p, refl, refl)
fail_in_push i (Pc.push_stored n' r' o t) n r s e p = (ground arith, refl, refl)

pub fail_push :
    (i : ℕ) (n : Node) (r : List Node) (s : Stack)
    → Pushes (s.pc i) n r
    → let s' = step i fail s in Pushes (s'.pc i) n r × (s'.holder ≡ s.holder) × (s'.next ≡ s.next)
unfolding step
fail_push i n r s p = fail_in_push i (s.pc i) n r s refl p
