-- ===== src/Pool/LockFree/Moves.antt =====
-- What a step on the stack does to the thread that makes it, and to what other threads have.
use async_io.Prelude.{
  ℕ, ◌≡◌, ◌≢◌, refl, inl, inr, ◌&&◌, none, some, ◌∷◌, ◌==◌, Bool-cases, All, arith,
}
use async_io.Pool.Nodes.{Node}
use async_io.Pool.Count.{last}
use async_io.Pool.LockFree.{
  Pc, Stack, Action, push, push_chain, pop, go, fail, scribble, obtain, hand_over, advance,
  fail_exchange, begin, move_to, is_held, is_free, step,
}
use async_io.Pool.LockFree.Chains.{last_held, held_of, released_other, granted_other}
use async_io.Pool.LockFree.Invariant.{Inv, PcInv, chain_top}

-- What thread `j` has is left to it, unchanged.
abbrev pub Leaves : ℕ → Stack → Stack → Type 0
Leaves j s s' = (m : Node) → s.holder m ≡ some j → (s'.holder m ≡ some j) × (s'.next m ≡ s.next m)

-- A popped node was with no thread.
pub top_unheld : (s : Stack) → Inv s → s.head ≢ 0 → s.holder s.head ≡ none
top_unheld s v ne =
    let (xs, top) = chain_top s v ne in
    let u : All (λ x. s.holder x ≡ none) (s.head ∷ xs) = rw top at v.unheld in u.0

advance-Leaves :
    (i j : ℕ) (c : Pc) (s : Stack) → Inv s → PcInv s i c → j ≢ i → Leaves j s (advance i c s)
unfolding advance move_to
advance-Leaves i j Pc.idle s v own ne m h = (h, refl)
advance-Leaves i j (Pc.push_loaded n r o t) s v own ne m h =
    let mine = last_held s.next s.holder i n r own.0 in
    let differ : last n r ≢ m = λ e. ground arith in ground arith
advance-Leaves i j (Pc.push_stored n r o t) s v own ne m h =
    let kept = released_other s.next s.holder i j n r m own.0 ne h in ground arith
advance-Leaves i j (Pc.pop_loaded o t) s v own ne m h = ground arith
advance-Leaves i j (Pc.pop_read o t x) s v own ne m h =
    elim (Bool-cases ((s.head == o) && (s.tag == t))) [
      | inl hit ↦
          let here : o ≡ s.head = ground arith in
          let free = top_unheld s v (ground (arith, own.0)) in
          let differ : o ≢ m = λ e. ground arith in ground arith
      | inr miss ↦ rw miss (h, refl)
    ]

fail_exchange-Leaves : (i j : ℕ) (c : Pc) (s : Stack) → Leaves j s (fail_exchange i c s)
unfolding fail_exchange move_to
fail_exchange-Leaves i j Pc.idle s m h = (h, refl)
fail_exchange-Leaves i j _ s m h = (h, refl)

begin-Leaves : (i j : ℕ) (c : Pc) (a : Action) (s : Stack) → j ≢ i → Leaves j s (begin i c a s)
unfolding begin move_to
begin-Leaves i j Pc.idle (push n) s ne m h = ground arith
begin-Leaves i j Pc.idle (push_chain n r) s ne m h = ground arith
begin-Leaves i j Pc.idle pop s ne m h = (h, refl)
begin-Leaves i j Pc.idle (scribble n x) s ne m h = elim (Bool-cases (is_held (s.holder n) i)) [
  | inl held ↦
      let mine = held_of (s.holder n) i held in
      let differ : n ≢ m = λ e. ground arith in ground arith
  | inr other ↦ rw other (h, refl)
]
begin-Leaves i j Pc.idle (obtain ns) s ne m h = elim (Bool-cases (is_free s ns)) [
  | inl free ↦ rw free (granted_other ns i s free m j h, refl)
  | inr taken ↦ rw taken (h, refl)
]
begin-Leaves i j Pc.idle (hand_over n k) s ne m h = elim (Bool-cases (is_held (s.holder n) i)) [
  | inl held ↦
      let mine = held_of (s.holder n) i held in
      let differ : n ≢ m = λ e. ground arith in ground arith
  | inr other ↦ rw other (h, refl)
]
begin-Leaves i j Pc.idle go s ne m h = (h, refl)
begin-Leaves i j Pc.idle fail s ne m h = (h, refl)
begin-Leaves i j (Pc.push_loaded n r o t) a s ne m h = (h, refl)
begin-Leaves i j (Pc.push_stored n r o t) a s ne m h = (h, refl)
begin-Leaves i j (Pc.pop_loaded o t) a s ne m h = (h, refl)
begin-Leaves i j (Pc.pop_read o t y) a s ne m h = (h, refl)

pub step-Leaves : (i j : ℕ) (a : Action) (s : Stack) → Inv s → j ≢ i → Leaves j s (step i a s)
unfolding step
step-Leaves i j go s v ne = advance-Leaves i j (s.pc i) s v (v.threads i) ne
step-Leaves i j fail s v ne = fail_exchange-Leaves i j (s.pc i) s
step-Leaves i j (push n) s v ne = begin-Leaves i j (s.pc i) (push n) s ne
step-Leaves i j (push_chain n r) s v ne = begin-Leaves i j (s.pc i) (push_chain n r) s ne
step-Leaves i j pop s v ne = begin-Leaves i j (s.pc i) pop s ne
step-Leaves i j (scribble n x) s v ne = begin-Leaves i j (s.pc i) (scribble n x) s ne
step-Leaves i j (obtain ns) s v ne = begin-Leaves i j (s.pc i) (obtain ns) s ne
step-Leaves i j (hand_over n k) s v ne = begin-Leaves i j (s.pc i) (hand_over n k) s ne

advance_pc : (i j : ℕ) (c : Pc) (s : Stack) → j ≢ i → (advance i c s).pc j ≡ s.pc j
unfolding advance move_to
advance_pc i j Pc.idle s ne = refl
advance_pc i j _ s ne = ground arith

fail_pc : (i j : ℕ) (c : Pc) (s : Stack) → j ≢ i → (fail_exchange i c s).pc j ≡ s.pc j
unfolding fail_exchange move_to
fail_pc i j Pc.idle s ne = refl
fail_pc i j _ s ne = ground arith

begin_pc : (i j : ℕ) (c : Pc) (a : Action) (s : Stack) → j ≢ i → (begin i c a s).pc j ≡ s.pc j
unfolding begin move_to
begin_pc i j Pc.idle go s ne = refl
begin_pc i j Pc.idle _ s ne = ground arith
begin_pc i j _ a s ne = refl

-- Other threads stay where they are.
pub step_pc : (i j : ℕ) (a : Action) (s : Stack) → j ≢ i → (step i a s).pc j ≡ s.pc j
unfolding step
step_pc i j go s ne = advance_pc i j (s.pc i) s ne
step_pc i j fail s ne = fail_pc i j (s.pc i) s ne
step_pc i j (push n) s ne = begin_pc i j (s.pc i) (push n) s ne
step_pc i j (push_chain n r) s ne = begin_pc i j (s.pc i) (push_chain n r) s ne
step_pc i j pop s ne = begin_pc i j (s.pc i) pop s ne
step_pc i j (scribble n x) s ne = begin_pc i j (s.pc i) (scribble n x) s ne
step_pc i j (obtain ns) s ne = begin_pc i j (s.pc i) (obtain ns) s ne
step_pc i j (hand_over n k) s ne = begin_pc i j (s.pc i) (hand_over n k) s ne
