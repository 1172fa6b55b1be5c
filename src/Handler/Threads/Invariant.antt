-- ===== src/Handler/Threads/Invariant.antt =====
-- One owner for each submitted task, and one slot for each task on its way.
use async_io.Prelude.{
  ℕ, ◌+◌, ◌≡◌, ◌≢◌, refl, inl, inr, sym, ap, ◌∙◌, Bool, true, false, ◌∷◌, ℤ, pos, negsuc, ◌≤ℤ◌,
  ◌<ℤ◌, ltb_ℤ, ◌==ℤ◌, suc_ℤ, length, ◌==◌, ==_iff, Bool-cases, arith,
}
use async_io.Constants.{TaskState, state_code}
use async_io.Pool.Nodes.{upd}
use async_io.Pool.Count.{occ}
use async_io.Handler.Threads.Balance.{IsBalance, suc_ℤ-IsBalance, suc_ℤ-le}
use async_io.Handler.Threads.{Pc, Owner, Shared, is_submitted, hand_over, submit_all, advance}

abbrev pub is_owned : Owner → Bool
is_owned Owner.nobody = false
is_owned _ = true

-- How many slots the owner of a task has for it.
abbrev pub weight : Owner → ℕ
weight Owner.queued = 1
weight Owner.kernel = 1
weight (Owner.holding i) = 1
weight _ = 0

module _ (max_inflight_ops : ℤ) where
  abbrev pub PcInv : (ℕ → Owner) → ℕ → Pc → Type 0
  PcInv owner i Pc.idle = Unit
  PcInv owner i (Pc.transition t e) = is_submitted e ≡ false
  PcInv owner i (Pc.gate t) = owner t ≡ Owner.entering i
  PcInv owner i (Pc.loop t cur) = (owner t ≡ Owner.entering i) × (pos 0 <ℤ max_inflight_ops)
  PcInv owner i (Pc.reserve t cur) =
      (owner t ≡ Owner.entering i) × (cur <ℤ max_inflight_ops) × (pos 0 <ℤ max_inflight_ops)
  PcInv owner i (Pc.refuse t) = owner t ≡ Owner.entering i
  PcInv owner i (Pc.submit t) = owner t ≡ Owner.holding i
  PcInv owner i (Pc.flush t) = Unit

  pub record Inv (s : Shared) : Type 0 where
    pub threads : (i : ℕ) → PcInv s.owner i (s.pc i)
    pub states : (t : ℕ) → is_submitted (s.task_state t) ≡ is_owned (s.owner t)
    pub slots : (t : ℕ) → occ t s.active ≡ weight (s.owner t)
    pub counted : IsBalance s.inflight_count (length s.active + s.ended) s.counted_down
    pub bounded : pos 0 <ℤ max_inflight_ops → s.inflight_count ≤ℤ max_inflight_ops

  -- A change of the owner of `t` keeps what thread `j` knows, if `t` was not with `j`.
  pub PcInv-upd :
      (owner : ℕ → Owner) (t : ℕ) (o : Owner) (j : ℕ) (c : Pc)
      → owner t ≢ Owner.entering j
      → owner t ≢ Owner.holding j
      → PcInv owner j c
      → PcInv (upd owner t o) j c
  PcInv-upd owner t o j Pc.idle a b h = tt
  PcInv-upd owner t o j (Pc.transition u e) a b h = h
  PcInv-upd owner t o j (Pc.gate u) a b h = ground arith
  PcInv-upd owner t o j (Pc.loop u cur) a b h = (ground arith, h.1)
  PcInv-upd owner t o j (Pc.reserve u cur) a b h = (ground arith, h.1, h.2)
  PcInv-upd owner t o j (Pc.refuse u) a b h = ground arith
  PcInv-upd owner t o j (Pc.submit u) a b h = ground arith
  PcInv-upd owner t o j (Pc.flush u) a b h = tt

  -- The threads once thread `i` has moved to `c` and task `t` has owner `o`.
  pub threads-upd :
      (owner : ℕ → Owner) (pc : ℕ → Pc) (t : ℕ) (o : Owner) (i : ℕ) (c : Pc)
      → ((j : ℕ) → j ≢ i → (owner t ≢ Owner.entering j) × (owner t ≢ Owner.holding j))
      → PcInv (upd owner t o) i c
      → ((j : ℕ) → PcInv owner j (pc j))
      → (j : ℕ) → PcInv (upd owner t o) j (upd pc i c j)
  threads-upd owner pc t o i c others own h j = elim (Bool-cases (j == i)) [
    | inl same ↦ rw same (rw ((==_iff j i).0 same) own)
    | inr differ ↦
        let apart = others j (ground arith) in
        rw differ (PcInv-upd owner t o j (pc j) apart.0 apart.1 (h j))
  ]

  threads-move :
      (owner : ℕ → Owner) (pc : ℕ → Pc) (i : ℕ) (c : Pc)
      → PcInv owner i c
      → ((j : ℕ) → PcInv owner j (pc j))
      → (j : ℕ) → PcInv owner j (upd pc i c j)
  threads-move owner pc i c own h j = elim (Bool-cases (j == i)) [
    | inl same ↦ rw same (rw ((==_iff j i).0 same) own)
    | inr differ ↦ rw differ (h j)
  ]

  -- Only thread `i` moves, and writes nothing.
  pub move-Inv :
      (i : ℕ) (c : Pc) (s : Shared)
      → PcInv s.owner i c
      → Inv s
      → Inv (record s { pc = upd s.pc i c })
  move-Inv i c s own v = record {
    threads = threads-move s.owner s.pc i c own v.threads;
    states = v.states;
    slots = v.slots;
    counted = v.counted;
    bounded = v.bounded;
  }

  -- The owner and the state of task `t` change, and neither way it has a slot.
  pub own-Inv :
      (i t : ℕ) (o : Owner) (st : TaskState) (c : Pc) (s : Shared)
      → ((j : ℕ) → j ≢ i → (s.owner t ≢ Owner.entering j) × (s.owner t ≢ Owner.holding j))
      → PcInv (upd s.owner t o) i c
      → is_submitted st ≡ is_owned o
      → weight (s.owner t) ≡ weight o
      → Inv s
      → Inv (record s {
        task_state = upd s.task_state t st;
        owner = upd s.owner t o;
        pc = upd s.pc i c;
      })
  own-Inv i t o st c s others own fits same v = record {
    threads = threads-upd s.owner s.pc t o i c others own v.threads;
    states = λ u. ground (arith, v.states u);
    slots = λ u. ground (arith, v.slots u);
    counted = v.counted;
    bounded = v.bounded;
  }

  pub slot-Inv :
      (i t : ℕ) (s : Shared)
      → s.owner t ≡ Owner.entering i
      → (pos 0 <ℤ max_inflight_ops → s.inflight_count <ℤ max_inflight_ops)
      → Inv s
      → Inv (record s {
        inflight_count = suc_ℤ s.inflight_count;
        owner = upd s.owner t (Owner.holding i);
        active = t ∷ s.active;
        pc = upd s.pc i (Pc.submit t);
      })
  slot-Inv i t s mine room v = record {
    threads =
        threads-upd s.owner s.pc t (Owner.holding i) i (Pc.submit t)
          (λ j ne. (ground arith, ground arith)) (ground arith) v.threads;
    states = λ u. ground (arith, v.states u, v.states t);
    slots = λ u. ground (arith, v.slots u);
    counted = omega (
      arith,
      suc_ℤ-IsBalance s.inflight_count (length s.active + s.ended) s.counted_down v.counted,
    );
    bounded = λ limited. suc_ℤ-le s.inflight_count max_inflight_ops (room limited);
  }

  -- The entry of the task is in the submission queue.
  pub given-Inv :
      (i t : ℕ) (s : Shared)
      → s.owner t ≡ Owner.holding i
      → Inv s
      → Inv (record s { owner = upd s.owner t Owner.queued; pc = upd s.pc i (Pc.flush t) })
  given-Inv i t s mine v = record {
    threads =
        threads-upd s.owner s.pc t Owner.queued i (Pc.flush t)
          (λ j ne. (ground arith, ground arith)) tt v.threads;
    states = λ u. ground (arith, v.states u, v.states t);
    slots = λ u. ground (arith, v.slots u, v.slots t);
    counted = v.counted;
    bounded = v.bounded;
  }

  PcInv-hand_over :
      (owner : ℕ → Owner) (j : ℕ) (c : Pc) → PcInv owner j c → PcInv (λ t. hand_over (owner t)) j c
  PcInv-hand_over owner j Pc.idle h = tt
  PcInv-hand_over owner j (Pc.transition u e) h = h
  PcInv-hand_over owner j (Pc.gate u) h = ap hand_over h
  PcInv-hand_over owner j (Pc.loop u cur) h = (ap hand_over h.0, h.1)
  PcInv-hand_over owner j (Pc.reserve u cur) h = (ap hand_over h.0, h.1, h.2)
  PcInv-hand_over owner j (Pc.refuse u) h = ap hand_over h
  PcInv-hand_over owner j (Pc.submit u) h = ap hand_over h
  PcInv-hand_over owner j (Pc.flush u) h = tt

  hand_over-same :
      (o : Owner) → (is_owned (hand_over o) ≡ is_owned o) × (weight (hand_over o) ≡ weight o)
  hand_over-same Owner.nobody = (refl, refl)
  hand_over-same Owner.queued = (refl, refl)
  hand_over-same Owner.kernel = (refl, refl)
  hand_over-same (Owner.entering i) = (refl, refl)
  hand_over-same (Owner.holding i) = (refl, refl)

  -- `io_uring_submit`, in whatever thread.
  pub submit_all-Inv : (s : Shared) → Inv s → Inv (submit_all s)
  submit_all-Inv s v = record {
    threads = λ j. PcInv-hand_over s.owner j (s.pc j) (v.threads j);
    states = λ u. v.states u ∙ sym (hand_over-same (s.owner u)).0;
    slots = λ u. v.slots u ∙ sym (hand_over-same (s.owner u)).1;
    counted = v.counted;
    bounded = v.bounded;
  }

  nobody_of_state : (o : Owner) → false ≡ is_owned o → o ≡ Owner.nobody
  nobody_of_state Owner.nobody h = refl
  nobody_of_state Owner.queued h = cc
  nobody_of_state Owner.kernel h = cc
  nobody_of_state (Owner.entering i) h = cc
  nobody_of_state (Owner.holding i) h = cc

  same_state :
      (a b : TaskState)
      → (state_code a == state_code b) ≡ true
      → is_submitted b ≡ false
      → is_submitted a ≡ false
  same_state a b same h = ground arith

  transition-Inv :
      (i t : ℕ) (s : Shared)
      → is_submitted (s.task_state t) ≡ false
      → Inv s
      → Inv (record s {
        task_state = upd s.task_state t TaskState.submitted;
        owner = upd s.owner t (Owner.entering i);
        pc = upd s.pc i (Pc.gate t);
      })
  transition-Inv i t s h v =
      let free : s.owner t ≡ Owner.nobody =
        nobody_of_state (s.owner t) (ground (arith, v.states t)) in
      own-Inv i t (Owner.entering i) TaskState.submitted (Pc.gate t) s
        (λ j ne. (ground arith, ground arith)) (ground arith) refl (ground arith) v

  eq_of_==ℤ : (a b : ℤ) → (a ==ℤ b) ≡ true → a ≡ b
  eq_of_==ℤ (pos m) (pos n) h = ground arith
  eq_of_==ℤ (pos m) (negsuc n) h = ground arith
  eq_of_==ℤ (negsuc m) (pos n) h = ground arith
  eq_of_==ℤ (negsuc m) (negsuc n) h = ground arith

  pub advance-Inv :
      (i : ℕ) (c : Pc) (s : Shared)
      → PcInv s.owner i c
      → Inv s
      → Inv (advance max_inflight_ops i c s)
  unfolding advance
  advance-Inv i Pc.idle s h v = v
  advance-Inv i (Pc.transition t e) s h v =
      elim (Bool-cases (state_code (s.task_state t) == state_code e)) [
        | inl same ↦ rw same (transition-Inv i t s (same_state (s.task_state t) e same h) v)
        | inr differ ↦ rw differ (move-Inv i Pc.idle s tt v)
      ]
  advance-Inv i (Pc.gate t) s h v = elim (Bool-cases (ltb_ℤ (pos 0) max_inflight_ops)) [
    | inl limited ↦
        rw limited (move-Inv i (Pc.loop t s.inflight_count) s (h, ground (arith, limited)) v)
    | inr free ↦ rw free (slot-Inv i t s h (λ limited. ground (arith, free)) v)
  ]
  advance-Inv i (Pc.loop t cur) s h v = elim (Bool-cases (ltb_ℤ cur max_inflight_ops)) [
    | inl room ↦ rw room (move-Inv i (Pc.reserve t cur) s (h.0, ground (arith, room), h.1) v)
    | inr full ↦ rw full (move-Inv i (Pc.refuse t) s h.0 v)
  ]
  advance-Inv i (Pc.reserve t cur) s h v = elim (Bool-cases (s.inflight_count ==ℤ cur)) [
    | inl same ↦
        let e : s.inflight_count ≡ cur = eq_of_==ℤ s.inflight_count cur same in
        rw (same, sym e) (slot-Inv i t s h.0 (λ limited. rw e h.1) v)
    | inr differ ↦ rw differ (move-Inv i (Pc.loop t s.inflight_count) s (h.0, h.2) v)
  ]
  advance-Inv i (Pc.refuse t) s h v =
      own-Inv i t Owner.nobody TaskState.ready Pc.idle s (λ j ne. (ground arith, ground arith)) tt
        refl (ground arith) v
  advance-Inv i (Pc.submit t) s h v = given-Inv i t s h v
  advance-Inv i (Pc.flush t) s h v = move-Inv i Pc.idle (submit_all s) tt (submit_all-Inv s v)
