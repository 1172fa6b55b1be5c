-- ===== src/Handler/Threads/Steps.antt =====
-- Every step, of any thread, of the event loop and of the ring, keeps the owners and the slots in order.
use async_io.Prelude.{
  ℕ, suc, ◌+◌, ◌∙◌, ◌≡◌, ◌≢◌, refl, inl, inr, false, List, [], ◌∷◌, ℤ, length, ◌==◌, Bool-cases,
  arith,
}
use async_io.Constants.{TaskState}
use async_io.Pool.Nodes.{upd}
use async_io.Pool.Count.{occ}
use async_io.Handler.Threads.{
  Pc, Owner, Shared, Action, is_submitted, remove, fail_exchange, begin, end_slot, finish,
  fail_submit, count_one, step, run, quiet,
}
use async_io.Handler.Threads.Invariant.{
  weight, PcInv, Inv, PcInv-upd, threads-upd, move-Inv, submit_all-Inv, advance-Inv,
}
use async_io.Handler.Threads.Balance.{pred_ℤ-IsBalance, pred_ℤ-le}

occ-remove_self : (t : ℕ) (xs : List ℕ) → occ t xs ≡ 1 → occ t (remove t xs) ≡ 0
occ-remove_self t [] e = ground arith
occ-remove_self t (x ∷ xs) e = elim (Bool-cases (x == t)) [
  | inl same ↦ ground (arith, same)
  | inr differ ↦ ground (arith, differ, occ-remove_self t xs)
]

occ-remove : (u t : ℕ) (xs : List ℕ) → u ≢ t → occ u (remove t xs) ≡ occ u xs
occ-remove u t [] ne = refl
occ-remove u t (x ∷ xs) ne = ground (arith, occ-remove u t xs ne)

length-remove : (t : ℕ) (xs : List ℕ) → occ t xs ≡ 1 → suc (length (remove t xs)) ≡ length xs
length-remove t [] e = ground arith
length-remove t (x ∷ xs) e = elim (Bool-cases (x == t)) [
  | inl same ↦ ground (arith, same)
  | inr differ ↦ ground (arith, differ, length-remove t xs)
]

module _ (max_inflight_ops : ℤ) where
  end_slot-Inv :
      (t : ℕ) (st : TaskState) (s : Shared) (pc : ℕ → Pc)
      → weight (s.owner t) ≡ 1
      → is_submitted st ≡ false
      → ((j : ℕ) → PcInv max_inflight_ops (upd s.owner t Owner.nobody) j (pc j))
      → Inv max_inflight_ops s
      → Inv max_inflight_ops (record (end_slot t st s) { pc = pc })
  end_slot-Inv t st s pc held left threads v =
      let once : occ t s.active ≡ 1 = v.slots t ∙ held in
      record {
        threads = threads;
        states = λ u. ground (arith, v.states u);
        slots = λ u. elim (Bool-cases (u == t)) [
          | inl same ↦ ground (arith, same, occ-remove_self t s.active once)
          | inr differ ↦ ground (arith, differ, occ-remove u t s.active, v.slots u)
        ];
        counted = omega (arith, v.counted, length-remove t s.active once);
        bounded = v.bounded;
      }

  finish-Inv :
      (t : ℕ) (st : TaskState) (o : Owner) (s : Shared)
      → s.owner t ≡ o
      → Inv max_inflight_ops s
      → Inv max_inflight_ops (finish t st o s)
  unfolding finish
  finish-Inv t st Owner.kernel s e v = elim (Bool-cases (is_submitted st)) [
    | inl again ↦ rw again v
    | inr left ↦ rw left (
        end_slot-Inv t st s s.pc (rw e refl) left
          (λ j.
            PcInv-upd max_inflight_ops s.owner t Owner.nobody j (s.pc j) (ground arith)
              (ground arith) (v.threads j))
          v)
  ]
  finish-Inv t st Owner.nobody s e v = v
  finish-Inv t st Owner.queued s e v = v
  finish-Inv t st (Owner.entering i) s e v = v
  finish-Inv t st (Owner.holding i) s e v = v

  count_one-Inv : (s : Shared) → Inv max_inflight_ops s → Inv max_inflight_ops (count_one s)
  unfolding count_one
  count_one-Inv s v = record {
    threads = v.threads;
    states = v.states;
    slots = v.slots;
    counted =
        pred_ℤ-IsBalance s.inflight_count (length s.active + s.ended) s.counted_down v.counted;
    bounded = λ limited. pred_ℤ-le s.inflight_count max_inflight_ops (v.bounded limited);
  }

  fail_submit-Inv :
      (i : ℕ) (st : TaskState) (c : Pc) (s : Shared)
      → PcInv max_inflight_ops s.owner i c
      → Inv max_inflight_ops s
      → Inv max_inflight_ops (fail_submit i st c s)
  unfolding fail_submit
  fail_submit-Inv i st (Pc.submit t) s h v = elim (Bool-cases (is_submitted st)) [
    | inl again ↦ rw again v
    | inr left ↦ rw left (
        end_slot-Inv t st s (upd s.pc i (Pc.flush t)) (rw h refl) left
          (threads-upd max_inflight_ops s.owner s.pc t Owner.nobody i (Pc.flush t)
            (λ j ne. (ground arith, ground arith)) tt v.threads)
          v)
  ]
  fail_submit-Inv i st Pc.idle s h v = v
  fail_submit-Inv i st (Pc.transition u e) s h v = v
  fail_submit-Inv i st (Pc.gate u) s h v = v
  fail_submit-Inv i st (Pc.loop u cur) s h v = v
  fail_submit-Inv i st (Pc.reserve u cur) s h v = v
  fail_submit-Inv i st (Pc.refuse u) s h v = v
  fail_submit-Inv i st (Pc.flush u) s h v = v

  begin-Inv :
      (i t : ℕ) (c : Pc) (s : Shared)
      → Inv max_inflight_ops s
      → Inv max_inflight_ops (begin i t c s)
  unfolding begin
  begin-Inv i t Pc.idle s v = elim (Bool-cases (is_submitted (s.task_state t))) [
    | inl taken ↦ rw taken v
    | inr free ↦ rw free (move-Inv max_inflight_ops i (Pc.transition t (s.task_state t)) s free v)
  ]
  begin-Inv i t (Pc.transition u e) s v = v
  begin-Inv i t (Pc.gate u) s v = v
  begin-Inv i t (Pc.loop u cur) s v = v
  begin-Inv i t (Pc.reserve u cur) s v = v
  begin-Inv i t (Pc.refuse u) s v = v
  begin-Inv i t (Pc.submit u) s v = v
  begin-Inv i t (Pc.flush u) s v = v

  fail-Inv :
      (i : ℕ) (c : Pc) (s : Shared)
      → PcInv max_inflight_ops s.owner i c
      → Inv max_inflight_ops s
      → Inv max_inflight_ops (fail_exchange i c s)
  unfolding fail_exchange
  fail-Inv i (Pc.reserve t cur) s h v =
      move-Inv max_inflight_ops i (Pc.loop t s.inflight_count) s (h.0, h.2) v
  fail-Inv i Pc.idle s h v = v
  fail-Inv i (Pc.transition u e) s h v = v
  fail-Inv i (Pc.gate u) s h v = v
  fail-Inv i (Pc.loop u cur) s h v = v
  fail-Inv i (Pc.refuse u) s h v = v
  fail-Inv i (Pc.submit u) s h v = v
  fail-Inv i (Pc.flush u) s h v = v

  pub step-Inv :
      (a : Action) (s : Shared)
      → Inv max_inflight_ops s
      → Inv max_inflight_ops (step max_inflight_ops a s)
  unfolding step
  step-Inv (Action.add i t) s v = begin-Inv i t (s.pc i) s v
  step-Inv (Action.go i) s v = advance-Inv max_inflight_ops i (s.pc i) s (v.threads i) v
  step-Inv (Action.fail i) s v = fail-Inv i (s.pc i) s (v.threads i) v
  step-Inv (Action.complete t st) s v = finish-Inv t st (s.owner t) s refl v
  step-Inv (Action.no_entry i st) s v = fail_submit-Inv i st (s.pc i) s (v.threads i) v
  step-Inv Action.flush_ring s v = submit_all-Inv max_inflight_ops s v
  step-Inv Action.count_down s v = count_one-Inv s v

  pub run-Inv :
      (actions : List Action) (s : Shared)
      → Inv max_inflight_ops s
      → Inv max_inflight_ops (run max_inflight_ops actions s)
  unfolding run
  run-Inv [] s v = v
  run-Inv (a ∷ rest) s v = run-Inv rest (step max_inflight_ops a s) (step-Inv a s v)

  pub quiet-Inv :
      (task_state : ℕ → TaskState)
      → ((t : ℕ) → is_submitted (task_state t) ≡ false)
      → Inv max_inflight_ops (quiet task_state)
  quiet-Inv task_state free = record {
    threads = λ i. tt;
    states = free;
    slots = λ t. refl;
    counted = refl;
    bounded = λ limited. omega (arith, limited);
  }
