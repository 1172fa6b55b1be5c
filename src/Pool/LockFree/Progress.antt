-- ===== src/Pool/LockFree/Progress.antt =====
-- `LockFreeStack` is lock-free: a compare-exchange fails for a reason only if another one succeeded.
use async_io.Prelude.{ℕ, ◌+◌, ◌<◌, ◌^◌, ◌≡◌, inl, inr, ◌&&◌, Option, List, Bool-cases, ◌==◌, arith}
use async_io.Pool.Nodes.{Node}
use async_io.Pool.LockFree.{Pc, Stack, Action, go, advance, step, run}
use async_io.Pool.LockFree.Invariant.{PcInv}
use async_io.Pool.LockFree.Steps.{fresh, fresh-Inv, run_from-Inv, run_changes}

-- A thread that is about to try its exchange, with the tag that it has read.
abbrev pub Tries : Pc → ℕ → Type 0
Tries (Pc.push_stored n r o t) tag = t ≡ tag
Tries (Pc.pop_read o t x) tag = t ≡ tag
Tries _ tag = ⊥

later :
    (i tag : ℕ) (c : Pc) (s : Stack)
    → PcInv s i c
    → Tries c tag
    → (advance i c s).changes ≡ s.changes
    → tag < s.tag
unfolding advance
later i tag Pc.idle s own tries failed = absurd tries
later i tag (Pc.push_loaded n r o t) s own tries failed = absurd tries
later i tag (Pc.pop_loaded o t) s own tries failed = absurd tries
later i tag (Pc.push_stored n r o t) s own tries failed =
    elim (Bool-cases ((s.head == o) && (s.tag == t))) [
      | inl hit ↦ absurd (let q : s.changes + 1 ≡ s.changes = rw hit at failed in omega (arith, q))
      | inr miss ↦ ground (arith, own.1)
    ]
later i tag (Pc.pop_read o t x) s own tries failed =
    elim (Bool-cases ((s.head == o) && (s.tag == t))) [
      | inl hit ↦ absurd (let q : s.changes + 1 ≡ s.changes = rw hit at failed in omega (arith, q))
      | inr miss ↦ ground (arith, own.1)
    ]

module _ (next : Node → Node) (holder : Node → Option ℕ) (before rest : List (ℕ × Action))
    (small : (run rest (run before (fresh next holder))).changes + 1 < 2 ^ 64) where
  -- A thread reads the head of the stack in some reachable state, and after any further steps of all
  -- threads tries its exchange with the tag that it read then. If the exchange fails although the
  -- hardware does not make it fail, an exchange has succeeded in the meantime: the calls of all threads
  -- together make progress. Fewer than 2 ^ 64 - 1 exchanges succeed in all.
  pub failed_exchange_means_progress :
      (i : ℕ)
      → Tries
          ((run rest (run before (fresh next holder))).pc i)
          (run before (fresh next holder)).tag
      → (step i go (run rest (run before (fresh next holder)))).changes
        ≡ (run rest (run before (fresh next holder))).changes
      → (run before (fresh next holder)).changes
        < (run rest (run before (fresh next holder))).changes
  unfolding step
  failed_exchange_means_progress i tries failed =
      let s₀ = run before (fresh next holder) in
      let s = run rest s₀ in
      let v₀ =
        run_from-Inv before (fresh next holder) (omega (arith, small, run_changes rest s₀))
          (fresh-Inv next holder) in
      let v = run_from-Inv rest s₀ small v₀ in
      omega (arith, later i s₀.tag (s.pc i) s (v.threads i) tries failed, v₀.counted, v.counted)
