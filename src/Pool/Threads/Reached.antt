-- ===== src/Pool/Threads/Reached.antt =====
-- The invariant of the shared pool holds in every state that is reached.
use async_io.Prelude.{
  not, ℕ, ◌+◌, ◌<◌, ◌^◌, ◌≡◌, ◌≢◌, refl, inl, inr, true, ◌&&◌, none, some, ◌==◌, Bool-cases, arith,
}
use async_io.Pool.Nodes.{Node, upd}
use async_io.Pool.LockFree.{Pc, Stack, is_held, scribble}
use async_io.Pool.LockFree as LockFree
use async_io.Pool.LockFree.Chains.{held_of}
use async_io.Pool.LockFree.Calls.{scribble_writes, hand_over_passes}
use async_io.Pool.Threads.{
  Kind, Phase, SharedPool, Action, acquire, release, go, fail, allocated, write, hand_over,
  on_stack, go_on, receive, begin, step,
}
use async_io.Pool.Threads.Invariant.{Local, PoolInv, Kept, still, Only-upd, Only-same}
use async_io.Pool.Threads.Locals.{Local-less}
use async_io.Pool.Threads.Kinds.{on_stack-Inv, moves_on}
use async_io.Pool.Threads.Advance.{advance-Inv}
use async_io.Pool.Threads.Release.{release-Inv}
use async_io.Pool.Threads.Steps.{fail_exchange-Inv, growing-Inv, last_resort-Inv, acquire-Inv}

module _ (k : Kind) where
  module _ (i : ℕ) (p : SharedPool) (v : PoolInv k p) (small : p.stack.changes + 1 < 2 ^ 64) where
    receive-Inv :
        (f : Phase) (b : Node)
        → Local k i p.stack p.in_use (p.stack.pc i) (p.caches i) f
        → Kept k i p (receive k i f b p).1
    unfolding receive go_on
    receive-Inv (Phase.growing count again) b own = growing-Inv k i p v small count again b own
    receive-Inv Phase.last_resort b own = last_resort-Inv k i p v small b own
    receive-Inv Phase.resting b own = still k i p v
    receive-Inv (Phase.popping is_first) b own = still k i p v
    receive-Inv Phase.ensuring b own = still k i p v
    receive-Inv (Phase.storing count block again) b own = still k i p v
    receive-Inv (Phase.carving ws nodes again) b own = still k i p v
    receive-Inv (Phase.publishing n r again) b own = still k i p v
    receive-Inv Phase.looking_again b own = still k i p v
    receive-Inv (Phase.linking ws n r obj) b own = still k i p v
    receive-Inv (Phase.flushing n r obj) b own = still k i p v

    module _ (at : p.phase i ≡ Phase.resting)
        (own : Local k i p.stack p.in_use (p.stack.pc i) (p.caches i) Phase.resting) where
      write-Inv :
          (n x : Node) → p.stack.holder n ≡ some i → Kept k i p (on_stack i (scribble n x) p)
      unfolding on_stack
      write-Inv n x mine =
          let w = scribble_writes i p.stack own.stage n x mine in
          moves_on k i p v small (scribble n x) Phase.resting Phase.resting refl refl refl
            (Only-same i p.phase Phase.resting at) (rw w refl) (λ y. omega arith)
            (rw w ((Only-upd i p.stack.pc Pc.idle).0)) own

      hand_over-Inv :
          (n : Node) (j : ℕ)
          → p.in_use n ≡ true
          → p.stack.holder n ≡ some i
          → Kept k i p (on_stack i (LockFree.hand_over n j) p)
      unfolding on_stack
      hand_over-Inv n j in_use mine =
          let w = hand_over_passes i p.stack own.stage n j mine in
          let s' = LockFree.step i (LockFree.hand_over n j) p.stack in
          let holders : s'.holder ≡ upd p.stack.holder n (some j) = rw w refl in
          on_stack-Inv k i p v small (LockFree.hand_over n j) (p.caches i) Phase.resting refl
            (Only-same i p.caches (p.caches i) refl) (Only-same i p.phase Phase.resting at)
            (λ x nobody.
              let h : upd p.stack.holder n (some j) x ≡ none = rw holders at nobody in
              elim (Bool-cases (x == n)) [
                | inl same ↦ absurd (ground arith)
                | inr differ ↦ v.unheld_unused x (ground arith)
              ])
            (λ k ne x h. refl)
            (Local-less k i p.stack s' p.in_use p.in_use (p.stack.pc i) (s'.pc i) (p.caches i)
              (p.caches i) Phase.resting Phase.resting (λ x. omega arith)
              (λ x here held unused.
                let differ : x ≢ n = λ e. ground arith in (rw holders (ground arith), unused))
              own.room (rw w ((Only-upd i p.stack.pc Pc.idle).0)) own)

    begin-Inv :
        (f : Phase) (a : Action)
        → p.phase i ≡ f
        → Local k i p.stack p.in_use (p.stack.pc i) (p.caches i) f
        → Kept k i p (begin k i f a p).1
    unfolding begin go_on
    begin-Inv Phase.resting acquire at own = acquire-Inv k i p v small own
    begin-Inv Phase.resting (release n) at own =
        elim (Bool-cases (p.in_use n && is_held (p.stack.holder n) i && not (n == 0))) [
          | inl good ↦ rw good (
              release-Inv k i p v small n (held_of (p.stack.holder n) i (ground arith))
                (ground arith) (ground arith) own)
          | inr bad ↦ rw bad (still k i p v)
        ]
    begin-Inv Phase.resting (write n x) at own =
        elim (Bool-cases (p.in_use n && is_held (p.stack.holder n) i)) [
          | inl good ↦ rw good (write-Inv at own n x (held_of (p.stack.holder n) i (ground arith)))
          | inr bad ↦ rw bad (still k i p v)
        ]
    begin-Inv Phase.resting (hand_over n j) at own =
        elim (Bool-cases (p.in_use n && is_held (p.stack.holder n) i)) [
          | inl good ↦ rw good (
              hand_over-Inv at own n j (ground arith) (held_of (p.stack.holder n) i (ground arith)))
          | inr bad ↦ rw bad (still k i p v)
        ]
    begin-Inv Phase.resting go at own = still k i p v
    begin-Inv Phase.resting fail at own = still k i p v
    begin-Inv Phase.resting (allocated b) at own = still k i p v
    begin-Inv (Phase.popping is_first) a at own = still k i p v
    begin-Inv Phase.ensuring a at own = still k i p v
    begin-Inv (Phase.growing count again) a at own = still k i p v
    begin-Inv (Phase.storing count block again) a at own = still k i p v
    begin-Inv (Phase.carving ws nodes again) a at own = still k i p v
    begin-Inv (Phase.publishing n r again) a at own = still k i p v
    begin-Inv Phase.looking_again a at own = still k i p v
    begin-Inv Phase.last_resort a at own = still k i p v
    begin-Inv (Phase.linking ws n r obj) a at own = still k i p v
    begin-Inv (Phase.flushing n r obj) a at own = still k i p v

    pub step-Inv : (a : Action) → Kept k i p (step k i a p).1
    unfolding step go_on
    step-Inv go = advance-Inv k i p v small (p.phase i) refl (v.threads i)
    step-Inv fail = fail_exchange-Inv k i p v small (p.phase i) refl (v.threads i)
    step-Inv (allocated b) = receive-Inv (p.phase i) b (v.threads i)
    step-Inv acquire = begin-Inv (p.phase i) acquire refl (v.threads i)
    step-Inv (release n) = begin-Inv (p.phase i) (release n) refl (v.threads i)
    step-Inv (write n x) = begin-Inv (p.phase i) (write n x) refl (v.threads i)
    step-Inv (hand_over n j) = begin-Inv (p.phase i) (hand_over n j) refl (v.threads i)
