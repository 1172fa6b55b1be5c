-- ===== src/InlineFunction/Steps.antt =====
-- Each command of a program does what it means.
use async_io.Prelude.{
  ℕ, ◌≡◌, ◌≢◌, refl, sym, ap, ◌∙◌, inl, inr, Option, none, some, ◌∷◌, ==_of_ne, ==_self,
  Option-cases, arith,
}
use async_io.Pool.Nodes.{upd}
use async_io.InlineFunction.{
  Callables, InlineFunction, Heap, empty, construct, destroy, take_over, move_construct,
  move_assign,
}
use async_io.InlineFunction.Program.{
  Command, make, make_from, assign, finish, call, World, step, Meaning, ended_with, drop_held, pass,
  meaning_step, FreshAt,
}
use async_io.InlineFunction.Slots.{Slot, without, eq_cases, upd_self, upd-ne, upd-upd}
use async_io.InlineFunction.Invariant.{Inv, release-Inv, fill-Inv, pass-Inv}
use async_io.InlineFunction.Operations.{
  DestroyedAs, destroy-Slot, TakenOver, take_over-Slot, invoke-Placed, construct-Slot,
}

module _ (k : Callables) where
  open k use {Func, Arg, Ret, type_of, fits, apply}

  pub record Sim (w : World k) (s : Meaning k) (home : ℕ → ℕ) : Type 0 where
    pub inv : Inv k w.slots w.heap.cells s.held home
    pub same_destroyed : w.heap.destroyed ≡ s.destroyed
    pub same_results : w.results ≡ s.results

  -- Where the meaning is defined, so is the step, and it leads to a state with that meaning.
  abbrev pub Simulates : Option (World k) → Option (Meaning k) → Type 0
  Simulates r none = Unit
  Simulates none (some s) = ⊥
  Simulates (some w) (some s) = (home : ℕ → ℕ) × Sim w s home

  Simulates-eq :
      (r r' : Option (World k)) (m m' : Option (Meaning k))
      → r ≡ r'
      → m ≡ m'
      → Simulates r' m'
      → Simulates r m
  Simulates-eq r r' m m' e e' x = rw e (rw e' x)

  make-Simulates :
      (i : ℕ) (c : Func) (at : ℕ) (w : World k) (s : Meaning k) (home : ℕ → ℕ)
      → FreshAt k (make i c at) w
      → Sim w s home
      → Simulates (step k (make i c at) w) (meaning_step k (make i c at) s)
  unfolding step meaning_step
  make-Simulates i c at w s home fresh sim = elim (Option-cases (s.held i)) [
    | inl empty_before ↦
        let made = construct-Slot k c at w.heap in
        Simulates-eq (step k (make i c at) w) (step k (make i c at) w)
          (meaning_step k (make i c at) s) (some (record s { held = upd s.held i (some c) })) refl
          (rw (empty_before, meaning_step) refl)
          (
            upd home i at,
            record {
              inv =
                  fill-Inv k w.slots w.heap.cells (construct k c at w.heap).1.cells s.held home i at
                    c (construct k c at w.heap).0 empty_before fresh made.1 made.0 sim.inv;
              same_destroyed = made.2 ∙ sim.same_destroyed;
              same_results = sim.same_results;
            },
          )
    | inr (d, full) ↦
        Simulates-eq (step k (make i c at) w) (step k (make i c at) w)
          (meaning_step k (make i c at) s) none refl (rw (full, meaning_step) refl) tt
  ]

  -- The state once object `i` is destroyed, with `f` left of it.
  abbrev released : ℕ → InlineFunction k → World k → Option Func → ℕ → World k
  released i f w o a = record w {
    slots = upd w.slots i f;
    heap = record {
      cells = without k o a w.heap.cells;
      destroyed = ended_with k o w.heap.destroyed;
    };
  }

  released-Sim :
      (i : ℕ) (f : InlineFunction k) (w : World k) (s : Meaning k) (home : ℕ → ℕ)
      → f.vtable ≡ none
      → Sim w s home
      → Sim (released i f w (s.held i) (home i)) (drop_held k i s) home
  released-Sim i f w s home gone sim = record {
    inv = release-Inv k w.slots w.heap.cells s.held home i f gone sim.inv;
    same_destroyed = ap (ended_with k (s.held i)) sim.same_destroyed;
    same_results = sim.same_results;
  }

  finish-Simulates :
      (i : ℕ) (w : World k) (s : Meaning k) (home : ℕ → ℕ)
      → Sim w s home
      → Simulates (step k (finish i) w) (meaning_step k (finish i) s)
  unfolding step meaning_step DestroyedAs
  finish-Simulates i w s home sim =
      let gone = destroy-Slot k (w.slots i) (s.held i) w.heap (home i) (sim.inv.slot i) in
      Simulates-eq (step k (finish i) w) (some (released i gone.0 w (s.held i) (home i)))
        (meaning_step k (finish i) s) (some (drop_held k i s)) (rw (gone.1, step) refl) refl
        (home, released-Sim i gone.0 w s home gone.2 sim)

  call-Simulates :
      (i : ℕ) (x : Arg) (w : World k) (s : Meaning k) (home : ℕ → ℕ)
      → Sim w s home
      → Simulates (step k (call i x) w) (meaning_step k (call i x) s)
  unfolding step meaning_step
  call-Simulates i x w s home sim = elim (Option-cases (s.held i)) [
    | inl nothing_there ↦
        Simulates-eq (step k (call i x) w) (step k (call i x) w) (meaning_step k (call i x) s) none
          refl (rw (nothing_there, meaning_step) refl) tt
    | inr (c, full) ↦
        let held : Slot k (w.slots i) (some c) w.heap.cells (home i) =
          rw full at (sim.inv.slot i) in
        let called =
          invoke-Placed k (fits (type_of c)) (w.slots i) c w.heap (home i) x held.0 held.1 in
        Simulates-eq (step k (call i x) w) (some (record w { results = apply c x ∷ w.results }))
          (meaning_step k (call i x) s) (some (record s { results = apply c x ∷ s.results }))
          (rw (called, step) refl) (rw (full, meaning_step) refl)
          (
            home,
            record {
              inv = sim.inv;
              same_destroyed = sim.same_destroyed;
              same_results = ap (λ l. apply c x ∷ l) sim.same_results;
            },
          )
  ]

  moved : ℕ → ℕ → InlineFunction k → InlineFunction k → World k → World k
  moved i j target rest w = record w { slots = upd (upd w.slots i target) j rest }

  -- A move from `j` to `i`, which holds nothing.
  moved-Sim :
      (i j : ℕ) (target rest : InlineFunction k) (w : World k) (s : Meaning k) (home : ℕ → ℕ)
      → i ≢ j
      → s.held i ≡ none
      → Slot k target (s.held j) w.heap.cells (home j)
      → rest.vtable ≡ none
      → Sim w s home
      → Sim (moved i j target rest w) (pass k i j s) (upd home i (home j))
  unfolding moved
  moved-Sim i j target rest w s home other empty_before holds gone sim = record {
    inv =
        pass-Inv k w.slots w.heap.cells s.held home i j target rest other empty_before holds gone
          sim.inv;
    same_destroyed = sim.same_destroyed;
    same_results = sim.same_results;
  }

  make_from-Simulates :
      (i j : ℕ) (w : World k) (s : Meaning k) (home : ℕ → ℕ)
      → Sim w s home
      → Simulates (step k (make_from i j) w) (meaning_step k (make_from i j) s)
  unfolding step meaning_step move_construct TakenOver moved
  make_from-Simulates i j w s home sim = elim (Option-cases (s.held i)) [
    | inl empty_before ↦ elim (eq_cases i j) [
      | inl same ↦
          let refused : meaning_step k (make_from i j) s ≡ none =
            rw (empty_before, meaning_step) (rw same (rw (==_self j) refl)) in
          Simulates-eq (step k (make_from i j) w) (step k (make_from i j) w)
            (meaning_step k (make_from i j) s) none refl refused tt
      | inr other ↦
          let taken =
            take_over-Slot k (w.slots j) (empty k) (s.held j) w.heap.cells (home j)
              (sim.inv.slot j) in
          let allowed : meaning_step k (make_from i j) s ≡ some (pass k i j s) =
            rw (empty_before, meaning_step) (rw (==_of_ne i j other) refl) in
          Simulates-eq (step k (make_from i j) w) (some (moved i j taken.0 taken.1 w))
            (meaning_step k (make_from i j) s) (some (pass k i j s)) (rw (taken.2, step) refl)
            allowed
            (
              upd home i (home j),
              moved-Sim i j taken.0 taken.1 w s home other empty_before taken.3 taken.4 sim,
            )
    ]
    | inr (d, full) ↦
        Simulates-eq (step k (make_from i j) w) (step k (make_from i j) w)
          (meaning_step k (make_from i j) s) none refl (rw (full, meaning_step) refl) tt
  ]

  assign-eq :
      (i j : ℕ) (w : World k) (f target rest : InlineFunction k) (h : Heap k)
      → i ≢ j
      → destroy k (w.slots i) w.heap ≡ some (f, h)
      → take_over k (w.slots j) f ≡ some (target, rest)
      → step k (assign i j) w
        ≡ some (record w { slots = upd (upd w.slots i target) j rest; heap = h })
  unfolding step move_assign
  assign-eq i j w f target rest h other gone taken = ground arith

  assign-Simulates :
      (i j : ℕ) (w : World k) (s : Meaning k) (home : ℕ → ℕ)
      → Sim w s home
      → Simulates (step k (assign i j) w) (meaning_step k (assign i j) s)
  unfolding step meaning_step move_assign TakenOver DestroyedAs moved
  assign-Simulates i j w s home sim = elim (eq_cases i j) [
    | inl same ↦
        let stays : step k (assign i j) w ≡ some w = rw same (rw (==_self j) refl) in
        let kept : meaning_step k (assign i j) s ≡ some s = rw same (rw (==_self j) refl) in
        Simulates-eq (step k (assign i j) w) (some w) (meaning_step k (assign i j) s) (some s) stays
          kept (home, sim)
    | inr other ↦
        let gone = destroy-Slot k (w.slots i) (s.held i) w.heap (home i) (sim.inv.slot i) in
        let middle : World k = released i gone.0 w (s.held i) (home i) in
        let s' : Meaning k = drop_held k i s in
        let sim' = released-Sim i gone.0 w s home gone.2 sim in
        let taken =
          take_over-Slot k (middle.slots j) gone.0 (s'.held j) middle.heap.cells (home j)
            (sim'.inv.slot j) in
        let source : middle.slots j ≡ w.slots j = upd-ne w.slots i j gone.0 (λ e. other (sym e)) in
        let done =
          moved-Sim i j taken.0 taken.1 middle s' home other (upd_self s.held i none) taken.3
            taken.4 sim' in
        Simulates-eq (step k (assign i j) w) (some (moved i j taken.0 taken.1 middle))
          (meaning_step k (assign i j) s) (some (pass k i j s'))
          (assign-eq i j w gone.0 taken.0 taken.1 middle.heap other gone.1 (rw source at taken.2)
            ∙ ap (λ slots. some (record middle { slots = upd slots j taken.1 }))
                (sym (upd-upd w.slots i gone.0 taken.0)))
          (rw (==_of_ne i j other) refl) (upd home i (home j), done)
  ]

  pub step-Simulates :
      (c : Command k) (w : World k) (s : Meaning k) (home : ℕ → ℕ)
      → FreshAt k c w
      → Sim w s home
      → Simulates (step k c w) (meaning_step k c s)
  step-Simulates (make i c at) w s home fresh sim = make-Simulates i c at w s home fresh sim
  step-Simulates (make_from i j) w s home fresh sim = make_from-Simulates i j w s home sim
  step-Simulates (assign i j) w s home fresh sim = assign-Simulates i j w s home sim
  step-Simulates (finish i) w s home fresh sim = finish-Simulates i w s home sim
  step-Simulates (call i x) w s home fresh sim = call-Simulates i x w s home sim
