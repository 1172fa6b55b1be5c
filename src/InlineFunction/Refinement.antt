-- ===== src/InlineFunction/Refinement.antt =====
-- A program over `InlineFunction` objects does what it means.
use async_io.Prelude.{ℕ, ◌≡◌, refl, inl, inr, false, Option, none, some, List, [], ◌∷◌}
use async_io.InlineFunction.{Callables, free}
use async_io.InlineFunction.Program.{
  Command, World, start, step, run, Meaning, nothing, meaning_step, meaning, Fresh,
}
use async_io.InlineFunction.Slots.{on_heap}
use async_io.InlineFunction.Steps.{Sim, Simulates, step-Simulates}

module _ (k : Callables) where
  open k use {Func, Arg, Ret, type_of, fits, apply}

  -- What a program that means `s` leaves: it ran, its calls returned what `s` says, the callables
  -- that ended are those of `s`, and if no object holds anything then no heap memory is left.
  abbrev pub Implements : Option (World k) → Option (Meaning k) → Type 0
  Implements r none = Unit
  Implements none (some s) = ⊥
  Implements (some w) (some s) =
      (w.results ≡ s.results)
      × (w.heap.destroyed ≡ s.destroyed)
      × (((i : ℕ) → s.held i ≡ none) → (a : ℕ) → w.heap.cells a ≡ free)

  no_cell_left :
      (w : World k) (s : Meaning k) (home : ℕ → ℕ)
      → Sim k w s home
      → ((i : ℕ) → s.held i ≡ none)
      → (a : ℕ) → w.heap.cells a ≡ free
  no_cell_left w s home sim all_empty a = elim (sim.inv.no_leak a) [
    | inl is_free ↦ is_free
    | inr (i, heap, here) ↦
        let nothing_there : on_heap k (s.held i) ≡ false = rw (all_empty i) refl in absurd (cc)
  ]

  after_step :
      (cs : List (Command k)) (r : Option (World k)) (m : Option (Meaning k))
      → ((w : World k) (s : Meaning k) (home : ℕ → ℕ)
          → Fresh k cs w
          → Sim k w s home
          → Implements (run k cs w) (meaning k cs s))
      → elim r as (λ _. Type 0) [ none ↦ Unit {0} | some w ↦ Fresh k cs w ]
      → Simulates k r m
      → Implements
          (elim r as (λ _. Option (World k)) [ none ↦ none | some w ↦ run k cs w ])
          (elim m as (λ _. Option (Meaning k)) [ none ↦ none | some s ↦ meaning k cs s ])
  after_step cs r none rest fresh sim = tt
  after_step cs none (some s) rest fresh sim = absurd sim
  after_step cs (some w) (some s) rest fresh sim = rest w s sim.0 fresh sim.1

  run-Implements :
      (cs : List (Command k)) (w : World k) (s : Meaning k) (home : ℕ → ℕ)
      → Fresh k cs w
      → Sim k w s home
      → Implements (run k cs w) (meaning k cs s)
  unfolding run meaning Fresh
  run-Implements [] w s home fresh sim =
      (sim.same_results, sim.same_destroyed, no_cell_left w s home sim)
  run-Implements (c ∷ cs) w s home fresh sim =
      after_step cs (step k c w) (meaning_step k c s) (run-Implements cs) fresh.1
        (step-Simulates k c w s home fresh.0 sim)

  start-Sim : Sim k (start k) (nothing k) (λ i. 0)
  start-Sim = record {
    inv = record {
      slot = λ i. refl;
      apart = λ i j heap_i heap_j e. absurd (cc);
      no_leak = λ a. inl refl;
    };
    same_destroyed = refl;
    same_results = refl;
  }

  -- Any program over any number of objects, made from callables of any types, moved, assigned,
  -- destroyed and called in any order, runs without a fault wherever it is defined: the calls return
  -- what the callables return, the callables end in the order and as often as the meaning says, and
  -- once no object holds one all memory is free again. `operator new` answers with free memory.
  pub start-Implements :
      (cs : List (Command k))
      → Fresh k cs (start k)
      → Implements (run k cs (start k)) (meaning k cs (nothing k))
  start-Implements cs fresh = run-Implements cs (start k) (nothing k) (λ i. 0) fresh start-Sim
