-- ===== src/InlineFunction/Program.antt =====
-- Programs over any number of `InlineFunction` objects, numbered, and what they mean: each object
-- holds a callable or nothing. A step is `none` where the program has no defined behaviour.
use async_io.Prelude.{ℕ, ◌≡◌, Option, none, some, List, [], ◌∷◌, ◌==◌, if◌then◌else◌}
use async_io.Pool.Nodes.{upd}
use async_io.InlineFunction.{
  Callables, Heap, InlineFunction, empty, free, construct, destroy, move_construct, move_assign,
  invoke,
}

module _ (k : Callables) where
  open k use {Func, Arg, Ret, apply}

  -- The constructor from a callable (`at` is where `operator new` would put it), the move constructor,
  -- the move assignment, the destructor and a call.
  pub data Command : Type 0 where
    make : (i : ℕ) (c : Func) (at : ℕ) → Command
    make_from : (i other : ℕ) → Command
    assign : (i other : ℕ) → Command
    finish : (i : ℕ) → Command
    call : (i : ℕ) → Arg → Command

  pub record World : Type 0 where
    pub slots : ℕ → InlineFunction k
    pub heap : Heap k
    pub results : List Ret

  abbrev pub start : World
  start = record {
    slots = λ i. empty k;
    heap = record { cells = λ a. free; destroyed = [] };
    results = [];
  }

  unfoldable pub step : Command → World → Option World
  step (make i c at) w =
      let made = construct k c at w.heap in
      some (record w { slots = upd w.slots i made.0; heap = made.1 })
  step (make_from i other) w = elim (move_construct k (w.slots other)) [
    | none ↦ none
    | some (target, rest) ↦ some (record w { slots = upd (upd w.slots i target) other rest })
  ]
  step (assign i other) w =
      if i == other then some w else elim (move_assign k (w.slots other) (w.slots i) w.heap) [
        | none ↦ none
        | some ((target, rest), h) ↦
            some (record w { slots = upd (upd w.slots i target) other rest; heap = h })
      ]
  step (finish i) w = elim (destroy k (w.slots i) w.heap) [
    | none ↦ none
    | some (f, h) ↦ some (record w { slots = upd w.slots i f; heap = h })
  ]
  step (call i x) w = elim (invoke k (w.slots i) x w.heap) [
    | none ↦ none
    | some r ↦ some (record w { results = r ∷ w.results })
  ]

  unfoldable pub run : List Command → World → Option World
  run [] w = some w
  run (c ∷ cs) w = elim (step c w) [ none ↦ none | some w' ↦ run cs w' ]

  -- What the objects stand for.
  pub record Meaning : Type 0 where
    pub held : ℕ → Option Func
    pub destroyed : List Func
    pub results : List Ret

  abbrev pub nothing : Meaning
  nothing = record { held = λ i. none; destroyed = []; results = [] }

  abbrev pub ended_with : Option Func → List Func → List Func
  ended_with none l = l
  ended_with (some c) l = c ∷ l

  abbrev pub drop_held : ℕ → Meaning → Meaning
  drop_held i s = record s {
    held = upd s.held i none;
    destroyed = ended_with (s.held i) s.destroyed;
  }

  abbrev pub pass : (i other : ℕ) → Meaning → Meaning
  pass i other s = record s { held = upd (upd s.held i (s.held other)) other none }

  -- A new object holds nothing before, and no object is made from itself.
  unfoldable pub meaning_step : Command → Meaning → Option Meaning
  meaning_step (make i c at) s = elim (s.held i) [
    | none ↦ some (record s { held = upd s.held i (some c) })
    | some _ ↦ none
  ]
  meaning_step (make_from i other) s = elim (s.held i) [
    | none ↦ if i == other then none else some (pass i other s)
    | some _ ↦ none
  ]
  meaning_step (assign i other) s =
      if i == other then some s else some (pass i other (drop_held i s))
  meaning_step (finish i) s = some (drop_held i s)
  meaning_step (call i x) s = elim (s.held i) [
    | none ↦ none
    | some c ↦ some (record s { results = apply c x ∷ s.results })
  ]

  unfoldable pub meaning : List Command → Meaning → Option Meaning
  meaning [] s = some s
  meaning (c ∷ cs) s = elim (meaning_step c s) [ none ↦ none | some s' ↦ meaning cs s' ]

  -- `operator new` answers with memory that is free.
  abbrev pub FreshAt : Command → World → Type 0
  FreshAt (make i c at) w = w.heap.cells at ≡ free
  FreshAt _ w = Unit {0}

  unfoldable pub Fresh : List Command → World → Type 0
  Fresh [] w = Unit {0}
  Fresh (c ∷ cs) w = FreshAt c w × elim (step c w) [ none ↦ Unit {0} | some w' ↦ Fresh cs w' ]
