-- ===== src/Tests/Callables.antt =====
-- A program over callables of two types.
use async_io.Prelude.{ℕ, ◌+◌, ◌/◌, ◌≡◌, refl, List, [], ◌∷◌, some, none, ◌==◌}
use async_io.InlineFunction.{
  Callables, construct, destroy, destroy_inline, destroy_heap, destroy_cell, move_construct,
  move_assign, take_over, move_object, invoke, obj_ptr,
}
use async_io.InlineFunction.Program.{
  Command, make, make_from, assign, finish, call, start, nothing, step, run, meaning, meaning_step,
  Fresh,
}
use async_io.InlineFunction.Refinement.{Implements, start-Implements}

-- Numbers that add themselves; those from 100 on are of types that do not fit inside.
abbrev adders : Callables
adders = record {
  Func = ℕ;
  Arg = ℕ;
  Ret = ℕ;
  type_of = λ c. c / 100;
  fits = λ t. t == 0;
  apply = λ c x. c + x;
}

-- A small and a large callable; the large one moves to a third object, and is assigned over the small.
abbrev program : List (Command adders)
program =
    make 0 5 64
    ∷ make 1 205 128
    ∷ call 1 3
    ∷ make_from 2 1
    ∷ assign 0 2
    ∷ call 0 1
    ∷ finish 0
    ∷ finish 1
    ∷ finish 2
    ∷ []

start-Implements_example :
    Implements adders (run adders program (start adders)) (meaning adders program (nothing adders))
unfolding Fresh step construct destroy destroy_inline destroy_heap destroy_cell move_construct
    move_assign take_over move_object invoke obj_ptr
start-Implements_example =
    start-Implements adders program (refl, (refl, (tt, (tt, (tt, (tt, (tt, (tt, (tt, tt)))))))))

-- The large callable answers 208 and then 206; the small one ends before it.
program_calls : elim (meaning adders program (nothing adders)) as (λ _. Type 0) [
  | none ↦ ⊥
  | some s ↦ (s.results ≡ 206 ∷ 208 ∷ []) × (s.destroyed ≡ 205 ∷ 5 ∷ [])
]
unfolding meaning meaning_step
program_calls = (refl, refl)
