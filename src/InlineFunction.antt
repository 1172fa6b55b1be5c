-- ===== src/InlineFunction.antt =====
-- `InlineFunction` of include/talon/async_io_task.hpp: a callable of any type behind one interface,
-- kept in the object if it is small and on the heap if not.
pub mod Program
pub mod Slots
pub mod Invariant
pub mod Operations
pub mod Steps
pub mod Refinement
use async_io.Prelude.{ℕ, Bool, true, false, Option, none, some, List, ◌∷◌, ◌==◌, if◌then◌else◌}
use async_io.Pool.Nodes.{upd}

-- The callables of a program. A type is a number; `fits` is the compile-time test of its size and
-- alignment.
pub record Callables : Type 1 where
  pub Func : Type 0
  pub Arg : Type 0
  pub Ret : Type 0
  pub type_of : Func → ℕ
  pub fits : ℕ → Bool
  pub apply : Func → Arg → Ret

module _ (k : Callables) where
  open k use {Func, Arg, Ret, type_of, fits, apply}

  -- What stands at an address of the heap.
  pub data Cell : Type 0 where
    free : Cell
    object : Func → Cell

  -- What stands in `storage_`: bytes that are no live object, an object, or a pointer.
  pub data Storage : Type 0 where
    bytes : Storage
    object : Func → Storage
    pointer : ℕ → Storage

  -- A `VTable` is known by the type that it was made for.
  pub record InlineFunction : Type 0 where
    pub storage : Storage
    pub vtable : Option ℕ
    pub is_heap : Bool

  -- `destroyed` lists the objects whose lifetime has ended, the latest first; what a move leaves
  -- behind does not count.
  pub record Heap : Type 0 where
    pub cells : ℕ → Cell
    pub destroyed : List Func

  abbrev pub empty : InlineFunction
  empty = record { storage = bytes; vtable = none; is_heap = false }

  -- `at` is the answer of `operator new`, where it is called.
  unfoldable pub construct : Func → (at : ℕ) → Heap → InlineFunction × Heap
  construct c at h =
      if fits (type_of c)
      then (record { storage = object c; vtable = some (type_of c); is_heap = false }, h)
      else (
        record { storage = pointer at; vtable = some (type_of c); is_heap = true },
        record h { cells = upd h.cells at (object c) },
      )

  -- `vtable_->destroy(ObjPtr())` for an object inside: `none` if no object of the type is there.
  unfoldable pub destroy_inline : (tag : ℕ) → Storage → Heap → Option Heap
  destroy_inline tag (object c) h =
      if type_of c == tag then some (record h { destroyed = c ∷ h.destroyed }) else none
  destroy_inline tag _ h = none

  -- The same for an object on the heap, and `operator delete`.
  unfoldable pub destroy_cell : (tag at : ℕ) → Cell → Heap → Option Heap
  destroy_cell tag at (object c) h =
      if type_of c == tag
      then some (record { cells = upd h.cells at free; destroyed = c ∷ h.destroyed })
      else none
  destroy_cell tag at free h = none

  unfoldable pub destroy_heap : (tag : ℕ) → Storage → Heap → Option Heap
  destroy_heap tag (pointer at) h = destroy_cell tag at (h.cells at) h
  destroy_heap tag _ h = none

  -- What is left of an object that lived in `storage_` and ended.
  abbrev pub ended : InlineFunction → InlineFunction
  ended f = record {
    storage = if f.is_heap then f.storage else bytes;
    vtable = none;
    is_heap = false;
  }

  -- `Destroy()`, also the destructor.
  unfoldable pub destroy : InlineFunction → Heap → Option (InlineFunction × Heap)
  destroy f h = elim f.vtable [
    | none ↦ some (f, h)
    | some tag ↦
        elim (if f.is_heap then destroy_heap tag f.storage h else destroy_inline tag f.storage h) [
          | none ↦ none
          | some h' ↦ some (ended f, h')
        ]
  ]

  -- `move_construct(other.storage_, storage_)`: the storage that it fills.
  unfoldable pub move_object : (tag : ℕ) → Storage → Option Storage
  move_object tag (object c) = if type_of c == tag then some (object c) else none
  move_object tag _ = none

  -- The part that the move constructor and the move assignment share: the target, and what is left
  -- of the source.
  unfoldable pub take_over :
      (other target : InlineFunction) → Option (InlineFunction × InlineFunction)
  take_over other target = elim other.vtable [
    | none ↦
        some (
          record target { vtable = none; is_heap = other.is_heap },
          record other { is_heap = false },
        )
    | some tag ↦
        elim (if other.is_heap then some other.storage else move_object tag other.storage) [
          | none ↦ none
          | some s ↦
              some (record { storage = s; vtable = some tag; is_heap = other.is_heap }, ended other)
        ]
  ]

  unfoldable pub move_construct : InlineFunction → Option (InlineFunction × InlineFunction)
  move_construct other = take_over other empty

  -- `operator=` from another object.
  unfoldable pub move_assign :
      (other target : InlineFunction) → Heap → Option ((InlineFunction × InlineFunction) × Heap)
  move_assign other target h = elim (destroy target h) [
    | none ↦ none
    | some (cleared, h') ↦ elim (take_over other cleared) [
      | none ↦ none
      | some both ↦ some (both, h')
    ]
  ]

  -- The object that `ObjPtr()` leads to.
  unfoldable pub obj_ptr : InlineFunction → Heap → Option Func
  obj_ptr f h = elim f.storage [
    | bytes ↦ none
    | object c ↦ if f.is_heap then none else some c
    | pointer at ↦ elim (h.cells at) [ free ↦ none | object c ↦ if f.is_heap then some c else none ]
  ]

  -- `operator()`: `none` if there is nothing to call, or no object of the type of the table.
  unfoldable pub invoke : InlineFunction → Arg → Heap → Option Ret
  invoke f x h = elim f.vtable [
    | none ↦ none
    | some tag ↦ elim (obj_ptr f h) [
      | none ↦ none
      | some c ↦ if type_of c == tag then some (apply c x) else none
    ]
  ]

  unfoldable pub has_value : InlineFunction → Bool
  has_value f = elim f.vtable [ none ↦ false | some tag ↦ true ]
