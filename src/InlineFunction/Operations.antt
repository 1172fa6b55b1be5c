-- ===== src/InlineFunction/Operations.antt =====
-- What each operation does to an object that holds something, or nothing.
use async_io.Prelude.{
  ℕ, ◌≡◌, refl, ◌∙◌, inl, inr, Bool, true, false, Option, none, some, ◌∷◌, if◌then◌else◌,
  Bool-cases, arith,
}
use async_io.Pool.Nodes.{upd}
use async_io.InlineFunction.{
  Callables, Cell, InlineFunction, Heap, free, object, pointer, ended, construct, destroy,
  destroy_inline, destroy_cell, destroy_heap, move_object, take_over, obj_ptr, invoke,
}
use async_io.InlineFunction.Program.{ended_with}
use async_io.InlineFunction.Slots.{Placed, Slot, without, upd_self}

module _ (k : Callables) where
  open k use {Func, Arg, Ret, type_of, fits, apply}

  destroy-inside :
      (f : InlineFunction k) (c : Func) (h : Heap k)
      → f.vtable ≡ some (type_of c)
      → f.is_heap ≡ false
      → f.storage ≡ object c
      → destroy k f h ≡ some (ended k f, record h { destroyed = c ∷ h.destroyed })
  unfolding destroy destroy_inline
  destroy-inside f c h table inside at = ground arith

  destroy-outside :
      (f : InlineFunction k) (c : Func) (h : Heap k) (a : ℕ)
      → f.vtable ≡ some (type_of c)
      → f.is_heap ≡ true
      → f.storage ≡ pointer a
      → h.cells a ≡ object c
      → destroy k f h
        ≡ some (ended k f, record { cells = upd h.cells a free; destroyed = c ∷ h.destroyed })
  unfolding destroy destroy_heap destroy_cell
  destroy-outside f c h a table outside at there = ground arith

  take_over-inside :
      (f t : InlineFunction k) (c : Func)
      → f.vtable ≡ some (type_of c)
      → f.is_heap ≡ false
      → f.storage ≡ object c
      → take_over k f t
        ≡ some
            (record { storage = object c; vtable = some (type_of c); is_heap = false }, ended k f)
  unfolding take_over move_object
  take_over-inside f t c table inside at = ground arith

  take_over-outside :
      (f t : InlineFunction k) (c : Func) (a : ℕ)
      → f.vtable ≡ some (type_of c)
      → f.is_heap ≡ true
      → f.storage ≡ pointer a
      → take_over k f t
        ≡ some
            (record { storage = pointer a; vtable = some (type_of c); is_heap = true }, ended k f)
  unfolding take_over
  take_over-outside f t c a table outside at = ground arith

  invoke-inside :
      (f : InlineFunction k) (c : Func) (h : Heap k) (x : Arg)
      → f.vtable ≡ some (type_of c)
      → f.is_heap ≡ false
      → f.storage ≡ object c
      → invoke k f x h ≡ some (apply c x)
  unfolding invoke obj_ptr
  invoke-inside f c h x table inside at = ground arith

  invoke-outside :
      (f : InlineFunction k) (c : Func) (h : Heap k) (a : ℕ) (x : Arg)
      → f.vtable ≡ some (type_of c)
      → f.is_heap ≡ true
      → f.storage ≡ pointer a
      → h.cells a ≡ object c
      → invoke k f x h ≡ some (apply c x)
  unfolding invoke obj_ptr
  invoke-outside f c h a x table outside at there = ground arith

  -- The destructor of an object that holds `o`.
  unfoldable pub DestroyedAs : InlineFunction k → Option Func → Heap k → ℕ → Type 0
  DestroyedAs f o h a =
      (f' : InlineFunction k) × (destroy k f h
        ≡ some
            (f', record { cells = without k o a h.cells; destroyed = ended_with k o h.destroyed }))
      × (f'.vtable ≡ none)

  destroy-Placed :
      (inside : Bool) (f : InlineFunction k) (c : Func) (h : Heap k) (a : ℕ)
      → fits (type_of c) ≡ inside
      → f.vtable ≡ some (type_of c)
      → Placed k inside f c h.cells a
      → DestroyedAs f (some c) h a
  unfolding DestroyedAs
  destroy-Placed true f c h a e table p =
      (ended k f, destroy-inside f c h table p.0 p.1 ∙ rw e refl, refl)
  destroy-Placed false f c h a e table p =
      (ended k f, destroy-outside f c h a table p.0 p.1 p.2 ∙ rw e refl, refl)

  pub destroy-Slot :
      (f : InlineFunction k) (o : Option Func) (h : Heap k) (a : ℕ)
      → Slot k f o h.cells a
      → DestroyedAs f o h a
  unfolding DestroyedAs destroy
  destroy-Slot f none h a s = (f, rw s refl, s)
  destroy-Slot f (some c) h a s = destroy-Placed (fits (type_of c)) f c h a refl s.0 s.1

  -- A move of an object that holds `o`.
  unfoldable pub TakenOver :
      InlineFunction k → InlineFunction k → Option Func → (ℕ → Cell k) → ℕ → Type 0
  TakenOver f t o cells a =
      (f' : InlineFunction k) × (rest : InlineFunction k) × (take_over k f t ≡ some (f', rest))
      × Slot k f' o cells a
      × (rest.vtable ≡ none)

  take_over-Placed :
      (inside : Bool) (f t : InlineFunction k) (c : Func) (cells : ℕ → Cell k) (a : ℕ)
      → fits (type_of c) ≡ inside
      → f.vtable ≡ some (type_of c)
      → Placed k inside f c cells a
      → TakenOver f t (some c) cells a
  unfolding TakenOver
  take_over-Placed true f t c cells a e table p = (
    record { storage = object c; vtable = some (type_of c); is_heap = false },
    ended k f,
    take_over-inside f t c table p.0 p.1,
    (refl, rw e (refl, refl)),
    refl,
  )
  take_over-Placed false f t c cells a e table p = (
    record { storage = pointer a; vtable = some (type_of c); is_heap = true },
    ended k f,
    take_over-outside f t c a table p.0 p.1,
    (refl, rw e (refl, refl, p.2)),
    refl,
  )

  pub take_over-Slot :
      (f t : InlineFunction k) (o : Option Func) (cells : ℕ → Cell k) (a : ℕ)
      → Slot k f o cells a
      → TakenOver f t o cells a
  unfolding TakenOver take_over
  take_over-Slot f t none cells a s = (
    record t { vtable = none; is_heap = f.is_heap },
    record f { is_heap = false },
    rw s refl,
    refl,
    s,
  )
  take_over-Slot f t (some c) cells a s =
      take_over-Placed (fits (type_of c)) f t c cells a refl s.0 s.1

  pub invoke-Placed :
      (inside : Bool) (f : InlineFunction k) (c : Func) (h : Heap k) (a : ℕ) (x : Arg)
      → f.vtable ≡ some (type_of c)
      → Placed k inside f c h.cells a
      → invoke k f x h ≡ some (apply c x)
  invoke-Placed true f c h a x table p = invoke-inside f c h x table p.0 p.1
  invoke-Placed false f c h a x table p = invoke-outside f c h a x table p.0 p.1 p.2

  pub construct-Slot :
      (c : Func) (at : ℕ) (h : Heap k)
      → Slot k (construct k c at h).0 (some c) (construct k c at h).1.cells at
        × ((construct k c at h).1.cells
            ≡ (if fits (type_of c) then h.cells else upd h.cells at (object c)))
        × ((construct k c at h).1.destroyed ≡ h.destroyed)
  unfolding construct
  construct-Slot c at h = elim (Bool-cases (fits (type_of c))) [
    | inl inside ↦ rw inside ((refl, (refl, refl)), refl, refl)
    | inr outside ↦ rw outside ((refl, (refl, refl, upd_self h.cells at (object c))), refl, refl)
  ]
