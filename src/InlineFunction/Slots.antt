-- ===== src/InlineFunction/Slots.antt =====
-- What an object stands for: the callable that it holds, inside or at an address of the heap.
use mathlib.Core.Path.{fun_ext}
use async_io.Prelude.{
  ℕ, ◌≡◌, ◌≢◌, refl, ◌∙◌, ◌⊎◌, inl, inr, Bool, true, false, not, Option, none, some, if◌then◌else◌,
  ==_of_ne, ==_self, Bool-cases, arith,
}
use async_io.Pool.Nodes.{upd}
use async_io.InlineFunction.{Callables, Cell, InlineFunction, free, object, pointer}

pub upd_self {ℓ} : {A : Type ℓ} (f : ℕ → A) (i : ℕ) (a : A) → upd f i a i ≡ a
upd_self f i a = rw (==_self i) refl

pub upd-ne {ℓ} : {A : Type ℓ} (f : ℕ → A) (i j : ℕ) (a : A) → j ≢ i → upd f i a j ≡ f j
upd-ne f i j a other = rw (==_of_ne j i other) refl

pub upd-upd {ℓ} : {A : Type ℓ} (f : ℕ → A) (i : ℕ) (a b : A) → upd (upd f i a) i b ≡ upd f i b
upd-upd f i a b = fun_ext λ j. ground arith

pub eq_cases : (i j : ℕ) → (i ≡ j) ⊎ (i ≢ j)
eq_cases i j = ground arith

module _ (k : Callables) where
  open k use {Func, type_of, fits}

  abbrev pub Placed : (inside : Bool) → InlineFunction k → Func → (ℕ → Cell k) → ℕ → Type 0
  Placed true f c cells a = (f.is_heap ≡ false) × (f.storage ≡ object c)
  Placed false f c cells a = (f.is_heap ≡ true) × (f.storage ≡ pointer a) × (cells a ≡ object c)

  -- The object holds `o`; `a` is the address, for a callable that is too large.
  abbrev pub Slot : InlineFunction k → Option Func → (ℕ → Cell k) → ℕ → Type 0
  Slot f none cells a = f.vtable ≡ none
  Slot f (some c) cells a = (f.vtable ≡ some (type_of c)) × Placed (fits (type_of c)) f c cells a

  abbrev pub on_heap : Option Func → Bool
  on_heap none = false
  on_heap (some c) = not (fits (type_of c))

  Placed-cells :
      (inside : Bool) (f : InlineFunction k) (c : Func) (cells cells' : ℕ → Cell k) (a : ℕ)
      → (not inside ≡ true → cells' a ≡ cells a)
      → Placed inside f c cells a
      → Placed inside f c cells' a
  Placed-cells true f c cells cells' a same s = s
  Placed-cells false f c cells cells' a same s = (s.0, s.1, same refl ∙ s.2)

  -- An object holds the same if the cell that it points to is the same.
  pub Slot-cells :
      (f : InlineFunction k) (o : Option Func) (cells cells' : ℕ → Cell k) (a : ℕ)
      → (on_heap o ≡ true → cells' a ≡ cells a)
      → Slot f o cells a
      → Slot f o cells' a
  Slot-cells f none cells cells' a same s = s
  Slot-cells f (some c) cells cells' a same s =
      (s.0, Placed-cells (fits (type_of c)) f c cells cells' a same s.1)

  Placed-live :
      (inside : Bool) (f : InlineFunction k) (c : Func) (cells : ℕ → Cell k) (a : ℕ)
      → not inside ≡ true
      → Placed inside f c cells a
      → cells a ≢ free
  Placed-live true f c cells a heap s = absurd (ground arith)
  Placed-live false f c cells a heap s = λ e. cc

  -- What an object on the heap points to is no free cell.
  pub live_cell :
      (f : InlineFunction k) (o : Option Func) (cells : ℕ → Cell k) (a : ℕ)
      → on_heap o ≡ true
      → Slot f o cells a
      → cells a ≢ free
  live_cell f none cells a heap s = absurd (ground arith)
  live_cell f (some c) cells a heap s = Placed-live (fits (type_of c)) f c cells a heap s.1

  -- The cells once the callable of object `i` is gone.
  abbrev pub without : Option Func → ℕ → (ℕ → Cell k) → ℕ → Cell k
  without o a cells = if on_heap o then upd cells a free else cells

  pub without-other :
      (o : Option Func) (a b : ℕ) (cells : ℕ → Cell k)
      → (on_heap o ≡ true → b ≢ a)
      → without o a cells b ≡ cells b
  without-other o a b cells other = elim (Bool-cases (on_heap o)) [
    | inl heap ↦ rw heap (upd-ne cells a b free (other heap))
    | inr inside ↦ rw inside refl
  ]

  pub without_self :
      (o : Option Func) (a : ℕ) (cells : ℕ → Cell k) → on_heap o ≡ true → without o a cells a ≡ free
  without_self o a cells heap = rw heap (upd_self cells a free)

  pub without-free :
      (o : Option Func) (a b : ℕ) (cells : ℕ → Cell k) → cells b ≡ free → without o a cells b ≡ free
  without-free o a b cells e = elim (Bool-cases (on_heap o)) [
    | inl heap ↦ rw heap (ground (arith, e))
    | inr inside ↦ rw inside e
  ]

  pub on_heap-upd_none :
      (held : ℕ → Option Func) (i j : ℕ)
      → on_heap (upd held i none j) ≡ true
      → (on_heap (held j) ≡ true) × (j ≢ i)
  on_heap-upd_none held i j heap = elim (eq_cases j i) [
    | inl same ↦
        let empty : on_heap (upd held i none j) ≡ false =
          rw same (rw (upd_self held i none) refl) in
        absurd (cc)
    | inr other ↦ (rw (upd-ne held i j none other) at heap, other)
  ]
