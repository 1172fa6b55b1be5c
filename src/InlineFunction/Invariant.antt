-- ===== src/InlineFunction/Invariant.antt =====
-- How the objects stand for what they hold: each callable in one place, and no heap memory without
-- an owner.
use async_io.Prelude.{
  ℕ, ◌≡◌, ◌≢◌, refl, sym, ap, ◌∙◌, ◌⊎◌, inl, inr, true, false, Option, none, some, ◌==◌,
  if◌then◌else◌, Bool-cases, arith,
}
use async_io.Pool.Nodes.{upd}
use async_io.InlineFunction.{Callables, Cell, InlineFunction, free, object}
use async_io.InlineFunction.Slots.{
  Slot-cells, live_cell, without-other, without_self, without-free, on_heap-upd_none, Slot, on_heap,
  without, upd_self, upd-ne, eq_cases,
}

module _ (k : Callables) where
  open k use {Func, type_of, fits}

  -- `home` gives the address of what an object keeps on the heap.
  pub record Inv (slots : ℕ → InlineFunction k) (cells : ℕ → Cell k) (held : ℕ → Option Func)
      (home : ℕ → ℕ) : Type 0 where
    pub slot : (i : ℕ) → Slot k (slots i) (held i) cells (home i)
    pub apart :
        (i j : ℕ) → on_heap k (held i) ≡ true → on_heap k (held j) ≡ true → home i ≡ home j → i ≡ j
    pub no_leak :
        (a : ℕ) → (cells a ≡ free) ⊎ ((i : ℕ) × (on_heap k (held i) ≡ true) × (home i ≡ a))

  -- An object lets go of what it holds.
  pub release-Inv :
      (slots : ℕ → InlineFunction k) (cells : ℕ → Cell k) (held : ℕ → Option Func) (home : ℕ → ℕ)
      (i : ℕ) (f : InlineFunction k)
      → f.vtable ≡ none
      → Inv slots cells held home
      → Inv (upd slots i f) (without k (held i) (home i) cells) (upd held i none) home
  release-Inv slots cells held home i f empty inv = record {
    slot = λ j. elim (eq_cases j i) [
      | inl same ↦ rw same (rw (upd_self slots i f) (rw (upd_self held i none) empty))
      | inr other ↦ rw (upd-ne slots i j f other) (
          rw (upd-ne held i j none other) (
            Slot-cells k (slots j) (held j) cells (without k (held i) (home i) cells) (home j)
              (λ heap.
                without-other k (held i) (home i) (home j) cells
                  (λ heap_i e. other (inv.apart j i heap heap_i e)))
              (inv.slot j)))
    ];
    apart = λ j l heap_j heap_l e.
        inv.apart j l (on_heap-upd_none k held i j heap_j).0 (on_heap-upd_none k held i l heap_l).0
          e;
    no_leak = λ a. elim (inv.no_leak a) [
      | inl is_free ↦ inl (without-free k (held i) (home i) a cells is_free)
      | inr (l, heap, at) ↦ elim (eq_cases l i) [
        | inl same ↦
            inl (rw⁻¹ at (rw same (without_self k (held i) (home i) cells (rw⁻¹ same heap))))
        | inr other ↦ inr (l, rw (upd-ne held i l none other) heap, at)
      ]
    ];
  }

  -- A new callable, inside or at an address that was free.
  pub fill-Inv :
      (slots : ℕ → InlineFunction k) (cells cells' : ℕ → Cell k) (held : ℕ → Option Func)
      (home : ℕ → ℕ) (i at : ℕ) (c : Func) (f : InlineFunction k)
      → held i ≡ none
      → cells at ≡ free
      → cells' ≡ (if fits (type_of c) then cells else upd cells at (object c))
      → Slot k f (some c) cells' at
      → Inv slots cells held home
      → Inv (upd slots i f) cells' (upd held i (some c)) (upd home i at)
  fill-Inv slots cells cells' held home i at c f empty is_free filled holds inv = record {
    slot = λ j. elim (eq_cases j i) [
      | inl same ↦
          rw same (
            rw (upd_self slots i f) (rw (upd_self held i (some c)) (rw (upd_self home i at) holds)))
      | inr other ↦ rw (upd-ne slots i j f other) (
          rw (upd-ne held i j (some c) other) (
            rw (upd-ne home i j at other) (
              Slot-cells k (slots j) (held j) cells cells' (home j)
                (λ heap. kept (home j) (ne_at j heap)) (inv.slot j))))
    ];
    apart = λ j l heap_j heap_l e. elim (eq_cases j i) [
      | inl same_j ↦ elim (eq_cases l i) [
        | inl same_l ↦ same_j ∙ sym same_l
        | inr other_l ↦ absurd (
            ne_at l (was l other_l heap_l) (
              sym (upd-ne home i l at other_l)
              ∙ sym e
              ∙ ap (upd home i at) same_j
              ∙ upd_self home i at))
      ]
      | inr other_j ↦ elim (eq_cases l i) [
        | inl same_l ↦ absurd (
            ne_at j (was j other_j heap_j) (
              sym (upd-ne home i j at other_j)
              ∙ e
              ∙ ap (upd home i at) same_l
              ∙ upd_self home i at))
        | inr other_l ↦
            inv.apart j l (was j other_j heap_j) (was l other_l heap_l)
              (sym (upd-ne home i j at other_j) ∙ e ∙ upd-ne home i l at other_l)
      ]
    ];
    no_leak = λ a. elim (eq_cases a at) [
      | inl same ↦ elim (Bool-cases (fits (type_of c))) [
        | inl inside ↦ inl (rw filled (rw inside (rw same is_free)))
        | inr heap ↦
            inr (i, rw (upd_self held i (some c)) (rw heap refl), upd_self home i at ∙ sym same)
      ]
      | inr other ↦ elim (inv.no_leak a) [
        | inl was_free ↦ inl (kept a other ∙ was_free)
        | inr (l, heap, here) ↦ inr (
          l,
          rw (upd-ne held i l (some c) (ne_i l heap)) heap,
          upd-ne home i l at (ne_i l heap) ∙ here,
        )
      ]
    ];
  }
    where
      was : (j : ℕ) → j ≢ i → on_heap k (upd held i (some c) j) ≡ true → on_heap k (held j) ≡ true
      was j other heap = rw (upd-ne held i j (some c) other) at heap

      ne_i : (l : ℕ) → on_heap k (held l) ≡ true → l ≢ i
      ne_i l heap same = let nothing : on_heap k (held l) ≡ false = rw same (rw empty refl) in cc

      kept : (a : ℕ) → a ≢ at → cells' a ≡ cells a
      kept a other = elim (Bool-cases (fits (type_of c))) [
        | inl inside ↦ rw filled (rw inside refl)
        | inr heap ↦ rw filled (rw heap (upd-ne cells at a (object c) other))
      ]

      ne_at : (j : ℕ) → on_heap k (held j) ≡ true → home j ≢ at
      ne_at j heap e =
          live_cell k (slots j) (held j) cells (home j) heap (inv.slot j) (rw e is_free)

  -- Object `i` takes over what object `j` holds.
  pub pass-Inv :
      (slots : ℕ → InlineFunction k) (cells : ℕ → Cell k) (held : ℕ → Option Func) (home : ℕ → ℕ)
      (i j : ℕ) (f g : InlineFunction k)
      → i ≢ j
      → held i ≡ none
      → Slot k f (held j) cells (home j)
      → g.vtable ≡ none
      → Inv slots cells held home
      → Inv (upd (upd slots i f) j g) cells (upd (upd held i (held j)) j none) (upd home i (home j))
  pass-Inv slots cells held home i j f g apart_ij empty holds gone inv = record {
    slot = λ l. elim (eq_cases l j) [
      | inl same ↦
          rw same
            (rw (upd_self (upd slots i f) j g) (rw (upd_self (upd held i (held j)) j none) gone))
      | inr other ↦ rw (upd-ne (upd slots i f) j l g other) (
          rw (upd-ne (upd held i (held j)) j l none other) (elim (eq_cases l i) [
            | inl same ↦ rw same (
                rw (upd_self slots i f)
                  (rw (upd_self held i (held j)) (rw (upd_self home i (home j)) holds)))
            | inr other' ↦ rw (upd-ne slots i l f other') (
                rw (upd-ne held i l (held j) other')
                  (rw (upd-ne home i l (home j) other') (inv.slot l)))
          ]))
    ];
    apart = λ l m heap_l heap_m e.
        let together =
          inv.apart (origin l) (origin m) (source l heap_l) (source m heap_m)
            (sym (origin_home l) ∙ e ∙ origin_home m) in
        origin_injective l m (ne_j l heap_l) (ne_j m heap_m) together;
    no_leak = λ a. elim (inv.no_leak a) [
      | inl is_free ↦ inl is_free
      | inr (l, heap, here) ↦ elim (eq_cases l j) [
        | inl same ↦ inr (
          i,
          rw (upd-ne (upd held i (held j)) j i none apart_ij)
              (rw (upd_self held i (held j)) (rw same at heap)),
          upd_self home i (home j) ∙ ap home (sym same) ∙ here,
        )
        | inr other ↦ inr (
          l,
          rw (upd-ne (upd held i (held j)) j l none other)
              (rw (upd-ne held i l (held j) (ne_i l heap)) heap),
          upd-ne home i l (home j) (ne_i l heap) ∙ here,
        )
      ]
    ];
  }
    where
      origin : ℕ → ℕ
      origin l = if l == i then j else l

      origin_injective : (l m : ℕ) → l ≢ j → m ≢ j → origin l ≡ origin m → l ≡ m
      origin_injective l m other_l other_m together = ground arith

      origin_held : (l : ℕ) → upd held i (held j) l ≡ held (origin l)
      origin_held l = elim (Bool-cases (l == i)) [
        | inl same ↦ rw same refl
        | inr other ↦ rw other refl
      ]

      origin_home : (l : ℕ) → upd home i (home j) l ≡ home (origin l)
      origin_home l = elim (Bool-cases (l == i)) [
        | inl same ↦ rw same refl
        | inr other ↦ rw other refl
      ]

      source :
          (l : ℕ)
          → on_heap k (upd (upd held i (held j)) j none l) ≡ true
          → on_heap k (held (origin l)) ≡ true
      source l heap = rw (origin_held l) at ((on_heap-upd_none k (upd held i (held j)) j l heap).0)

      ne_j : (l : ℕ) → on_heap k (upd (upd held i (held j)) j none l) ≡ true → l ≢ j
      ne_j l heap = (on_heap-upd_none k (upd held i (held j)) j l heap).1

      ne_i : (l : ℕ) → on_heap k (held l) ≡ true → l ≢ i
      ne_i l heap same = let nothing : on_heap k (held l) ≡ false = rw same (rw empty refl) in cc
