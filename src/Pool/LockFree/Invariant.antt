-- ===== src/Pool/LockFree/Invariant.antt =====
-- Every interleaving keeps the memory in step with the stack that the successful exchanges make.
use async_io.Prelude.{
  ℕ, ◌+◌, ◌≤◌, ◌<◌, ◌^◌, ◌≡◌, ◌≢◌, refl, inl, inr, Option, none, some, List, [], ◌∷◌, ◌++◌, ◌∙◌,
  ◌==◌, ==_iff, Bool-cases, All, arith,
}
use async_io.Pool.Nodes.{Node, upd, Chain, Distinct, Chain-upd}
use async_io.Pool.Count.{last}
use async_io.Pool.LockFree.{Pc, Stack, bump, tail, released}
use async_io.Pool.LockFree.Chains.{
  IsChain, IsChain-same, last_held, Chain-append, Distinct-append, released-append, released_other,
  not_in_of_held, unheld-upd,
}

-- What a thread's `old_head` says of the present: nothing, if its tag is an older one.
abbrev pub IsFresh : Stack → Node → ℕ → Type 0
IsFresh s o t = (t ≤ s.tag) × (t ≡ s.tag → o ≡ s.head)

abbrev pub PcInv : Stack → ℕ → Pc → Type 0
PcInv s i Pc.idle = Unit
PcInv s i (Pc.push_loaded n r o t) = IsChain s.next s.holder i n r × IsFresh s o t
PcInv s i (Pc.push_stored n r o t) =
    IsChain s.next s.holder i n r × IsFresh s o t × (s.next (last n r) ≡ o)
PcInv s i (Pc.pop_loaded o t) = IsFresh s o t
PcInv s i (Pc.pop_read o t x) = (o ≢ 0) × IsFresh s o t × (t ≡ s.tag → x ≡ s.next o)

pub record Inv (s : Stack) : Type 0 where
  pub chain : Chain s.next s.head s.items
  pub distinct : Distinct s.items
  pub unheld : All (λ x. s.holder x ≡ none) s.items
  pub counted : s.tag ≡ s.changes
  pub threads : (i : ℕ) → PcInv s i (s.pc i)

-- The node on top, if there is one, is not held.
head_unheld :
    (next : Node → Node) (holder : Node → Option ℕ) (p : Node) (xs : List Node)
    → Chain next p xs
    → All (λ x. holder x ≡ none) xs
    → p ≢ 0
    → holder p ≡ none
head_unheld next holder p [] c u ne = absurd (ne c)
head_unheld next holder p (x ∷ xs) c u ne = ground arith

-- What another thread's step must keep for thread `j`.
record Keeps (j : ℕ) (s s' : Stack) : Type 0 where
  later : s.tag ≤ s'.tag
  same_head : s.tag ≡ s'.tag → s'.head ≡ s.head
  same_holder : (m : Node) → s.holder m ≡ some j → s'.holder m ≡ some j
  same_next : (m : Node) → s.holder m ≡ some j → s'.next m ≡ s.next m
  same_top : s.tag ≡ s'.tag → s.head ≢ 0 → s'.next s.head ≡ s.next s.head

kept-IsChain :
    (j : ℕ) (n : Node) (r : List Node) (s s' : Stack)
    → Keeps j s s'
    → IsChain s.next s.holder j n r
    → IsChain s'.next s'.holder j n r
kept-IsChain j n r s s' k c =
    IsChain-same s.next s'.next s.holder s'.holder j n r k.same_holder k.same_next c

PcInv-Keeps : (j : ℕ) (c : Pc) (s s' : Stack) → Keeps j s s' → PcInv s j c → PcInv s' j c
PcInv-Keeps j Pc.idle s s' k h = tt
PcInv-Keeps j (Pc.push_loaded n r o t) s s' k h =
    (kept-IsChain j n r s s' k h.0, ground (arith, k.same_head))
PcInv-Keeps j (Pc.push_stored n r o t) s s' k h = (
  kept-IsChain j n r s s' k h.0,
  ground (arith, k.same_head),
  k.same_next (last n r) (last_held s.next s.holder j n r h.0) ∙ h.2,
)
PcInv-Keeps j (Pc.pop_loaded o t) s s' k h = ground (arith, k.same_head)
PcInv-Keeps j (Pc.pop_read o t x) s s' k h =
    (h.0, ground (arith, k.same_head), λ e. ground (arith, k.same_top))

-- The threads' part of the invariant after a step of thread `i`.
threads-step :
    (i : ℕ) (c : Pc) (s s' : Stack)
    → s'.pc ≡ upd s.pc i c
    → PcInv s' i c
    → ((j : ℕ) → j ≢ i → Keeps j s s')
    → ((j : ℕ) → PcInv s j (s.pc j))
    → (j : ℕ) → PcInv s' j (s'.pc j)
threads-step i c s s' e own others h j = elim (Bool-cases (j == i)) [
  | inl same ↦ rw e (rw same (rw ((==_iff j i).0 same) own))
  | inr differ ↦ rw e (rw differ (PcInv-Keeps j (s.pc j) s s' (others j (λ q. ground arith)) (h j)))
]

-- Only thread `i` moves, and touches no shared memory.
pub local-Inv :
    (i : ℕ) (c : Pc) (s : Stack) → PcInv s i c → Inv s → Inv (record s { pc = upd s.pc i c })
local-Inv i c s own v = record {
  chain = v.chain;
  distinct = v.distinct;
  unheld = v.unheld;
  counted = v.counted;
  threads =
      threads-step i c s (record s { pc = upd s.pc i c }) refl (own)
        (λ j ne. record {
          later = omega arith;
          same_head = λ e. refl;
          same_holder = λ m h. h;
          same_next = λ m h. refl;
          same_top = λ e h. refl;
        })
        v.threads;
}

top_not_held : (s : Stack) (n i : ℕ) → Inv s → s.holder n ≡ some i → s.head ≢ 0 → n ≢ s.head
top_not_held s n i v held ne e =
    let free = head_unheld s.next s.holder s.head s.items v.chain v.unheld ne in ground arith

-- Thread `i` writes to a node that it holds.
pub write-Inv :
    (i n x : ℕ) (c : Pc) (s : Stack)
    → s.holder n ≡ some i
    → PcInv (record s { next = upd s.next n x; pc = upd s.pc i c }) i c
    → Inv s
    → Inv (record s { next = upd s.next n x; pc = upd s.pc i c })
write-Inv i n x c s held own v =
    let s' = record s { next = upd s.next n x; pc = upd s.pc i c } in
    record {
      chain =
          Chain-upd s.next n x s.head s.items (not_in_of_held s.holder n i s.items held v.unheld)
            v.chain;
      distinct = v.distinct;
      unheld = v.unheld;
      counted = v.counted;
      threads =
          threads-step i c s s' refl own
            (λ j ne. record {
              later = omega arith;
              same_head = λ e. refl;
              same_holder = λ m h. h;
              same_next = λ m h. ground arith;
              same_top = λ e h. ground (arith, top_not_held s n i v held h);
            })
            v.threads;
    }

-- Thread `i` has nodes more, or fewer, that are not on the stack.
pub holder-Inv :
    (i : ℕ) (holder : Node → Option ℕ) (s : Stack)
    → ((j : ℕ) → j ≢ i → (m : Node) → s.holder m ≡ some j → holder m ≡ some j)
    → All (λ x. holder x ≡ none) s.items
    → Inv s
    → Inv (record s { holder = holder; pc = upd s.pc i Pc.idle })
holder-Inv i holder s others unheld v = record {
  chain = v.chain;
  distinct = v.distinct;
  unheld = unheld;
  counted = v.counted;
  threads =
      threads-step i Pc.idle s (record s { holder = holder; pc = upd s.pc i Pc.idle }) refl tt
        (λ j ne. record {
          later = omega arith;
          same_head = λ e. refl;
          same_holder = others j ne;
          same_next = λ m h. refl;
          same_top = λ e h. refl;
        })
        v.threads;
}

-- A successful exchange of `Push` or `PushChain`.
pub push-Inv :
    (i n : ℕ) (r : List Node) (s : Stack)
    → IsChain s.next s.holder i n r
    → s.next (last n r) ≡ s.head
    → s.changes + 1 < 2 ^ 64
    → Inv s
    → Inv (record s {
      head = n;
      tag = bump s.tag;
      items = (n ∷ r) ++ s.items;
      holder = released (n ∷ r) s.holder;
      changes = s.changes + 1;
      pc = upd s.pc i Pc.idle;
    })
push-Inv i n r s own linked small v =
    let s' = record s {
      head = n;
      tag = bump s.tag;
      items = (n ∷ r) ++ s.items;
      holder = released (n ∷ r) s.holder;
      changes = s.changes + 1;
      pc = upd s.pc i Pc.idle;
    } in
    record {
      chain = Chain-append s.next s.holder i n s.head r s.items own linked v.chain;
      distinct = Distinct-append s.next s.holder i n r s.items own v.unheld v.distinct;
      unheld = released-append (n ∷ r) s.items s.holder v.unheld;
      counted = ground (arith, v.counted);
      threads =
          threads-step i Pc.idle s s' refl tt
            (λ j ne'. record {
              later = ground (arith, v.counted);
              same_head = λ e. absurd (ground (arith, v.counted));
              same_holder = λ m h. released_other s.next s.holder i j n r m own ne' h;
              same_next = λ m h. refl;
              same_top = λ e h. refl;
            })
            v.threads;
    }

-- A successful exchange of `Pop`.
pub pop-Inv :
    (i x : ℕ) (xs : List Node) (s : Stack)
    → s.items ≡ s.head ∷ xs
    → x ≡ s.next s.head
    → s.changes + 1 < 2 ^ 64
    → Inv s
    → Inv (record s {
      head = x;
      tag = bump s.tag;
      items = tail s.items;
      holder = upd s.holder s.head (some i);
      changes = s.changes + 1;
      pc = upd s.pc i Pc.idle;
    })
pop-Inv i x xs s top read small v =
    let c : Chain s.next s.head (s.head ∷ xs) = rw top at v.chain in
    let d : Distinct (s.head ∷ xs) = rw top at v.distinct in
    let u : All (λ y. s.holder y ≡ none) (s.head ∷ xs) = rw top at v.unheld in
    let s' = record s {
      head = x;
      tag = bump s.tag;
      items = tail s.items;
      holder = upd s.holder s.head (some i);
      changes = s.changes + 1;
      pc = upd s.pc i Pc.idle;
    } in
    record {
      chain = rw top (rw read c.2);
      distinct = rw top d.1;
      unheld = rw top (unheld-upd s.holder s.head (some i) xs d.0 u.1);
      counted = ground (arith, v.counted);
      threads =
          threads-step i Pc.idle s s' refl tt
            (λ j ne'. record {
              later = ground (arith, v.counted);
              same_head = λ e. absurd (ground (arith, v.counted));
              same_holder = λ m h. ground (arith, u.0);
              same_next = λ m h. refl;
              same_top = λ e h. refl;
            })
            v.threads;
    }

-- A head that is not null is the top of the stack.
pub chain_top : (s : Stack) → Inv s → s.head ≢ 0 → (xs : List Node) × (s.items ≡ s.head ∷ xs)
chain_top s v ne = top s.items v.chain
  where
    top : (xs : List Node) → Chain s.next s.head xs → (ys : List Node) × (xs ≡ s.head ∷ ys)
    top [] c = absurd (ne c)
    top (x ∷ xs) c = (xs, rw c.0)
