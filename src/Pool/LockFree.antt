-- ===== src/Pool/LockFree.antt =====
-- `detail::LockFreeStack`: `Push`, `PushChain` and `Pop` of any number of threads, one access to shared
-- memory at a time, in any order. A thread that holds a node may write anything into it.
pub mod Chains
pub mod Calls
pub mod Invariant
pub mod Moves
pub mod Progress
pub mod Steps
use async_io.Prelude.{
  ℕ, suc, ◌+◌, ◌%◌, ◌^◌, Bool, true, false, not, ◌&&◌, ◌||◌, Option, none, some, List, [], ◌∷◌,
  ◌++◌, ◌==◌, if◌then◌else◌,
}
use async_io.Pool.Nodes.{Node, Memory, upd}
use async_io.Pool.Count.{last}

-- Where a thread stands: between calls; in `Push` or `PushChain` before the store to `next` and before
-- the exchange; in `Pop` at the head of the loop and before the exchange. `ptr` and `tag` are its
-- `old_head`. The chain is `node` and the nodes `rest`, of which the last is `chain_tail`; `Push` has
-- the chain of its node alone.
pub data Pc : Type 0 where
  idle : Pc
  push_loaded push_stored : (node : Node) (rest : List Node) (ptr : Node) (tag : ℕ) → Pc
  pop_loaded : (ptr : Node) (tag : ℕ) → Pc
  pop_read : (ptr : Node) (tag : ℕ) (next : Node) → Pc

-- `items`, `holder` and `changes` are there for the proofs only: the stack that the successful
-- exchanges make, the thread that has a node which is not on it, the number of those exchanges.
pub record Stack : Type 0 where
  pub next : Memory
  pub head : Node
  pub tag : ℕ
  pub items : List Node
  pub holder : Node → Option ℕ
  pub changes : ℕ
  pub pc : ℕ → Pc

-- What a thread does next. `go` is the next access of the call that it is in; `fail` is a weak
-- compare-exchange that fails for no reason. `obtain` is memory that comes from the system, of which
-- no part is in use; `hand_over` passes a node to another thread.
pub data Action : Type 0 where
  push : Node → Action
  push_chain : (chain_head : Node) (rest : List Node) → Action
  pop : Action
  go fail : Action
  scribble : (node value : Node) → Action
  obtain : (block : List Node) → Action
  hand_over : (node : Node) (to : ℕ) → Action

abbrev pub tail : List Node → List Node
tail [] = []
tail (x ∷ xs) = xs

abbrev pub bump : ℕ → ℕ
bump tag = (tag + 1) % 2 ^ 64

-- The nodes of a chain that is on the stack now are with no thread.
abbrev pub released : List Node → (Node → Option ℕ) → Node → Option ℕ
released [] holder = holder
released (x ∷ xs) holder = upd (released xs holder) x none

abbrev pub is_in : Node → List Node → Bool
is_in n [] = false
is_in n (x ∷ xs) = (x == n) || is_in n xs

unfoldable pub is_held : Option ℕ → ℕ → Bool
is_held none i = false
is_held (some j) i = j == i

pub is_unheld : Option ℕ → Bool
is_unheld none = true
is_unheld (some j) = false

-- Memory that the system may give out: with no thread and not on the stack.
unfoldable pub is_free : Stack → List Node → Bool
unfolding is_unheld
is_free s [] = true
is_free s (n ∷ ns) = is_unheld (s.holder n) && not (is_in n s.items) && is_free s ns

abbrev pub granted : List Node → ℕ → (Node → Option ℕ) → Node → Option ℕ
granted [] i holder = holder
granted (x ∷ xs) i holder = upd (granted xs i holder) x (some i)

-- What a caller of `PushChain` sees to: the nodes are its own, none twice, linked in this order.
unfoldable pub is_chain : Memory → (Node → Option ℕ) → ℕ → Node → List Node → Bool
unfolding is_held
is_chain next holder i n [] = is_held (holder n) i && not (n == 0)
is_chain next holder i n (x ∷ r) =
    is_held (holder n) i
    && not (n == 0)
    && (next n == x)
    && not (is_in n (x ∷ r))
    && is_chain next holder i x r

move_to : ℕ → Pc → Stack → Stack
move_to i c s = record s { pc = upd s.pc i c }

-- The next access of thread `i`.
advance : ℕ → Pc → Stack → Stack
unfolding move_to
advance i Pc.idle s = s
advance i (Pc.push_loaded n r o t) s = record s {
  next = upd s.next (last n r) o;
  pc = upd s.pc i (Pc.push_stored n r o t);
}
advance i (Pc.push_stored n r o t) s =
    if (s.head == o) && (s.tag == t)
    then record s {
      head = n;
      tag = bump t;
      items = (n ∷ r) ++ s.items;
      holder = released (n ∷ r) s.holder;
      changes = s.changes + 1;
      pc = upd s.pc i Pc.idle;
    }
    else move_to i (Pc.push_loaded n r s.head s.tag) s
advance i (Pc.pop_loaded o t) s =
    if o == 0 then move_to i Pc.idle s else move_to i (Pc.pop_read o t (s.next o)) s
advance i (Pc.pop_read o t x) s =
    if (s.head == o) && (s.tag == t)
    then record s {
      head = x;
      tag = bump t;
      items = tail s.items;
      holder = upd s.holder o (some i);
      changes = s.changes + 1;
      pc = upd s.pc i Pc.idle;
    }
    else move_to i (Pc.pop_loaded s.head s.tag) s

-- A weak exchange that fails although the values agree.
fail_exchange : ℕ → Pc → Stack → Stack
unfolding move_to
fail_exchange i (Pc.push_stored n r o t) s = move_to i (Pc.push_loaded n r s.head s.tag) s
fail_exchange i (Pc.pop_read o t x) s = move_to i (Pc.pop_loaded s.head s.tag) s
fail_exchange i _ s = s

-- A thread starts a call, or writes into a node, only between calls; it pushes and writes what it
-- holds.
begin : ℕ → Pc → Action → Stack → Stack
unfolding move_to is_held is_chain is_free is_unheld
begin i Pc.idle (push n) s =
    if is_held (s.holder n) i && not (n == 0)
    then move_to i (Pc.push_loaded n [] s.head s.tag) s
    else s
begin i Pc.idle (push_chain n r) s =
    if is_chain s.next s.holder i n r then move_to i (Pc.push_loaded n r s.head s.tag) s else s
begin i Pc.idle pop s = move_to i (Pc.pop_loaded s.head s.tag) s
begin i Pc.idle (scribble n v) s =
    if is_held (s.holder n) i
    then record s { next = upd s.next n v; pc = upd s.pc i Pc.idle }
    else s
begin i Pc.idle (obtain ns) s =
    if is_free s ns then record s { holder = granted ns i s.holder; pc = upd s.pc i Pc.idle } else s
begin i Pc.idle (hand_over n j) s =
    if is_held (s.holder n) i
    then record s { holder = upd s.holder n (some j); pc = upd s.pc i Pc.idle }
    else s
begin i _ _ s = s

unfoldable pub step : ℕ → Action → Stack → Stack
unfolding advance fail_exchange begin move_to is_held is_chain is_free is_unheld
step i go s = advance i (s.pc i) s
step i fail s = fail_exchange i (s.pc i) s
step i (push n) s = begin i (s.pc i) (push n) s
step i (push_chain n r) s = begin i (s.pc i) (push_chain n r) s
step i pop s = begin i (s.pc i) pop s
step i (scribble n v) s = begin i (s.pc i) (scribble n v) s
step i (obtain ns) s = begin i (s.pc i) (obtain ns) s
step i (hand_over n j) s = begin i (s.pc i) (hand_over n j) s

unfoldable pub run : List (ℕ × Action) → Stack → Stack
run [] s = s
run ((i, a) ∷ rest) s = run rest (step i a s)

-- What `Pop` returns if it returns with its next access.
unfoldable pub popped : Pc → Node
popped (Pc.pop_loaded o t) = o
popped (Pc.pop_read o t x) = o
popped _ = 0

unfoldable pub empty : Stack → Bool
empty s = s.head == 0

unfoldable pub unsafe_head_for_diagnostics : Stack → Node
unsafe_head_for_diagnostics s = s.head
