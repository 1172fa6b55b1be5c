-- ===== src/Tests/Stacks.antt =====
-- Interleavings of calls on the lock-free stack.
use async_io.Prelude.{ℕ, ◌<◌, ◌≡◌, refl, List, [], ◌∷◌, none, some, All, arith, ◌++◌}
use async_io.Pool.Nodes.{Chain, Distinct}
use async_io.Pool.LockFree.{Pc, Stack, Action, push, push_chain, pop, go, scribble, step, run}
use async_io.Pool.LockFree.Steps.{fresh, memory_is_stack, pop_takes_top}
use async_io.Pool.LockFree.Progress.{failed_exchange_means_progress}

-- Thread 0 holds all nodes.
abbrev start : Stack
start = fresh (λ n. 0) (λ n. some 0)

abbrev call : ℕ → Action → List (ℕ × Action)
call i a = (i, a) ∷ (i, go) ∷ (i, go) ∷ []

-- Thread 0 pushes 1 and 2. Thread 1 reads the top, 2, and its successor, 1. Thread 0 pops both,
-- overwrites 2 and pushes it again. The exchange of thread 1 fails, and it reads anew.
abbrev aba : List (ℕ × Action)
aba =
    call 0 (push 1)
    ++ call 0 (push 2)
    ++ (1, pop) ∷ (1, go) ∷ call 0 pop
    ++ call 0 pop
    ++ (0, scribble 2 77) ∷ call 0 (push 2)
    ++ (1, go) ∷ (1, go) ∷ []

aba_state : let s = run aba start in (s.items ≡ 2 ∷ []) × (s.pc 1 ≡ Pc.pop_read 2 5 0)
unfolding run step
aba_state = (refl, refl)

-- Thread 0 links 3 and 4 and pushes them as a chain; meanwhile thread 1 pops.
abbrev chained : List (ℕ × Action)
chained =
    call 0 (push 1)
    ++ (0, scribble 3 4)
      ∷ (1, pop)
      ∷ (1, go)
      ∷ (0, push_chain 3 (4 ∷ []))
      ∷ (0, go)
      ∷ (1, go)
      ∷ (0, go)
      ∷ (0, go)
      ∷ (0, go)
      ∷ call 1 pop

chained_state :
    let s = run chained start in (s.items ≡ 4 ∷ []) × (s.holder 1 ≡ some 1) × (s.holder 3 ≡ some 1)
unfolding run step
chained_state = (refl, refl, refl)

memory_is_stack_example :
    let s = run aba start in
    Chain s.next s.head s.items × Distinct s.items × All (λ x. s.holder x ≡ none) s.items
unfolding run step
memory_is_stack_example = memory_is_stack (λ n. 0) (λ n. some 0) aba (omega arith)

pop_takes_top_example :
    let s = run aba start in
    let s' = step 1 go s in
    (s.items ≡ 2 ∷ s'.items)
    × (s.holder 2 ≡ none)
    × (s'.holder 2 ≡ some 1)
    × Chain s'.next s'.head s'.items
unfolding run step
pop_takes_top_example =
    pop_takes_top (λ n. 0) (λ n. some 0) aba (omega arith) 1 2 5 0 refl refl refl

-- Thread 1 reads the head, 2 with tag 2; thread 0 pops twice, and pushes 2 again; the exchange of
-- thread 1 fails.
abbrev pushed : List (ℕ × Action)
pushed = call 0 (push 1) ++ call 0 (push 2)

abbrev overtaken : List (ℕ × Action)
overtaken = (1, pop) ∷ (1, go) ∷ call 0 pop ++ call 0 pop ++ (0, scribble 2 77) ∷ call 0 (push 2)

failed_exchange_means_progress_example :
    (run pushed start).changes < (run overtaken (run pushed start)).changes
unfolding run step
failed_exchange_means_progress_example =
    failed_exchange_means_progress (λ n. 0) (λ n. some 0) pushed overtaken (omega arith) 1 refl refl
