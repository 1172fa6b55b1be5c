-- ===== src/Pool/Threads/Invariant.antt =====
-- The invariant of the shared pool: what a thread has in its cache and in its call is its own.
use async_io.Prelude.{
  ℕ, ◌+◌, ◌<◌, ◌≤◌, ◌≡◌, ◌≢◌, refl, ◌∙◌, inl, inr, Bool, false, none, some, List, [], ◌∷◌, ◌==◌,
  ==_iff, Bool-cases, length, arith,
}
use async_io.Pool.Nodes.{Node, Memory, upd}
use async_io.Pool.Count.{occ}
use async_io.Pool.Cache.{Cache, contents}
use async_io.Pool.ObjectPool.{walk_fuel}
use async_io.Pool.LockFree.{Pc, Stack}
use async_io.Pool.LockFree.Invariant.{Inv}
use async_io.Pool.LockFree.Calls.{Pops, Pushes}
use async_io.Pool.LockFree.Moves.{Leaves}
use async_io.Pool.FreeList.Grow.{block_nodes}
use async_io.Pool.Threads.{Store, Phase, SharedPool, Kind, capacity, obj_size}
use async_io.Pool.Threads.Stores.{apply, apply-same, Leads, Leads-same, Within}

-- A family that differs at `i` alone.
abbrev pub Only {ℓ} : {A : Type ℓ} → ℕ → (ℕ → A) → (ℕ → A) → A → Type ℓ
Only i f g a = (g i ≡ a) × ((j : ℕ) → j ≢ i → g j ≡ f j)

module _ (k : Kind) where
  -- The nodes that a thread has in its call.
  abbrev pub transit : Phase → List Node
  transit (Phase.storing count block again) = block_nodes (obj_size k) count block
  transit (Phase.carving ws nodes again) = nodes
  transit (Phase.publishing n r again) = n ∷ r
  transit (Phase.linking ws n r obj) = obj ∷ n ∷ r
  transit (Phase.flushing n r obj) = obj ∷ n ∷ r
  transit _ = []

  -- The stores left link the nodes.
  abbrev pub Carved : Memory → List Store → List Node → Type 0
  Carved next ws [] = ws ≡ []
  Carved next ws (n ∷ r) = Leads (apply ws next) n r × Within ws (n ∷ r)

  abbrev pub Stage : Pc → Memory → Phase → Type 0
  Stage c next (Phase.popping is_first) = Pops c
  Stage c next (Phase.carving ws nodes again) = (c ≡ Pc.idle) × Carved next ws nodes
  Stage c next (Phase.publishing n r again) = Pushes c n r
  Stage c next (Phase.linking ws n r obj) =
      (c ≡ Pc.idle) × Leads (apply ws next) n r × Within ws (n ∷ r) × (length r < walk_fuel)
  Stage c next (Phase.flushing n r obj) = Pushes c n r
  Stage c next (Phase.storing count block again) = (c ≡ Pc.idle) × (block ≢ 0)
  Stage c next _ = c ≡ Pc.idle

  -- How often a thread has a node that is not in use.
  abbrev pub count_mine : Cache → Phase → Node → ℕ
  count_mine c f x = occ x (contents c) + occ x (transit f)

  pub record Local (i : ℕ) (s : Stack) (in_use : Node → Bool) (pc : Pc) (c : Cache) (f : Phase)
      : Type 0 where
    pub once : (x : Node) → count_mine c f x ≤ 1
    pub own :
        (x : Node) → 1 ≤ count_mine c f x → (s.holder x ≡ some i) × (in_use x ≡ false) × (x ≢ 0)
    pub room : c.count ≤ capacity k
    pub stage : Stage pc s.next f

  abbrev pub ThreadInv : SharedPool → ℕ → Type 0
  ThreadInv p i = Local i p.stack p.in_use (p.stack.pc i) (p.caches i) (p.phase i)

  pub record PoolInv (p : SharedPool) : Type 0 where
    pub stack_inv : Inv p.stack
    pub unheld_unused : (x : Node) → p.stack.holder x ≡ none → p.in_use x ≡ false
    pub threads : (i : ℕ) → ThreadInv p i

  -- What a step of another thread leaves to thread `j`.
  pub record Frame (j : ℕ) (p p' : SharedPool) : Type 0 where
    pub same_pc : p'.stack.pc j ≡ p.stack.pc j
    pub same_cache : p'.caches j ≡ p.caches j
    pub same_phase : p'.phase j ≡ p.phase j
    pub leaves : Leaves j p.stack p'.stack
    pub same_use : (x : Node) → p.stack.holder x ≡ some j → p'.in_use x ≡ p.in_use x

  Stage-same :
      (c : Pc) (next other : Memory) (f : Phase)
      → ((x : Node) → 1 ≤ occ x (transit f) → other x ≡ next x)
      → Stage c next f
      → Stage c other f
  Stage-same c next other (Phase.carving ws [] again) same h = h
  Stage-same c next other (Phase.carving ws (n ∷ r) again) same h = (
    h.0,
    (
      Leads-same (apply ws next) (apply ws other) n r
          (λ x here. apply-same ws next other x (same x here)) h.1.0,
      h.1.1,
    ),
  )
  Stage-same c next other (Phase.linking ws n r obj) same h = (
    h.0,
    Leads-same (apply ws next) (apply ws other) n r
        (λ x here. apply-same ws next other x (same x (omega (arith, here)))) h.1,
    h.2,
    h.3,
  )
  Stage-same c next other Phase.resting same h = h
  Stage-same c next other (Phase.popping is_first) same h = h
  Stage-same c next other Phase.ensuring same h = h
  Stage-same c next other (Phase.growing count again) same h = h
  Stage-same c next other (Phase.storing count block again) same h = h
  Stage-same c next other (Phase.publishing n r again) same h = h
  Stage-same c next other Phase.looking_again same h = h
  Stage-same c next other Phase.last_resort same h = h
  Stage-same c next other (Phase.flushing n r obj) same h = h

  ThreadInv-Frame : (j : ℕ) (p p' : SharedPool) → Frame j p p' → ThreadInv p j → ThreadInv p' j
  ThreadInv-Frame j p p' k h =
      rw (k.same_pc, k.same_cache, k.same_phase)
        (record {
          once = h.once;
          own = λ x here. (
            (k.leaves x (h.own x here).0).0,
            k.same_use x (h.own x here).0 ∙ (h.own x here).1,
            (h.own x here).2,
          );
          room = h.room;
          stage =
              Stage-same (p.stack.pc j) p.stack.next p'.stack.next (p.phase j)
                (λ x here. (k.leaves x (h.own x (omega (arith, here))).0).1) h.stage;
        })

  -- A step of thread `i`.
  pub PoolInv-step :
      (i : ℕ) (p p' : SharedPool)
      → Inv p'.stack
      → ((x : Node) → p'.stack.holder x ≡ none → p'.in_use x ≡ false)
      → ((j : ℕ) → j ≢ i → Frame j p p')
      → ThreadInv p' i
      → PoolInv p
      → PoolInv p'
  PoolInv-step i p p' v unused others own h = record {
    stack_inv = v;
    unheld_unused = unused;
    threads = λ j. elim (Bool-cases (j == i)) [
      | inl same ↦ rw ((==_iff j i).0 same) own
      | inr differ ↦ ThreadInv-Frame j p p' (others j (λ q. ground arith)) (h.threads j)
    ];
  }

  -- What every step of thread `i` does.
  pub record Kept (i : ℕ) (p p' : SharedPool) : Type 0 where
    pub inv : PoolInv p'
    pub frames : (j : ℕ) → j ≢ i → Frame j p p'

  pub still : (i : ℕ) (p : SharedPool) → PoolInv p → Kept i p p
  still i p v = record {
    inv = v;
    frames = λ j ne. record {
      same_pc = refl;
      same_cache = refl;
      same_phase = refl;
      leaves = λ m h. (h, refl);
      same_use = λ x h. refl;
    };
  }

  -- A step of thread `i` with or without an access to the stack.
  pub stepped :
      (i : ℕ) (p p' : SharedPool) (c : Cache) (f : Phase)
      → PoolInv p
      → Inv p'.stack
      → ((j : ℕ) → j ≢ i → Leaves j p.stack p'.stack × (p'.stack.pc j ≡ p.stack.pc j))
      → Only i p.caches p'.caches c
      → Only i p.phase p'.phase f
      → ((x : Node) → p'.stack.holder x ≡ none → p'.in_use x ≡ false)
      → ((j : ℕ) → j ≢ i → (x : Node) → p.stack.holder x ≡ some j → p'.in_use x ≡ p.in_use x)
      → Local i p'.stack p'.in_use (p'.stack.pc i) c f
      → Kept i p p'
  stepped i p p' c f h v others caches phases unused same_use own =
      let frame : (j : ℕ) → j ≢ i → Frame j p p' = λ j ne. record {
        same_pc = (others j ne).1;
        same_cache = caches.1 j ne;
        same_phase = phases.1 j ne;
        leaves = (others j ne).0;
        same_use = same_use j ne;
      } in
      record {
        inv = PoolInv-step i p p' v unused frame (rw (caches.0, phases.0) own) h;
        frames = frame;
      }

pub Only-upd {ℓ} : {A : Type ℓ} (i : ℕ) (f : ℕ → A) (a : A) → Only i f (upd f i a) a
Only-upd i f a = (ground arith, λ j ne. ground arith)

pub Only-same {ℓ} : {A : Type ℓ} (i : ℕ) (f : ℕ → A) (a : A) → f i ≡ a → Only i f f a
Only-same i f a e = (e, λ j ne. refl)
