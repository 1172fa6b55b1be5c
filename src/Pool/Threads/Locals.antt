-- ===== src/Pool/Threads/Locals.antt =====
-- What a thread has after each kind of step of its own.
use async_io.Prelude.{
  ℕ, zero, suc, ◌+◌, ◌-◌, ◌≤◌, ◌≡◌, ◌≢◌, refl, ◌∙◌, inl, inr, Bool, true, false, Option, none, some,
  List, [], ◌∷◌, ◌==◌, Bool-cases, leb, arith,
}
use async_io.Pool.Nodes.{Node, upd}
use async_io.Pool.Count.{occ}
use async_io.Pool.Cache.{Cache, contents, push}
use async_io.Pool.Cache.Flush.{occ-slice}
use async_io.Pool.FreeList.Return.{occ-push}
use async_io.Pool.LockFree.{Pc, Stack, released, granted, is_free}
use async_io.Pool.LockFree.Chains.{granted_here, granted_outside, free-unheld}
use async_io.Pool.Threads.{Phase, Kind, capacity}
use async_io.Pool.Threads.Invariant.{transit, Stage, count_mine, Local}

pub released_outside :
    (xs : List Node) (holder : Node → Option ℕ) (m : Node)
    → occ m xs ≡ 0
    → released xs holder m ≡ holder m
released_outside [] holder m out = refl
released_outside (x ∷ xs) holder m out = ground (arith, released_outside xs holder m)

-- A node into the cache, or dropped where there is no room.
pub push_counts :
    (m : ℕ) (n x : Node) (c : Cache)
    → occ x (contents (push m n c).1) ≤ occ x (contents c) + occ x (n ∷ [])
unfolding push
push_counts m n x c = elim (Bool-cases (leb m c.count)) [
  | inl full ↦ rw full (omega arith)
  | inr has_room ↦ rw has_room (omega (arith, occ-push x n c))
]

pub push_room : (m : ℕ) (n : Node) (c : Cache) → c.count ≤ m → (push m n c).1.count ≤ m
unfolding push
push_room m n c room = ground arith

-- The node on top of the cache.
pub occ-pop :
    (x : Node) (c : Cache)
    → 1 ≤ c.count
    → occ x (contents c)
      ≡ occ x (contents (record c { count = c.count - 1 })) + occ x (c.nodes (c.count - 1) ∷ [])
occ-pop x c some_there =
    occ-slice x c.nodes (c.count - 1) 0 (c.count - 1) 1 c.count (omega arith)
      (omega (arith, some_there))

pub zero_of : (n : ℕ) → (1 ≤ n → ⊥) → n ≡ 0
zero_of zero h = refl
zero_of (suc n) h = absurd (h (omega arith))

module _ (k : Kind) where
  -- Fewer nodes, as far as the thread has them still.
  pub Local-less :
      (i : ℕ) (s s' : Stack) (used used' : Node → Bool) (pc pc' : Pc) (c c' : Cache) (f f' : Phase)
      → ((x : Node) → count_mine k c' f' x ≤ count_mine k c f x)
      → ((x : Node)
          → 1 ≤ count_mine k c' f' x
          → s.holder x ≡ some i
          → used x ≡ false
          → (s'.holder x ≡ some i) × (used' x ≡ false))
      → c'.count ≤ capacity k
      → Stage k pc' s'.next f'
      → Local k i s used pc c f
      → Local k i s' used' pc' c' f'
  Local-less i s s' used used' pc pc' c c' f f' less keeps room stage h = record {
    once = λ x. omega (arith, less x, h.once x);
    own = λ x here.
        let before = h.own x (omega (arith, less x, here)) in
        let after = keeps x here before.0 before.1 in (after.0, after.1, before.2);
    room = room;
    stage = stage;
  }

  -- Nothing but the place in a call.
  pub Local-same :
      (i : ℕ) (s s' : Stack) (used : Node → Bool) (pc pc' : Pc) (c : Cache) (f f' : Phase)
      → s'.holder ≡ s.holder
      → ((x : Node) → occ x (transit k f') ≤ occ x (transit k f))
      → Stage k pc' s'.next f'
      → Local k i s used pc c f
      → Local k i s' used pc' c f'
  Local-same i s s' used pc pc' c f f' same less stage h =
      Local-less i s s' used used pc pc' c c f f' (λ x. omega (arith, less x))
        (λ x here held unused. (rw same held, unused)) h.room stage h

  -- Nodes that were with no thread.
  pub Local-more :
      (i : ℕ) (s s' : Stack) (used : Node → Bool) (pc pc' : Pc) (c : Cache) (f f' : Phase)
      (ns : List Node)
      → is_free s ns ≡ true
      → s'.holder ≡ granted ns i s.holder
      → ((x : Node) → s.holder x ≡ none → used x ≡ false)
      → ((x : Node) → occ x ns ≤ 1)
      → occ 0 ns ≡ 0
      → transit k f ≡ []
      → transit k f' ≡ ns
      → Stage k pc' s'.next f'
      → Local k i s used pc c f
      → Local k i s' used pc' c f'
  Local-more i s s' used pc pc' c f f' ns free gets unused apart live before after stage h =
      let own_cache =
        λ (x : Node) (here : 1 ≤ occ x (contents c)). h.own x (rw before (omega (arith, here))) in
      let fresh = λ (x : Node) (here : 1 ≤ occ x ns). free-unheld ns s x free here in
      record {
        once = λ x. elim (Bool-cases (leb 1 (occ x ns))) [
          | inl new ↦
              let nobody = fresh x (ground arith) in
              let absent : occ x (contents c) ≡ 0 =
                zero_of (occ x (contents c))
                  (λ here. let mine = own_cache x here in ground arith) in
              rw after (omega (arith, apart x))
          | inr old ↦ rw after (ground (arith, h.once x))
        ];
        own = λ x here. elim (Bool-cases (leb 1 (occ x ns))) [
          | inl new ↦
              let is_new : 1 ≤ occ x ns = ground arith in
              (
                rw gets (granted_here ns i s.holder x is_new),
                unused x (fresh x is_new),
                λ e. ground arith,
              )
          | inr old ↦
              let all : 1 ≤ occ x (contents c) + occ x ns = rw after at here in
              let mine = own_cache x (ground arith) in
              (rw gets (granted_outside ns i s.holder x (ground arith) ∙ mine.0), mine.1, mine.2)
        ];
        room = h.room;
        stage = stage;
      }

  -- A node that was in use, and is given back.
  pub Local-returned :
      (i : ℕ) (s : Stack) (used : Node → Bool) (pc : Pc) (c c' : Cache) (f f' : Phase) (n : Node)
      → s.holder n ≡ some i
      → used n ≡ true
      → n ≢ 0
      → ((x : Node) → count_mine k c' f' x ≤ count_mine k c f x + occ x (n ∷ []))
      → c'.count ≤ capacity k
      → Stage k pc s.next f'
      → Local k i s used pc c f
      → Local k i s (upd used n false) pc c' f'
  Local-returned i s used pc c c' f f' n held in_use live less room stage h =
      let absent : count_mine k c f n ≡ 0 =
        zero_of (count_mine k c f n) (λ here. let unused = (h.own n here).1 in ground arith) in
      record {
        once = λ x. elim (Bool-cases (x == n)) [
          | inl same ↦ let here : x ≡ n = ground arith in rw here (ground (arith, less n, absent))
          | inr differ ↦ ground (arith, less x, h.once x)
        ];
        own = λ x here. elim (Bool-cases (x == n)) [
          | inl same ↦ let here : x ≡ n = ground arith in rw here (held, ground arith, live)
          | inr differ ↦
              let mine = h.own x (ground (arith, less x, here)) in
              (mine.0, ground (arith, mine.1), mine.2)
        ];
        room = room;
        stage = stage;
      }
