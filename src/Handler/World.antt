-- ===== src/Handler/World.antt =====
-- What an `IOHandler` works on: the tasks on the heap, the ring, and its counters; and a monad for
-- the methods. An access to a task that is not on the heap is a fault.
use mathlib.Core.Path.{fun_ext}
use async_io.Prelude.{
  ◌≡◌, ap, ◌∙◌, arith, ◌≢◌, ℕ, Bool, String, Option, none, some, List, ◌∷◌, ℤ, ◌==◌, if◌then◌else◌,
}
use async_io.Constants.{AsyncIoConfig}
use async_io.KernelBuf.{KernelBuf}
use async_io.Task.{Ptr, AsyncTask}

-- The calls of liburing, and the writes through the pointers that `io_uring_get_sqe` returns (an
-- entry is a number). `drop_timespec` is the end of the life of the timeout given to an entry.
pub data RingCall : Type 0 where
  get_sqe : RingCall
  prep_read prep_write : (sqe : ℕ) (fd : ℤ) (len : ℕ) (offset : ℕ) → RingCall
  prep_accept prep_connect : (sqe : ℕ) (fd : ℤ) → RingCall
  prep_nop prep_timeout : (sqe : ℕ) → RingCall
  prep_link_timeout : (sqe sec nsec : ℕ) → RingCall
  prep_cancel : (sqe : ℕ) (target : ℕ) → RingCall
  set_user_data : (sqe : ℕ) (user_data : ℕ) → RingCall
  set_link clear_link drop_timespec : (sqe : ℕ) → RingCall
  submit : RingCall

-- What a `sockaddr_in` holds; the port and the address in network byte order.
pub record SockaddrIn : Type 0 where
  pub sin_family : ℕ
  pub sin_port : ℕ
  pub sin_addr : ℕ

-- `ring` lists the calls made so far, the latest first; `closed` the descriptors given to `close`.
pub record World : Type 0 where
  pub tasks : Ptr → Option AsyncTask
  pub inflight_count : ℤ
  pub ring : List RingCall
  pub closed : List ℤ
  pub shutdown_requested : Bool

-- Code that is not of this repository, or not of the handler: the answers of liburing, which may
-- depend on all calls so far; the completion handler of each task, which may do anything to the
-- state; the layout of a `sockaddr_in` in a buffer; libc.
pub record Env : Type 0 where
  pub config : AsyncIoConfig
  pub sqe_of : List RingCall → Option ℕ
  pub submit_result : List RingCall → ℤ
  pub run_handler : Ptr → World → World
  pub sockaddr : KernelBuf → SockaddrIn
  pub ntohs : ℕ → ℕ
  pub inet_ntop : ℕ → String

pub data Run (A : Type 0) : Type 0 where
  ok : A → World → Run A
  fault : Run A
  out_of_fuel : Run A

abbrev pub M : Type 0 → Type 0
M A = World → Run A

abbrev pub pure : {A : Type 0} → A → M A
pure = ok

abbrev pub and_then : {A B : Type 0} → Run A → (A → M B) → Run B
and_then (ok a w) k = k a w
and_then fault k = fault
and_then out_of_fuel k = out_of_fuel

infixl 5 ◌>>=◌ ◌>>◌
abbrev pub ◌>>=◌ : {A B : Type 0} → M A → (A → M B) → M B
m >>= k = λ w. and_then (m w) k

abbrev pub ◌>>◌ : {A B : Type 0} → M A → M B → M B
m >> n = m >>= λ _. n

abbrev pub update : (Ptr → Option AsyncTask) → Ptr → Option AsyncTask → Ptr → Option AsyncTask
update f p t q = if q == p then t else f q

-- `*p`
unfoldable pub load : Ptr → M AsyncTask
load p w = elim (w.tasks p) [ none ↦ fault | some t ↦ ok t w ]

-- A write to fields of `*p`.
unfoldable pub modify : Ptr → (AsyncTask → AsyncTask) → M (Unit {0})
modify p f w = elim (w.tasks p) [
  | none ↦ fault
  | some t ↦ ok tt (record w { tasks = update w.tasks p (some (f t)) })
]

unfoldable pub emit : RingCall → M (Unit {0})
emit c w = ok tt (record w { ring = c ∷ w.ring })

unfoldable pub set_inflight : (ℤ → ℤ) → M (Unit {0})
set_inflight f w = ok tt (record w { inflight_count = f w.inflight_count })

unfoldable pub close_fd : ℤ → M (Unit {0})
close_fd fd w = ok tt (record w { closed = fd ∷ w.closed })

-- `io_uring_get_sqe`
unfoldable pub acquire_sqe : Env → M (Option ℕ)
acquire_sqe env w = ok (env.sqe_of w.ring) (record w { ring = get_sqe ∷ w.ring })

-- A run that returns, with a result and a state for which `P` holds.
abbrev pub Returns : {A : Type 0} → (A → World → Type 0) → Run A → Type 0
Returns P (ok a w) = P a w
Returns P fault = ⊥
Returns P out_of_fuel = ⊥

pub update-update :
    (f : Ptr → Option AsyncTask) (p : Ptr) (a b : Option AsyncTask)
    → update (update f p a) p b ≡ update f p b
update-update f p a b = fun_ext λ q. ground arith

pub update₃ :
    (f : Ptr → Option AsyncTask) (p : Ptr) (a b c : Option AsyncTask)
    → update (update (update f p a) p b) p c ≡ update f p c
update₃ f p a b c = update-update (update f p a) p b c ∙ update-update f p a c

abbrev pub put : Ptr → AsyncTask → World → World
put p t w = record w { tasks = update w.tasks p (some t) }

pub put-put : (p : Ptr) (t u : AsyncTask) (w : World) → put p u (put p t w) ≡ put p u w
put-put p t u w = ap (λ ts. record w { tasks = ts }) (update-update w.tasks p (some t) (some u))

pub tasks-put_self : (p : Ptr) (t : AsyncTask) (w : World) → (put p t w).tasks p ≡ some t
tasks-put_self p t w = ground arith

-- `p` is freed.
abbrev pub drop : Ptr → World → World
drop p w = record w { tasks = update w.tasks p none }

pub drop-put : (p : Ptr) (t : AsyncTask) (w : World) → drop p (put p t w) ≡ drop p w
drop-put p t w = ap (λ ts. record w { tasks = ts }) (update-update w.tasks p (some t) none)

pub modify-eq :
    (p : Ptr) (f : AsyncTask → AsyncTask) (w : World) {t : AsyncTask}
    → w.tasks p ≡ some t
    → modify p f w ≡ ok tt (put p (f t) w)
unfolding modify
modify-eq p f w at = rw (at, modify)

pub load-eq : (p : Ptr) (w : World) {t : AsyncTask} → w.tasks p ≡ some t → load p w ≡ ok t w
unfolding load
load-eq p w at = rw (at, load)

-- Of the tasks only `p` may differ.
abbrev pub SameTasksBut : Ptr → World → World → Type 0
SameTasksBut p w w' = (q : Ptr) → q ≢ p → w'.tasks q ≡ w.tasks q
