-- ===== src/Tcp/Descriptors.antt =====
-- The descriptors that `TcpServer` and `TcpClient` leave open.
use async_io.Prelude.{
  ◌+◌, pos_part, neg_part, ==_self, Option-cases, ℤ, pos, ◌≡◌, refl, ap, ◌∙◌, String, Bool, true,
  false, Bool-cases, inl, inr, List, ◌∷◌, ltb_ℤ, if◌then◌else◌, arith,
}
use async_io.Constants.{AsyncIoConfig}
use async_io.Tcp.{SocketCall, Sockets, open_fds, without}
use async_io.Tcp.Server.{TcpServer, init, init_bind, init_listen, give_up, start}
use async_io.Tcp.Client.{TcpClient, prepare_socket}

-- Either the server listens and has one more descriptor open, or nothing is left open.
abbrev pub Settled : List ℤ → Bool × TcpServer → Type 0
Settled before (done, s) =
    if done
    then (ltb_ℤ s.listen_fd (pos 0) ≡ false) × (open_fds s.calls ≡ s.listen_fd ∷ before)
    else (ltb_ℤ s.listen_fd (pos 0) ≡ true) × (open_fds s.calls ≡ before)

without_self : (fd : ℤ) (xs : List ℤ) → without fd xs ≡ xs → without fd (fd ∷ xs) ≡ xs
without_self fd xs absent = rw (==_self (pos_part fd + neg_part fd)) absent

init_listen-Settled :
    (os : Sockets) (config : AsyncIoConfig) (s : TcpServer) (before : List ℤ)
    → ltb_ℤ s.listen_fd (pos 0) ≡ false
    → without s.listen_fd before ≡ before
    → open_fds s.calls ≡ s.listen_fd ∷ before
    → Settled before (init_listen os config s)
unfolding init_listen give_up open_fds
init_listen-Settled os config s before valid absent opened_once =
    elim (Bool-cases (ltb_ℤ (os.listen s.calls) (pos 0))) [
      | inl failed ↦ rw failed (refl, rw opened_once (without_self s.listen_fd before absent))
      | inr worked ↦ rw worked (valid, opened_once)
    ]

init_bind-Settled :
    (os : Sockets) (config : AsyncIoConfig) (s : TcpServer) (before : List ℤ)
    → ltb_ℤ s.listen_fd (pos 0) ≡ false
    → without s.listen_fd before ≡ before
    → open_fds s.calls ≡ s.listen_fd ∷ before
    → Settled before (init_bind os config s)
unfolding init_bind give_up open_fds
init_bind-Settled os config s before valid absent opened_once =
    elim (Bool-cases (ltb_ℤ (os.bind s.calls) (pos 0))) [
      | inl failed ↦ rw failed (refl, rw opened_once (without_self s.listen_fd before absent))
      | inr worked ↦ rw worked (
          init_listen-Settled os config
            (record s { calls = SocketCall.bound s.listen_fd (os.htons s.port) ∷ s.calls }) before
            valid absent opened_once)
    ]

-- `Start` with any answers of the system: when it returns true the server has exactly one more
-- descriptor open, the one it listens on; when it returns false every descriptor that it opened is
-- closed again and none is kept. The system gives a descriptor that is not open.
pub start-Settled :
    (os : Sockets) (config : AsyncIoConfig) (port : ℤ) (s : TcpServer)
    → without (os.socket s.calls) (open_fds s.calls) ≡ open_fds s.calls
    → Settled (open_fds s.calls) (start os config port s)
unfolding start init open_fds
start-Settled os config port s absent = elim (Bool-cases (ltb_ℤ (os.socket s.calls) (pos 0))) [
  | inl failed ↦ rw failed (failed, rw failed refl)
  | inr worked ↦ rw worked (
      init_bind-Settled os config
        (record s {
          listen_fd = os.socket s.calls;
          port = port;
          calls =
              SocketCall.reuse_address (os.socket s.calls)
              ∷ SocketCall.opened (os.socket s.calls)
              ∷ s.calls;
        })
        (open_fds s.calls) worked absent (rw worked refl))
]

-- A socket that `TcpClient` cannot use is closed: `PrepareSocket` leaves a descriptor open exactly
-- when it returns it. The system gives a descriptor that is not open.
pub prepare_socket_leaks_nothing :
    (os : Sockets) (ip : String) (port : ℤ) (c : TcpClient)
    → without (os.socket c.calls) (open_fds c.calls) ≡ open_fds c.calls
    → if ltb_ℤ (prepare_socket os ip port c).0 (pos 0)
      then open_fds (prepare_socket os ip port c).2.calls ≡ open_fds c.calls
      else open_fds (prepare_socket os ip port c).2.calls
        ≡ (prepare_socket os ip port c).0 ∷ open_fds c.calls
unfolding prepare_socket open_fds
prepare_socket_leaks_nothing os ip port c absent =
    elim (Bool-cases (ltb_ℤ (os.socket c.calls) (pos 0))) [
      | inl failed ↦ rw failed (rw failed refl)
      | inr worked ↦ elim (Option-cases (os.inet_pton ip)) [
        | inl no_address ↦
            rw worked (
              rw no_address
                (rw worked (without_self (os.socket c.calls) (open_fds c.calls) absent)))
        | inr (addr, found) ↦ rw worked (rw found (rw worked refl))
      ]
    ]

Settled-true :
    (before : List ℤ) (done : Bool) (s : TcpServer)
    → done ≡ true
    → Settled before (done, s)
    → (ltb_ℤ s.listen_fd (pos 0) ≡ false) × (open_fds s.calls ≡ s.listen_fd ∷ before)
Settled-true before true s is_done settled = settled
Settled-true before false s is_done settled =
    let absurd : ⊥ = ground (arith, is_done) in elim absurd [ ]

-- `Start` of a server that listens already, when both calls succeed: the first descriptor is
-- overwritten and stays open beside the second. The system gives descriptors that are not open.
pub start_again_leaks :
    (os : Sockets) (config : AsyncIoConfig) (port : ℤ) (s : TcpServer)
    → without (os.socket s.calls) (open_fds s.calls) ≡ open_fds s.calls
    → (start os config port s).0 ≡ true
    → (let first = (start os config port s).1 in
        without (os.socket first.calls) (open_fds first.calls) ≡ open_fds first.calls)
    → (start os config port (start os config port s).1).0 ≡ true
    → let first = (start os config port s).1 in
      let second = (start os config port first).1 in
      open_fds second.calls ≡ second.listen_fd ∷ first.listen_fd ∷ open_fds s.calls
start_again_leaks os config port s new worked new_again worked_again =
    let first : TcpServer = (start os config port s).1 in
    let second : TcpServer = (start os config port first).1 in
    let one =
      Settled-true (open_fds s.calls) (start os config port s).0 first worked
        (start-Settled os config port s new) in
    let two =
      Settled-true (open_fds first.calls) (start os config port first).0 second worked_again
        (start-Settled os config port first new_again) in
    two.1 ∙ ap (λ fds. second.listen_fd ∷ fds) one.1
