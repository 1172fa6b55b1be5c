-- ===== src/Tcp.antt =====
-- include/talon/async_io_tcp_server.hpp and async_io_tcp_client.hpp, and the socket calls they make.
pub mod Server
pub mod Client
pub mod Descriptors
pub mod Connecting
use async_io.Prelude.{ℕ, ℤ, pos, String, List, [], ◌∷◌, Option, ltb_ℤ, ◌==ℤ◌, if◌then◌else◌}

-- The calls that were made, `opened` with what `socket` answered.
pub data SocketCall : Type 0 where
  opened closed reuse_address : (fd : ℤ) → SocketCall
  bound : (fd : ℤ) (port : ℕ) → SocketCall
  listened : (fd backlog : ℤ) → SocketCall

-- `last_error_`: which call failed and with which errno, or the address that is none.
pub data LastError : Type 0 where
  nothing : LastError
  call_failed : (call : String) (errno : ℤ) → LastError
  bad_address : (ip : String) → LastError

-- The answers of the system, which may depend on all calls so far, the latest first.
pub record Sockets : Type 0 where
  pub socket : List SocketCall → ℤ
  pub bind : List SocketCall → ℤ
  pub listen : List SocketCall → ℤ
  pub errno : List SocketCall → ℤ
  pub htons : ℤ → ℕ
  pub inet_pton : String → Option ℕ

abbrev pub without : ℤ → List ℤ → List ℤ
without fd [] = []
without fd (x ∷ xs) = let rest = without fd xs in if x ==ℤ fd then rest else x ∷ rest

-- The descriptors that are open after the calls.
unfoldable pub open_fds : List SocketCall → List ℤ
open_fds [] = []
open_fds (SocketCall.opened fd ∷ calls) =
    let before = open_fds calls in if ltb_ℤ fd (pos 0) then before else fd ∷ before
open_fds (SocketCall.closed fd ∷ calls) = without fd (open_fds calls)
open_fds (_ ∷ calls) = open_fds calls
