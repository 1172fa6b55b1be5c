-- ===== src/Handler/Process.antt =====
-- The life of the `IOHandler`s of a process: construction, the signal handlers, shutdown, destruction.
pub mod Invariant
pub mod Shutdown
pub mod Lifetime
use async_io.Prelude.{
  ℕ, zero, suc, Bool, true, false, not, ◌&&◌, ◌||◌, Option, none, some, List, [], ◌∷◌, ℤ, pos,
  ltb_ℤ, ◌==◌, if◌then◌else◌,
}
use async_io.Task.{Ptr}
use async_io.Pool.Nodes.{upd}

pub data Signal : Type 0 where
  sigint sigterm : Signal

-- What a signal does: `OnSignal`, or something else, by number.
pub data Disposition : Type 0 where
  on_signal : Disposition
  other : ℕ → Disposition

-- The answers of the system and of liburing, by the number of calls before.
pub record System : Type 0 where
  pub queue_init_result : ℕ → ℤ
  pub sigaction_result : ℕ → ℤ
  pub sqe_is_free : ℕ → Bool
  -- Whether the event loop of the handler that is joined waits for a completion, or is before its test
  -- of `shutdown_requested_`.
  pub loop_is_waiting : ℕ → Bool

-- `ring_ready`: `io_uring_queue_init` set the ring up. `event_thread`: the thread runs and is not
-- joined. `woken`: a completion is there that wakes the loop. `init_error` holds the failed result.
pub record IoHandler : Type 0 where
  pub ring_ready : Bool
  pub event_thread : Bool
  pub woken : Bool
  pub shutdown_requested : Bool
  pub init_error : Option ℤ
  pub signals_installed : Bool
  pub saved_sigint : Disposition
  pub saved_sigterm : Disposition

-- `active_instance` is the static member, 0 for `nullptr`.
pub record Process : Type 0 where
  pub handlers : Ptr → Option IoHandler
  pub active_instance : Ptr
  pub sigint : Disposition
  pub sigterm : Disposition
  pub calls : ℕ

-- `struct sigaction` is zero at first: `SIG_DFL`.
abbrev pub default : Disposition
default = Disposition.other 0

abbrev pub store : Ptr → IoHandler → Process → Process
store p h s = record s { handlers = upd s.handlers p (some h) }

abbrev pub set_action : Signal → Disposition → Process → Process
set_action Signal.sigint d s = record s { sigint = d }
set_action Signal.sigterm d s = record s { sigterm = d }

-- `Initialized()`
abbrev pub initialized : IoHandler → Bool
initialized h = elim h.init_error [ none ↦ true | some e ↦ false ]

-- The constructor, after `io_uring_queue_init` gave `ret`: the event loop starts if that succeeded.
abbrev pub initial : (ret : ℤ) → IoHandler
initial ret = record {
  ring_ready = not (ltb_ℤ ret (pos 0));
  event_thread = not (ltb_ℤ ret (pos 0));
  woken = false;
  shutdown_requested = false;
  init_error = if ltb_ℤ ret (pos 0) then some ret else none;
  signals_installed = false;
  saved_sigint = default;
  saved_sigterm = default;
}

module _ (os : System) where
  -- `IOHandler(config)` at the address `p`.
  unfoldable pub construct : Ptr → Process → Process
  construct p s =
      store p (initial (os.queue_init_result s.calls)) (record s { calls = suc s.calls })

  -- `sigaction(sig, &act, ...)`: it failed, or the signal has the new disposition.
  unfoldable pub sigaction : Signal → Disposition → Process → Bool × Process
  sigaction sig d s =
      let failed = ltb_ℤ (os.sigaction_result s.calls) (pos 0) in
      let called = record s { calls = suc s.calls } in
      (failed, if failed then called else set_action sig d called)

  -- `active_instance_.store(nullptr)` after a failure.
  abbrev pub give_up : Process → Bool × Process
  give_up s = (false, record s { active_instance = 0 })

  -- The call for SIGTERM, once SIGINT is done.
  unfoldable pub install_sigterm : Ptr → IoHandler → Process → Bool × Process
  unfolding sigaction
  install_sigterm p h s =
      let done = sigaction Signal.sigterm Disposition.on_signal s in
      let saved = record h { saved_sigterm = s.sigterm; signals_installed = true } in
      if done.0 then give_up done.1 else (true, store p saved done.1)

  unfoldable pub install_sigint : Ptr → IoHandler → Process → Bool × Process
  unfolding sigaction install_sigterm
  install_sigint p h s =
      let done = sigaction Signal.sigint Disposition.on_signal s in
      let saved = record h { saved_sigint = s.sigint } in
      if done.0 then give_up done.1 else install_sigterm p saved (store p saved done.1)

  -- `InstallSignalHandlers()` of the handler `h` at `p`.
  unfoldable pub install_signal_handlers : Ptr → IoHandler → Process → Bool × Process
  unfolding install_sigint
  install_signal_handlers p h s =
      if s.active_instance == 0
      then install_sigint p h (record s { active_instance = p })
      else (false, s)

  -- `UninstallSignalHandlers()`: the results of `sigaction` are not looked at.
  unfoldable pub uninstall_signal_handlers : Ptr → IoHandler → Process → Process
  unfolding sigaction
  uninstall_signal_handlers p h s =
      if h.signals_installed
      then (let first = sigaction Signal.sigint h.saved_sigint s in
          let second = sigaction Signal.sigterm h.saved_sigterm first.1 in
          store p (record h { signals_installed = false })
            (record second.1 { active_instance = 0 }))
      else s

  -- `RequestShutdown()`. `none`: it works on a ring that was never set up.
  unfoldable pub request_shutdown : Ptr → IoHandler → Process → Option Process
  request_shutdown p h s =
      if h.ring_ready
      then some (
          store p
            (record h { shutdown_requested = true; woken = h.woken || os.sqe_is_free s.calls })
            (record s { calls = suc s.calls }))
      else none

-- Where `RunEventLoop` is: before the test of its `while`, in `io_uring_wait_cqe`, or at its end.
pub data LoopPhase : Type 0 where
  testing waiting ended : LoopPhase

-- The loop ends at its test only. A completion that wakes it, of a task or of the shutdown, leads back
-- to the test.
abbrev pub loop_step : IoHandler → LoopPhase → LoopPhase
loop_step h LoopPhase.testing = if h.shutdown_requested then LoopPhase.ended else LoopPhase.waiting
loop_step h LoopPhase.waiting = if h.woken then LoopPhase.testing else LoopPhase.waiting
loop_step h LoopPhase.ended = LoopPhase.ended

unfoldable pub loop_steps : ℕ → IoHandler → LoopPhase → LoopPhase
loop_steps zero h phase = phase
loop_steps (suc n) h phase = loop_steps n h (loop_step h phase)

abbrev pub is_ended : LoopPhase → Bool
is_ended LoopPhase.ended = true
is_ended _ = false

module _ (os : System) where
  -- Where the loop is when it is joined.
  abbrev pub phase_at : Process → LoopPhase
  phase_at s = if os.loop_is_waiting s.calls then LoopPhase.waiting else LoopPhase.testing

  -- `Join()`: the thread ends if its loop does. After two steps nothing more changes in the loop but by
  -- a completion. `none`: the loop goes on waiting.
  unfoldable pub join : Ptr → IoHandler → Process → Option Process
  unfolding loop_steps
  join p h s =
      if h.event_thread
      then if is_ended (loop_steps 2 h (phase_at s))
        then some (store p (record h { event_thread = false }) s)
        else none
      else some s

-- `io_uring_queue_exit`, and the end of the object.
unfoldable pub queue_exit : Ptr → IoHandler → Process → Option Process
queue_exit p h s =
    if h.ring_ready then some (record s { handlers = upd s.handlers p none }) else none

-- A method called on an object: `none` if there is no object.
abbrev pub call_on :
    Option IoHandler → (IoHandler → Process → Option Process) → Process → Option Process
call_on none method s = none
call_on (some h) method s = method h s

abbrev pub call_at : Ptr → (IoHandler → Process → Option Process) → Process → Option Process
call_at p method s = call_on (s.handlers p) method s

infixl 5 ◌>=>◌
abbrev pub ◌>=>◌ : Option Process → (Process → Option Process) → Option Process
none >=> f = none
(some s) >=> f = f s

module _ (os : System) where
  -- `~IOHandler()`
  unfoldable pub destroy : Ptr → Process → Option Process
  destroy p s =
      call_at p (λ h s. some (uninstall_signal_handlers os p h s)) s
      >=> call_at p (request_shutdown os p)
      >=> call_at p (join os p)
      >=> call_at p (queue_exit p)

  -- `OnSignal(signum)`
  unfoldable pub handle_signal : Process → Option Process
  handle_signal s =
      if s.active_instance == 0
      then some s
      else call_at s.active_instance (request_shutdown os s.active_instance) s

  -- A signal is delivered.
  unfoldable pub deliver : Disposition → Process → Option Process
  deliver Disposition.on_signal s = handle_signal s
  deliver (Disposition.other n) s = some s

-- What a program does with its handlers. A signal comes between two calls; one that comes while `Join`
-- waits is put before it, since `Join` only waits.
pub data Command : Type 0 where
  create install uninstall shut_down join_loop end : (p : Ptr) → Command
  interrupt : (sig : Signal) → Command

module _ (os : System) where
  unfoldable pub step : Command → Process → Option Process
  unfolding construct install_signal_handlers uninstall_signal_handlers request_shutdown join
      destroy deliver
  step (create p) s = some (construct os p s)
  step (install p) s = call_at p (λ h s. some (install_signal_handlers os p h s).1) s
  step (uninstall p) s = call_at p (λ h s. some (uninstall_signal_handlers os p h s)) s
  step (shut_down p) s = call_at p (request_shutdown os p) s
  step (join_loop p) s = call_at p (join os p) s
  step (end p) s = destroy os p s
  step (interrupt Signal.sigint) s = deliver os s.sigint s
  step (interrupt Signal.sigterm) s = deliver os s.sigterm s

  unfoldable pub run : List Command → Process → Option Process
  run [] s = some s
  run (c ∷ rest) s = step c s >=> run rest
