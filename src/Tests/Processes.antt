-- ===== src/Tests/Processes.antt =====
-- Programs with handlers and signals.
use async_io.Prelude.{◌≡◌, refl, true, some, none, List, [], ◌∷◌, pos, negsuc, ◌==◌, if◌then◌else◌}
use async_io.Handler.Process.{
  Signal, Disposition, System, Process, Command, default, construct, sigaction, install_sigterm,
  install_sigint, install_signal_handlers, uninstall_signal_handlers, request_shutdown, loop_steps,
  join, queue_exit, destroy, step, run,
}
use async_io.Handler.Process.Lifetime.{start}

-- Every call works.
abbrev fine : System
fine = record {
  queue_init_result = λ n. pos 0;
  sigaction_result = λ n. pos 0;
  sqe_is_free = λ n. true;
  loop_is_waiting = λ n. true;
}

-- SIGINT does something of the program's own at first.
abbrev own : Disposition
own = Disposition.other 7

-- The second handler is not registered while the first is; the signal comes in between.
abbrev program : List Command
program =
    Command.create 1
    ∷ Command.install 1
    ∷ Command.create 2
    ∷ Command.install 2
    ∷ Command.interrupt Signal.sigint
    ∷ Command.join_loop 1
    ∷ Command.end 2
    ∷ Command.shut_down 1
    ∷ Command.end 1
    ∷ Command.interrupt Signal.sigterm
    ∷ []

-- No ring: ENOSYS.
abbrev no_ring : System
no_ring = record {
  queue_init_result = λ n. negsuc 37;
  sigaction_result = λ n. pos 0;
  sqe_is_free = λ n. true;
  loop_is_waiting = λ n. true;
}

destroy_failed : run no_ring (Command.create 1 ∷ Command.end 1 ∷ []) (start own default) ≡ none
unfolding run step construct uninstall_signal_handlers request_shutdown destroy
destroy_failed = refl

-- `sigaction` fails for SIGTERM.
abbrev no_sigterm : System
no_sigterm = record {
  queue_init_result = λ n. pos 0;
  sigaction_result = λ n. if n == 2 then negsuc 21 else pos 0;
  sqe_is_free = λ n. true;
  loop_is_waiting = λ n. true;
}

abbrev sigint_after : List Command → Disposition
sigint_after commands = elim (run no_sigterm commands (start own default)) [
  | none ↦ own
  | some s ↦ s.sigint
]

-- SIGINT is left with `OnSignal`, also after the end of the handler.
sigint_stays :
    sigint_after (Command.create 1 ∷ Command.install 1 ∷ Command.end 1 ∷ []) ≡ Disposition.on_signal
unfolding run step construct install_signal_handlers install_sigint install_sigterm sigaction
    uninstall_signal_handlers request_shutdown join loop_steps queue_exit destroy
sigint_stays = refl
