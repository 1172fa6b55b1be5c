-- ===== src/Handler/Process/Lifetime.antt =====
-- A program that uses its handlers as the interface asks, with signals between its calls.
use async_io.Prelude.{◌≡◌, ◌≢◌, true, Option, none, some, List, [], ◌∷◌}
use async_io.Handler.Process.{Disposition, System, IoHandler, Process, Command, initialized, step}

-- A handler that is there and initialised.
abbrev pub Live : Option IoHandler → Type 0
Live none = ⊥
Live (some h) = initialized h ≡ true

abbrev pub IsThere : Option IoHandler → Type 0
IsThere none = ⊥
IsThere (some h) = Unit

-- A handler that is there, whose loop was asked to end and has the completion for that.
abbrev pub IsAsked : Option IoHandler → Type 0
IsAsked none = ⊥
IsAsked (some h) = (h.shutdown_requested ≡ true) × (h.woken ≡ true)

-- A handler is made where none is, and used while it is there; it is not shut down, destroyed or
-- registered unless it was initialised, and not joined before it, or a signal, asked for the shutdown.
abbrev pub Usable : Command → Process → Type 0
Usable (Command.create p) s = (s.handlers p ≡ none) × (p ≢ 0)
Usable (Command.install p) s = Live (s.handlers p)
Usable (Command.uninstall p) s = IsThere (s.handlers p)
Usable (Command.shut_down p) s = Live (s.handlers p)
Usable (Command.join_loop p) s = IsAsked (s.handlers p)
Usable (Command.end p) s = Live (s.handlers p)
Usable (Command.interrupt sig) s = Unit

-- `P` holds of the state that a step leads to.
abbrev pub After : (Process → Type 0) → Option Process → Type 0
After P none = Unit
After P (some s) = P s

-- Every command is usable where it comes.
abbrev pub Proper : System → List Command → Process → Type 0
Proper os [] s = Unit
Proper os (c ∷ rest) s = Usable c s × After (Proper os rest) (step os c s)

-- No handler yet.
abbrev pub start : (first_int first_term : Disposition) → Process
start first_int first_term = record {
  handlers = λ p. none;
  active_instance = 0;
  sigint = first_int;
  sigterm = first_term;
  calls = 0;
}
