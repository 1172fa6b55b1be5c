-- ===== src/Handler/Process/Shutdown.antt =====
-- Shutdown requests, signals and the destructor come to an end, and keep the invariant.
use async_io.Prelude.{
  ℕ, suc, Bool, if◌then◌else◌, ◌≡◌, refl, inl, inr, true, false, ◌||◌, Option, none, some, pos,
  ltb_ℤ, ◌==◌, Bool-cases, arith,
}
use async_io.Task.{Ptr}
use async_io.Pool.Nodes.{upd}
use async_io.Handler.Process.{
  Disposition, System, IoHandler, Process, initialized, store, sigaction, uninstall_signal_handlers,
  request_shutdown, LoopPhase, is_ended, loop_steps, join, queue_exit, call_at, ◌>=>◌, destroy,
  handle_signal, deliver,
}
use async_io.Handler.Process.Invariant.{
  installed, HandlerInv, Inv, not_null, replace-Inv, here-HandlerInv, uninstall-Inv,
}

-- The step is done, and keeps the invariant.
abbrev pub Ends : (first_int first_term : Disposition) → Option Process → Type 0
Ends first_int first_term r = (s' : Process) × (r ≡ some s') × Inv first_int first_term s'

module _ (first_int first_term : Disposition) (os : System)
    (works : (n : ℕ) → ltb_ℤ (os.sigaction_result n) (pos 0) ≡ false)
    (sqe_free : (n : ℕ) → os.sqe_is_free n ≡ true) where
  -- The object at `p` changes in other fields than those that the invariant is about.
  kept-Inv :
      (p : Ptr) (h h' : IoHandler) (n : ℕ) (s : Process)
      → s.handlers p ≡ some h
      → HandlerInv first_int first_term (some h')
      → h'.signals_installed ≡ h.signals_installed
      → Inv first_int first_term s
      → Inv first_int first_term (store p h' (record s { calls = n }))
  kept-Inv p h h' n s at fine same v =
      replace-Inv first_int first_term p (some h') s.active_instance s.sigint s.sigterm n _ s
        (not_null first_int first_term p h s at v) fine (ground (arith, v.flags p, at, same))
        (λ q differ. refl) v.sigint_is v.sigterm_is (λ q. refl) v

  pub request-Ends :
      (p : Ptr) (h : IoHandler) (s : Process)
      → s.handlers p ≡ some h
      → initialized h ≡ true
      → Inv first_int first_term s
      → Ends first_int first_term (request_shutdown os p h s)
  unfolding request_shutdown
  request-Ends p h s at ready v =
      let fine = here-HandlerInv first_int first_term p h s at v in
      let up : h.ring_ready ≡ true = cc in
      (
        store p (record h { shutdown_requested = true; woken = h.woken || os.sqe_is_free s.calls })
            (record s { calls = suc s.calls }),
        rw up refl,
        kept-Inv p h _ (suc s.calls) s at fine refl v,
      )

  there_of_installed :
      (o : Option IoHandler)
      → installed o ≡ true
      → (h : IoHandler) × (o ≡ some h) × (h.signals_installed ≡ true)
  there_of_installed none e = cc
  there_of_installed (some h) e = (h, refl, e)

  handle-Ends :
      (s : Process) → Inv first_int first_term s → Ends first_int first_term (handle_signal os s)
  unfolding handle_signal
  handle-Ends s v = elim (Bool-cases (s.active_instance == 0)) [
    | inl nobody ↦ (s, rw nobody refl, v)
    | inr somebody ↦
        let flag : installed (s.handlers s.active_instance) ≡ true =
          ground (arith, v.flags s.active_instance, somebody) in
        let (h, at, on) = there_of_installed (s.handlers s.active_instance) flag in
        let fine = here-HandlerInv first_int first_term s.active_instance h s at v in
        let done = request-Ends s.active_instance h s at ((fine.1 on).0) v in
        rw somebody (rw at done)
  ]

  pub deliver-Ends :
      (d : Disposition) (s : Process)
      → Inv first_int first_term s
      → Ends first_int first_term (deliver os d s)
  unfolding deliver
  deliver-Ends Disposition.on_signal s v = handle-Ends s v
  deliver-Ends (Disposition.other n) s v = (s, refl, v)

  -- A loop that is asked to end, and woken, ends wherever it is.
  loop_steps-ended :
      (h : IoHandler) (waits : Bool)
      → h.shutdown_requested ≡ true
      → h.woken ≡ true
      → is_ended (loop_steps 2 h (if waits then LoopPhase.waiting else LoopPhase.testing)) ≡ true
  unfolding loop_steps
  loop_steps-ended h true asked woken = rw woken (rw asked refl)
  loop_steps-ended h false asked woken = rw asked refl

  -- `Join` of a handler whose loop was asked to end.
  pub join-Ends :
      (p : Ptr) (h : IoHandler) (s : Process)
      → s.handlers p ≡ some h
      → h.shutdown_requested ≡ true
      → h.woken ≡ true
      → Inv first_int first_term s
      → Ends first_int first_term (join os p h s)
  unfolding join
  join-Ends p h s at asked woken v =
      let over = loop_steps-ended h (os.loop_is_waiting s.calls) asked woken in
      let fine = here-HandlerInv first_int first_term p h s at v in
      elim (Bool-cases h.event_thread) [
        | inl runs ↦ (
          store p (record h { event_thread = false }) s,
          rw runs (rw over refl),
          kept-Inv p h (record h { event_thread = false }) s.calls s at fine refl v,
        )
        | inr none_runs ↦ (s, rw none_runs refl, v)
      ]

  -- From the shutdown request to the end of the object, once it is not registered.
  finish-Ends :
      (p : Ptr) (h : IoHandler) (s : Process)
      → s.handlers p ≡ some h
      → initialized h ≡ true
      → h.signals_installed ≡ false
      → Inv first_int first_term s
      → Ends first_int first_term (
          call_at p (request_shutdown os p) s
          >=> call_at p (join os p)
          >=> call_at p (queue_exit p))
  unfolding request_shutdown join queue_exit
  finish-Ends p h s at ready off v =
      let fine = here-HandlerInv first_int first_term p h s at v in
      let up : h.ring_ready ≡ true = cc in
      let asked : IoHandler = record h {
        shutdown_requested = true;
        woken = h.woken || os.sqe_is_free s.calls;
      } in
      let over =
        loop_steps-ended asked (os.loop_is_waiting (suc s.calls)) refl
          (ground (arith, sqe_free s.calls)) in
      let joined : IoHandler = record asked { event_thread = false } in
      let gone = λ (f : Ptr → Option IoHandler) (same : (q : Ptr) → f q ≡ upd s.handlers p none q).
        replace-Inv first_int first_term p none s.active_instance s.sigint s.sigterm (suc s.calls) f
          s (not_null first_int first_term p h s at v) tt (ground (arith, v.flags p, at, off))
          (λ q differ. refl) v.sigint_is v.sigterm_is same v in
      elim (Bool-cases h.event_thread) [
        | inl runs ↦ (
          record s {
            handlers = upd (upd (upd s.handlers p (some asked)) p (some joined)) p none;
            calls = suc s.calls;
          },
          ground (arith, at, up, over, runs),
          gone _ (λ q. ground arith),
        )
        | inr none_runs ↦ (
          record s { handlers = upd (upd s.handlers p (some asked)) p none; calls = suc s.calls },
          ground (arith, at, up, sqe_free s.calls, none_runs),
          gone _ (λ q. ground arith),
        )
      ]

  uninstalled :
      (p : Ptr) (h : IoHandler) (s : Process)
      → s.handlers p ≡ some h
      → initialized h ≡ true
      → (h' : IoHandler) × ((uninstall_signal_handlers os p h s).handlers p ≡ some h')
        × (initialized h' ≡ true)
        × (h'.signals_installed ≡ false)
  unfolding uninstall_signal_handlers sigaction
  uninstalled p h s at ready = elim (Bool-cases h.signals_installed) [
    | inl on ↦ (record h { signals_installed = false }, rw on (ground arith), ready, refl)
    | inr off ↦ (h, ground (arith, off, at), ready, off)
  ]

  pub destroy-Ends :
      (p : Ptr) (h : IoHandler) (s : Process)
      → s.handlers p ≡ some h
      → initialized h ≡ true
      → Inv first_int first_term s
      → Ends first_int first_term (destroy os p s)
  unfolding destroy
  destroy-Ends p h s at ready v =
      let (h', at', ready', off) = uninstalled p h s at ready in
      rw at (
        finish-Ends p h' (uninstall_signal_handlers os p h s) at' ready' off
          (uninstall-Inv first_int first_term os works p h s at v))
