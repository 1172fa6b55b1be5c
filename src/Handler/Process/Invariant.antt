-- ===== src/Handler/Process/Invariant.antt =====
-- The registered handler, the flags and the dispositions agree, whatever the program does.
use async_io.Prelude.{
  ℕ, suc, ◌≡◌, ◌≢◌, refl, subst, inl, inr, Bool, true, false, Option, none, some, ℤ, pos, ltb_ℤ,
  ◌==◌, if◌then◌else◌, Bool-cases, arith,
}
use async_io.Task.{Ptr}
use async_io.Pool.Nodes.{upd}
use async_io.Handler.Process.{
  Disposition, System, IoHandler, Process, initialized, initial, construct, sigaction,
  install_sigterm, install_sigint, install_signal_handlers, uninstall_signal_handlers, store,
}

abbrev pub installed : Option IoHandler → Bool
installed none = false
installed (some h) = h.signals_installed

-- The handler is the registered one.
abbrev pub is_active : Ptr → Ptr → Bool
is_active p a = if a == 0 then false else p == a

-- What a signal does while `a` is registered, if it did `first` at the start.
abbrev pub expected : (first : Disposition) → (a : Ptr) → Disposition
expected first a = if a == 0 then first else Disposition.on_signal

-- `first_int` and `first_term` are the dispositions that the program started with.
module _ (first_int first_term : Disposition) where
  abbrev pub HandlerInv : Option IoHandler → Type 0
  HandlerInv none = Unit
  HandlerInv (some h) =
      (h.ring_ready ≡ initialized h)
      × (h.signals_installed ≡ true
          → (initialized h ≡ true) × (h.saved_sigint ≡ first_int) × (h.saved_sigterm ≡ first_term))

  pub record Inv (s : Process) : Type 0 where
    pub null_free : s.handlers 0 ≡ none
    pub flags : (p : Ptr) → installed (s.handlers p) ≡ is_active p s.active_instance
    pub each : (p : Ptr) → HandlerInv (s.handlers p)
    pub sigint_is : s.sigint ≡ expected first_int s.active_instance
    pub sigterm_is : s.sigterm ≡ expected first_term s.active_instance

  pub not_null : (p : Ptr) (h : IoHandler) (s : Process) → s.handlers p ≡ some h → Inv s → p ≢ 0
  not_null p h s at v = λ null. ground (arith, at, null, v.null_free)

  -- Only the object at `p` changes, and perhaps which one is registered.
  pub replace-Inv :
      (p : Ptr) (o : Option IoHandler) (a : Ptr) (int term : Disposition) (n : ℕ)
      (f : Ptr → Option IoHandler) (s : Process)
      → p ≢ 0
      → HandlerInv o
      → installed o ≡ is_active p a
      → ((q : Ptr) → q ≢ p → is_active q s.active_instance ≡ is_active q a)
      → int ≡ expected first_int a
      → term ≡ expected first_term a
      → ((q : Ptr) → f q ≡ upd s.handlers p o q)
      → Inv s
      → Inv (record { handlers = f; active_instance = a; sigint = int; sigterm = term; calls = n })
  replace-Inv p o a int term n f s ne fine flag others int_is term_is same v = record {
    null_free = ground (arith, same 0, v.null_free);
    flags = λ q. ground (arith, same q, v.flags q, others q);
    each = λ q.
        rw (same q) (elim (Bool-cases (q == p)) [
          | inl here ↦ rw here fine
          | inr there ↦ rw there (v.each q)
        ]);
    sigint_is = int_is;
    sigterm_is = term_is;
  }

  -- A handler that no signal is sent to comes, or changes.
  pub made-Inv :
      (h : IoHandler) (p : Ptr) (n : ℕ) (s : Process)
      → s.handlers p ≡ none
      → p ≢ 0
      → h.ring_ready ≡ initialized h
      → h.signals_installed ≡ false
      → Inv s
      → Inv (store p h (record s { calls = n }))
  made-Inv h p n s at ne ready off v =
      replace-Inv p (some h) s.active_instance s.sigint s.sigterm n _ s ne (ready, λ on. cc)
        (ground (arith, v.flags p, at, off)) (λ q differ. refl) v.sigint_is v.sigterm_is (λ q. refl)
        v

  ready-initial : (ret : ℤ) → (initial ret).ring_ready ≡ initialized (initial ret)
  ready-initial ret = elim (Bool-cases (ltb_ℤ ret (pos 0))) [
    | inl failed ↦ rw failed refl
    | inr ready ↦ rw ready refl
  ]

  pub here-HandlerInv :
      (p : Ptr) (h : IoHandler) (s : Process) → s.handlers p ≡ some h → Inv s → HandlerInv (some h)
  here-HandlerInv p h s at v = subst HandlerInv at (v.each p)

  module _ (os : System) (works : (n : ℕ) → ltb_ℤ (os.sigaction_result n) (pos 0) ≡ false) where
    pub construct-Inv :
        (p : Ptr) (s : Process) → s.handlers p ≡ none → p ≢ 0 → Inv s → Inv (construct os p s)
    unfolding construct
    construct-Inv p s at ne v =
        made-Inv (initial (os.queue_init_result s.calls)) p (suc s.calls) s at ne
          (ready-initial (os.queue_init_result s.calls)) refl v

    pub install-Inv :
        (p : Ptr) (h : IoHandler) (s : Process)
        → s.handlers p ≡ some h
        → initialized h ≡ true
        → Inv s
        → Inv (install_signal_handlers os p h s).1
    unfolding install_signal_handlers install_sigint install_sigterm sigaction
    install-Inv p h s at ready v = elim (Bool-cases (s.active_instance == 0)) [
      | inl free ↦
          rw (free, works s.calls, works (suc s.calls))
            (replace-Inv p
              (some (record h {
                signals_installed = true;
                saved_sigint = s.sigint;
                saved_sigterm = s.sigterm;
              }))
              p Disposition.on_signal Disposition.on_signal (suc (suc s.calls)) _ s
              (not_null p h s at v)
              (
                (here-HandlerInv p h s at v).0,
                λ on.
                    (ready, ground (arith, free, v.sigint_is), ground (arith, free, v.sigterm_is)),
              )
              (ground (arith, not_null p h s at v)) (λ q differ. ground (arith, free))
              (ground (arith, not_null p h s at v)) (ground (arith, not_null p h s at v))
              (λ q. ground arith) v)
      | inr taken ↦ rw taken v
    ]

    pub uninstall-Inv :
        (p : Ptr) (h : IoHandler) (s : Process)
        → s.handlers p ≡ some h
        → Inv s
        → Inv (uninstall_signal_handlers os p h s)
    unfolding uninstall_signal_handlers sigaction
    uninstall-Inv p h s at v = elim (Bool-cases h.signals_installed) [
      | inl here ↦
          rw (here, works s.calls, works (suc s.calls))
            (replace-Inv p (some (record h { signals_installed = false })) 0 h.saved_sigint
              h.saved_sigterm (suc (suc s.calls)) _ s (not_null p h s at v)
              ((here-HandlerInv p h s at v).0, λ on. cc) refl
              (λ q differ. ground (arith, at, here, v.flags p, differ))
              (((here-HandlerInv p h s at v).1 here).1) (((here-HandlerInv p h s at v).1 here).2)
              (λ q. refl) v)
      | inr not_here ↦ rw not_here v
    ]
