-- ===== src/Traits/Acceptance.antt =====
-- Which handlers pass the checks of `CreateTaskWithHandler`, by their signature.
use async_io.Prelude.{
  ℕ, ◌+◌, ◌≡◌, ◌↔◌, refl, subst, inl, inr, true, false, Option, none, some, List, [], ◌∷◌, ◌==◌,
  length, Bool-cases, arith,
}
use async_io.Traits.{
  Types, Signature, Callable, Qualifier, FunctionTraits, traits_of, signature_traits,
  function_traits, member_traits, first_arg, check_first, check_traits, task_return_type,
}

module _ (k : Types) where
  open k use {Ty, decay, is_same, kernel_buf_ptr}

  abbrev pub SignatureIs : Signature k → Ty → List Ty → Type 0
  SignatureIs s r args = (s.return_type ≡ r) × (s.args ≡ args) × (s.is_noexcept ≡ false)

  -- The callable is one that the traits know, of the signature `r(args...)`.
  abbrev pub IsCallableAs : Callable k → Ty → List Ty → Type 0
  IsCallableAs (Callable.function_pointer s) r args = SignatureIs s r args
  IsCallableAs (Callable.std_function r' args') r args = (r' ≡ r) × (args' ≡ args)
  IsCallableAs (Callable.member_function Qualifier.plain s) r args = SignatureIs s r args
  IsCallableAs (Callable.member_function Qualifier.const s) r args = SignatureIs s r args
  IsCallableAs (Callable.functor (some (Qualifier.plain, s))) r args = SignatureIs s r args
  IsCallableAs (Callable.functor (some (Qualifier.const, s))) r args = SignatureIs s r args
  IsCallableAs _ r args = ⊥

  -- A handler that takes the buffer first, and then `bound` arguments.
  abbrev pub IsHandler : (bound : ℕ) → Callable k → Ty → Type 0
  IsHandler bound f r =
      (first : Ty) × (rest : List Ty) × IsCallableAs f r (first ∷ rest)
      × (is_same (decay first) kernel_buf_ptr ≡ true)
      × (length rest ≡ bound)

  signature_traits_of :
      (s : Signature k) (r : Ty) (args : List Ty)
      → SignatureIs s r args
      → signature_traits k s ≡ some (traits_of k r args)
  signature_traits_of s r args h = rw (h.2, h.1, h.0) refl

  function_traits_of :
      (f : Callable k) (r : Ty) (args : List Ty)
      → IsCallableAs f r args
      → function_traits k f ≡ some (traits_of k r args)
  unfolding function_traits member_traits
  function_traits_of (Callable.function_pointer s) r args h = signature_traits_of s r args h
  function_traits_of (Callable.std_function r' args') r args h = rw (h.0, h.1) refl
  function_traits_of (Callable.member_function Qualifier.plain s) r args h =
      signature_traits_of s r args h
  function_traits_of (Callable.member_function Qualifier.const s) r args h =
      signature_traits_of s r args h
  function_traits_of (Callable.member_function Qualifier.other s) r args h = elim h [ ]
  function_traits_of (Callable.functor none) r args h = elim h [ ]
  function_traits_of (Callable.functor (some (Qualifier.plain, s))) r args h =
      signature_traits_of s r args h
  function_traits_of (Callable.functor (some (Qualifier.const, s))) r args h =
      signature_traits_of s r args h
  function_traits_of (Callable.functor (some (Qualifier.other, s))) r args h = elim h [ ]
  function_traits_of Callable.object r args h = elim h [ ]

  -- The callable has a signature, and these are its traits.
  abbrev Known : Callable k → FunctionTraits k → Type 0
  Known f x = IsCallableAs f x.return_type x.args_tuple × (x.arg_count ≡ length x.args_tuple)

  signature_of_traits :
      (s : Signature k) (x : FunctionTraits k)
      → signature_traits k s ≡ some x
      → SignatureIs s x.return_type x.args_tuple × (x.arg_count ≡ length x.args_tuple)
  signature_of_traits s x e = elim (Bool-cases s.is_noexcept) [
    | inl nothrow ↦ ground (arith, nothrow, e)
    | inr throws ↦
        let same : traits_of k s.return_type s.args ≡ x = ground (arith, throws, e) in
        subst
          (λ (y : FunctionTraits k).
            SignatureIs s y.return_type y.args_tuple × (y.arg_count ≡ length y.args_tuple))
          same ((refl, refl, throws), refl)
  ]

  callable_of_traits :
      (f : Callable k) (x : FunctionTraits k) → function_traits k f ≡ some x → Known f x
  unfolding function_traits member_traits
  callable_of_traits (Callable.function_pointer s) x e = signature_of_traits s x e
  callable_of_traits (Callable.std_function r' args') x e =
      let same : traits_of k r' args' ≡ x = cc in
      subst (Known (Callable.std_function r' args')) same ((refl, refl), refl)
  callable_of_traits (Callable.member_function Qualifier.plain s) x e = signature_of_traits s x e
  callable_of_traits (Callable.member_function Qualifier.const s) x e = signature_of_traits s x e
  callable_of_traits (Callable.member_function Qualifier.other s) x e = cc
  callable_of_traits (Callable.functor none) x e = cc
  callable_of_traits (Callable.functor (some (Qualifier.plain, s))) x e = signature_of_traits s x e
  callable_of_traits (Callable.functor (some (Qualifier.const, s))) x e = signature_of_traits s x e
  callable_of_traits (Callable.functor (some (Qualifier.other, s))) x e = cc
  callable_of_traits Callable.object x e = cc

  abbrev IsTaken : (bound : ℕ) → Ty → Callable k → FunctionTraits k → Type 0
  IsTaken bound r f x = check_traits k bound (some x) ≡ some r → Known f x → IsHandler bound f r

  handler_of_check :
      (bound : ℕ) (r r' : Ty) (args : List Ty) (n : ℕ) (f : Callable k)
      → IsTaken bound r f (record { return_type = r'; args_tuple = args; arg_count = n })
  unfolding check_traits check_first first_arg
  handler_of_check bound r r' [] n f e h = elim (Bool-cases (n == bound + 1)) [
    | inl fits ↦ ground (arith, fits, e)
    | inr off ↦ ground (arith, off, e)
  ]
  handler_of_check bound r r' (first ∷ rest) n f e h =
      let asks : (is_same (decay first) kernel_buf_ptr ≡ true) × (r' ≡ r) × (n ≡ bound + 1) =
        ground (arith, e) in
      (
        first,
        rest,
        subst (λ (u : Ty). IsCallableAs f u (first ∷ rest)) asks.1 h.0,
        asks.0,
        ground (arith, h.1, asks.2),
      )

  taken_of_traits :
      (bound : ℕ) (r : Ty) (f : Callable k) (found : Option (FunctionTraits k))
      → function_traits k f ≡ found
      → check_traits k bound found ≡ some r
      → IsHandler bound f r
  unfolding check_traits
  taken_of_traits bound r f none e h = cc
  taken_of_traits bound r f (some x) e h =
      handler_of_check bound r x.return_type x.args_tuple x.arg_count f h (callable_of_traits f x e)

  traits_of_taken :
      (bound : ℕ) (r : Ty) (f : Callable k)
      → IsHandler bound f r
      → check_traits k bound (function_traits k f) ≡ some r
  unfolding check_traits check_first first_arg
  traits_of_taken bound r f (first, rest, known, buffer, count) =
      rw (function_traits_of f r (first ∷ rest) known) (ground (arith, buffer, count))

  -- `CreateTaskWithHandler(fd, func, args...)` passes its two checks, with a task of return type
  -- `r`, exactly when `func` is a function pointer, a `std::function`, a member function or an object
  -- with one `operator()`, the signature not `noexcept`, that returns `r`, takes `KernelBuf*` first
  -- (up to decay), and then one parameter for each of the `args`.
  pub task_return_type_iff :
      (bound : ℕ) (f : Callable k) (r : Ty)
      → (task_return_type k bound f ≡ some r) ↔ IsHandler bound f r
  unfolding task_return_type
  task_return_type_iff bound f r =
      (taken_of_traits bound r f (function_traits k f) refl, traits_of_taken bound r f)
