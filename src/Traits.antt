-- ===== src/Traits.antt =====
-- include/talon/async_io_traits.hpp, and the checks of `CreateTaskWithHandler` of
-- include/talon/async_io_task.hpp: which handlers the library takes, decided by the compiler.
pub mod Acceptance
use async_io.Prelude.{
  ℕ, ◌+◌, Bool, true, false, Option, none, some, List, [], ◌∷◌, ◌==◌, length, if◌then◌else◌,
}

-- The compiler's types: `std::decay_t`, `std::is_same_v`, and `KernelBuf*`.
pub record Types : Type 1 where
  pub Ty : Type 0
  pub decay : Ty → Ty
  pub is_same : Ty → Ty → Bool
  pub kernel_buf_ptr : Ty
  pub void : Ty

-- What stands behind the parameter list of a member function; `other` is `volatile` or a `&`.
pub data Qualifier : Type 0 where
  plain const other : Qualifier

module _ (k : Types) where
  open k use {Ty, decay, is_same, kernel_buf_ptr, void}

  -- `R(Args...)`, with `noexcept` or not, which is part of the type since C++17.
  pub record Signature : Type 0 where
    pub return_type : Ty
    pub args : List Ty
    pub is_noexcept : Bool

  -- A decayed callable type. `call_operator` is the type of `&T::operator()`: `none` where the class
  -- has no such member, has it overloaded, or has it as a template. `object` is no callable type.
  pub data Callable : Type 0 where
    function_pointer : Signature → Callable
    std_function : (return_type : Ty) (args : List Ty) → Callable
    member_function : Qualifier → Signature → Callable
    functor : (call_operator : Option (Qualifier × Signature)) → Callable
    object : Callable

  pub record FunctionTraits : Type 0 where
    pub return_type : Ty
    pub args_tuple : List Ty
    pub arg_count : ℕ

  abbrev pub traits_of : Ty → List Ty → FunctionTraits
  traits_of r args = record { return_type = r; args_tuple = args; arg_count = length args }

  -- The members of every specialisation; none is for a `noexcept` signature.
  abbrev pub signature_traits : Signature → Option FunctionTraits
  signature_traits s = if s.is_noexcept then none else some (traits_of s.return_type s.args)

  -- The specialisations for `R (ClassType::*)(Args...)` and `R (ClassType::*)(Args...) const`.
  unfoldable pub member_traits : Qualifier → Signature → Option FunctionTraits
  member_traits Qualifier.plain s = signature_traits s
  member_traits Qualifier.const s = signature_traits s
  member_traits Qualifier.other s = none

  -- `none`: the program does not compile. A pointer that no specialisation fits is left to the
  -- primary template, and has no `operator()`.
  unfoldable pub function_traits : Callable → Option FunctionTraits
  function_traits (function_pointer s) = signature_traits s
  function_traits (std_function r args) = some (traits_of r args)
  function_traits (member_function q s) = member_traits q s
  function_traits (functor none) = none
  function_traits (functor (some (q, s))) = member_traits q s
  function_traits object = none

  -- `detail::SplitArgs`
  unfoldable pub split_args : List Ty → Option (List Ty)
  split_args [] = none
  split_args (first ∷ rest) = some rest

  -- `std::tuple_element_t<0, Tuple>`
  unfoldable pub first_arg : List Ty → Option Ty
  first_arg [] = none
  first_arg (first ∷ rest) = some first

  unfoldable pub check_first : FunctionTraits → Option Ty → Option Ty
  check_first traits none = none
  check_first traits (some first) =
      if is_same (decay first) kernel_buf_ptr then some traits.return_type else none

  -- The two assertions, with `bound` arguments after the handler.
  unfoldable pub check_traits : (bound : ℕ) → Option FunctionTraits → Option Ty
  check_traits bound none = none
  check_traits bound (some traits) =
      if traits.arg_count == bound + 1
      then check_first traits (first_arg traits.args_tuple)
      else none

  -- `CreateTaskWithHandler(fd, func, args...)`: the `Ret` of the task that it makes. `none`: the traits
  -- or an assertion fail. What `std::bind` asks of the handler in addition is left out.
  unfoldable pub task_return_type : (bound : ℕ) → Callable → Option Ty
  task_return_type bound f = check_traits bound (function_traits f)

  -- `CreateTaskWithHandler(fd)`, with the empty handler.
  abbrev pub default_return_type : Option Ty
  default_return_type = some void
