-- ===== src/Tests/Handlers.antt =====
-- The types of a few handlers.
use async_io.Prelude.{ℕ, ◌≡◌, ◌↔◌, refl, true, false, some, none, [], ◌∷◌, ◌==◌, if◌then◌else◌}
use async_io.Traits.{
  Types, Callable, Qualifier, function_traits, member_traits, check_traits, check_first, first_arg,
  task_return_type,
}
use async_io.Traits.Acceptance.{IsHandler, task_return_type_iff}

-- `void`, `KernelBuf*`, `int`; `KernelBuf* const&` decays to the second.
abbrev types : Types
types = record {
  Ty = ℕ;
  decay = λ t. if t == 101 then 1 else t;
  is_same = λ a b. a == b;
  kernel_buf_ptr = 1;
  void = 0;
}

abbrev lambda : Callable types
lambda =
    Callable.functor
      (some (Qualifier.const, record { return_type = 0; args = 101 ∷ 2 ∷ []; is_noexcept = false }))

abbrev nothrow_function : Callable types
nothrow_function =
    Callable.function_pointer (record { return_type = 0; args = 1 ∷ []; is_noexcept = true })

lambda_taken : task_return_type types 1 lambda ≡ some 0
unfolding task_return_type function_traits member_traits check_traits check_first first_arg
lambda_taken = refl

lambda_unbound : task_return_type types 0 lambda ≡ none
unfolding task_return_type function_traits member_traits check_traits check_first first_arg
lambda_unbound = refl

nothrow_refused : task_return_type types 0 nothrow_function ≡ none
unfolding task_return_type function_traits member_traits check_traits check_first first_arg
nothrow_refused = refl

task_return_type_iff_example :
    (task_return_type types 1 lambda ≡ some 0) ↔ IsHandler types 1 lambda 0
task_return_type_iff_example = task_return_type_iff types 1 lambda 0
