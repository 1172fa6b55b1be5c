-- ===== src/Handler/Threads/Balance.antt =====
-- A count that goes up and down by one.
use async_io.Prelude.{
  ℕ, zero, suc, ◌+◌, ◌≡◌, ℤ, pos, negsuc, ◌≤ℤ◌, ◌<ℤ◌, suc_ℤ, pred_ℤ, pos_part, neg_part, arith,
}

-- The count `c` is `up` less `down`.
abbrev pub IsBalance : (c : ℤ) → (up down : ℕ) → Type 0
IsBalance c up down = pos_part c + down ≡ neg_part c + up

pub suc_ℤ-IsBalance :
    (c : ℤ) (up down : ℕ) → IsBalance c up down → IsBalance (suc_ℤ c) (suc up) down
suc_ℤ-IsBalance (pos n) up down h = omega (arith, h)
suc_ℤ-IsBalance (negsuc zero) up down h = omega (arith, h)
suc_ℤ-IsBalance (negsuc (suc n)) up down h = omega (arith, h)

pub pred_ℤ-IsBalance :
    (c : ℤ) (up down : ℕ) → IsBalance c up down → IsBalance (pred_ℤ c) up (suc down)
pred_ℤ-IsBalance (pos zero) up down h = omega (arith, h)
pred_ℤ-IsBalance (pos (suc n)) up down h = omega (arith, h)
pred_ℤ-IsBalance (negsuc n) up down h = omega (arith, h)

pub suc_ℤ-le : (a b : ℤ) → a <ℤ b → suc_ℤ a ≤ℤ b
suc_ℤ-le (pos n) b h = omega (arith, h)
suc_ℤ-le (negsuc zero) b h = omega (arith, h)
suc_ℤ-le (negsuc (suc n)) b h = omega (arith, h)

pub pred_ℤ-le : (a b : ℤ) → a ≤ℤ b → pred_ℤ a ≤ℤ b
pred_ℤ-le (pos zero) b h = omega (arith, h)
pred_ℤ-le (pos (suc n)) b h = omega (arith, h)
pred_ℤ-le (negsuc n) b h = omega (arith, h)
