-- ===== src/Descriptors/Base58/Radix.antt =====
-- What division by a base is: the facts on a digit that the digits of a number need, at the two bases.
use tallykeep.Prelude.{ℕ, ◌+◌, ◌*◌, ◌/◌, ◌%◌, ◌<◌, ◌≤◌, ◌≡◌, arith}

pub record IsRadix (base : ℕ) : Type 0 where
  pub split : (n : ℕ) → n / base * base + n % base ≡ n
  pub small : (n : ℕ) → n % base < base
  pub shrinks : (n : ℕ) → 0 < n → n / base < n
  pub high : (n d : ℕ) → d < base → (n * base + d) / base ≡ n
  pub low : (n d : ℕ) → d < base → (n * base + d) % base ≡ d
  pub grows : (n : ℕ) → n ≤ n * base

pub IsRadix-58 : IsRadix 58
IsRadix-58 = record {
  split = λ n. omega arith;
  small = λ n. omega arith;
  shrinks = λ n h. omega arith;
  high = λ n d h. omega arith;
  low = λ n d h. omega arith;
  grows = λ n. omega arith;
}

pub IsRadix-256 : IsRadix 256
IsRadix-256 = record {
  split = λ n. omega arith;
  small = λ n. omega arith;
  shrinks = λ n h. omega arith;
  high = λ n d h. omega arith;
  low = λ n d h. omega arith;
  grows = λ n. omega arith;
}
