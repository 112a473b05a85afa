-- ===== src/Examples/Numbers.antt =====
-- Whole numbers in the place of the floats: operations that compute, with the order of the integers.
use dropline.Prelude.{◌≡◌, true, false, arith}
use dropline.Prelude.Int.{ℤ, ltb_ℤ, ◌+ℤ◌, ◌-ℤ◌, ◌/ℤ◌}
use dropline.Prelude.Floats.{Floats}

abbrev pub numbers : Floats ℤ
numbers = record {
  of_int = λ n. n;
  add = λ a b. a +ℤ b;
  sub = λ a b. a -ℤ b;
  mul = λ a b. a;
  div = λ a b. a /ℤ b;
  lt = λ a b. ltb_ℤ a b;
  sqrt = λ a. a;
  floor = λ a. a;
  ceil = λ a. a;
}

pub ltb_ℤ-asym : (a b : ℤ) → ltb_ℤ a b ≡ true → ltb_ℤ b a ≡ false
ltb_ℤ-asym a b h = ground arith

pub ltb_ℤ-irrefl : (a : ℤ) → ltb_ℤ a a ≡ false
ltb_ℤ-irrefl a = ground arith

pub ltb_ℤ-trans : (a b c : ℤ) → ltb_ℤ a b ≡ true → ltb_ℤ b c ≡ true → ltb_ℤ a c ≡ true
ltb_ℤ-trans a b c h g = ground arith
