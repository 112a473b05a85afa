-- ===== src/Trace/Args/Rates.antt =====
-- cmd/dropline/trace.go: the rates that `parseRate` answers.
use dropline.Prelude.{
  ℕ, ◌+◌, ◌-◌, ◌*◌, ◌/◌, ◌%◌, ◌^◌, ◌≤◌, ◌<◌, [], ◌∷◌, Option, none, some, ltb, ◌==◌, ◌≡◌, reverse,
  arith, Bool-cases, some_eq, inl, inr,
}
use native.Mathlib.Nat.{mod-add-div'}
use dropline.Trace.Texts.{Text, trim_space}
use dropline.Trace.Args.{mult_of, rate_of, parse_suffixed, parse_rate}

mult_of-pos : (c : ℕ) → 0 < mult_of c
unfolding mult_of
mult_of-pos c = ground arith

mul_mono : (a b c d : ℕ) → a ≤ b → c ≤ d → a * c ≤ b * d
mul_mono a b c d h k = grind arith

in_int64 : (n m : ℕ) → 0 < m → 0 < n → n ≤ (2 ^ 63 - 1) / m → (0 < n * m) × (n * m < 2 ^ 63)
in_int64 n m k h le =
    let max = 2 ^ 63 - 1 in
    let whole : max % m + max / m * m ≡ max = mod-add-div' max m in
    let upto = mul_mono n (max / m) m m le (omega arith) in
    let some_rate = mul_mono 1 n 1 m h k in (omega arith, omega arith)

rate_of_bounds : (o : Option ℕ) (m r : ℕ) → 0 < m → rate_of o m ≡ some r → (0 < r) × (r < 2 ^ 63)
unfolding rate_of
rate_of_bounds none m r k h = cc
rate_of_bounds (some n) m r k h = elim (Bool-cases (n == 0)) [
  | inl zero_rate ↦ absurd (ground arith)
  | inr some_rate ↦ elim (Bool-cases (ltb ((2 ^ 63 - 1) / m) n)) [
    | inl over ↦ absurd (ground arith)
    | inr fits ↦
        let same : n * m ≡ r = some_eq (ground arith) in
        let (lo, hi) = in_int64 n m k (ground arith) (ground arith) in (omega arith, omega arith)
  ]
]

parse_suffixed_bounds : (s : Text) (r : ℕ) → parse_suffixed s ≡ some r → (0 < r) × (r < 2 ^ 63)
unfolding parse_suffixed
parse_suffixed_bounds [] r h = cc
parse_suffixed_bounds (c ∷ cs) r h = rate_of_bounds _ (mult_of c) r (mult_of-pos c) h

-- A rate that is accepted is above 0 and within an int64.
pub parse_rate_bounds : (raw : Text) (r : ℕ) → parse_rate raw ≡ some r → (0 < r) × (r < 2 ^ 63)
unfolding parse_rate
parse_rate_bounds raw r h = parse_suffixed_bounds (reverse (trim_space raw)) r h
