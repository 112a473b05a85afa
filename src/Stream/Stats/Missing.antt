-- ===== src/Stream/Stats/Missing.antt =====
-- The sequence numbers below a bound that a list leaves out: what internal/stream/stats.go means
-- by a lost packet.
use native.Mathlib.Nat.{suc-add}
use dropline.Prelude.{
  ℕ, zero, suc, ◌+◌, ◌-◌, ◌≤◌, ◌<◌, List, [], ◌∷◌, contains, ◌==◌, if◌then◌else◌, ◌≡◌, refl, ap,
  ◌∙◌, false, arith, All, inl, inr, Bool-cases,
}

abbrev pub missing : ℕ → List ℕ → ℕ
missing zero xs = 0
missing (suc n) xs = missing n xs + (if contains n xs then 0 else 1)

abbrev pub Below : ℕ → List ℕ → Type 0
Below n = All (λ x. x < n)

pub Below-mono : {m n : ℕ} (xs : List ℕ) → m ≤ n → Below m xs → Below n xs
Below-mono [] h b = tt
Below-mono (x ∷ xs) h b = (omega arith, Below-mono xs h b.1)

pub contains_above : (n : ℕ) (xs : List ℕ) → Below n xs → (m : ℕ) → n ≤ m → contains m xs ≡ false
unfolding contains
contains_above n [] b m h = refl
contains_above n (x ∷ xs) b m h = ground (arith, contains_above n xs b.1 m h, b.0)

-- A number that is not below the bound does not count.
missing-cons_above : (n x : ℕ) (xs : List ℕ) → n ≤ x → missing n (x ∷ xs) ≡ missing n xs
unfolding contains
missing-cons_above zero x xs h = refl
missing-cons_above (suc n) x xs h = ground (arith, missing-cons_above n x xs (omega arith))

-- A fresh number below the bound is one less to miss.
pub missing-cons :
    (n x : ℕ) (xs : List ℕ) → x < n → contains x xs ≡ false → missing n (x ∷ xs) + 1 ≡ missing n xs
unfolding contains
missing-cons zero x xs h f = absurd (omega arith)
missing-cons (suc n) x xs h f = elim (Bool-cases (x == n)) [
  | inl e ↦ ground (arith, missing-cons_above n x xs (ground arith), f)
  | inr e ↦ ground (arith, missing-cons n x xs (ground arith) f)
]

pub missing-nil : (n : ℕ) → missing n [] ≡ n
unfolding contains
missing-nil zero = refl
missing-nil (suc n) = omega (arith, missing-nil n)

-- Raising the bound over numbers that the list does not reach misses them all.
pub missing-add : (k n : ℕ) (xs : List ℕ) → Below n xs → missing (k + n) xs ≡ missing n xs + k
missing-add zero n xs b = ground arith
missing-add (suc k) n xs b =
    rw suc-add (ground (arith, missing-add k n xs b, contains_above n xs b (k + n) (omega arith)))

pub missing-raise :
    (m n : ℕ) (xs : List ℕ) → n ≤ m → Below n xs → missing m xs ≡ missing n xs + (m - n)
missing-raise m n xs h b =
    let e : m ≡ m - n + n = omega arith in
    ap (λ (k : ℕ). missing k xs) e ∙ missing-add (m - n) n xs b

-- A fresh number from the bound on moves the bound behind it: what lies between is missed.
pub missing-append :
    (n x : ℕ) (xs : List ℕ) → n ≤ x → Below n xs → missing (x + 1) (x ∷ xs) ≡ missing n xs + (x - n)
missing-append n x xs h b = omega (
  arith,
  missing-cons (x + 1) x xs (omega arith) (contains_above n xs b x h),
  missing-raise (x + 1) n xs (omega arith) b,
)
