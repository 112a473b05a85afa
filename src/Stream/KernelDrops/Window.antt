-- ===== src/Stream/KernelDrops/Window.antt =====
-- internal/stream/kerneldrops.go: what the sampler reports over a test.
use dropline.Prelude.{
  ℕ, ◌-◌, ◌≤◌, ◌<◌, ◌^◌, min, List, [], ◌∷◌, true, false, ltb, Option, none, some, ◌≡◌, refl, sym,
  ap, ◌∙◌, arith, Bool-cases, inl, inr, All,
}
use dropline.Prelude.Int.{ℤ, pos, ltb_ℤ, ◌-ℤ◌}
use dropline.Prelude.Words.{wrap_i64, to_u64, to_i64}
use dropline.Stream.KernelDrops.{
  BaselineSampler, new_baseline_sampler, report_of, sample, sample_all,
}

-- Readings of a counter that is not negative.
abbrev pub readings : List (Option ℕ) → List (Option ℤ)
readings [] = []
readings (none ∷ ns) = none ∷ readings ns
readings (some n ∷ ns) = some (pos n) ∷ readings ns

-- The lowest reading, from one on, and the last.
abbrev pub least : ℕ → List (Option ℕ) → ℕ
least m [] = m
least m (none ∷ ns) = least m ns
least m (some n ∷ ns) = least (min m n) ns

abbrev pub latest : ℕ → List (Option ℕ) → ℕ
latest l [] = l
latest l (none ∷ ns) = latest l ns
latest l (some n ∷ ns) = latest n ns

abbrev pub Fits : Option ℕ → Type 0
Fits none = Unit {0}
Fits (some n) = n < 2 ^ 63

abbrev anchored : ℕ → BaselineSampler
anchored m = record { baseline = pos m; ready = true }

report_fell : (m n : ℕ) → n < m → report_of (anchored m) (pos n) ≡ (anchored n, pos 0)
unfolding report_of
report_fell m n h = let t : ltb_ℤ (pos n) (pos m) ≡ true = ground arith in rw t refl

small : (m n : ℕ) → m ≤ n → n < 2 ^ 63 → wrap_i64 (pos n -ℤ pos m) ≡ pos (n - m)
unfolding wrap_i64 to_u64 to_i64 ◌-ℤ◌
small m n h k = ground arith

report_rose :
    (m n : ℕ) → m ≤ n → n < 2 ^ 63 → report_of (anchored m) (pos n) ≡ (anchored m, pos (n - m))
unfolding report_of
report_rose m n h k =
    let t : ltb_ℤ (pos n) (pos m) ≡ false = ground arith in
    rw t (ap (λ (z : ℤ). (anchored m, z)) (small m n h k))

report_anchored :
    (m n : ℕ)
    → n < 2 ^ 63
    → report_of (anchored m) (pos n) ≡ (anchored (min m n), pos (n - min m n))
report_anchored m n k = elim (Bool-cases (ltb n m)) [
  | inl fell ↦
      let low : min m n ≡ n = ground arith in
      let none_left : 0 ≡ n - min m n = ground arith in
      report_fell m n (ground arith)
      ∙ ap (λ (r : ℕ). (anchored n, pos r)) none_left
      ∙ ap (λ (r : ℕ). (anchored r, pos (n - min m n))) (sym low)
  | inr rose ↦
      let low : min m n ≡ m = ground arith in
      report_rose m n (ground arith) k ∙ ap (λ (r : ℕ). (anchored r, pos (n - r))) (sym low)
]

sample_all-step :
    (b : BaselineSampler) (x z : ℤ) (rs : List (Option ℤ))
    → sample_all b x (some z ∷ rs) ≡ sample_all (report_of b z).0 (report_of b z).1 rs
unfolding sample_all sample
sample_all-step b x z rs = refl

sample_all-anchored :
    (m l : ℕ) (ns : List (Option ℕ))
    → m ≤ l
    → All Fits ns
    → sample_all (anchored m) (pos (l - m)) (readings ns)
      ≡ (anchored (least m ns), pos (latest l ns - least m ns))
unfolding sample_all sample
sample_all-anchored m l [] le k = refl
sample_all-anchored m l (none ∷ ns) le (_, k) = sample_all-anchored m l ns le k
sample_all-anchored m l (some n ∷ ns) le (f, k) =
    sample_all-step (anchored m) (pos (l - m)) (pos n) (readings ns)
    ∙ ap (λ (p : BaselineSampler × ℤ). sample_all p.0 p.1 (readings ns)) (report_anchored m n f)
    ∙ sample_all-anchored (min m n) n ns (ground arith) k

first :
    (n : ℕ) (ns : List (Option ℕ))
    → sample_all new_baseline_sampler (pos 0) (some (pos n) ∷ readings ns)
      ≡ sample_all (anchored n) (pos 0) (readings ns)
unfolding sample_all sample report_of
first n ns = refl

-- What the sampler reports over a test, of readings of a counter that is an int64 and not negative,
-- with errors in between: behind the first reading, its last report is that by which the last
-- reading is above the lowest one so far, whenever the counter was reset; so no report is negative,
-- and what was counted before the test is in none.
pub sample_all_lem :
    (n : ℕ) (ns : List (Option ℕ))
    → All Fits ns
    → sample_all new_baseline_sampler (pos 0) (some (pos n) ∷ readings ns)
      ≡ (record { baseline = pos (least n ns); ready = true }, pos (latest n ns - least n ns))
sample_all_lem n ns k =
    let start : n - n ≡ 0 = omega arith in
    first n ns
    ∙ ap (λ (r : ℕ). sample_all (anchored n) (pos r) (readings ns)) (sym start)
    ∙ sample_all-anchored n n ns (omega arith) k
