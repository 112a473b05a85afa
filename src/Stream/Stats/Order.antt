-- ===== src/Stream/Stats/Order.antt =====
-- The counters of internal/stream/stats.go do not depend on the order in which packets arrive.
use mathlib.Core.List.{Perm, Permᴰ}
use mathlib.Core.Logic.{∥∥₁_elim}
use dropline.Prelude.{
  ℕ, ◌+◌, ◌≤◌, List, [], ◌∷◌, length, contains, ◌≡◌, refl, sym, ap, ◌∙◌, arith, All,
}
use dropline.Stream.Stats.{max_acceptable_gap, max_seen_entries}
use dropline.Stream.Stats.Missing.{missing}
use dropline.Stream.Stats.Conservation.{received}
use dropline.Stream.Stats.Reference.{span, missing-eq, reference}

-- What `reference` reads of a list.
record SameContents (xs ys : List ℕ) : Type 0 where
  spans : span xs ≡ span ys
  lengths : length xs ≡ length ys
  contents : (s : ℕ) → contains s xs ≡ contains s ys

SameContents-prop : {xs ys : List ℕ} → IsProp (SameContents xs ys)
SameContents-prop = hlevel

Permᴰ-SameContents : {xs ys : List ℕ} → Permᴰ xs ys → SameContents xs ys
unfolding contains
Permᴰ-SameContents Permᴰ.nil = record { spans = refl; lengths = refl; contents = λ s. refl }
Permᴰ-SameContents (Permᴰ.cons e p) =
    let c = Permᴰ-SameContents p in
    record {
      spans = omega (arith, c.spans);
      lengths = omega (arith, c.lengths);
      contents = λ s. ground (arith, e, c.contents s);
    }
Permᴰ-SameContents (Permᴰ.swap e f) = record {
  spans = omega arith;
  lengths = omega arith;
  contents = λ s. ground (arith, e, f);
}
Permᴰ-SameContents (Permᴰ.trans p q) =
    let c = Permᴰ-SameContents p in
    let d = Permᴰ-SameContents q in
    record {
      spans = c.spans ∙ d.spans;
      lengths = c.lengths ∙ d.lengths;
      contents = λ s. c.contents s ∙ d.contents s;
    }

Perm-SameContents : {xs ys : List ℕ} → Perm xs ys → SameContents xs ys
Perm-SameContents p = ∥∥₁_elim p SameContents-prop Permᴰ-SameContents

span-le : (k : ℕ) (xs : List ℕ) → All (λ s. s ≤ k) xs → span xs ≤ k + 1
span-le k [] h = omega arith
span-le k (x ∷ xs) (h, hs) = omega (arith, span-le k xs hs)

All-of_span : (k : ℕ) (xs : List ℕ) → span xs ≤ k + 1 → All (λ s. s ≤ k) xs
All-of_span k [] h = tt
All-of_span k (x ∷ xs) h = (omega arith, All-of_span k xs (omega arith))

-- Two arrivals of the same packets in different orders (at most 2 ^ 18, with sequence numbers up to
-- 2 ^ 20) end in the same `recv`, `lost`, `duplicates` and `expectedSeq`.
pub order_free :
    (xs ys : List ℕ)
    → Perm xs ys
    → length xs ≤ max_seen_entries
    → All (λ s. s ≤ max_acceptable_gap) xs
    → ((received xs).recv ≡ (received ys).recv)
      × ((received xs).lost ≡ (received ys).lost)
      × ((received xs).duplicates ≡ (received ys).duplicates)
      × ((received xs).expected_seq ≡ (received ys).expected_seq)
order_free xs ys p room ok =
    let c = Perm-SameContents p in
    let a = reference xs room ok in
    let b = reference ys (omega (arith, c.lengths)) (
      All-of_span max_acceptable_gap ys
        (omega (arith, c.spans, span-le max_acceptable_gap xs ok))) in
    let same : missing (span xs) xs ≡ missing (span ys) ys =
      ap (λ n. missing n xs) c.spans ∙ missing-eq (span ys) xs ys c.contents in
    let recvs : (received xs).recv ≡ (received ys).recv = omega (arith, a.2, b.2, same, c.spans) in
    (
      recvs,
      a.1 ∙ same ∙ sym b.1,
      omega (arith, a.3, b.3, recvs, c.lengths),
      a.0 ∙ c.spans ∙ sym b.0,
    )
