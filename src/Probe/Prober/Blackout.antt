-- ===== src/Probe/Prober/Blackout.antt =====
-- internal/probe/probe_unix.go: when `Run` gives up. The TCP prober counts in the same way.
use dropline.Prelude.{
  ℕ, zero, suc, ◌+◌, ◌≤◌, ◌⊎◌, ◌↔◌, List, [], ◌∷◌, ◌++◌, Bool, true, false, none, ◌≡◌, refl, sym,
  ap, ◌∙◌, arith, leb, leb→le, leb-false, Bool-cases, inl, inr,
}
use dropline.Probe.Prober.{copies, after_sweep, first_sweep, run_sweeps, run_loop}

-- Six sweeps in a row failed.
abbrev pub IsBlackout : List Bool → Type 0
IsBlackout sweeps =
    (before : List Bool) × (behind : List Bool) × (sweeps ≡ before ++ (copies 6 true ++ behind))

abbrev Starts : ℕ → List Bool → Type 0
Starts k sweeps = (behind : List Bool) × (sweeps ≡ copies k true ++ behind)

run_loop-eq : (sweeps : List Bool) → run_loop sweeps ≡ run_sweeps 0 sweeps
unfolding run_loop run_sweeps after_sweep first_sweep
run_loop-eq [] = refl
run_loop-eq (true ∷ sweeps) = refl
run_loop-eq (false ∷ sweeps) = refl

one_more : (x : Bool) (sweeps : List Bool) → IsBlackout sweeps → IsBlackout (x ∷ sweeps)
one_more x sweeps (before, behind, e) = (x ∷ before, behind, ap (◌∷◌ x) e)

good_sweep : (c : ℕ) (sweeps : List Bool) → run_sweeps c (false ∷ sweeps) ≡ run_sweeps 0 sweeps
unfolding run_sweeps after_sweep
good_sweep c sweeps = refl

bad_sweep :
    (c : ℕ) (sweeps : List Bool) → c ≤ 4 → run_sweeps c (true ∷ sweeps) ≡ run_sweeps (c + 1) sweeps
unfolding run_sweeps after_sweep
bad_sweep c sweeps h = ground arith

last_sweep : (c : ℕ) (sweeps : List Bool) → 5 ≤ c → run_sweeps c (true ∷ sweeps) ≡ none
unfolding run_sweeps after_sweep
last_sweep c sweeps h = ground arith

-- The error comes after as many failures as are left to the threshold, or after six later on.
reports :
    (c k : ℕ) (sweeps : List Bool)
    → c + k ≡ 6
    → 1 ≤ k
    → run_sweeps c sweeps ≡ none
    → Starts k sweeps ⊎ IsBlackout sweeps
unfolding copies
reports c k [] e some_left h = unfold run_sweeps in cc
reports c k (false ∷ sweeps) e some_left h =
    elim (reports 0 6 sweeps refl (omega arith) (sym (good_sweep c sweeps) ∙ h)) [
      | inl (behind, now) ↦ inr (one_more false sweeps ([], behind, now))
      | inr later ↦ inr (one_more false sweeps later)
    ]
reports c zero (true ∷ sweeps) e some_left h = absurd (omega arith)
reports c (suc zero) (true ∷ sweeps) e some_left h = inl (sweeps, refl)
reports c (suc (suc k)) (true ∷ sweeps) e some_left h =
    elim (reports (c + 1) (suc k) sweeps (omega arith) (omega arith)
      (sym (bad_sweep c sweeps (omega arith)) ∙ h)) [
        | inl (behind, now) ↦ inl (behind, ap (◌∷◌ true) now)
        | inr later ↦ inr (one_more true sweeps later)
      ]

in_row :
    (c k : ℕ) (behind : List Bool)
    → 6 ≤ c + k
    → 1 ≤ k
    → c ≤ 5
    → run_sweeps c (copies k true ++ behind) ≡ none
unfolding copies
in_row c zero behind e h le = absurd (omega arith)
in_row c (suc zero) behind e h le = last_sweep c behind (omega arith)
in_row c (suc (suc k)) behind e h le = elim (Bool-cases (leb 5 c)) [
  | inl full ↦ last_sweep c (copies (suc k) true ++ behind) (leb→le 5 c full)
  | inr room ↦
      let r = leb-false 5 c room in
      bad_sweep c (copies (suc k) true ++ behind) (omega arith)
      ∙ in_row (c + 1) (suc k) behind (omega arith) (omega arith) (omega arith)
]

any_row :
    (c : ℕ) (before behind : List Bool)
    → c ≤ 5
    → run_sweeps c (before ++ (copies 6 true ++ behind)) ≡ none
any_row c [] behind h = in_row c 6 behind (omega arith) (omega arith) h
any_row c (false ∷ before) behind h =
    good_sweep c (before ++ (copies 6 true ++ behind)) ∙ any_row 0 before behind (omega arith)
any_row c (true ∷ before) behind h = elim (Bool-cases (leb 5 c)) [
  | inl full ↦ last_sweep c (before ++ (copies 6 true ++ behind)) (leb→le 5 c full)
  | inr room ↦
      let r = leb-false 5 c room in
      bad_sweep c (before ++ (copies 6 true ++ behind)) (omega arith)
      ∙ any_row (c + 1) before behind (omega arith)
]

-- `Run` returns its error over a series of sweeps exactly if six of them in a row failed in every
-- send: a blackout of any other shape never ends a prober, and such a one always does.
pub run_loop_iff : (sweeps : List Bool) → (run_loop sweeps ≡ none) ↔ IsBlackout sweeps
run_loop_iff sweeps = (
  λ h. elim (reports 0 6 sweeps refl (omega arith) (sym (run_loop-eq sweeps) ∙ h)) [
    | inl (behind, now) ↦ ([], behind, now)
    | inr later ↦ later
  ],
  λ (before, behind, e).
      run_loop-eq sweeps ∙ ap (run_sweeps 0) e ∙ any_row 0 before behind (omega arith),
)
