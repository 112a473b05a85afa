-- ===== src/Probe/TcpProber/Ports.antt =====
-- internal/probe/probe_tcp_unix.go: `nextSrcPort` finds a free port if there is one.
use dropline.Prelude.{
  ℕ, zero, suc, ◌+◌, ◌-◌, ◌%◌, ◌^◌, ◌≤◌, ◌<◌, ◌≢◌, Option, none, some, ◌≡◌, sym, ap, subst, ◌∙◌,
  arith, leb, leb→le, leb-false, Bool-cases, Option-cases, inl, inr,
}
use native.Mathlib.Nat.{mod-lt, mod-eq_of_lt, mod-add-mod, add-mod_right}
use dropline.Prelude.Dict.{Dict, lookup}
use dropline.Probe.Flight.{Entry}
use dropline.Probe.TcpProber.{TcpProber, port_at, find_port, next_src_port}

module _ (base range : ℕ) (m : Dict Entry) where
  -- What a search from a cursor comes to: a port of the range that is free, or none, where the
  -- slots that it tried were all in flight.
  abbrev Found : ℕ → ℕ → Option ℕ → Type 0
  Found left cursor (some port) =
      (slot : ℕ) × (slot < range) × (port ≡ base + slot) × (lookup port m ≡ none)
  Found left cursor none = (i : ℕ) → i < left → lookup (port_at base range (cursor + i)) m ≢ none

  at_slot :
      (cursor : ℕ)
      → 0 < range
      → base + range ≤ 2 ^ 16
      → (cursor % range < range) × (port_at base range cursor ≡ base + cursor % range)
  unfolding port_at
  at_slot cursor h fit = let lt = mod-lt cursor h in (lt, mod-eq_of_lt (omega arith))

  Found-later :
      (left cursor : ℕ) (o : Option ℕ)
      → lookup (port_at base range cursor) m ≢ none
      → Found left (cursor + 1) o
      → Found (suc left) cursor o
  Found-later left cursor (some port) busy h = h
  Found-later left cursor none busy h = none_left
    where
      none_left : (i : ℕ) → i < suc left → lookup (port_at base range (cursor + i)) m ≢ none
      none_left zero lt =
          subst (λ (c : ℕ). lookup (port_at base range c) m ≢ none) (omega arith) busy
      none_left (suc i) lt =
          subst (λ (c : ℕ). lookup (port_at base range c) m ≢ none) (omega arith)
            (h i (omega arith))

  find_port-Found :
      (left cursor : ℕ)
      → 0 < range
      → base + range ≤ 2 ^ 16
      → cursor + left < 2 ^ 32
      → Found left cursor (find_port left base range cursor m).0
  unfolding find_port
  find_port-Found zero cursor h fit small = λ i lt. absurd (omega arith)
  find_port-Found (suc left) cursor h fit small =
      let (lt, at) = at_slot cursor h fit in
      let next : (cursor + 1) % 2 ^ 32 ≡ cursor + 1 = omega arith in
      elim (Option-cases (lookup (port_at base range cursor) m)) [
        | inl free ↦ rw (free, find_port) (cursor % range, lt, at, free)
        | inr (e, busy) ↦
            rw (busy, find_port, next)
              (Found-later left cursor (find_port left base range (cursor + 1) m).0 (ground arith)
                (find_port-Found left (cursor + 1) h fit (omega arith)))
      ]

  -- Every slot of the range is met within as many steps as it has slots.
  meets : (cursor slot : ℕ) → slot < range → (i : ℕ) × (i < range) × ((cursor + i) % range ≡ slot)
  meets cursor slot lt =
      let r = cursor % range in
      let r_lt = mod-lt cursor {m = range} (omega arith) in
      elim (Bool-cases (leb r slot)) [
        | inl ahead ↦ (
          slot - r,
          omega arith,
          sym (mod-add-mod cursor range (slot - r))
              ∙ ap (λ (n : ℕ). n % range) (let a = leb→le r slot ahead in omega arith)
              ∙ mod-eq_of_lt lt,
        )
        | inr behind ↦ (
          slot + range - r,
          (let b = leb-false r slot behind in omega arith),
          sym (mod-add-mod cursor range (slot + range - r))
              ∙ ap (λ (n : ℕ). n % range) (let b = leb-false r slot behind in omega arith)
              ∙ add-mod_right slot range
              ∙ mod-eq_of_lt lt,
        )
      ]

  -- A search over the whole range, where some slot is free, ends at a free one.
  finds :
      (cursor slot : ℕ) (o : Option ℕ)
      → base + range ≤ 2 ^ 16
      → slot < range
      → lookup (base + slot) m ≡ none
      → Found range cursor o
      → (k : ℕ) × (k < range) × (o ≡ some (base + k)) × (lookup (base + k) m ≡ none)
  finds cursor slot (some port) fit lt free (k, below, at, gone) =
      (k, below, ap some at, subst (λ (n : ℕ). lookup n m ≡ none) at gone)
  finds cursor slot none fit lt free full =
      let (i, below, at) = meets cursor slot lt in
      let (r_lt, at_port) = at_slot (cursor + i) (omega arith) fit in
      absurd (
        full i below
          (subst (λ (n : ℕ). lookup n m ≡ none) (sym (at_port ∙ ap (λ (n : ℕ). base + n) at)) free))

-- The search of `nextSrcPort` tries at most as many slots as the range has, and that is enough: for
-- a range within the ports, and a cursor that the search does not bring to its end, it returns a
-- port of the range that no probe in flight has, if there is one.
pub next_src_port_lem :
    {F : Type 0} (p : TcpProber F) (slot : ℕ)
    → p.src_port_base + p.src_port_range ≤ 2 ^ 16
    → p.port_cursor + p.src_port_range < 2 ^ 32
    → slot < p.src_port_range
    → lookup (p.src_port_base + slot) p.flight.inflight ≡ none
    → (k : ℕ) × (k < p.src_port_range)
      × ((next_src_port p).0 ≡ some (p.src_port_base + k))
      × (lookup (p.src_port_base + k) p.flight.inflight ≡ none)
unfolding next_src_port
next_src_port_lem p slot fit small lt free =
    let m = p.flight.inflight in
    finds p.src_port_base p.src_port_range m p.port_cursor slot
      (find_port p.src_port_range p.src_port_base p.src_port_range p.port_cursor m).0 fit lt free
      (find_port-Found p.src_port_base p.src_port_range m p.src_port_range p.port_cursor
        (omega arith) fit small)
