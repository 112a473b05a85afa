-- ===== src/Probe/TcpProber/Ranges.antt =====
-- internal/probe/probe_tcp_unix.go: the port ranges of the probers of a process, and their width.
use dropline.Prelude.{
  ℕ, ◌+◌, ◌*◌, ◌/◌, ◌%◌, ◌^◌, ◌≤◌, ◌<◌, ◌⊎◌, List, [], ◌∷◌, All, length, false, ltb, ◌==◌, ◌≡◌,
  refl, arith, Bool-cases, leb, leb→le, leb-false, ltb→lt, inl, inr,
}
use native.Mathlib.Nat.{mod-lt, div-add-mod'}
use dropline.Prelude.Int.{pos, pos_part, ◌+ℤ◌}
use dropline.Probe.HopState.{loss_timeout}
use dropline.Probe.TcpProber.{
  claim, tcp_port_cap_ports, tcp_probe_port_base, sweeps_per_window, compute_tcp_range_size,
}

ltb-false : (a b : ℕ) → ltb a b ≡ false → b ≤ a
ltb-false a b h = ground arith

abbrev IsWidth : ℕ → Type 0
IsWidth range = (0 < range) × (range ≤ tcp_port_cap_ports)

-- A claim takes slots of one lap, at the cursor or at the start of the next lap.
claim_slot :
    (range cur : ℕ)
    → IsWidth range
    → cur + 2 * tcp_port_cap_ports < 2 ^ 32
    → (s : ℕ) × (cur ≤ s)
      × ((claim range cur).1 ≡ s + range)
      × ((claim range cur).0 ≡ tcp_probe_port_base + s % tcp_port_cap_ports)
      × (s % tcp_port_cap_ports + range ≤ tcp_port_cap_ports)
      × (s ≤ cur + tcp_port_cap_ports)
unfolding claim
claim_slot range cur (some_slots, w) small =
    let some_size : (range == 0) ≡ false = ground arith in
    let sum : (cur % tcp_port_cap_ports + range) % 2 ^ 32 ≡ cur % tcp_port_cap_ports + range =
      omega arith in
    elim (Bool-cases (ltb tcp_port_cap_ports (cur % tcp_port_cap_ports + range))) [
      | inl straddles ↦
          rw (some_size, sum, straddles)
            (
              (cur / tcp_port_cap_ports + 1) * tcp_port_cap_ports,
              omega arith,
              omega arith,
              omega arith,
              omega arith,
              omega arith,
            )
      | inr fits ↦
          let le : cur % tcp_port_cap_ports + range ≤ tcp_port_cap_ports = ground arith in
          rw (some_size, sum, fits)
            (cur, omega arith, omega arith, omega arith, omega arith, omega arith)
    ]

-- The cursor behind further claims.
unfoldable pub claims : List ℕ → ℕ → ℕ
claims [] cur = cur
claims (range ∷ ranges) cur = claims ranges (claim range cur).1

claims-le :
    (ranges : List ℕ) (cur : ℕ)
    → All IsWidth ranges
    → cur + 2 * tcp_port_cap_ports * (length ranges + 1) < 2 ^ 32
    → (cur ≤ claims ranges cur) × (claims ranges cur ≤ cur + 2 * tcp_port_cap_ports * length ranges)
unfolding claims
claims-le [] cur w small = (omega arith, omega arith)
claims-le (range ∷ ranges) cur (r, w) small =
    let (s, from, next, at, fits, near) = claim_slot range cur r (omega arith) in
    let (lo, hi) = claims-le ranges (claim range cur).1 w (let a = r.1 in omega arith) in
    (omega arith, let a = r.1 in omega arith)

apart :
    (s s' r r' b b' : ℕ)
    → b ≡ tcp_probe_port_base + s % tcp_port_cap_ports
    → b' ≡ tcp_probe_port_base + s' % tcp_port_cap_ports
    → s + r ≤ s'
    → s' + r' ≤ s + tcp_port_cap_ports
    → s % tcp_port_cap_ports + r ≤ tcp_port_cap_ports
    → s' % tcp_port_cap_ports + r' ≤ tcp_port_cap_ports
    → (b + r ≤ b') ⊎ (b' + r' ≤ b)
apart s s' r r' b b' at at' after lap fits fits' = elim (Bool-cases (leb (b + r) b')) [
  | inl le ↦ inl (leb→le _ _ le)
  | inr gt ↦ inr (let g = leb-false _ _ gt in omega arith)
]

-- Of the claims of a process, while the 32-bit cursor is far from its end: two ranges share no
-- port, whichever claims come between, if the later ends within one lap of the first slot of the
-- earlier; and each lies between 33434 and 64511.
pub ranges_disjoint :
    (first later cur : ℕ) (between : List ℕ)
    → (0 < first) × (first ≤ tcp_port_cap_ports)
    → (0 < later) × (later ≤ tcp_port_cap_ports)
    → All (λ r. (0 < r) × (r ≤ tcp_port_cap_ports)) between
    → cur + 2 * tcp_port_cap_ports * (length between + 3) < 2 ^ 32
    → (claim later (claims between (claim first cur).1)).1 + first
      ≤ (claim first cur).1 + tcp_port_cap_ports
    → (((claim first cur).0 + first ≤ (claim later (claims between (claim first cur).1)).0)
        ⊎ ((claim later (claims between (claim first cur).1)).0 + later ≤ (claim first cur).0))
      × (tcp_probe_port_base ≤ (claim first cur).0)
      × ((claim first cur).0 + first ≤ 64511)
ranges_disjoint first later cur between a b w small lap =
    let (s, from, next, at, fits, near) = claim_slot first cur a (omega arith) in
    let n = (claim first cur).1 in
    let a_max = a.1 in
    let (lo, hi) = claims-le between n w (omega arith) in
    let (s', from', next', at', fits', near') =
      claim_slot later (claims between n) b (omega arith) in
    (
      apart s s' first later _ _ at at' (omega arith) (omega arith) fits fits',
      omega arith,
      omega arith,
    )

mul_mono : (a b c d : ℕ) → a ≤ b → c ≤ d → a * c ≤ b * d
mul_mono a b c d h k = grind arith

abbrev timeout : ℕ → ℕ
timeout m = pos_part (loss_timeout (pos m))

timeout_cases :
    (m : ℕ)
    → ((timeout m ≡ 2000000000) × (2 * m ≤ 2000000000))
      ⊎ ((timeout m ≡ 2 * m) × (2000000000 ≤ 2 * m))
unfolding loss_timeout ◌+ℤ◌
timeout_cases m = elim (Bool-cases (ltb 2000000000 (m + m))) [
  | inl long ↦ inr (ground arith, ground arith)
  | inr short ↦ inl (ground arith, ground arith)
]

covers_rest : (q r m w : ℕ) → r < m → q + 2 ≤ w → q * m + r + m ≤ w * m
covers_rest q r m w lt le =
    let a = mul_mono (q + 2) w m m le (omega arith) in
    let b : (q + 2) * m ≡ q * m + 2 * m = grind arith in omega arith

covers_whole : (q m w : ℕ) → q + 1 ≤ w → q * m + m ≤ w * m
covers_whole q m w le =
    let a = mul_mono (q + 1) w m m le (omega arith) in
    let b : (q + 1) * m ≡ q * m + m = grind arith in omega arith

-- The rounding of `sweeps_per_window`, in relations.
rounded :
    (m : ℕ)
    → (4 ≤ sweeps_per_window m)
      × ((timeout m / m + 2 ≤ sweeps_per_window m)
          ⊎ ((timeout m % m ≡ 0) × (timeout m / m + 1 ≤ sweeps_per_window m)))
      × ((sweeps_per_window m ≡ 4)
          ⊎ (((0 < timeout m % m) × (sweeps_per_window m ≡ timeout m / m + 2))
              ⊎ ((timeout m % m ≡ 0) × (sweeps_per_window m ≡ timeout m / m + 1))))
unfolding sweeps_per_window
rounded m =
    let lt = timeout m in
    elim (Bool-cases (ltb 0 (lt % m))) [
      | inl part ↦ rw part (elim (Bool-cases (ltb (lt / m + 1 + 1) 4)) [
        | inl few ↦ rw few (omega arith, inl (let a = ltb→lt _ _ few in omega arith), inl refl)
        | inr many ↦
            let a = ltb-false _ _ many in
            rw many (omega arith, inl (omega arith), inr (inl (ltb→lt _ _ part, omega arith)))
      ])
      | inr none_left ↦ rw none_left (
          let zero_rest : lt % m ≡ 0 = let a = ltb-false _ _ none_left in omega arith in
          elim (Bool-cases (ltb (lt / m + 1) 4)) [
            | inl few ↦
                rw few
                  (omega arith, inr (zero_rest, let a = ltb→lt _ _ few in omega arith), inl refl)
            | inr many ↦
                let a = ltb-false _ _ many in
                rw many (omega arith, inr (zero_rest, omega arith), inr (inr (zero_rest, refl)))
          ])
    ]

window_covered :
    (m : ℕ) → 0 < m → (4 ≤ sweeps_per_window m) × (timeout m + m ≤ sweeps_per_window m * m)
window_covered m h =
    let (four, wide, _) = rounded m in
    let w = sweeps_per_window m in
    let parts : timeout m / m * m + timeout m % m ≡ timeout m = div-add-mod' (timeout m) m in
    (
      four,
      elim wide [
        | inl le ↦
            let c = covers_rest (timeout m / m) (timeout m % m) m w (mod-lt (timeout m) h) le in
            omega arith
        | inr (whole, le) ↦ let c = covers_whole (timeout m / m) m w le in omega arith
      ],
    )

-- k intervals and a rest are more than the window holds.
too_many :
    (k q r m lt : ℕ)
    → q * m + r ≡ lt
    → (lt ≡ 2000000000) ⊎ (lt ≡ 2 * m)
    → 100000000 ≤ m
    → 3 ≤ k
    → 2000000000 < k * 100000000 + r
    → q < k
too_many k q r m lt parts cases h three over = elim (Bool-cases (ltb q k)) [
  | inl below ↦ ltb→lt q k below
  | inr above ↦
      let k_le = ltb-false q k above in
      let each = mul_mono k k 100000000 m (omega arith) h in
      let more = mul_mono k q m m k_le (omega arith) in
      let thrice = mul_mono 3 k m m three (omega arith) in
      elim cases [ inl e ↦ absurd (omega arith) | inr e ↦ absurd (omega arith) ]
]

sweeps-le : (m : ℕ) → 100000000 ≤ m → sweeps_per_window m ≤ 21
sweeps-le m h =
    let (four, wide, exact) = rounded m in
    let parts : timeout m / m * m + timeout m % m ≡ timeout m = div-add-mod' (timeout m) m in
    let window : (timeout m ≡ 2000000000) ⊎ (timeout m ≡ 2 * m) = elim (timeout_cases m) [
      | inl (e, _) ↦ inl e
      | inr (e, _) ↦ inr e
    ] in
    let q = timeout m / m in
    let r = timeout m % m in
    elim exact [
      | inl e ↦ omega arith
      | inr (inl (rest, e)) ↦
          let t = too_many 20 q r m (timeout m) parts window h (omega arith) (omega arith) in
          omega arith
      | inr (inr (whole, e)) ↦
          let t = too_many 21 q r m (timeout m) parts window h (omega arith) (omega arith) in
          omega arith
    ]

-- The width of a range for at most 255 hops and an interval of at least 100 ms: it holds the ports
-- of so many whole sweeps that all but one of them together last as long as a probe may be in
-- flight, at least four, and at most 5355 ports.
pub compute_tcp_range_size_lem :
    (mtr_interval max_hops : ℕ)
    → 100000000 ≤ mtr_interval
    → 1 ≤ max_hops
    → max_hops ≤ 255
    → (w : ℕ) × (compute_tcp_range_size mtr_interval max_hops ≡ max_hops * w)
      × (4 ≤ w)
      × (pos_part (loss_timeout (pos mtr_interval)) + mtr_interval ≤ w * mtr_interval)
      × (compute_tcp_range_size mtr_interval max_hops ≤ 5355)
unfolding compute_tcp_range_size
compute_tcp_range_size_lem m hops long lo hi =
    let w = sweeps_per_window m in
    let (four, window) = window_covered m (omega arith) in
    let few = sweeps-le m long in
    let bound : hops * w ≤ 255 * 21 = mul_mono hops 255 w 21 hi few in
    let some_ports : 1 * 4 ≤ hops * w = mul_mono 1 hops 4 w lo four in
    let size : hops % 2 ^ 32 * (w % 2 ^ 32) % 2 ^ 32 ≡ hops * w =
      let a : hops % 2 ^ 32 ≡ hops = omega arith in
      let b : w % 2 ^ 32 ≡ w = omega arith in rw (a, b) (omega arith) in
    let test : (hops * w == 0) ≡ false = ground arith in
    (w, rw (size, test) refl, four, window, rw (size, test) (omega arith))
