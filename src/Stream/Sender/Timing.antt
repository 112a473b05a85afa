-- ===== src/Stream/Sender/Timing.antt =====
-- internal/stream/sender.go: how a turn of the sender's loop stands to the time it was due at.
use dropline.Prelude.{
  ℕ, suc, ◌*◌, ◌/◌, max, ◌^◌, ◌≤◌, ◌<◌, ◌⊎◌, List, [], ◌∷◌, Bool, true, false, All, ◌≡◌, refl, ap,
  ◌∙◌, subst, arith, Bool-cases, inl, inr,
}
use dropline.Prelude.Int.{
  ℤ, pos, ltb_ℤ, leb_ℤ, ◌+ℤ◌, ◌-ℤ◌, ◌≤ℤ◌, pos_part, neg_part, +ℤ_parts, -ℤ_parts,
}
use dropline.Prelude.Words.{wrap_i64, to_i64-to_u64}
use dropline.Stream.Header.{Header}
use dropline.Stream.Sender.{
  Sender, Turn, Select, fired_at, done, after_select, Spin, Waited, reached, interrupted, waiting,
  Turned, sent, ended, Ending, interval, busy_wait, spin, wait_until, target_of, header_of,
  write_packet, is_over, turn,
}

-- The nanoseconds that the bits of a packet take at the rate of the sender, at least one.
abbrev pub period : Sender → ℕ
period s = max 1 (s.packet_size * 8000000000 / s.rate_bps)

-- The time at which a packet is due.
abbrev pub due : Sender → ℤ → ℕ → ℤ
due s t0 seq = t0 +ℤ pos (seq * period s)

-- A timer that is made at a time fires no earlier than its duration later, and no later than the
-- time that is read behind it, with which the packet is stamped.
abbrev pub FiresInTime : ℤ → ℤ → ℤ → Select → Type 0
FiresInTime now wait tx (fired_at time) = (now +ℤ wait ≤ℤ time) × (time ≤ℤ tx)
FiresInTime now wait tx done = Unit {0}

-- What the clock and the timer of the runtime promise of the turns from a packet on: no reading is
-- before an earlier one, and a timer takes at least the duration that it is given, whichever it is.
abbrev pub IsTimely : ℤ → List Turn → Type 0
IsTimely last [] = Unit {0}
IsTimely last (t ∷ turns) =
    (last ≤ℤ t.now)
    × (t.now ≤ℤ t.tx)
    × All (λ (a : Spin). a.now ≤ℤ t.tx) t.spins
    × (t.wait_now ≤ℤ t.tx)
    × ((wait : ℤ) → FiresInTime t.wait_now wait t.tx (t.select wait))
    × IsTimely t.tx turns

-- Packets in the order of their numbers from one on, each stamped at or behind the time at which it
-- is due, with the flow and the token of the sender.
abbrev pub IsPaced : Sender → ℤ → ℕ → List Header → Type 0
IsPaced s t0 seq [] = Unit {0}
IsPaced s t0 seq (h ∷ log) =
    (h ≡ header_of s seq h.tx_unix_ns) × (due s t0 seq ≤ℤ h.tx_unix_ns) × IsPaced s t0 (suc seq) log

pub mul_mono : (a b c d : ℕ) → a ≤ b → c ≤ d → a * c ≤ b * d
mul_mono a b c d h k = grind arith

pub wrap_small : (n : ℕ) → n < 2 ^ 63 → wrap_i64 (pos n) ≡ pos n
unfolding wrap_i64
wrap_small n h = to_i64-to_u64 (pos n) h

pub interval-period : (s : Sender) → interval s ≡ period s
unfolding interval
interval-period s = ground arith

pub target_due :
    (s : Sender) (t0 : ℤ) (seq : ℕ) → seq * period s < 2 ^ 63 → target_of s t0 seq ≡ due s t0 seq
unfolding target_of
target_due s t0 seq h =
    ap (λ (n : ℕ). t0 +ℤ wrap_i64 (pos (seq * n))) (interval-period s)
    ∙ ap (λ (z : ℤ). t0 +ℤ z) (wrap_small (seq * period s) h)

pub ≤ℤ-trans : (a b c : ℤ) → a ≤ℤ b → b ≤ℤ c → a ≤ℤ c
≤ℤ-trans a b c h k = omega arith

pub not_before : (a b : ℤ) → ltb_ℤ a b ≡ false → b ≤ℤ a
not_before a b h = ground arith

pub is_at_most : (a b : ℤ) → leb_ℤ (a -ℤ b) (pos 0) ≡ true → a ≤ℤ b
is_at_most a b h =
    let e : pos_part (a -ℤ b) ≤ neg_part (a -ℤ b) = ground arith in omega (arith, -ℤ_parts a b)

pub spin_reached :
    (target tx : ℤ) (spins : List Spin)
    → All (λ (a : Spin). a.now ≤ℤ tx) spins
    → spin target spins ≡ reached
    → target ≤ℤ tx
unfolding spin
spin_reached target tx [] w h = cc
spin_reached target tx (a ∷ spins) (now, w) h = elim (Bool-cases a.canceled) [
  | inl canceled ↦ absurd (ground arith)
  | inr alive ↦ elim (Bool-cases (ltb_ℤ a.now target)) [
    | inl early ↦ spin_reached target tx spins w (ground arith)
    | inr late ↦ ≤ℤ-trans target a.now tx (not_before a.now target late) now
  ]
]

-- A timer of the time that is left fires at the target or later.
after_select-reached :
    (target now tx : ℤ) (answer : Select)
    → FiresInTime now (target -ℤ now) tx answer
    → after_select answer ≡ reached
    → target ≤ℤ tx
unfolding after_select
after_select-reached target now tx (fired_at time) (late, before) h =
    omega (arith, late, before, +ℤ_parts now (target -ℤ now), -ℤ_parts target now)
after_select-reached target now tx done fires h = absurd (cc)

pub wait_reached :
    (target : ℤ) (busy : Bool) (t : Turn)
    → All (λ (a : Spin). a.now ≤ℤ t.tx) t.spins
    → t.wait_now ≤ℤ t.tx
    → ((wait : ℤ) → FiresInTime t.wait_now wait t.tx (t.select wait))
    → wait_until target busy t ≡ reached
    → target ≤ℤ t.tx
unfolding wait_until
wait_reached target true t w now fires h = spin_reached target t.tx t.spins w h
wait_reached target false t w now fires h =
    elim (Bool-cases (leb_ℤ (target -ℤ t.wait_now) (pos 0))) [
      | inl past ↦ ≤ℤ-trans target t.wait_now t.tx (is_at_most target t.wait_now past) now
      | inr ahead ↦
          after_select-reached target t.wait_now t.tx (t.select (target -ℤ t.wait_now))
            (fires (target -ℤ t.wait_now)) (ground (arith, ahead, h))
    ]

pub Turned-cases : (o : Turned) → ((e : Ending) × (o ≡ ended e)) ⊎ ((h : Header) × (o ≡ sent h))
Turned-cases (ended e) = inl (e, refl)
Turned-cases (sent h) = inr (h, refl)

pub written_reached :
    (s : Sender) (seq : ℕ) (t : Turn) (h : Header) (w : Waited)
    → write_packet s seq t w ≡ sent h
    → (h ≡ header_of s seq t.tx) × (w ≡ reached)
unfolding write_packet
written_reached s seq t h reached e = (ground arith, refl)
written_reached s seq t h interrupted e = absurd (cc)
written_reached s seq t h waiting e = absurd (cc)

pub turn_passes :
    (s : Sender) (t0 : ℤ) (seq : ℕ) (t : Turn) (h : Header)
    → turn s t0 seq t ≡ sent h
    → (t.canceled ≡ false)
      × (is_over s t0 t.now ≡ false)
      × (write_packet s seq t (wait_until (target_of s t0 seq) (busy_wait s) t) ≡ sent h)
unfolding turn
turn_passes s t0 seq t h e = elim (Bool-cases t.canceled) [
  | inl canceled ↦ absurd (ground arith)
  | inr alive ↦ elim (Bool-cases (is_over s t0 t.now)) [
    | inl over ↦ absurd (ground arith)
    | inr live ↦ (alive, live, ground arith)
  ]
]

-- What a turn that sends has found.
pub turn_sent :
    (s : Sender) (t0 : ℤ) (seq : ℕ) (t : Turn) (h : Header)
    → seq * period s < 2 ^ 63
    → All (λ (a : Spin). a.now ≤ℤ t.tx) t.spins
    → t.wait_now ≤ℤ t.tx
    → ((wait : ℤ) → FiresInTime t.wait_now wait t.tx (t.select wait))
    → turn s t0 seq t ≡ sent h
    → (h ≡ header_of s seq t.tx) × (due s t0 seq ≤ℤ t.tx) × (is_over s t0 t.now ≡ false)
turn_sent s t0 seq t h small w now fires e =
    let at = target_due s t0 seq small in
    let (live, over, out) = turn_passes s t0 seq t h e in
    let (stamp, there) =
      written_reached s seq t h (wait_until (target_of s t0 seq) (busy_wait s) t) out in
    (
      stamp,
      wait_reached (due s t0 seq) (busy_wait s) t w now fires
          (subst (λ (z : ℤ). wait_until z (busy_wait s) t ≡ reached) at there),
      over,
    )
