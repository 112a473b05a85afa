-- ===== src/Control/Server/Laws.antt =====
-- The accept loop of internal/control/server.go: its cap and its backoff.
use dropline.Prelude.{
  ℕ, zero, suc, ◌+◌, ◌*◌, ◌^◌, ◌≤◌, ◌<◌, min, List, [], ◌∷◌, ◌≡◌, ap, ◌∙◌, arith, ◌⊎◌,
}
use native.Mathlib.Nat.{pow-suc}
use dropline.Prelude.Int.{ℤ, pos}
use dropline.Control.Server.{
  AcceptLoop, Event, accepted, temporary_error, finished, spawned, dropped, start, next_delay,
  on_event, on_events, millisecond,
}

-- The loop holds no more than the cap, and waits no longer than a second.
record Inv (cap : ℕ) (s : AcceptLoop) : Type 0 where
  capped : s.pending ≤ cap
  delay : s.temp_delay ≤ 1000 * millisecond

on_event-Inv :
    (cap : ℕ) (s : AcceptLoop) (e : Event)
    → 0 < cap
    → Inv cap s
    → Inv cap (on_event (pos cap) s e).1
unfolding on_event next_delay
on_event-Inv cap s accepted p v = ground arith
on_event-Inv cap s temporary_error p v = ground arith
on_event-Inv cap s finished p v = ground arith

on_events-Inv :
    (cap : ℕ) (s : AcceptLoop) (es : List Event)
    → 0 < cap
    → Inv cap s
    → Inv cap (on_events (pos cap) s es)
unfolding on_events
on_events-Inv cap s [] p v = v
on_events-Inv cap s (e ∷ es) p v =
    on_events-Inv cap (on_event (pos cap) s e).1 es p (on_event-Inv cap s e p v)

-- Whatever arrives, with a positive cap no more connections than it are pending, the wait after a
-- transient error is at most a second, and a further connection is handled exactly if the cap is
-- not reached; else it is dropped and the loop is as before, but for the delay that starts anew.
pub pending_capped :
    (cap : ℕ) (es : List Event)
    → 0 < cap
    → ((on_events (pos cap) start es).pending ≤ cap)
      × ((on_events (pos cap) start es).temp_delay ≤ 1000 * millisecond)
      × ((((on_events (pos cap) start es).pending < cap)
            × (on_event (pos cap) (on_events (pos cap) start es) accepted ≡ (
              spawned,
              record { pending = (on_events (pos cap) start es).pending + 1; temp_delay = 0 },
            )))
          ⊎ (((on_events (pos cap) start es).pending ≡ cap)
              × (on_event (pos cap) (on_events (pos cap) start es) accepted
                  ≡ (dropped, record { pending = cap; temp_delay = 0 }))))
unfolding on_event
pending_capped cap es p =
    let v = on_events-Inv cap start es p (omega arith) in
    (v.capped, v.delay, ground (arith, v.capped))

-- k transient errors in a row.
abbrev pub errors_row : ℕ → List Event
errors_row zero = []
errors_row (suc k) = temporary_error ∷ errors_row k

two-pow-pos : (j : ℕ) → 0 < 2 ^ j
two-pow-pos zero = omega arith
two-pow-pos (suc j) = omega (arith, two-pow-pos j, pow-suc 2 j)

next_delay-min :
    (j d : ℕ)
    → d ≡ min (5 * millisecond * 2 ^ j) (1000 * millisecond)
    → next_delay d ≡ min (5 * millisecond * 2 ^ suc j) (1000 * millisecond)
unfolding next_delay
next_delay-min j d e = let pos' : 0 < 2 ^ j = two-pow-pos j in ground (arith, pow-suc 2 j)

delays :
    (k j : ℕ) (max_pending : ℤ) (s : AcceptLoop)
    → s.temp_delay ≡ min (5 * millisecond * 2 ^ j) (1000 * millisecond)
    → (on_events max_pending s (errors_row k)).temp_delay
      ≡ min (5 * millisecond * 2 ^ (k + j)) (1000 * millisecond)
unfolding on_events on_event
delays zero j max_pending s e =
    e ∙ ap (λ (n : ℕ). min (5 * millisecond * 2 ^ n) (1000 * millisecond)) (omega arith)
delays (suc k) j max_pending s e =
    delays k (suc j) max_pending (record s { temp_delay = next_delay s.temp_delay })
      (next_delay-min j s.temp_delay e)
    ∙ ap (λ (n : ℕ). min (5 * millisecond * 2 ^ n) (1000 * millisecond)) (omega arith)

-- The backoff in closed form: after a connection or at the start, k + 1 transient errors in a row
-- leave a wait of 5 ms doubled k times, and at most one second.
backoff :
    (k : ℕ) (max_pending : ℤ) (s : AcceptLoop)
    → s.temp_delay ≡ 0
    → (on_events max_pending s (errors_row (suc k))).temp_delay
      ≡ min (5 * millisecond * 2 ^ k) (1000 * millisecond)
unfolding on_events on_event
backoff k max_pending s e =
    delays k 0 max_pending (record s { temp_delay = next_delay s.temp_delay })
      (unfold next_delay in ground (arith, e))
    ∙ ap (λ (n : ℕ). min (5 * millisecond * 2 ^ n) (1000 * millisecond)) (omega arith)
