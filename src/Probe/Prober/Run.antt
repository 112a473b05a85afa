-- ===== src/Probe/Prober/Run.antt =====
-- internal/probe/probe_unix.go: every interleaving of sends, replies and prunings of a prober.
use dropline.Prelude.{
  ℕ, zero, suc, ◌+◌, ◌-◌, ◌^◌, ◌≤◌, ◌<◌, ◌≢◌, String, List, [], ◌∷◌, Bool, true, false, Option,
  none, some, All, length, ◌==◌, ◌≡◌, refl, sym, ap, ◌∙◌, subst, arith, Bool-cases, Option-cases,
  some_eq, inl, inr,
}
use dropline.Prelude.Int.{ℤ, pos_part, ltb_ℤ, ◌-ℤ◌}
use dropline.Prelude.Dict.{Dict, lookup, insert, erase}
use dropline.Prelude.Floats.{Floats}
use dropline.Stream.Net.{Ip}
use dropline.Probe.Hops.{ProbeSnapshot}
use dropline.Probe.HopState.{loss_timeout}
use dropline.Probe.HopState.Rows.{snapshot_exists}
use dropline.Probe.Parse.{Message, Answer, parse_reply}
use dropline.Probe.Flight.{
  Entry, Flight, in_table, register, settle, kept, prune, max_ttl, modify, hop_sent, credit,
}
use dropline.Probe.Flight.Balance.{count}
use dropline.Probe.Flight.Tally.{Balanced}
use dropline.Probe.Flight.Keeps.{
  IsBalanced, register-IsBalanced, prune-IsBalanced, settle-IsBalanced, le-in_table,
}
use dropline.Probe.Prober.{
  Config, Prober, validate_config, new_hop, new_flight, new_prober, copies, ttls_from, seq_after,
  send, sweep_ttls, take_answer, receive, emit,
}

module _ {F : Type 0} (fl : Floats F) (parse : List ℕ → Option Message) (text : Ip → Option String)
    (cfg : Config) where
  -- A prober of the config after steps of its goroutines, with the TTLs that its sweep still has to
  -- send to, and those that were sent to, the last first.
  pub data Run : List ℕ → List ℕ → Prober F → Type 0 where
    new : (id : ℕ) → validate_config cfg ≡ none → Run [] [] (new_prober fl cfg id)
    sweep : {log : List ℕ} {p : Prober F} → Run [] log p → Run (sweep_ttls p) log p
    sent :
        {t : ℕ} {todo log : List ℕ} {p p' : Prober F} (now : ℤ)
        → Run (t ∷ todo) log p
        → send now t p ≡ some p'
        → Run todo (t ∷ log) p'
    received :
        {todo log : List ℕ} {p : Prober F} (now : ℤ) (packet : List ℕ) (src : Ip)
        → Run todo log p
        → Run todo log (receive fl parse text now packet src p)
    emitted :
        {log : List ℕ} {p p' : Prober F} {out : Option (ProbeSnapshot F)} (has_out : Bool)
        (now at : ℤ)
        → Run [] log p
        → emit fl cfg.mtr_interval has_out now at p ≡ some (p', out)
        → Run [] log p'

-- The keys in flight are at most b.
abbrev Below : ℕ → Dict Entry → Type 0
Below b [] = Unit {0}
Below b ((k, e) ∷ m) = (k ≤ b) × Below b m

Below-more : (b c : ℕ) (m : Dict Entry) → b ≤ c → Below b m → Below c m
Below-more b c [] h w = tt
Below-more b c ((k, e) ∷ m) h (a, w) = (omega arith, Below-more b c m h w)

Below-erase : (b key : ℕ) (m : Dict Entry) → Below b m → Below b (erase key m)
unfolding erase
Below-erase b key [] w = tt
Below-erase b key ((j, d) ∷ m) (a, w) = elim (Bool-cases (j == key)) [
  | inl hit ↦ rw hit (Below-erase b key m w)
  | inr miss ↦ rw miss (a, Below-erase b key m w)
]

Below-kept : (b : ℕ) (cutoff : ℤ) (m : Dict Entry) → Below b m → Below b (kept cutoff m)
unfolding kept
Below-kept b cutoff [] w = tt
Below-kept b cutoff ((j, d) ∷ m) (a, w) = elim (Bool-cases (ltb_ℤ d.sent_at cutoff)) [
  | inl old ↦ rw old (Below-kept b cutoff m w)
  | inr young ↦ rw young (a, Below-kept b cutoff m w)
]

Below-fresh : (b key : ℕ) (m : Dict Entry) → Below b m → b < key → lookup key m ≡ none
unfolding lookup
Below-fresh b key [] w h = refl
Below-fresh b key ((j, d) ∷ m) w h = ground (arith, Below-fresh b key m)

Below-settle :
    {F : Type 0} (fl : Floats F) (b key : ℕ) (from : Option String) (now : ℤ) (is_echo : Bool)
    (p : Flight F)
    → Below b p.inflight
    → Below b (settle fl key from now is_echo p).inflight
unfolding settle credit
Below-settle fl b key from now is_echo p w = elim (Option-cases (lookup key p.inflight)) [
  | inl absent ↦ rw (absent, settle) w
  | inr (e, found) ↦ rw (found, settle) (let c = Below-erase b key p.inflight w in ground arith)
]

-- The TTLs that are planned are those of n hops.
abbrev Planned : ℕ → List ℕ → Type 0
Planned n todo = All (λ t. (1 ≤ t) × (t ≤ n)) todo

ttls_from-Planned : (n low k : ℕ) → 1 ≤ low → low + k ≤ suc n → Planned n (ttls_from low k)
unfolding ttls_from
ttls_from-Planned n low zero lo hi = tt
ttls_from-Planned n low (suc k) lo hi =
    ((lo, omega arith), ttls_from-Planned n (suc low) k (omega arith) (omega arith))

max_ttl-le : {F : Type 0} (p : Flight F) → max_ttl p ≤ length p.hops
unfolding max_ttl
max_ttl-le p = ground arith

module _ {F : Type 0} (fl : Floats F) where
  copies-Balanced : (n ttl : ℕ) → Balanced (λ t. 0) (λ t. 0) ttl (copies n (new_hop fl))
  unfolding copies new_hop
  copies-Balanced zero ttl = tt
  copies-Balanced (suc n) ttl = ((0, refl, refl, refl, omega arith), copies-Balanced n (suc ttl))

  length-copies : (n : ℕ) → length (copies n (new_hop fl)) ≡ n
  unfolding copies
  length-copies zero = refl
  length-copies (suc n) = ap suc (length-copies n)

  -- What holds of a prober after so many sends, before its sequence numbers come round.
  record IsSound (n : ℕ) (log todo : List ℕ) (p : Prober F) : Type 0 where
    balance : IsBalanced n (λ t. count t log) p.flight
    below : Below (length log) p.flight.inflight
    next : length log < 65535 → p.next_seq ≡ suc (length log)
    planned : Planned n todo

  new-IsSound :
      (cfg : Config) (id : ℕ) → IsSound (pos_part cfg.max_hops) [] [] (new_prober fl cfg id)
  unfolding new_prober new_flight
  new-IsSound cfg id = record {
    balance = record {
      hop_count = length-copies (pos_part cfg.max_hops);
      unique = tt;
      within = tt;
      balanced = copies-Balanced (pos_part cfg.max_hops) 1;
      near = omega arith;
    };
    below = tt;
    next = λ h. refl;
    planned = tt;
  }

  sweep-IsSound :
      {n : ℕ} {log : List ℕ} {p : Prober F} → IsSound n log [] p → IsSound n log (sweep_ttls p) p
  unfolding sweep_ttls
  sweep-IsSound {n} {log} {p} v = record {
    balance = v.balance;
    below = v.below;
    next = v.next;
    planned =
        ttls_from-Planned n 1 (max_ttl p.flight) (omega arith)
          (let c = v.balance.hop_count in omega (arith, max_ttl-le p.flight));
  }

  send_on :
      (now : ℤ) (t : ℕ) (p : Prober F)
      → in_table t (length p.flight.hops) ≡ true
      → send now t p ≢ none
  unfolding send register
  send_on now t p inside = ground arith

  sends_on :
      (n : ℕ) (now : ℤ) (todo : List ℕ) (p : Prober F)
      → length p.flight.hops ≡ n
      → Planned n todo
      → All (λ t. send now t p ≢ none) todo
  sends_on n now [] p e w = tt
  sends_on n now (t ∷ todo) p e ((lo, hi), w) =
      let inside : in_table t (length p.flight.hops) ≡ true =
        le-in_table t (length p.flight.hops) lo (omega arith) in
      (send_on now t p inside, sends_on n now todo p e w)

  register-Below :
      (b key t : ℕ) (now : ℤ) (p : Flight F) {flight : Flight F}
      → key ≤ b
      → Below b p.inflight
      → register key t now p ≡ some flight
      → Below b flight.inflight
  unfolding register insert
  register-Below b key t now p {flight} le w done = elim (Bool-cases (in_table t (length p.hops))) [
    | inr out ↦ cc
    | inl inside ↦
        let f' : Flight F = record p {
          inflight = insert key (record { ttl = t; sent_at = now }) p.inflight;
          hops = modify (t - 1) hop_sent p.hops;
        } in
        subst (λ (f : Flight F). Below b f.inflight) {x = f'} {y = flight} (some_eq (ground arith))
          (le, Below-erase b key p.inflight w)
  ]

  registered-IsSound :
      {n t : ℕ} {todo log : List ℕ} (now : ℤ) (p : Prober F) (flight : Flight F)
      → length log < 65535
      → IsSound n log (t ∷ todo) p
      → register p.next_seq t now p.flight ≡ some flight
      → IsSound n (t ∷ log) todo (record p { next_seq = seq_after p.next_seq; flight = flight })
  registered-IsSound {n} {t} {todo} {log} now p flight short v ok =
      let seq = v.next short in
      record {
        balance =
            register-IsBalanced p.next_seq t now p.flight v.balance
              (Below-fresh (length log) p.next_seq p.flight.inflight v.below (omega arith)) ok;
        below =
            register-Below (suc (length log)) p.next_seq t now p.flight (omega arith)
              (Below-more (length log) (suc (length log)) p.flight.inflight (omega arith) v.below)
              ok;
        next = λ h. unfold seq_after in ground arith;
        planned = v.planned.1;
      }

  sent-IsSound :
      {n t : ℕ} {todo log : List ℕ} {p p' : Prober F} (now : ℤ)
      → length log < 65535
      → IsSound n log (t ∷ todo) p
      → send now t p ≡ some p'
      → IsSound n (t ∷ log) todo p'
  unfolding send
  sent-IsSound {n} {t} {todo} {log} {p} {p'} now short v done =
      elim (Option-cases (register p.next_seq t now p.flight)) [
        | inl refused ↦ cc
        | inr (flight, ok) ↦
            subst (IsSound n (t ∷ log) todo) (some_eq (ground arith))
              (registered-IsSound now p flight short v ok)
      ]

  settle-IsSound :
      {n : ℕ} {todo log : List ℕ} (seq : ℕ) (from : Option String) (now : ℤ) (is_echo : Bool)
      (p : Prober F)
      → IsSound n log todo p
      → IsSound n log todo (record p { flight = settle fl seq from now is_echo p.flight })
  settle-IsSound {n} {todo} {log} seq from now is_echo p v = record {
    balance = settle-IsBalanced fl seq from now is_echo p.flight v.balance;
    below = Below-settle fl (length log) seq from now is_echo p.flight v.below;
    next = v.next;
    planned = v.planned;
  }

  take_answer-IsSound :
      {n : ℕ} {todo log : List ℕ} (text : Ip → Option String) (now : ℤ) (answer : Answer)
      (p : Prober F)
      → IsSound n log todo p
      → IsSound n log todo (take_answer fl text now answer p)
  unfolding take_answer
  take_answer-IsSound text now Answer.ignored p v = v
  take_answer-IsSound text now (Answer.exceeded seq src) p v =
      settle-IsSound seq (text src) now false p v
  take_answer-IsSound text now (Answer.echoed seq src) p v =
      settle-IsSound seq (text src) now true p v

  receive-IsSound :
      {n : ℕ} {todo log : List ℕ} (parse : List ℕ → Option Message) (text : Ip → Option String)
      (now : ℤ) (packet : List ℕ) (src : Ip) (p : Prober F)
      → IsSound n log todo p
      → IsSound n log todo (receive fl parse text now packet src p)
  unfolding receive
  receive-IsSound parse text now packet src p =
      take_answer-IsSound text now (parse_reply parse packet src p.id) p

  prune-IsSound :
      {n : ℕ} {log : List ℕ} (cutoff : ℤ) (p : Prober F)
      → IsSound n log [] p
      → IsSound n log [] (record p { flight = prune cutoff p.flight })
  unfolding prune
  prune-IsSound {n} {log} cutoff p v = record {
    balance = prune-IsBalanced cutoff p.flight v.balance;
    below = Below-kept (length log) cutoff p.flight.inflight v.below;
    next = v.next;
    planned = tt;
  }

  -- An emission goes through, since the terminus is in the table, and leaves the pruned prober.
  emits :
      {n : ℕ} {sends : ℕ → ℕ} (interval : ℤ) (has_out : Bool) (now at : ℤ) (p : Prober F)
      → IsBalanced n sends p.flight
      → (out : Option (ProbeSnapshot F)) × (emit fl interval has_out now at p
          ≡ some (record p { flight = prune (now -ℤ loss_timeout interval) p.flight }, out))
  unfolding emit
  emits interval false now at p v = (none, refl)
  emits interval true now at p v =
      let pruned = prune-IsBalanced (now -ℤ loss_timeout interval) p.flight v in
      let flight = prune (now -ℤ loss_timeout interval) p.flight in
      let there : flight.terminus ≤ length flight.hops =
        omega (arith, pruned.near, pruned.hop_count) in
      let (snap, e) = snapshot_exists fl flight.hops flight.terminus at there in
      (some snap, rw e refl)

  emit-IsSound :
      {n : ℕ} {log : List ℕ} (interval : ℤ) (has_out : Bool) (now at : ℤ) (p p' : Prober F)
      {out : Option (ProbeSnapshot F)}
      → IsSound n log [] p
      → emit fl interval has_out now at p ≡ some (p', out)
      → IsSound n log [] p'
  emit-IsSound {n} {log} interval has_out now at p p' v done =
      let (_, e) = emits interval has_out now at p v.balance in
      subst (IsSound n log [])
        (ap (λ (r : Prober F × Option (ProbeSnapshot F)). r.0) (some_eq (sym e ∙ done)))
        (prune-IsSound (now -ℤ loss_timeout interval) p v)

  module _ (parse : List ℕ → Option Message) (text : Ip → Option String) (cfg : Config) where
    run-IsSound :
        {todo log : List ℕ} {p : Prober F}
        → Run fl parse text cfg todo log p
        → length log < 65536
        → IsSound (pos_part cfg.max_hops) log todo p
    run-IsSound (new id ok) short = new-IsSound cfg id
    run-IsSound (sweep r) short = sweep-IsSound (run-IsSound r short)
    run-IsSound (sent now r done) short =
        sent-IsSound now (omega arith) (run-IsSound r (omega arith)) done
    run-IsSound (received {p = p} now packet src r) short =
        receive-IsSound parse text now packet src p (run-IsSound r short)
    run-IsSound (emitted {p = p} {p' = p'} has_out now at r done) short =
        emit-IsSound cfg.mtr_interval has_out now at p p' (run-IsSound r short) done

    -- Through every interleaving of sweeps, replies and prunings of a prober, for up to 65535
    -- probes, the range of its sequence numbers: each hop has counted exactly the probes sent to
    -- its TTL, has in flight exactly those of them in the map, and no more replies than the others;
    -- the terminus is 0 or a TTL of the table; and neither the next send of the sweep nor an emission
    -- panics.
    pub run-IsBalanced :
        {todo log : List ℕ} {p : Prober F} (has_out : Bool) (now at : ℤ)
        → Run fl parse text cfg todo log p
        → length log < 2 ^ 16
        → IsBalanced (pos_part cfg.max_hops) (λ t. count t log) p.flight
          × All (λ t. send now t p ≢ none) todo
          × (emit fl cfg.mtr_interval has_out now at p ≢ none)
    run-IsBalanced {todo} {log} {p} has_out now at r short =
        let v = run-IsSound r (omega arith) in
        let (_, goes_on) = emits cfg.mtr_interval has_out now at p v.balance in
        (
          v.balance,
          sends_on (pos_part cfg.max_hops) now todo p v.balance.hop_count v.planned,
          λ panics. cc,
        )
