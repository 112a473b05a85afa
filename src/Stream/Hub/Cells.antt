-- ===== src/Stream/Hub/Cells.antt =====
-- One queue of internal/stream/hub.go under `Run`'s delivery and the receiver's receive.
use dropline.Prelude.{
  ◌<◌, ◌≤◌, List, [], ◌∷◌, ◌++◌, Bool, true, false, ◌&&◌, none, some, length, length-append, ltb,
  ◌≡◌, refl, arith, ◌⊎◌, inl, inr, Bool-cases,
}
use dropline.Prelude.Int.{ℤ}
use dropline.Prelude.Counters.{add64}
use dropline.Stream.Header.{Header}
use dropline.Stream.Net.{UdpAddr}
use dropline.Stream.Hub.{
  Observation, FlowQueue, capture_remote, ip_ok, token_ok, offer, deliver, receive_from,
}

-- The contents of a channel stay within its capacity.
abbrev pub HasRoom : FlowQueue → Type 0
HasRoom fq = length fq.buffer ≤ fq.capacity

-- What a queue keeps when something is done to it.
pub record IsSuccessor (fq fq' : FlowQueue) : Type 0 where
  pub closed : fq'.closed ≡ fq.closed
  pub room : HasRoom fq → HasRoom fq'
  pub ip : fq'.expected_peer_ip ≡ fq.expected_peer_ip
  pub token : fq'.expected_token ≡ fq.expected_token

offer-IsSuccessor : (fq : FlowQueue) (obs : Observation) → IsSuccessor fq (offer fq obs)
unfolding offer
offer-IsSuccessor fq obs = record {
  closed = ground arith;
  room = λ r. ground (arith, length-append fq.buffer (obs ∷ []));
  ip = ground arith;
  token = ground arith;
}

-- The queue after a packet that passes the gates.
abbrev taken : FlowQueue → Header → UdpAddr → ℤ → FlowQueue
taken fq hdr addr arrival = offer (capture_remote fq addr) (record { h = hdr; arrival = arrival })

-- An open queue takes a packet without panic.
pub deliver_open :
    (fq : FlowQueue) (hdr : Header) (addr : UdpAddr) (arrival : ℤ)
    → fq.closed ≡ false
    → (fq' : FlowQueue) × (deliver fq hdr addr arrival ≡ some fq')
unfolding deliver
deliver_open fq hdr addr arrival e = elim (Bool-cases (ip_ok fq addr && token_ok fq hdr)) [
  | inl p ↦ (taken fq hdr addr arrival, rw (p, e))
  | inr p ↦ (fq, rw p)
]

pub deliver-IsSuccessor :
    (fq fq' : FlowQueue) (hdr : Header) (addr : UdpAddr) (arrival : ℤ)
    → deliver fq hdr addr arrival ≡ some fq'
    → IsSuccessor fq fq'
unfolding deliver capture_remote
deliver-IsSuccessor fq fq' hdr addr arrival e =
    let obs : Observation = record { h = hdr; arrival = arrival } in
    let s = offer-IsSuccessor (capture_remote fq addr) obs in
    record {
      closed = ground (arith, s.closed);
      room = λ r. ground (arith, s.room r);
      ip = ground (arith, s.ip);
      token = ground (arith, s.token);
    }

-- An authentic packet: it passes both gates of the queue.
abbrev pub passes : FlowQueue → Header → UdpAddr → Bool
passes fq hdr addr = ip_ok fq addr && token_ok fq hdr

taken_remote :
    (fq : FlowQueue) (hdr : Header) (addr : UdpAddr) (arrival : ℤ)
    → (taken fq hdr addr arrival).remote ≡ (elim fq.remote [ none ↦ some addr | some a ↦ some a ])
unfolding offer capture_remote
taken_remote fq hdr addr arrival = ground arith

taken_cases :
    (fq : FlowQueue) (hdr : Header) (addr : UdpAddr) (arrival : ℤ)
    → ((length fq.buffer < fq.capacity)
        × ((taken fq hdr addr arrival).buffer
            ≡ fq.buffer ++ (record { h = hdr; arrival = arrival } ∷ []))
        × ((taken fq hdr addr arrival).local_drops ≡ fq.local_drops))
      ⊎ ((fq.capacity ≤ length fq.buffer)
          × ((taken fq hdr addr arrival).buffer ≡ fq.buffer)
          × ((taken fq hdr addr arrival).local_drops ≡ add64 fq.local_drops 1))
unfolding offer capture_remote
taken_cases fq hdr addr arrival = elim (Bool-cases (ltb (length fq.buffer) fq.capacity)) [
  | inl r ↦ inl (ground arith, rw r, rw r)
  | inr r ↦ inr (ground arith, rw r, rw r)
]

-- A packet to an open queue that passes the gates is either put behind the others or counted as a
-- local drop, and a full channel alone decides which; its address is captured if there was none
-- before. A packet that fails a gate changes nothing of the queue.
deliver_cases :
    (fq : FlowQueue) (hdr : Header) (addr : UdpAddr) (arrival : ℤ)
    → fq.closed ≡ false
    → (fq' : FlowQueue) × (deliver fq hdr addr arrival ≡ some fq')
      × (((passes fq hdr addr ≡ false) × (fq' ≡ fq))
          ⊎ ((passes fq hdr addr ≡ true)
              × (fq'.remote ≡ (elim fq.remote [ none ↦ some addr | some a ↦ some a ]))
              × (((length fq.buffer < fq.capacity)
                    × (fq'.buffer ≡ fq.buffer ++ (record { h = hdr; arrival = arrival } ∷ []))
                    × (fq'.local_drops ≡ fq.local_drops))
                  ⊎ ((fq.capacity ≤ length fq.buffer)
                      × (fq'.buffer ≡ fq.buffer)
                      × (fq'.local_drops ≡ add64 fq.local_drops 1)))))
deliver_cases fq hdr addr arrival e = elim (Bool-cases (passes fq hdr addr)) [
  | inr p ↦ (fq, unfold deliver in rw p, inl (p, refl))
  | inl p ↦ (
    taken fq hdr addr arrival,
    unfold deliver in rw (p, e),
    inr (p, taken_remote fq hdr addr arrival, taken_cases fq hdr addr arrival),
  )
]

pub receive_from_lem :
    (fq fq' : FlowQueue) (b : List Observation) (obs : Observation)
    → receive_from fq b ≡ some (obs, fq')
    → (rest : List Observation) × (b ≡ obs ∷ rest) × (fq' ≡ record fq { buffer = rest })
unfolding receive_from
receive_from_lem fq fq' [] obs e = cc
receive_from_lem fq fq' (x ∷ rest) obs e = (rest, ground arith, ground arith)

pub receive_from-IsSuccessor :
    (fq fq' : FlowQueue) (obs : Observation)
    → receive_from fq fq.buffer ≡ some (obs, fq')
    → (fq.buffer ≡ obs ∷ fq'.buffer) × IsSuccessor fq fq'
receive_from-IsSuccessor fq fq' obs e =
    let (rest, f, g) = receive_from_lem fq fq' fq.buffer obs e in
    (
      ground (arith, f, g),
      record {
        closed = ground (arith, g);
        room = λ r. ground (arith, g, f);
        ip = ground (arith, g);
        token = ground (arith, g);
      },
    )

-- The captured address after a delivery was there before, or is that of a packet that passed.
pub deliver_remote :
    (fq fq' : FlowQueue) (hdr : Header) (addr a : UdpAddr) (arrival : ℤ)
    → deliver fq hdr addr arrival ≡ some fq'
    → fq'.remote ≡ some a
    → (fq.remote ≡ some a) ⊎ ((passes fq hdr addr ≡ true) × (addr ≡ a))
unfolding deliver offer capture_remote
deliver_remote fq fq' hdr addr a arrival e r = ground arith

-- An address that was captured stays.
pub deliver_latched :
    (fq fq' : FlowQueue) (hdr : Header) (addr a : UdpAddr) (arrival : ℤ)
    → deliver fq hdr addr arrival ≡ some fq'
    → fq.remote ≡ some a
    → fq'.remote ≡ some a
unfolding deliver offer capture_remote
deliver_latched fq fq' hdr addr a arrival e r = ground arith
