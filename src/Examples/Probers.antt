-- ===== src/Examples/Probers.antt =====
-- internal/probe: an ICMP prober of three hops after two sends, a reply and a pruning, and a
-- router's quotation of its packet.
use dropline.Prelude.{
  Bool, true, false, ◌↔◌, ℕ, ◌≢◌, ◌&&◌, String, List, [], ◌∷◌, ◌++◌, Option, none, some, All, ◌==◌,
  if◌then◌else◌, ◌≡◌, refl, arith,
}
use dropline.Prelude.Int.{ℤ, pos, pos_part, ◌+ℤ◌, ◌-ℤ◌}
use dropline.Stream.Net.{Ip, ip_equal, to4, bytes_equal}
use dropline.Probe.Parse.{
  Message, time_exceeded, Answer, TcpAnswer, parse_reply, parse_tcp_reply, ttl_exceeded,
  protocol_tcp, classify, classify_exceeded, classify_echo, embedded_echo_id_seq, header_length,
}
use dropline.Probe.Parse.Quotes.{quoted, ip_header, transport, IsHeader}
use dropline.Probe.Flight.Balance.{count}
use dropline.Probe.Flight.Keeps.{IsBalanced}
use dropline.Probe.Prober.{
  Config, Prober, run_loop, new_prober, send, sweep_ttls, receive, emit, validate_config, is_v4,
  ttls_from, new_flight, copies, new_hop, seq_after, take_answer,
}
use dropline.Probe.Prober.Blackout.{IsBlackout, run_loop_iff}
use dropline.Probe.Prober.Run.{Run, new, sweep, sent, received, run-IsBalanced}
use dropline.Probe.Flight.{
  max_ttl, register, in_table, credit, hop_replied, hop_sent, hop_settled, modify, nearer, rtt_ms,
  settle,
}
use dropline.Prelude.Words.{put_be, get_be, read_be, to_u64}
use dropline.Prelude.Dict.{erase, insert, lookup}
use dropline.Probe.HopState.{ewma_alpha, first_address, fold, record_reply, seed, smooth}
use dropline.Examples.Numbers.{numbers}

-- Nine bytes of an IPv4 header without options, up to its protocol; the six behind it.
abbrev front : List ℕ
front = 0x45 ∷ 0 ∷ 0 ∷ 28 ∷ 0 ∷ 0 ∷ 0 ∷ 0 ∷ 1 ∷ []

abbrev mid : List ℕ
mid = 0 ∷ 0 ∷ 192 ∷ 0 ∷ 2 ∷ 7 ∷ []

abbrev target : Ip
target = 203 ∷ 0 ∷ 113 ∷ 9 ∷ []

abbrev router : Ip
router = 198 ∷ 51 ∷ 100 ∷ 1 ∷ []

-- The router quotes an echo with the identifier 77 and the sequence number 1.
abbrev quotation : Message
quotation = record {
  kind = 11;
  code = 0;
  body = time_exceeded (ip_header front 1 mid target [] ++ transport 0x0800 0 77 1 []);
}

abbrev parse : List ℕ → Option Message
parse buf = some quotation

front-IsHeader : IsHeader front mid target [] 1
unfolding header_length
front-IsHeader = record { front_length = refl; mid_length = refl; dst_length = refl; ihl = refl }

quoted_example :
    (parse_reply parse [] router 77
      ≡ (if 77 == 77 then Answer.exceeded 1 router else Answer.ignored))
    × (parse_tcp_reply parse [] router target 443 ≡ (
        if 11 == ttl_exceeded
          && (0 == 0 && (1 == protocol_tcp && (ip_equal target target && 0 == 443)))
        then TcpAnswer.exceeded 0x0800 router
        else TcpAnswer.ignored))
quoted_example =
    quoted parse quotation [] router target 77 443 front mid target [] 1 0x0800 0 77 1 [] refl refl
      front-IsHeader (omega arith) (omega arith) (omega arith) (omega arith)

abbrev text : Ip → Option String
text ip = some "198.51.100.1"

abbrev config : Config
config = record { target = some target; mtr_interval = pos 1000000000; max_hops = pos 3 }

abbrev at_start : Prober ℤ
at_start = new_prober numbers config 77

-- The state after a send, or the one before it.
abbrev or_same : Prober ℤ → Option (Prober ℤ) → Prober ℤ
or_same p none = p
or_same p (some p') = p'

abbrev one_sent : Prober ℤ
one_sent = or_same at_start (send (pos 1000) 1 at_start)

abbrev one_answered : Prober ℤ
one_answered = receive numbers parse text (pos 5000) [] router one_sent

abbrev two_sent : Prober ℤ
two_sent = or_same one_answered (send (pos 6000) 2 one_answered)

two_sent-Run : Run numbers parse text config (3 ∷ []) (2 ∷ 1 ∷ []) two_sent
unfolding send sweep_ttls new_prober receive parse_reply validate_config is_v4 ttls_from new_flight
    copies new_hop seq_after take_answer max_ttl register in_table credit hop_replied hop_sent
    hop_settled modify nearer rtt_ms settle classify classify_exceeded classify_echo
    embedded_echo_id_seq header_length put_be get_be read_be to_u64 erase insert lookup ◌+ℤ◌ ◌-ℤ◌
    ewma_alpha first_address fold record_reply seed smooth to4 bytes_equal
two_sent-Run =
    sent (pos 6000) (received (pos 5000) [] router (sent (pos 1000) (sweep (new 77 refl)) refl))
      refl

run-IsBalanced_example :
    IsBalanced (pos_part config.max_hops) (λ t. count t (2 ∷ 1 ∷ [])) two_sent.flight
    × All (λ t. send (pos 7000) t two_sent ≢ none) (3 ∷ [])
    × (emit numbers config.mtr_interval true (pos 7000) (pos 7000) two_sent ≢ none)
run-IsBalanced_example =
    run-IsBalanced numbers parse text config true (pos 7000) (pos 7000) two_sent-Run (omega arith)

-- A good sweep between blackouts of four and of six.
abbrev sweeps : List Bool
sweeps = true ∷ true ∷ true ∷ true ∷ false ∷ true ∷ true ∷ true ∷ true ∷ true ∷ true ∷ []

run_loop_iff_example : (run_loop sweeps ≡ none) ↔ IsBlackout sweeps
run_loop_iff_example = run_loop_iff sweeps
