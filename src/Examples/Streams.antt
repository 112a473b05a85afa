-- ===== src/Examples/Streams.antt =====
-- internal/stream: packets with one loss, one reordering and one duplicate, and a header.
use mathlib.Core.List.Perm
use dropline.Prelude.{
  ℕ, zero, suc, ◌+◌, ◌≤◌, ◌<◌, List, [], ◌∷◌, All, length, contains, drop, ◌≡◌, refl, arith, none,
  some, ◌⊎◌,
}
use dropline.Prelude.Int.{pos}
use dropline.Stream.Header.{
  Header, IsInRange, ok, err, short_packet, encode_header, decode_header, magic_const,
}
use dropline.Stream.Header.RoundTrip.{decode-encode}
use dropline.Stream.Stats.{
  max_seen_entries, max_acceptable_gap, max_int64, observe_all, observe_seq, rejects, account,
  remember, first_packet, in_order, late, record_burst, count_burst,
}
use dropline.Stream.Stats.Missing.{missing}
use dropline.Stream.Stats.Conservation.{conservation, received}
use dropline.Stream.Stats.Reference.{reference, span}
use dropline.Stream.Stats.Order.{order_free}
use dropline.Stream.Stats.Bursts.{received-IsBursty, IsBursty}

abbrev replicate : ℕ → ℕ → List ℕ
replicate zero x = []
replicate (suc n) x = x ∷ replicate n x

abbrev pub arrivals : List ℕ
arrivals = 0 ∷ 3 ∷ 1 ∷ 3 ∷ []

abbrev swapped : List ℕ
swapped = 3 ∷ 0 ∷ 1 ∷ 3 ∷ []

arrivals-Small : All (λ s. s ≤ max_acceptable_gap) arrivals
arrivals-Small = (omega arith, (omega arith, (omega arith, (omega arith, tt))))

-- One packet is missing.
lost_one : (received arrivals).lost ≡ 1
unfolding observe_all observe_seq rejects contains account remember first_packet in_order late
    record_burst count_burst
lost_one = refl

conservation_example :
    ((received arrivals).recv + (received arrivals).lost ≡ (received arrivals).expected_seq)
    × ((received arrivals).lost ≡ missing (received arrivals).expected_seq (received arrivals).seen)
    × ((received arrivals).recv ≡ length (received arrivals).seen)
    × ((received arrivals).recv ≤ max_seen_entries)
    × ((received arrivals).lost ≤ max_int64)
conservation_example = conservation arrivals (omega arith)

reference_example :
    ((received arrivals).expected_seq ≡ span arrivals)
    × ((received arrivals).lost ≡ missing (span arrivals) arrivals)
    × ((received arrivals).recv + missing (span arrivals) arrivals ≡ span arrivals)
    × ((received arrivals).recv + (received arrivals).duplicates ≡ length arrivals)
reference_example = reference arrivals (omega arith) arrivals-Small

received-IsBursty_example : IsBursty (received arrivals)
received-IsBursty_example = received-IsBursty arrivals (omega arith)

order_free_example :
    ((received arrivals).recv ≡ (received swapped).recv)
    × ((received arrivals).lost ≡ (received swapped).lost)
    × ((received arrivals).duplicates ≡ (received swapped).duplicates)
    × ((received arrivals).expected_seq ≡ (received swapped).expected_seq)
order_free_example =
    order_free arrivals swapped (Perm.swap 3 0 (1 ∷ 3 ∷ [])) (omega arith) arrivals-Small

abbrev header : Header
header = record { magic = magic_const; flow_id = 7; seq = 300; tx_unix_ns = pos 1000; token = 9 }

header-IsInRange : IsInRange header
header-IsInRange = record {
  magic_u32 = omega arith;
  flow_id_u32 = omega arith;
  seq_u64 = omega arith;
  tx_i64 = omega arith;
  token_u64 = omega arith;
}

abbrev buffer : List ℕ
buffer = replicate 40 170

decode-encode_example :
    ((length buffer < 32)
      × (encode_header buffer header ≡ none)
      × (decode_header buffer ≡ err short_packet))
    ⊎ ((out : List ℕ) × (encode_header buffer header ≡ some out)
        × (drop 32 out ≡ drop 32 buffer)
        × (length out ≡ length buffer)
        × (decode_header out ≡ ok header))
decode-encode_example = decode-encode buffer header header-IsInRange refl
