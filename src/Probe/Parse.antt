-- ===== src/Probe/Parse.antt =====
-- internal/probe/parse.go and parse_tcp.go: which probe an inbound ICMP message answers. A parsed
-- message of golang.org/x/net/icmp is the parameter `parse`, a function of the bytes; its Type is
-- ICMP's type number. 16-bit words that the code masks are taken modulo 2 ^ 16.
pub mod Quotes
use dropline.Prelude.{
  ℕ, ◌+◌, ◌*◌, ◌%◌, ◌^◌, List, [], ◌∷◌, Bool, true, false, not, ◌&&◌, ◌||◌, Option, none, some,
  length, take, drop, get_elem?, ltb, ◌==◌, if◌then◌else◌,
}
use dropline.Prelude.Int.{ℤ}
use dropline.Prelude.Words.{get_be, to_u64}
use dropline.Stream.Net.{Ip, ip_equal}

-- The bodies of icmp.Message that the code tells apart.
pub data Body : Type 0 where
  echo : ℤ → ℤ → Body
  time_exceeded : List ℕ → Body
  other : Body

pub record Message : Type 0 where
  pub kind : ℕ
  pub code : ℕ
  pub body : Body

-- ipv4.ICMPTypeEchoReply and ipv4.ICMPTypeTimeExceeded.
abbrev pub echo_reply : ℕ
echo_reply = 0

abbrev pub ttl_exceeded : ℕ
ttl_exceeded = 11

-- `reply` of parse.go: its kind, with the fields that the kind sets.
pub data Answer : Type 0 where
  ignored : Answer
  exceeded : ℕ → Ip → Answer
  echoed : ℕ → Ip → Answer

-- `tcpReply` of parse_tcp.go.
pub data TcpAnswer : Type 0 where
  ignored : TcpAnswer
  exceeded : ℕ → Ip → TcpAnswer

-- data[i:i+n] within the bounds of the slice.
abbrev pub slice : ℕ → ℕ → List ℕ → List ℕ
slice i n bytes = take n (drop i bytes)

-- data[0], 0 where the slice is empty: it is read behind a test of the length.
abbrev pub first_byte : List ℕ → ℕ
first_byte [] = 0
first_byte (b ∷ bs) = b

-- int(data[0]&0x0f) * 4
unfoldable pub header_length : List ℕ → ℕ
header_length bytes = first_byte bytes % 16 * 4

unfoldable pub embedded_echo_id_seq : List ℕ → Option (ℕ × ℕ)
embedded_echo_id_seq bytes =
    if ltb (length bytes) 1
    then none
    else let ihl = header_length bytes in
      if ltb ihl 20 || ltb (length bytes) (ihl + 8)
      then none
      else let icmp_hdr = slice ihl 8 bytes in
        some (get_be (slice 4 2 icmp_hdr), get_be (slice 6 2 icmp_hdr))

-- uint16(n)
abbrev pub low_word : ℤ → ℕ
low_word n = to_u64 n % 2 ^ 16

unfoldable pub classify_echo : Message → ℤ → ℤ → Ip → ℕ → Answer
classify_echo msg id seq src expected_id =
    if not (msg.kind == echo_reply)
    then Answer.ignored
    else if not (low_word id == expected_id)
    then Answer.ignored
    else Answer.echoed (low_word seq) src

unfoldable pub classify_exceeded : List ℕ → Ip → ℕ → Answer
classify_exceeded bytes src expected_id = elim (embedded_echo_id_seq bytes) [
  | none ↦ Answer.ignored
  | some (id, seq) ↦ if not (id == expected_id) then Answer.ignored else Answer.exceeded seq src
]

unfoldable pub classify : Message → Body → Ip → ℕ → Answer
classify msg (echo id seq) src expected_id = classify_echo msg id seq src expected_id
classify msg (time_exceeded bytes) src expected_id = classify_exceeded bytes src expected_id
classify msg other src expected_id = Answer.ignored

abbrev pub protocol_tcp : ℕ
protocol_tcp = 6

pub record EmbeddedTcp : Type 0 where
  pub src_port : ℕ
  pub dst_port : ℕ
  pub dst_ip : Ip
  pub inner_proto : ℕ

unfoldable pub embedded_tcp_header : List ℕ → Option EmbeddedTcp
embedded_tcp_header bytes =
    if ltb (length bytes) 20
    then none
    else let ihl = header_length bytes in
      if ltb ihl 20 || ltb (length bytes) (ihl + 4)
      then none
      else let tcp_hdr = slice ihl 4 bytes in
        some (record {
          src_port = get_be (slice 0 2 tcp_hdr);
          dst_port = get_be (slice 2 2 tcp_hdr);
          dst_ip = slice 16 4 bytes;
          inner_proto = first_byte (drop 9 bytes);
        })

-- The target and the port of the prober, against those of the packet that was quoted.
unfoldable pub attribute_tcp : EmbeddedTcp → Ip → Ip → ℕ → TcpAnswer
attribute_tcp h src target port =
    if not (h.inner_proto == protocol_tcp)
    then TcpAnswer.ignored
    else if not (ip_equal h.dst_ip target) || not (h.dst_port == port)
    then TcpAnswer.ignored
    else TcpAnswer.exceeded h.src_port src

unfoldable pub classify_tcp : Body → Ip → Ip → ℕ → TcpAnswer
classify_tcp (echo id seq) src target port = TcpAnswer.ignored
classify_tcp (time_exceeded bytes) src target port = elim (embedded_tcp_header bytes) [
  | none ↦ TcpAnswer.ignored
  | some h ↦ attribute_tcp h src target port
]
classify_tcp other src target port = TcpAnswer.ignored

module _ (parse : List ℕ → Option Message) where
  unfoldable pub parse_reply : List ℕ → Ip → ℕ → Answer
  parse_reply buf src expected_id = elim (parse buf) [
    | none ↦ Answer.ignored
    | some msg ↦ classify msg msg.body src expected_id
  ]

  unfoldable pub parse_tcp_reply : List ℕ → Ip → Ip → ℕ → TcpAnswer
  parse_tcp_reply buf src target port = elim (parse buf) [
    | none ↦ TcpAnswer.ignored
    | some msg ↦
        if not (msg.kind == ttl_exceeded)
        then TcpAnswer.ignored
        else if not (msg.code == 0)
        then TcpAnswer.ignored
        else classify_tcp msg.body src target port
  ]
