-- ===== src/Probe/Parse/Quotes.antt =====
-- internal/probe/parse.go and parse_tcp.go: what the probers make of a router's quotation of the
-- packet that they sent.
use dropline.Prelude.{
  ℕ, ◌+◌, ◌/◌, ◌%◌, ◌^◌, ◌≤◌, ◌<◌, List, [], ◌∷◌, ◌++◌, false, ◌&&◌, ◌||◌, Option, some, length,
  take, drop, length-append, take-append, drop-append, drop-drop, ltb, ◌==◌, if◌then◌else◌, ◌≡◌,
  refl, sym, ap, ◌∙◌, arith,
}
use mathlib.Core.List.{append_assoc}
use dropline.Prelude.Words.{put_be, get_be, get_be-put_be, length-put_be}
use dropline.Stream.Net.{Ip, ip_equal}
use dropline.Probe.Parse.{
  time_exceeded, Message, Answer, TcpAnswer, slice, first_byte, header_length, embedded_echo_id_seq,
  embedded_tcp_header, classify_exceeded, classify, classify_tcp, attribute_tcp, ttl_exceeded,
  protocol_tcp, parse_reply, parse_tcp_reply,
}

-- What stands behind k bytes, whatever they are.
drop_behind : {k : ℕ} (i : ℕ) (xs ys : List ℕ) → length xs ≡ k → drop (k + i) (xs ++ ys) ≡ drop i ys
drop_behind {k} i xs ys e =
    sym (drop-drop i k (xs ++ ys))
    ∙ ap (drop i) (ap (λ (n : ℕ). drop n (xs ++ ys)) (sym e) ∙ drop-append xs ys)

pub slice_behind :
    {k : ℕ} (n : ℕ) (xs ys : List ℕ) → length xs ≡ k → slice k n (xs ++ ys) ≡ take n ys
slice_behind {k} n xs ys e =
    ap (take n) (ap (λ (m : ℕ). drop m (xs ++ ys)) (sym e) ∙ drop-append xs ys)

take_put : (k n : ℕ) (rest : List ℕ) → take k (put_be k n ++ rest) ≡ put_be k n
take_put k n rest =
    ap (λ (m : ℕ). take m (put_be k n ++ rest)) (sym (length-put_be k n)) ∙ take-append _ rest

-- An echo request: type, code and checksum, the identifier, the sequence number, the payload.
abbrev pub echo_packet : (t c s0 s1 id seq : ℕ) → List ℕ → List ℕ
echo_packet t c s0 s1 id seq payload = t ∷ c ∷ s0 ∷ s1 ∷ (put_be 2 id ++ (put_be 2 seq ++ payload))

first_byte-append : (xs ys : List ℕ) → 1 ≤ length xs → first_byte (xs ++ ys) ≡ first_byte xs
first_byte-append [] ys h = elim h [ ]
first_byte-append (x ∷ xs) ys h = refl

header_length-append :
    (xs ys : List ℕ) → 1 ≤ length xs → header_length (xs ++ ys) ≡ header_length xs
unfolding header_length
header_length-append xs ys h = rw (first_byte-append xs ys h)

two_bytes : (n : ℕ) → n < 2 ^ 16 → get_be (put_be 2 n) ≡ n
two_bytes n h = get_be-put_be 2 n (omega arith)

length-echo_packet :
    (t c s0 s1 id seq : ℕ) (payload : List ℕ)
    → length (echo_packet t c s0 s1 id seq payload) ≡ 8 + length payload
unfolding put_be
length-echo_packet t c s0 s1 id seq payload = omega arith

embedded_echo-quote :
    (ip : List ℕ) (t c s0 s1 id seq : ℕ) (payload : List ℕ)
    → header_length ip ≡ length ip
    → 20 ≤ length ip
    → id < 2 ^ 16
    → seq < 2 ^ 16
    → embedded_echo_id_seq (ip ++ echo_packet t c s0 s1 id seq payload) ≡ some (id, seq)
unfolding embedded_echo_id_seq
embedded_echo-quote ip t c s0 s1 id seq payload ihl long hi hs =
    let pkt = echo_packet t c s0 s1 id seq payload in
    let len : length (ip ++ pkt) ≡ length ip + (8 + length payload) =
      length-append ip pkt
      ∙ ap (λ (n : ℕ). length ip + n) (length-echo_packet t c s0 s1 id seq payload) in
    let some_byte : ltb (length (ip ++ pkt)) 1 ≡ false = ground (arith, len) in
    let head : header_length (ip ++ pkt) ≡ length ip =
      header_length-append ip pkt (omega arith) ∙ ihl in
    let fits : (ltb (length ip) 20 || ltb (length (ip ++ pkt)) (length ip + 8)) ≡ false =
      ground (arith, len) in
    rw (some_byte, head, fits, slice_behind 8 ip pkt refl)
      (unfold put_be in ap some (λ i. (two_bytes id hi i, two_bytes seq hs i)))

-- An IPv4 header: nine bytes up to the protocol, six more up to the destination, the options.
abbrev pub ip_header : List ℕ → ℕ → List ℕ → List ℕ → List ℕ → List ℕ
ip_header front proto mid dst options = front ++ (proto ∷ (mid ++ (dst ++ options)))

-- The first bytes of a TCP segment: its ports, and what follows.
abbrev pub tcp_segment : ℕ → ℕ → List ℕ → List ℕ
tcp_segment src_port dst_port rest = put_be 2 src_port ++ (put_be 2 dst_port ++ rest)

length-tcp_segment :
    (src_port dst_port : ℕ) (rest : List ℕ)
    → length (tcp_segment src_port dst_port rest) ≡ 4 + length rest
unfolding put_be
length-tcp_segment s d rest = omega arith

-- The lengths of the parts of an IPv4 header whose IHL counts them all.
pub record IsHeader (front mid dst options : List ℕ) (proto : ℕ) : Type 0 where
  pub front_length : length front ≡ 9
  pub mid_length : length mid ≡ 6
  pub dst_length : length dst ≡ 4
  pub ihl : header_length (ip_header front proto mid dst options) ≡ 20 + length options

length-ip_header :
    (front mid dst options : List ℕ) (proto : ℕ)
    → IsHeader front mid dst options proto
    → length (ip_header front proto mid dst options) ≡ 20 + length options
length-ip_header front mid dst options proto w = omega (
  arith,
  length-append front (proto ∷ (mid ++ (dst ++ options))),
  length-append mid (dst ++ options),
  length-append dst options,
  w.front_length,
  w.mid_length,
  w.dst_length,
)

ip_header_assoc :
    (front mid dst options rest : List ℕ) (proto : ℕ)
    → ip_header front proto mid dst options ++ rest
      ≡ front ++ (proto ∷ (mid ++ (dst ++ (options ++ rest))))
ip_header_assoc front mid dst options rest proto = simp append_assoc

quoted_protocol :
    (front mid dst options rest : List ℕ) (proto : ℕ)
    → IsHeader front mid dst options proto
    → first_byte (drop 9 (ip_header front proto mid dst options ++ rest)) ≡ proto
quoted_protocol front mid dst options rest proto w = rw (
  ip_header_assoc front mid dst options rest proto,
  drop_behind 0 front (proto ∷ (mid ++ (dst ++ (options ++ rest)))) w.front_length,
)

quoted_destination :
    (front mid dst options rest : List ℕ) (proto : ℕ)
    → IsHeader front mid dst options proto
    → slice 16 4 (ip_header front proto mid dst options ++ rest) ≡ dst
quoted_destination front mid dst options rest proto w =
    rw
      (
        ip_header_assoc front mid dst options rest proto,
        drop_behind 7 front (proto ∷ (mid ++ (dst ++ (options ++ rest)))) w.front_length,
        drop_behind 0 mid (dst ++ (options ++ rest)) w.mid_length,
      )
      (ap (λ (n : ℕ). take n (dst ++ (options ++ rest))) (sym w.dst_length) ∙ take-append dst _)

embedded_tcp-quote :
    (front mid dst options : List ℕ) (proto src_port dst_port : ℕ) (rest : List ℕ)
    → IsHeader front mid dst options proto
    → src_port < 2 ^ 16
    → dst_port < 2 ^ 16
    → embedded_tcp_header
        (ip_header front proto mid dst options ++ tcp_segment src_port dst_port rest)
      ≡ some
          (record { src_port = src_port; dst_port = dst_port; dst_ip = dst; inner_proto = proto })
unfolding embedded_tcp_header
embedded_tcp-quote front mid dst options proto src_port dst_port rest w hs hd =
    let ip = ip_header front proto mid dst options in
    let seg = tcp_segment src_port dst_port rest in
    let ip_len : length ip ≡ 20 + length options = length-ip_header front mid dst options proto w in
    let len : length (ip ++ seg) ≡ 20 + length options + (4 + length rest) =
      omega (arith, length-append ip seg, ip_len, length-tcp_segment src_port dst_port rest) in
    let head : header_length (ip ++ seg) ≡ length ip =
      header_length-append ip seg (omega arith) ∙ (w.ihl ∙ sym ip_len) in
    let long : ltb (length (ip ++ seg)) 20 ≡ false = ground (arith, len) in
    let fits : (ltb (length ip) 20 || ltb (length (ip ++ seg)) (length ip + 4)) ≡ false =
      ground (arith, len, ip_len) in
    rw
      (
        long,
        head,
        fits,
        slice_behind 4 ip seg refl,
        quoted_protocol front mid dst options seg proto w,
        quoted_destination front mid dst options seg proto w,
      )
      (unfold put_be in
        ap some (λ i. record {
          src_port = two_bytes src_port hs i;
          dst_port = two_bytes dst_port hd i;
          dst_ip = dst;
          inner_proto = proto;
        }))

-- The first eight bytes of a transport header, as four words, and what follows. An echo has its
-- identifier and its sequence number in the last two, a TCP segment its ports in the first two.
abbrev pub transport : ℕ → ℕ → ℕ → ℕ → List ℕ → List ℕ
transport w0 w1 w2 w3 rest = tcp_segment w0 w1 (put_be 2 w2 ++ (put_be 2 w3 ++ rest))

quoted_words :
    (ip : List ℕ) (w0 w1 w2 w3 : ℕ) (rest : List ℕ)
    → header_length ip ≡ length ip
    → 20 ≤ length ip
    → w2 < 2 ^ 16
    → w3 < 2 ^ 16
    → embedded_echo_id_seq (ip ++ transport w0 w1 w2 w3 rest) ≡ some (w2, w3)
unfolding put_be
quoted_words ip w0 w1 w2 w3 rest =
    embedded_echo-quote ip (w0 / 256 % 256) (w0 % 256) (w1 / 256 % 256) (w1 % 256) w2 w3 rest

-- A message that quotes a packet with a whole IPv4 header and eight bytes behind it, in 16-bit
-- words: the ICMP prober takes it for the reply to the probe of the sequence number in the fourth
-- word exactly if it is a TimeExceeded body whose third word is its identifier, and the TCP prober
-- for the reply to the probe of the source port in the first word exactly if it is of type 11 and
-- code 0, and the packet was TCP to the prober's target and port; else each of them ignores it.
pub quoted :
    (parse : List ℕ → Option Message) (msg : Message) (buf : List ℕ) (src target : Ip) (id port : ℕ)
    (front mid dst options : List ℕ) (proto w0 w1 w2 w3 : ℕ) (rest : List ℕ)
    → parse buf ≡ some msg
    → msg.body ≡ time_exceeded (ip_header front proto mid dst options ++ transport w0 w1 w2 w3 rest)
    → IsHeader front mid dst options proto
    → w0 < 2 ^ 16
    → w1 < 2 ^ 16
    → w2 < 2 ^ 16
    → w3 < 2 ^ 16
    → (parse_reply parse buf src id ≡ (if w2 == id then Answer.exceeded w3 src else Answer.ignored))
      × (parse_tcp_reply parse buf src target port ≡ (
          if msg.kind == ttl_exceeded
            && (msg.code == 0 && (proto == protocol_tcp && (ip_equal dst target && w1 == port)))
          then TcpAnswer.exceeded w0 src
          else TcpAnswer.ignored))
unfolding parse_reply parse_tcp_reply classify classify_tcp classify_exceeded
quoted parse msg buf src target id port front mid dst options proto w0 w1 w2 w3 rest p b w h0 h1 h2
      h3 =
    let ip = ip_header front proto mid dst options in
    let len : length ip ≡ 20 + length options = length-ip_header front mid dst options proto w in
    let echo = quoted_words ip w0 w1 w2 w3 rest (w.ihl ∙ sym len) (omega arith) h2 h3 in
    let tcp =
      embedded_tcp-quote front mid dst options proto w0 w1 (put_be 2 w2 ++ (put_be 2 w3 ++ rest)) w
        h0 h1 in
    (
      rw (p, parse_reply) (rw (b, classify) (rw (echo, classify_exceeded) (ground arith))),
      rw (p, parse_tcp_reply)
          (rw (b, classify_tcp) (rw tcp (unfold attribute_tcp in ground arith))),
    )
