-- ===== src/Examples/Clients.antt =====
-- cmd/dropline/trace.go: arguments that the client accepts, and the Hello that it makes of them.
use dropline.Prelude.{
  [], ◌∷◌, ◌++◌, Bool, true, false, not, none, some, if◌then◌else◌, ◌≡◌, ◌↔◌, refl, arith,
}
use dropline.Prelude.Int.{pos}
use dropline.Control.Messages.{Ready}
use dropline.Serve.Admission.{validate_hello, resolve_reverse_stream}
use dropline.Trace.Texts.{
  Text, is_space, is_space_pair, is_space_triple, space_before, space_behind, trim_from, trim_space,
  to_lower, parse_digits, parse_uint,
}
use dropline.Trace.Args.{
  Flags, TraceConfig, report, auto, off, mode_text, auto_word, off_word, default_port, mult_of,
  rate_of, parse_suffixed, parse_rate, one_if_set, pick_output_mode, parse_mode, colons,
  starts_bracket, normalize_target, numbers_bad, single, parse_trace_args,
}
use dropline.Trace.Hello.{make_hello, mint, mint_other, reverse_flow_id_of, reverse_stream_on}
use dropline.Trace.Hello.Admitted.{IsWelcome, hello_admitted_iff}
use dropline.Trace.Hello.Negotiated.{is_off, reverse_stream_agreed}
use dropline.Stream.Net.{bytes_equal}

-- "host"
abbrev host : Text
host = b'h' ∷ b'o' ∷ b's' ∷ b't' ∷ []

-- "1M"
abbrev one_mega : Text
one_mega = b'1' ∷ b'M' ∷ []

-- "100k"
abbrev hundred_kilo : Text
hundred_kilo = b'1' ∷ b'0' ∷ b'0' ∷ b'k' ∷ []

abbrev flags : Flags
flags = record {
  rate = one_mega;
  duration = pos 10000000000;
  packet_size = pos 1200;
  mtr_interval = pos 1000000000;
  max_hops = pos 30;
  tui = false;
  report = true;
  json = false;
  save = [];
  reverse_trace = auto_word;
  reverse_stream = b'A' ∷ b'u' ∷ b't' ∷ b'o' ∷ [];
  tcp_corroborate = off_word;
  tcp_corroborate_rate = hundred_kilo;
  tcp_hop_probe = b' ' ∷ off_word;
  tcp_hop_probe_port = pos 443;
  positionals = host ∷ [];
}

abbrev pub accepted : TraceConfig
accepted = record {
  target = host ++ (b':' ∷ default_port);
  rate_bps = pos 1000000;
  duration = pos 10000000000;
  packet_size = pos 1200;
  mtr_interval = pos 1000000000;
  max_hops = pos 30;
  output = report;
  save_path = [];
  reverse_trace = auto;
  reverse_stream = auto;
  tcp_corroborate = off;
  tcp_corroborate_rate = pos 100000;
  tcp_hop_probe = off;
  tcp_hop_probe_port = pos 443;
}

abbrev no_port : Text → Bool
no_port s = false

parsed_flags : parse_trace_args no_port false flags ≡ some accepted
unfolding parse_trace_args single normalize_target colons starts_bracket parse_rate parse_suffixed
    rate_of mult_of parse_uint parse_digits trim_space trim_from space_before space_behind is_space
    is_space_pair is_space_triple pick_output_mode one_if_set parse_mode to_lower bytes_equal
    numbers_bad
parsed_flags = refl

hello_admitted_iff_example :
    (validate_hello (make_hello accepted 7 8 9) (pos 100000000) ≡ none)
    ↔ IsWelcome accepted (pos 100000000)
hello_admitted_iff_example =
    hello_admitted_iff no_port false flags 7 8 9 (pos 100000000) parsed_flags (omega arith)

-- The server's answer to a client that has drawn its forward id 7, and then 8.
abbrev ready : Ready
ready = record {
  type = "ready";
  session_id = "a1";
  reverse_trace = "on";
  reverse_stream = "on";
  reverse_flow_id = 8;
  tcp_corroborate = "off";
  tcp_hop_probe = "off";
}

reverse_stream_agreed_example :
    (reverse_stream_on ready 8 ≡ not (is_off auto))
    × (resolve_reverse_stream (mode_text auto) 8 7
        ≡ (if is_off auto then ("off", 0) else ("on", 8)))
reverse_stream_agreed_example =
    reverse_stream_agreed auto 7 8 (7 ∷ 8 ∷ []) ready
      (unfold reverse_flow_id_of mint_other mint in refl)
      (unfold resolve_reverse_stream mode_text in refl)
      (unfold resolve_reverse_stream mode_text in refl)

-- U+00A0 before a word and U+3000 behind it are white space.
trimmed_text : trim_space (194 ∷ 160 ∷ 111 ∷ 110 ∷ 227 ∷ 128 ∷ 128 ∷ []) ≡ 111 ∷ 110 ∷ []
unfolding trim_space trim_from space_before space_behind is_space is_space_pair is_space_triple
trimmed_text = refl
