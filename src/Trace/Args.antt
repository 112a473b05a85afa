-- ===== src/Trace/Args.antt =====
-- cmd/dropline/trace.go: the arguments of `dropline trace`. What package flag has parsed comes in as
-- the record `Flags`; a text is the list of its bytes.
-- net.SplitHostPort is a parameter. Durations are nanoseconds.
pub mod Rates
pub mod Parsed
use dropline.Prelude.{
  ℕ, zero, suc, ◌+◌, ◌-◌, ◌*◌, ◌/◌, ◌^◌, String, List, [], ◌∷◌, ◌++◌, reverse, Bool, true, false,
  not, ◌&&◌, ◌||◌, Option, none, some, length, ltb, leb, ◌==◌, if◌then◌else◌,
}
use dropline.Prelude.Int.{ℤ, pos, ltb_ℤ, leb_ℤ}
use dropline.Stream.Net.{bytes_equal}
use dropline.Trace.Texts.{Text, trim_space, to_lower, parse_uint}

-- The multiplier that a suffix stands for, 1 for none.
unfoldable pub mult_of : ℕ → ℕ
mult_of last =
    if last == 107 || last == 75
    then 1000
    else if last == 109 || last == 77
    then 1000000
    else if last == 103 || last == 71
    then 1000000000
    else 1

-- What `parseRate` makes of its number and its multiplier.
unfoldable pub rate_of : Option ℕ → ℕ → Option ℕ
rate_of none mult = none
rate_of (some n) mult =
    if n == 0 then none else if ltb ((2 ^ 63 - 1) / mult) n then none else some (n * mult)

-- A text that is not empty, by its last character and those before it, in reverse.
unfoldable pub parse_suffixed : Text → Option ℕ
parse_suffixed [] = none
parse_suffixed (last ∷ before) =
    let mult = mult_of last in
    let digits = if mult == 1 then last ∷ before else before in
    rate_of (parse_uint (trim_space (reverse digits))) mult

unfoldable pub parse_rate : Text → Option ℕ
parse_rate raw = parse_suffixed (reverse (trim_space raw))

pub data OutputMode : Type 0 where
  tui report json : OutputMode

unfoldable pub one_if_set : Bool → ℕ
one_if_set b = if b then 1 else 0

unfoldable pub pick_output_mode : Bool → Bool → Bool → Bool → Option OutputMode
pick_output_mode tui_flag report_flag json_flag is_tty =
    if ltb 1 (one_if_set tui_flag + one_if_set report_flag + one_if_set json_flag)
    then none
    else if tui_flag
    then some tui
    else if report_flag
    then some report
    else if json_flag
    then some json
    else if is_tty
    then some tui
    else some report

-- reverseTraceMode, of all four preferences.
pub data Mode : Type 0 where
  auto on off : Mode

unfoldable pub mode_text : Mode → String
mode_text auto = "auto"
mode_text on = "on"
mode_text off = "off"

abbrev pub auto_word : Text
auto_word = b'a' ∷ b'u' ∷ b't' ∷ b'o' ∷ []

abbrev pub on_word : Text
on_word = b'o' ∷ b'n' ∷ []

abbrev pub off_word : Text
off_word = b'o' ∷ b'f' ∷ b'f' ∷ []

-- `parseReverseTrace`, and the three functions like it.
unfoldable pub parse_mode : Text → Option Mode
parse_mode raw =
    let word = to_lower (trim_space raw) in
    if bytes_equal word auto_word
    then some auto
    else if bytes_equal word on_word
    then some on
    else if bytes_equal word off_word
    then some off
    else none

abbrev pub min_mtr_interval : ℕ
min_mtr_interval = 100 * 1000000

abbrev pub max_mtr_interval : ℕ
max_mtr_interval = 60 * 1000000000

-- The values of the flags, and what stands between them.
pub record Flags : Type 0 where
  pub rate : Text
  pub duration : ℤ
  pub packet_size : ℤ
  pub mtr_interval : ℤ
  pub max_hops : ℤ
  pub tui : Bool
  pub report : Bool
  pub json : Bool
  pub save : Text
  pub reverse_trace : Text
  pub reverse_stream : Text
  pub tcp_corroborate : Text
  pub tcp_corroborate_rate : Text
  pub tcp_hop_probe : Text
  pub tcp_hop_probe_port : ℤ
  pub positionals : List Text

pub record TraceConfig : Type 0 where
  pub target : Text
  pub rate_bps : ℤ
  pub duration : ℤ
  pub packet_size : ℤ
  pub mtr_interval : ℤ
  pub max_hops : ℤ
  pub output : OutputMode
  pub save_path : Text
  pub reverse_trace : Mode
  pub reverse_stream : Mode
  pub tcp_corroborate : Mode
  pub tcp_corroborate_rate : ℤ
  pub tcp_hop_probe : Mode
  pub tcp_hop_probe_port : ℤ

abbrev pub default_port : Text
default_port = b'5' ∷ b'3' ∷ b'0' ∷ b'1' ∷ []

-- strings.Count(raw, ":")
unfoldable pub colons : Text → ℕ
colons [] = 0
colons (c ∷ cs) = (if c == b':' then 1 else 0) + colons cs

unfoldable pub starts_bracket : Text → Bool
starts_bracket [] = false
starts_bracket (c ∷ cs) = c == b'['

-- `normalizeTarget`; `has_port` says whether net.SplitHostPort accepts a text.
unfoldable pub normalize_target : (Text → Bool) → Text → Option Text
normalize_target has_port [] = none
normalize_target has_port (c ∷ cs) =
    let raw = c ∷ cs in
    if has_port raw
    then some raw
    else if leb 2 (colons raw) && not (starts_bracket raw)
    then some ((b'[' ∷ raw) ++ (b']' ∷ b':' ∷ default_port))
    else some (raw ++ (b':' ∷ default_port))

-- The checks of numbers at the end of `parseTraceArgs`.
unfoldable pub numbers_bad : Flags → Bool
numbers_bad f =
    (ltb_ℤ f.tcp_hop_probe_port (pos 1) || ltb_ℤ (pos 65535) f.tcp_hop_probe_port)
    || (ltb_ℤ f.packet_size (pos 32) || ltb_ℤ (pos 65507) f.packet_size)
    || (ltb_ℤ f.max_hops (pos 1) || ltb_ℤ (pos 255) f.max_hops)
    || leb_ℤ f.duration (pos 0)
    || (ltb_ℤ f.mtr_interval (pos min_mtr_interval) || ltb_ℤ (pos max_mtr_interval) f.mtr_interval)

-- `parseTraceArgs` behind flag parsing; `none` is any of its errors.
infixl 5 ◌>>=◌
abbrev pub ◌>>=◌ {ℓ κ} : {A : Type ℓ} {B : Type κ} → Option A → (A → Option B) → Option B
none >>= f = none
some a >>= f = f a

unfoldable pub single : List Text → Option Text
single [] = none
single (t ∷ []) = some t
single (t ∷ u ∷ ts) = none

unfoldable pub parse_trace_args : (Text → Bool) → Bool → Flags → Option TraceConfig
parse_trace_args has_port is_tty f = do
  raw ← single f.positionals
  target ← normalize_target has_port raw
  rate ← parse_rate f.rate
  output ← pick_output_mode f.tui f.report f.json is_tty
  reverse_trace ← parse_mode f.reverse_trace
  reverse_stream ← parse_mode f.reverse_stream
  tcp_corroborate ← parse_mode f.tcp_corroborate
  corroborate_rate ← parse_rate f.tcp_corroborate_rate
  tcp_hop_probe ← parse_mode f.tcp_hop_probe
  if numbers_bad f
      then none
      else some (record {
        target = target;
        rate_bps = pos rate;
        duration = f.duration;
        packet_size = f.packet_size;
        mtr_interval = f.mtr_interval;
        max_hops = f.max_hops;
        output = output;
        save_path = f.save;
        reverse_trace = reverse_trace;
        reverse_stream = reverse_stream;
        tcp_corroborate = tcp_corroborate;
        tcp_corroborate_rate = pos corroborate_rate;
        tcp_hop_probe = tcp_hop_probe;
        tcp_hop_probe_port = f.tcp_hop_probe_port;
      })
