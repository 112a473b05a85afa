-- ===== src/Trace/Args/Parsed.antt =====
-- cmd/dropline/trace.go: what the accepted arguments have passed.
use dropline.Prelude.{
  ℕ, ◌<◌, ◌^◌, Bool, false, Option, none, some, ◌≡◌, refl, subst, Bool-cases, inl, inr,
}
use dropline.Prelude.Int.{pos}
use dropline.Trace.Texts.{Text}
use dropline.Trace.Args.{
  Flags, TraceConfig, single, normalize_target, parse_rate, pick_output_mode, parse_mode,
  numbers_bad, parse_trace_args, ◌>>=◌,
}
use dropline.Trace.Args.Rates.{parse_rate_bounds}

-- The numbers of a config: its rates, above 0 and within an int64, and those of the flags, which
-- passed the checks.
pub record IsParsed (f : Flags) (cfg : TraceConfig) : Type 0 where
  pub rate : (r : ℕ) × (cfg.rate_bps ≡ pos r) × ((0 < r) × (r < 2 ^ 63))
  pub corroborate_rate : (r : ℕ) × (cfg.tcp_corroborate_rate ≡ pos r) × ((0 < r) × (r < 2 ^ 63))
  pub duration : cfg.duration ≡ f.duration
  pub packet_size : cfg.packet_size ≡ f.packet_size
  pub mtr_interval : cfg.mtr_interval ≡ f.mtr_interval
  pub max_hops : cfg.max_hops ≡ f.max_hops
  pub port : cfg.tcp_hop_probe_port ≡ f.tcp_hop_probe_port
  pub numbers : numbers_bad f ≡ false

-- What an answer that is no error satisfies.
abbrev Ensures {ℓ κ} : {A : Type ℓ} → (A → Type κ) → Option A → Type κ
Ensures P none = Unit
Ensures P (some a) = P a

>>=-Ensures {ℓ κ μ} :
    {A : Type ℓ} {B : Type κ} (P : B → Type μ) (m : Option A) (g : A → Option B)
    → ((a : A) → m ≡ some a → Ensures P (g a))
    → Ensures P (m >>= g)
>>=-Ensures P none g h = tt
>>=-Ensures P (some a) g h = h a refl

parse-Ensures :
    (has_port : Text → Bool) (is_tty : Bool) (f : Flags)
    → Ensures (IsParsed f) (parse_trace_args has_port is_tty f)
unfolding parse_trace_args
parse-Ensures has_port is_tty f = >>=-Ensures (IsParsed f) (single f.positionals) _ λ raw _.
    >>=-Ensures (IsParsed f) (normalize_target has_port raw) _ λ target _.
      >>=-Ensures (IsParsed f) (parse_rate f.rate) _ λ rate rate_ok.
        >>=-Ensures (IsParsed f) (pick_output_mode f.tui f.report f.json is_tty) _ λ output _.
          >>=-Ensures (IsParsed f) (parse_mode f.reverse_trace) _ λ reverse_trace _.
            >>=-Ensures (IsParsed f) (parse_mode f.reverse_stream) _ λ reverse_stream _.
              >>=-Ensures (IsParsed f) (parse_mode f.tcp_corroborate) _ λ tcp_corroborate _.
                >>=-Ensures (IsParsed f) (parse_rate f.tcp_corroborate_rate) _ λ corr corr_ok.
                  >>=-Ensures (IsParsed f) (parse_mode f.tcp_hop_probe) _ λ tcp_hop_probe _.
                    elim (Bool-cases (numbers_bad f)) [
                      | inl bad ↦ rw bad tt
                      | inr good ↦ rw good (record {
                        rate = (rate, refl, parse_rate_bounds f.rate rate rate_ok);
                        corroborate_rate =
                            (corr, refl, parse_rate_bounds f.tcp_corroborate_rate corr corr_ok);
                        duration = refl;
                        packet_size = refl;
                        mtr_interval = refl;
                        max_hops = refl;
                        port = refl;
                        numbers = good;
                      })
                    ]

-- Accepted arguments make a config whose numbers have passed the checks.
pub parse_trace_args-IsParsed :
    (has_port : Text → Bool) (is_tty : Bool) (f : Flags) {cfg : TraceConfig}
    → parse_trace_args has_port is_tty f ≡ some cfg
    → IsParsed f cfg
parse_trace_args-IsParsed has_port is_tty f h =
    subst (Ensures (IsParsed f)) h (parse-Ensures has_port is_tty f)
