-- ===== src/Report/Hints.antt =====
-- internal/report/text.go and internal/agg/bursts.go: the lines that a report says more with than a
-- number, as values with what is printed into them.
use dropline.Prelude.{
  ℕ, ◌+◌, ◌-◌, str_eq, List, [], ◌∷◌, length, ◌||◌, Option, none, some, ◌==◌, get_elem?,
  if◌then◌else◌,
}
use dropline.Prelude.Int.{ℤ, pos, leb_ℤ, eqb_ℤ, ◌+ℤ◌}
use dropline.Prelude.Words.{wrap_i64}
use dropline.Report.{ReverseHopReport}

-- The tiers of `FormatBurstSummary`.
pub data BurstSummary : Type 0 where
  no_runs : BurstSummary
  isolated short_runs : ℤ → BurstSummary
  app_impacting : ℤ → ℤ → BurstSummary

unfoldable pub format_burst_summary : ℤ → ℤ → ℤ → BurstSummary
format_burst_summary ten99 hundred_up max =
    if eqb_ℤ max (pos 0)
    then no_runs
    else if leb_ℤ max (pos 2)
    then isolated max
    else if leb_ℤ max (pos 9)
    then short_runs max
    else app_impacting max (wrap_i64 (ten99 +ℤ hundred_up))

-- The units of `FormatRate`.
pub data RateUnit : Type 0 where
  gbps mbps kbps bps : RateUnit

unfoldable pub rate_unit : ℤ → RateUnit
rate_unit n =
    if leb_ℤ (pos 1000000000) n
    then gbps
    else if leb_ℤ (pos 1000000) n
    then mbps
    else if leb_ℤ (pos 1000) n
    then kbps
    else bps

-- What `leadingFilteredHint` says: nothing, "TTL 1 silent" with the TTL that answers, or the first and
-- the last of the silent TTLs with that.
pub data FilteredHint : Type 0 where
  no_hint : FilteredHint
  one_silent : ℤ → FilteredHint
  some_silent : ℤ → ℤ → ℤ → FilteredHint

module _ {F : Type 0} where
  -- The hops ahead of the first with an address.
  unfoldable pub leading_silent : List (ReverseHopReport F) → ℕ
  leading_silent [] = 0
  leading_silent (h ∷ hs) = let n = leading_silent hs in if str_eq h.addr "" then n + 1 else 0

  -- hops[0], hops[leading-1] and hops[leading].
  unfoldable pub hint_of :
      ℕ
      → Option (ReverseHopReport F)
      → Option (ReverseHopReport F)
      → Option (ReverseHopReport F)
      → Option FilteredHint
  hint_of leading (some top) (some last) (some first) =
      some (if leading == 1 then one_silent first.ttl else some_silent top.ttl last.ttl first.ttl)
  hint_of leading none last first = none
  hint_of leading (some top) none first = none
  hint_of leading (some top) (some last) none = none

  -- `leadingFilteredHint`; `none` is a panic of an index out of range.
  unfoldable pub leading_filtered_hint : List (ReverseHopReport F) → Option FilteredHint
  leading_filtered_hint hops =
      let leading = leading_silent hops in
      if leading == 0 || leading == length hops
      then some no_hint
      else hint_of leading (get_elem? hops 0) (get_elem? hops (leading - 1))
          (get_elem? hops leading)
