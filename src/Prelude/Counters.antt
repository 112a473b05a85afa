-- ===== src/Prelude/Counters.antt =====
-- Go's int64 counters, which start at 0 and only count up or down by natural amounts: their bit
-- pattern, with the wrap-around at 2 ^ 64 and the sign test of the two's complement.
use Prim.Native.Nat.{ℕ, ◌+◌, ◌-◌, ◌%◌, ◌^◌}
use mathlib.Core.Bool.{Bool, ◌&&◌}
use dropline.Prelude.Tests.{ltb}

-- c += n
abbrev pub add64 : ℕ → ℕ → ℕ
add64 c n = (c + n) % 2 ^ 64

-- c -= n
abbrev pub sub64 : ℕ → ℕ → ℕ
sub64 c n = (c + 2 ^ 64 - n) % 2 ^ 64

-- c > 0
abbrev pub is_pos64 : ℕ → Bool
is_pos64 c = ltb 0 c && ltb c (2 ^ 63)
