-- ===== src/Trace/Texts.antt =====
-- What cmd/dropline/trace.go uses of packages strings and strconv. A text is the list of its bytes.
use dropline.Prelude.{
  ℕ, zero, suc, ◌+◌, ◌-◌, ◌*◌, ◌^◌, List, [], ◌∷◌, reverse, Bool, not, ◌&&◌, ◌||◌, Option, none,
  some, leb, ◌==◌, if◌then◌else◌,
}

abbrev pub Text : Type 0
Text = List ℕ

-- The white space of strings.TrimSpace, in UTF-8: the ASCII one; U+0085 and U+00A0; and U+1680,
-- U+2000 to U+200A, U+2028, U+2029, U+202F, U+205F and U+3000.
unfoldable pub is_space : ℕ → Bool
is_space c = c == 32 || (leb 9 c && leb c 13)

unfoldable pub is_space_pair : ℕ → ℕ → Bool
is_space_pair c d = c == 194 && (d == 133 || d == 160)

unfoldable pub is_space_triple : ℕ → ℕ → ℕ → Bool
is_space_triple c d e =
    (c == 225 && d == 154 && e == 128)
    || (c == 226 && d == 128 && ((leb 128 e && leb e 138) || e == 168 || e == 169 || e == 175))
    || (c == 226 && d == 129 && e == 159)
    || (c == 227 && d == 128 && e == 128)

-- The bytes of the white space that a text starts with.
unfoldable pub space_before : Text → ℕ
space_before [] = 0
space_before (c ∷ []) = if is_space c then 1 else 0
space_before (c ∷ d ∷ []) = if is_space c then 1 else if is_space_pair c d then 2 else 0
space_before (c ∷ d ∷ e ∷ cs) =
    if is_space c
    then 1
    else if is_space_pair c d
    then 2
    else if is_space_triple c d e
    then 3
    else 0

-- The bytes of the white space that a text ends with, which comes from its end.
unfoldable pub space_behind : Text → ℕ
space_behind [] = 0
space_behind (e ∷ []) = if is_space e then 1 else 0
space_behind (e ∷ d ∷ []) = if is_space e then 1 else if is_space_pair d e then 2 else 0
space_behind (e ∷ d ∷ c ∷ cs) =
    if is_space e
    then 1
    else if is_space_pair d e
    then 2
    else if is_space_triple c d e
    then 3
    else 0

-- The text without the white space at its start, of which so many bytes are still to be taken off.
unfoldable pub trim_from : (Text → ℕ) → ℕ → Text → Text
trim_from space skip [] = []
trim_from space (suc skip) (c ∷ cs) = trim_from space skip cs
trim_from space zero (c ∷ cs) =
    let width = space (c ∷ cs) in
    let rest = trim_from space (width - 1) cs in if width == 0 then c ∷ cs else rest

unfoldable pub trim_space : Text → Text
trim_space s = reverse (trim_from space_behind 0 (reverse (trim_from space_before 0 s)))

-- strings.ToLower on the ASCII letters. Of the others it brings only two to an ASCII letter, k and
-- i, which are in none of the words that its result is compared with.
unfoldable pub to_lower : Text → Text
to_lower [] = []
to_lower (c ∷ cs) = (if leb 65 c && leb c 90 then c + 32 else c) ∷ to_lower cs

-- The digits of strconv.ParseUint(s, 10, 64), behind a value.
unfoldable pub parse_digits : ℕ → Text → Option ℕ
parse_digits acc [] = some acc
parse_digits acc (c ∷ cs) =
    let rest = parse_digits (acc * 10 + (c - 48)) cs in
    if not (leb 48 c && leb c 57)
    then none
    else if leb (2 ^ 64) (acc * 10 + (c - 48))
    then none
    else rest

unfoldable pub parse_uint : Text → Option ℕ
parse_uint [] = none
parse_uint (c ∷ cs) = parse_digits 0 (c ∷ cs)
