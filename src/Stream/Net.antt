-- ===== src/Stream/Net.antt =====
-- The parts of Go's package net that internal/stream and cmd/dropline use: IP addresses as byte
-- lists of 4 or 16 bytes, with `To4` and `Equal` as the standard library has them.
use dropline.Prelude.{
  ℕ, List, [], ◌∷◌, Bool, true, false, ◌&&◌, Option, none, some, length, drop, take, ◌==◌,
  if◌then◌else◌,
}

abbrev pub Ip : Type 0
Ip = List ℕ

pub record UdpAddr : Type 0 where
  pub ip : Ip
  pub port : ℕ

unfoldable pub bytes_equal : List ℕ → List ℕ → Bool
bytes_equal [] [] = true
bytes_equal [] (y ∷ ys) = false
bytes_equal (x ∷ xs) [] = false
bytes_equal (x ∷ xs) (y ∷ ys) = x == y && bytes_equal xs ys

-- ::ffff:0:0/96
abbrev pub v4_in_v6_prefix : List ℕ
v4_in_v6_prefix = 0 ∷ 0 ∷ 0 ∷ 0 ∷ 0 ∷ 0 ∷ 0 ∷ 0 ∷ 0 ∷ 0 ∷ 0xff ∷ 0xff ∷ []

-- ip.To4(); `none` is nil.
unfoldable pub to4 : Ip → Option Ip
to4 ip =
    if length ip == 4
    then some ip
    else if length ip == 16 && bytes_equal (take 12 ip) v4_in_v6_prefix
    then some (drop 12 ip)
    else none

-- ip.Equal(other)
unfoldable pub ip_equal : Ip → Ip → Bool
ip_equal a b =
    if length a == length b
    then bytes_equal a b
    else if length a == 4 && length b == 16
    then bytes_equal (take 12 b) v4_in_v6_prefix && bytes_equal a (drop 12 b)
    else if length a == 16 && length b == 4
    then bytes_equal (take 12 a) v4_in_v6_prefix && bytes_equal (drop 12 a) b
    else false
