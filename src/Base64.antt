-- ===== src/Base64.antt =====
-- safe-crypto-cli/cli_base64.hpp: the Base64 encoder and decoder of the command line. Characters
-- are their codes.
pub mod Groups
pub mod Length
pub mod RoundTrip
use mathlib.Core.List.{reverse}
use claude_crypto.Base.{
  ℕ, ◌+◌, ◌-◌, ◌*◌, ◌/◌, ◌%◌, ◌^◌, bit_and, bit_or, Bool, true, false, not, ◌&&◌, ◌||◌,
  if◌then◌else◌, ◌==◌, ltb, Option, none, some, List, [], ◌∷◌, ◌++◌, length, get_or,
}
use claude_crypto.Base.Options.{◌>>=◌}
use claude_crypto.Api.Result.{Bytes}

-- "ABCDEFGHIJKLMNOPQRSTUVWXYZabcdefghijklmnopqrstuvwxyz0123456789+/"
abbrev pub table : Bytes
table =
    65 ∷ 66 ∷ 67 ∷ 68 ∷ 69 ∷ 70 ∷ 71 ∷ 72 ∷ 73 ∷ 74 ∷ 75 ∷ 76 ∷ 77 ∷ 78 ∷ 79 ∷ 80 ∷ 81 ∷ 82 ∷ 83
    ∷ 84 ∷ 85 ∷ 86 ∷ 87 ∷ 88 ∷ 89 ∷ 90 ∷ 97 ∷ 98 ∷ 99 ∷ 100 ∷ 101 ∷ 102 ∷ 103 ∷ 104 ∷ 105 ∷ 106
    ∷ 107 ∷ 108 ∷ 109 ∷ 110 ∷ 111 ∷ 112 ∷ 113 ∷ 114 ∷ 115 ∷ 116 ∷ 117 ∷ 118 ∷ 119 ∷ 120 ∷ 121 ∷ 122
    ∷ 48 ∷ 49 ∷ 50 ∷ 51 ∷ 52 ∷ 53 ∷ 54 ∷ 55 ∷ 56 ∷ 57 ∷ 43 ∷ 47 ∷ []

-- '='
abbrev pub padding : ℕ
padding = 61

abbrev pub u32 : ℕ → ℕ
u32 x = x % 2 ^ 32

-- The 24 bits of a group.
abbrev pub pack_bytes : ℕ → ℕ → ℕ → ℕ
pack_bytes x y z = bit_or (bit_or (u32 (x * 2 ^ 16)) (u32 (y * 2 ^ 8))) z

-- `table[(b >> shift) & 0x3F]`
abbrev pub sextet : ℕ → ℕ → ℕ
sextet b shift = get_or table (bit_and (b / 2 ^ shift) 0x3f) 0

-- The groups of three bytes, and what remains.
unfoldable pub base64_encode : Bytes → Bytes
base64_encode [] = []
base64_encode (x ∷ []) =
    let b = u32 (x * 2 ^ 16) in sextet b 18 ∷ sextet b 12 ∷ padding ∷ padding ∷ []
base64_encode (x ∷ y ∷ []) =
    let b = bit_or (u32 (x * 2 ^ 16)) (u32 (y * 2 ^ 8)) in
    sextet b 18 ∷ sextet b 12 ∷ sextet b 6 ∷ padding ∷ []
base64_encode (x ∷ y ∷ z ∷ data') =
    let b = pack_bytes x y z in
    sextet b 18 ∷ sextet b 12 ∷ sextet b 6 ∷ sextet b 0 ∷ base64_encode data'

-- `first <= c && c < first + count`
abbrev pub in_range : ℕ → ℕ → ℕ → Bool
in_range c first count = not (ltb c first) && ltb c (first + count)

-- The decode table: the value of a character, 0x40 for padding and 0xFF for all others.
unfoldable pub dtable : ℕ → ℕ
dtable c =
    if in_range c 65 26
    then c - 65
    else if in_range c 97 26
    then 26 + (c - 97)
    else if in_range c 48 10
    then 52 + (c - 48)
    else if c == 43
    then 62
    else if c == 47
    then 63
    else if c == padding
    then 0x40
    else 0xff

abbrev pub is_blank : ℕ → Bool
is_blank c = (c == 10 || c == 13) || c == 32

unfoldable pub strip_blanks : Bytes → Bytes
strip_blanks [] = []
strip_blanks (c ∷ chars) = let rest = strip_blanks chars in if is_blank c then rest else c ∷ chars

-- The loop takes characters off the end.
unfoldable pub strip_suffix : Bytes → Bytes
unfolding strip_blanks
strip_suffix input = reverse (strip_blanks (reverse input))

abbrev pub k_max_base64_input : ℕ
k_max_base64_input = 128 * 1024 * 1024

-- The bytes that a group stands for.
abbrev pub group_bytes : ℕ → Bool → Bool → Bytes
group_bytes b pad2 pad3 =
    bit_and (b / 2 ^ 16) 0xff
    ∷ ((if pad2 then [] else bit_and (b / 2 ^ 8) 0xff ∷ [])
        ++ (if pad3 then [] else bit_and b 0xff ∷ []))

-- A group of four values; `last` says that no group follows.
unfoldable pub decode_group : ℕ → ℕ → ℕ → ℕ → Bool → Option Bytes
decode_group c0 c1 c2 c3 last =
    let pad2 = c2 == 0x40 in
    let pad3 = c3 == 0x40 in
    let b =
      bit_or
        (bit_or (bit_or (u32 (bit_and c0 0x3f * 2 ^ 18)) (u32 (bit_and c1 0x3f * 2 ^ 12)))
          (u32 ((if pad2 then 0 else bit_and c2 0x3f) * 2 ^ 6)))
        (if pad3 then 0 else bit_and c3 0x3f) in
    if ((c0 == 0xff || c1 == 0xff) || c2 == 0xff) || c3 == 0xff
    then none
    else if c0 == 0x40 || c1 == 0x40
    then none
    else if pad2 && not pad3
    then none
    else if (pad2 || pad3) && not last
    then none
    else some (group_bytes b pad2 pad3)

abbrev pub is_empty : Bytes → Bool
is_empty [] = true
is_empty (c ∷ chars) = false

-- The loop over the groups; a rest of one to three characters does not reach it.
unfoldable pub decode_loop : Bytes → Option Bytes
unfolding decode_group dtable
decode_loop [] = some []
decode_loop (c0 ∷ []) = none
decode_loop (c0 ∷ c1 ∷ []) = none
decode_loop (c0 ∷ c1 ∷ c2 ∷ []) = none
decode_loop (c0 ∷ c1 ∷ c2 ∷ c3 ∷ input) = do
  bytes ← decode_group (dtable c0) (dtable c1) (dtable c2) (dtable c3) (is_empty input)
  out ← decode_loop input
  some (bytes ++ out)

unfoldable pub base64_decode : Bytes → Option Bytes
unfolding strip_suffix decode_loop
base64_decode input =
    let input = strip_suffix input in
    if ltb k_max_base64_input (length input)
    then none
    else if not (length input % 4 == 0)
    then none
    else decode_loop input
