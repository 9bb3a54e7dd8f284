-- ===== src/Base64/RoundTrip.antt =====
-- safe-crypto-cli/cli_base64.hpp: what is encoded, decoded again.
use claude_crypto.Base.{
  ℕ, ◌+◌, ◌*◌, ◌/◌, ◌%◌, ◌^◌, ◌<◌, ◌≤◌, ◌≡◌, refl, ap, ap₂, ◌∙◌, bit_or, bit_and_mask, true, false,
  ◌==◌, if◌then◌else◌, ltb, some, none, [], ◌∷◌, ◌++◌, length, arith,
}
use claude_crypto.Api.Result.{Bytes, AreBytes}
use claude_crypto.Base64.{
  padding, u32, pack_bytes, sextet, dtable, group_bytes, decode_group, decode_loop, is_empty,
  k_max_base64_input, base64_encode, base64_decode,
}
use claude_crypto.Base64.Groups.{
  dtable-sextet, pack_two, pack_bytes_lem, decode_full, decode_one_pad, decode_two_pads,
  group_bytes-eq,
}
use claude_crypto.Base64.Length.{length-base64_encode, strip_suffix-base64_encode}

-- One group and the groups behind it.
decode_loop-cons :
    (c0 c1 c2 c3 : ℕ) (input : Bytes) {bytes out : Bytes}
    → decode_group (dtable c0) (dtable c1) (dtable c2) (dtable c3) (is_empty input) ≡ some bytes
    → decode_loop input ≡ some out
    → decode_loop (c0 ∷ c1 ∷ c2 ∷ c3 ∷ input) ≡ some (bytes ++ out)
unfolding decode_loop
decode_loop-cons c0 c1 c2 c3 input group rest = rw (group, rest) refl

dtable-padding : dtable padding ≡ 0x40
unfolding dtable
dtable-padding = refl

decode_loop-nil : decode_loop [] ≡ some []
unfolding decode_loop
decode_loop-nil = refl

-- The group of one last byte, of two, and a whole group with the groups behind it.
decode_last : (x : ℕ) → x < 2 ^ 8 → decode_loop (base64_encode (x ∷ [])) ≡ some (x ∷ [])
unfolding base64_encode
decode_last x hx =
    let b : ℕ = u32 (x * 2 ^ 16) in
    let whole : b / 2 ^ 18 % 64 * 2 ^ 18 + b / 2 ^ 12 % 64 * 2 ^ 12 + 0 * 2 ^ 6 + 0 ≡ x * 2 ^ 16 =
      omega (arith, hx) in
    let first : x * 2 ^ 16 / 2 ^ 16 % 256 ≡ x = omega (arith, hx) in
    decode_loop-cons (sextet b 18) (sextet b 12) padding padding [] {bytes = x ∷ []} {out = []}
      (rw (dtable-sextet b 18, dtable-sextet b 12, dtable-padding)
        (decode_two_pads (b / 2 ^ 18 % 64) (b / 2 ^ 12 % 64) (omega arith) (omega arith)
          ∙ ap (λ (t : ℕ). some (group_bytes t true true)) whole
          ∙ ap (λ (t : ℕ). some (t ∷ [])) (bit_and_mask 8 (x * 2 ^ 16 / 2 ^ 16) ∙ first)))
      decode_loop-nil

decode_last_two :
    (x y : ℕ) → x < 2 ^ 8 → y < 2 ^ 8 → decode_loop (base64_encode (x ∷ y ∷ [])) ≡ some (x ∷ y ∷ [])
unfolding base64_encode
decode_last_two x y hx hy =
    let b : ℕ = bit_or (u32 (x * 2 ^ 16)) (u32 (y * 2 ^ 8)) in
    let packed = pack_two x y hx hy in
    let w : ℕ = x * 2 ^ 16 + y * 2 ^ 8 in
    let whole : b / 2 ^ 18 % 64 * 2 ^ 18 + b / 2 ^ 12 % 64 * 2 ^ 12 + b / 2 ^ 6 % 64 * 2 ^ 6 + 0
        ≡ w =
      omega (arith, packed, hx, hy) in
    let first : w / 2 ^ 16 % 256 ≡ x = omega (arith, hx, hy) in
    let second : w / 2 ^ 8 % 256 ≡ y = omega (arith, hx, hy) in
    decode_loop-cons (sextet b 18) (sextet b 12) (sextet b 6) padding [] {bytes = x ∷ y ∷ []}
      {out = []}
      (rw (dtable-sextet b 18, dtable-sextet b 12, dtable-sextet b 6, dtable-padding)
        (decode_one_pad (b / 2 ^ 18 % 64) (b / 2 ^ 12 % 64) (omega arith) (omega arith)
            (b / 2 ^ 6 % 64) (omega arith)
          ∙ ap (λ (t : ℕ). some (group_bytes t false true)) whole
          ∙ ap₂ (λ (s t : ℕ). some (s ∷ t ∷ [])) (bit_and_mask 8 (w / 2 ^ 16) ∙ first)
              (bit_and_mask 8 (w / 2 ^ 8) ∙ second)))
      decode_loop-nil

decode_next :
    (x y z : ℕ) (data' : Bytes)
    → x < 2 ^ 8
    → y < 2 ^ 8
    → z < 2 ^ 8
    → decode_loop (base64_encode data') ≡ some data'
    → decode_loop (base64_encode (x ∷ y ∷ z ∷ data')) ≡ some (x ∷ y ∷ z ∷ data')
unfolding base64_encode
decode_next x y z data' hx hy hz rest =
    let input : Bytes = base64_encode data' in
    let b : ℕ = pack_bytes x y z in
    let packed = pack_bytes_lem x y z hx hy hz in
    let w : ℕ = x * 2 ^ 16 + y * 2 ^ 8 + z in
    let whole : b / 2 ^ 18 % 64 * 2 ^ 18
          + b / 2 ^ 12 % 64 * 2 ^ 12
          + b / 2 ^ 6 % 64 * 2 ^ 6
          + b / 2 ^ 0 % 64
        ≡ w =
      omega (arith, packed, hx, hy, hz) in
    let first : w / 2 ^ 16 % 256 ≡ x = omega (arith, hx, hy, hz) in
    let second : w / 2 ^ 8 % 256 ≡ y = omega (arith, hx, hy, hz) in
    let third : w % 256 ≡ z = omega (arith, hx, hy, hz) in
    decode_loop-cons (sextet b 18) (sextet b 12) (sextet b 6) (sextet b 0) input
      {bytes = x ∷ y ∷ z ∷ []} {out = data'}
      (rw (dtable-sextet b 18, dtable-sextet b 12, dtable-sextet b 6, dtable-sextet b 0)
        (decode_full (b / 2 ^ 18 % 64) (b / 2 ^ 12 % 64) (omega arith) (omega arith)
            (b / 2 ^ 6 % 64) (b / 2 ^ 0 % 64) (is_empty input) (omega arith) (omega arith)
          ∙ ap (λ (t : ℕ). some (group_bytes t false false)) whole
          ∙ ap some (group_bytes-eq w)
          ∙ ap₂ (λ (s t : ℕ). some (s ∷ t ∷ w % 256 ∷ [])) first second
          ∙ ap (λ (t : ℕ). some (x ∷ y ∷ t ∷ [])) third))
      rest

decode_loop-base64_encode :
    (data' : Bytes) → AreBytes data' → decode_loop (base64_encode data') ≡ some data'
unfolding base64_encode
decode_loop-base64_encode [] h = decode_loop-nil
decode_loop-base64_encode (x ∷ []) h = decode_last x h.0
decode_loop-base64_encode (x ∷ y ∷ []) h = decode_last_two x y h.0 h.1.0
decode_loop-base64_encode (x ∷ y ∷ z ∷ data') h =
    decode_next x y z data' h.0 h.1.0 h.1.1.0 (decode_loop-base64_encode data' h.1.1.1)

-- The two tests of the length.
decode-checks :
    (data' : Bytes)
    → base64_decode (base64_encode data') ≡ (
        if ltb k_max_base64_input ((length data' + 2) / 3 * 4)
        then none
        else decode_loop (base64_encode data'))
unfolding base64_decode
decode-checks data' =
    let size = length-base64_encode data' in
    let whole : ((length data' + 2) / 3 * 4 % 4 == 0) ≡ true = ground arith in
    rw (strip_suffix-base64_encode data', size, whole) refl

-- For at most 96 MiB of bytes, base64_decode of base64_encode gives the bytes back.
pub base64_decode-base64_encode :
    (data' : Bytes)
    → AreBytes data'
    → length data' ≤ 96 * 1024 * 1024
    → base64_decode (base64_encode data') ≡ some data'
base64_decode-base64_encode data' h small =
    let fits : ltb k_max_base64_input ((length data' + 2) / 3 * 4) ≡ false = ground arith in
    decode-checks data' ∙ rw fits (decode_loop-base64_encode data' h)

-- Longer data encodes to more than the decoder takes, and is refused.
pub base64_decode-too_long :
    (data' : Bytes) → 96 * 1024 * 1024 < length data' → base64_decode (base64_encode data') ≡ none
base64_decode-too_long data' large =
    let over : ltb k_max_base64_input ((length data' + 2) / 3 * 4) ≡ true = ground arith in
    decode-checks data' ∙ rw over refl
