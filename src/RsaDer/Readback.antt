-- ===== src/RsaDer/Readback.antt =====
-- providers/arm_asm/rsa_der.hpp: each element of a key, read where it was written.
use claude_crypto.Base.{
  ℕ, ◌+◌, ◌-◌, ◌^◌, ◌≤◌, ◌<◌, ◌≡◌, refl, sym, ap, ◌∙◌, inl, inr, Bool, true, false, ◌||◌,
  Bool-cases, ◌==◌, ltb, if◌then◌else◌, some, [], ◌∷◌, ◌++◌, append_assoc, append-nil, length,
  length-append, take, take-append, take_all, drop-append, arith,
}
use claude_crypto.Api.Result.{Bytes}
use claude_crypto.RsaDer.{
  rsa_max_int_bytes, read_tag, enter_sequence, strip_zero, read_integer, bit_string_body,
  enter_bit_string, read_n_e,
}
use claude_crypto.RsaDer.Encode.{encode_len, needs_pad, pad, int_content, write_integer}
use claude_crypto.RsaDer.Lengths.{read_length-encode_len}

-- A number without leading zeros: not empty, and its first byte is not 0.
abbrev pub IsMinimal : Bytes → Type 0
IsMinimal [] = ⊥
IsMinimal (b ∷ bytes) = 0 < b

pub enter_sequence_lem :
    (len : ℕ) (p : Bytes)
    → len < 2 ^ 16
    → len ≤ length p
    → enter_sequence (0x30 ∷ (encode_len len ++ p)) ≡ some (take len p)
unfolding enter_sequence read_tag
enter_sequence_lem len p small fits = rw (read_length-encode_len len p small fits)

pub enter_sequence_whole :
    (len : ℕ) (p : Bytes)
    → len < 2 ^ 16
    → length p ≡ len
    → enter_sequence (0x30 ∷ (encode_len len ++ p)) ≡ some p
enter_sequence_whole len p small size =
    enter_sequence_lem len p small (omega (arith, size)) ∙ ap some (take_all len p size)

pub enter_bit_string_whole :
    (len : ℕ) (p : Bytes)
    → len < 2 ^ 16
    → length p + 1 ≡ len
    → enter_bit_string (0x03 ∷ (encode_len len ++ (0x00 ∷ p))) ≡ some p
unfolding enter_bit_string read_tag bit_string_body
enter_bit_string_whole len p small size =
    let accepted : (ltb len 1 || ltb (length (0x00 ∷ p)) len) ≡ false = ground (arith, size) in
    let inner : length p ≡ len - 1 = omega (arith, size) in
    rw (read_length-encode_len len (0x00 ∷ p) small (omega (arith, size)), accepted)
      (ap some (take_all (len - 1) p inner))

pub length-pad : (bytes : Bytes) → length (pad bytes ++ bytes) ≡ int_content bytes
length-pad bytes = elim (Bool-cases (needs_pad bytes)) [
  | inl padded ↦ rw padded (omega arith)
  | inr bare ↦ rw bare (omega arith)
]

-- The padding is stripped.
strip_zero-pad : (bytes : Bytes) → IsMinimal bytes → strip_zero (pad bytes ++ bytes) ≡ bytes
unfolding strip_zero
strip_zero-pad [] h = absurd h
strip_zero-pad (b ∷ []) h = strip_either (needs_pad (b ∷ []))
  where
    strip_either :
        (padded : Bool) → strip_zero ((if padded then 0x00 ∷ [] else []) ++ b ∷ []) ≡ b ∷ []
    strip_either true = refl
    strip_either false = refl
strip_zero-pad (b ∷ c ∷ bytes) h = strip_either (needs_pad (b ∷ c ∷ bytes))
  where
    strip_either :
        (padded : Bool)
        → strip_zero ((if padded then 0x00 ∷ [] else []) ++ b ∷ c ∷ bytes) ≡ b ∷ c ∷ bytes
    strip_either true = refl
    strip_either false = ground arith

read_integer_lem :
    (content rest : Bytes)
    → 0 < length content
    → length content ≤ rsa_max_int_bytes
    → read_integer (0x02 ∷ (encode_len (length content) ++ (content ++ rest)))
      ≡ some (strip_zero content, rest)
unfolding read_integer read_tag
read_integer_lem content rest pos small =
    let total = length-append content rest in
    let accepted : ((length content == 0) || ltb rsa_max_int_bytes (length content)) ≡ false =
      ground arith in
    rw (
      read_length-encode_len (length content) (content ++ rest) (omega arith)
          (omega (arith, total)),
      accepted,
      take-append content rest,
      drop-append content rest,
    )

content_pos : (bytes : Bytes) → IsMinimal bytes → 0 < length (pad bytes ++ bytes)
content_pos [] h = absurd h
content_pos (b ∷ bytes) h = omega (arith, length-append (pad (b ∷ bytes)) (b ∷ bytes))

content_small :
    (bytes : Bytes)
    → length bytes < rsa_max_int_bytes
    → length (pad bytes ++ bytes) ≤ rsa_max_int_bytes
content_small bytes h = elim (Bool-cases (needs_pad bytes)) [
  | inl padded ↦ rw padded (omega arith)
  | inr bare ↦ rw bare (omega arith)
]

pub read_integer-write_integer :
    (bytes rest : Bytes)
    → IsMinimal bytes
    → length bytes < rsa_max_int_bytes
    → read_integer (write_integer bytes ++ rest) ≡ some (bytes, rest)
read_integer-write_integer bytes rest minimal small =
    let content : Bytes = pad bytes ++ bytes in
    let size : length content ≡ int_content bytes = length-pad bytes in
    let regroup : (encode_len (int_content bytes) ++ content) ++ rest
        ≡ encode_len (length content) ++ (content ++ rest) =
      append_assoc (encode_len (int_content bytes)) content rest
      ∙ ap (λ (k : ℕ). encode_len k ++ (content ++ rest)) (sym size) in
    ap (λ (p : Bytes). read_integer (0x02 ∷ p)) regroup
    ∙ read_integer_lem content rest (content_pos bytes minimal) (content_small bytes small)
    ∙ ap (λ (v : Bytes). some (v, rest)) (strip_zero-pad bytes minimal)

-- Two numbers, one behind the other.
pub read_n_e_lem :
    (n e : Bytes)
    → IsMinimal n
    → IsMinimal e
    → length n < rsa_max_int_bytes
    → length e < rsa_max_int_bytes
    → read_n_e (write_integer n ++ write_integer e) ≡ some (record { n = n; e = e })
unfolding read_n_e
read_n_e_lem n e hn he n_small e_small = rw (
  read_integer-write_integer n (write_integer e) hn n_small,
  ap read_integer (sym (append-nil (write_integer e))) ∙ read_integer-write_integer e [] he e_small,
)
