-- ===== src/RsaDer.antt =====
-- providers/arm_asm/rsa_der.hpp: the DER reader and writer for RSA keys. A cursor `(p, rem)` is the
-- list of the `rem` bytes at `p`; a reader that returns false is `none`.
pub mod Encode
pub mod Lengths
pub mod Readback
pub mod Layout
pub mod RoundTrip
use claude_crypto.Base.{
  ℕ, ◌+◌, ◌-◌, ◌*◌, ◌%◌, ◌^◌, bit_and, bit_or, Bool, not, ◌||◌, if◌then◌else◌, ◌==◌, ltb, Option,
  none, some, List, [], ◌∷◌, length, take, drop, get_or,
}
use claude_crypto.Base.Options.{◌>>=◌}
use claude_crypto.Api.Result.{Bytes}

abbrev pub rsa_max_int_bytes : ℕ
rsa_max_int_bytes = 513

-- safe-crypto-lib/defs.hpp
abbrev pub der_sequence_tag : ℕ
der_sequence_tag = 0x30

abbrev pub der_msb_flag : ℕ
der_msb_flag = 0x80

pub record RsaPublicKeyComponents : Type 0 where
  pub n : Bytes
  pub e : Bytes

pub record RsaPrivateKeyComponents : Type 0 where
  pub n : Bytes
  pub e : Bytes
  pub d : Bytes
  pub p : Bytes
  pub q : Bytes
  pub dp : Bytes
  pub dq : Bytes
  pub qinv : Bytes

-- The cursor behind the tag.
unfoldable pub read_tag : ℕ → Bytes → Option Bytes
read_tag expected_tag [] = none
read_tag expected_tag (b ∷ p) = if b == expected_tag then some p else none

-- `out_len > rem` is refused.
unfoldable pub within : ℕ → Bytes → Option (ℕ × Bytes)
within out_len p = if ltb (length p) out_len then none else some (out_len, p)

-- The loop over the bytes of a long length, in 64 bits.
unfoldable pub length_bytes : ℕ → Bytes → ℕ
length_bytes out_len [] = out_len
length_bytes out_len (b ∷ p) = length_bytes (bit_or (out_len * 2 ^ 8 % 2 ^ 64) b) p

unfoldable pub long_length : ℕ → Bytes → Option (ℕ × Bytes)
unfolding within length_bytes
long_length num_bytes p =
    if (num_bytes == 0) || (ltb 4 num_bytes || ltb (length p) num_bytes)
    then none
    else within (length_bytes 0 (take num_bytes p)) (drop num_bytes p)

-- The length, and the cursor behind it.
unfoldable pub read_length : Bytes → Option (ℕ × Bytes)
unfolding within long_length
read_length [] = none
read_length (first ∷ p) =
    if bit_and first der_msb_flag == 0 then within first p else long_length (bit_and first 0x7f) p

-- The body of the sequence.
unfoldable pub enter_sequence : Bytes → Option Bytes
unfolding read_tag read_length
enter_sequence p = do
  p ← read_tag der_sequence_tag p
  (seq_len, p) ← read_length p
  some (take seq_len p)

-- `if (val_len > 1 && val[0] == 0x00) { ++val; --val_len; }`
unfoldable pub strip_zero : Bytes → Bytes
strip_zero [] = []
strip_zero (b ∷ []) = b ∷ []
strip_zero (b ∷ c ∷ val) = if b == 0 then c ∷ val else b ∷ c ∷ val

-- The value of the integer, and the cursor behind it.
unfoldable pub read_integer : Bytes → Option (Bytes × Bytes)
unfolding read_tag read_length strip_zero
read_integer p = do
  p ← read_tag 0x02 p
  (int_len, p) ← read_length p
  if (int_len == 0) || ltb rsa_max_int_bytes int_len
      then none
      else some (strip_zero (take int_len p), drop int_len p)

-- The second test of the length, which `read_length` has made already, is kept.
unfoldable pub skip_value : Bytes → Option Bytes
unfolding read_length
skip_value p = do
  (skip_len, p) ← read_length p
  if ltb (length p) skip_len then none else some (drop skip_len p)

unfoldable pub skip_oid : Bytes → Option Bytes
unfolding read_tag skip_value
skip_oid p = do p ← read_tag 0x06 p; skip_value p

unfoldable pub skip_tlv : Bytes → Option Bytes
unfolding skip_value
skip_tlv p = if ltb (length p) 2 then none else skip_value (drop 1 p)

-- The body of a bit string of `bs_len` bytes, behind its count of unused bits.
unfoldable pub bit_string_body : ℕ → Bytes → Option Bytes
bit_string_body bs_len [] = none
bit_string_body bs_len (unused ∷ p) =
    if ltb bs_len 1 || ltb (length (unused ∷ p)) bs_len
    then none
    else if not (unused == 0)
    then none
    else some (take (bs_len - 1) p)

unfoldable pub enter_bit_string : Bytes → Option Bytes
unfolding read_tag read_length bit_string_body
enter_bit_string p = do p ← read_tag 0x03 p; (bs_len, p) ← read_length p; bit_string_body bs_len p

-- `INTEGER n, INTEGER e`
unfoldable pub read_n_e : Bytes → Option RsaPublicKeyComponents
unfolding read_integer
read_n_e p = do (n, p) ← read_integer p; (e, p) ← read_integer p; some (record { n = n; e = e })

-- Nothing is read where the cursor is at the end.
unfoldable pub skip_parameters : Bytes → Option Bytes
unfolding skip_tlv
skip_parameters [] = some []
skip_parameters (b ∷ seq_p) = skip_tlv (b ∷ seq_p)

-- The AlgorithmIdentifier is checked, and the outer cursor moved behind it.
unfoldable pub skip_algorithm : Bytes → Option Bytes
unfolding enter_sequence skip_oid skip_parameters read_length
skip_algorithm p = if ltb (length p) 2 then none else do
  seq_p ← enter_sequence p
  seq_p ← skip_oid seq_p
  seq_p ← skip_parameters seq_p
  (algid_body_len, tmp_p) ← read_length (drop 1 p)
  let algid_total = (length p - length tmp_p) + algid_body_len
  if ltb (length p) algid_total then none else some (drop algid_total p)

unfoldable pub parse_spki_body : Bytes → Option RsaPublicKeyComponents
unfolding skip_algorithm enter_bit_string enter_sequence read_n_e
parse_spki_body p = do
  p ← skip_algorithm p
  p ← enter_bit_string p
  p ← enter_sequence p
  read_n_e p

-- The first byte of the body tells the two formats apart.
unfoldable pub parse_public_body : Bytes → Option RsaPublicKeyComponents
unfolding read_n_e parse_spki_body
parse_public_body [] = none
parse_public_body (b ∷ p) = if b == 0x02 then read_n_e (b ∷ p) else parse_spki_body (b ∷ p)

unfoldable pub rsa_parse_public_key_der : Bytes → Option RsaPublicKeyComponents
unfolding enter_sequence parse_public_body
rsa_parse_public_key_der der_buf = do p ← enter_sequence der_buf; parse_public_body p

-- The eight integers behind the version, which is refused unless it is the one byte 0.
unfoldable pub read_private_integers : Bytes → Option RsaPrivateKeyComponents
unfolding read_integer
read_private_integers p = do
  (n, p) ← read_integer p
  (e, p) ← read_integer p
  (d, p) ← read_integer p
  (prime_p, p) ← read_integer p
  (q, p) ← read_integer p
  (dp, p) ← read_integer p
  (dq, p) ← read_integer p
  (qinv, p) ← read_integer p
  some (record { n = n; e = e; d = d; p = prime_p; q = q; dp = dp; dq = dq; qinv = qinv })

unfoldable pub rsa_parse_private_key_der : Bytes → Option RsaPrivateKeyComponents
unfolding enter_sequence read_integer read_private_integers
rsa_parse_private_key_der der_buf = do
  p ← enter_sequence der_buf
  (ver, p) ← read_integer p
  if not (length ver == 1) || not (get_or ver 0 0 == 0) then none else read_private_integers p
