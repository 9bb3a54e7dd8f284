-- ===== src/Hkdf.antt =====
-- providers/arm_asm/hkdf.hpp: HKDF over HMAC-SHA-384, as the state machine of the provider's key
-- derivation. A buffer with its length is a list; a call that answers 1 is `none`.
pub mod Digest
pub mod Expand
pub mod Sequence
use claude_crypto.Base.{
  ℕ, zero, suc, ◌+◌, ◌-◌, ◌*◌, ◌%◌, Bool, true, false, not, ◌&&◌, ◌||◌, ◌==◌, ltb, if◌then◌else◌,
  Option, none, some, List, [], ◌∷◌, ◌++◌, length, take, replicate,
}
use claude_crypto.Api.Result.{Bytes, CryptoErrorCode, Expected, ok, unexpected}
use claude_crypto.KeyStore.{KeySlot, key_store_get}
use claude_crypto.Hash.{hmac_sha512_impl}

abbrev pub hkdf_hash_len : ℕ
hkdf_hash_len = 48

abbrev pub hkdf_max_output : ℕ
hkdf_max_output = 12240

abbrev pub hkdf_max_salt : ℕ
hkdf_max_salt = 256

abbrev pub hkdf_max_info : ℕ
hkdf_max_info = 256

-- The size of `msg` in hkdf_expand.
abbrev pub msg_capacity : ℕ
msg_capacity = hkdf_hash_len + hkdf_max_info + 1

pub data HkdfAlg : Type 0 where
  no_alg hkdf hkdf_expand_only : HkdfAlg

pub data HkdfPhase : Type 0 where
  init_phase setup_phase key_set_phase salt_set_phase info_set_phase : HkdfPhase

pub record HkdfState : Type 0 where
  pub alg : HkdfAlg
  pub phase : HkdfPhase
  pub key_id : ℕ
  pub salt : Bytes
  pub salt_set : Bool
  pub info : Bytes

abbrev pub is_setup : HkdfPhase → Bool
is_setup setup_phase = true
is_setup init_phase = false
is_setup key_set_phase = false
is_setup salt_set_phase = false
is_setup info_set_phase = false

abbrev pub is_key_set : HkdfPhase → Bool
is_key_set key_set_phase = true
is_key_set init_phase = false
is_key_set setup_phase = false
is_key_set salt_set_phase = false
is_key_set info_set_phase = false

abbrev pub is_info_set : HkdfPhase → Bool
is_info_set info_set_phase = true
is_info_set init_phase = false
is_info_set setup_phase = false
is_info_set key_set_phase = false
is_info_set salt_set_phase = false

-- What was in the operation is wiped first.
unfoldable pub hkdf_setup : HkdfAlg → HkdfState → HkdfState
hkdf_setup alg op = record {
  alg = alg;
  phase = setup_phase;
  key_id = 0;
  salt = [];
  salt_set = false;
  info = [];
}

unfoldable pub hkdf_input_key : ℕ → HkdfState → Option HkdfState
hkdf_input_key id op =
    if not (is_setup op.phase)
    then none
    else some (record {
      alg = op.alg;
      phase = key_set_phase;
      key_id = id;
      salt = op.salt;
      salt_set = op.salt_set;
      info = op.info;
    })

-- The steps 0 and 1 are the salt and the info.
unfoldable pub hkdf_input_bytes : ℕ → Bytes → HkdfState → Option HkdfState
hkdf_input_bytes step bytes op =
    if step == 0
    then (if not (is_setup op.phase) || ltb hkdf_max_salt (length bytes)
        then none
        else some (record {
          alg = op.alg;
          phase = op.phase;
          key_id = op.key_id;
          salt = bytes;
          salt_set = true;
          info = op.info;
        }))
    else if step == 1
    then (if not (is_key_set op.phase) || ltb hkdf_max_info (length bytes)
        then none
        else some (record {
          alg = op.alg;
          phase = info_set_phase;
          key_id = op.key_id;
          salt = op.salt;
          salt_set = op.salt_set;
          info = bytes;
        }))
    else none

-- The initial state of SHA-384 and the compression function are parameters.
unfoldable pub hmac_sha384 : (List ℕ → Bytes → List ℕ) → List ℕ → Bytes → Bytes → Bytes
unfolding hmac_sha512_impl
hmac_sha384 compress sha384_h0 key msg = hmac_sha512_impl compress 128 16 sha384_h0 key msg 48

module _ (hmac : Bytes → Bytes → Bytes) where
  -- T(i-1) || info || counter; `t` is left out in the first round. The source writes this to
  -- `msg` without a test of the length, so that it means this only up to `msg_capacity` bytes.
  unfoldable pub expand_msg : Bytes → Bytes → ℕ → Bytes
  expand_msg info t counter = (if ltb 1 counter then t else []) ++ (info ++ counter ∷ [])

  -- The bytes that the loop writes in at most `fuel` rounds.
  unfoldable pub expand_loop : ℕ → Bytes → Bytes → ℕ → Bytes → ℕ → ℕ → Bytes
  unfolding expand_msg
  expand_loop zero prk info out_len t written counter = []
  expand_loop (suc fuel) prk info out_len t written counter =
      let next = hmac prk (expand_msg info t counter) in
      let copy_len =
        if ltb (out_len - written) hkdf_hash_len then out_len - written else hkdf_hash_len in
      let rest =
        expand_loop fuel prk info out_len next (written + copy_len) ((counter + 1) % 256) in
      if ltb written out_len then take copy_len next ++ rest else []

  -- Each round but the last writes 48 bytes, so that 255 rounds are enough.
  unfoldable pub hkdf_expand : Bytes → Bytes → ℕ → Option Bytes
  unfolding expand_loop
  hkdf_expand prk info out_len =
      if out_len == 0 || ltb hkdf_max_output out_len
      then none
      else some (expand_loop 255 prk info out_len (replicate hkdf_hash_len 0) 0 1)

  -- The extract step: no salt, or an empty one, stands for 48 zeros.
  unfoldable pub hkdf_extract : HkdfState → Bytes → Bytes
  hkdf_extract op ikm =
      if op.salt_set && ltb 0 (length op.salt)
      then hmac op.salt ikm
      else hmac (replicate hkdf_hash_len 0) ikm

  -- The output for the key that was looked up.
  unfoldable pub output_for : HkdfAlg → HkdfState → Bytes → ℕ → Option Bytes
  unfolding hkdf_expand hkdf_extract
  output_for hkdf_expand_only op ikm len = hkdf_expand ikm op.info len
  output_for no_alg op ikm len = hkdf_expand (hkdf_extract op ikm) op.info len
  output_for hkdf op ikm len = hkdf_expand (hkdf_extract op ikm) op.info len

  unfoldable pub output_with : Expected CryptoErrorCode Bytes → HkdfState → ℕ → Option Bytes
  unfolding output_for
  output_with (unexpected e) op len = none
  output_with (ok ikm) op len = output_for op.alg op ikm len

  unfoldable pub hkdf_output_bytes : List KeySlot → HkdfState → ℕ → Option Bytes
  unfolding output_with key_store_get
  hkdf_output_bytes slots op len =
      if not (is_info_set op.phase) || (len == 0 || ltb hkdf_max_output len)
      then none
      else output_with (key_store_get op.key_id slots) op len
