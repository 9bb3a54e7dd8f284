-- ===== src/Tests/Padding.antt =====
-- The RSA encodings and operations, with the compression function of Tests.Derivation.
use claude_crypto.Base.{
  ◌≤◌, ◌+◌, ◌/◌, ◌<◌, ◌≡◌, ◌⊎◌, refl, true, some, none, List, [], ◌∷◌, ◌++◌, length, replicate,
  take, arith,
}
use claude_crypto.Api.Result.{Bytes}
use claude_crypto.Hash.{init, new_ctx, update, finish}
use claude_crypto.Hash.OneShot.{sha384, sha384-finish}
use claude_crypto.Hash.Output.{length-sha384, sha384-AreBytes}
use claude_crypto.RsaPadding.{
  oaep_hash_len, mgf1_sha384, oaep_encode, pss_em_len, pss_top_bits, pss_encode, pss_verify,
}
use claude_crypto.RsaPadding.Mask.{mgf_blocks, mgf1_sha384_lem}
use claude_crypto.RsaPadding.Oaep.{
  masked_seed, masked_db, decoded, length-encoded, oaep_decode-IsEncoding,
}
use claude_crypto.RsaPadding.Pss.{pss_verify-pss_encode, pss_verify-IsEncoding}
use claude_crypto.RsaPadding.Encoded.{pss_encode-IsBelow}
use claude_crypto.Base.Slots.{AllInUse}
use claude_crypto.Rsa.{
  rsa_dispatch_all, rsa_oaep_encrypt, rsa_oaep_decrypt, rsa_pss_sign, rsa_pss_verify, private_kind,
  RsaKeySlot, empty_rsa_slot, filled_rsa_slot, rsa_max_private_key_bytes, rsa_key_store_import,
  rsa_key_store_destroy,
}
use claude_crypto.Rsa.Store.{
  rsa_slot_in_use, IsRsaStored, IsRsaCleared, rsa_key_store_import_lem, rsa_key_store_destroy_lem,
}
use claude_crypto.Rsa.Encryption.{rsa_oaep_decrypt-rsa_oaep_encrypt}
use claude_crypto.Rsa.Signature.{rsa_pss_verify-rsa_pss_sign}
use claude_crypto.Tests.Derivation.{first_byte, zero_state}
use claude_crypto.Tests.RsaKeys.{
  test_public_key, test_private_key, test_pub_der, test_priv_der, test_pub_der-parsed,
  test_priv_der-parsed, test_pair,
}

abbrev toy_hash : Bytes → Bytes
toy_hash m = sha384 first_byte zero_state m

toy_sizes : (m : Bytes) → length (toy_hash m) ≡ oaep_hash_len
toy_sizes m = length-sha384 first_byte (λ s b. refl) zero_state m

abbrev plain : Bytes
plain = 3 ∷ 4 ∷ []

abbrev tiny_key : Bytes
tiny_key = 1 ∷ []

abbrev filler : Bytes
filler = replicate 48 9

sha384-finish_example :
    sha384 first_byte zero_state (7 ∷ [])
    ≡ finish first_byte 128 16 48 (update first_byte 128 (7 ∷ []) (init zero_state (new_ctx 128)))
sha384-finish_example = sha384-finish first_byte zero_state (7 ∷ [])

mgf1_sha384_lem_example :
    mgf1_sha384 toy_hash (7 ∷ []) 100 ≡ take 100 (mgf_blocks toy_hash (7 ∷ []) 0 100)
mgf1_sha384_lem_example =
    mgf1_sha384_lem toy_hash (7 ∷ []) toy_sizes 100 (omega arith) (omega arith)

abbrev encoded_plain : Bytes
encoded_plain =
    0
    ∷ (masked_seed toy_hash toy_sizes (5 ∷ []) filler refl 128 (omega arith) (omega arith) plain
        ++ masked_db toy_hash toy_sizes (5 ∷ []) filler refl 128 (omega arith) (omega arith) plain)

oaep_decode-IsEncoding_example :
    (seed : Bytes) × (length seed ≡ oaep_hash_len)
    × (oaep_encode toy_hash plain (5 ∷ []) seed 128 ≡ some encoded_plain)
oaep_decode-IsEncoding_example =
    oaep_decode-IsEncoding toy_hash toy_sizes (5 ∷ []) encoded_plain plain 128 10
      (length-encoded toy_hash toy_sizes (5 ∷ []) filler refl 128 (omega arith) (omega arith) plain
        (omega arith))
      (omega arith)
      (decoded toy_hash toy_sizes (5 ∷ []) filler refl 128 (omega arith) (omega arith) plain 10
        (omega arith) (omega arith))

-- What pss_encode gives for the message 3.
signed_block :
    (em : Bytes) × (pss_encode toy_hash (3 ∷ []) filler 1024 ≡ some em)
    × (length em ≡ pss_em_len 1024)
    × (pss_verify toy_hash (3 ∷ []) em 1024 ≡ true)
unfolding pss_em_len
signed_block =
    pss_verify-pss_encode toy_hash toy_sizes (3 ∷ []) 1024 (omega arith) (omega arith) (omega arith)
      filler refl

pss_verify-IsEncoding_example :
    (salt : Bytes) × (length salt ≡ oaep_hash_len)
    × (pss_encode toy_hash (3 ∷ []) salt 1024 ≡ some signed_block.0)
unfolding pss_em_len pss_top_bits
pss_verify-IsEncoding_example =
    pss_verify-IsEncoding toy_hash toy_sizes (3 ∷ []) 1024 (omega arith) (omega arith) (omega arith)
      signed_block.0 signed_block.2
      (pss_encode-IsBelow toy_hash (sha384-AreBytes first_byte zero_state) (3 ∷ []) filler
        signed_block.0 1024 (omega arith) refl signed_block.1).0
      signed_block.3

rsa_oaep_decrypt-rsa_oaep_encrypt_example :
    (1024 / 8 < length plain + 98)
      × (rsa_oaep_encrypt toy_hash filler 1024 test_pub_der plain (5 ∷ []) 128 ≡ none)
    ⊎ (ct : Bytes) × (rsa_oaep_encrypt toy_hash filler 1024 test_pub_der plain (5 ∷ []) 128
        ≡ some ct)
      × (rsa_oaep_decrypt toy_hash 1024 test_priv_der ct (5 ∷ []) 10 ≡ some plain)
unfolding rsa_dispatch_all
rsa_oaep_decrypt-rsa_oaep_encrypt_example =
    rsa_oaep_decrypt-rsa_oaep_encrypt first_byte zero_state 1024 16 test_public_key test_private_key
      test_pub_der test_priv_der filler (5 ∷ []) plain 128 10 (λ s b. refl) refl test_pair
      test_pub_der-parsed test_priv_der-parsed refl (omega arith) (omega arith) (omega arith)
      (omega arith)

rsa_pss_verify-rsa_pss_sign_example :
    (sig : Bytes) × (rsa_pss_sign toy_hash filler 1024 test_priv_der (3 ∷ []) 128 ≡ some sig)
    × (length sig ≡ 1024 / 8)
    × (rsa_pss_verify toy_hash 1024 test_pub_der (3 ∷ []) sig ≡ true)
unfolding rsa_dispatch_all
rsa_pss_verify-rsa_pss_sign_example =
    rsa_pss_verify-rsa_pss_sign first_byte zero_state 1024 16 test_public_key test_private_key
      test_pub_der test_priv_der filler (3 ∷ []) 128 (λ s b. refl) refl test_pair
      test_pub_der-parsed test_priv_der-parsed refl (omega arith) (omega arith)

abbrev no_rsa_keys : List RsaKeySlot
no_rsa_keys = replicate 8 empty_rsa_slot

rsa_key_store_import_lem_example :
    (rsa_key_store_import private_kind 1024 tiny_key no_rsa_keys ≡ (0, no_rsa_keys))
      × ((rsa_max_private_key_bytes < length tiny_key)
          ⊎ AllInUse rsa_slot_in_use (filled_rsa_slot private_kind 1024 tiny_key) no_rsa_keys)
    ⊎ (length tiny_key ≤ rsa_max_private_key_bytes)
      × IsRsaStored
          (record { bytes = tiny_key; bits = 1024; kind = private_kind })
          (rsa_key_store_import private_kind 1024 tiny_key no_rsa_keys).0
          no_rsa_keys
          (rsa_key_store_import private_kind 1024 tiny_key no_rsa_keys).1
rsa_key_store_import_lem_example =
    rsa_key_store_import_lem no_rsa_keys refl private_kind 1024 tiny_key

rsa_key_store_destroy_lem_example :
    IsRsaCleared 0xc001 no_rsa_keys (rsa_key_store_destroy 0xc001 no_rsa_keys)
rsa_key_store_destroy_lem_example = rsa_key_store_destroy_lem no_rsa_keys refl 0xc001
