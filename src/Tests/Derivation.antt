-- ===== src/Tests/Derivation.antt =====
-- HKDF with a compression function that adds the first byte of the block.
use claude_crypto.Base.{
  length, suc, ◌++◌, ℕ, ◌+◌, ◌<◌, ◌≤◌, ◌≡◌, ◌⊎◌, refl, true, false, some, none, List, [], ◌∷◌,
  get_or, take, arith,
}
use claude_crypto.Api.Result.{Bytes}
use claude_crypto.KeyStore.{KeySlot}
use claude_crypto.Hkdf.{
  msg_capacity, init_phase, no_alg, HkdfState, hkdf_max_output, hmac_sha384, hkdf_expand,
}
use claude_crypto.Hkdf.Expand.{t_block, t_blocks, hkdf_expand_lem}
use claude_crypto.Hkdf.Digest.{length-hmac_sha384}

abbrev pub first_byte : List ℕ → Bytes → List ℕ
first_byte state block =
    let b : ℕ = get_or block 0 0 in (get_or state 0 0 + b) ∷ b ∷ b ∷ b ∷ b ∷ b ∷ b ∷ b ∷ []

abbrev pub zero_state : List ℕ
zero_state = 0 ∷ 0 ∷ 0 ∷ 0 ∷ 0 ∷ 0 ∷ 0 ∷ 0 ∷ []

abbrev one_key : List KeySlot
one_key = record { bytes = 5 ∷ 6 ∷ []; len = 2; in_use = true } ∷ []

abbrev idle : HkdfState
idle = record {
  alg = no_alg;
  phase = init_phase;
  key_id = 0;
  salt = [];
  salt_set = false;
  info = [];
}

hkdf_expand_lem_example :
    ((◌≡◌ {A = ℕ} 100 0) ⊎ (hkdf_max_output < 100))
      × (hkdf_expand (hmac_sha384 first_byte zero_state) (1 ∷ []) (2 ∷ []) 100 ≡ none)
    ⊎ ((0 < 100) × (100 ≤ hkdf_max_output))
      × (hkdf_expand (hmac_sha384 first_byte zero_state) (1 ∷ []) (2 ∷ []) 100
          ≡ some (take 100 (t_blocks (hmac_sha384 first_byte zero_state) (1 ∷ []) (2 ∷ []) 0 255)))
      × ((i : ℕ)
          → length (
              t_block (hmac_sha384 first_byte zero_state) (1 ∷ []) (2 ∷ []) i
              ++ ((2 ∷ []) ++ suc i ∷ []))
            ≤ msg_capacity)
hkdf_expand_lem_example =
    hkdf_expand_lem (hmac_sha384 first_byte zero_state) (1 ∷ []) (2 ∷ [])
      (length-hmac_sha384 first_byte (λ s b. refl) zero_state) (omega arith) 100
