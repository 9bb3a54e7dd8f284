-- ===== src/Rsa.antt =====
-- providers/arm_asm/rsa.hpp: the store of RSA keys, and the four operations on encoded keys. The
-- mutex makes each operation of the store one step; failures to allocate are left out. A call that
-- answers false is `none`; an operation returns the bytes of its output.
pub mod Store
pub mod KeyPair
pub mod Encryption
pub mod Signature
use claude_crypto.Base.{
  ℕ, ◌-◌, ◌+◌, ◌*◌, ◌/◌, Bool, true, false, not, ◌&&◌, ◌||◌, ◌==◌, ltb, if◌then◌else◌, Option, none,
  some, List, [], ◌++◌, length, take, drop, replicate,
}
use claude_crypto.Base.Options.{◌>>=◌}
use claude_crypto.Api.Result.{Bytes, CryptoErrorCode, invalid_argument, Expected, ok, unexpected}
use claude_crypto.KeyStore.Ids.{slot_answer, clear_slot, fill_slot}
use claude_crypto.RsaDer.{
  RsaPrivateKeyComponents, RsaPublicKeyComponents, rsa_parse_public_key_der,
  rsa_parse_private_key_der,
}
use claude_crypto.RsaPadding.{oaep_encode, oaep_decode, pss_encode, pss_verify}
use claude_crypto.BigInt.Bytes.{rsa_public_op, rsa_private_op}

abbrev pub rsa_key_store_capacity : ℕ
rsa_key_store_capacity = 8

abbrev pub rsa_key_id_base : ℕ
rsa_key_id_base = 0xc000

abbrev pub rsa_max_private_key_bytes : ℕ
rsa_max_private_key_bytes = 5000

pub data RsaKeyKind : Type 0 where
  no_kind private_kind public_kind : RsaKeyKind

-- `bytes` is the member `data`.
pub record RsaKeySlot : Type 0 where
  pub bytes : Bytes
  pub len : ℕ
  pub bits : ℕ
  pub kind : RsaKeyKind
  pub in_use : Bool

pub record RsaKeyView : Type 0 where
  pub bytes : Bytes
  pub bits : ℕ
  pub kind : RsaKeyKind

unfoldable pub empty_rsa_slot : RsaKeySlot
empty_rsa_slot = record {
  bytes = replicate rsa_max_private_key_bytes 0;
  len = 0;
  bits = 0;
  kind = no_kind;
  in_use = false;
}

-- `memcpy` to the front of the buffer.
unfoldable pub filled_rsa_slot : RsaKeyKind → ℕ → Bytes → RsaKeySlot → RsaKeySlot
filled_rsa_slot kind bits key s = record {
  bytes = key ++ drop (length key) s.bytes;
  len = length key;
  bits = bits;
  kind = kind;
  in_use = true;
}

unfoldable pub rsa_key_store_import : RsaKeyKind → ℕ → Bytes → List RsaKeySlot → ℕ × List RsaKeySlot
unfolding filled_rsa_slot fill_slot
rsa_key_store_import kind bits key slots =
    let stored =
      fill_slot rsa_key_id_base (λ (s : RsaKeySlot). s.in_use) (filled_rsa_slot kind bits key)
        slots in
    if ltb rsa_max_private_key_bytes (length key) then (0, slots) else stored

-- The answer for a slot.
unfoldable pub rsa_copy_out : RsaKeySlot → Expected CryptoErrorCode RsaKeyView
rsa_copy_out s =
    if not s.in_use
    then unexpected invalid_argument
    else ok (record { bytes = take s.len s.bytes; bits = s.bits; kind = s.kind })

unfoldable pub rsa_key_store_get : ℕ → List RsaKeySlot → Expected CryptoErrorCode RsaKeyView
unfolding rsa_copy_out
rsa_key_store_get id slots =
    slot_answer rsa_key_id_base rsa_key_store_capacity empty_rsa_slot rsa_copy_out id slots

unfoldable pub rsa_key_id_is_rsa : ℕ → Bool
rsa_key_id_is_rsa id =
    not (ltb id rsa_key_id_base) && ltb (id - rsa_key_id_base) rsa_key_store_capacity

unfoldable pub rsa_key_store_destroy : ℕ → List RsaKeySlot → List RsaKeySlot
rsa_key_store_destroy id slots =
    clear_slot rsa_key_id_base rsa_key_store_capacity empty_rsa_slot id slots

-- The number of limbs for the sizes that the switch knows.
unfoldable pub rsa_dispatch_all : ℕ → Option ℕ
rsa_dispatch_all bits =
    if bits == 1024
    then some 16
    else if bits == 2048
    then some 32
    else if bits == 3072
    then some 48
    else if bits == 4096
    then some 64
    else none

module _ (sha384 : Bytes → Bytes) where
  -- `seed` is what generate_random_bytes wrote.
  unfoldable pub rsa_oaep_encrypt : Bytes → ℕ → Bytes → Bytes → Bytes → ℕ → Option Bytes
  unfolding oaep_encode rsa_dispatch_all rsa_public_op
  rsa_oaep_encrypt seed bits pub_der pt label ct_max = do
    key ← rsa_parse_public_key_der pub_der
    let encrypted = (do
      em ← oaep_encode sha384 pt label seed (bits / 8)
      limbs ← rsa_dispatch_all bits
      some (rsa_public_op limbs em key.n key.e))
    if ltb ct_max (bits / 8) || not (length key.n == bits / 8) then none else encrypted

  unfoldable pub rsa_oaep_decrypt : ℕ → Bytes → Bytes → Bytes → ℕ → Option Bytes
  unfolding oaep_decode rsa_dispatch_all rsa_private_op
  rsa_oaep_decrypt bits priv_der ct label pt_max =
      let decrypted : Option Bytes = (do
        key ← rsa_parse_private_key_der priv_der
        limbs ← rsa_dispatch_all bits
        oaep_decode sha384 (rsa_private_op limbs ct key.p key.q key.dp key.dq key.qinv) (bits / 8)
            label pt_max) in
      if not (length ct == bits / 8) then none else decrypted

  -- `salt` is what generate_random_bytes wrote.
  unfoldable pub rsa_pss_sign : Bytes → ℕ → Bytes → Bytes → ℕ → Option Bytes
  unfolding pss_encode rsa_dispatch_all rsa_private_op
  rsa_pss_sign salt bits priv_der msg sig_max =
      let signed : Option Bytes = (do
        key ← rsa_parse_private_key_der priv_der
        em ← pss_encode sha384 msg salt bits
        limbs ← rsa_dispatch_all bits
        some (rsa_private_op limbs em key.p key.q key.dp key.dq key.qinv)) in
      if ltb sig_max (bits / 8) then none else signed

  -- The verdict on the encoded message that the public key gives.
  unfoldable pub pss_verdict : Option Bytes → Bytes → ℕ → Bool
  unfolding pss_verify
  pss_verdict none msg bits = false
  pss_verdict (some em) msg bits = pss_verify sha384 msg em bits

  unfoldable pub rsa_pss_verify : ℕ → Bytes → Bytes → Bytes → Bool
  unfolding rsa_dispatch_all rsa_public_op pss_verdict
  rsa_pss_verify bits pub_der msg sig =
      let opened : Option Bytes = (do
        key ← rsa_parse_public_key_der pub_der
        let em = (do limbs ← rsa_dispatch_all bits; some (rsa_public_op limbs sig key.n key.e))
        if not (length key.n == bits / 8) then none else em) in
      if not (length sig == bits / 8) then false else pss_verdict opened msg bits
