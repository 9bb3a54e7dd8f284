-- ===== src/BigInt/Bytes.antt =====
-- providers/arm_asm/rsa_bigint.hpp: big-endian byte strings and limbs, and the two operations on
-- byte strings.
pub mod Load
pub mod Store
pub mod Operations
pub mod Inverse
pub mod Order
pub mod Signing
use mathlib.Core.List.{reverse}
use claude_crypto.Base.{
  ℕ, zero, suc, ◌+◌, ◌*◌, ◌/◌, ◌%◌, ◌^◌, ◌<◌, bit_and, bit_or, ltb, if◌then◌else◌, List, [], ◌∷◌,
  length, get_or, replicate,
}
use claude_crypto.Api.Result.{Bytes}
use claude_crypto.BigInt.{u64}
use claude_crypto.BigInt.Power.{bigint_powmod_ct}
use claude_crypto.BigInt.Crt.{rsa_crt_combine}

-- `out.d[limb_idx] |= x`
unfoldable pub or_limb : List ℕ → ℕ → ℕ → List ℕ
or_limb [] limb_idx x = []
or_limb (d ∷ ds) zero x = bit_or d x ∷ ds
or_limb (d ∷ ds) (suc limb_idx) x = d ∷ or_limb ds limb_idx x

-- The loop from byte `i` on, over the bytes from the last one backwards.
unfoldable pub load_loop : ℕ → Bytes → List ℕ → List ℕ
unfolding or_limb
load_loop i [] out = out
load_loop i (b ∷ bytes) out =
    let loaded = or_limb out (i / 8) (u64 (b * 2 ^ (i % 8 * 8))) in
    let rest = load_loop (suc i) bytes loaded in if ltb i (length out * 8) then rest else out

unfoldable pub bigint_from_bytes : ℕ → Bytes → List ℕ
unfolding load_loop
bigint_from_bytes limbs bytes = load_loop 0 (reverse bytes) (replicate limbs 0)

-- The last `count` rounds of the loop: the bytes from byte `i` on, from the end backwards.
unfoldable pub store_loop : List ℕ → ℕ → ℕ → Bytes
store_loop a i zero = []
store_loop a i (suc count) =
    bit_and (get_or a (i / 8) 0 / 2 ^ (i % 8 * 8)) 0xff ∷ store_loop a (suc i) count

unfoldable pub bigint_to_bytes : List ℕ → Bytes
unfolding store_loop
bigint_to_bytes a = reverse (store_loop a 0 (length a * 8))

unfoldable pub rsa_private_op : ℕ → Bytes → Bytes → Bytes → Bytes → Bytes → Bytes → Bytes
unfolding bigint_from_bytes bigint_to_bytes bigint_powmod_ct rsa_crt_combine
rsa_private_op limbs c_bytes p_bytes q_bytes dp_bytes dq_bytes qi_bytes =
    let c = bigint_from_bytes limbs c_bytes in
    let p = bigint_from_bytes limbs p_bytes in
    let q = bigint_from_bytes limbs q_bytes in
    let dp = bigint_from_bytes limbs dp_bytes in
    let dq = bigint_from_bytes limbs dq_bytes in
    let qi = bigint_from_bytes limbs qi_bytes in
    let m_p = bigint_powmod_ct c dp p in
    let m_q = bigint_powmod_ct c dq q in bigint_to_bytes (rsa_crt_combine m_p m_q p q qi)

unfoldable pub rsa_public_op : ℕ → Bytes → Bytes → Bytes → Bytes
unfolding bigint_from_bytes bigint_to_bytes bigint_powmod_ct
rsa_public_op limbs m_bytes n_bytes e_bytes =
    let m = bigint_from_bytes limbs m_bytes in
    let n = bigint_from_bytes limbs n_bytes in
    let e = bigint_from_bytes limbs e_bytes in bigint_to_bytes (bigint_powmod_ct m e n)

-- The number that big-endian bytes stand for, and the same for the bytes in reverse.
abbrev pub le_value : Bytes → ℕ
le_value [] = 0
le_value (b ∷ bytes) = b + 2 ^ 8 * le_value bytes

abbrev pub be_value : Bytes → ℕ
be_value bytes = le_value (reverse bytes)
