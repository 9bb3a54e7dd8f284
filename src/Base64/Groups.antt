-- ===== src/Base64/Groups.antt =====
-- safe-crypto-cli/cli_base64.hpp: one group of bytes, and of characters.
use native.Mathlib.Nat.{mod-eq_of_lt}
use claude_crypto.Base.{
  ℕ, ◌+◌, ◌*◌, ◌/◌, ◌%◌, ◌^◌, ◌<◌, ◌≡◌, refl, ap, ap₂, ◌∙◌, bit_and, bit_or, bit_and_mask,
  bit_or_shift, Bool, true, false, ◌==◌, ==_iff, some, [], ◌∷◌, get_or, arith,
}
use claude_crypto.Base.Tables.{every, every-at}
use claude_crypto.Base64.{table, u32, pack_bytes, sextet, dtable, group_bytes, decode_group}

table_run : every (λ s. dtable (get_or table s 0) == s) 64 ≡ true
unfolding every dtable
table_run = refl

-- The decode table inverts the encode table.
pub dtable-sextet : (b shift : ℕ) → dtable (sextet b shift) ≡ b / 2 ^ shift % 64
dtable-sextet b shift =
    let masked = bit_and_mask 6 (b / 2 ^ shift) in
    let known =
      every-at (λ s. dtable (get_or table s 0) == s) 64 (b / 2 ^ shift % 64) (omega arith)
        table_run in
    ap (λ (t : ℕ). dtable (get_or table t 0)) masked
    ∙ (==_iff (dtable (get_or table (b / 2 ^ shift % 64) 0)) (b / 2 ^ shift % 64)).0 known

-- Shifted fields that do not overlap are added.
pub pack_two :
    (x y : ℕ)
    → x < 256
    → y < 256
    → bit_or (u32 (x * 2 ^ 16)) (u32 (y * 2 ^ 8)) ≡ x * 2 ^ 16 + y * 2 ^ 8
pack_two x y hx hy =
    ap₂ bit_or (mod-eq_of_lt (omega arith)) (mod-eq_of_lt (omega arith))
    ∙ bit_or_shift 16 x (y * 2 ^ 8) (omega arith)

pub pack_bytes_lem :
    (x y z : ℕ) → x < 256 → y < 256 → z < 256 → pack_bytes x y z ≡ x * 2 ^ 16 + y * 2 ^ 8 + z
pack_bytes_lem x y z hx hy hz =
    let regroup : x * 2 ^ 16 + y * 2 ^ 8 ≡ (x * 2 ^ 8 + y) * 2 ^ 8 = omega arith in
    ap (λ (t : ℕ). bit_or t z) (pack_two x y hx hy ∙ regroup)
    ∙ bit_or_shift 8 (x * 2 ^ 8 + y) z hz
    ∙ omega arith

mask_small : (s : ℕ) → s < 64 → bit_and s 0x3f ≡ s
mask_small s h = bit_and_mask 6 s ∙ mod-eq_of_lt h

pack_sextets :
    (s0 s1 s2 s3 : ℕ)
    → s0 < 64
    → s1 < 64
    → s2 < 64
    → s3 < 64
    → bit_or (bit_or (bit_or (u32 (s0 * 2 ^ 18)) (u32 (s1 * 2 ^ 12))) (u32 (s2 * 2 ^ 6))) s3
      ≡ s0 * 2 ^ 18 + s1 * 2 ^ 12 + s2 * 2 ^ 6 + s3
pack_sextets s0 s1 s2 s3 h0 h1 h2 h3 =
    let first : bit_or (u32 (s0 * 2 ^ 18)) (u32 (s1 * 2 ^ 12)) ≡ (s0 * 2 ^ 6 + s1) * 2 ^ 12 =
      ap₂ bit_or (mod-eq_of_lt (omega arith)) (mod-eq_of_lt (omega arith))
      ∙ bit_or_shift 18 s0 (s1 * 2 ^ 12) (omega arith)
      ∙ omega arith in
    let second : bit_or ((s0 * 2 ^ 6 + s1) * 2 ^ 12) (u32 (s2 * 2 ^ 6))
        ≡ (s0 * 2 ^ 12 + s1 * 2 ^ 6 + s2) * 2 ^ 6 =
      ap (bit_or ((s0 * 2 ^ 6 + s1) * 2 ^ 12)) (mod-eq_of_lt (omega arith))
      ∙ bit_or_shift 12 (s0 * 2 ^ 6 + s1) (s2 * 2 ^ 6) (omega arith)
      ∙ omega arith in
    ap (λ (t : ℕ). bit_or (bit_or t (u32 (s2 * 2 ^ 6))) s3) first
    ∙ ap (λ (t : ℕ). bit_or t s3) second
    ∙ bit_or_shift 6 (s0 * 2 ^ 12 + s1 * 2 ^ 6 + s2) s3 h3
    ∙ omega arith

-- A value of a character that stands for six bits is neither mark.
no_mark : (s : ℕ) → s < 64 → ((s == 0xff) ≡ false) × ((s == 0x40) ≡ false)
no_mark s h = (ground arith, ground arith)

module _ (s0 s1 : ℕ) (h0 : s0 < 64) (h1 : s1 < 64) where
  pub decode_full :
      (s2 s3 : ℕ) (last : Bool)
      → s2 < 64
      → s3 < 64
      → decode_group s0 s1 s2 s3 last
        ≡ some (group_bytes (s0 * 2 ^ 18 + s1 * 2 ^ 12 + s2 * 2 ^ 6 + s3) false false)
  unfolding decode_group
  decode_full s2 s3 last h2 h3 =
      let (n0, m0) = no_mark s0 h0 in
      let (n1, m1) = no_mark s1 h1 in
      let (n2, m2) = no_mark s2 h2 in
      let (n3, m3) = no_mark s3 h3 in
      rw
        (
          n0,
          m0,
          n1,
          m1,
          n2,
          m2,
          n3,
          m3,
          mask_small s0 h0,
          mask_small s1 h1,
          mask_small s2 h2,
          mask_small s3 h3,
          pack_sextets s0 s1 s2 s3 h0 h1 h2 h3,
        )
        refl

  pub decode_one_pad :
      (s2 : ℕ)
      → s2 < 64
      → decode_group s0 s1 s2 0x40 true
        ≡ some (group_bytes (s0 * 2 ^ 18 + s1 * 2 ^ 12 + s2 * 2 ^ 6 + 0) false true)
  unfolding decode_group
  decode_one_pad s2 h2 =
      let (n0, m0) = no_mark s0 h0 in
      let (n1, m1) = no_mark s1 h1 in
      let (n2, m2) = no_mark s2 h2 in
      rw
        (
          n0,
          m0,
          n1,
          m1,
          n2,
          m2,
          mask_small s0 h0,
          mask_small s1 h1,
          mask_small s2 h2,
          pack_sextets s0 s1 s2 0 h0 h1 h2 (omega arith),
        )
        refl

  pub decode_two_pads :
      decode_group s0 s1 0x40 0x40 true
      ≡ some (group_bytes (s0 * 2 ^ 18 + s1 * 2 ^ 12 + 0 * 2 ^ 6 + 0) true true)
  unfolding decode_group
  decode_two_pads =
      let (n0, m0) = no_mark s0 h0 in
      let (n1, m1) = no_mark s1 h1 in
      rw
        (
          n0,
          m0,
          n1,
          m1,
          mask_small s0 h0,
          mask_small s1 h1,
          pack_sextets s0 s1 0 0 h0 h1 (omega arith) (omega arith),
        )
        refl

-- The bytes of a word.
pub group_bytes-eq :
    (b : ℕ) → group_bytes b false false ≡ b / 2 ^ 16 % 256 ∷ b / 2 ^ 8 % 256 ∷ b % 256 ∷ []
group_bytes-eq b =
    rw (bit_and_mask 8 (b / 2 ^ 16), bit_and_mask 8 (b / 2 ^ 8), bit_and_mask 8 b) refl
