-- ===== src/SigmaI/Bundle/RoundTrip.antt =====
-- safe-crypto-lib/sigma_i.hpp: writing a bundle and reading it back.
use claude_crypto.Base.{
  ℕ, ◌+◌, ◌*◌, ◌/◌, ◌%◌, ◌^◌, ◌≤◌, ◌<◌, ◌≡◌, refl, sym, ap, ap₂, ◌∙◌, [], ◌∷◌, ◌++◌, arith, length,
  take, drop, get_or, bit_or, length-append, take-append, drop-append, drop-add, get_or-drop,
  take_all, bit_and_mask, bit_or_shift, ltb, if◌then◌else◌,
}
use claude_crypto.Api.Result.{Bytes, ok, unexpected, sigma_auth_failed}
use claude_crypto.SigmaI.Bundle.{
  SigmaIBundlePlaintext, length_prefix, sigma_i_serialize_bundle, read_length,
  deserialize_signature, sigma_i_deserialize_bundle,
}

-- A 16-bit length is read back.
prefix_digits : (n : ℕ) → n < 2 ^ 16 → length_prefix n ≡ n / 256 ∷ n % 256 ∷ []
unfolding length_prefix
prefix_digits n h =
    ap₂ (λ (hi lo : ℕ). hi ∷ lo ∷ []) (omega arith) (omega (arith, bit_and_mask 8 (n % 2 ^ 16)))

read_digits :
    (n off : ℕ) (xs rest : Bytes) → drop off xs ≡ n / 256 ∷ n % 256 ∷ rest → read_length xs off ≡ n
unfolding read_length
read_digits n off xs rest h =
    let first : get_or xs (off + 0) 0 ≡ n / 256 =
      get_or-drop off 0 xs 0 ∙ ap (λ (l : Bytes). get_or l 0 0) h in
    let second : get_or xs (off + 1) 0 ≡ n % 256 =
      get_or-drop off 1 xs 0 ∙ ap (λ (l : Bytes). get_or l 1 0) h in
    let same : off + 0 ≡ off = omega arith in
    ap₂ (λ (a b : ℕ). bit_or (a * 2 ^ 8) b) (ap (λ (t : ℕ). get_or xs t 0) (sym same) ∙ first)
      second
    ∙ bit_or_shift 8 (n / 256) (n % 256) (omega arith)
    ∙ omega arith

signature_fits :
    (xs : Bytes) (n k : ℕ)
    → read_length xs (2 + n) ≡ k
    → 2 + n + 2 + k + 48 ≡ length xs
    → deserialize_signature xs n
      ≡ ok (record {
        identity_pub = take n (drop 2 xs);
        signature = take k (drop (2 + n + 2) xs);
        mac = take 48 (drop (2 + n + 2 + k) xs);
      })
unfolding deserialize_signature
signature_fits xs n k second exact = rw second (ground arith)

first_test :
    (xs : Bytes)
    → 54 ≤ length xs
    → sigma_i_deserialize_bundle xs ≡ (
        if ltb (length xs) (2 + read_length xs 0 + 2 + 48)
        then unexpected sigma_auth_failed
        else deserialize_signature xs (read_length xs 0))
unfolding sigma_i_deserialize_bundle
first_test xs long = ground arith

second_test :
    (xs : Bytes) (n : ℕ)
    → read_length xs 0 ≡ n
    → 2 + n + 2 + 48 ≤ length xs
    → (if ltb (length xs) (2 + read_length xs 0 + 2 + 48)
        then unexpected sigma_auth_failed
        else deserialize_signature xs (read_length xs 0))
      ≡ deserialize_signature xs n
second_test xs n first room = rw first (ground arith)

-- The branch on which every length fits.
deserialize_fits :
    (xs : Bytes) (n k : ℕ)
    → read_length xs 0 ≡ n
    → read_length xs (2 + n) ≡ k
    → 54 ≤ length xs
    → 2 + n + 2 + k + 48 ≡ length xs
    → sigma_i_deserialize_bundle xs
      ≡ ok (record {
        identity_pub = take n (drop 2 xs);
        signature = take k (drop (2 + n + 2) xs);
        mac = take 48 (drop (2 + n + 2 + k) xs);
      })
deserialize_fits xs n k first second long exact =
    first_test xs long ∙ second_test xs n first (omega arith) ∙ signature_fits xs n k second exact

layout : Bytes → Bytes → Bytes → Bytes
layout key sig mac =
    let n = length key in
    let k = length sig in n / 256 ∷ n % 256 ∷ (key ++ (k / 256 ∷ k % 256 ∷ (sig ++ mac)))

serialize-eq-layout :
    (key sig mac : Bytes)
    → length key < 2 ^ 16
    → length sig < 2 ^ 16
    → sigma_i_serialize_bundle key sig mac ≡ layout key sig mac
unfolding layout sigma_i_serialize_bundle
serialize-eq-layout key sig mac hp hs =
    ap₂ (λ (a b : Bytes). a ++ (key ++ (b ++ (sig ++ mac)))) (prefix_digits (length key) hp)
      (prefix_digits (length sig) hs)

module _ (key sig mac : Bytes) where
  layout_head :
      drop 0 (layout key sig mac)
      ≡ length key / 256
        ∷ length key % 256
        ∷ (key ++ (length sig / 256 ∷ length sig % 256 ∷ (sig ++ mac)))
  unfolding layout
  layout_head = refl

  drop_header :
      drop 2 (layout key sig mac) ≡ key ++ (length sig / 256 ∷ length sig % 256 ∷ (sig ++ mac))
  unfolding layout
  drop_header = refl

  drop_key :
      drop (2 + length key) (layout key sig mac)
      ≡ length sig / 256 ∷ length sig % 256 ∷ (sig ++ mac)
  drop_key = drop-add 2 (length key) _ ∙ ap (drop (length key)) drop_header ∙ drop-append key _

  drop_lengths : drop (2 + length key + 2) (layout key sig mac) ≡ sig ++ mac
  drop_lengths = drop-add (2 + length key) 2 _ ∙ ap (drop 2) drop_key

  drop_sig : drop (2 + length key + 2 + length sig) (layout key sig mac) ≡ mac
  drop_sig =
      drop-add (2 + length key + 2) (length sig) _
      ∙ ap (drop (length sig)) drop_lengths
      ∙ drop-append sig mac

  length-layout : length (layout key sig mac) ≡ 4 + length key + length sig + length mac
  unfolding layout
  length-layout = omega (
    arith,
    length-append key (length sig / 256 ∷ length sig % 256 ∷ (sig ++ mac)),
    length-append sig mac,
  )

parts_eq :
    {a a' b b' c c' : Bytes}
    → a ≡ a'
    → b ≡ b'
    → c ≡ c'
    → ◌≡◌ {A = SigmaIBundlePlaintext}
        (record { identity_pub = a; signature = b; mac = c })
        (record { identity_pub = a'; signature = b'; mac = c' })
parts_eq p q r = λ i. record { identity_pub = p i; signature = q i; mac = r i }

-- A serialised bundle reads back as its three parts, for an identity and a signature of less than
-- 2^16 bytes each, at least two bytes together, and a MAC of 48 bytes.
pub deserialize-serialize :
    (key sig mac : Bytes)
    → length key < 2 ^ 16
    → length sig < 2 ^ 16
    → length mac ≡ 48
    → 2 ≤ length key + length sig
    → sigma_i_deserialize_bundle (sigma_i_serialize_bundle key sig mac)
      ≡ ok (record { identity_pub = key; signature = sig; mac = mac })
deserialize-serialize key sig mac hp hs hm two =
    let xs : Bytes = layout key sig mac in
    let size = length-layout key sig mac in
    let fits =
      deserialize_fits xs (length key) (length sig)
        (read_digits (length key) 0 xs _ (layout_head key sig mac))
        (read_digits (length sig) (2 + length key) xs _ (drop_key key sig mac))
        (omega (arith, size)) (omega (arith, size)) in
    ap sigma_i_deserialize_bundle (serialize-eq-layout key sig mac hp hs)
    ∙ fits
    ∙ ap ok (
        parts_eq (ap (take (length key)) (drop_header key sig mac) ∙ take-append key _)
          (ap (take (length sig)) (drop_lengths key sig mac) ∙ take-append sig mac)
          (ap (take 48) (drop_sig key sig mac) ∙ take_all 48 mac hm))
