-- ===== src/Base64/Length.antt =====
-- safe-crypto-cli/cli_base64.hpp: how long the text is, and that it has no blanks.
use mathlib.Core.List.{reverse, reverse-cons, reverse-reverse}
use claude_crypto.Base.{
  ℕ, ◌+◌, ◌*◌, ◌/◌, ◌%◌, ◌^◌, ◌≡◌, refl, sym, ap, ◌∙◌, bit_and_mask, bit_or, Bool, true, false, not,
  [], ◌∷◌, ◌++◌, length, get_or, arith,
}
use claude_crypto.Base.Tables.{every, every-at}
use claude_crypto.Api.Result.{Bytes}
use claude_crypto.Base64.{
  table, u32, pack_bytes, sextet, is_blank, strip_blanks, strip_suffix, base64_encode,
}

pub length-base64_encode :
    (data' : Bytes) → length (base64_encode data') ≡ (length data' + 2) / 3 * 4
unfolding base64_encode
length-base64_encode [] = refl
length-base64_encode (x ∷ []) = refl
length-base64_encode (x ∷ y ∷ []) = refl
length-base64_encode (x ∷ y ∷ z ∷ data') = omega (arith, length-base64_encode data')

-- No character is a blank.
abbrev pub NoBlanks : Bytes → Type 0
NoBlanks [] = Unit
NoBlanks (c ∷ chars) = (is_blank c ≡ false) × NoBlanks chars

graphic_run : every (λ s. not (is_blank (get_or table s 0))) 64 ≡ true
unfolding every
graphic_run = refl

not-true : (b : Bool) → not b ≡ true → b ≡ false
not-true true h = sym h
not-true false h = refl

graphic : (b shift : ℕ) → is_blank (sextet b shift) ≡ false
graphic b shift =
    let masked = bit_and_mask 6 (b / 2 ^ shift) in
    ap (λ (t : ℕ). is_blank (get_or table t 0)) masked
    ∙ not-true _ (
        every-at (λ s. not (is_blank (get_or table s 0))) 64 (b / 2 ^ shift % 64) (omega arith)
          graphic_run)

base64_encode-NoBlanks : (data' : Bytes) → NoBlanks (base64_encode data')
unfolding base64_encode
base64_encode-NoBlanks [] = tt
base64_encode-NoBlanks (x ∷ []) =
    let b : ℕ = u32 (x * 2 ^ 16) in (graphic b 18, (graphic b 12, (refl, (refl, tt))))
base64_encode-NoBlanks (x ∷ y ∷ []) =
    let b : ℕ = bit_or (u32 (x * 2 ^ 16)) (u32 (y * 2 ^ 8)) in
    (graphic b 18, (graphic b 12, (graphic b 6, (refl, tt))))
base64_encode-NoBlanks (x ∷ y ∷ z ∷ data') =
    let b : ℕ = pack_bytes x y z in
    (graphic b 18, (graphic b 12, (graphic b 6, (graphic b 0, base64_encode-NoBlanks data'))))

NoBlanks-append : (xs ys : Bytes) → NoBlanks xs → NoBlanks ys → NoBlanks (xs ++ ys)
NoBlanks-append [] ys hx hy = hy
NoBlanks-append (x ∷ xs) ys hx hy = (hx.0, NoBlanks-append xs ys hx.1 hy)

NoBlanks-reverse : (xs : Bytes) → NoBlanks xs → NoBlanks (reverse xs)
NoBlanks-reverse [] h = tt
NoBlanks-reverse (x ∷ xs) h =
    rw (reverse-cons x xs)
      (NoBlanks-append (reverse xs) (x ∷ []) (NoBlanks-reverse xs h.1) (h.0, tt))

strip_blanks-none : (xs : Bytes) → NoBlanks xs → strip_blanks xs ≡ xs
unfolding strip_blanks
strip_blanks-none [] h = refl
strip_blanks-none (x ∷ xs) h = rw (h.0) refl

pub strip_suffix-base64_encode :
    (data' : Bytes) → strip_suffix (base64_encode data') ≡ base64_encode data'
unfolding strip_suffix
strip_suffix-base64_encode data' =
    let text : Bytes = base64_encode data' in
    ap reverse
      (strip_blanks-none (reverse text) (NoBlanks-reverse text (base64_encode-NoBlanks data')))
    ∙ reverse-reverse text
