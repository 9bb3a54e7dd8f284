-- ===== src/Api/Octets.antt =====
-- Byte strings, as lists of numbers below 256.
use claude_crypto.Base.{ℕ, zero, suc, ◌<◌, ◌^◌, [], ◌∷◌, ◌++◌, take, drop, replicate}
use claude_crypto.Base.Xor.{xor_bytes, bit_xor-lt}
use claude_crypto.Api.Result.{Bytes, AreBytes}

pub AreBytes-append : (xs ys : Bytes) → AreBytes xs → AreBytes ys → AreBytes (xs ++ ys)
AreBytes-append [] ys hx hy = hy
AreBytes-append (x ∷ xs) ys hx hy = (hx.0, AreBytes-append xs ys hx.1 hy)

pub AreBytes-take : (n : ℕ) (bytes : Bytes) → AreBytes bytes → AreBytes (take n bytes)
AreBytes-take zero bytes h = tt
AreBytes-take (suc n) [] h = tt
AreBytes-take (suc n) (b ∷ bytes) h = (h.0, AreBytes-take n bytes h.1)

pub AreBytes-drop : (n : ℕ) (bytes : Bytes) → AreBytes bytes → AreBytes (drop n bytes)
AreBytes-drop zero bytes h = h
AreBytes-drop (suc n) [] h = tt
AreBytes-drop (suc n) (b ∷ bytes) h = AreBytes-drop n bytes h.1

pub AreBytes-replicate : (n b : ℕ) → b < 2 ^ 8 → AreBytes (replicate n b)
AreBytes-replicate zero b h = tt
AreBytes-replicate (suc n) b h = (h, AreBytes-replicate n b h)

pub AreBytes-xor_bytes :
    (bytes mask : Bytes) → AreBytes bytes → AreBytes mask → AreBytes (xor_bytes bytes mask)
AreBytes-xor_bytes [] mask h k = tt
AreBytes-xor_bytes (b ∷ bytes) [] h k = h
AreBytes-xor_bytes (b ∷ bytes) (m ∷ mask) h k =
    (bit_xor-lt 8 b m h.0 k.0, AreBytes-xor_bytes bytes mask h.1 k.1)
