-- ===== src/Hash/Output.antt =====
-- providers/arm_asm/hmac.hpp, sha512.hpp: the bytes that are written out.
use claude_crypto.Base.{
  ℕ, ◌-◌, ◌*◌, ◌≡◌, inl, inr, refl, ap, ◌∙◌, Bool-cases, ltb, List, [], ◌∷◌, length, length-append,
  length-take, take, arith,
}
use Prim.Native.Nat.{min}
use claude_crypto.Api.Result.{Bytes, AreBytes}
use claude_crypto.Api.Octets.{AreBytes-append}
use claude_crypto.Hash.{HashCtx, be_word, write_state, finish_state, finish, init, new_ctx, update}
use claude_crypto.Hash.OneShot.{sha384, sha384-finish}

length-write_state : (words : List ℕ) → length (write_state words) ≡ 8 * length words
unfolding write_state
length-write_state [] = refl
length-write_state (w ∷ words) =
    let rest : length (write_state words) ≡ 8 * length words = length-write_state words in
    length-append (be_word w) (write_state words) ∙ omega (arith, rest)

be_word-AreBytes : (w : ℕ) → AreBytes (be_word w)
be_word-AreBytes w = omega arith

write_state-AreBytes : (words : List ℕ) → AreBytes (write_state words)
unfolding write_state
write_state-AreBytes [] = tt
write_state-AreBytes (w ∷ words) =
    AreBytes-append (be_word w) (write_state words) (be_word-AreBytes w)
      (write_state-AreBytes words)

module _ (compress : List ℕ → Bytes → List ℕ)
    (eight_words : (state : List ℕ) (block : Bytes) → length (compress state block) ≡ 8) where
  length-finish_state :
      (block field : ℕ) (c : HashCtx) → length (finish_state compress block field c) ≡ 8
  unfolding finish_state
  length-finish_state block field c = elim (Bool-cases (ltb c.buf_used (block - field))) [
    | inl h ↦ rw h (eight_words _ _)
    | inr h ↦ rw h (eight_words _ _)
  ]

  pub length-finish :
      (block field : ℕ) (c : HashCtx) → length (finish compress block field 48 c) ≡ 48
  unfolding finish
  length-finish block field c =
      let words : List ℕ = finish_state compress block field c in
      let all : length words ≡ 8 = length-finish_state block field c in
      let six : length (take 6 words) ≡ min 6 (length words) = length-take 6 words in
      length-write_state (take 6 words) ∙ ap (λ (n : ℕ). 8 * n) (six ∙ ap (min 6) all)

  pub length-sha384 :
      (sha384_h0 : List ℕ) (msg : Bytes) → length (sha384 compress sha384_h0 msg) ≡ 48
  length-sha384 h0 msg =
      ap length (sha384-finish compress h0 msg)
      ∙ length-finish 128 16 (update compress 128 msg (init h0 (new_ctx 128)))

pub sha384-AreBytes :
    (compress : List ℕ → Bytes → List ℕ) (sha384_h0 : List ℕ) (msg : Bytes)
    → AreBytes (sha384 compress sha384_h0 msg)
unfolding sha384
sha384-AreBytes compress h0 msg = write_state-AreBytes _
