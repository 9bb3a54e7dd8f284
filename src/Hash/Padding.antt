-- ===== src/Hash/Padding.antt =====
-- providers/arm_asm/hmac.hpp: `finish` absorbs the padding.
use claude_crypto.Base.{
  ℕ, ◌+◌, ◌-◌, ◌*◌, ◌%◌, ◌^◌, ◌<◌, ◌≤◌, ◌≡◌, refl, sym, ap, ap₂, subst, ◌∙◌, inl, inr, Bool-cases,
  ltb, List, [], ◌∷◌, ◌++◌, append_assoc, append-nil, length, length-append, length-take, take,
  drop, drop-append_at, arith,
}
use claude_crypto.Api.Result.{Bytes}
use claude_crypto.Hash.{HashCtx, be_word, finish_state}
use claude_crypto.Hash.Absorb.{Absorbs, Absorbs-fill, HasAbsorbed}
use claude_crypto.Hash.Marked.{
  zeros, length-zeros, replicate-add, zeros_again, marked, front_of, length-front_of, with_length,
}
use claude_crypto.Hash.Update.{take-front, take-whole}

-- The padding of a message: a marker, `k` zeros and the length in bits in `field` bytes.
abbrev pub padding_of : ℕ → ℕ → Bytes → Bytes
padding_of field k m = 0x80 ∷ (zeros k ++ (zeros (field - 8) ++ be_word (length m * 8 % 2 ^ 64)))

-- `t` is the state after the blocks of the padded message.
pub record IsDigest (compress : List ℕ → Bytes → List ℕ) (block field : ℕ) (s : List ℕ) (m : Bytes)
    (t : List ℕ) : Type 0 where
  pub filler : ℕ
  pub least : filler < block
  pub blocks : Absorbs compress block s (m ++ padding_of field filler m) t []

-- The two blocks of a buffer.
halves :
    (block : ℕ) (pad first second : Bytes)
    → pad ≡ first ++ second
    → length first ≡ block
    → length second ≡ block
    → (take block pad ≡ first) × (take block (drop block pad) ≡ second)
halves block pad first second parted first_size second_size = (
  ap (take block) parted ∙ take-front block first second first_size,
  ap (λ (x : Bytes). take block (drop block x)) parted
      ∙ ap (take block) (drop-append_at block first second first_size)
      ∙ take-whole second block second_size,
)

module _ (compress : List ℕ → Bytes → List ℕ) (block field : ℕ) (wide : 8 ≤ field)
    (narrow : field < block) where
  -- The two cases of `finish_state`, for the bytes `r` in the buffer.
  module _ (s t : List ℕ) (m r : Bytes) (short : length r < block)
      (h : Absorbs compress block s m t r) where
    abbrev bits : Bytes
    bits = be_word (length m * 8 % 2 ^ 64)

    one_block :
        (room : length r + 1 + field ≤ block)
        → IsDigest compress block field s m (
            compress t
              (take block (front_of block r short (block - 9 - length r) ++ (bits ++ zeros block))))
    one_block room =
        let a : ℕ = block - 9 - length r in
        let k : ℕ = block - field - length r - 1 in
        let first : Bytes = front_of block r short a ++ bits in
        let d : Bytes = 0x80 ∷ (zeros a ++ bits) in
        let split : first ≡ r ++ d = append_assoc r (0x80 ∷ zeros a) bits in
        let size : length first ≡ block = omega (
          arith,
          length-append (front_of block r short a) bits,
          length-front_of block r short a,
          room,
          wide,
        ) in
        let cut : take block (front_of block r short a ++ (bits ++ zeros block)) ≡ r ++ d =
          ap (take block) (sym (append_assoc (front_of block r short a) bits (zeros block)))
          ∙ take-front block first (zeros block) size
          ∙ split in
        let same : zeros a ++ bits ≡ zeros k ++ (zeros (field - 8) ++ bits) =
          zeros_again a 0 k (field - 8) bits (omega (arith, room, wide)) in
        let filled =
          Absorbs-fill compress block d (omega (arith, short)) h (ap length (sym split) ∙ size) in
        record {
          filler = k;
          least = omega (arith, narrow);
          blocks =
              subst
                (λ (x : Bytes).
                  Absorbs compress block s (m ++ (0x80 ∷ x))
                    (compress t (take block (front_of block r short a ++ (bits ++ zeros block))))
                    [])
                same
                (subst (λ (x : Bytes). Absorbs compress block s (m ++ d) (compress t x) [])
                  (sym cut) filled);
        }

    two_blocks :
        (tight : block ≤ length r + field)
        → let pad = front_of block r short (2 * block - 9 - length r) ++ (bits ++ zeros 0) in
          IsDigest compress block field s m
            (compress (compress t (take block pad)) (take block (drop block pad)))
    two_blocks tight =
        let a : ℕ = 2 * block - 9 - length r in
        let a1 : ℕ = block - length r - 1 in
        let a2 : ℕ = block - 8 in
        let k : ℕ = 2 * block - field - length r - 1 in
        let pad : Bytes = front_of block r short a ++ (bits ++ []) in
        let first : Bytes = front_of block r short a1 in
        let second : Bytes = zeros a2 ++ bits in
        let sum : a1 + a2 ≡ a = omega (arith, short, narrow, wide) in
        let first_size : length first ≡ block =
          length-front_of block r short a1 ∙ omega (arith, short) in
        let second_size : length second ≡ block =
          omega (arith, length-append (zeros a2) bits, length-zeros a2, narrow, wide) in
        let parted : pad ≡ first ++ second =
          ap (λ (x : Bytes). front_of block r short a ++ x) (append-nil bits)
          ∙ append_assoc r (0x80 ∷ zeros a) bits
          ∙ ap (λ (x : Bytes). r ++ (0x80 ∷ x))
              (sym (replicate-add a1 a2 bits ∙ ap (λ (n : ℕ). zeros n ++ bits) sum))
          ∙ sym (append_assoc r (0x80 ∷ zeros a1) second) in
        let (cut_first, cut_second) = halves block pad first second parted first_size second_size in
        let after_first =
          Absorbs-fill compress block (0x80 ∷ zeros a1) (omega (arith, short)) h first_size in
        let after_second =
          Absorbs-fill compress block second (omega (arith, short)) after_first second_size in
        let message : (m ++ (0x80 ∷ zeros a1)) ++ second ≡ m ++ padding_of field k m =
          append_assoc m (0x80 ∷ zeros a1) second
          ∙ ap (λ (x : Bytes). m ++ (0x80 ∷ x))
              (zeros_again a1 a2 k (field - 8) bits (omega (arith, sum, short, narrow, wide))) in
        record {
          filler = k;
          least = omega (arith, tight, short);
          blocks =
              subst (λ (x : List ℕ). Absorbs compress block s (m ++ padding_of field k m) x [])
                (ap₂ (λ (x y : Bytes). compress (compress t x) y) (sym cut_first) (sym cut_second))
                (subst
                  (λ (x : Bytes).
                    Absorbs compress block s x (compress (compress t first) second) [])
                  message after_second);
        }

  -- For a context that has absorbed a message: finish leaves the state after the blocks of the
  -- message, a marker byte, fewer zeros than a block and the length of the message in bits, which
  -- together are whole blocks.
  pub finish_state-IsDigest :
      (s : List ℕ) (m : Bytes) (c : HashCtx)
      → HasAbsorbed compress block s m c
      → IsDigest compress block field s m (finish_state compress block field c)
  unfolding finish_state
  finish_state-IsDigest s m c h =
      let r : Bytes = take c.buf_used c.buf in
      let used : length r ≡ c.buf_used =
        omega (arith, length-take c.buf_used c.buf, h.buffer, h.room) in
      let short : length r < block = omega (arith, used, h.room) in
      let pad = marked block r short c.buf c.state c.total_bytes c.buf_used refl (sym used) in
      let length_bits : c.total_bytes * 8 % 2 ^ 64 ≡ length m * 8 % 2 ^ 64 =
        omega (arith, h.count) in
      elim (Bool-cases (ltb c.buf_used (block - field))) [
        | inl fits ↦
            let room : length r + 1 + field ≤ block = ground (arith, used) in
            rw
              (
                fits,
                pad,
                length_bits,
                with_length block r short (block - 9 - length r) block (block - 8)
                    (bits s c.state m r short h.blocks) refl (omega (arith, room, wide))
                    (omega (arith, room, wide)),
              )
              (one_block s c.state m r short h.blocks room)
        | inr over ↦
            let tight : block ≤ length r + field = ground (arith, used) in
            rw
              (
                over,
                pad,
                length_bits,
                with_length block r short (2 * block - 9 - length r) 0 (2 * block - 8)
                    (bits s c.state m r short h.blocks) refl (omega (arith, short, narrow, wide))
                    (omega (arith, short, narrow, wide)),
              )
              (two_blocks s c.state m r short h.blocks tight)
      ]
