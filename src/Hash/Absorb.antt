-- ===== src/Hash/Absorb.antt =====
-- providers/arm_asm/hmac.hpp: what a context has absorbed, said without the context: the blocks of a
-- message are compressed one after the other, and fewer bytes than a block remain.
use claude_crypto.Base.{
  ℕ, ◌%◌, ◌^◌, ◌<◌, ◌≡◌, sym, subst, List, [], ◌++◌, append_assoc, append-nil, length, take,
}
use claude_crypto.Api.Result.{Bytes}
use claude_crypto.Hash.{HashCtx}

module _ (compress : List ℕ → Bytes → List ℕ) (block : ℕ) where
  -- From state `s`, the message `m` leads to state `t` with `r` left over.
  pub data Absorbs : List ℕ → Bytes → List ℕ → Bytes → Type 0 where
    partial : {s : List ℕ} (r : Bytes) → length r < block → Absorbs s r s r
    whole :
        {s t : List ℕ} {r : Bytes} (b m : Bytes)
        → length b ≡ block
        → Absorbs (compress s b) m t r
        → Absorbs s (b ++ m) t r

  -- More bytes, which leave the block unfilled, or fill it.
  pub Absorbs-more :
      {s t : List ℕ} {m r : Bytes} (d : Bytes)
      → Absorbs s m t r
      → length (r ++ d) < block
      → Absorbs s (m ++ d) t (r ++ d)
  Absorbs-more d (partial r short) h = partial (r ++ d) h
  Absorbs-more {s} {t} {m} {r} d (whole b m' size rest) h =
      subst (λ (x : Bytes). Absorbs s x t (r ++ d)) (sym (append_assoc b m' d))
        (whole b (m' ++ d) size (Absorbs-more d rest h))

  pub Absorbs-fill :
      {s t : List ℕ} {m r : Bytes} (d : Bytes)
      → 0 < block
      → Absorbs s m t r
      → length (r ++ d) ≡ block
      → Absorbs s (m ++ d) (compress t (r ++ d)) []
  Absorbs-fill {s} {t} {m} {r} d pos (partial _ short) h =
      subst (λ (x : Bytes). Absorbs s x (compress s (m ++ d)) []) (append-nil (m ++ d))
        (whole (m ++ d) [] h (partial [] pos))
  Absorbs-fill {s} {t} {m} {r} d pos (whole b m' size rest) h =
      subst (λ (x : Bytes). Absorbs s x (compress t (r ++ d)) []) (sym (append_assoc b m' d))
        (whole b (m' ++ d) size (Absorbs-fill d pos rest h))

  -- A context that has absorbed `m` since it started from `s`.
  pub record HasAbsorbed (s : List ℕ) (m : Bytes) (c : HashCtx) : Type 0 where
    pub buffer : length c.buf ≡ block
    pub room : c.buf_used < block
    pub count : c.total_bytes ≡ length m % 2 ^ 64
    pub blocks : Absorbs s m c.state (take c.buf_used c.buf)
