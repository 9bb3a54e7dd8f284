-- ===== src/Hash/Update.antt =====
-- providers/arm_asm/hmac.hpp: `update` absorbs its bytes.
use claude_crypto.Base.{
  ℕ, zero, suc, ◌+◌, ◌-◌, ◌%◌, ◌^◌, ◌<◌, ◌≤◌, ◌≡◌, refl, sym, ap, subst, ◌∙◌, inl, inr, Bool-cases,
  ◌==◌, ==_iff, List, [], ◌∷◌, ◌++◌, append_assoc, append-nil, length, length-append, length-take,
  take, drop, take-append, length-replicate, arith,
}
use claude_crypto.Api.Result.{Bytes}
use claude_crypto.Hash.{
  HashCtx, write_at, init, new_ctx, absorbed, update_round, round_size, update_loop, update,
}
use claude_crypto.Hash.Absorb.{Absorbs, partial, Absorbs-more, Absorbs-fill, HasAbsorbed}

pub length-drop : (n : ℕ) (xs : Bytes) → length (drop n xs) ≡ length xs - n
length-drop zero xs = omega arith
length-drop (suc n) [] = omega arith
length-drop (suc n) (x ∷ xs) = omega (arith, length-drop n xs)

take-drop : (n : ℕ) (xs : Bytes) → take n xs ++ drop n xs ≡ xs
take-drop zero xs = refl
take-drop (suc n) [] = refl
take-drop (suc n) (x ∷ xs) = ap (◌∷◌ x) (take-drop n xs)

pub take-front : (n : ℕ) (xs ys : Bytes) → length xs ≡ n → take n (xs ++ ys) ≡ xs
take-front n xs ys e = ap (λ (k : ℕ). take k (xs ++ ys)) (sym e) ∙ take-append xs ys

-- What is copied behind the first bytes.
pub write_at-front :
    (target : Bytes) (offset : ℕ) (bytes : Bytes)
    → offset + length bytes ≤ length target
    → take (offset + length bytes) (write_at target offset bytes) ≡ take offset target ++ bytes
unfolding write_at
write_at-front target offset bytes h =
    ap (take (offset + length bytes))
      (sym (append_assoc (take offset target) bytes (drop (offset + length bytes) target)))
    ∙ take-front (offset + length bytes) (take offset target ++ bytes)
        (drop (offset + length bytes) target)
        (omega (arith, length-append (take offset target) bytes, length-take offset target))

pub length-write_at :
    (target : Bytes) (offset : ℕ) (bytes : Bytes)
    → offset + length bytes ≤ length target
    → length (write_at target offset bytes) ≡ length target
unfolding write_at
length-write_at target offset bytes h = omega (
  arith,
  length-append (take offset target) (bytes ++ drop (offset + length bytes) target),
  length-append bytes (drop (offset + length bytes) target),
  length-take offset target,
  length-drop (offset + length bytes) target,
)

pub take-whole : (xs : Bytes) (n : ℕ) → length xs ≡ n → take n xs ≡ xs
take-whole xs n e = ap (take n) (sym (append-nil xs)) ∙ take-front n xs [] e

module _ (compress : List ℕ → Bytes → List ℕ) (block : ℕ) (pos : 0 < block) where
  -- A context whose total is ahead of what it has absorbed.
  abbrev pub Holds : List ℕ → Bytes → HashCtx → Type 0
  Holds s m c =
      (length c.buf ≡ block)
      × (c.buf_used < block)
      × Absorbs compress block s m c.state (take c.buf_used c.buf)

  round-Holds :
      (s : List ℕ) (m data' : Bytes) (taken : ℕ) (c : HashCtx)
      → Holds s m c
      → taken ≤ length data'
      → c.buf_used + taken ≤ block
      → Holds s (m ++ take taken data') (update_round compress block taken data' c)
  unfolding update_round absorbed
  round-Holds s m data' taken c (buffer, room, blocks) le fits =
      let d : Bytes = take taken data' in
      let size : length d ≡ taken = omega (arith, length-take taken data') in
      let inside : c.buf_used + length d ≤ length c.buf = omega (arith, size, buffer, fits) in
      let front : take (c.buf_used + taken) (write_at c.buf c.buf_used d)
          ≡ take c.buf_used c.buf ++ d =
        ap (λ (k : ℕ). take (c.buf_used + k) (write_at c.buf c.buf_used d)) (sym size)
        ∙ write_at-front c.buf c.buf_used d inside in
      let same_size : length (write_at c.buf c.buf_used d) ≡ block =
        length-write_at c.buf c.buf_used d inside ∙ buffer in
      let joined : length (take c.buf_used c.buf ++ d) ≡ c.buf_used + taken = omega (
        arith,
        length-append (take c.buf_used c.buf) d,
        length-take c.buf_used c.buf,
        buffer,
        size,
        room,
      ) in
      elim (Bool-cases (c.buf_used + taken == block)) [
        | inl full ↦
            let exact : c.buf_used + taken ≡ block = (==_iff (c.buf_used + taken) block).0 full in
            let filled : write_at c.buf c.buf_used d ≡ take c.buf_used c.buf ++ d =
              sym (
                take-whole (write_at c.buf c.buf_used d) (c.buf_used + taken)
                  (same_size ∙ sym exact))
              ∙ front in
            rw full (
              same_size,
              pos,
              subst (λ (x : Bytes). Absorbs compress block s (m ++ d) (compress c.state x) [])
                  (sym filled) (Absorbs-fill compress block d pos blocks (joined ∙ exact)),
            )
        | inr open_block ↦
            let below : c.buf_used + taken < block = ground arith in
            rw open_block (
              same_size,
              below,
              subst (λ (x : Bytes). Absorbs compress block s (m ++ d) c.state x) (sym front)
                  (Absorbs-more compress block d blocks (omega (arith, joined, below))),
            )
      ]

  -- A round takes at least one byte, and no more than there are or fit.
  round_bounds :
      (b : ℕ) (data' : Bytes) (c : HashCtx)
      → c.buf_used < block
      → let taken = round_size block (b ∷ data') c in
        (0 < taken) × (taken ≤ length (b ∷ data')) × (c.buf_used + taken ≤ block)
  unfolding round_size
  round_bounds b data' c room = ground arith

  update_loop-cons :
      (fuel b : ℕ) (data' : Bytes) (c : HashCtx)
      → update_loop compress block (suc fuel) (b ∷ data') c
        ≡ update_loop compress block fuel
            (drop (round_size block (b ∷ data') c) (b ∷ data'))
            (update_round compress block (round_size block (b ∷ data') c) (b ∷ data') c)
  unfolding update_loop
  update_loop-cons fuel b data' c = refl

  update_loop-done : (fuel : ℕ) (c : HashCtx) → update_loop compress block fuel [] c ≡ c
  unfolding update_loop
  update_loop-done zero c = refl
  update_loop-done (suc fuel) c = refl

  update_round-total :
      (taken : ℕ) (data' : Bytes) (c : HashCtx)
      → (update_round compress block taken data' c).total_bytes ≡ c.total_bytes
  unfolding update_round absorbed
  update_round-total taken data' c = elim (Bool-cases (c.buf_used + taken == block)) [
    | inl full ↦ rw full refl
    | inr open_block ↦ rw open_block refl
  ]

  -- The loop of update ends within as many rounds as there are bytes: from a context that holds a
  -- message, with at least that many rounds allowed, it has absorbed all the bytes and holds the
  -- message followed by them.
  pub update_loop-Holds :
      (fuel : ℕ) (s : List ℕ) (m data' : Bytes) (c : HashCtx)
      → length data' ≤ fuel
      → Holds s m c
      → Holds s (m ++ data') (update_loop compress block fuel data' c)
        × ((update_loop compress block fuel data' c).total_bytes ≡ c.total_bytes)
  update_loop-Holds fuel s m [] c enough h = rw (update_loop-done fuel c, append-nil m) (h, refl)
  update_loop-Holds zero s m (b ∷ data') c enough h = absurd (omega (arith, enough))
  update_loop-Holds (suc fuel) s m (b ∷ data') c enough h =
      let taken : ℕ = round_size block (b ∷ data') c in
      let (buffer, room, blocks) = h in
      let (some_taken, le, fits) = round_bounds b data' c room in
      let next : HashCtx = update_round compress block taken (b ∷ data') c in
      let left : Bytes = drop taken (b ∷ data') in
      let (holds, total) =
        update_loop-Holds fuel s (m ++ take taken (b ∷ data')) left next
          (omega (arith, length-drop taken (b ∷ data'), enough, some_taken))
          (round-Holds s m (b ∷ data') taken c h le fits) in
      let regroup : (m ++ take taken (b ∷ data')) ++ left ≡ m ++ (b ∷ data') =
        append_assoc m (take taken (b ∷ data')) left
        ∙ ap (λ (x : Bytes). m ++ x) (take-drop taken (b ∷ data')) in
      let whole_message : Holds s (m ++ (b ∷ data')) (update_loop compress block fuel left next) =
        subst (λ (x : Bytes). Holds s x (update_loop compress block fuel left next)) regroup
          holds in
      rw (update_loop-cons fuel b data' c)
        (whole_message, total ∙ update_round-total taken (b ∷ data') c)

  pub length-new_ctx : length (new_ctx block).buf ≡ block
  unfolding new_ctx
  length-new_ctx = length-replicate block 0

  -- A fresh context has absorbed nothing.
  pub init-HasAbsorbed :
      (s : List ℕ) (c : HashCtx) → length c.buf ≡ block → HasAbsorbed compress block s [] (init s c)
  unfolding init
  init-HasAbsorbed s c size = record {
    buffer = size;
    room = pos;
    count = refl;
    blocks = partial [] pos;
  }

  -- update absorbs its data, whatever its size.
  pub update-HasAbsorbed :
      (s : List ℕ) (m data' : Bytes) (c : HashCtx)
      → HasAbsorbed compress block s m c
      → HasAbsorbed compress block s (m ++ data') (update compress block data' c)
  unfolding update
  update-HasAbsorbed s m data' c h =
      let counted : HashCtx = record {
        state = c.state;
        buf = c.buf;
        total_bytes = (c.total_bytes + length data') % 2 ^ 64;
        buf_used = c.buf_used;
      } in
      let ((buffer, room, blocks), total) =
        update_loop-Holds (length data') s m data' counted (omega arith)
          (h.buffer, h.room, h.blocks) in
      record {
        buffer = buffer;
        room = room;
        count = total ∙ omega (arith, h.count, length-append m data');
        blocks = blocks;
      }
