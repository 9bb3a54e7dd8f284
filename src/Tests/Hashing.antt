-- ===== src/Tests/Hashing.antt =====
-- The hash contexts with a compression function that adds the first byte of the block.
use claude_crypto.Base.{ℕ, ◌+◌, ◌≡◌, List, [], ◌∷◌, map, get_or, arith}
use claude_crypto.Api.Result.{Bytes}
use claude_crypto.Hash.{init, new_ctx, update_loop, hmac_sha512_impl}
use claude_crypto.Hash.Update.{Holds, length-new_ctx, init-HasAbsorbed, update_loop-Holds}
use claude_crypto.Hash.Hmac.{IsHmac, hmac_sha512_impl-IsHmac}

abbrev mix : List ℕ → Bytes → List ℕ
mix state b = map (λ (w : ℕ). w + get_or b 0 0) state

abbrev start : List ℕ
start = 1 ∷ 2 ∷ 3 ∷ 4 ∷ 5 ∷ 6 ∷ 7 ∷ 8 ∷ []

hmac_sha512_impl-IsHmac_example :
    IsHmac mix 128 16 start 48
      (1 ∷ 2 ∷ [])
      (3 ∷ [])
      (hmac_sha512_impl mix 128 16 start (1 ∷ 2 ∷ []) (3 ∷ []) 48)
hmac_sha512_impl-IsHmac_example =
    hmac_sha512_impl-IsHmac mix 128 16 (omega arith) (omega arith) start 48 (1 ∷ 2 ∷ []) (3 ∷ [])

update_loop-Holds_example :
    Holds mix 128
      (omega arith)
      start
      (3 ∷ 4 ∷ [])
      (update_loop mix 128 2 (3 ∷ 4 ∷ []) (init start (new_ctx 128)))
    × ((update_loop mix 128 2 (3 ∷ 4 ∷ []) (init start (new_ctx 128))).total_bytes
        ≡ (init start (new_ctx 128)).total_bytes)
update_loop-Holds_example =
    let begun =
      init-HasAbsorbed mix 128 (omega arith) start (new_ctx 128)
        (length-new_ctx mix 128 (omega arith)) in
    update_loop-Holds mix 128 (omega arith) 2 start [] (3 ∷ 4 ∷ []) (init start (new_ctx 128))
      (omega arith) (begun.buffer, begun.room, begun.blocks)
