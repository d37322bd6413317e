-- ===== src/Security/Tokens/Keystream.antt =====
-- The loop of `_token_keystream` ends, with as many bytes as it is asked for.
use autoedge_licensing_serve.Prelude.{
  ℕ, zero, suc, ◌+◌, ◌-◌, ◌*◌, ◌≡◌, ◌≤◌, ◌<◌, refl, Bool-cases, inl, inr, some, List, [], ◌∷◌, ◌++◌,
  length, arith, ltb, lt→ltb,
}
use autoedge_licensing_serve.Security.Primitives.{Primitives, IsStandard, Bytes}
use autoedge_licensing_serve.Security.Primitives.Slices.{length-append, length-take}
use autoedge_licensing_serve.Security.Tokens.{
  counter_bytes, big_endian, join, keystream_blocks, token_keystream,
}

counter_bytes_small : (n : ℕ) → n < 4294967296 → counter_bytes n ≡ some (big_endian n)
unfolding counter_bytes
counter_bytes_small n h = rw (lt→ltb n 4294967296 h)

length-join :
    (blocks : List Bytes) (block : Bytes)
    → length (join (blocks ++ block ∷ [])) ≡ length (join blocks) + length block
length-join [] block = omega (arith, length-append block [])
length-join (b ∷ blocks) block = omega (
  arith,
  length-append b (join (blocks ++ block ∷ [])),
  length-append b (join blocks),
  length-join blocks block,
)

module _ (p : Primitives) (std : IsStandard p) (key nonce : Bytes) (size : ℕ) where
  keystream_blocks_lem :
      (fuel counter generated : ℕ) (blocks : List Bytes)
      → size ≤ 137438953472
      → generated ≡ 32 * counter
      → length (join blocks) ≡ generated
      → size - generated < fuel
      → (out : List Bytes) × (keystream_blocks p fuel key nonce size counter generated blocks
          ≡ some out)
        × (size ≤ length (join out))
  unfolding keystream_blocks
  keystream_blocks_lem zero counter generated blocks b g l f = absurd (omega arith)
  keystream_blocks_lem (suc fuel) counter generated blocks b g l f =
      elim (Bool-cases (ltb generated size)) [
        | inl more ↦
            let bytes = big_endian counter in
            let e = counter_bytes_small counter (ground arith) in
            let block = p.hmac_sha256 key (nonce ++ bytes) in
            let full : length block ≡ 32 = std.digest_length key (nonce ++ bytes) in
            let below : generated < size = ground arith in
            let (out, made, enough) =
              keystream_blocks_lem fuel (counter + 1) (generated + length block)
                (blocks ++ block ∷ []) b (omega arith) (rw (length-join blocks block) (omega arith))
                (omega arith) in
            (out, rw (more, e) made, enough)
        | inr done ↦ (blocks, rw done, ground arith)
      ]

  -- With digests of 32 bytes, `_token_keystream` returns, for every length of at most 2 ** 37
  -- bytes, exactly that many bytes: its counter fits four bytes, and the loop ends.
  pub token_keystream_total :
      size ≤ 137438953472
      → (stream : Bytes) × (token_keystream p key nonce size ≡ some stream) × (length stream ≡ size)
  unfolding token_keystream
  token_keystream_total b =
      let (out, made, enough) =
        keystream_blocks_lem (suc size) 0 0 [] b (omega arith) refl (omega arith) in
      (_, rw made, length-take size (join out) enough)
