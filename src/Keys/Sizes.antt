-- ===== src/Keys/Sizes.antt =====
-- internal/transport/crypto.go: every derived key fits AES-256, and no nonce comes twice.
use unknowntunnel.Prelude.{
  ℕ, zero, suc, ◌+◌, ◌*◌, ◌^◌, ◌≤◌, ◌<◌, ◌≡◌, ◌∙◌, sym, ap, [], ◌∷◌, ◌++◌, Bytes, length, drop,
  length-append, length-take, get_be, get_be-put_be, ok, arith, ltb, Bool-cases, inl, inr, ◌%◌,
}
use unknowntunnel.Keys.{
  Crypto, IsCrypto, new_aead, nonce_for, expand_loop, hkdf_expand, derive_keys,
}

module _ (c : Crypto) (ok_c : IsCrypto c) where
  expand_loop-reaches :
      (fuel : ℕ) (prk info : Bytes) (size counter : ℕ) (previous result : Bytes)
      → size ≤ length result + fuel * 32
      → size ≤ length (expand_loop c fuel prk info size counter previous result)
  unfolding expand_loop
  expand_loop-reaches zero prk info size counter previous result h = omega arith
  expand_loop-reaches (suc fuel) prk info size counter previous result h =
      let next = c.hmac prk (previous ++ (info ++ (counter ∷ []))) in
      elim (Bool-cases (ltb (length result) size)) [
        | inl more ↦
            rw (more, expand_loop)
              (expand_loop-reaches fuel prk info size ((counter + 1) % 256) next (result ++ next) (
                omega (
                  arith,
                  length-append result next,
                  ok_c.length-hmac prk (previous ++ (info ++ (counter ∷ []))),
                )))
        | inr done ↦ rw (done, expand_loop) (ground arith)
      ]

  -- The loop yields the bytes that are asked for, so that the slice behind it is in range.
  pub length-hkdf_expand :
      (prk info : Bytes) (size : ℕ) → length (hkdf_expand c prk info size) ≡ size
  unfolding hkdf_expand
  length-hkdf_expand prk info size = omega (
    arith,
    length-take size (expand_loop c size prk info size 1 [] []),
    expand_loop-reaches size prk info size 1 [] [] (omega arith),
  )

  new_aead_ok : (key : Bytes) → length key ≡ 32 → new_aead key ≡ ok key
  unfolding new_aead
  new_aead_ok key h = ground (arith, h)

  -- With an HMAC of 32 bytes, both data keys that deriveKeys returns are accepted by newAEAD,
  -- and both acknowledgement keys have 32 bytes.
  pub new_aead-derive_keys :
      (secret client_nonce server_nonce client_id server_id : Bytes)
      → let k = derive_keys c secret client_nonce server_nonce client_id server_id in
        (new_aead k.client_send ≡ ok k.client_send)
        × (new_aead k.server_send ≡ ok k.server_send)
        × (length k.client_ack ≡ 32)
        × (length k.server_ack ≡ 32)
  unfolding derive_keys
  new_aead-derive_keys secret cn sn ci si = (
    new_aead_ok _ (length-hkdf_expand _ _ 32),
    new_aead_ok _ (length-hkdf_expand _ _ 32),
    length-hkdf_expand _ _ 32,
    length-hkdf_expand _ _ 32,
  )

-- Two sequence numbers below 2^64 with the same nonce are equal.
pub nonce_for-injective : (a b : ℕ) → a < 2 ^ 64 → b < 2 ^ 64 → nonce_for a ≡ nonce_for b → a ≡ b
unfolding nonce_for
nonce_for-injective a b ha hb e =
    sym (get_be-put_be 8 a ha) ∙ ap get_be (ap (drop 4) e) ∙ get_be-put_be 8 b hb
