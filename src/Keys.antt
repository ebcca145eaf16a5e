-- ===== src/Keys.antt =====
-- internal/transport/crypto.go: the keys of a session and the nonces of its records. Go's crypto
-- packages are a parameter.
pub mod Sizes
use unknowntunnel.Prelude.{
  ℕ, zero, suc, ◌+◌, ◌%◌, ◌≡◌, Bool, true, false, List, [], ◌∷◌, ◌++◌, Bytes, Option, none, some,
  ltb, ◌==◌, if◌then◌else◌, length, take, codes, put_be, Result, ok, err, ◌>>=◌, ◌>>◌, reject_if,
  arith,
}

-- SHA-256, HMAC-SHA256 over a key and a message, and AES-256-GCM over a key, a nonce, a text and
-- its associated data.
pub record Crypto : Type 0 where
  pub sha256 : Bytes → Bytes
  pub hmac : Bytes → Bytes → Bytes
  pub seal : Bytes → Bytes → Bytes → Bytes → Bytes
  pub open_sealed : Bytes → Bytes → Bytes → Bytes → Option Bytes

-- What their documentation says of sizes, and that `Open` undoes `Seal`.
pub record IsCrypto (c : Crypto) : Type 0 where
  pub length-hmac : (key message : Bytes) → length (c.hmac key message) ≡ 32
  pub length-seal :
      (key nonce text aad : Bytes) → length (c.seal key nonce text aad) ≡ length text + 16
  pub open-seal :
      (key nonce text aad : Bytes)
      → c.open_sealed key nonce (c.seal key nonce text aad) aad ≡ some text

-- `AEAD.Overhead()` of GCM.
abbrev pub overhead : ℕ
overhead = 16

pub record KeySet : Type 0 where
  pub client_send : Bytes
  pub server_send : Bytes
  pub client_ack : Bytes
  pub server_ack : Bytes

pub data KeyError : Type 0 where
  invalid_key_length : KeyError

-- `newAEAD`: the cipher is its key.
unfoldable pub new_aead : Bytes → Result KeyError Bytes
new_aead key = if length key == 32 then ok key else err invalid_key_length

pub new_aead-eq-ok : (key cipher : Bytes) → new_aead key ≡ ok cipher → cipher ≡ key
unfolding new_aead
new_aead-eq-ok key cipher h = ground (arith, h)

pub nonce_for : ℕ → Bytes
nonce_for seq = codes "UTN1" ++ put_be 8 seq

module _ (c : Crypto) where
  pub hkdf_extract : Bytes → Bytes → Bytes
  hkdf_extract salt input = c.hmac salt input

  -- `for counter := byte(1); len(result) < length; counter++`. Each round adds 32 bytes, so as many
  -- rounds as bytes are wanted are enough.
  pub expand_loop : ℕ → Bytes → Bytes → ℕ → ℕ → Bytes → Bytes → Bytes
  expand_loop zero prk info size counter previous result = result
  expand_loop (suc fuel) prk info size counter previous result =
      let next = c.hmac prk (previous ++ (info ++ (counter ∷ []))) in
      elim (ltb (length result) size) [
        | true ↦ expand_loop fuel prk info size ((counter + 1) % 256) next (result ++ next)
        | false ↦ result
      ]

  pub hkdf_expand : Bytes → Bytes → ℕ → Bytes
  hkdf_expand prk info size = take size (expand_loop size prk info size 1 [] [])

  pub derive_keys : Bytes → Bytes → Bytes → Bytes → Bytes → KeySet
  derive_keys secret client_nonce server_nonce client_id server_id =
      let salt = c.sha256 (client_nonce ++ (server_nonce ++ (client_id ++ (0 ∷ server_id)))) in
      let prk = hkdf_extract salt secret in
      record {
        client_send = hkdf_expand prk (codes "unknowntunnel/client-to-server/data") 32;
        server_send = hkdf_expand prk (codes "unknowntunnel/server-to-client/data") 32;
        client_ack = hkdf_expand prk (codes "unknowntunnel/client-to-server/ack") 32;
        server_ack = hkdf_expand prk (codes "unknowntunnel/server-to-client/ack") 32;
      }
