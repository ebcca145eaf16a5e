-- ===== src/Handshake.antt =====
-- internal/transport/handshake.go, and the exchanges of tcp.go and udp.go that use it: the two
-- authenticated messages that open a carrier.
pub mod RoundTrip
pub mod Exchange
use unknowntunnel.Prelude.{
  ℕ, zero, suc, ◌+◌, ◌*◌, Bool, true, false, not, ◌&&◌, ◌||◌, List, [], ◌∷◌, ◌++◌, Bytes, ltb, leb,
  ◌==◌, bytes_eq, length, slice, byte_at, codes, put_be, get_be, Result, ok, err, ◌>>=◌, ◌>>◌,
  reject_if, ℤ, pos, negsuc, Option, none, some,
}
use unknowntunnel.Keys.{Crypto, KeySet, derive_keys}

abbrev pub handshake_magic : Bytes
handshake_magic = codes "UKH1"

abbrev pub handshake_version : ℕ
handshake_version = 1

abbrev pub handshake_hello : ℕ
handshake_hello = 1

abbrev pub handshake_welcome : ℕ
handshake_welcome = 2

-- Five minutes, in nanoseconds.
abbrev pub max_clock_skew : ℕ
max_clock_skew = 300 * 1_000_000_000

-- The timestamp, an int64, is kept as its bit pattern, as the wire has it.
pub record Handshake : Type 0 where
  pub kind : ℕ
  pub session_id : ℕ
  pub timestamp : ℕ
  pub nonce : Bytes
  pub node_id : Bytes
  pub peer_id : Bytes

pub data Error : Type 0 where
  nonce_size invalid_identifiers : Error
  too_short invalid_header invalid_length authentication_failed : Error
  unexpected_kind identity_mismatch clock_skew : Error

-- The first 24 bytes.
unfoldable pub front : Handshake → Bytes
front h =
    handshake_magic
    ++ (handshake_version ∷ h.kind ∷ [])
    ++ put_be 2 0
    ++ put_be 8 h.session_id
    ++ put_be 8 h.timestamp

-- What the authentication code covers: 58 bytes and the two identifiers.
unfoldable pub base : Handshake → Bytes
base h = front h ++ (h.nonce ++ (length h.node_id ∷ length h.peer_id ∷ (h.node_id ++ h.peer_id)))

module _ (c : Crypto) where
  authenticator : Bytes → Bytes → Bytes → Bytes
  authenticator bytes bind_nonce secret = c.hmac secret (bytes ++ bind_nonce)

  unfoldable pub encode_handshake : Handshake → Bytes → Bytes → Result Error Bytes
  unfolding authenticator
  encode_handshake h bind_nonce secret = do
    reject_if (not (length h.nonce == 32)) nonce_size
    reject_if
        (length h.node_id == 0
          || (ltb 64 (length h.node_id) || (length h.peer_id == 0 || ltb 64 (length h.peer_id))))
        invalid_identifiers
    ok (base h ++ authenticator (base h) bind_nonce secret)

  handshake_fields : Bytes → ℕ → ℕ → Handshake
  handshake_fields bytes node_len peer_len = record {
    kind = byte_at bytes 5;
    session_id = get_be (slice bytes 8 16);
    timestamp = get_be (slice bytes 16 24);
    nonce = slice bytes 24 56;
    node_id = slice bytes 58 (58 + node_len);
    peer_id = slice bytes (58 + node_len) (58 + node_len + peer_len);
  }

  pub decode_handshake : Bytes → Bytes → Bytes → Result Error Handshake
  unfolding authenticator handshake_fields
  decode_handshake bytes bind_nonce secret = do
    reject_if (ltb (length bytes) (58 + 32)) too_short
    reject_if
        (not (bytes_eq (slice bytes 0 4) handshake_magic)
          || not (byte_at bytes 4 == handshake_version))
        invalid_header
    let node_len = byte_at bytes 56
    let peer_len = byte_at bytes 57
    let base_len = 58 + node_len + peer_len
    reject_if
        (node_len == 0
          || (peer_len == 0
              || (ltb 64 node_len || (ltb 64 peer_len || not (length bytes == base_len + 32)))))
        invalid_length
    reject_if
        (not (
          bytes_eq (slice bytes base_len (length bytes))
            (authenticator (slice bytes 0 base_len) bind_nonce secret)))
        authentication_failed
    ok (handshake_fields bytes node_len peer_len)

-- `delta < -maxClockSkew || delta > maxClockSkew`.
unfoldable pub skewed : ℤ → Bool
skewed (pos n) = ltb max_clock_skew n
skewed (negsuc n) = ltb max_clock_skew (n + 1)

-- `since t` is `time.Since(time.Unix(t, 0))` in nanoseconds, on the clock of the caller.
pub validate_handshake : (ℕ → ℤ) → Handshake → ℕ → Bytes → Bytes → Result Error (Unit {0})
unfolding skewed
validate_handshake since h want_kind want_node want_peer = do
  reject_if (not (h.kind == want_kind)) unexpected_kind
  reject_if (not (bytes_eq h.node_id want_node) || not (bytes_eq h.peer_id want_peer))
      identity_mismatch
  reject_if (skewed (since h.timestamp)) clock_skew
  ok tt

-- The two ends of an exchange, without the reads and writes between them.
module _ (c : Crypto) (secret : Bytes) where
  -- `dialTCPSession`: the hello of a client.
  unfoldable pub client_hello : ℕ → Bytes → Bytes → Bytes → Result Error Bytes
  client_hello now client_nonce node_id peer_id =
      encode_handshake c
        (record {
          kind = handshake_hello;
          session_id = 0;
          timestamp = now;
          nonce = client_nonce;
          node_id = node_id;
          peer_id = peer_id;
        })
        [] secret

  -- `acceptTCPSession`: the answer to a hello, and the keys. A UDP server gives a session
  -- identifier, a TCP server has 0 there.
  pub server_welcome :
      (ℕ → ℤ) → ℕ → ℕ → Bytes → Bytes → Bytes → Bytes → Result Error (Bytes × KeySet)
  server_welcome since now session_id server_nonce node_id peer_id request = do
    hello ← decode_handshake c request [] secret
    validate_handshake since hello handshake_hello peer_id node_id
    welcome ←
        encode_handshake c
          (record {
            kind = handshake_welcome;
            session_id = session_id;
            timestamp = now;
            nonce = server_nonce;
            node_id = node_id;
            peer_id = peer_id;
          })
          hello.nonce secret
    ok (welcome, derive_keys c secret hello.nonce server_nonce peer_id node_id)

  -- `dialTCPSession`: what a client makes of the answer.
  pub client_keys : (ℕ → ℤ) → Bytes → Bytes → Bytes → Bytes → Result Error KeySet
  client_keys since client_nonce node_id peer_id response = do
    welcome ← decode_handshake c response client_nonce secret
    validate_handshake since welcome handshake_welcome peer_id node_id
    ok (derive_keys c secret client_nonce welcome.nonce node_id peer_id)
