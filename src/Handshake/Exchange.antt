-- ===== src/Handshake/Exchange.antt =====
-- internal/transport, `dialTCPSession` and `acceptTCPSession`: both ends of an exchange that is
-- not disturbed derive the same keys, and a server answers its configured peer alone.
use unknowntunnel.Prelude.{
  ℕ, ◌^◌, ◌≤◌, ◌<◌, ◌≡◌, refl, false, [], ◌++◌, Bytes, bytes_eq_self, bytes_eq_iff, length, ok,
  >>=-eq-ok, ℤ, arith,
}
use unknowntunnel.Keys.{Crypto, IsCrypto, KeySet, derive_keys}
use unknowntunnel.Handshake.{
  Handshake, base, handshake_hello, encode_handshake, decode_handshake, validate_handshake, skewed,
  client_hello, server_welcome, client_keys,
}
use unknowntunnel.Handshake.RoundTrip.{encode_handshake_lem, decode-encode_handshake}

-- A handshake of the wanted kind, between the wanted nodes, and in time, passes.
validate_ok :
    (since : ℕ → ℤ) (h : Handshake)
    → skewed (since h.timestamp) ≡ false
    → validate_handshake since h h.kind h.node_id h.peer_id ≡ ok tt
unfolding validate_handshake
validate_ok since h e = rw (bytes_eq_self h.node_id, bytes_eq_self h.peer_id, e) (ground arith)

-- What passes has the wanted kind, nodes and time.
validate_only :
    (since : ℕ → ℤ) (h : Handshake) (kind : ℕ) (node peer : Bytes) {u : Unit {0}}
    → validate_handshake since h kind node peer ≡ ok u
    → (h.kind ≡ kind)
      × (h.node_id ≡ node)
      × (h.peer_id ≡ peer)
      × (skewed (since h.timestamp) ≡ false)
unfolding validate_handshake
validate_only since h kind node peer e = (
  ground arith,
  ground (arith, bytes_eq_iff h.node_id node),
  ground (arith, bytes_eq_iff h.peer_id peer),
  ground arith,
)

encode_ok :
    (c : Crypto) (h : Handshake) (bind secret : Bytes)
    → length h.nonce ≡ 32
    → (1 ≤ length h.node_id)
      × (length h.node_id ≤ 64)
      × (1 ≤ length h.peer_id)
      × (length h.peer_id ≤ 64)
    → encode_handshake c h bind secret ≡ ok (base h ++ c.hmac secret (base h ++ bind))
unfolding encode_handshake
encode_ok c h bind secret n s = ground arith

module _ (c : Crypto) (ok_c : IsCrypto c) (secret : Bytes) where
  -- If a client says hello with its nonce, clocks are in range on both sides and the
  -- identifiers, times and sizes fit their fields, then the server configured for that peer
  -- answers, the client takes the answer, and both derive the same keys.
  pub exchange_agrees :
      (node peer client_nonce server_nonce : Bytes) (now now' session_id : ℕ) (since since' : ℕ → ℤ)
      {request : Bytes}
      → now < 2 ^ 64
      → now' < 2 ^ 64
      → session_id < 2 ^ 64
      → length server_nonce ≡ 32
      → skewed (since now) ≡ false
      → skewed (since' now') ≡ false
      → client_hello c secret now client_nonce node peer ≡ ok request
      → (response : Bytes) × (keys : KeySet) × (server_welcome c secret since now' session_id
            server_nonce peer node request
          ≡ ok (response, keys))
        × (client_keys c secret since' client_nonce node peer response ≡ ok keys)
  unfolding client_hello server_welcome client_keys
  exchange_agrees node peer cn sn now now' sid since since' {request} hn hn' hs hl t t' e =
      let hello : Handshake = record {
        kind = 1;
        session_id = 0;
        timestamp = now;
        nonce = cn;
        node_id = node;
        peer_id = peer;
      } in
      let welcome : Handshake = record {
        kind = 2;
        session_id = sid;
        timestamp = now';
        nonce = sn;
        node_id = peer;
        peer_id = node;
      } in
      let (_, nonce_32, sizes) = encode_handshake_lem c ok_c hello [] secret e in
      let got : decode_handshake c request [] secret ≡ ok hello =
        decode-encode_handshake c ok_c hello [] secret
          (record { session_id_fits = omega arith; timestamp_fits = hn }) e in
      let answer = base welcome ++ c.hmac secret (base welcome ++ cn) in
      let encoded : encode_handshake c welcome cn secret ≡ ok answer =
        encode_ok c welcome cn secret hl (sizes.2, sizes.3, sizes.0, sizes.1) in
      let taken : decode_handshake c answer cn secret ≡ ok welcome =
        decode-encode_handshake c ok_c welcome cn secret
          (record { session_id_fits = hs; timestamp_fits = hn' }) encoded in
      (
        answer,
        derive_keys c secret cn sn node peer,
        rw (got, validate_ok since hello t, encoded) refl,
        rw (taken, validate_ok since' welcome t') refl,
      )

  -- A server that answers was sent a hello that decodes under the secret, of the hello kind,
  -- from the peer it is configured for and to itself, with a time within the allowed clock
  -- skew.
  pub server_welcome_only :
      (since : ℕ → ℤ) (now session_id : ℕ) (server_nonce node_id peer_id request : Bytes)
      {r : Bytes × KeySet}
      → server_welcome c secret since now session_id server_nonce node_id peer_id request ≡ ok r
      → (hello : Handshake) × (decode_handshake c request [] secret ≡ ok hello)
        × (hello.kind ≡ handshake_hello)
        × (hello.node_id ≡ peer_id)
        × (hello.peer_id ≡ node_id)
        × (skewed (since hello.timestamp) ≡ false)
  unfolding server_welcome
  server_welcome_only since now sid sn node peer request e =
      let (hello, got, e1) = >>=-eq-ok (decode_handshake c request [] secret) _ e in
      let (_, valid, _) =
        >>=-eq-ok (validate_handshake since hello handshake_hello peer node) _ e1 in
      let (k, n, p, t) = validate_only since hello handshake_hello peer node valid in
      (hello, got, k, n, p, t)
