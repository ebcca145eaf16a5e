-- ===== src/Handshake/RoundTrip.antt =====
-- internal/transport/handshake.go: what one side encodes the other decodes, and what is decoded is
-- authentic.
use unknowntunnel.Prelude.{
  ℕ, ◌+◌, ◌^◌, ◌≤◌, ◌<◌, ◌≡◌, ◌∙◌, sym, refl, Bool, true, false, [], ◌∷◌, ◌++◌, Bytes, ltb, ◌==◌,
  bytes_eq_self, bytes_eq_iff, length, length-append, slice, slice-middle, slice_last, byte_at,
  byte_at-append, put_be, get_be, get_be-put_be, append_assoc, ok, arith, not, reject_if-eq-ok,
  ◌||◌,
}
use unknowntunnel.Keys.{Crypto, IsCrypto}
use unknowntunnel.Handshake.{
  too_short, invalid_header, invalid_length, authentication_failed, Handshake, handshake_magic,
  handshake_version, front, base, encode_handshake, handshake_fields, decode_handshake,
}

not-eq-false : (b : Bool) → not b ≡ false → b ≡ true
not-eq-false true h = refl
not-eq-false false h = cc

sizes_in_range :
    {P : Type 0} (node_len peer_len total : ℕ)
    → (node_len == 0
        || (peer_len == 0
            || (ltb 64 node_len
                || (ltb 64 peer_len || not (total == 58 + node_len + peer_len + 32)))))
      ≡ false
    → P
    → (1 ≤ node_len)
      × (node_len ≤ 64)
      × (1 ≤ peer_len)
      × (peer_len ≤ 64)
      × (total ≡ 58 + (node_len + peer_len) + 32)
      × P
sizes_in_range node_len peer_len total h p =
    (ground arith, ground arith, ground arith, ground arith, ground arith, p)

-- If bytes decode as a handshake, both identifier lengths in them are from 1 to 64, the length
-- of the bytes is the one these give, and the bytes end in the authentication code, under the
-- secret, of the bytes before it and the nonce they are bound to.
pub decode_handshake_authentic :
    (c : Crypto) (bytes bind_nonce secret : Bytes) (h : Handshake)
    → decode_handshake c bytes bind_nonce secret ≡ ok h
    → (1 ≤ byte_at bytes 56)
      × (byte_at bytes 56 ≤ 64)
      × (1 ≤ byte_at bytes 57)
      × (byte_at bytes 57 ≤ 64)
      × (length bytes ≡ 58 + (byte_at bytes 56 + byte_at bytes 57) + 32)
      × (slice bytes (58 + byte_at bytes 56 + byte_at bytes 57) (length bytes)
          ≡ c.hmac secret (slice bytes 0 (58 + byte_at bytes 56 + byte_at bytes 57) ++ bind_nonce))
unfolding decode_handshake
decode_handshake_authentic c bytes bind_nonce secret h e =
    let end = 58 + byte_at bytes 56 + byte_at bytes 57 in
    let (_, e1) = reject_if-eq-ok _ too_short _ e in
    let (_, e2) = reject_if-eq-ok _ invalid_header _ e1 in
    let (sizes, e3) = reject_if-eq-ok _ invalid_length _ e2 in
    let (same, _) = reject_if-eq-ok _ authentication_failed _ e3 in
    let mac : slice bytes end (length bytes) ≡ c.hmac secret (slice bytes 0 end ++ bind_nonce) =
      (bytes_eq_iff _ _).0 (not-eq-false _ same) in
    sizes_in_range (byte_at bytes 56) (byte_at bytes 57) (length bytes) sizes mac

-- The parts of an encoded handshake, where `decodeHandshake` looks for them.
module _ (h : Handshake) (nonce_32 : length h.nonce ≡ 32) (rest : Bytes) where
  abbrev back : Bytes
  back = length h.node_id ∷ length h.peer_id ∷ (h.node_id ++ (h.peer_id ++ rest))

  abbrev whole : Bytes
  whole = base h ++ rest

  length-front : length (front h) ≡ 24
  unfolding front put_be
  length-front = refl

  pub length-base : length (base h) ≡ 58 + length h.node_id + length h.peer_id
  unfolding base
  length-base = omega (
    arith,
    length-front,
    length-append (front h)
        (h.nonce ++ (length h.node_id ∷ length h.peer_id ∷ (h.node_id ++ h.peer_id))),
    length-append h.nonce (length h.node_id ∷ length h.peer_id ∷ (h.node_id ++ h.peer_id)),
    length-append h.node_id h.peer_id,
  )

  whole_lem : whole ≡ front h ++ (h.nonce ++ back)
  unfolding base
  whole_lem = simp append_assoc

  regroup_nonce : whole ≡ (front h ++ h.nonce) ++ back
  regroup_nonce = whole_lem ∙ sym (append_assoc (front h) h.nonce back)

  abbrev before_ids : Bytes
  before_ids = (front h ++ h.nonce) ++ (length h.node_id ∷ length h.peer_id ∷ [])

  regroup_ids : whole ≡ before_ids ++ (h.node_id ++ (h.peer_id ++ rest))
  regroup_ids =
      regroup_nonce
      ∙ sym (
          append_assoc (front h ++ h.nonce) (length h.node_id ∷ length h.peer_id ∷ [])
            (h.node_id ++ (h.peer_id ++ rest)))

  length-before_nonce : length (front h ++ h.nonce) ≡ 56
  length-before_nonce = omega (arith, length-append (front h) h.nonce, length-front)

  length-before_ids : length before_ids ≡ 58
  length-before_ids = omega (
    arith,
    length-before_nonce,
    length-append (front h ++ h.nonce) (length h.node_id ∷ length h.peer_id ∷ []),
  )

  nonce-whole : slice whole 24 56 ≡ h.nonce
  nonce-whole = rw whole_lem (slice-middle (front h) h.nonce back 24 56 length-front (omega arith))

  node_len-whole : byte_at whole 56 ≡ length h.node_id
  node_len-whole = rw regroup_nonce (
      byte_at-append (front h ++ h.nonce) (length h.node_id)
        (length h.peer_id ∷ (h.node_id ++ (h.peer_id ++ rest))) 56 length-before_nonce)

  peer_len-whole : byte_at whole 57 ≡ length h.peer_id
  peer_len-whole = rw regroup_peer (
      byte_at-append ((front h ++ h.nonce) ++ (length h.node_id ∷ [])) (length h.peer_id)
        (h.node_id ++ (h.peer_id ++ rest)) 57
        (omega
          (arith, length-before_nonce, length-append (front h ++ h.nonce) (length h.node_id ∷ []))))
    where
      regroup_peer :
          whole
          ≡ ((front h ++ h.nonce) ++ (length h.node_id ∷ []))
            ++ (length h.peer_id ∷ (h.node_id ++ (h.peer_id ++ rest)))
      regroup_peer =
          regroup_nonce
          ∙ sym (
              append_assoc (front h ++ h.nonce) (length h.node_id ∷ [])
                (length h.peer_id ∷ (h.node_id ++ (h.peer_id ++ rest))))

  node-whole : slice whole 58 (58 + length h.node_id) ≡ h.node_id
  node-whole =
      rw regroup_ids
        (slice-middle before_ids h.node_id (h.peer_id ++ rest) 58 _ length-before_ids refl)

  peer-whole :
      slice whole (58 + length h.node_id) (58 + length h.node_id + length h.peer_id) ≡ h.peer_id
  peer-whole = rw regroup_peer (
      slice-middle (before_ids ++ h.node_id) h.peer_id rest _ _
        (omega (arith, length-before_ids, length-append before_ids h.node_id)) refl)
    where
      regroup_peer : whole ≡ (before_ids ++ h.node_id) ++ (h.peer_id ++ rest)
      regroup_peer = regroup_ids ∙ sym (append_assoc before_ids h.node_id (h.peer_id ++ rest))

  base-whole : slice whole 0 (58 + length h.node_id + length h.peer_id) ≡ base h
  base-whole = slice-middle [] (base h) rest 0 _ refl (omega (arith, length-base))

  rest-whole : slice whole (58 + length h.node_id + length h.peer_id) (length whole) ≡ rest
  rest-whole =
      slice_last (base h) rest _ _ length-base
        (omega (arith, length-append (base h) rest, length-base))

-- A handshake whose numbers fit their fields.
pub record IsWire (h : Handshake) : Type 0 where
  pub session_id_fits : h.session_id < 2 ^ 64
  pub timestamp_fits : h.timestamp < 2 ^ 64

kind-whole : (h : Handshake) (rest : Bytes) → byte_at (base h ++ rest) 5 ≡ h.kind
unfolding base front put_be
kind-whole h rest = refl

header-whole :
    (h : Handshake) (rest : Bytes)
    → (slice (base h ++ rest) 0 4 ≡ handshake_magic)
      × (byte_at (base h ++ rest) 4 ≡ handshake_version)
unfolding base front put_be
header-whole h rest = (refl, refl)

session_id-whole :
    (h : Handshake) (v : IsWire h) (rest : Bytes)
    → get_be (slice (base h ++ rest) 8 16) ≡ h.session_id
unfolding base front put_be
session_id-whole h v rest = get_be-put_be 8 h.session_id v.session_id_fits

timestamp-whole :
    (h : Handshake) (v : IsWire h) (rest : Bytes)
    → get_be (slice (base h ++ rest) 16 24) ≡ h.timestamp
unfolding base front put_be
timestamp-whole h v rest = get_be-put_be 8 h.timestamp v.timestamp_fits

fields-whole :
    (c : Crypto) (h : Handshake) (rest : Bytes)
    → IsWire h
    → length h.nonce ≡ 32
    → handshake_fields c (base h ++ rest) (length h.node_id) (length h.peer_id) ≡ h
unfolding handshake_fields
fields-whole c h rest v nonce_32 = λ i. record {
  kind = kind-whole h rest i;
  session_id = session_id-whole h v rest i;
  timestamp = timestamp-whole h v rest i;
  nonce = nonce-whole h nonce_32 rest i;
  node_id = node-whole h nonce_32 rest i;
  peer_id = peer-whole h nonce_32 rest i;
}

module _ (c : Crypto) (ok_c : IsCrypto c) (h : Handshake) (bind_nonce secret : Bytes) where
  pub encode_handshake_lem :
      {bytes : Bytes}
      → encode_handshake c h bind_nonce secret ≡ ok bytes
      → (bytes ≡ base h ++ c.hmac secret (base h ++ bind_nonce))
        × (length h.nonce ≡ 32)
        × ((1 ≤ length h.node_id)
            × (length h.node_id ≤ 64)
            × (1 ≤ length h.peer_id)
            × (length h.peer_id ≤ 64))
  unfolding encode_handshake
  encode_handshake_lem e =
      (ground arith, ground arith, (ground arith, ground arith, ground arith, ground arith))

  decode-whole :
      IsWire h
      → length h.nonce ≡ 32
      → (1 ≤ length h.node_id)
        × (length h.node_id ≤ 64)
        × (1 ≤ length h.peer_id)
        × (length h.peer_id ≤ 64)
      → decode_handshake c (base h ++ c.hmac secret (base h ++ bind_nonce)) bind_nonce secret ≡ ok h
  unfolding decode_handshake
  decode-whole v nonce_32 sizes =
      let mac = c.hmac secret (base h ++ bind_nonce) in
      let total : length (base h ++ mac) ≡ 58 + length h.node_id + length h.peer_id + 32 = omega (
        arith,
        length-append (base h) mac,
        length-base h nonce_32 mac,
        ok_c.length-hmac secret (base h ++ bind_nonce),
      ) in
      rw
        (
          (header-whole h mac).0,
          (header-whole h mac).1,
          node_len-whole h nonce_32 mac,
          peer_len-whole h nonce_32 mac,
          rest-whole h nonce_32 mac,
          base-whole h nonce_32 mac,
          bytes_eq_self mac,
          fields-whole c h mac v nonce_32,
          total,
        )
        (ground (arith, bytes_eq_self handshake_magic))

  -- With an HMAC of 32 bytes, a handshake whose session identifier and timestamp fit 64 bits
  -- decodes, under the same nonce and secret, from the bytes that encodeHandshake returns.
  pub decode-encode_handshake :
      {bytes : Bytes}
      → IsWire h
      → encode_handshake c h bind_nonce secret ≡ ok bytes
      → decode_handshake c bytes bind_nonce secret ≡ ok h
  decode-encode_handshake v e =
      let (eb, nonce_32, sizes) = encode_handshake_lem e in rw eb (decode-whole v nonce_32 sizes)
