-- ===== src/UdpSession/Wire.antt =====
-- internal/transport/udp.go: what `Send` and `sendAck` put on the wire, `handlePacket` takes.
use unknowntunnel.Prelude.{
  ℕ, ◌+◌, ◌^◌, ◌≤◌, ◌<◌, ◌≡◌, ◌∙◌, ap, refl, Bool, ◌++◌, Bytes, length, none, some, take, slice,
  byte_at, get_be, put_be, get_be-put_be, bytes_eq_self, slice_last, take-append, length-append,
  length-take, arith,
}
use unknowntunnel.Keys.{Crypto, IsCrypto, nonce_for, overhead}
use unknowntunnel.UdpSession.{
  UdpSession, make_udp_header, udp_data_magic, udp_data_version, udp_packet_data, udp_packet_ack,
  udp_header_len, data_packet, ack_packet, send_ack, acknowledge, handle_ack, take_in, handle_data,
  handle_packet,
}

-- A header of kind `kind`, and a body of the length that it gives.
module _ (kind id seq size : ℕ) (body : Bytes) (sized : length body ≡ size) (id_fits : id < 2 ^ 64)
    (seq_fits : seq < 2 ^ 64) (size_fits : size < 2 ^ 16) where
  abbrev pub head : Bytes
  head = make_udp_header kind id seq size

  length-head : length head ≡ udp_header_len
  unfolding make_udp_header put_be
  length-head = refl

  length-packet : length (head ++ body) ≡ udp_header_len + size
  length-packet = omega (arith, sized, length-append head body, length-head)

  magic-packet : slice (head ++ body) 0 4 ≡ udp_data_magic
  unfolding make_udp_header put_be
  magic-packet = refl

  version-packet : byte_at (head ++ body) 4 ≡ udp_data_version
  unfolding make_udp_header put_be
  version-packet = refl

  kind-packet : byte_at (head ++ body) 5 ≡ kind
  unfolding make_udp_header put_be
  kind-packet = refl

  id-packet : get_be (slice (head ++ body) 8 16) ≡ id
  unfolding make_udp_header put_be
  id-packet = get_be-put_be 8 id id_fits

  seq-packet : get_be (slice (head ++ body) 16 24) ≡ seq
  unfolding make_udp_header put_be
  seq-packet = get_be-put_be 8 seq seq_fits

  size-packet : get_be (slice (head ++ body) 24 26) ≡ size
  unfolding make_udp_header put_be
  size-packet = get_be-put_be 2 size size_fits

  head-packet : slice (head ++ body) 0 udp_header_len ≡ head
  head-packet = take-append udp_header_len head body length-head

  body-packet : slice (head ++ body) udp_header_len (length (head ++ body)) ≡ body
  body-packet =
      slice_last head body udp_header_len (length (head ++ body)) length-head
        (omega (arith, sized, length-packet))

-- The checks before the kinds, passed.
module _ (c : Crypto) (can_write : Bool) (packet : Bytes) (s : UdpSession) (id seq size : ℕ)
    (long : udp_header_len ≤ length packet) (magic : slice packet 0 4 ≡ udp_data_magic)
    (version : byte_at packet 4 ≡ udp_data_version)
    (same_id : get_be (slice packet 8 16) ≡ s.session_id)
    (same_seq : get_be (slice packet 16 24) ≡ seq) (same_size : get_be (slice packet 24 26) ≡ size)
    (whole : length packet ≡ udp_header_len + size) where
  handle_packet_data :
      byte_at packet 5 ≡ udp_packet_data
      → handle_packet c can_write packet s ≡ handle_data c can_write packet seq size s
  unfolding handle_packet
  handle_packet_data kind = ground (arith, kind, magic, bytes_eq_self udp_data_magic)

  handle_packet_ack :
      byte_at packet 5 ≡ udp_packet_ack
      → handle_packet c can_write packet s ≡ (handle_ack c packet seq size s, none)
  unfolding handle_packet
  handle_packet_ack kind = ground (arith, kind, magic, bytes_eq_self udp_data_magic)

handle_data_opens :
    (c : Crypto) (can_write : Bool) (packet : Bytes) (seq size : ℕ) (plaintext : Bytes)
    (s : UdpSession)
    → overhead ≤ size
    → c.open_sealed s.recv_key
        (nonce_for seq)
        (slice packet udp_header_len (length packet))
        (slice packet 0 udp_header_len)
      ≡ some plaintext
    → handle_data c can_write packet seq size s
      ≡ take_in c seq plaintext (send_ack c can_write seq s)
unfolding handle_data
handle_data_opens c can_write packet seq size plaintext s long opens =
    rw (opens, handle_data) (ground (arith, long))

handle_ack_genuine :
    (c : Crypto) (packet : Bytes) (seq : ℕ) (s : UdpSession)
    → slice packet udp_header_len (length packet)
      ≡ take 16 (c.hmac s.recv_ack_key (slice packet 0 udp_header_len))
    → handle_ack c packet seq 16 s ≡ acknowledge c seq s
unfolding handle_ack
handle_ack_genuine c packet seq s genuine =
    rw (genuine, handle_ack)
      (rw (bytes_eq_self (take 16 (c.hmac s.recv_ack_key (slice packet 0 udp_header_len)))) refl)

module _ (c : Crypto) (ok_c : IsCrypto c) (can_write : Bool) (s : UdpSession) (seq : ℕ)
    (id_fits : s.session_id < 2 ^ 64) (seq_fits : seq < 2 ^ 64) where
  -- A datagram that is sealed under the key of the receiver opens there.
  pub handle_packet-data_packet :
      (payload : Bytes)
      → length payload + overhead < 2 ^ 16
      → handle_packet c can_write (data_packet c s.recv_key s.session_id seq payload) s
        ≡ take_in c seq payload (send_ack c can_write seq s)
  unfolding data_packet
  handle_packet-data_packet payload small =
      let size = length payload + overhead in
      let header = make_udp_header udp_packet_data s.session_id seq size in
      let sealed = c.seal s.recv_key (nonce_for seq) payload header in
      let sized : length sealed ≡ size =
        ok_c.length-seal s.recv_key (nonce_for seq) payload header in
      handle_packet_data c can_write (header ++ sealed) s s.session_id seq size
        (omega (
          arith,
          length-packet udp_packet_data s.session_id seq size sealed sized id_fits seq_fits small,
        ))
        (magic-packet udp_packet_data s.session_id seq size sealed sized id_fits seq_fits small)
        (version-packet udp_packet_data s.session_id seq size sealed sized id_fits seq_fits small)
        (id-packet udp_packet_data s.session_id seq size sealed sized id_fits seq_fits small)
        (seq-packet udp_packet_data s.session_id seq size sealed sized id_fits seq_fits small)
        (size-packet udp_packet_data s.session_id seq size sealed sized id_fits seq_fits small)
        (length-packet udp_packet_data s.session_id seq size sealed sized id_fits seq_fits small)
        (kind-packet udp_packet_data s.session_id seq size sealed sized id_fits seq_fits small)
      ∙ handle_data_opens c can_write (header ++ sealed) seq size payload s (omega arith) (
          rw
            (
              body-packet udp_packet_data s.session_id seq size sealed sized id_fits seq_fits small,
              head-packet udp_packet_data s.session_id seq size sealed sized id_fits seq_fits small,
            )
            (ok_c.open-seal s.recv_key (nonce_for seq) payload header))

  -- An acknowledgement under the key of its receiver is taken there.
  pub handle_packet-ack_packet :
      handle_packet c can_write (ack_packet c s.recv_ack_key s.session_id seq) s
      ≡ (acknowledge c seq s, none)
  unfolding ack_packet
  handle_packet-ack_packet =
      let header = make_udp_header udp_packet_ack s.session_id seq 16 in
      let mac = take 16 (c.hmac s.recv_ack_key header) in
      let sized : length mac ≡ 16 = omega (
        arith,
        length-take 16 (c.hmac s.recv_ack_key header),
        ok_c.length-hmac s.recv_ack_key header,
      ) in
      let small : 16 < 2 ^ 16 = omega arith in
      handle_packet_ack c can_write (header ++ mac) s s.session_id seq 16
        (omega (
          arith,
          length-packet udp_packet_ack s.session_id seq 16 mac sized id_fits seq_fits small,
        ))
        (magic-packet udp_packet_ack s.session_id seq 16 mac sized id_fits seq_fits small)
        (version-packet udp_packet_ack s.session_id seq 16 mac sized id_fits seq_fits small)
        (id-packet udp_packet_ack s.session_id seq 16 mac sized id_fits seq_fits small)
        (seq-packet udp_packet_ack s.session_id seq 16 mac sized id_fits seq_fits small)
        (size-packet udp_packet_ack s.session_id seq 16 mac sized id_fits seq_fits small)
        (length-packet udp_packet_ack s.session_id seq 16 mac sized id_fits seq_fits small)
        (kind-packet udp_packet_ack s.session_id seq 16 mac sized id_fits seq_fits small)
      ∙ ap (λ x. (x, none))
          (handle_ack_genuine c (header ++ mac) seq s (
            rw
              (
                body-packet udp_packet_ack s.session_id seq 16 mac sized id_fits seq_fits small,
                head-packet udp_packet_ack s.session_id seq 16 mac sized id_fits seq_fits small,
              )
              refl))
