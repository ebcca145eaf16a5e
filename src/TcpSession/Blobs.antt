-- ===== src/TcpSession/Blobs.antt =====
-- internal/transport/tcp.go, `writeBlob` and `readBlob`: the two messages of a handshake.
use unknowntunnel.Prelude.{
  ℕ, ◌+◌, ◌*◌, ◌/◌, ◌%◌, ◌≤◌, ◌≡◌, ◌∙◌, ap, refl, [], ◌∷◌, ◌++◌, Bytes, Option, none, some, length,
  ok, append_assoc, length-append, arith,
}
use unknowntunnel.Keys.{Crypto, IsCrypto}
use unknowntunnel.Handshake.{Handshake, base, encode_handshake}
use unknowntunnel.Handshake.RoundTrip.{length-base, encode_handshake_lem}
use unknowntunnel.Writer.{Conn, IsWriter, WriteError, write_all, written-write_all}
use unknowntunnel.TcpSession.{then_write, raise, write_blob, read_blob, read_full}
use unknowntunnel.TcpSession.Frames.{read_full_exact}

abbrev pub blob : Bytes → Bytes
blob bytes = (length bytes / 256 ∷ length bytes % 256 ∷ []) ++ bytes

module _ {C E : Type 0} (c : Crypto) (conn : Conn C E) where
  raise-eq-none :
      (r : C × Option (WriteError E)) (w' : C) → raise c conn r ≡ (w', none) → r ≡ (w', none)
  unfolding raise
  raise-eq-none (w, none) w' h = λ i. ((h i).0, none)
  raise-eq-none (w, some e) w' h = absurd (cc h)

  then_write-eq-none :
      (bytes : Bytes) (r : C × Option (WriteError E)) (w' : C)
      → then_write c conn bytes r ≡ (w', none)
      → (r.1 ≡ none) × (write_all conn bytes r.0 ≡ (w', none))
  unfolding then_write
  then_write-eq-none bytes (w, none) w' h = (refl, h)
  then_write-eq-none bytes (w, some e) w' h = absurd (cc h)

  written-write_blob :
      (ok_w : IsWriter conn) (bytes : Bytes) (w w' : C)
      → write_blob c conn bytes w ≡ (w', none)
      → (length bytes ≤ 65535) × (conn.written w' ≡ conn.written w ++ blob bytes)
  unfolding write_blob
  written-write_blob ok_w bytes w w' h =
      let header = length bytes / 256 ∷ length bytes % 256 ∷ [] in
      let first = write_all conn header w in
      let small : length bytes ≤ 65535 = ground arith in
      let both : raise c conn (then_write c conn bytes first) ≡ (w', none) =
        ground (arith, small) in
      let (ok1, second) =
        then_write-eq-none bytes first w' (raise-eq-none (then_write c conn bytes first) w' both) in
      (
        small,
        written-write_all conn ok_w bytes first.0 w' second
            ∙ ap (λ x. x ++ bytes)
                (written-write_all conn ok_w header w first.0 (λ i. (first.0, ok1 i)))
            ∙ append_assoc (conn.written w) header bytes,
      )

read_blob-blob :
    {E : Type 0} (limit : ℕ) (bytes rest : Bytes)
    → 1 ≤ length bytes
    → length bytes ≤ limit
    → length bytes ≤ 65535
    → read_blob {E = E} limit (blob bytes ++ rest) ≡ (some (bytes, rest), none)
unfolding read_blob
read_blob-blob limit bytes rest low high small =
    let header = length bytes / 256 ∷ length bytes % 256 ∷ [] in
    let first : read_full 2 (blob bytes ++ rest) ≡ some (header, bytes ++ rest) =
      read_full_exact header (bytes ++ rest) 2 refl in
    let size : length bytes / 256 * 256 + length bytes % 256 ≡ length bytes = omega arith in
    let second : read_full (length bytes / 256 * 256 + length bytes % 256) (bytes ++ rest)
        ≡ some (bytes, rest) =
      ap (λ n. read_full n (bytes ++ rest)) size ∙ read_full_exact bytes rest (length bytes) refl in
    rw (first, read_blob) (rw (second) (ground (arith, low, high, size)))

-- A handshake that was encoded, and written by writeBlob without an error to an empty
-- connection that keeps the contract of io.Writer, is read back by readBlob with the limit of
-- 512 bytes, and what follows it is left.
pub read_blob-write_handshake :
    {C E : Type 0} (c : Crypto) (ok_c : IsCrypto c) (conn : Conn C E) (ok_w : IsWriter conn)
    (h : Handshake) (bind_nonce secret bytes rest : Bytes) (w w' : C)
    → conn.written w ≡ []
    → encode_handshake c h bind_nonce secret ≡ ok bytes
    → write_blob c conn bytes w ≡ (w', none)
    → read_blob {E = E} 512 (conn.written w' ++ rest) ≡ (some (bytes, rest), none)
read_blob-write_handshake {C} {E} c ok_c conn ok_w h bind_nonce secret bytes rest w w' fresh encoded
      wrote =
    let (small, written) = written-write_blob c conn ok_w bytes w w' wrote in
    let (same, nonce_32, (a, b, d, e)) = encode_handshake_lem c ok_c h bind_nonce secret encoded in
    let mac = c.hmac secret (base h ++ bind_nonce) in
    let size : length bytes ≡ 58 + length h.node_id + length h.peer_id + 32 = omega (
      arith,
      ap length same,
      length-append (base h) mac,
      length-base h nonce_32 [],
      ok_c.length-hmac secret (base h ++ bind_nonce),
    ) in
    ap (λ x. read_blob 512 (x ++ rest)) (written ∙ ap (λ x. x ++ blob bytes) fresh)
    ∙ read_blob-blob 512 bytes rest (omega (arith, size)) (omega (arith, size, b, e)) small
