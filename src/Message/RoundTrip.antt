-- ===== src/Message/RoundTrip.antt =====
-- internal/protocol/message.go: encoding and decoding undo one another.
use unknowntunnel.Prelude.{
  ◌+◌, ◌^◌, ◌<◌, ◌≤◌, ◌≡◌, refl, ◌-◌, append_assoc, byte_at, Bytes, ◌++◌, length, slice, put_be,
  get_be, get_be-put_be, take-append, length-append, ok, arith, slice-middle, slice_last,
  bytes_eq_self,
}
use unknowntunnel.Message.{
  message_magic, message_version, max_name_len, max_error_len, max_payload_len, Message, encode,
  decode, layout, header, fields,
}

-- The three numbers fit an unsigned 64-bit integer.
pub record IsU64Message (m : Message) : Type 0 where
  pub id_fits : m.id < 2 ^ 64
  pub conn_id_fits : m.conn_id < 2 ^ 64
  pub seq_fits : m.seq < 2 ^ 64

length-header-append : (m : Message) (xs : Bytes) → length (header m ++ xs) ≡ 40 + length xs
unfolding header put_be
length-header-append m xs = omega arith

length-layout :
    (m : Message) → length (layout m) ≡ 40 + length m.name + length m.error + length m.payload
unfolding layout
length-layout m = omega (
  arith,
  length-header-append m (m.name ++ (m.error ++ m.payload)),
  length-append m.name (m.error ++ m.payload),
  length-append m.error m.payload,
)

error-layout :
    (m : Message)
    → slice (layout m) (40 + length m.name) (40 + length m.name + length m.error) ≡ m.error
unfolding layout put_be
error-layout m =
    slice-middle (header m ++ m.name) m.error m.payload _ _ (length-header-append m m.name) refl

payload-layout :
    (m : Message)
    → slice
        (layout m)
        (40 + length m.name + length m.error)
        (40 + length m.name + length m.error + length m.payload)
      ≡ m.payload
unfolding layout put_be
payload-layout m = rw (← append_assoc m.name m.error m.payload) (
    slice_last (header m ++ (m.name ++ m.error)) m.payload _ _
      (omega (arith, length-header-append m (m.name ++ m.error), length-append m.name m.error))
      refl)

fields-layout :
    (m : Message)
    → IsU64Message m
    → fields (layout m) (length m.name) (length m.error) (length m.payload) ≡ m
unfolding layout put_be fields
fields-layout m v = λ i. record {
  id = get_be-put_be 8 m.id v.id_fits i;
  type = m.type;
  conn_id = get_be-put_be 8 m.conn_id v.conn_id_fits i;
  seq = get_be-put_be 8 m.seq v.seq_fits i;
  name = take-append (40 + length m.name - 40) m.name (m.error ++ m.payload) (omega arith) i;
  error = error-layout m i;
  payload = payload-layout m i;
}

name_len-layout :
    (m : Message) → length m.name ≤ max_name_len → get_be (slice (layout m) 32 34) ≡ length m.name
unfolding layout put_be
name_len-layout m h = get_be-put_be 2 (length m.name) (omega arith)

error_len-layout :
    (m : Message)
    → length m.error ≤ max_error_len
    → get_be (slice (layout m) 34 36) ≡ length m.error
unfolding layout put_be
error_len-layout m h = get_be-put_be 2 (length m.error) (omega arith)

payload_len-layout :
    (m : Message)
    → length m.payload ≤ max_payload_len
    → get_be (slice (layout m) 36 40) ≡ length m.payload
unfolding layout put_be
payload_len-layout m h = get_be-put_be 4 (length m.payload) (omega arith)

magic-layout : (m : Message) → slice (layout m) 0 4 ≡ message_magic
unfolding layout
magic-layout m = refl

version-layout : (m : Message) → byte_at (layout m) 4 ≡ message_version
unfolding layout
version-layout m = refl

decode-layout :
    (m : Message)
    → IsU64Message m
    → length m.name ≤ max_name_len
    → length m.error ≤ max_error_len
    → length m.payload ≤ max_payload_len
    → decode (layout m) ≡ ok m
unfolding decode
decode-layout m v hn he hp =
    rw
      (
        magic-layout m,
        version-layout m,
        name_len-layout m hn,
        error_len-layout m he,
        payload_len-layout m hp,
        length-layout m,
        bytes_eq_self message_magic,
        fields-layout m v,
      )
      (ground arith)

-- A message that `encode` accepts is within the limits, and is laid out.
encode-layout :
    (m : Message) {b : Bytes}
    → encode m ≡ ok b
    → (b ≡ layout m)
      × (length m.name ≤ max_name_len)
      × (length m.error ≤ max_error_len)
      × (length m.payload ≤ max_payload_len)
unfolding encode
encode-layout m h = ground arith

-- For a message whose numbers fit 64 bits, the bytes that encode returns decode to the same
-- message.
pub decode-encode : (m : Message) {b : Bytes} → IsU64Message m → encode m ≡ ok b → decode b ≡ ok m
decode-encode m v h = let (e, hn, he, hp) = encode-layout m h in rw e (decode-layout m v hn he hp)
