-- ===== src/Message.antt =====
-- internal/protocol/message.go: the application messages and their wire format.
pub mod RoundTrip
use unknowntunnel.Prelude.{
  ℕ, ◌+◌, ◌*◌, ◌^◌, ◌<◌, ◌≤◌, Bytes, List, [], ◌∷◌, ◌++◌, Bool, ◌||◌, ◌&&◌, not, ltb, leb, ◌==◌,
  if◌then◌else◌, length, slice, byte_at, bytes_eq, put_be, get_be, codes, Result, ok, err, ◌>>=◌,
  ◌>>◌, reject_if, arith,
}

abbrev pub type_ip_packet : ℕ
type_ip_packet = 1

abbrev pub type_open_tcp : ℕ
type_open_tcp = 2

abbrev pub type_tcp_status : ℕ
type_tcp_status = 3

abbrev pub type_tcp_data : ℕ
type_tcp_data = 4

abbrev pub type_tcp_close : ℕ
type_tcp_close = 5

abbrev pub type_udp_data : ℕ
type_udp_data = 6

abbrev pub type_ping : ℕ
type_ping = 7

abbrev pub type_pong : ℕ
type_pong = 8

abbrev pub message_magic : Bytes
message_magic = codes "UMSG"

abbrev pub message_version : ℕ
message_version = 1

abbrev pub max_name_len : ℕ
max_name_len = 255

abbrev pub max_error_len : ℕ
max_error_len = 1024

abbrev pub max_payload_len : ℕ
max_payload_len = 2 ^ 20

pub record Message : Type 0 where
  pub id : ℕ
  pub type : ℕ
  pub conn_id : ℕ
  pub seq : ℕ
  pub name : Bytes
  pub error : Bytes
  pub payload : Bytes

pub data Error : Type 0 where
  invalid_type name_too_long error_too_long payload_too_large : Error
  unexpected_eof invalid_magic unsupported_version field_exceeds_limit invalid_length : Error

-- The 40 header bytes.
header : Message → Bytes
header m =
    message_magic
    ++ (message_version ∷ m.type ∷ [])
    ++ put_be 2 0
    ++ put_be 8 m.id
    ++ put_be 8 m.conn_id
    ++ put_be 8 m.seq
    ++ put_be 2 (length m.name)
    ++ put_be 2 (length m.error)
    ++ put_be 4 (length m.payload)

-- The header, then the three fields that it measures.
layout : Message → Bytes
unfolding header
layout m = header m ++ (m.name ++ (m.error ++ m.payload))

unfoldable pub encode : Message → Result Error Bytes
unfolding layout
encode m = do
  reject_if (ltb m.type type_ip_packet || ltb type_pong m.type) invalid_type
  reject_if (ltb max_name_len (length m.name)) name_too_long
  reject_if (ltb max_error_len (length m.error)) error_too_long
  reject_if (ltb max_payload_len (length m.payload)) payload_too_large
  ok (layout m)

-- The fields at the offsets that the three lengths of the header give.
fields : Bytes → ℕ → ℕ → ℕ → Message
fields bytes name_len err_len payload_len = record {
  id = get_be (slice bytes 8 16);
  type = byte_at bytes 5;
  conn_id = get_be (slice bytes 16 24);
  seq = get_be (slice bytes 24 32);
  name = slice bytes 40 (40 + name_len);
  error = slice bytes (40 + name_len) (40 + name_len + err_len);
  payload = slice bytes (40 + name_len + err_len) (40 + name_len + err_len + payload_len);
}

pub decode : Bytes → Result Error Message
unfolding fields
decode bytes = do
  reject_if (ltb (length bytes) 40) unexpected_eof
  reject_if (not (bytes_eq (slice bytes 0 4) message_magic)) invalid_magic
  reject_if (not (byte_at bytes 4 == message_version)) unsupported_version
  let name_len = get_be (slice bytes 32 34)
  let err_len = get_be (slice bytes 34 36)
  let payload_len = get_be (slice bytes 36 40)
  reject_if
      (ltb max_name_len name_len || ltb max_error_len err_len || ltb max_payload_len payload_len)
      field_exceeds_limit
  reject_if (not (40 + name_len + err_len + payload_len == length bytes)) invalid_length
  ok (fields bytes name_len err_len payload_len)
