-- ===== src/TcpSession.antt =====
-- internal/transport/tcp.go: the record layer of a TCP session, and the blobs of its handshake. The
-- connection to write to is a parameter; what it still has to read is a list of bytes, whose end
-- is the end of the stream.
pub mod Blobs
pub mod Tests
pub mod Frames
pub mod Reading
use unknowntunnel.Prelude.{
  ℕ, zero, suc, ◌+◌, ◌-◌, ◌*◌, ◌/◌, ◌%◌, ◌^◌, Bool, true, false, not, ◌||◌, List, [], ◌∷◌, ◌++◌,
  Bytes, Option, none, some, ltb, leb, ◌==◌, if◌then◌else◌, length, take, drop, slice, byte_at,
  put_be, get_be, inc_u64, Result, ok, ◌>>=◌, >>=-eq-ok, same_result, refl, ◌≡◌, sym, ◌∙◌, ap₂,
}
use unknowntunnel.Keys.{Crypto, KeyError, new_aead, new_aead-eq-ok, nonce_for, overhead}
use unknowntunnel.Reorder.{Outcome, and_then}
use unknowntunnel.Writer.{Conn, WriteError, write_all}

abbrev pub max_tcp_frame : ℕ
max_tcp_frame = 2 * 2 ^ 20

pub data Error (E : Type 0) : Type 0 where
  frame_too_large deadline_failed : Error E
  write_error : WriteError E → Error E
  read_failed invalid_frame_length unexpected_sequence authentication_failed : Error E
  blob_too_large invalid_blob_length : Error E

-- `received` is what was put into `recvCh`, oldest first.
pub record TcpSession (C : Type 0) : Type 0 where
  pub conn : C
  pub input : Bytes
  pub send_key : Bytes
  pub recv_key : Bytes
  pub send_seq : ℕ
  pub recv_seq : ℕ
  pub received : List Bytes
  pub closed : Bool

pub keyed_session : {C : Type 0} → C → Bytes → Bytes → Bytes → TcpSession C
keyed_session conn input send_key recv_key = record {
  conn = conn;
  input = input;
  send_key = send_key;
  recv_key = recv_key;
  send_seq = 0;
  recv_seq = 1;
  received = [];
  closed = false;
}

-- `newTCPSession`.
pub new_tcp_session : {C : Type 0} → C → Bytes → Bytes → Bytes → Result KeyError (TcpSession C)
unfolding keyed_session
new_tcp_session conn input send_key recv_key = do
  send_aead ← new_aead send_key
  recv_aead ← new_aead recv_key
  ok (keyed_session conn input send_aead recv_aead)

-- A session that was made has the keys that were given.
pub new_tcp_session-eq-ok :
    {C : Type 0} (conn : C) (input send_key recv_key : Bytes) (s : TcpSession C)
    → new_tcp_session conn input send_key recv_key ≡ ok s
    → s ≡ keyed_session conn input send_key recv_key
unfolding new_tcp_session
new_tcp_session-eq-ok conn input send_key recv_key s h =
    let (a, e, h1) = >>=-eq-ok (new_aead send_key) _ h in
    let (b, f, h2) = >>=-eq-ok (new_aead recv_key) _ h1 in
    sym (same_result (ok (keyed_session conn input a b)) refl h2)
    ∙ ap₂ (keyed_session conn input) (new_aead-eq-ok send_key a e) (new_aead-eq-ok recv_key b f)

pub finish : {C : Type 0} → TcpSession C → TcpSession C
finish s = record s { closed = true }

-- `io.ReadFull`: so many bytes and those behind them, or none if the stream ends before.
pub read_full : ℕ → Bytes → Option (Bytes × Bytes)
read_full n input = if leb n (length input) then some (take n input, drop n input) else none

-- The header of a frame of `size` bytes of ciphertext.
pub frame_header : ℕ → ℕ → Bytes
frame_header seq size = put_be 4 (8 + size) ++ put_be 8 seq

module _ {C E : Type 0} (c : Crypto) (conn : Conn C E) where
  -- One call of `writeAll`; where it fails the session is finished.
  pub wrote : TcpSession C → C × Option (WriteError E) → Outcome (Error E) (TcpSession C)
  wrote s (w, none) = (record s { conn = w }, none)
  wrote s (w, some e) = (finish (record s { conn = w }), some (write_error e))

  pub and_write : Bytes → Outcome (Error E) (TcpSession C) → Outcome (Error E) (TcpSession C)
  unfolding wrote
  and_write bytes (s, none) = wrote s (write_all conn bytes s.conn)
  and_write bytes (s, some e) = (s, some e)

  -- `Send`; whether the write deadline can be set is an argument.
  pub send : Bool → Bytes → TcpSession C → Outcome (Error E) (TcpSession C)
  unfolding and_write
  send deadline payload s =
      if ltb max_tcp_frame (length payload)
      then (s, some frame_too_large)
      else if not deadline
      then (finish s, some deadline_failed)
      else let seq = inc_u64 s.send_seq in
        let ciphertext = c.seal s.send_key (nonce_for seq) payload (put_be 8 seq) in
        and_write ciphertext
          (and_write (frame_header seq (length ciphertext)) (record s { send_seq = seq }, none))

  pub open_frame : ℕ → Bytes × Bytes → TcpSession C → Outcome (Error E) (TcpSession C)
  open_frame seq (ciphertext, rest) s =
      elim (c.open_sealed s.recv_key (nonce_for seq) ciphertext (put_be 8 seq)) [
        | none ↦ (finish (record s { input = rest }), some authentication_failed)
        | some plaintext ↦ (
          record s {
            input = rest;
            recv_seq = inc_u64 s.recv_seq;
            received = s.received ++ (plaintext ∷ []);
          },
          none,
        )
      ]

  pub read_body : ℕ → ℕ → TcpSession C → Outcome (Error E) (TcpSession C)
  unfolding open_frame
  read_body frame_len seq s =
      if ltb frame_len (8 + overhead) || ltb (max_tcp_frame + overhead + 8) frame_len
      then (finish s, some invalid_frame_length)
      else if not (seq == s.recv_seq)
      then (finish s, some unexpected_sequence)
      else elim (read_full (frame_len - 8) s.input) [
        | none ↦ (finish (record s { input = [] }), some read_failed)
        | some (ciphertext, rest) ↦ open_frame seq (ciphertext, rest) s
      ]

  -- One round of `readLoop`.
  pub read_frame : TcpSession C → Outcome (Error E) (TcpSession C)
  unfolding read_body
  read_frame s = elim (read_full 12 s.input) [
    | none ↦ (finish (record s { input = [] }), some read_failed)
    | some (header, rest) ↦
        read_body (get_be (slice header 0 4)) (get_be (slice header 4 12))
          (record s { input = rest })
  ]

  -- `readLoop`, for at most so many rounds: it ends with an error, or the rounds are used up.
  pub read_loop : ℕ → TcpSession C → Outcome (Error E) (TcpSession C)
  read_loop zero s = (s, none)
  read_loop (suc fuel) s = and_then (read_frame s) (read_loop fuel)

  -- `writeBlob`, to a connection.
  pub then_write : Bytes → C × Option (WriteError E) → C × Option (WriteError E)
  then_write bytes (w, none) = write_all conn bytes w
  then_write bytes (w, some e) = (w, some e)

  pub raise : C × Option (WriteError E) → Outcome (Error E) C
  raise (w, none) = (w, none)
  raise (w, some e) = (w, some (write_error e))

  pub write_blob : Bytes → C → Outcome (Error E) C
  unfolding then_write raise
  write_blob bytes w =
      if ltb 65535 (length bytes)
      then (w, some blob_too_large)
      else raise
          (then_write bytes (write_all conn (length bytes / 256 ∷ length bytes % 256 ∷ []) w))

-- `readBlob`: the blob and the bytes behind it, or the error.
pub read_blob : {E : Type 0} → ℕ → Bytes → Option (Bytes × Bytes) × Option (Error E)
read_blob limit input = elim (read_full 2 input) [
  | none ↦ (none, some read_failed)
  | some (header, rest) ↦
      let n = byte_at header 0 * 256 + byte_at header 1 in
      if leb n 0 || ltb limit n
      then (none, some invalid_blob_length)
      else elim (read_full n rest) [ none ↦ (none, some read_failed) | some r ↦ (some r, none) ]
]
