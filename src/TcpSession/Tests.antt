-- ===== src/TcpSession/Tests.antt =====
-- internal/transport/tcp.go: one payload, some stray bytes, and a handshake.
use unknowntunnel.Prelude.{
  ℕ, ◌+◌, ◌-◌, ◌≡◌, refl, sym, subst, ◌∙◌, Bool, true, ◌&&◌, List, [], ◌∷◌, ◌++◌, Bytes, bytes_eq,
  bytes_eq_iff, replicate, take, length, length-append, length-replicate, Option, none, some,
  if◌then◌else◌, arith, numbered, put_be, ok,
}
use unknowntunnel.Keys.{Crypto, IsCrypto, new_aead}
use unknowntunnel.Writer.{write_all, write_loop}
use unknowntunnel.Tests.{
  toy, take-toy, toy-IsCrypto, wire, wire-IsWriter, hello_of_a, hello_bytes, secret, hello_encodes,
}
use unknowntunnel.TcpSession.{
  TcpSession, Error, read_failed, keyed_session, new_tcp_session, frame_header, wrote, and_write,
  send, read_loop, write_blob, read_blob, then_write, raise,
}
use unknowntunnel.TcpSession.Frames.{send_all, read_loop-send_all}
use unknowntunnel.TcpSession.Reading.{IsAuthentic, read_loop_ends, read_loop_front}
use unknowntunnel.TcpSession.Blobs.{read_blob-write_handshake}

abbrev key_a : Bytes
key_a = replicate 32 1

abbrev key_b : Bytes
key_b = replicate 32 2

abbrev one_payload : List Bytes
one_payload = (7 ∷ []) ∷ []

abbrev sent_state : TcpSession Bytes
sent_state = (send_all toy wire one_payload (keyed_session [] [] key_a key_b)).0

makes_a : new_tcp_session {C = Bytes} [] [] key_a key_b ≡ ok (keyed_session [] [] key_a key_b)
unfolding new_tcp_session new_aead keyed_session
makes_a = refl

makes_b :
    new_tcp_session {C = Bytes} [] sent_state.conn key_b key_a
    ≡ ok (keyed_session [] sent_state.conn key_b key_a)
unfolding new_tcp_session new_aead keyed_session
makes_b = refl

sends_one : send_all toy wire one_payload (keyed_session [] [] key_a key_b) ≡ (sent_state, none)
unfolding send_all send keyed_session and_write wrote frame_header write_all write_loop put_be
sends_one = refl

read_loop-send_all_example :
    ((read_loop toy wire 2 (keyed_session [] sent_state.conn key_b key_a)).1 ≡ some read_failed)
    × ((read_loop toy wire 2 (keyed_session [] sent_state.conn key_b key_a)).0.received
        ≡ one_payload)
read_loop-send_all_example =
    read_loop-send_all toy wire toy-IsCrypto wire-IsWriter one_payload [] key_a key_b []
      (keyed_session [] [] key_a key_b) (keyed_session [] sent_state.conn key_b key_a) sent_state 2
      makes_a makes_b refl (omega arith) (omega arith) sends_one

abbrev stray : TcpSession Bytes
stray = keyed_session [] (1 ∷ 2 ∷ 3 ∷ []) key_a key_b

read_loop_ends_example : (e : Error ℕ) × ((read_loop toy wire 4 stray).1 ≡ some e)
unfolding keyed_session
read_loop_ends_example = read_loop_ends toy wire 4 stray (omega arith)

-- A cipher whose tag depends on the length of the text, and one frame of it.
abbrev tag : ℕ → Bytes
tag n = replicate 16 (n + 9)

abbrev checked : Bytes → Bytes → Option Bytes
checked text ciphertext =
    if bytes_eq ciphertext (text ++ tag (length text)) then some text else none

abbrev tagged : Crypto
tagged = record toy {
  seal = λ key nonce text aad. text ++ tag (length text);
  open_sealed = λ key nonce text aad. checked (take (length text - 16) text) text;
}

opens_tagged : (text : Bytes) → checked text (text ++ tag (length text)) ≡ some text
opens_tagged text =
    let same : bytes_eq (text ++ tag (length text)) (text ++ tag (length text)) ≡ true =
      (bytes_eq_iff (text ++ tag (length text)) (text ++ tag (length text))).1 refl in
    rw same refl

tagged-IsCrypto : IsCrypto tagged
tagged-IsCrypto = record {
  length-hmac = toy-IsCrypto.length-hmac;
  length-seal = λ key nonce text aad. omega (
    arith,
    length-append text (tag (length text)),
    length-replicate {A = ℕ} 16 (length text + 9),
  );
  open-seal = λ key nonce text aad.
      subst (λ x. checked x (text ++ tag (length text)) ≡ some text)
        (sym (
          take-toy text (tag (length text)) (length (text ++ tag (length text)) - 16) (
            omega (
              arith,
              length-append text (tag (length text)),
              length-replicate {A = ℕ} 16 (length text + 9),
            ))))
        (opens_tagged text);
}

abbrev sevens : ℕ → Bytes
sevens seq = 7 ∷ []

abbrev one_frame : Bytes
one_frame = frame_header 1 17 ++ tagged.seal [] [] (7 ∷ []) []

-- A test that holds for each prefix, and for each piece, of some bytes.
for_prefixes : (Bytes → Bool) → Bytes → Bool
for_prefixes test [] = test []
for_prefixes test (b ∷ bs) = test [] && for_prefixes (λ p. test (b ∷ p)) bs

for_pieces : (Bytes → Bool) → Bytes → Bool
for_pieces test [] = for_prefixes test []
for_pieces test (b ∷ bs) = for_prefixes test (b ∷ bs) && for_pieces test bs

prefix_passes :
    (test : Bytes → Bool) (p behind : Bytes)
    → for_prefixes test (p ++ behind) ≡ true
    → test p ≡ true
unfolding for_prefixes
prefix_passes test [] [] h = h
prefix_passes test [] (b ∷ bs) h = ground (arith, h)
prefix_passes test (b ∷ p) behind h = prefix_passes (λ q. test (b ∷ q)) p behind (ground (arith, h))

pieces-prefixes :
    (test : Bytes → Bool) (bs : Bytes) → for_pieces test bs ≡ true → for_prefixes test bs ≡ true
unfolding for_pieces
pieces-prefixes test [] h = h
pieces-prefixes test (b ∷ bs) h = ground (arith, h)

piece_passes :
    (test : Bytes → Bool) (front p behind : Bytes)
    → for_pieces test (front ++ (p ++ behind)) ≡ true
    → test p ≡ true
unfolding for_pieces
piece_passes test [] p behind h = prefix_passes test p behind (pieces-prefixes test (p ++ behind) h)
piece_passes test (b ∷ front) p behind h = piece_passes test front p behind (ground (arith, h))

opens_to_seven : Bytes → Bool
opens_to_seven ciphertext = elim (tagged.open_sealed [] [] ciphertext []) [
  | none ↦ true
  | some text ↦ bytes_eq text (7 ∷ [])
]

no_forgery : for_pieces opens_to_seven one_frame ≡ true
unfolding for_pieces for_prefixes opens_to_seven frame_header put_be bytes_eq
no_forgery = refl

IsAuthentic-one_frame : IsAuthentic tagged wire key_b sevens one_frame
unfolding opens_to_seven
IsAuthentic-one_frame seq front ciphertext behind plaintext piece h =
    let passes : opens_to_seven ciphertext ≡ true =
      piece_passes opens_to_seven front ciphertext behind
        (subst (λ x. for_pieces opens_to_seven x ≡ true) piece no_forgery) in
    let same : opens_to_seven ciphertext ≡ bytes_eq plaintext (7 ∷ []) =
      rw (h, opens_to_seven) refl in
    (bytes_eq_iff plaintext (7 ∷ [])).0 (sym same ∙ passes)

abbrev framed : TcpSession Bytes
framed = keyed_session [] one_frame key_a key_b

makes_framed : new_tcp_session {C = Bytes} [] one_frame key_a key_b ≡ ok framed
unfolding new_tcp_session new_aead keyed_session
makes_framed = refl

read_loop_front_example :
    ((e : Error ℕ) × ((read_loop tagged wire 30 framed).1 ≡ some e))
    × ((m : ℕ) × ((read_loop tagged wire 30 framed).0.received ≡ numbered sevens m))
unfolding frame_header put_be
read_loop_front_example =
    read_loop_front tagged wire sevens [] one_frame key_a key_b framed makes_framed
      IsAuthentic-one_frame (omega arith)

abbrev hello_on_wire : Bytes
hello_on_wire = (write_blob toy wire hello_bytes []).0

writes_hello : write_blob toy wire hello_bytes [] ≡ (hello_on_wire, none)
unfolding write_blob then_write raise write_all write_loop put_be unknowntunnel.Handshake.base
    unknowntunnel.Handshake.front
writes_hello = refl

read_blob-write_handshake_example :
    read_blob {E = ℕ} 512 (hello_on_wire ++ (5 ∷ [])) ≡ (some (hello_bytes, 5 ∷ []), none)
read_blob-write_handshake_example =
    read_blob-write_handshake toy toy-IsCrypto wire wire-IsWriter hello_of_a [] secret hello_bytes
      (5 ∷ []) [] hello_on_wire refl hello_encodes writes_hello
