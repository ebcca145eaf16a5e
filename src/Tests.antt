-- ===== src/Tests.antt =====
-- The theorems at concrete inputs, with parameters that satisfy the documented behaviour.
use unknowntunnel.Prelude.{
  ℕ, zero, suc, ◌≡◌, refl, ap, sym, take_all, ◌≢◌, inl, inr, true, false, List, [], ◌∷◌, ◌++◌,
  Bytes, codes, put_be, length, replicate, take, ◌%◌, ◌-◌, none, some, ok, ℤ, pos, arith,
  length-replicate, length-append, lookup, insert, remove, slice, ◌+◌, ◌<◌, ◌≤◌, ◌⊎◌, ◌↔◌, drop,
  byte_at,
}
use unknowntunnel.Handshake.{
  Handshake, base, encode_handshake, decode_handshake, client_hello, server_welcome, client_keys,
  skewed,
}
use unknowntunnel.Handshake.RoundTrip.{decode-encode_handshake, decode_handshake_authentic}
use unknowntunnel.Handshake.Exchange.{exchange_agrees, server_welcome_only}
use unknowntunnel.Fragment.{max_udp_datagram, fragments, handle_udp_chunk}
use unknowntunnel.Fragment.Marks.{Arrived}
use unknowntunnel.Fragment.Reassembly.{Delivers, handle-send-Delivers}
use unknowntunnel.Fragment.Bounds.{IsBounded, no_assemblies, handle_udp_chunk-IsBounded}
use unknowntunnel.Keys.{Crypto, IsCrypto, KeySet, derive_keys, new_aead, hkdf_expand}
use unknowntunnel.Keys.Sizes.{length-hkdf_expand, new_aead-derive_keys, nonce_for-injective}
use unknowntunnel.Message.{Message, encode, decode}
use unknowntunnel.Message.RoundTrip.{decode-encode}
use unknowntunnel.Reorder.{Order, accept, drain, deliver, hold, accept_all, and_then}
use unknowntunnel.Reorder.Progress.{Occurs}
use unknowntunnel.Writer.{Conn, IsWriter, write_all, write_loop, written-write_all}
use unknowntunnel.Flow.{write_conn_all, write_ordered, write_each, new_flow}
use unknowntunnel.Flow.Stream.{stream, Sent, write_each-stream, write_each_complete}
use unknowntunnel.Dedupe.{Dedupe, is_duplicate, is_duplicate_all, contains, new_dedupe}
use unknowntunnel.Dedupe.Recent.{IsWindow, view, new_dedupe-IsWindow}
use unknowntunnel.Dedupe.Replay.{is_duplicate-view, length-seen_bounded, is_duplicate_again}
use unknowntunnel.PacketFilter.{packet_allowed, ipv6_upper_layer_protocol}
use unknowntunnel.PacketFilter.Chain.{LeadsTo, ipv6_upper_layer_protocol_iff}
use unknowntunnel.PacketFilter.Allowed.{Carries, Permits, packet_allowed_iff}

abbrev pub ping : Message
ping = record { id = 7; type = 7; conn_id = 0; seq = 12; name = []; error = []; payload = [] }

abbrev pub ping_bytes : Bytes
ping_bytes =
    codes "UMSG"
    ++ (1 ∷ 7 ∷ 0 ∷ 0 ∷ [])
    ++ put_be 8 7
    ++ put_be 8 0
    ++ put_be 8 12
    ++ (0 ∷ 0 ∷ 0 ∷ 0 ∷ 0 ∷ 0 ∷ 0 ∷ 0 ∷ [])

pub ping_decodes : decode ping_bytes ≡ ok ping
unfolding encode put_be
ping_decodes =
    decode-encode ping {b = ping_bytes}
      (record { id_fits = omega arith; conn_id_fits = omega arith; seq_fits = omega arith }) refl

decode-encode_example : decode ping_bytes ≡ ok ping
unfolding encode put_be
decode-encode_example =
    decode-encode ping {b = ping_bytes}
      (record { id_fits = omega arith; conn_id_fits = omega arith; seq_fits = omega arith }) refl

-- A connection that takes every byte.
abbrev pub wire : Conn Bytes ℕ
wire = record { write = λ bytes c. (c ++ bytes, length bytes, none); written = λ c. c }

pub wire-IsWriter : IsWriter wire
wire-IsWriter = record {
  takes_front = λ bytes c. ap (λ x. c ++ x) (sym (take_all (length bytes) bytes (omega arith)));
  takes_at_most = λ bytes c. omega arith;
}

abbrev payloads : ℕ → Bytes
payloads n = n ∷ []

abbrev out_of_order : List (ℕ × Bytes)
out_of_order = (2, 2 ∷ []) ∷ (1, 1 ∷ []) ∷ []

abbrev both_written : Order Bytes
both_written = record { expected = 3; reorder = []; out = 1 ∷ 2 ∷ [] }

write_both : write_each wire out_of_order (new_flow wire []) ≡ (both_written, none)
unfolding write_each new_flow accept_all accept drain deliver hold and_then write_ordered
    write_conn_all write_all write_loop lookup insert remove
write_both = refl

both_came : (k : ℕ) → 1 ≤ k → k ≤ 2 → Occurs k out_of_order
both_came zero low high = absurd (omega arith)
both_came (suc zero) low high = inr (inl refl)
both_came (suc (suc zero)) low high = inl refl
both_came (suc (suc (suc k))) low high = absurd (omega arith)

write_each-stream_example : Sent wire wire-IsWriter payloads [] 3 (1 ∷ 2 ∷ [])
write_each-stream_example =
    write_each-stream wire wire-IsWriter payloads [] out_of_order both_written
      ((refl, omega arith), ((refl, omega arith), tt)) write_both

write_each_complete_example : wire.written (1 ∷ 2 ∷ []) ≡ wire.written [] ++ stream payloads 2
write_each_complete_example =
    write_each_complete wire wire-IsWriter payloads [] 2 out_of_order both_written (omega arith)
      ((refl, omega arith), ((refl, omega arith), tt)) both_came write_both

written-write_all_example : wire.written (1 ∷ 2 ∷ []) ≡ wire.written [] ++ (1 ∷ 2 ∷ [])
unfolding write_all write_loop
written-write_all_example = written-write_all wire wire-IsWriter (1 ∷ 2 ∷ []) [] (1 ∷ 2 ∷ []) refl

abbrev memory : Dedupe
memory = new_dedupe 2

memory-IsWindow : IsWindow memory
memory-IsWindow = new_dedupe-IsWindow 2 (omega arith)

is_duplicate_again_example :
    (is_duplicate 5 (is_duplicate_all (6 ∷ []) (is_duplicate 5 memory).1)).0 ≡ true
unfolding is_duplicate contains new_dedupe
is_duplicate_again_example = is_duplicate_again 5 (6 ∷ []) memory memory-IsWindow refl (omega arith)

length-seen_bounded_example : length (is_duplicate_all (5 ∷ 6 ∷ 7 ∷ []) (new_dedupe 2)).seen ≤ 2
length-seen_bounded_example = length-seen_bounded 2 (5 ∷ 6 ∷ 7 ∷ []) (omega arith)

abbrev two_fragments : Bytes
two_fragments = replicate 1300 7

two_fragments_fit : length two_fragments ≤ max_udp_datagram
two_fragments_fit = omega arith

abbrev came : List (ℕ × ℕ × ℕ)
came = (0, 5, 1) ∷ (1, 6, 1) ∷ []

all_came : (j : ℕ) → j < 2 → Arrived j (came ++ ((2, 7, 0) ∷ []))
all_came zero h = inr (inr (inl refl))
all_came (suc zero) h = inl refl
all_came (suc (suc j)) h = absurd (omega arith)

not_first : ¬ Arrived 0 came
not_first (inl e) = omega arith
not_first (inr (inl e)) = omega arith
not_first (inr (inr e)) = e

handle-send-Delivers_example :
    Delivers two_fragments (codes "dns") 3 4 two_fragments_fit (came ++ ((2, 7, 0) ∷ [])) []
unfolding fragments lookup
handle-send-Delivers_example =
    handle-send-Delivers two_fragments (codes "dns") 3 4 two_fragments_fit came 2 7 0 0 [] refl
      (omega arith) (omega arith, (omega arith, tt)) (omega arith) (omega arith) not_first all_came

handle_udp_chunk-IsBounded_example : IsBounded (handle_udp_chunk 0 ping []).0
handle_udp_chunk-IsBounded_example = handle_udp_chunk-IsBounded 0 ping [] no_assemblies

abbrev message_id : ℕ
message_id = 5

is_duplicate-view_example :
    (((message_id ≡ 0) ⊎ (contains message_id (view memory) ≡ true))
      × (is_duplicate message_id memory ≡ (true, memory)))
    ⊎ ((message_id ≢ 0)
        × (contains message_id (view memory) ≡ false)
        × ((is_duplicate message_id memory).0 ≡ false)
        × (view (is_duplicate message_id memory).1 ≡ drop 1 (view memory) ++ (message_id ∷ [])))
is_duplicate-view_example = is_duplicate-view message_id memory memory-IsWindow

-- The header of an IPv4 packet that carries UDP.
abbrev udp_packet : Bytes
udp_packet = 69 ∷ 0 ∷ 0 ∷ 20 ∷ 0 ∷ 0 ∷ 0 ∷ 0 ∷ 64 ∷ 17 ∷ replicate 10 0

packet_allowed_iff_example :
    (packet_allowed udp_packet (codes "udp" ∷ []) ≡ true)
    ↔ ((proto : ℕ) × Carries udp_packet proto × Permits (codes "udp" ∷ []) proto)
packet_allowed_iff_example = packet_allowed_iff udp_packet (codes "udp" ∷ [])

-- An IPv6 header, a hop-by-hop header of eight bytes, and TCP behind it.
abbrev ipv6_packet : Bytes
ipv6_packet = (96 ∷ 0 ∷ 0 ∷ 0 ∷ 0 ∷ 8 ∷ 0 ∷ 64 ∷ replicate 32 0) ++ (6 ∷ 0 ∷ replicate 6 0)

ipv6_upper_layer_protocol_iff_example :
    (ipv6_upper_layer_protocol ipv6_packet ≡ some 6) ↔ LeadsTo ipv6_packet 6
ipv6_upper_layer_protocol_iff_example = ipv6_upper_layer_protocol_iff ipv6_packet 6

-- A cipher that appends sixteen zero bytes, and a code that is a length 32 times.
abbrev pub toy : Crypto
toy = record {
  sha256 = λ text. replicate 32 (length text % 256);
  hmac = λ key text. replicate 32 (length text % 256);
  seal = λ key nonce text aad. text ++ replicate 16 0;
  open_sealed = λ key nonce text aad. some (take (length text - 16) text);
}

pub take-toy : (text tail : Bytes) (n : ℕ) → n ≡ length text → take n (text ++ tail) ≡ text
take-toy [] tail zero h = refl
take-toy [] tail (suc n) h = absurd (omega arith)
take-toy (b ∷ text) tail zero h = absurd (omega arith)
take-toy (b ∷ text) tail (suc n) h = ap (λ x. b ∷ x) (take-toy text tail n (omega arith))

pub toy-IsCrypto : IsCrypto toy
toy-IsCrypto = record {
  length-hmac = λ key text. length-replicate {A = ℕ} 32 (length text % 256);
  length-seal = λ key nonce text aad. omega (arith, length-append text (replicate 16 0));
  open-seal = λ key nonce text aad.
      ap (λ x. some x)
        (take-toy text (replicate 16 0) (length (text ++ replicate 16 0) - 16)
          (omega (arith, length-append text (replicate 16 0))));
}

abbrev pub secret : Bytes
secret = replicate 32 9

length-hkdf_expand_example : length (hkdf_expand toy secret (codes "label") 50) ≡ 50
length-hkdf_expand_example = length-hkdf_expand toy toy-IsCrypto secret (codes "label") 50

abbrev toy_keys : KeySet
toy_keys = derive_keys toy secret (replicate 32 1) (replicate 32 2) (codes "a") (codes "b")

new_aead-derive_keys_example :
    (new_aead toy_keys.client_send ≡ ok toy_keys.client_send)
    × (new_aead toy_keys.server_send ≡ ok toy_keys.server_send)
    × (length toy_keys.client_ack ≡ 32)
    × (length toy_keys.server_ack ≡ 32)
new_aead-derive_keys_example =
    new_aead-derive_keys toy toy-IsCrypto secret (replicate 32 1) (replicate 32 2) (codes "a")
      (codes "b")

abbrev pub hello_of_a : Handshake
hello_of_a = record {
  kind = 1;
  session_id = 0;
  timestamp = 1000;
  nonce = replicate 32 1;
  node_id = codes "a";
  peer_id = codes "b";
}

abbrev pub hello_bytes : Bytes
hello_bytes = base hello_of_a ++ toy.hmac secret (base hello_of_a ++ [])

decode-encode_handshake_example : decode_handshake toy hello_bytes [] secret ≡ ok hello_of_a
unfolding encode_handshake
decode-encode_handshake_example =
    decode-encode_handshake toy toy-IsCrypto hello_of_a [] secret {bytes = hello_bytes}
      (record { session_id_fits = omega arith; timestamp_fits = omega arith }) refl

pub hello_encodes : encode_handshake toy hello_of_a [] secret ≡ ok hello_bytes
unfolding encode_handshake
hello_encodes = refl

read_back : decode_handshake toy hello_bytes [] secret ≡ ok hello_of_a
unfolding encode_handshake
read_back =
    decode-encode_handshake toy toy-IsCrypto hello_of_a [] secret {bytes = hello_bytes}
      (record { session_id_fits = omega arith; timestamp_fits = omega arith }) refl

abbrev front_len : ℕ
front_len = 58 + byte_at hello_bytes 56 + byte_at hello_bytes 57

decode_handshake_authentic_example :
    (1 ≤ byte_at hello_bytes 56)
    × (byte_at hello_bytes 56 ≤ 64)
    × (1 ≤ byte_at hello_bytes 57)
    × (byte_at hello_bytes 57 ≤ 64)
    × (length hello_bytes ≡ 58 + (byte_at hello_bytes 56 + byte_at hello_bytes 57) + 32)
    × (slice hello_bytes front_len (length hello_bytes)
        ≡ toy.hmac secret (slice hello_bytes 0 front_len ++ []))
decode_handshake_authentic_example =
    decode_handshake_authentic toy hello_bytes [] secret hello_of_a read_back

-- A clock on which every handshake is fresh.
abbrev pub fresh : ℕ → ℤ
fresh timestamp = pos 0

said_hello : client_hello toy secret 1000 (replicate 32 1) (codes "a") (codes "b") ≡ ok hello_bytes
unfolding client_hello encode_handshake
said_hello = refl

exchange_agrees_example :
    (response : Bytes) × (keys : KeySet) × (server_welcome toy secret fresh 1001 77
        (replicate 32 2)
        (codes "b")
        (codes "a")
        hello_bytes
      ≡ ok (response, keys))
    × (client_keys toy secret fresh (replicate 32 1) (codes "a") (codes "b") response ≡ ok keys)
unfolding skewed
exchange_agrees_example =
    exchange_agrees toy toy-IsCrypto secret (codes "a") (codes "b") (replicate 32 1)
      (replicate 32 2) 1000 1001 77 fresh fresh {request = hello_bytes} (omega arith) (omega arith)
      (omega arith) (omega arith) refl refl said_hello

exchanged :
    (response : Bytes) × (keys : KeySet) × (server_welcome toy secret fresh 1001 77
        (replicate 32 2)
        (codes "b")
        (codes "a")
        hello_bytes
      ≡ ok (response, keys))
    × (client_keys toy secret fresh (replicate 32 1) (codes "a") (codes "b") response ≡ ok keys)
unfolding skewed
exchanged =
    exchange_agrees toy toy-IsCrypto secret (codes "a") (codes "b") (replicate 32 1)
      (replicate 32 2) 1000 1001 77 fresh fresh {request = hello_bytes} (omega arith) (omega arith)
      (omega arith) (omega arith) refl refl said_hello

server_welcome_only_example :
    (hello : Handshake) × (decode_handshake toy hello_bytes [] secret ≡ ok hello)
    × (hello.kind ≡ 1)
    × (hello.node_id ≡ codes "a")
    × (hello.peer_id ≡ codes "b")
    × (skewed (fresh hello.timestamp) ≡ false)
unfolding skewed
server_welcome_only_example =
    server_welcome_only toy toy-IsCrypto secret fresh 1001 77 (replicate 32 2) (codes "b")
      (codes "a") hello_bytes {r = (exchanged.0, exchanged.1)} exchanged.2

abbrev three : ℕ
three = 3

nonce_for-injective_example : three ≡ 3
nonce_for-injective_example = nonce_for-injective three 3 (omega arith) (omega arith) refl
