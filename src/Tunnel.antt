-- ===== src/Tunnel.antt =====
-- internal/app/app.go, `App.send`: the messages that one side puts into the tunnel. Whether the
-- manager takes an encoded message is the argument `link`; `sent` lists those it took, oldest first.
use unknowntunnel.Prelude.{
  ◌≡◌, ◌≤◌, refl, ℕ, Bool, true, false, List, [], ◌∷◌, ◌++◌, Bytes, length, ltb, ok, err, reject_if,
  ◌>>◌, if◌then◌else◌, inc_u64, arith,
}
use unknowntunnel.Message.{Message, encode, type_tcp_status, max_error_len, error_too_long}

pub record Outbox : Type 0 where
  pub msg_id : ℕ
  pub sent : List Message

abbrev pub blank : Message
blank = record { id = 0; type = 0; conn_id = 0; seq = 0; name = []; error = []; payload = [] }

-- The message gets the next id; the id is used up even where the message cannot be encoded or
-- does not go out.
pub send : (Message → Bool) → Message → Outbox → Outbox × Bool
send link msg o =
    let id = inc_u64 o.msg_id in
    let stamped = record msg { id = id } in
    elim (encode stamped) [
      | err _ ↦ (record o { msg_id = id }, false)
      | ok _ ↦
          if link stamped
          then (record { msg_id = id; sent = o.sent ++ (stamped ∷ []) }, true)
          else (record o { msg_id = id }, false)
    ]

-- With a link that takes every message, a send appends one that can be encoded under the next id.
pub send-up :
    (link : Message → Bool) (up : (m : Message) → link m ≡ true) (msg : Message) (o : Outbox)
    {bytes : Bytes}
    → encode (record msg { id = inc_u64 o.msg_id }) ≡ ok bytes
    → send link msg o ≡ (
      record {
        msg_id = inc_u64 o.msg_id;
        sent = o.sent ++ (record msg { id = inc_u64 o.msg_id } ∷ []);
      },
      true,
    )
unfolding send
send-up link up msg o fits = rw (fits, send) (rw (up (record msg { id = inc_u64 o.msg_id })) refl)

guard_passes :
    {E A : Type 0} (a : A) (bad : Bool) (e : E)
    → bad ≡ false
    → (b : A) × ((reject_if bad e >> ok a) ≡ ok b)
guard_passes a false e h = (a, refl)
guard_passes a true e h = cc

-- A status with an error that is not too long can be encoded.
pub encode-status :
    (id conn_id : ℕ) (error : Bytes)
    → length error ≤ max_error_len
    → (bytes : Bytes) × (encode
          (record blank { id = id; type = type_tcp_status; conn_id = conn_id; error = error })
        ≡ ok bytes)
unfolding encode
encode-status id conn_id error short =
    let fits : ltb max_error_len (length error) ≡ false = ground (arith, short) in
    guard_passes _ (ltb max_error_len (length error)) error_too_long fits
