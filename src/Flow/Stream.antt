-- ===== src/Flow/Stream.antt =====
-- What a flow writes to its connection, whatever the carriers do to the order of the messages.
use unknowntunnel.Prelude.{
  ℕ, zero, suc, ◌+◌, ◌^◌, ◌≤◌, ◌<◌, ◌≡◌, ◌∙◌, sym, ap, refl, Bytes, List, [], ◌++◌, Option, none,
  some, append_assoc, append-nil, All, All-imp, arith,
}
use unknowntunnel.Reorder.{Order, start}
use unknowntunnel.Reorder.Safety.{start-IsSettled, accept_all-IsSettled}
use unknowntunnel.Reorder.Progress.{Occurs, expected-accept_all}
use unknowntunnel.Writer.{Conn, IsWriter, WriteError, written-write_all}
use unknowntunnel.Flow.{FlowError, raise, write_conn_all, write_each, new_flow}

raise-eq-none :
    {C E : Type 0} (conn : Conn C E) (r : C × Option (WriteError E)) {c' : C}
    → raise conn r ≡ (c', none)
    → r ≡ (c', none)
unfolding raise
raise-eq-none conn (c, none) e = cc
raise-eq-none conn (c, some x) e = cc

-- The payloads 1 to `n`, joined.
abbrev pub stream : (ℕ → Bytes) → ℕ → Bytes
stream sent zero = []
stream sent (suc n) = stream sent n ++ sent (suc n)

module _ {C E : Type 0} (conn : Conn C E) (ok : IsWriter conn) (sent : ℕ → Bytes) (base : C) where
  -- Before payload `n` is written, those below it have been, and nothing else.
  abbrev pub Sent : ℕ → C → Type 0
  Sent n c = (m : ℕ) × (n ≡ suc m) × (conn.written c ≡ conn.written base ++ stream sent m)

  write_conn_all-Sent :
      (n : ℕ) (c c' : C) → Sent n c → write_conn_all conn (sent n) c ≡ (c', none) → Sent (n + 1) c'
  unfolding write_conn_all
  write_conn_all-Sent n c c' (m, en, w) e = (
    suc m,
    omega arith,
    written-write_all conn ok (sent n) c c' (raise-eq-none conn _ e)
        ∙ ap (λ x. x ++ sent n) w
        ∙ append_assoc (conn.written base) (stream sent m) (sent n)
        ∙ ap (λ k. conn.written base ++ (stream sent m ++ sent k)) en,
  )

  -- For a local connection that keeps the contract of io.Writer: after any arrivals that
  -- return no error, each with the payload of its sequence number and a number below 2^64 - 1,
  -- what was written is exactly the payloads below the expected number, each once and in
  -- order.
  pub write_each-stream :
      (arrivals : List (ℕ × Bytes)) (o : Order C)
      → All (λ a. (a.1 ≡ sent a.0) × (a.0 + 1 < 2 ^ 64)) arrivals
      → write_each conn arrivals (new_flow conn base) ≡ (o, none)
      → Sent o.expected o.out
  unfolding write_each new_flow
  write_each-stream arrivals o h e =
      (accept_all-IsSettled (write_conn_all conn) sent Sent write_conn_all-Sent
        (some FlowError.window_exceeded) arrivals (start base) o
        (start-IsSettled (write_conn_all conn) sent Sent write_conn_all-Sent base
          (0, refl, sym (append-nil _)))
        h e).0.given

  -- Over a local connection that keeps the contract of io.Writer, if the payloads 1 to n have
  -- all arrived, in any order and any number of times, for an n of at most 4097, and no
  -- arrival returned an error, then all n payloads are written in order.
  pub write_each_complete :
      (n : ℕ) (arrivals : List (ℕ × Bytes)) (o : Order C)
      → n ≤ 4097
      → All (λ a. (a.1 ≡ sent a.0) × (a.0 ≤ n)) arrivals
      → ((k : ℕ) → 1 ≤ k → k ≤ n → Occurs k arrivals)
      → write_each conn arrivals (new_flow conn base) ≡ (o, none)
      → conn.written o.out ≡ conn.written base ++ stream sent n
  unfolding write_each new_flow
  write_each_complete n arrivals o hn h every e =
      let (m, em, w) =
        write_each-stream arrivals o (All-imp (λ a r. (r.0, omega arith)) arrivals h) e in
      let en =
        expected-accept_all (write_conn_all conn) n (omega arith) (some FlowError.window_exceeded)
          arrivals base o hn (All-imp (λ a r. r.1) arrivals h) every e in
      let em' : m ≡ n = omega arith in w ∙ ap (λ k. conn.written base ++ stream sent k) em'
