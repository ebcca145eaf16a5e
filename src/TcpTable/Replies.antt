-- ===== src/TcpTable/Replies.antt =====
-- internal/app/app.go, `handleOpenTCP`: every request to open is answered once.
use unknowntunnel.Prelude.{
  ℕ, ◌≤◌, ◌≡◌, ◌≢◌, ◌↔◌, refl, ap, inl, inr, Bool, true, false, not, leb, [], ◌∷◌, ◌++◌, Bytes,
  codes, bytes_eq, length, Option, none, if◌then◌else◌, inc_u64, nat_key, bytes_key, Map, lookup,
  insert, lookup-insert, Option-cases, arith, subst, sym,
}
use unknowntunnel.Message.{Message, type_tcp_status, max_error_len}
use unknowntunnel.Writer.{Conn}
use unknowntunnel.Config.{Service}
use unknowntunnel.Tunnel.{blank, send, send-up, encode-status}
use unknowntunnel.TcpTable.{
  Table, new_tcp_state, post, status, keep, handle_open_tcp, max_tcp_connections,
}

module _ {C E : Type 0} (conn : Conn C E) (link : Message → Bool) where
  -- One message more went out: a status for the flow, without an error exactly where the flow is
  -- pumped from now on. A pumped flow is registered; otherwise the flows are as before.
  pub record Answered (conn_id : ℕ) (a : Table C) (r : Table C × Bool) : Type 0 where
    pub reply : Message
    pub sent : r.0.outbox.sent ≡ a.outbox.sent ++ (reply ∷ [])
    pub is_status : reply.type ≡ type_tcp_status
    pub addressed : reply.conn_id ≡ conn_id
    pub truthful : (reply.error ≡ []) ↔ (r.1 ≡ true)
    pub registered : r.1 ≡ true → lookup conn_id r.0.tcp_conns ≢ none
    pub unchanged : r.1 ≡ false → r.0.tcp_conns ≡ a.tcp_conns

  refused-Answered :
      (up : (m : Message) → link m ≡ true) (conn_id : ℕ) (error : Bytes) (a : Table C)
      → error ≢ []
      → length error ≤ max_error_len
      → Answered conn_id a (post conn link (status conn link conn_id error) a, false)
  unfolding post status
  refused-Answered up conn_id error a bad short = record {
    reply = record blank {
      id = inc_u64 a.outbox.msg_id;
      type = type_tcp_status;
      conn_id = conn_id;
      error = error;
    };
    sent =
        ap (λ r. r.0.sent)
          (send-up link up (status conn link conn_id error) a.outbox
            (encode-status (inc_u64 a.outbox.msg_id) conn_id error short).1);
    is_status = refl;
    addressed = refl;
    truthful = (λ e. absurd (bad e), λ e. absurd (cc e));
    registered = λ e. absurd (cc e);
    unchanged = λ e. refl;
  }

  kept-Answered :
      (up : (m : Message) → link m ≡ true) (conn_id : ℕ) (c : C) (a : Table C)
      → lookup conn_id a.tcp_conns ≡ none
      → Answered conn_id a (keep conn link conn_id false c a)
  unfolding keep status post
  kept-Answered up conn_id c a free =
      let state = new_tcp_state conn c false in
      let msg = record blank { type = type_tcp_status; conn_id = conn_id } in
      let b = post conn link msg (record a { tcp_conns = insert conn_id state a.tcp_conns }) in
      let fits = (encode-status (inc_u64 a.outbox.msg_id) conn_id [] (omega arith)).1 in
      let took : (send link msg a.outbox).1 ≡ true =
        ap (λ r. r.1) (send-up link up msg a.outbox fits) in
      let r : keep conn link conn_id false c a ≡ (b, true) = rw (free, keep, took) refl in
      subst (Answered conn_id a) (sym r) (record {
        reply = record blank {
          id = inc_u64 a.outbox.msg_id;
          type = type_tcp_status;
          conn_id = conn_id;
        };
        sent = ap (λ x. x.0.sent) (send-up link up msg a.outbox fits);
        is_status = refl;
        addressed = refl;
        truthful = (λ e. refl, λ e. refl);
        registered = λ e n. ground (arith, n, lookup-insert conn_id conn_id state a.tcp_conns);
        unchanged = λ e. absurd (cc e);
      })

  branch-Answered :
      (conn_id : ℕ) (a : Table C) (bad : Bool) (x y : Table C × Bool)
      → (bad ≡ true → Answered conn_id a x)
      → Answered conn_id a y
      → Answered conn_id a (if bad then x else y)
  branch-Answered conn_id a true x y v w = v refl
  branch-Answered conn_id a false x y v w = w

  -- On a side that is open and stays so, over a tunnel that takes every message, a request to
  -- open a TCP flow under a free identifier is answered by exactly one status message for that
  -- flow; its error is empty exactly if the flow is pumped from then on; a pumped flow is
  -- registered, and otherwise the flows are as before.
  pub handle_open_tcp-Answered :
      (up : (m : Message) → link m ≡ true) (services : Map Bytes Service) (dial : Bytes → Option C)
      (msg : Message) (a : Table C)
      → a.closed ≡ false
      → lookup msg.conn_id a.tcp_conns ≡ none
      → Answered msg.conn_id a (handle_open_tcp conn link services dial false msg a)
  unfolding handle_open_tcp
  handle_open_tcp-Answered up services dial msg a opened free =
      let id = msg.conn_id in
      let not_allowed =
        refused-Answered up id (codes "service is not allowed or is not TCP") a (λ e. cc e)
          (omega arith) in
      let failed =
        refused-Answered up id (codes "remote service connection failed") a (λ e. cc e)
          (omega arith) in
      branch-Answered id a a.closed _ _ (λ e. absurd (cc (e, opened)))
        (branch-Answered id a (leb max_tcp_connections (length a.tcp_conns)) _ _
          (λ _.
            refused-Answered up id (codes "TCP connection limit reached") a (λ e. cc e)
              (omega arith))
          (elim (Option-cases (lookup msg.name services)) [
            | inl e ↦ rw e not_allowed
            | inr (svc, e) ↦ rw e (
                branch-Answered id a (not (bytes_eq svc.network (codes "tcp"))) _ _
                  (λ _. not_allowed)
                  (elim (Option-cases (dial svc.address)) [
                    | inl e2 ↦ rw e2 failed
                    | inr (c, e2) ↦ rw e2 (kept-Answered up id c a free)
                  ]))
          ]))
