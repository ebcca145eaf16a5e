-- ===== src/Writer.antt =====
-- The write loops of internal/transport/tcp.go (`writeAll`) and internal/app/app.go
-- (`writeConnAll`), over a connection that is given as a parameter.
use unknowntunnel.Prelude.{
  ℕ, zero, suc, ◌≤◌, ◌≡◌, ◌∙◌, sym, ap, refl, Bytes, [], ◌∷◌, ◌++◌, Option, none, some, length,
  take, drop, append_assoc, append-nil, take-append-drop, length-drop, arith,
}

-- `io.Writer`: how many bytes a call of `Write` took, and its error. `written` is what the
-- connection has taken so far.
pub record Conn (C E : Type 0) : Type 0 where
  pub write : Bytes → C → C × ℕ × Option E
  pub written : C → Bytes

-- What io.Writer documents: the bytes taken are the first ones of the call's argument.
pub record IsWriter {C E : Type 0} (conn : Conn C E) : Type 0 where
  pub takes_front :
      (bytes : Bytes) (c : C)
      → conn.written (conn.write bytes c).0 ≡ conn.written c ++ take (conn.write bytes c).1 bytes
  pub takes_at_most : (bytes : Bytes) (c : C) → (conn.write bytes c).1 ≤ length bytes

pub data WriteError (E : Type 0) : Type 0 where
  failed : E → WriteError E
  short_write : WriteError E

module _ {C E : Type 0} (conn : Conn C E) where
  -- After one call: its error, `io.ErrShortWrite`, or the loop on the bytes that are left.
  after_write :
      Bytes → C × ℕ × Option E → (Bytes → C → C × Option (WriteError E)) → C × Option (WriteError E)
  after_write bytes (c, n, some e) again = (c, some (failed e))
  after_write bytes (c, zero, none) again = (c, some short_write)
  after_write bytes (c, suc n, none) again = again (drop (suc n) bytes) c

  after_write-eq-none :
      (bytes : Bytes) (r : C × ℕ × Option E) (again : Bytes → C → C × Option (WriteError E))
      {c' : C}
      → after_write bytes r again ≡ (c', none)
      → (n : ℕ) × (r.1 ≡ suc n) × (again (drop (suc n) bytes) r.0 ≡ (c', none))
  unfolding after_write
  after_write-eq-none bytes (c, n, some e) again h = cc
  after_write-eq-none bytes (c, zero, none) again h = cc
  after_write-eq-none bytes (c, suc n, none) again h = (n, refl, h)

  -- A call that returns no error takes a byte at least, so `length bytes` rounds are enough.
  unfoldable pub write_loop : ℕ → Bytes → C → C × Option (WriteError E)
  unfolding after_write
  write_loop fuel [] c = (c, none)
  write_loop zero (b ∷ bs) c = (c, none)
  write_loop (suc fuel) (b ∷ bs) c = after_write (b ∷ bs) (conn.write (b ∷ bs) c) (write_loop fuel)

  unfoldable pub write_all : Bytes → C → C × Option (WriteError E)
  write_all bytes c = write_loop (length bytes) bytes c

  write_loop-written :
      (ok : IsWriter conn) (fuel : ℕ) (bytes : Bytes) (c c' : C)
      → length bytes ≤ fuel
      → write_loop fuel bytes c ≡ (c', none)
      → conn.written c' ≡ conn.written c ++ bytes
  unfolding write_loop
  write_loop-written ok fuel [] c c' h e =
      let q : c ≡ c' = cc in ap conn.written (sym q) ∙ sym (append-nil _)
  write_loop-written ok zero (b ∷ bs) c c' h e = absurd (omega arith)
  write_loop-written ok (suc fuel) (b ∷ bs) c c' h e =
      let bytes = b ∷ bs in
      let r = conn.write bytes c in
      let (n, en, rest) = after_write-eq-none bytes r (write_loop fuel) e in
      write_loop-written ok fuel (drop (suc n) bytes) r.0 c' (omega (arith, length-drop n bs)) rest
      ∙ ap (λ w. w ++ drop (suc n) bytes) (ok.takes_front bytes c)
      ∙ append_assoc (conn.written c) (take r.1 bytes) (drop (suc n) bytes)
      ∙ ap (◌++◌ (conn.written c))
          (ap (λ k. take k bytes ++ drop (suc n) bytes) en ∙ take-append-drop (suc n) bytes)

  -- Over a writer that keeps the contract of io.Writer, a write loop that returns no error has
  -- written every byte, in order, behind what was written before.
  pub written-write_all :
      (ok : IsWriter conn) (bytes : Bytes) (c c' : C)
      → write_all bytes c ≡ (c', none)
      → conn.written c' ≡ conn.written c ++ bytes
  unfolding write_all
  written-write_all ok bytes c c' e =
      write_loop-written ok (length bytes) bytes c c' (omega arith) e
