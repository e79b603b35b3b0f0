-- ===== src/Mux/Flow/Arriving.antt =====
-- What the arrival of data keeps (internal/mux/stream.go).
use secure_access_relay.Common.{
  ℕ, ◌+◌, Bytes, false, List, [], ◌∷◌, ◌++◌, ◌≡◌, refl, sym, ap, ◌∙◌, length, length-append,
  append_assoc, arith, inl, inr, Bool-cases,
}
use secure_access_relay.Common.Except.{ok}
use secure_access_relay.Mux.Stream.{Stream, deliver}
use secure_access_relay.Mux.Flow.{Forward, data_of, Link}
use secure_access_relay.Mux.Flow.Closing.{payload, behind_close, has_close}
use secure_access_relay.Mux.Flow.Conservation.{Inv, deliver-late, delivered}

no_bytes : (b q : Bytes) → length (b ++ q) ≡ 0 → (b ≡ []) × (length q ≡ 0)
no_bytes [] q e = (refl, e)
no_bytes (x ∷ b) q e = absurd (omega arith)

module _ {window threshold : ℕ} where
  -- A frame that comes too late is dropped: it is empty, or the stream was reset.
  dropped-Inv :
      (l : Link) (b : Bytes) (rest : List Forward)
      → l.forward ≡ data_of b ∷ rest
      → (l.receiver.is_reset ≡ false → b ≡ [])
      → Inv window threshold l
      → Inv window threshold (record l { forward = rest })
  dropped-Inv l b rest e none v = record {
    window_lt = v.window_lt;
    threshold_pos = v.threshold_pos;
    bounded = omega (arith, v.bounded, more);
    conserved = λ o f. omega (arith, v.conserved o f, more, ap length (none o));
    room = v.room;
    reclaimed = v.reclaimed;
    held_back = v.held_back;
    behind = ap (λ fs. length (behind_close fs)) (sym e) ∙ v.behind;
    announced = λ h. v.announced (ap has_close e ∙ h);
    drained = λ o c. (omega (arith, (v.drained o c).0, more), (v.drained o c).1);
    lossless = λ o.
        ap (λ q. l.consumed ++ (l.receiver.buf ++ (q ++ payload rest))) (sym (none o))
        ∙ ap (λ fs. l.consumed ++ (l.receiver.buf ++ payload fs)) (sym e)
        ∙ v.lossless o;
    prefix = v.prefix;
  }
    where
      more : length (payload l.forward) ≡ length b + length (payload rest)
      more = omega (arith, ap (λ fs. length (payload fs)) e, length-append b (payload rest))

  -- A frame that comes in time is kept.
  kept-Inv :
      (l : Link) (b : Bytes) (rest : List Forward) (r : Stream)
      → l.forward ≡ data_of b ∷ rest
      → l.receiver.is_reset ≡ false
      → (r.buf ≡ l.receiver.buf ++ b)
        × (r.recv_window + length b ≡ l.receiver.recv_window)
        × (r.pending_credit ≡ l.receiver.pending_credit)
        × (r.is_reset ≡ false)
        × (r.remote_closed ≡ false)
      → Inv window threshold l
      → Inv window threshold (record l { receiver = r; forward = rest })
  kept-Inv l b rest r e live (buf, win, held, o', c') v = record {
    window_lt = v.window_lt;
    threshold_pos = v.threshold_pos;
    bounded = omega (arith, v.bounded, held, grown, more);
    conserved = λ o f. omega (arith, v.conserved live f, held, grown, more);
    room = omega (arith, v.room, win, grown);
    reclaimed = λ o. omega (arith, v.reclaimed live, win, grown);
    held_back = omega (arith, held, v.held_back);
    behind = ap (λ fs. length (behind_close fs)) (sym e) ∙ v.behind;
    announced = λ h. v.announced (ap has_close e ∙ h);
    drained = λ o c. absurd (cc (c, c'));
    lossless = λ o. whole;
    prefix = (payload rest, whole);
  }
    where
      more : length (payload l.forward) ≡ length b + length (payload rest)
      more = omega (arith, ap (λ fs. length (payload fs)) e, length-append b (payload rest))

      grown : length r.buf ≡ length l.receiver.buf + length b
      grown = omega (arith, ap length buf, length-append l.receiver.buf b)

      whole : l.consumed ++ (r.buf ++ payload rest) ≡ l.written
      whole =
          ap (λ q. l.consumed ++ (q ++ payload rest)) buf
          ∙ ap (◌++◌ l.consumed) (append_assoc l.receiver.buf b (payload rest))
          ∙ ap (λ fs. l.consumed ++ (l.receiver.buf ++ payload fs)) (sym e)
          ∙ v.lossless live

  -- A frame under way is always delivered: it fits the window, or comes too late.
  pub arrives :
      {l : Link} {b : Bytes} {rest : List Forward}
      → Inv window threshold l
      → l.forward ≡ data_of b ∷ rest
      → (r : Stream) × (deliver b l.receiver ≡ ok r)
        × Inv window threshold (record l { receiver = r; forward = rest })
  arrives {l} {b} {rest} v e = elim (Bool-cases l.receiver.is_reset) [
    | inl h ↦ (
      l.receiver,
      deliver-late b l.receiver (ground arith),
      dropped-Inv l b rest e (λ o. absurd (cc (o, h))) v,
    )
    | inr h ↦ elim (Bool-cases l.receiver.remote_closed) [
      | inl c ↦ (
        l.receiver,
        deliver-late b l.receiver (ground arith),
        dropped-Inv l b rest e
            (λ o.
              (no_bytes b (payload rest)
                (ap (λ fs. length (payload fs)) (sym e) ∙ (v.drained h c).0)).0)
            v,
      )
      | inr c ↦
          let (r, d, buf, win, held, o, c') =
            delivered b l.receiver h c
              (omega (
                arith,
                v.bounded,
                v.reclaimed h,
                ap (λ fs. length (payload fs)) e,
                length-append b (payload rest),
              ))
              (omega (arith, v.room, v.window_lt)) in
          (r, d, kept-Inv l b rest r e h (buf, win, held, o, c') v)
    ]
  ]
