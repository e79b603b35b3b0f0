-- ===== src/Mux/Flow/Sending.antt =====
-- What the sender's steps keep (internal/mux/stream.go).
use secure_access_relay.Common.{
  ℕ, ◌<◌, ◌≤◌, Bytes, true, false, Bool, List, [], ◌∷◌, ◌++◌, ◌≡◌, refl, sym, ap, ◌∙◌, length,
  length-append, append_assoc, append-nil, u32_mod, arith, inl, inr, Bool-cases,
}
use secure_access_relay.Proto.Reason.{Reason}
use secure_access_relay.Mux.Stream.{Stream, write_round, write_frame, grant_credit, finished}
use secure_access_relay.Mux.Stream.Writing.{round_sends}
use secure_access_relay.Mux.Flow.{Forward, data_of, closing, Backward, credit_of, Link, if_sent}
use secure_access_relay.Mux.Flow.Closing.{
  payload, behind_close, has_close, granted, payload-append, behind_close-data,
  behind_close-if_sent, SenderKept, write_round-open,
}
use secure_access_relay.Mux.Flow.Conservation.{Inv, grant_credit-adds}

unchanged : (s : Stream) → SenderKept s s
unchanged s = record { window = refl; closes = λ h. h; finishes = λ h. h }

module _ {window threshold : ℕ} where
  pub send-Inv :
      {max_frame : ℕ} (l : Link) (t : Stream) (b p : Bytes)
      → 0 < max_frame
      → 0 < length p
      → length p < u32_mod
      → write_round max_frame p l.sender ≡ (t, write_frame b)
      → Inv window threshold l
      → Inv window threshold
          (record l { sender = t; forward = l.forward ++ data_of b ∷ []; written = l.written ++ b })
  send-Inv {max_frame} l t b p frame_pos pos lt e v =
      let s =
        round_sends max_frame p l.sender t b frame_pos (omega (arith, v.bounded, v.window_lt)) pos
          lt e in
      let (shut, shut', same) = write_round-open max_frame p l.sender t b e in
      let more : payload (l.forward ++ data_of b ∷ []) ≡ payload l.forward ++ b =
        payload-append l.forward (data_of b ∷ []) ∙ ap (◌++◌ (payload l.forward)) (append-nil b) in
      let (none_behind, none_there) = behind_close-data l.forward b (none_announced shut) in
      let (lost, kept) = v.prefix in
      record {
        window_lt = v.window_lt;
        threshold_pos = v.threshold_pos;
        bounded =
            omega (arith, v.bounded, s.3, ap length more, length-append (payload l.forward) b);
        conserved = λ o f. omega (
          arith,
          v.conserved o (sym same ∙ f),
          s.3,
          ap length more,
          length-append (payload l.forward) b,
        );
        room = v.room;
        reclaimed = v.reclaimed;
        held_back = v.held_back;
        behind = none_behind;
        announced = λ h. absurd (cc (h, none_there));
        drained = λ o c. absurd (cc ((v.drained o c).1, shut));
        lossless = λ o. rw more (later (payload l.forward) (v.lossless o));
        prefix = (lost ++ b, later lost kept);
      }
    where
      none_announced : l.sender.local_closed ≡ false → has_close l.forward ≡ false
      none_announced shut = elim (Bool-cases (has_close l.forward)) [
        | inl h ↦ absurd (cc (v.announced h, shut))
        | inr h ↦ h
      ]

      later :
          (q : Bytes)
          → l.consumed ++ (l.receiver.buf ++ q) ≡ l.written
          → l.consumed ++ (l.receiver.buf ++ (q ++ b)) ≡ l.written ++ b
      later q k =
          ap (◌++◌ l.consumed) (sym (append_assoc l.receiver.buf q b))
          ∙ sym (append_assoc l.consumed (l.receiver.buf ++ q) b)
          ∙ ap (λ z. z ++ b) k

  -- A sender that ends, or is told of an end.
  pub sender_ends-Inv :
      (l : Link) (t : Stream) (fs : List Forward) (bs : List Backward)
      → SenderKept l.sender t
      → payload fs ≡ payload l.forward
      → length (behind_close fs) ≡ 0
      → (has_close fs ≡ true → t.local_closed ≡ true)
      → granted bs ≤ granted l.backward
      → (finished t ≡ false → granted bs ≡ granted l.backward)
      → Inv window threshold l
      → Inv window threshold (record l { sender = t; forward = fs; backward = bs })
  sender_ends-Inv l t fs bs k same none_behind there le eq v = record {
    window_lt = v.window_lt;
    threshold_pos = v.threshold_pos;
    bounded = omega (arith, v.bounded, k.window, ap length same, le);
    conserved = λ o f. omega (arith, v.conserved o (k.finishes f), k.window, ap length same, eq f);
    room = v.room;
    reclaimed = v.reclaimed;
    held_back = v.held_back;
    behind = none_behind;
    announced = there;
    drained = λ o c. (ap length same ∙ (v.drained o c).0, k.closes (v.drained o c).1);
    lossless = λ o. ap (λ q. l.consumed ++ (l.receiver.buf ++ q)) same ∙ v.lossless o;
    prefix = v.prefix;
  }

  -- With the CLOSE_STREAM that it sends, if any.
  pub sender_closes-Inv :
      (l : Link) (r : Reason) (t : Stream) (b : Bool)
      → SenderKept l.sender t
      → (b ≡ true → t.local_closed ≡ true)
      → Inv window threshold l
      → Inv window threshold (record l { sender = t; forward = l.forward ++ if_sent (closing r) b })
  sender_closes-Inv l r t b k sent v =
      let (same, none_behind, there) = behind_close-if_sent l.forward r b in
      sender_ends-Inv l t (l.forward ++ if_sent (closing r) b) l.backward k same
        (none_behind v.behind)
        (λ h. elim (there h) [ inl q ↦ k.closes (v.announced q) | inr q ↦ sent q ]) (omega arith)
        (λ _. refl) v

  pub credit-Inv :
      (l : Link) (c : ℕ) (rest : List Backward)
      → l.backward ≡ credit_of c ∷ rest
      → Inv window threshold l
      → Inv window threshold (record l { sender = grant_credit c l.sender; backward = rest })
  credit-Inv l c rest e v =
      let (g, shut, same) =
        grant_credit-adds c l.sender (omega (arith, v.bounded, v.window_lt, ap granted e)) in
      record {
        window_lt = v.window_lt;
        threshold_pos = v.threshold_pos;
        bounded = omega (arith, v.bounded, g, ap granted e);
        conserved = λ o f. omega (arith, v.conserved o (sym same ∙ f), g, ap granted e);
        room = v.room;
        reclaimed = v.reclaimed;
        held_back = v.held_back;
        behind = v.behind;
        announced = λ h. shut ∙ v.announced h;
        drained = λ o q. ((v.drained o q).0, shut ∙ (v.drained o q).1);
        lossless = v.lossless;
        prefix = v.prefix;
      }

  pub ignored-Inv :
      (l : Link) (c : ℕ) (rest : List Backward)
      → l.backward ≡ credit_of c ∷ rest
      → finished l.sender ≡ true
      → Inv window threshold l
      → Inv window threshold (record l { backward = rest })
  ignored-Inv l c rest e f v =
      sender_ends-Inv l l.sender l.forward rest (unchanged l.sender) refl v.behind v.announced
        (omega (arith, ap granted e)) (λ o. absurd (cc (o, f))) v
