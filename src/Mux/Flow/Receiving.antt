-- ===== src/Mux/Flow/Receiving.antt =====
-- What the receiver's steps keep (internal/mux/stream.go).
use secure_access_relay.Common.{
  ℕ, ◌+◌, ◌≤◌, Bytes, true, false, Bool, List, [], ◌∷◌, ◌++◌, ◌≡◌, refl, sym, ap, ◌∙◌, length,
  length-append, append_assoc, arith, ◌⊎◌, inl, inr,
}
use secure_access_relay.Proto.Reason.{Reason}
use secure_access_relay.Mux.Stream.{Stream, read, read_bytes, remote_close}
use secure_access_relay.Mux.Flow.{
  Forward, closing, Backward, closing_back, Link, credit_frame, if_sent,
}
use secure_access_relay.Mux.Flow.Closing.{
  payload, behind_close, has_close, granted, granted-append, granted-credit_frame, granted-if_sent,
  behind_close-le, ReceiverKept, IsEnded, remote_close-IsEnded,
}
use secure_access_relay.Mux.Flow.Conservation.{Inv, read_accounts}

-- What waits does not grow with an end, and is all there unless the end was a reset.
shrinks :
    (s t : Stream)
    → (t.buf ≡ s.buf) ⊎ ((t.buf ≡ []) × (t.is_reset ≡ true))
    → (length t.buf ≤ length s.buf) × (t.is_reset ≡ false → t.buf ≡ s.buf)
shrinks s t (inl e) = (omega (arith, ap length e), λ _. e)
shrinks s t (inr (e, h)) = (omega (arith, ap length e), λ o. absurd (cc (o, h)))

-- What is lost with it was behind what was read.
prefix_cut :
    (consumed written : Bytes) (s t : Stream)
    → (t.buf ≡ s.buf) ⊎ ((t.buf ≡ []) × (t.is_reset ≡ true))
    → ((lost : Bytes) × (consumed ++ (s.buf ++ lost) ≡ written))
    → (lost : Bytes) × (consumed ++ (t.buf ++ lost) ≡ written)
prefix_cut consumed written s t (inl e) (lost, k) = (lost, ap (λ q. consumed ++ (q ++ lost)) e ∙ k)
prefix_cut consumed written s t (inr (e, h)) (lost, k) =
    (s.buf ++ lost, ap (λ q. consumed ++ (q ++ (s.buf ++ lost))) e ∙ k)

module _ {window threshold : ℕ} where
  -- A receiver's end, at its own wish or on the peer's word, with the frames then under way.
  ended-Inv :
      (l : Link) (r : Stream) (fs : List Forward) (bs : List Backward)
      → IsEnded l.receiver r
      → payload fs ≡ payload l.forward
      → length (behind_close fs) ≡ 0
      → (has_close fs ≡ true → l.sender.local_closed ≡ true)
      → (r.is_reset ≡ false
          → r.remote_closed ≡ true
          → (length (payload fs) ≡ 0) × (l.sender.local_closed ≡ true))
      → granted bs ≡ granted l.backward
      → Inv window threshold l
      → Inv window threshold (record l { receiver = r; forward = fs; backward = bs })
  ended-Inv l r fs bs k same none_behind there none_left eq v =
      let (le, all) = shrinks l.receiver r k.buffered in
      record {
        window_lt = v.window_lt;
        threshold_pos = v.threshold_pos;
        bounded = omega (arith, v.bounded, k.pending, ap length same, le, eq);
        conserved = λ o f.
            omega
              (arith, v.conserved (k.resets o) f, k.pending, ap length same, ap length (all o), eq);
        room = omega (arith, v.room, k.window, le);
        reclaimed = λ o. omega (arith, v.reclaimed (k.resets o), k.window, ap length (all o));
        held_back = omega (arith, v.held_back, k.pending);
        behind = none_behind;
        announced = there;
        drained = none_left;
        lossless = λ o.
            ap (λ q. l.consumed ++ (q ++ payload fs)) (all o)
            ∙ ap (λ q. l.consumed ++ (l.receiver.buf ++ q)) same
            ∙ v.lossless (k.resets o);
        prefix = prefix_cut l.consumed l.written l.receiver r k.buffered v.prefix;
      }

  pub receiver_ends-Inv :
      (l : Link) (r : Stream) (bs : List Backward)
      → ReceiverKept l.receiver r
      → granted bs ≡ granted l.backward
      → Inv window threshold l
      → Inv window threshold (record l { receiver = r; backward = bs })
  receiver_ends-Inv l r bs k eq v =
      ended-Inv l r l.forward bs
        (record {
          window = k.window;
          pending = k.pending;
          buffered = k.buffered;
          resets = λ o. (k.resets o).0;
        })
        refl v.behind v.announced (λ o c. v.drained (k.resets o).0 (sym (k.resets o).1 ∙ c)) eq v

  pub receiver_closes-Inv :
      (l : Link) (reason : Reason) (r : Stream) (b : Bool)
      → ReceiverKept l.receiver r
      → Inv window threshold l
      → Inv window threshold
          (record l { receiver = r; backward = l.backward ++ if_sent (closing_back reason) b })
  receiver_closes-Inv l reason r b k v =
      receiver_ends-Inv l r (l.backward ++ if_sent (closing_back reason) b) k
        (omega (
          arith,
          granted-append l.backward (if_sent (closing_back reason) b),
          granted-if_sent reason b,
        ))
        v

  pub close_arrives-Inv :
      (l : Link) (r : Reason) (rest : List Forward)
      → l.forward ≡ closing r ∷ rest
      → Inv window threshold l
      → Inv window threshold (record l { receiver = remote_close r l.receiver; forward = rest })
  close_arrives-Inv l r rest e v =
      let none_left : length (payload rest) ≡ 0 =
        ap (λ fs. length (behind_close fs)) (sym e) ∙ v.behind in
      let shut : l.sender.local_closed ≡ true = v.announced (ap has_close e) in
      ended-Inv l (remote_close r l.receiver) rest l.backward (remote_close-IsEnded r l.receiver)
        (ap payload (sym e)) (behind_close-le rest none_left) (λ _. shut) (λ o c. (none_left, shut))
        refl v

  pub consume-Inv :
      (l : Link) (r : Stream) (got : Bytes) (c len : ℕ)
      → read threshold len l.receiver ≡ (r, read_bytes got c)
      → Inv window threshold l
      → Inv window threshold (record l {
        receiver = r;
        backward = l.backward ++ credit_frame c;
        consumed = l.consumed ++ got;
      })
  consume-Inv l r got c len e v =
      let (bytes, win, held, low, o, p) =
        read_accounts window threshold len l.receiver r got c v.window_lt v.threshold_pos v.room
          (omega (arith, v.bounded)) v.held_back e in
      let back : granted (l.backward ++ credit_frame c) ≡ granted l.backward + c =
        omega (arith, granted-append l.backward (credit_frame c), granted-credit_frame c) in
      let front : (q : Bytes)
          → (l.consumed ++ got) ++ (r.buf ++ q) ≡ l.consumed ++ (l.receiver.buf ++ q) =
        λ q.
          append_assoc l.consumed got (r.buf ++ q)
          ∙ ap (◌++◌ l.consumed) (sym (append_assoc got r.buf q) ∙ ap (λ t. t ++ q) bytes) in
      let (lost, kept) = v.prefix in
      record {
        window_lt = v.window_lt;
        threshold_pos = v.threshold_pos;
        bounded = omega (arith, v.bounded, held, back, ap length bytes, length-append got r.buf);
        conserved = λ q f. omega (
          arith,
          v.conserved (sym o ∙ q) f,
          held,
          back,
          ap length bytes,
          length-append got r.buf,
        );
        room = omega (arith, v.room, win, ap length bytes, length-append got r.buf);
        reclaimed = λ q.
            omega (arith, v.reclaimed (sym o ∙ q), win, ap length bytes, length-append got r.buf);
        held_back = low;
        behind = v.behind;
        announced = v.announced;
        drained = λ q h. v.drained (sym o ∙ q) (sym p ∙ h);
        lossless = λ q. front (payload l.forward) ∙ v.lossless (sym o ∙ q);
        prefix = (lost, front lost ∙ kept);
      }
