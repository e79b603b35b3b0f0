-- ===== src/Mux/Flow/Safety.antt =====
-- What flow control promises of a link, whatever the order of events (internal/mux/stream.go).
use secure_access_relay.Common.{
  ℕ, ◌<◌, ◌≤◌, Bytes, false, List, [], ◌∷◌, ◌++◌, ◌≡◌, refl, length, append-nil, sym, ◌∙◌, ap,
  subst, u32_mod, arith,
}
use secure_access_relay.Common.Except.{ok, ok_injective}
use secure_access_relay.Mux.Stream.{
  Stream, deliver, finished, close_with, reset, kill, remote_close,
}
use secure_access_relay.Mux.Flow.{
  Forward, data_of, Link, new_link, Step, send, arrive, consume, credit, ignored, sender_closes,
  sender_resets, sender_killed, close_arrives, receiver_closes, receiver_resets, receiver_killed,
  close_returns, Reach, here, next,
}
use secure_access_relay.Mux.Flow.Closing.{
  payload, granted, close_with-SenderKept, reset-SenderKept, kill-SenderKept,
  remote_close-SenderKept, close_with-ReceiverKept, reset-ReceiverKept, kill-ReceiverKept,
}
use secure_access_relay.Mux.Flow.Conservation.{Inv, new_link-Inv}
use secure_access_relay.Mux.Flow.Sending.{
  send-Inv, sender_ends-Inv, sender_closes-Inv, credit-Inv, ignored-Inv,
}
use secure_access_relay.Mux.Flow.Receiving.{
  receiver_ends-Inv, receiver_closes-Inv, close_arrives-Inv, consume-Inv,
}
use secure_access_relay.Mux.Flow.Arriving.{arrives}

module _ {window threshold max_frame : ℕ} (frame_pos : 0 < max_frame) where
  Step-Inv :
      {l m : Link} → Step max_frame threshold l m → Inv window threshold l → Inv window threshold m
  Step-Inv {l} (send {t = t} {b = b} p pos lt e) v = send-Inv l t b p frame_pos pos lt e v
  Step-Inv {l} (arrive {r = r} {rest = rest} e d) v =
      let (r', d', w) = arrives v e in
      subst (λ z. Inv window threshold (record l { receiver = z; forward = rest }))
        (ok_injective (sym d' ∙ d)) w
  Step-Inv {l} (consume {r = r} {got = got} {c = c} len e) v = consume-Inv l r got c len e v
  Step-Inv {l} (credit {c = c} {rest = rest} e) v = credit-Inv l c rest e v
  Step-Inv {l} (ignored {c = c} {rest = rest} e f) v = ignored-Inv l c rest e f v
  Step-Inv {l} (sender_closes r) v =
      let (k, sent) = close_with-SenderKept l.sender in
      sender_closes-Inv l r (close_with l.sender).0 (close_with l.sender).1 k sent v
  Step-Inv {l} (sender_resets r) v =
      let (k, sent) = reset-SenderKept r l.sender in
      sender_closes-Inv l r (reset r l.sender).0 (reset r l.sender).1 k sent v
  Step-Inv {l} (sender_killed r) v =
      let k = kill-SenderKept r l.sender in
      sender_ends-Inv l (kill r l.sender) l.forward l.backward k refl v.behind
        (λ h. k.closes (v.announced h)) (omega arith) (λ _. refl) v
  Step-Inv {l} (close_arrives {r = r} {rest = rest} e) v = close_arrives-Inv l r rest e v
  Step-Inv {l} (receiver_closes r) v =
      receiver_closes-Inv l r (close_with l.receiver).0 (close_with l.receiver).1
        (close_with-ReceiverKept l.receiver) v
  Step-Inv {l} (receiver_resets r) v =
      receiver_closes-Inv l r (reset r l.receiver).0 (reset r l.receiver).1
        (reset-ReceiverKept r l.receiver) v
  Step-Inv {l} (receiver_killed r) v =
      receiver_ends-Inv l (kill r l.receiver) l.backward (kill-ReceiverKept r l.receiver) refl v
  Step-Inv {l} (close_returns {r = r} {rest = rest} e) v =
      let k = remote_close-SenderKept r l.sender in
      let same = ap granted e in
      sender_ends-Inv l (remote_close r l.sender) l.forward rest k refl v.behind
        (λ h. k.closes (v.announced h)) (omega (arith, same)) (λ _. sym same) v

  Reach-Inv :
      {l m : Link} → Inv window threshold l → Reach max_frame threshold l m → Inv window threshold m
  Reach-Inv v here = v
  Reach-Inv v (next r st) = Step-Inv st (Reach-Inv v r)

module _ (id window threshold max_frame : ℕ) (frame_pos : 0 < max_frame)
    (threshold_pos : 0 < threshold) (window_lt : window < u32_mod) {l : Link}
    (reached : Reach max_frame threshold (new_link id window) l) where
  inv : Inv window threshold l
  inv = Reach-Inv frame_pos (new_link-Inv id window threshold window_lt threshold_pos) reached

  -- Between two ends that follow the code, which may also close, reset or lose the stream, no frame of
  -- data that is under way is ever a violation of flow control: it is delivered, and the receiver
  -- never buffers more than the window.
  pub no_violation :
      (b : Bytes) (rest : List Forward)
      → l.forward ≡ data_of b ∷ rest
      → (r : Stream) × (deliver b l.receiver ≡ ok r) × (length r.buf ≤ window)
  no_violation b rest e = let (r, d, w) = arrives inv e in (r, d, omega (arith, w.room))

  -- Whatever happens, each call with the frame that it sends at once, the bytes that were read, with those that wait to be read, are the first of those
  -- that were written, in order. As long as the receiver's end is not reset, the rest of them is all
  -- under way.
  pub in_order :
      ((rest : Bytes) × (l.consumed ++ (l.receiver.buf ++ rest) ≡ l.written))
      × (l.receiver.is_reset ≡ false
          → l.consumed ++ (l.receiver.buf ++ payload l.forward) ≡ l.written)
  in_order = (inv.prefix, inv.lossless)

  -- No deadlock: with a threshold of at most the window, a receiver's end that is not reset, nothing
  -- under way and nothing left to read, all that was written has been read, and a sender that is not
  -- finished has credit to go on.
  pub no_stall :
      threshold ≤ window
      → l.receiver.is_reset ≡ false
      → l.forward ≡ []
      → l.backward ≡ []
      → l.receiver.buf ≡ []
      → (finished l.sender ≡ false → 0 < l.sender.send_window) × (l.consumed ≡ l.written)
  no_stall h live d c b = (
    λ f. omega (
      arith,
      inv.conserved live f,
      inv.held_back,
      ap (λ t. length (payload t)) d,
      ap granted c,
      ap length b,
    ),
    sym (append-nil l.consumed)
        ∙ ap (◌++◌ l.consumed) (sym (ap (λ t. t ++ payload l.forward) b ∙ ap payload d))
        ∙ inv.lossless live,
  )
