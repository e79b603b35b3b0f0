-- ===== src/Tests/Links.antt =====
-- A stream between its two ends (internal/mux/stream.go).
use secure_access_relay.Common.{◌<◌, ◌≤◌, length, Bytes, false, [], ◌∷◌, ◌++◌, ◌≡◌, refl, arith}
use secure_access_relay.Proto.Reason.{Reason}
use secure_access_relay.Common.Except.{ok}
use secure_access_relay.Mux.Stream.{
  Stream, write_round, read, deliver, finished, close_with, remote_close,
}
use secure_access_relay.Mux.Flow.{
  data_of, Link, new_link, Reach, send, arrive, consume, sender_closes, close_arrives, here, next,
}
use secure_access_relay.Mux.Flow.Closing.{payload}
use secure_access_relay.Mux.Flow.Safety.{no_violation, in_order, no_stall}

-- Two bytes of three are written in one frame of at most two.
unfoldable sent_once :
    (l : Link) × Reach 2 4 (new_link 1 8) l × (l.forward ≡ data_of (1 ∷ 2 ∷ []) ∷ [])
unfolding new_link write_round
sent_once = (_, next here (send (1 ∷ 2 ∷ 3 ∷ []) (omega arith) (omega arith) refl), refl)

no_violation_example :
    (r : Stream) × (deliver (1 ∷ 2 ∷ []) sent_once.0.receiver ≡ ok r) × (length r.buf ≤ 8)
no_violation_example =
    no_violation 1 8 4 2 (omega arith) (omega arith) (omega arith) sent_once.1 (1 ∷ 2 ∷ []) []
      sent_once.2

-- The sender closes behind the frame; one byte of it is read when the receiver has been told.
unfoldable closed : (l : Link) × Reach 2 4 (new_link 1 8) l
unfolding new_link write_round deliver read close_with remote_close
closed = (
  _,
  next
      (next
        (next
          (next (next here (send (1 ∷ 2 ∷ 3 ∷ []) (omega arith) (omega arith) refl))
            (sender_closes Reason.ok))
          (arrive refl refl))
        (close_arrives refl))
      (consume 1 refl),
)

in_order_example :
    ((rest : Bytes) × (closed.0.consumed ++ (closed.0.receiver.buf ++ rest) ≡ closed.0.written))
    × (closed.0.receiver.is_reset ≡ false
        → closed.0.consumed ++ (closed.0.receiver.buf ++ payload closed.0.forward)
          ≡ closed.0.written)
in_order_example = in_order 1 8 4 2 (omega arith) (omega arith) (omega arith) closed.1

-- The frame arrives and is read; the credit waits for the threshold.
unfoldable read_all :
    (l : Link) × Reach 2 4 (new_link 1 8) l
    × (l.receiver.is_reset ≡ false)
    × (l.forward ≡ [])
    × (l.backward ≡ [])
    × (l.receiver.buf ≡ [])
unfolding new_link write_round deliver read
read_all = (
  _,
  next
      (next (next here (send (1 ∷ 2 ∷ 3 ∷ []) (omega arith) (omega arith) refl)) (arrive refl refl))
      (consume 16 refl),
  refl,
  refl,
  refl,
  refl,
)

no_stall_example :
    (finished read_all.0.sender ≡ false → 0 < read_all.0.sender.send_window)
    × (read_all.0.consumed ≡ read_all.0.written)
no_stall_example =
    no_stall 1 8 4 2 (omega arith) (omega arith) (omega arith) read_all.1 (omega arith) read_all.2
      read_all.3 read_all.4 read_all.5
