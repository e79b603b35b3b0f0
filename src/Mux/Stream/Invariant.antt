-- ===== src/Mux/Stream/Invariant.antt =====
-- What every method of internal/mux/stream.go keeps.
use secure_access_relay.Common.{
  ℕ, ◌+◌, ◌<◌, ◌≤◌, Bytes, false, length, length-append, length-drop, u32_mod, ◌≡◌, arith,
}
use secure_access_relay.Common.Except.{ok}
use secure_access_relay.Proto.Reason.{Reason}
use secure_access_relay.Mux.Stream.{
  Stream, read, consume, write_round, close_with, reset, deliver, grant_credit, remote_close, kill,
  new_stream,
}

-- The receive window and the buffer share the window that was granted, and all of it while no
-- byte was thrown away; the credit held back is below the threshold.
pub record IsStream (window threshold : ℕ) (s : Stream) : Type 0 where
  pub window_lt : window < u32_mod
  pub bounded : s.recv_window + length s.buf ≤ window
  pub exact : s.is_reset ≡ false → s.recv_window + length s.buf ≡ window
  pub held_back : s.pending_credit < threshold
  pub send_lt : s.send_window < u32_mod

module _ (window threshold : ℕ) where
  pub new_stream-IsStream :
      (id : ℕ) → window < u32_mod → 0 < threshold → IsStream window threshold (new_stream id window)
  unfolding new_stream
  new_stream-IsStream id h k = ground arith

  pub deliver-IsStream :
      (b : Bytes) (s t : Stream)
      → length b < u32_mod
      → IsStream window threshold s
      → deliver b s ≡ ok t
      → IsStream window threshold t
  unfolding deliver
  deliver-IsStream b s t l v e = ground (arith, length-append s.buf b)

  consume-IsStream :
      (len : ℕ) (s : Stream)
      → 0 < threshold
      → IsStream window threshold s
      → IsStream window threshold (consume threshold len s).0
  unfolding consume
  consume-IsStream len s h v = ground (arith, length-drop len s.buf)

  pub read-IsStream :
      (len : ℕ) (s : Stream)
      → 0 < threshold
      → IsStream window threshold s
      → IsStream window threshold (read threshold len s).0
  unfolding read
  read-IsStream len s h v = ground (arith, consume-IsStream len s h v)

  pub write_round-IsStream :
      (max_frame : ℕ) (p : Bytes) (s : Stream)
      → IsStream window threshold s
      → IsStream window threshold (write_round max_frame p s).0
  unfolding write_round
  write_round-IsStream m p s v = ground arith

  pub close_with-IsStream :
      (s : Stream) → IsStream window threshold s → IsStream window threshold (close_with s).0
  unfolding close_with
  close_with-IsStream s v = ground arith

  pub reset-IsStream :
      (r : Reason) (s : Stream)
      → IsStream window threshold s
      → IsStream window threshold (reset r s).0
  unfolding reset
  reset-IsStream r s v = ground arith

  pub remote_close-IsStream :
      (r : Reason) (s : Stream)
      → IsStream window threshold s
      → IsStream window threshold (remote_close r s)
  unfolding remote_close
  remote_close-IsStream r s v = ground arith

  pub kill-IsStream :
      (r : Reason) (s : Stream) → IsStream window threshold s → IsStream window threshold (kill r s)
  unfolding kill
  kill-IsStream r s v = ground arith

  pub grant_credit-IsStream :
      (n : ℕ) (s : Stream)
      → n < u32_mod
      → IsStream window threshold s
      → IsStream window threshold (grant_credit n s)
  unfolding grant_credit
  grant_credit-IsStream n s h v = ground arith
