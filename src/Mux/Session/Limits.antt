-- ===== src/Mux/Session/Limits.antt =====
-- The limits of a session (internal/mux/session.go) hold after any events.
use secure_access_relay.Common.{
  ℕ, ◌%◌, ◌<◌, ◌≤◌, Bytes, ltb, leb, Bool, true, false, if◌then◌else◌, u32, u32_mod, length,
  length-append, [], ◌∷◌, Option, none, some, ◌≡◌, arith, if_intro,
}
use secure_access_relay.Common.Except.{Except}
use secure_access_relay.Common.Table.{lookup, length-delete-le, length-insert-le}
use secure_access_relay.Proto.Reason.{Reason}
use secure_access_relay.Proto.Frame.{FrameType, malformed_frame}
use secure_access_relay.Proto.Handshake.{encode_window}
use secure_access_relay.Mux.Stream.{Stream}
use secure_access_relay.Mux.Session.{
  Session, MuxError, codec, write_out, write_close, write_error, make_stream, put_stream, retire,
  retire_if_done, set_err, complete_open, end_session, close, shutdown,
}
use secure_access_relay.Mux.Session.Ops.{
  sent_open, open_stream, register_open, send_data, send_close, send_window_update,
}
use secure_access_relay.Mux.Session.Dispatch.{handle_open, enqueue, acknowledged, same, is_odd}

-- The number of the half of the identifiers that a side opens streams with.
abbrev pub half : Bool → ℕ
half true = 1
half false = 0

-- The limit that the handshake settled, and the side.
pub record Fixed : Type 0 where
  pub limit : ℕ
  pub is_client : Bool

pub record Inv (k : Fixed) (s : Session) : Type 0 where
  pub limit_lt : k.limit < u32_mod
  pub limit : s.max_streams ≡ k.limit
  pub side : s.is_client ≡ k.is_client
  pub streams_le : length s.streams ≤ k.limit
  pub queue_le : length s.accept_queue ≤ k.limit
  pub own_half : s.next_id % 2 ≡ half k.is_client

module _ {k : Fixed} where
  pub write_out-Inv :
      (t : FrameType) (id : ℕ) (p : Bytes) (s : Session) → Inv k s → Inv k (write_out t id p s).0
  unfolding write_out
  write_out-Inv t id p s v = ground arith

  pub send_data-Inv : (id : ℕ) (p : Bytes) (s : Session) → Inv k s → Inv k (send_data id p s).0
  unfolding send_data
  send_data-Inv id p s v = ground (arith, write_out-Inv FrameType.stream_data id p s v)

  pub write_close-Inv : (id : ℕ) (r : Reason) (s : Session) → Inv k s → Inv k (write_close id r s).0
  unfolding write_close
  write_close-Inv id r s v = write_out-Inv _ id _ s v

  pub send_close-Inv : (id : ℕ) (r : Reason) (s : Session) → Inv k s → Inv k (send_close id r s).0
  unfolding send_close
  send_close-Inv id r s v = ground (arith, write_close-Inv id r s v)

  pub send_window_update-Inv :
      (id c : ℕ) (s : Session) → Inv k s → Inv k (send_window_update id c s).0
  unfolding send_window_update
  send_window_update-Inv id c s v =
      if_intro (λ (r : Session × Option MuxError). Inv k r.0) s.done (λ _. v)
        (λ _. write_out-Inv FrameType.stream_window id (encode_window c) s v)

  pub retire-Inv : (id : ℕ) (s : Session) → Inv k s → Inv k (retire id s)
  unfolding retire
  retire-Inv id s v = ground (arith, length-delete-le {0} id s.streams)

  pub retire_if_done-Inv : (st : Stream) (s : Session) → Inv k s → Inv k (retire_if_done st s)
  unfolding retire_if_done
  retire_if_done-Inv st s v = ground (arith, retire-Inv st.id s v)

  pub put_stream-Inv : (id : ℕ) (st : Stream) (s : Session) → Inv k s → Inv k (put_stream id st s)
  unfolding put_stream
  put_stream-Inv id st s v = ground arith

  pub set_err-Inv : (e : MuxError) (s : Session) → Inv k s → Inv k (set_err e s)
  unfolding set_err
  set_err-Inv e s v = ground arith

  pub complete_open-Inv :
      (id : ℕ) (r : Reason) (s : Session) → Inv k s → Inv k (complete_open id r s)
  unfolding complete_open
  complete_open-Inv id r s v = ground arith

  pub end_session-Inv : (r : Reason) (s : Session) → Inv k s → Inv k (end_session r s)
  unfolding end_session
  end_session-Inv r s v = ground arith

  pub shutdown-Inv : (r : Reason) (s : Session) → Inv k s → Inv k (shutdown r s)
  unfolding shutdown
  shutdown-Inv r s v = ground (arith, end_session-Inv r s v)

  pub close-Inv : (r : Reason) (s : Session) → Inv k s → Inv k (close r s)
  unfolding close write_error
  close-Inv r s v =
      if_intro (Inv k) s.done (λ _. v)
        (λ _. end_session-Inv r _ (write_out-Inv _ 0 _ _ (set_err-Inv _ s v)))

  pub make_stream-Inv :
      (id : ℕ) (p : Bytes) (s : Session)
      → leb s.max_streams (u32 (length s.streams)) ≡ false
      → Inv k s
      → Inv k (make_stream id p s)
  unfolding make_stream
  make_stream-Inv id p s h v = ground (arith, length-insert-le {0} id s.made s.streams)

  pub register_open-Inv :
      (s : Session)
      → leb s.max_streams (u32 (length s.streams)) ≡ false
      → Inv k s
      → Inv k (register_open s)
  unfolding register_open make_stream
  register_open-Inv s h v = ground (arith, length-insert-le {0} s.next_id s.made s.streams)

  pub sent_open-Inv :
      (id h : ℕ) (r : Session × Option MuxError) → Inv k r.0 → Inv k (sent_open id h r).0
  sent_open-Inv id h (s, none) v = v
  sent_open-Inv id h (s, some e) v = retire-Inv id s v

  pub open_stream-Inv : (p : Bytes) (s : Session) → Inv k s → Inv k (open_stream p s).0
  unfolding open_stream
  open_stream-Inv p s v =
      if_intro P s.done (λ _. v)
        (λ _.
          if_intro P (leb s.max_streams (u32 (length s.streams))) (λ _. v)
            (λ h.
              sent_open-Inv s.next_id s.made _
                (write_out-Inv _ s.next_id p _ (register_open-Inv s h v))))
    where
      P : Session × Except MuxError (ℕ × ℕ) → Type 0
      P r = Inv k r.0

  pub enqueue-Inv : (id h : ℕ) (s : Session) → Inv k s → Inv k (enqueue id h s).0
  unfolding enqueue
  enqueue-Inv id h s v =
      if_intro (λ (r : Session × Option MuxError). Inv k r.0)
        (ltb (length s.accept_queue) s.max_streams)
        (λ e. ground (arith, length-append s.accept_queue (h ∷ [])))
        (λ _. write_close-Inv id _ _ (retire-Inv id s v))

  pub acknowledged-Inv :
      (id h : ℕ) (r : Session × Option MuxError) → Inv k r.0 → Inv k (acknowledged id h r).0
  acknowledged-Inv id h (s, some e) v = v
  acknowledged-Inv id h (s, none) v = enqueue-Inv id h s v

  pub handle_open-Inv : (id : ℕ) (p : Bytes) (s : Session) → Inv k s → Inv k (handle_open id p s).0
  unfolding handle_open
  handle_open-Inv id p s v = on_lookup (lookup id s.streams)
    where
      P : Session × Option MuxError → Type 0
      P r = Inv k r.0

      on_lookup :
          (o : Option ℕ)
          → P (elim o [
            | some h ↦ (s, some (codec malformed_frame))
            | none ↦
                if same (is_odd id) s.is_client
                then (s, some (codec malformed_frame))
                else if leb s.max_streams (u32 (length s.streams))
                then write_close id Reason.limit_streams_exceeded s
                else acknowledged id s.made
                    (write_out FrameType.stream_ok id [] (make_stream id p s))
          ])
      on_lookup (some h) = v
      on_lookup none =
          if_intro P (same (is_odd id) s.is_client) (λ _. v)
            (λ _.
              if_intro P (leb s.max_streams (u32 (length s.streams)))
                (λ _. write_close-Inv id _ s v)
                (λ h.
                  acknowledged-Inv id s.made _
                    (write_out-Inv _ id [] _ (make_stream-Inv id p s h v))))
