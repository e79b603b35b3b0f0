-- ===== src/Mux/Flow.antt =====
-- One direction of a stream between its two ends (internal/mux/stream.go): the sender's and the
-- receiver's `Stream`, the frames under way in both directions, and what each side may do next.
-- `written` and `consumed` are what has passed through `Write` and `Read`. A call that sends a frame
-- is one step with the frame.
pub mod Closing
pub mod Conservation
pub mod Sending
pub mod Receiving
pub mod Arriving
pub mod Safety
use secure_access_relay.Common.{
  ℕ, zero, suc, ◌+◌, ◌<◌, Bool, true, false, Bytes, List, [], ◌∷◌, ◌++◌, ◌≡◌, length, u32_mod,
}
use secure_access_relay.Common.Except.{ok}
use secure_access_relay.Proto.Reason.{Reason}
use secure_access_relay.Mux.Stream.{
  Stream, new_stream, write_round, write_frame, read, read_bytes, deliver, grant_credit, close_with,
  reset, remote_close, kill, finished,
}

-- STREAM_DATA and CLOSE_STREAM, on their way to the receiver.
pub data Forward : Type 0 where
  data_of : Bytes → Forward
  closing : Reason → Forward

-- STREAM_WINDOW and CLOSE_STREAM, on their way to the sender.
pub data Backward : Type 0 where
  credit_of : ℕ → Backward
  closing_back : Reason → Backward

pub record Link : Type 0 where
  pub sender : Stream
  pub receiver : Stream
  pub forward : List Forward
  pub backward : List Backward
  pub written : Bytes
  pub consumed : Bytes

unfoldable pub new_link : ℕ → ℕ → Link
unfolding new_stream
new_link id window = record {
  sender = new_stream id window;
  receiver = new_stream id window;
  forward = [];
  backward = [];
  written = [];
  consumed = [];
}

-- `Read` sends a STREAM_WINDOW only for a credit above zero.
abbrev pub credit_frame : ℕ → List Backward
credit_frame zero = []
credit_frame (suc c) = credit_of (suc c) ∷ []

-- A frame, if the method asks for it.
abbrev pub if_sent {ℓ} : {A : Type ℓ} → A → Bool → List A
if_sent x true = x ∷ []
if_sent x false = []

-- What can happen next, in any order: the two ends and the connection are independent. Either end may
-- close or reset the stream, and lose it with its session; a sender that is finished is forgotten, and
-- may miss a credit.
pub data Step (max_frame threshold : ℕ) : Link → Link → Type 0 where
  send :
      {l : Link} {t : Stream} {b : Bytes} (p : Bytes)
      → 0 < length p
      → length p < u32_mod
      → write_round max_frame p l.sender ≡ (t, write_frame b)
      → Step max_frame threshold l
          (record l { sender = t; forward = l.forward ++ data_of b ∷ []; written = l.written ++ b })
  arrive :
      {l : Link} {r : Stream} {b : Bytes} {rest : List Forward}
      → l.forward ≡ data_of b ∷ rest
      → deliver b l.receiver ≡ ok r
      → Step max_frame threshold l (record l { receiver = r; forward = rest })
  consume :
      {l : Link} {r : Stream} {got : Bytes} {c : ℕ} (len : ℕ)
      → read threshold len l.receiver ≡ (r, read_bytes got c)
      → Step max_frame threshold l (record l {
        receiver = r;
        backward = l.backward ++ credit_frame c;
        consumed = l.consumed ++ got;
      })
  credit :
      {l : Link} {c : ℕ} {rest : List Backward}
      → l.backward ≡ credit_of c ∷ rest
      → Step max_frame threshold l (record l { sender = grant_credit c l.sender; backward = rest })
  ignored :
      {l : Link} {c : ℕ} {rest : List Backward}
      → l.backward ≡ credit_of c ∷ rest
      → finished l.sender ≡ true
      → Step max_frame threshold l (record l { backward = rest })
  sender_closes :
      {l : Link} (r : Reason)
      → Step max_frame threshold l (record l {
        sender = (close_with l.sender).0;
        forward = l.forward ++ if_sent (closing r) (close_with l.sender).1;
      })
  sender_resets :
      {l : Link} (r : Reason)
      → Step max_frame threshold l (record l {
        sender = (reset r l.sender).0;
        forward = l.forward ++ if_sent (closing r) (reset r l.sender).1;
      })
  sender_killed :
      {l : Link} (r : Reason) → Step max_frame threshold l (record l { sender = kill r l.sender })
  close_arrives :
      {l : Link} {r : Reason} {rest : List Forward}
      → l.forward ≡ closing r ∷ rest
      → Step max_frame threshold l
          (record l { receiver = remote_close r l.receiver; forward = rest })
  receiver_closes :
      {l : Link} (r : Reason)
      → Step max_frame threshold l (record l {
        receiver = (close_with l.receiver).0;
        backward = l.backward ++ if_sent (closing_back r) (close_with l.receiver).1;
      })
  receiver_resets :
      {l : Link} (r : Reason)
      → Step max_frame threshold l (record l {
        receiver = (reset r l.receiver).0;
        backward = l.backward ++ if_sent (closing_back r) (reset r l.receiver).1;
      })
  receiver_killed :
      {l : Link} (r : Reason)
      → Step max_frame threshold l (record l { receiver = kill r l.receiver })
  close_returns :
      {l : Link} {r : Reason} {rest : List Backward}
      → l.backward ≡ closing_back r ∷ rest
      → Step max_frame threshold l (record l { sender = remote_close r l.sender; backward = rest })

pub data Reach (max_frame threshold : ℕ) (from : Link) : Link → Type 0 where
  here : Reach max_frame threshold from from
  next :
      {l m : Link}
      → Reach max_frame threshold from l
      → Step max_frame threshold l m
      → Reach max_frame threshold from m
