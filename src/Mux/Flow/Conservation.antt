-- ===== src/Mux/Flow/Conservation.antt =====
-- Flow control of internal/mux/stream.go: credit is not made up, and none is lost while the stream is
-- open; no byte is lost before the receiver's end is reset.
use secure_access_relay.Common.{
  ℕ, ◌+◌, ◌-◌, ◌<◌, ◌≤◌, Bytes, true, false, [], ◌++◌, ◌≡◌, refl, length, length-drop,
  take-append-drop, u32, u32_mod, arith, ◌||◌,
}
use secure_access_relay.Common.Except.{ok}
use secure_access_relay.Mux.Stream.{Stream, read, read_bytes, deliver, grant_credit, finished}
use secure_access_relay.Mux.Flow.{Link, new_link}
use secure_access_relay.Mux.Flow.Closing.{payload, behind_close, has_close, granted}

-- The credit the sender has, the bytes under way, those that wait to be read, and the credit that is
-- held back or under way.
abbrev pub total : Link → ℕ
total l =
    l.sender.send_window
    + length (payload l.forward)
    + length l.receiver.buf
    + l.receiver.pending_credit
    + granted l.backward

pub record Inv (window threshold : ℕ) (l : Link) : Type 0 where
  pub window_lt : window < u32_mod
  pub threshold_pos : 0 < threshold
  pub bounded : total l ≤ window
  pub conserved : l.receiver.is_reset ≡ false → finished l.sender ≡ false → total l ≡ window
  pub room : l.receiver.recv_window + length l.receiver.buf ≤ window
  pub reclaimed :
      l.receiver.is_reset ≡ false → l.receiver.recv_window + length l.receiver.buf ≡ window
  pub held_back : l.receiver.pending_credit < threshold
  pub behind : length (behind_close l.forward) ≡ 0
  pub announced : has_close l.forward ≡ true → l.sender.local_closed ≡ true
  pub drained :
      l.receiver.is_reset ≡ false
      → l.receiver.remote_closed ≡ true
      → (length (payload l.forward) ≡ 0) × (l.sender.local_closed ≡ true)
  pub lossless :
      l.receiver.is_reset ≡ false → l.consumed ++ (l.receiver.buf ++ payload l.forward) ≡ l.written
  pub prefix : (lost : Bytes) × (l.consumed ++ (l.receiver.buf ++ lost) ≡ l.written)

pub new_link-Inv :
    (id window threshold : ℕ)
    → window < u32_mod
    → 0 < threshold
    → Inv window threshold (new_link id window)
unfolding new_link
new_link-Inv id window threshold h k = record {
  window_lt = h;
  threshold_pos = k;
  bounded = omega arith;
  conserved = λ _ _. omega arith;
  room = omega arith;
  reclaimed = λ _. omega arith;
  held_back = k;
  behind = refl;
  announced = λ e. cc;
  drained = λ _ e. cc;
  lossless = λ _. refl;
  prefix = ([], refl);
}

-- A `Read` that gives bytes takes them from the front of the buffer and accounts for them.
pub read_accounts :
    (window threshold len : ℕ) (s r : Stream) (got : Bytes) (c : ℕ)
    → window < u32_mod
    → 0 < threshold
    → s.recv_window + length s.buf ≤ window
    → s.pending_credit + length s.buf ≤ window
    → s.pending_credit < threshold
    → read threshold len s ≡ (r, read_bytes got c)
    → (got ++ r.buf ≡ s.buf)
      × (r.recv_window ≡ s.recv_window + length got)
      × (r.pending_credit + c ≡ s.pending_credit + length got)
      × (r.pending_credit < threshold)
      × (r.is_reset ≡ s.is_reset)
      × (r.remote_closed ≡ s.remote_closed)
unfolding read
read_accounts window threshold len s r got c hw ht hr hp hh e =
    ground (arith, take-append-drop len s.buf, length-drop len s.buf)

pub deliver-late :
    (b : Bytes) (s : Stream) → s.is_reset || s.remote_closed ≡ true → deliver b s ≡ ok s
unfolding deliver
deliver-late b s e = rw e refl

-- A frame that is delivered fits the window, and is added behind what waits.
pub delivered :
    (b : Bytes) (s : Stream)
    → s.is_reset ≡ false
    → s.remote_closed ≡ false
    → length b ≤ s.recv_window
    → s.recv_window < u32_mod
    → (r : Stream) × (deliver b s ≡ ok r)
      × (r.buf ≡ s.buf ++ b)
      × (r.recv_window + length b ≡ s.recv_window)
      × (r.pending_credit ≡ s.pending_credit)
      × (r.is_reset ≡ false)
      × (r.remote_closed ≡ false)
unfolding deliver
delivered b s o c h l = (
  record s { recv_window = u32 (s.recv_window + u32_mod - u32 (length b)); buf = s.buf ++ b },
  ground arith,
  refl,
  ground arith,
  refl,
  o,
  c,
)

pub grant_credit-adds :
    (c : ℕ) (s : Stream)
    → s.send_window + c < u32_mod
    → ((grant_credit c s).send_window ≡ s.send_window + c)
      × ((grant_credit c s).local_closed ≡ s.local_closed)
      × (finished (grant_credit c s) ≡ finished s)
unfolding grant_credit finished
grant_credit-adds c s h = ground arith
