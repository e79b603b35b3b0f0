-- ===== src/Mux/Stream/Writing.antt =====
-- What `Write` of internal/mux/stream.go sends.
use secure_access_relay.Common.{
  ℕ, ◌+◌, ◌<◌, ◌≤◌, Bytes, List, [], ◌∷◌, ◌++◌, length, length-take, drop, take-append-drop,
  u32_mod, ◌≡◌, arith, none, some, All, false, ◌||◌, true,
}
use secure_access_relay.Mux.Stream.{
  Stream, WriteResult, write_frame, write_blocked, write_closed, write_reset, Written, write_round,
  chunk_size,
}

-- The bytes of the frames, in order.
abbrev pub sent : List Bytes → Bytes
sent [] = []
sent (b ∷ bs) = b ++ sent bs

-- A frame takes at least a byte, and no more than the window, the frame limit and what is left.
chunk_size_bounds :
    (max_frame window left : ℕ)
    → 0 < max_frame
    → 0 < window
    → window < u32_mod
    → 0 < left
    → left < u32_mod
    → let n = chunk_size max_frame window left in
      (0 < n) × (n ≤ left) × (n ≤ window) × (n ≤ max_frame)
unfolding chunk_size
chunk_size_bounds m w l hm hw hu hl hk = ground arith

-- One round, when it sends a frame.
pub round_sends :
    (m : ℕ) (p : Bytes) (s t : Stream) (b : Bytes)
    → 0 < m
    → s.send_window < u32_mod
    → 0 < length p
    → length p < u32_mod
    → write_round m p s ≡ (t, write_frame b)
    → (0 < length b)
      × (length b ≤ length p)
      × (length b ≤ m)
      × (length b + t.send_window ≡ s.send_window)
      × (b ++ drop (length b) p ≡ p)
unfolding write_round
round_sends m p s t b hm hs hp hu e =
    let n = chunk_size m s.send_window (length p) in
    ground
      (arith, chunk_size_bounds m s.send_window (length p), length-take n p, take-append-drop n p)

-- Why a round sends nothing, of the stream `s` before and `t` after the rounds: the stream was reset,
-- for this reason, or this end has closed it, or no credit is left.
abbrev pub Stops : Stream → Stream → WriteResult → Type 0
Stops s t write_blocked = (s.is_reset ≡ false) × (s.local_closed ≡ false) × (t.send_window ≡ 0)
Stops s t write_closed = (s.is_reset ≡ false) × (s.local_closed ≡ true)
Stops s t (write_reset r) = (s.is_reset ≡ true) × (r ≡ s.reset_reason)
Stops s t (write_frame b) = ⊥

-- What a call of `Write` has done when it returns or waits.
pub record IsWritten (m : ℕ) (p : Bytes) (s : Stream) (w : Written) : Type 0 where
  pub in_order : sent w.frames ++ w.left ≡ p
  pub sized : All (λ b. (0 < length b) × (length b ≤ m)) w.frames
  pub within_credit : length (sent w.frames) + w.stream.send_window ≡ s.send_window
  pub complete : w.refused ≡ none → w.left ≡ []
  pub stops : (r : WriteResult) → w.refused ≡ some r → Stops s w.stream r
  pub ended : s.is_reset || s.local_closed ≡ true → w.frames ≡ []
