-- ===== src/Mux/Flow/Closing.antt =====
-- What the methods that end a stream leave as it was, and the frames that they send
-- (internal/mux/stream.go).
use secure_access_relay.Common.{
  ℕ, zero, suc, ◌+◌, Bytes, Bool, true, false, Bool-cases, List, [], ◌∷◌, ◌++◌, ◌≡◌, refl, sym, ap,
  ◌∙◌, length, length-append, append_assoc, arith, ◌⊎◌, ◌||◌, inl, inr,
}
use secure_access_relay.Proto.Reason.{Reason}
use secure_access_relay.Mux.Stream.{
  Stream, write_round, write_frame, close_with, reset, remote_close, kill, finished, is_failure,
}
use secure_access_relay.Mux.Flow.{
  Forward, data_of, closing, Backward, credit_of, closing_back, if_sent, credit_frame,
}

-- The bytes of the data frames, in order.
abbrev pub payload : List Forward → Bytes
payload [] = []
payload (data_of b ∷ fs) = b ++ payload fs
payload (closing r ∷ fs) = payload fs

-- Those behind the first CLOSE_STREAM.
abbrev pub behind_close : List Forward → Bytes
behind_close [] = []
behind_close (data_of b ∷ fs) = behind_close fs
behind_close (closing r ∷ fs) = payload fs

abbrev pub has_close : List Forward → Bool
has_close [] = false
has_close (data_of b ∷ fs) = has_close fs
has_close (closing r ∷ fs) = true

abbrev pub granted : List Backward → ℕ
granted [] = 0
granted (credit_of c ∷ fs) = c + granted fs
granted (closing_back r ∷ fs) = granted fs

pub granted-append : (xs ys : List Backward) → granted (xs ++ ys) ≡ granted xs + granted ys
granted-append [] ys = omega arith
granted-append (credit_of c ∷ xs) ys = omega (arith, granted-append xs ys)
granted-append (closing_back r ∷ xs) ys = granted-append xs ys

pub granted-credit_frame : (c : ℕ) → granted (credit_frame c) ≡ c
granted-credit_frame zero = refl
granted-credit_frame (suc c) = omega arith

pub granted-if_sent : (r : Reason) (b : Bool) → granted (if_sent (closing_back r) b) ≡ 0
granted-if_sent r true = refl
granted-if_sent r false = refl

pub payload-append : (xs ys : List Forward) → payload (xs ++ ys) ≡ payload xs ++ payload ys
payload-append [] ys = refl
payload-append (data_of b ∷ xs) ys =
    ap (λ t. b ++ t) (payload-append xs ys) ∙ sym (append_assoc b (payload xs) (payload ys))
payload-append (closing r ∷ xs) ys = payload-append xs ys

pub behind_close-le : (fs : List Forward) → length (payload fs) ≡ 0 → length (behind_close fs) ≡ 0
behind_close-le [] e = refl
behind_close-le (data_of b ∷ fs) e =
    behind_close-le fs (omega (arith, length-append b (payload fs), e))
behind_close-le (closing r ∷ fs) e = e

-- Data that follows no CLOSE_STREAM is behind none.
pub behind_close-data :
    (fs : List Forward) (b : Bytes)
    → has_close fs ≡ false
    → (length (behind_close (fs ++ data_of b ∷ [])) ≡ 0)
      × (has_close (fs ++ data_of b ∷ []) ≡ false)
behind_close-data [] b e = (refl, refl)
behind_close-data (data_of x ∷ fs) b e = behind_close-data fs b e
behind_close-data (closing r ∷ fs) b e = absurd (cc e)

-- What a method that ends the stream sends: nothing, or one CLOSE_STREAM.
pub behind_close-if_sent :
    (fs : List Forward) (r : Reason) (b : Bool)
    → (payload (fs ++ if_sent (closing r) b) ≡ payload fs)
      × (length (behind_close fs) ≡ 0 → length (behind_close (fs ++ if_sent (closing r) b)) ≡ 0)
      × (has_close (fs ++ if_sent (closing r) b) ≡ true → (has_close fs ≡ true) ⊎ (b ≡ true))
behind_close-if_sent [] r true = (refl, λ e. refl, λ h. inr refl)
behind_close-if_sent [] r false = (refl, λ e. refl, λ h. inl h)
behind_close-if_sent (data_of x ∷ fs) r b =
    let (p, q, h) = behind_close-if_sent fs r b in (ap (λ t. x ++ t) p, q, h)
behind_close-if_sent (closing x ∷ fs) r b =
    let (p, q, h) = behind_close-if_sent fs r b in (p, λ e. ap length p ∙ e, λ k. inl refl)

-- The sender has as much credit as before, and is not more open.
pub record SenderKept (s t : Stream) : Type 0 where
  pub window : t.send_window ≡ s.send_window
  pub closes : s.local_closed ≡ true → t.local_closed ≡ true
  pub finishes : finished t ≡ false → finished s ≡ false

pub close_with-SenderKept :
    (s : Stream)
    → SenderKept s (close_with s).0
      × ((close_with s).1 ≡ true → (close_with s).0.local_closed ≡ true)
unfolding close_with finished
close_with-SenderKept s =
    (record { window = ground arith; closes = ground arith; finishes = ground arith }, ground arith)

pub reset-SenderKept :
    (r : Reason) (s : Stream)
    → SenderKept s (reset r s).0 × ((reset r s).1 ≡ true → (reset r s).0.local_closed ≡ true)
unfolding reset finished
reset-SenderKept r s =
    (record { window = ground arith; closes = ground arith; finishes = ground arith }, ground arith)

pub kill-SenderKept : (r : Reason) (s : Stream) → SenderKept s (kill r s)
unfolding kill finished
kill-SenderKept r s = record {
  window = ground arith;
  closes = ground arith;
  finishes = ground arith;
}

pub remote_close-SenderKept : (r : Reason) (s : Stream) → SenderKept s (remote_close r s)
unfolding remote_close finished
remote_close-SenderKept r s = record {
  window = ground arith;
  closes = ground arith;
  finishes = ground arith;
}

-- A sender that sends data is open before and after.
pub write_round-open :
    (m : ℕ) (p : Bytes) (s t : Stream) (b : Bytes)
    → write_round m p s ≡ (t, write_frame b)
    → (s.local_closed ≡ false) × (t.local_closed ≡ false) × (finished t ≡ finished s)
unfolding write_round finished
write_round-open m p s t b e = ground arith

-- The receiver is as it was, or it was reset, and what waited may be gone.
pub record ReceiverKept (s t : Stream) : Type 0 where
  pub window : t.recv_window ≡ s.recv_window
  pub pending : t.pending_credit ≡ s.pending_credit
  pub buffered : (t.buf ≡ s.buf) ⊎ ((t.buf ≡ []) × (t.is_reset ≡ true))
  pub resets : t.is_reset ≡ false → (s.is_reset ≡ false) × (t.remote_closed ≡ s.remote_closed)

pub close_with-ReceiverKept : (s : Stream) → ReceiverKept s (close_with s).0
unfolding close_with
close_with-ReceiverKept s = elim (Bool-cases (s.local_closed || s.is_reset)) [
  | inl e ↦
      rw e (record { window = refl; pending = refl; buffered = inl refl; resets = λ h. (h, refl) })
  | inr e ↦
      rw e (record { window = refl; pending = refl; buffered = inl refl; resets = λ h. (h, refl) })
]

pub reset-ReceiverKept : (r : Reason) (s : Stream) → ReceiverKept s (reset r s).0
unfolding reset
reset-ReceiverKept r s = elim (Bool-cases s.is_reset) [
  | inl e ↦
      rw e (record { window = refl; pending = refl; buffered = inl refl; resets = λ h. (h, refl) })
  | inr e ↦
      rw e (record { window = refl; pending = refl; buffered = inr (refl, refl); resets = λ h. cc })
]

pub kill-ReceiverKept : (r : Reason) (s : Stream) → ReceiverKept s (kill r s)
unfolding kill
kill-ReceiverKept r s = elim (Bool-cases s.is_reset) [
  | inl e ↦
      rw e (record { window = refl; pending = refl; buffered = inl refl; resets = λ h. (h, refl) })
  | inr e ↦ rw e (record { window = refl; pending = refl; buffered = inl refl; resets = λ h. cc })
]

-- The end of the peer's data, in good order or not.
pub record IsEnded (s t : Stream) : Type 0 where
  pub window : t.recv_window ≡ s.recv_window
  pub pending : t.pending_credit ≡ s.pending_credit
  pub buffered : (t.buf ≡ s.buf) ⊎ ((t.buf ≡ []) × (t.is_reset ≡ true))
  pub resets : t.is_reset ≡ false → s.is_reset ≡ false

pub remote_close-IsEnded : (r : Reason) (s : Stream) → IsEnded s (remote_close r s)
unfolding remote_close
remote_close-IsEnded r s = elim (Bool-cases (s.remote_closed || s.is_reset)) [
  | inl e ↦ rw e (record { window = refl; pending = refl; buffered = inl refl; resets = λ h. h })
  | inr e ↦ elim (Bool-cases (is_failure r)) [
    | inl f ↦
        rw (e, f)
          (record { window = refl; pending = refl; buffered = inr (refl, refl); resets = λ h. cc })
    | inr f ↦
        rw (e, f) (record { window = refl; pending = refl; buffered = inl refl; resets = λ h. h })
  ]
]
