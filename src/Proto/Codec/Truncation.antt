-- ===== src/Proto/Codec/Truncation.antt =====
-- A connection that ends inside a frame (internal/proto/codec.go, `ReadFrame`).
use secure_access_relay.Common.{
  ℕ, ◌≤◌, ◌<◌, Bytes, [], ◌∷◌, ◌++◌, ◌≡◌, ◌≢◌, refl, ap, arith, length, append-nil, ltb, inl, inr,
  ◌⊎◌, if◌then◌else◌, length-append,
}
use secure_access_relay.Common.Except.{err}
use secure_access_relay.Proto.Frame.{
  Frame, encode_header, ProtoError, eof, unexpected_eof, malformed_frame,
}
use secure_access_relay.Proto.Frame.Headers.{decode-encode}
use secure_access_relay.Proto.Codec.{read_full, read_payload, read_body, read_frame, frame_bytes}
use secure_access_relay.Proto.Codec.Reads.{
  Fits, reader_of, input_of, read_full-append, length-encode_header,
}

-- Two ways to cut one list: one of the first parts is the beginning of the other.
prefix_cases :
    (xs ys p q : Bytes)
    → xs ++ ys ≡ p ++ q
    → ((r : Bytes) × (p ≡ xs ++ r) × (ys ≡ r ++ q)) ⊎ (length p < length xs)
prefix_cases [] ys p q e = inl (p, refl, e)
prefix_cases (x ∷ xs) ys [] q e = inr (omega arith)
prefix_cases (x ∷ xs) ys (y ∷ p) q e = elim (prefix_cases xs ys p q (ground arith)) [
  | inl (r, a, b) ↦ inl (r, ground arith, b)
  | inr h ↦ inr (omega arith)
]

-- The error for the bytes of a frame that did arrive.
abbrev pub cut_error : Bytes → ProtoError
cut_error p =
    if ltb 0 (length p)
    then (if ltb (length p) 10 then unexpected_eof else malformed_frame)
    else eof

cut_late : (p : Bytes) → 10 ≤ length p → cut_error p ≡ malformed_frame
cut_late p h = ground arith

short_header :
    (p : Bytes) (max : ℕ) → length p < 10 → read_frame (reader_of p eof max) ≡ err (cut_error p)
unfolding read_frame read_full
short_header [] max h = refl
short_header (x ∷ p) max h = ground arith

short_payload :
    (n : ℕ) (p : Bytes) → length p < n → read_payload n (input_of p eof) ≡ err malformed_frame
unfolding read_payload read_full
short_payload n [] h = ground arith
short_payload n (x ∷ p) h = ground arith

positive : (q : Bytes) → q ≢ [] → 0 < length q
positive [] ne = absurd (ne refl)
positive (x ∷ q) ne = omega arith

short_body :
    (f : Frame) (r : Bytes) (max : ℕ)
    → Fits max f
    → length r < length f.payload
    → read_frame (reader_of (encode_header f.type f.stream_id (length f.payload) ++ r) eof max)
      ≡ err malformed_frame
unfolding read_frame read_body
short_body f r max (hi, hl, hm) short =
    let d = decode-encode f.type f.stream_id (length f.payload) max [] hi hl hm in
    let d' = rw (append-nil (encode_header f.type f.stream_id (length f.payload))) at d in
    let whole =
      read_full-append 10 _ r eof (length-encode_header f.type f.stream_id (length f.payload)) in
    rw (whole, d', short_payload (length f.payload) r short, read_frame) (ground arith)

-- When the connection ends cleanly inside a frame, no part of the frame is delivered: the read is
-- an end of file before the first byte, an unexpected one inside the header, and a malformed frame
-- inside the payload.
pub read_frame-truncated :
    (f : Frame) (p q : Bytes) (max : ℕ)
    → Fits max f
    → frame_bytes f ≡ p ++ q
    → q ≢ []
    → read_frame (reader_of p eof max) ≡ err (cut_error p)
unfolding read_frame
read_frame-truncated f p q max (hi, hl, hm) e ne =
    elim (prefix_cases (encode_header f.type f.stream_id (length f.payload)) f.payload p q e) [
      | inr short ↦
          short_header p max
            (omega (arith, length-encode_header f.type f.stream_id (length f.payload)))
      | inl (r, a, b) ↦
          let some_left : length r < length f.payload =
            omega (arith, ap length b, length-append r q, positive q ne) in
          let long : 10 ≤ length p = omega (
            arith,
            ap length a,
            length-append (encode_header f.type f.stream_id (length f.payload)) r,
            length-encode_header f.type f.stream_id (length f.payload),
          ) in
          rw (cut_late p long, a) (short_body f r max (hi, hl, hm) some_left)
    ]
