-- ===== src/Proto/Codec/Reads.antt =====
-- What a read takes from the connection (internal/proto/codec.go).
use secure_access_relay.Common.{
  ℕ, ◌≤◌, ◌<◌, Bytes, IsBytes, List, [], ◌∷◌, ◌++◌, ◌≡◌, refl, ap, sym, ◌∙◌, arith, length,
  length-append, take-length, drop-length, append_assoc, take-append-drop, length-take, zero, suc,
  All, u32_mod, Bool-cases, inl, inr, ◌==◌, All-split, append-nil,
}
use secure_access_relay.Common.Except.{ok, err, >>=-eq-ok, Except-cases}
use secure_access_relay.Proto.Frame.{
  FrameType, Frame, Header, Result, encode_header, decode_header, header_size, ProtoError,
}
use secure_access_relay.Proto.Frame.Headers.{decode-encode, encode-decode}
use secure_access_relay.Proto.Codec.{
  Input, Reader, read_full, read_payload, read_body, read_frame, frame_of, frame_bytes,
}

abbrev pub input_of : Bytes → ProtoError → Input
input_of b e = record { arriving = b; ending = e }

abbrev pub reader_of : Bytes → ProtoError → ℕ → Reader
reader_of b e max = record { input = input_of b e; max = max }

pub read_full-append :
    (n : ℕ) (xs ys : Bytes) (e : ProtoError)
    → length xs ≡ n
    → read_full n (input_of (xs ++ ys) e) ≡ ok (xs, input_of ys e)
unfolding read_full
read_full-append n xs ys e h =
    ground (arith, length-append xs ys, rw h at (take-length xs ys), rw h at (drop-length xs ys))

pub length-encode_header : (t : FrameType) (id len : ℕ) → length (encode_header t id len) ≡ 10
unfolding encode_header
length-encode_header t id len = refl

abbrev pub Fits : ℕ → Frame → Type 0
Fits max f = (f.stream_id < u32_mod) × (length f.payload < u32_mod) × (length f.payload ≤ max)

read_payload-append :
    (xs ys : Bytes) (e : ProtoError)
    → read_payload (length xs) (input_of (xs ++ ys) e) ≡ ok (xs, input_of ys e)
unfolding read_payload
read_payload-append xs ys e = rw (read_full-append (length xs) xs ys e refl, read_payload) refl

read_body-append :
    (r : Reader) (h : Header) (xs ys : Bytes) (e : ProtoError)
    → h.len ≡ length xs
    → read_body r h (input_of (xs ++ ys) e) ≡ ok (frame_of h xs, record r { input = input_of ys e })
unfolding read_body
read_body-append r h [] ys e p = rw (p, read_body) refl
read_body-append r h (x ∷ xs) ys e p =
    rw (p, read_payload-append (x ∷ xs) ys e, read_body) (ground arith)

header_then :
    (f : Frame) (rest : Bytes) (e : ProtoError)
    → read_full header_size (input_of (frame_bytes f ++ rest) e)
      ≡ ok (encode_header f.type f.stream_id (length f.payload), input_of (f.payload ++ rest) e)
header_then f rest e =
    rw (append_assoc (encode_header f.type f.stream_id (length f.payload)) f.payload rest)
      (read_full-append header_size _ (f.payload ++ rest) e (length-encode_header _ _ _))

-- A frame that was written is read back, and what follows it is left in place.
pub read_frame-frame_bytes :
    (f : Frame) (rest : Bytes) (e : ProtoError) (max : ℕ)
    → Fits max f
    → read_frame (reader_of (frame_bytes f ++ rest) e max) ≡ ok (f, reader_of rest e max)
unfolding read_frame
read_frame-frame_bytes f rest e max (hi, hl, hm) =
    let d = decode-encode f.type f.stream_id (length f.payload) max [] hi hl hm in
    let d' = rw (append-nil (encode_header f.type f.stream_id (length f.payload))) at d in
    rw (header_then f rest e, d', read_frame)
      (read_body-append (reader_of (frame_bytes f ++ rest) e max)
        (record { type = f.type; stream_id = f.stream_id; len = length f.payload }) f.payload rest e
        refl)

-- Reads one frame after another, until an error.
abbrev pub read_frames : ℕ → Reader → List Frame × Result Reader
read_frames zero r = ([], ok r)
read_frames (suc n) r = elim (read_frame r) [
  | err e ↦ ([], err e)
  | ok (f, r') ↦ let (fs, last) = read_frames n r' in (f ∷ fs, last)
]

abbrev pub stream_bytes : List Frame → Bytes
stream_bytes [] = []
stream_bytes (f ∷ fs) = frame_bytes f ++ stream_bytes fs

-- Frames written one after another are read back in their order, and then the connection's own
-- end is reported.
pub read_frames-stream_bytes :
    (fs : List Frame) (e : ProtoError) (max : ℕ)
    → All (Fits max) fs
    → read_frames (length fs) (reader_of (stream_bytes fs) e max) ≡ (fs, ok (reader_of [] e max))
read_frames-stream_bytes [] e max h = refl
read_frames-stream_bytes (f ∷ fs) e max (hf, h) =
    rw (read_frame-frame_bytes f (stream_bytes fs) e max hf, read_frames)
      (rw (read_frames-stream_bytes fs e max h) refl)

read_full-of_ok :
    (n : ℕ) (inp rest : Input) (b : Bytes)
    → read_full n inp ≡ ok (b, rest)
    → (inp.arriving ≡ b ++ rest.arriving) × (length b ≡ n) × (rest.ending ≡ inp.ending)
unfolding read_full
read_full-of_ok n inp rest b h =
    ground (arith, take-append-drop n inp.arriving, length-take n inp.arriving)

read_payload-of_ok :
    (n : ℕ) (inp rest : Input) (b : Bytes)
    → read_payload n inp ≡ ok (b, rest)
    → read_full n inp ≡ ok (b, rest)
unfolding read_payload
read_payload-of_ok n inp rest b h = elim (Except-cases (read_full n inp)) [
  | inl (a, e) ↦ e ∙ (rw (e, read_payload) at h)
  | inr (x, e) ↦ absurd (ground arith)
]

read_body-of_ok :
    (r r' : Reader) (h : Header) (inp : Input) (f : Frame)
    → read_body r h inp ≡ ok (f, r')
    → (f ≡ frame_of h f.payload)
      × (length f.payload ≡ h.len)
      × (inp.arriving ≡ f.payload ++ r'.input.arriving)
      × (r'.max ≡ r.max)
unfolding read_body
read_body-of_ok r r' h inp f e = elim (Bool-cases (h.len == 0)) [
  | inl z ↦ (ground arith, ground arith, ground arith, ground arith)
  | inr nz ↦
      let ((b, rest), p, q) = >>=-eq-ok (read_payload h.len inp) _ (rw (nz, read_body) at e) in
      let g = read_full-of_ok h.len inp rest b (read_payload-of_ok h.len inp rest b p) in
      (ground arith, ground arith, ground arith, ground arith)
]

no_rest : (xs ys : Bytes) → length (xs ++ ys) ≡ length xs → ys ≡ []
no_rest xs [] h = refl
no_rest xs (y ∷ ys) h = absurd (omega (arith, length-append xs (y ∷ ys)))

-- A header of ten bytes is the encoding of what was read, with nothing behind it.
header_exact :
    (header rest : Bytes) (h : Header)
    → length header ≡ header_size
    → header ≡ encode_header h.type h.stream_id h.len ++ rest
    → header ≡ encode_header h.type h.stream_id h.len
header_exact header rest h len e =
    let none_left =
      no_rest (encode_header h.type h.stream_id h.len) rest
        (ap length (sym e) ∙ len ∙ sym (length-encode_header h.type h.stream_id h.len)) in
    e
    ∙ ap (◌++◌ (encode_header h.type h.stream_id h.len)) none_left
    ∙ append-nil (encode_header h.type h.stream_id h.len)

frame_bytes-join :
    (f : Frame) (h : Header) (whole header inp rest : Bytes)
    → whole ≡ header ++ inp
    → header ≡ encode_header h.type h.stream_id h.len
    → f ≡ frame_of h f.payload
    → length f.payload ≡ h.len
    → inp ≡ f.payload ++ rest
    → whole ≡ frame_bytes f ++ rest
frame_bytes-join f h whole header inp rest e₁ e₂ e₃ e₄ e₅ =
    e₁ ∙ cc (append_assoc (encode_header f.type f.stream_id (length f.payload)) f.payload rest)

-- A frame that was read is exactly the bytes taken from the connection, and its payload is within
-- the limit of the reader.
pub frame_bytes-read_frame :
    (r r' : Reader) (f : Frame)
    → IsBytes r.input.arriving
    → read_frame r ≡ ok (f, r')
    → (r.input.arriving ≡ frame_bytes f ++ r'.input.arriving)
      × (length f.payload ≤ r.max)
      × (f.stream_id < u32_mod)
      × (r'.max ≡ r.max)
unfolding read_frame
frame_bytes-read_frame r r' f w e =
    let ((header, inp), p, q) = >>=-eq-ok (read_full header_size r.input) _ e in
    let (h, d, g) = >>=-eq-ok (decode_header header r.max) _ q in
    let full = read_full-of_ok header_size r.input inp header p in
    let body = read_body-of_ok r r' h inp f g in
    let bytes = All-split _ header inp.arriving (rw full.0 at w) in
    let (rest, enc, le, lt) = encode-decode header r.max h bytes.0 d in
    (
      frame_bytes-join f h _ header _ _ full.0 (header_exact header rest h full.1 enc) body.0 body.1
          body.2,
      ground arith,
      ground arith,
      ground arith,
    )
