-- ===== src/Proto/Handshake.antt =====
-- internal/proto/handshake.go: the payloads of HELLO, HELLO_ACK, AUTH, AUTH_OK and STREAM_WINDOW.
pub mod RoundTrip
pub mod Auths
use secure_access_relay.Common.{
  ℕ, ◌+◌, Bool, Bytes, ltb, leb, ◌==◌, not, ◌||◌, if◌then◌else◌, be16, be32, of_be16, of_be32, take,
  drop, length, List, [], ◌∷◌, ◌++◌,
}
use secure_access_relay.Common.Except.{ok, err, ◌>>=◌}
use secure_access_relay.Proto.Frame.{Result, malformed_frame, panicked, max_frame_payload}

-- `Role`, a byte that need be no known role.
abbrev pub role_agent : ℕ
role_agent = 1

abbrev pub role_operator : ℕ
role_operator = 2

unfoldable pub known_role : ℕ → Bool
known_role r = r == role_agent || r == role_operator

abbrev pub max_identity_len : ℕ
max_identity_len = 128

pub record Hello : Type 0 where
  pub min_version : ℕ
  pub max_version : ℕ
  pub role : ℕ

unfoldable pub encode_hello : Hello → Bytes
encode_hello h = h.min_version ∷ h.max_version ∷ h.role ∷ 0 ∷ []

unfoldable pub decode_hello : Bytes → Result Hello
unfolding known_role
decode_hello (lo ∷ hi ∷ role ∷ _ ∷ []) =
    if ltb hi lo
    then err malformed_frame
    else if not (known_role role)
    then err malformed_frame
    else ok (record { min_version = lo; max_version = hi; role = role })
decode_hello _ = err malformed_frame

pub record HelloAck : Type 0 where
  pub version : ℕ
  pub max_frame_payload : ℕ
  pub initial_window : ℕ
  pub max_streams : ℕ

unfoldable pub encode_hello_ack : HelloAck → Bytes
encode_hello_ack a =
    a.version ∷ (be32 a.max_frame_payload ++ (be32 a.initial_window ++ be32 a.max_streams))

check_hello_ack : HelloAck → Result HelloAck
check_hello_ack a =
    if a.max_frame_payload == 0 || ltb max_frame_payload a.max_frame_payload
    then err malformed_frame
    else if a.initial_window == 0
    then err malformed_frame
    else if a.max_streams == 0
    then err malformed_frame
    else ok a

unfoldable pub decode_hello_ack : Bytes → Result HelloAck
unfolding check_hello_ack
decode_hello_ack (v ∷ a ∷ b ∷ c ∷ d ∷ e ∷ f ∷ g ∷ h ∷ i ∷ j ∷ k ∷ l ∷ []) =
    check_hello_ack (record {
      version = v;
      max_frame_payload = of_be32 a b c d;
      initial_window = of_be32 e f g h;
      max_streams = of_be32 i j k l;
    })
decode_hello_ack _ = err malformed_frame

-- The length prefix is `uint16(len(s))`.
unfoldable pub append_string : Bytes → Bytes → Bytes
append_string dst s = dst ++ (be16 (length s) ++ s)

unfoldable pub take_string : Bytes → Result (Bytes × Bytes)
take_string [] = err malformed_frame
take_string (a ∷ []) = err malformed_frame
take_string (a ∷ b ∷ rest) =
    let n = of_be16 a b in
    if ltb max_identity_len n
    then err malformed_frame
    else if ltb (length rest) n
    then err malformed_frame
    else ok (take n rest, drop n rest)

pub record Auth : Type 0 where
  pub device_id : Bytes
  pub user_id : Bytes
  pub resource : Bytes

unfoldable pub encode_auth : Auth → Bytes
unfolding append_string
encode_auth a = append_string (append_string (append_string [] a.device_id) a.user_id) a.resource

-- `ok` of the value if nothing is left behind it.
abbrev pub at_end {ℓ} : {A : Type ℓ} → A → Bytes → Result A
at_end a [] = ok a
at_end a (b ∷ bs) = err malformed_frame

unfoldable pub decode_auth : Bytes → Result Auth
unfolding take_string
decode_auth b = do
  (device_id, b₁) ← take_string b
  (user_id, b₂) ← take_string b₁
  (resource, b₃) ← take_string b₂
  at_end (record { device_id = device_id; user_id = user_id; resource = resource }) b₃

-- `AuthOK` has one field, the session's identifier.
unfoldable pub encode_auth_ok : Bytes → Bytes
unfolding append_string
encode_auth_ok session_id = append_string [] session_id

unfoldable pub decode_auth_ok : Bytes → Result Bytes
unfolding take_string
decode_auth_ok b = do (session_id, rest) ← take_string b; at_end session_id rest

unfoldable pub encode_window : ℕ → Bytes
encode_window credit = be32 credit

unfoldable pub decode_window : Bytes → Result ℕ
decode_window (a ∷ b ∷ c ∷ d ∷ []) =
    let credit = of_be32 a b c d in if credit == 0 then err malformed_frame else ok credit
decode_window _ = err malformed_frame
