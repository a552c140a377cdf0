-- ===== src/Wire/Frame.antt =====
-- Frames: the message types, `Message.encode` and `Message.decode_header` (vci_proxy/protocol.py).
use gds2_automation.Base.{
  ℕ, ◌+◌, ◌*◌, ◌<◌, ◌≡◌, refl, inl, inr, Bool, true, not, ◌&&◌, List, [], ◌∷◌, ◌++◌, arith, ltb,
  nat_eq, string_eq, pair_eq, if◌then◌else◌, Bool-cases, Result, ok, err, struct_error, value_error,
  ◌>>=◌, require, length, take, drop,
}
use gds2_automation.Wire.Pack.{
  Bytes, is_u16, is_u32, bytes2, bytes4, pack_u16, pack_u32, pack_words, word,
}

-- MAGIC and HEADER_SIZE
abbrev pub magic : ℕ
magic = 0x4a325334

abbrev pub header_size : ℕ
header_size = 14

pub data MsgType : Type 0 where
  open_req close_req connect_req disconnect_req read_msgs_req write_msgs_req ioctl_req : MsgType
  start_filter_req stop_filter_req read_version_req get_last_error_req : MsgType
  ping_req auth_req heartbeat : MsgType
  open_rsp close_rsp connect_rsp disconnect_rsp read_msgs_rsp write_msgs_rsp ioctl_rsp : MsgType
  start_filter_rsp stop_filter_rsp read_version_rsp get_last_error_rsp : MsgType
  ping_rsp auth_rsp heartbeat_ack : MsgType

-- The integer value of a member of the `IntEnum`.
unfoldable pub code : MsgType → ℕ
code open_req = 0x0001
code close_req = 0x0002
code connect_req = 0x0003
code disconnect_req = 0x0004
code read_msgs_req = 0x0005
code write_msgs_req = 0x0006
code ioctl_req = 0x0007
code start_filter_req = 0x0010
code stop_filter_req = 0x0011
code read_version_req = 0x0020
code get_last_error_req = 0x0021
code ping_req = 0x00fc
code auth_req = 0x00fe
code heartbeat = 0x00ff
code open_rsp = 0x8001
code close_rsp = 0x8002
code connect_rsp = 0x8003
code disconnect_rsp = 0x8004
code read_msgs_rsp = 0x8005
code write_msgs_rsp = 0x8006
code ioctl_rsp = 0x8007
code start_filter_rsp = 0x8010
code stop_filter_rsp = 0x8011
code read_version_rsp = 0x8020
code get_last_error_rsp = 0x8021
code ping_rsp = 0x80fc
code auth_rsp = 0x80fe
code heartbeat_ack = 0x80ff

pub record Message : Type 0 where
  pub msg_type : ℕ
  pub sequence : ℕ
  pub body : Bytes

-- struct.pack(">IIHI", …)
unfoldable pub pack_header : ℕ → ℕ → ℕ → ℕ → Result Bytes
pack_header m l t s = do
  mb ← pack_u32 m
  lb ← pack_u32 l
  tb ← pack_u16 t
  sb ← pack_u32 s
  ok (mb ++ (lb ++ (tb ++ sb)))

-- struct.unpack(">IIHI", …)
unfoldable pub unpack_header : Bytes → Result (ℕ × ℕ × ℕ × ℕ)
unfolding word
unpack_header (a ∷ b ∷ c ∷ d ∷ e ∷ f ∷ g ∷ h ∷ i ∷ j ∷ k ∷ l ∷ m ∷ n ∷ []) =
    ok (word a b c d, word e f g h, i * 256 + j, word k l m n)
unpack_header _ = err struct_error

-- Message.encode
unfoldable pub encode : Message → Result Bytes
encode msg = do
  header ← pack_header magic (header_size + length msg.body) msg.msg_type msg.sequence
  ok (header ++ msg.body)

-- Message.decode_header
unfoldable pub decode_header : Bytes → Result (ℕ × ℕ × ℕ × ℕ)
decode_header bs =
    if ltb (length bs) header_size then err value_error else unpack_header (take header_size bs)

-- The frames that `struct.pack` accepts.
unfoldable pub fits : Message → Bool
fits msg = is_u32 (header_size + length msg.body) && (is_u16 msg.msg_type && is_u32 msg.sequence)

abbrev pub header_of : Message → Bytes
header_of msg =
    bytes4 magic
    ++ (bytes4 (header_size + length msg.body) ++ (bytes2 msg.msg_type ++ bytes4 msg.sequence))

pub encode_lem :
    (msg : Message)
    → encode msg ≡ (if fits msg then ok (header_of msg ++ msg.body) else err struct_error)
unfolding encode pack_header pack_u32 pack_u16 fits
encode_lem msg = ground arith

pub decode_header-header_of :
    (msg : Message)
    → fits msg ≡ true
    → decode_header (header_of msg ++ msg.body)
      ≡ ok (magic, header_size + length msg.body, msg.msg_type, msg.sequence)
unfolding decode_header unpack_header fits word
decode_header-header_of msg h = ground arith

-- What the receiver reads back from a frame that was sent: the header's fields and the body.
unfoldable pub received : Bytes → Result (ℕ × ℕ × ℕ × ℕ × Bytes)
received frame = do (m, l, t, s) ← decode_header frame; ok (m, l, t, s, drop header_size frame)

-- Encoding a message and reading the frame back gives the magic, the frame's length, the type, the
-- sequence number and the body; a field that its format cannot hold raises `struct.error` instead.
pub received-encode :
    (msg : Message)
    → (encode msg >>= received) ≡ (
        if fits msg
        then ok (magic, header_size + length msg.body, msg.msg_type, msg.sequence, msg.body)
        else err struct_error)
unfolding received
received-encode msg = elim (Bool-cases (fits msg)) [
  | inl y ↦ rw (encode_lem, y) (rw (decode_header-header_of msg y))
  | inr n ↦ rw (encode_lem, n)
]

-- Sending a frame and decoding its body with one of the body decoders.
unfoldable pub exchange {ℓ} : {A : Type ℓ} → Result Bytes → (Bytes → Result A) → Result A
exchange sent decode = do frame ← sent; decode (drop header_size frame)

pub exchange-encode {ℓ} :
    {A : Type ℓ} (msg : Message) (decode : Bytes → Result A)
    → exchange (encode msg) decode ≡ (if fits msg then decode msg.body else err struct_error)
unfolding exchange
exchange-encode msg decode = elim (Bool-cases (fits msg)) [
  | inl y ↦ rw (encode_lem, y)
  | inr n ↦ rw (encode_lem, n)
]

-- `Message(MsgType.…, sequence, body).encode()`
unfoldable pub frame : MsgType → ℕ → Bytes → Result Bytes
frame t seq body = encode (record { msg_type = code t; sequence = seq; body = body })

-- The same behind `body = struct.pack(">I…", …)`.
unfoldable pub frame_words : MsgType → ℕ → List ℕ → Result Bytes
unfolding frame
frame_words t seq ws = do body ← pack_words ws; frame t seq body

-- ProtocolDecoder._check_min_len
unfoldable pub check_min_len : Bytes → ℕ → Result (Unit {0})
check_min_len body n = require (not (ltb (length body) n)) value_error

pub code-u16 : (t : MsgType) → is_u16 (code t) ≡ true
unfolding code
code-u16 open_req = refl
code-u16 _ = refl

abbrev pub all_u32 : List ℕ → Bool
all_u32 [] = true
all_u32 (v ∷ vs) = is_u32 v && all_u32 vs

abbrev pub words : List ℕ → Bytes
words [] = []
words (v ∷ vs) = bytes4 v ++ words vs

pub pack_words_lem :
    (ws : List ℕ) → pack_words ws ≡ (if all_u32 ws then ok (words ws) else err struct_error)
unfolding pack_words pack_u32
pack_words_lem [] = refl
pack_words_lem (v ∷ vs) = ground (arith, pack_words_lem vs)

pub length-words : (ws : List ℕ) → length (words ws) ≡ 4 * length ws
length-words [] = refl
length-words (w ∷ ws) = omega (arith, length-words ws)

-- A frame is sent exactly when its sequence number and its length fit, whatever its type.
pub exchange-frame {ℓ} :
    {A : Type ℓ} (t : MsgType) (seq : ℕ) (body : Bytes) (decode : Bytes → Result A)
    → exchange (frame t seq body) decode
      ≡ (if is_u32 (header_size + length body) && is_u32 seq then decode body else err struct_error)
unfolding frame
exchange-frame t seq body decode = rw exchange-encode (unfold fits in ground (arith, code-u16 t))

pub exchange-frame_words {ℓ} :
    {A : Type ℓ} (t : MsgType) (seq : ℕ) (ws : List ℕ) (decode : Bytes → Result A)
    → length ws < 1000
    → exchange (frame_words t seq ws) decode
      ≡ (if all_u32 ws && is_u32 seq then decode (words ws) else err struct_error)
unfolding frame_words
exchange-frame_words t seq ws decode h = elim (Bool-cases (all_u32 ws)) [
  | inl y ↦ rw (pack_words_lem, y) (rw exchange-frame (ground (arith, length-words ws)))
  | inr n ↦ unfold exchange in rw (pack_words_lem, n)
]
