-- ===== src/Wire/Messages.antt =====
-- The bodies that hold a list of J2534 messages: ReadMsgs responses and WriteMsgs requests
-- (vci_proxy/protocol.py).
pub mod Bounds
use gds2_automation.Base.{
  ℕ, zero, suc, ◌+◌, ◌-◌, ◌≡◌, refl, inl, inr, Bool, true, false, ◌&&◌, Option, none, some, List,
  [], ◌∷◌, ◌++◌, map, append-nil, append_assoc, arith, ltb, nat_eq, string_eq, pair_eq,
  if◌then◌else◌, Bool-cases, Result, ok, err, struct_error, ◌>>=◌, ◌>>◌, length, take, drop,
  length-append, take-append_length, drop-append_length,
}
use gds2_automation.Wire.Pack.{Bytes, is_u32, unpack5, pack_words, word-bytes4}
use gds2_automation.Wire.Frame.{
  MsgType, frame, exchange, exchange-frame, check_min_len, read_msgs_rsp, write_msgs_req,
  header_size, all_u32, words, pack_words_lem, length-words,
}
use gds2_automation.Wire.Fixed.{first2, first3, first2-words, first3-words}

-- A J2534 message as a dict whose keys may be missing.
pub record MsgDict : Type 0 where
  pub protocol_id : Option ℕ
  pub rx_status : Option ℕ
  pub tx_flags : Option ℕ
  pub timestamp : Option ℕ
  pub payload : Option Bytes

-- msg.get(key, 0)
abbrev pub or_zero : Option ℕ → ℕ
or_zero none = 0
or_zero (some v) = v

-- msg.get("data", b"")
abbrev pub or_empty : Option Bytes → Bytes
or_empty none = []
or_empty (some bs) = bs

abbrev pub msg_words : MsgDict → List ℕ
msg_words m =
    or_zero m.protocol_id
    ∷ or_zero m.rx_status
    ∷ or_zero m.tx_flags
    ∷ or_zero m.timestamp
    ∷ length (or_empty m.payload)
    ∷ []

-- The head of five words and the data of one message.
unfoldable pub encode_msg : MsgDict → Result Bytes
encode_msg m = do head ← pack_words (msg_words m); ok (head ++ or_empty m.payload)

-- `for msg in messages: body += …`
unfoldable pub encode_msgs : List MsgDict → Result Bytes
encode_msgs [] = ok []
encode_msgs (m ∷ ms) = do b ← encode_msg m; bs ← encode_msgs ms; ok (b ++ bs)

unfoldable pub encode_read_msgs_rsp : ℕ → List MsgDict → ℕ → Result Bytes
encode_read_msgs_rsp return_code messages seq = do
  head ← pack_words (return_code ∷ length messages ∷ [])
  tail ← encode_msgs messages
  frame read_msgs_rsp seq (head ++ tail)

unfoldable pub encode_write_msgs_req : ℕ → List MsgDict → ℕ → ℕ → Result Bytes
encode_write_msgs_req channel_id messages timeout seq = do
  head ← pack_words (channel_id ∷ length messages ∷ timeout ∷ [])
  tail ← encode_msgs messages
  frame write_msgs_req seq (head ++ tail)

-- The message that the decoder builds from a head and the bytes behind it: every key is set.
unfoldable pub decoded_msg : ℕ × ℕ × ℕ × ℕ × ℕ → Bytes → MsgDict
decoded_msg (protocol_id, rx_status, tx_flags, timestamp, data_size) behind = record {
  protocol_id = some protocol_id;
  rx_status = some rx_status;
  tx_flags = some tx_flags;
  timestamp = some timestamp;
  payload = some (take data_size behind);
}

-- The decoding loop, for the rounds left; `rest` is `body[offset:]`, so `offset + n > len(body)` is
-- `len(rest) < n`. The tests break out of the loop with the messages read so far.
unfoldable pub decode_msgs : ℕ → Bytes → Result (List MsgDict)
unfolding decoded_msg
decode_msgs zero rest = ok []
decode_msgs (suc n) rest =
    let more = do
      head ← unpack5 (take 20 rest)
      let behind = drop 20 rest
      let after = do ms ← decode_msgs n (drop head.4 behind); ok (decoded_msg head behind ∷ ms)
      if ltb (length behind) head.4 then ok [] else after
    in if ltb (length rest) 20 then ok [] else more

unfoldable pub decode_read_msgs_rsp : Bytes → Result (ℕ × List MsgDict)
decode_read_msgs_rsp body = do
  (return_code, num_msgs) ← first2 body
  messages ← decode_msgs num_msgs (drop 8 body)
  ok (return_code, messages)

unfoldable pub decode_write_msgs_req : Bytes → Result (ℕ × List MsgDict × ℕ)
decode_write_msgs_req body = do
  (channel_id, num_msgs, timeout) ← first3 body
  messages ← decode_msgs num_msgs (drop 12 body)
  ok (channel_id, messages, timeout)

-- What a message arrives as: the defaults of the missing keys are written out.
abbrev pub complete : MsgDict → MsgDict
complete m = record {
  protocol_id = some (or_zero m.protocol_id);
  rx_status = some (or_zero m.rx_status);
  tx_flags = some (or_zero m.tx_flags);
  timestamp = some (or_zero m.timestamp);
  payload = some (or_empty m.payload);
}

unfoldable pub msg_bytes : MsgDict → Bytes
msg_bytes m = words (msg_words m) ++ or_empty m.payload

unfoldable pub msg_fits : MsgDict → Bool
msg_fits m = all_u32 (msg_words m)

unfoldable pub msgs_bytes : List MsgDict → Bytes
msgs_bytes [] = []
msgs_bytes (m ∷ ms) = msg_bytes m ++ msgs_bytes ms

unfoldable pub msgs_fit : List MsgDict → Bool
msgs_fit [] = true
msgs_fit (m ∷ ms) = msg_fits m && msgs_fit ms

pub encode_msg_lem :
    (m : MsgDict) → encode_msg m ≡ (if msg_fits m then ok (msg_bytes m) else err struct_error)
unfolding encode_msg msg_fits msg_bytes
encode_msg_lem m = elim (Bool-cases (all_u32 (msg_words m))) [
  | inl y ↦ rw (pack_words_lem (msg_words m), y)
  | inr n ↦ rw (pack_words_lem (msg_words m), n)
]

pub encode_msgs_lem :
    (ms : List MsgDict)
    → encode_msgs ms ≡ (if msgs_fit ms then ok (msgs_bytes ms) else err struct_error)
unfolding encode_msgs msgs_fit msgs_bytes
encode_msgs_lem [] = refl
encode_msgs_lem (m ∷ ms) = ground (arith, encode_msg_lem m, encode_msgs_lem ms)

pub unpack5-words :
    (a b c d e : ℕ) (rest : Bytes)
    → all_u32 (a ∷ b ∷ c ∷ d ∷ e ∷ []) ≡ true
    → unpack5 (take 20 (words (a ∷ b ∷ c ∷ d ∷ e ∷ []) ++ rest)) ≡ ok (a, b, c, d, e)
unfolding unpack5
unpack5-words a b c d e rest h =
    ground (arith, word-bytes4 a, word-bytes4 b, word-bytes4 c, word-bytes4 d, word-bytes4 e)

not_short : (data' rest : Bytes) → ltb (length (data' ++ rest)) (length data') ≡ false
not_short data' rest = ground (arith, length-append data' rest)

long_enough :
    (a b c d e : ℕ) (rest : Bytes)
    → ltb (length (words (a ∷ b ∷ c ∷ d ∷ e ∷ []) ++ rest)) 20 ≡ false
long_enough a b c d e rest = ground arith

round :
    (n a b c d : ℕ) (data' rest : Bytes)
    → all_u32 (a ∷ b ∷ c ∷ d ∷ length data' ∷ []) ≡ true
    → decode_msgs (suc n) (words (a ∷ b ∷ c ∷ d ∷ length data' ∷ []) ++ (data' ++ rest)) ≡ (do
      ms ← decode_msgs n rest
      ok (
          record {
            protocol_id = some a;
            rx_status = some b;
            tx_flags = some c;
            timestamp = some d;
            payload = some data';
          }
          ∷ ms))
unfolding decode_msgs
round n a b c d data' rest h = rw (unpack5-words a b c d (length data') (data' ++ rest) h) (
    rw (long_enough a b c d (length data') (data' ++ rest), not_short data' rest)
      (simp (drop-append_length, take-append_length)))

pub decode_msgs-msg_bytes :
    (n : ℕ) (m : MsgDict) (rest : Bytes)
    → msg_fits m ≡ true
    → decode_msgs (suc n) (msg_bytes m ++ rest) ≡ (do ms ← decode_msgs n rest; ok (complete m ∷ ms))
unfolding msg_fits msg_bytes
decode_msgs-msg_bytes n m rest h = round n _ _ _ _ (or_empty m.payload) rest h

-- What was encoded is read back by as many rounds as there were messages, whatever follows.
pub decode_msgs-msgs_bytes :
    (ms : List MsgDict) (rest : Bytes)
    → msgs_fit ms ≡ true
    → decode_msgs (length ms) (msgs_bytes ms ++ rest) ≡ ok (map complete ms)
unfolding msgs_fit msgs_bytes
decode_msgs-msgs_bytes [] rest h = unfold decode_msgs in refl
decode_msgs-msgs_bytes (m ∷ ms) rest h = rw (append_assoc (msg_bytes m) (msgs_bytes ms) rest) (
    rw (decode_msgs-msg_bytes (length ms) m (msgs_bytes ms ++ rest) (ground arith))
      (rw (decode_msgs-msgs_bytes ms rest (ground arith))))

decode_msgs-msgs_bytes_all :
    (ms : List MsgDict)
    → msgs_fit ms ≡ true
    → decode_msgs (length ms) (msgs_bytes ms) ≡ ok (map complete ms)
decode_msgs-msgs_bytes_all ms h = rw (← append-nil (msgs_bytes ms)) (decode_msgs-msgs_bytes ms [] h)

-- The frames of messages that `struct.pack` accepts: the count, every head, the frame's length and
-- the sequence number are 32-bit numbers.
abbrev pub sendable : List ℕ → List MsgDict → ℕ → Bool
sendable ws ms seq =
    all_u32 ws
    && msgs_fit ms
    && (is_u32 (header_size + length (words ws ++ msgs_bytes ms)) && is_u32 seq)

pub exchange-packed {ℓ} :
    {A : Type ℓ} (t : MsgType) (ws : List ℕ) (ms : List MsgDict) (seq : ℕ)
    (decode : Bytes → Result A) (a : A)
    → (all_u32 ws ≡ true → msgs_fit ms ≡ true → decode (words ws ++ msgs_bytes ms) ≡ ok a)
    → exchange (do head ← pack_words ws; tail ← encode_msgs ms; frame t seq (head ++ tail)) decode
      ≡ (if sendable ws ms seq then ok a else err struct_error)
exchange-packed t ws ms seq decode a h = elim (Bool-cases (all_u32 ws)) [
  | inr n ↦ unfold exchange in rw (pack_words_lem ws, n)
  | inl y ↦
      rw (pack_words_lem ws, y)
        (elim (Bool-cases (msgs_fit ms)) [
          | inr n ↦ unfold exchange in rw (encode_msgs_lem ms, n)
          | inl z ↦
              rw (encode_msgs_lem ms, z)
                (rw (exchange-frame t seq (words ws ++ msgs_bytes ms) decode) (rw (h y z)))
        ])
]

-- A ReadMsgs response is decoded to its return code and its messages, with the defaults of missing
-- keys written out; encoding raises `struct.error` exactly when the frame is not `sendable`.
pub read_msgs_rsp_round_trip :
    (return_code seq : ℕ) (ms : List MsgDict)
    → exchange (encode_read_msgs_rsp return_code ms seq) decode_read_msgs_rsp ≡ (
        if sendable (return_code ∷ length ms ∷ []) ms seq
        then ok (return_code, map complete ms)
        else err struct_error)
unfolding encode_read_msgs_rsp decode_read_msgs_rsp
read_msgs_rsp_round_trip rc seq ms =
    exchange-packed read_msgs_rsp (rc ∷ length ms ∷ []) ms seq decode_read_msgs_rsp
      (rc, map complete ms)
      (λ y z.
        rw (first2-words rc (length ms) (msgs_bytes ms) y) (rw (decode_msgs-msgs_bytes_all ms z)))

-- A WriteMsgs request is decoded to its channel, its messages and its timeout, with the defaults of
-- missing keys written out; encoding raises `struct.error` exactly when the frame is not `sendable`.
pub write_msgs_req_round_trip :
    (channel_id timeout seq : ℕ) (ms : List MsgDict)
    → exchange (encode_write_msgs_req channel_id ms timeout seq) decode_write_msgs_req ≡ (
        if sendable (channel_id ∷ length ms ∷ timeout ∷ []) ms seq
        then ok (channel_id, map complete ms, timeout)
        else err struct_error)
unfolding encode_write_msgs_req decode_write_msgs_req
write_msgs_req_round_trip ch t seq ms =
    exchange-packed write_msgs_req (ch ∷ length ms ∷ t ∷ []) ms seq decode_write_msgs_req
      (ch, map complete ms, t)
      (λ y z.
        rw (first3-words ch (length ms) t (msgs_bytes ms) y) (rw (decode_msgs-msgs_bytes_all ms z)))
