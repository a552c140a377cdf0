-- ===== src/Wire/Ioctl.antt =====
-- The Ioctl request and response, with data of a variable size (vci_proxy/protocol.py).
use gds2_automation.Base.{
  ℕ, ◌+◌, ◌≡◌, refl, inl, inr, Bool, true, ◌&&◌, Option, none, some, List, [], ◌∷◌, ◌++◌, arith,
  ltb, nat_eq, string_eq, pair_eq, if◌then◌else◌, Bool-cases, Result, ok, err, struct_error, ◌>>=◌,
  length, take, drop, take_all,
}
use gds2_automation.Wire.Pack.{Bytes, is_u32, pack_words}
use gds2_automation.Wire.Frame.{
  MsgType, frame, exchange, exchange-frame, ioctl_req, ioctl_rsp, header_size, all_u32, words,
  pack_words_lem,
}
use gds2_automation.Wire.Fixed.{first2, first3, first2-words, first3-words}

-- `input_data if input_data else b""`
abbrev pub bytes_or_empty : Option Bytes → Bytes
bytes_or_empty none = []
bytes_or_empty (some bs) = bs

unfoldable pub encode_ioctl_req : ℕ → ℕ → Option Bytes → ℕ → Result Bytes
encode_ioctl_req channel_id ioctl_id input_data seq =
    let input = bytes_or_empty input_data in
    do
      head ← pack_words (channel_id ∷ ioctl_id ∷ length input ∷ [])
      frame ioctl_req seq (head ++ input)

-- A length of 0 stands for no data; a body that is cut off gives the bytes that are there.
abbrev pub sized : ℕ → Bytes → Option Bytes
sized size behind = if ltb 0 size then some (take size behind) else none

unfoldable pub decode_ioctl_req : Bytes → Result (ℕ × ℕ × Option Bytes)
decode_ioctl_req body = do
  (channel_id, ioctl_id, input_len) ← first3 body
  ok (channel_id, ioctl_id, sized input_len (drop 12 body))

unfoldable pub encode_ioctl_rsp : ℕ → Option Bytes → ℕ → Result Bytes
encode_ioctl_rsp return_code output_data seq =
    let output = bytes_or_empty output_data in
    do head ← pack_words (return_code ∷ length output ∷ []); frame ioctl_rsp seq (head ++ output)

unfoldable pub decode_ioctl_rsp : Bytes → Result (ℕ × Option Bytes)
decode_ioctl_rsp body = do
  (return_code, output_len) ← first2 body
  ok (return_code, sized output_len (drop 8 body))

-- No data and empty data are the same on the wire.
abbrev pub nonempty : Option Bytes → Option Bytes
nonempty none = none
nonempty (some []) = none
nonempty (some (b ∷ bs)) = some (b ∷ bs)

sized-all : (o : Option Bytes) → sized (length (bytes_or_empty o)) (bytes_or_empty o) ≡ nonempty o
sized-all none = refl
sized-all (some []) = refl
sized-all (some (b ∷ bs)) = ground (arith, take_all (length bs) bs (omega arith))

abbrev pub ioctl_sendable : List ℕ → Option Bytes → ℕ → Bool
ioctl_sendable ws o seq =
    all_u32 ws && (is_u32 (header_size + length (words ws ++ bytes_or_empty o)) && is_u32 seq)

exchange-ioctl {ℓ} :
    {A : Type ℓ} (t : MsgType) (ws : List ℕ) (o : Option Bytes) (seq : ℕ)
    (decode : Bytes → Result A) (a : A)
    → (all_u32 ws ≡ true → decode (words ws ++ bytes_or_empty o) ≡ ok a)
    → exchange (do head ← pack_words ws; frame t seq (head ++ bytes_or_empty o)) decode
      ≡ (if ioctl_sendable ws o seq then ok a else err struct_error)
exchange-ioctl t ws o seq decode a h = elim (Bool-cases (all_u32 ws)) [
  | inr n ↦ unfold exchange in rw (pack_words_lem ws, n)
  | inl y ↦
      rw (pack_words_lem ws, y)
        (rw (exchange-frame t seq (words ws ++ bytes_or_empty o) decode) (rw (h y)))
]

-- The bodies of a request and of a response.
abbrev pub ioctl_req_body : ℕ → ℕ → Option Bytes → Bytes
ioctl_req_body ch i o = words (ch ∷ i ∷ length (bytes_or_empty o) ∷ []) ++ bytes_or_empty o

abbrev pub ioctl_rsp_body : ℕ → Option Bytes → Bytes
ioctl_rsp_body rc o = words (rc ∷ length (bytes_or_empty o) ∷ []) ++ bytes_or_empty o

pub decode-ioctl_req_body :
    (ch i : ℕ) (o : Option Bytes)
    → all_u32 (ch ∷ i ∷ length (bytes_or_empty o) ∷ []) ≡ true
    → decode_ioctl_req (ioctl_req_body ch i o) ≡ ok (ch, i, nonempty o)
unfolding decode_ioctl_req
decode-ioctl_req_body ch i o y =
    rw (first3-words ch i (length (bytes_or_empty o)) (bytes_or_empty o) y) (rw (sized-all o))

pub decode-ioctl_rsp_body :
    (rc : ℕ) (o : Option Bytes)
    → all_u32 (rc ∷ length (bytes_or_empty o) ∷ []) ≡ true
    → decode_ioctl_rsp (ioctl_rsp_body rc o) ≡ ok (rc, nonempty o)
unfolding decode_ioctl_rsp
decode-ioctl_rsp_body rc o y =
    rw (first2-words rc (length (bytes_or_empty o)) (bytes_or_empty o) y) (rw (sized-all o))

-- An Ioctl request is decoded to its channel, its id and its input, where empty input arrives as
-- none; encoding raises `struct.error` exactly when a word, the frame's length or the sequence
-- number is no 32-bit number.
pub ioctl_req_round_trip :
    (channel_id ioctl_id seq : ℕ) (input : Option Bytes)
    → exchange (encode_ioctl_req channel_id ioctl_id input seq) decode_ioctl_req ≡ (
        if ioctl_sendable (channel_id ∷ ioctl_id ∷ length (bytes_or_empty input) ∷ []) input seq
        then ok (channel_id, ioctl_id, nonempty input)
        else err struct_error)
unfolding encode_ioctl_req
ioctl_req_round_trip ch i seq o =
    exchange-ioctl ioctl_req (ch ∷ i ∷ length (bytes_or_empty o) ∷ []) o seq decode_ioctl_req _
      (decode-ioctl_req_body ch i o)

-- An Ioctl response is decoded to its return code and its output, where empty output arrives as
-- none; encoding raises `struct.error` exactly when a word, the frame's length or the sequence
-- number is no 32-bit number.
pub ioctl_rsp_round_trip :
    (return_code seq : ℕ) (output : Option Bytes)
    → exchange (encode_ioctl_rsp return_code output seq) decode_ioctl_rsp ≡ (
        if ioctl_sendable (return_code ∷ length (bytes_or_empty output) ∷ []) output seq
        then ok (return_code, nonempty output)
        else err struct_error)
unfolding encode_ioctl_rsp
ioctl_rsp_round_trip rc seq o =
    exchange-ioctl ioctl_rsp (rc ∷ length (bytes_or_empty o) ∷ []) o seq decode_ioctl_rsp _
      (decode-ioctl_rsp_body rc o)
