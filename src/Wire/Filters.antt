-- ===== src/Wire/Filters.antt =====
-- The StartFilter request, with its three optional messages (vci_proxy/protocol.py).
use gds2_automation.Base.{
  ℕ, ◌+◌, ◌≤◌, ◌≡◌, refl, inl, inr, Bool, true, false, not, ◌&&◌, Option, none, some, [], ◌∷◌, ◌++◌,
  append-nil, arith, ltb, ◌==◌, nat_eq, string_eq, pair_eq, if◌then◌else◌, Bool-cases, Result, ok,
  err, struct_error, value_error, ◌>>=◌, ◌>>◌, require, length, take, drop, length-append,
  take-append_length, drop-append_length,
}
use gds2_automation.Wire.Pack.{Bytes, word-bytes4, is_u32, unpack5, unpack2, pack_words}
use gds2_automation.Wire.Frame.{
  frame, exchange, exchange-frame, check_min_len, start_filter_req, header_size, all_u32, words,
  pack_words_lem,
}
use gds2_automation.Wire.Messages.{
  MsgDict, or_empty, encode_msg, encode_msg_lem, decoded_msg, complete, msg_bytes, msg_fits,
  unpack5-words,
}

-- One of the three optional messages: a presence byte, then the message if it is there.
unfoldable pub encode_slot : Option MsgDict → Result Bytes
encode_slot none = ok (0 ∷ [])
encode_slot (some m) = do b ← encode_msg m; ok (1 ∷ b)

unfoldable pub encode_start_filter_req :
    ℕ → ℕ → Option MsgDict → Option MsgDict → Option MsgDict → ℕ → Result Bytes
encode_start_filter_req channel_id filter_type mask_msg pattern_msg flow_control_msg seq = do
  head ← pack_words (channel_id ∷ filter_type ∷ [])
  mask ← encode_slot mask_msg
  pattern' ← encode_slot pattern_msg
  flow ← encode_slot flow_control_msg
  frame start_filter_req seq (head ++ (mask ++ (pattern' ++ flow)))

-- A present message, read from `body[offset:]`; a message that is cut off raises `ValueError`.
unfoldable pub decode_present : Bytes → Result (Option MsgDict × Bytes)
unfolding decoded_msg
decode_present rest = do
  require (not (ltb (length rest) 20)) value_error
  head ← unpack5 (take 20 rest)
  let behind = drop 20 rest
  require (not (ltb (length behind) head.4)) value_error
  ok (some (decoded_msg head behind), drop head.4 behind)

-- One round of the loop, on `body[offset:]`: past the end of the body the message is absent.
unfoldable pub decode_slot : Bytes → Result (Option MsgDict × Bytes)
decode_slot [] = ok (none, [])
decode_slot (present ∷ rest) = if present == 0 then ok (none, rest) else decode_present rest

unfoldable pub decode_start_filter_req :
    Bytes → Result (ℕ × ℕ × Option MsgDict × Option MsgDict × Option MsgDict)
unfolding check_min_len
decode_start_filter_req body = do
  check_min_len body 11
  (channel_id, filter_type) ← unpack2 (take 8 body)
  (mask, rest) ← decode_slot (drop 8 body)
  (pattern', rest') ← decode_slot rest
  (flow, rest'') ← decode_slot rest'
  ok (channel_id, filter_type, mask, pattern', flow)

-- What an optional message arrives as.
abbrev pub complete_slot : Option MsgDict → Option MsgDict
complete_slot none = none
complete_slot (some m) = some (complete m)

unfoldable pub slot_bytes : Option MsgDict → Bytes
slot_bytes none = 0 ∷ []
slot_bytes (some m) = 1 ∷ msg_bytes m

unfoldable pub slot_fits : Option MsgDict → Bool
slot_fits none = true
slot_fits (some m) = msg_fits m

encode_slot_lem :
    (s : Option MsgDict)
    → encode_slot s ≡ (if slot_fits s then ok (slot_bytes s) else err struct_error)
unfolding encode_slot slot_fits slot_bytes
encode_slot_lem none = refl
encode_slot_lem (some m) = ground (arith, encode_msg_lem m)

not_short : (data' rest : Bytes) → ltb (length (data' ++ rest)) (length data') ≡ false
not_short data' rest = ground (arith, length-append data' rest)

long_enough :
    (a b c d e : ℕ) (rest : Bytes)
    → ltb (length (words (a ∷ b ∷ c ∷ d ∷ e ∷ []) ++ rest)) 20 ≡ false
long_enough a b c d e rest = ground arith

present_lem :
    (a b c d : ℕ) (data' rest : Bytes)
    → all_u32 (a ∷ b ∷ c ∷ d ∷ length data' ∷ []) ≡ true
    → decode_present (words (a ∷ b ∷ c ∷ d ∷ length data' ∷ []) ++ (data' ++ rest))
      ≡ ok (
        some (record {
          protocol_id = some a;
          rx_status = some b;
          tx_flags = some c;
          timestamp = some d;
          payload = some data';
        }),
        rest,
      )
unfolding decode_present
present_lem a b c d data' rest h = rw (long_enough a b c d (length data') (data' ++ rest)) (
    rw (unpack5-words a b c d (length data') (data' ++ rest) h)
      (rw (not_short data' rest) (simp (drop-append_length, take-append_length))))

-- A slot is read back as what was written, and the rest of the body is left.
decode_slot-slot_bytes :
    (s : Option MsgDict) (rest : Bytes)
    → slot_fits s ≡ true
    → decode_slot (slot_bytes s ++ rest) ≡ ok (complete_slot s, rest)
unfolding slot_bytes slot_fits decode_slot
decode_slot-slot_bytes none rest h = refl
decode_slot-slot_bytes (some m) rest h =
    unfold msg_bytes msg_fits in present_lem _ _ _ _ (or_empty m.payload) rest h

-- The body of a request.
abbrev pub filter_body : ℕ → ℕ → Option MsgDict → Option MsgDict → Option MsgDict → Bytes
filter_body ch t a b c = words (ch ∷ t ∷ []) ++ (slot_bytes a ++ (slot_bytes b ++ slot_bytes c))

abbrev pub filter_sendable : ℕ → ℕ → Option MsgDict → Option MsgDict → Option MsgDict → ℕ → Bool
filter_sendable ch t a b c seq =
    all_u32 (ch ∷ t ∷ [])
    && (slot_fits a && (slot_fits b && slot_fits c))
    && (is_u32 (header_size + length (filter_body ch t a b c)) && is_u32 seq)

slot_long : (s : Option MsgDict) → 1 ≤ length (slot_bytes s)
unfolding slot_bytes
slot_long none = omega arith
slot_long (some m) = omega arith

long_body : (ch t : ℕ) (a b c : Option MsgDict) → ltb (length (filter_body ch t a b c)) 11 ≡ false
long_body ch t a b c = ground (
  arith,
  length-append (slot_bytes a) (slot_bytes b ++ slot_bytes c),
  length-append (slot_bytes b) (slot_bytes c),
  slot_long a,
  slot_long b,
  slot_long c,
)

unpack2-words : (a b : ℕ) → all_u32 (a ∷ b ∷ []) ≡ true → unpack2 (words (a ∷ b ∷ [])) ≡ ok (a, b)
unfolding unpack2
unpack2-words a b h = ground (arith, word-bytes4 a, word-bytes4 b)

last_slot :
    (s : Option MsgDict)
    → slot_fits s ≡ true
    → decode_slot (slot_bytes s) ≡ ok (complete_slot s, [])
last_slot s h = rw (← append-nil (slot_bytes s)) (decode_slot-slot_bytes s [] h)

decode-filter_body :
    (ch t : ℕ) (a b c : Option MsgDict)
    → all_u32 (ch ∷ t ∷ []) ≡ true
    → slot_fits a ≡ true
    → slot_fits b ≡ true
    → slot_fits c ≡ true
    → decode_start_filter_req (filter_body ch t a b c)
      ≡ ok (ch, t, complete_slot a, complete_slot b, complete_slot c)
unfolding decode_start_filter_req
decode-filter_body ch t a b c h ha hb hc = rw (long_body ch t a b c) (
    rw (unpack2-words ch t h) (
      rw (decode_slot-slot_bytes a (slot_bytes b ++ slot_bytes c) ha)
        (rw (decode_slot-slot_bytes b (slot_bytes c) hb) (rw (last_slot c hc)))))

-- A StartFilter request is decoded to its channel, its type and its three optional messages, with
-- the defaults of missing keys written out; encoding raises `struct.error` exactly when the frame is
-- not `filter_sendable`.
pub start_filter_req_round_trip :
    (ch t seq : ℕ) (mask pattern' flow : Option MsgDict)
    → exchange (encode_start_filter_req ch t mask pattern' flow seq) decode_start_filter_req ≡ (
        if filter_sendable ch t mask pattern' flow seq
        then ok (ch, t, complete_slot mask, complete_slot pattern', complete_slot flow)
        else err struct_error)
unfolding encode_start_filter_req
start_filter_req_round_trip ch t seq a b c = elim (Bool-cases (all_u32 (ch ∷ t ∷ []))) [
  | inr n ↦ unfold exchange in rw (pack_words_lem (ch ∷ t ∷ []), n)
  | inl y ↦
      rw (pack_words_lem (ch ∷ t ∷ []), y)
        (elim (Bool-cases (slot_fits a)) [
          | inr n ↦ unfold exchange in rw (encode_slot_lem a, n)
          | inl ya ↦
              rw (encode_slot_lem a, ya)
                (elim (Bool-cases (slot_fits b)) [
                  | inr n ↦ unfold exchange in rw (encode_slot_lem b, n)
                  | inl yb ↦
                      rw (encode_slot_lem b, yb)
                        (elim (Bool-cases (slot_fits c)) [
                          | inr n ↦ unfold exchange in rw (encode_slot_lem c, n)
                          | inl yc ↦
                              rw (encode_slot_lem c, yc)
                                (rw
                                  (exchange-frame start_filter_req seq (filter_body ch t a b c)
                                    decode_start_filter_req)
                                  (rw (decode-filter_body ch t a b c y ya yb yc)))
                        ])
                ])
        ])
]
