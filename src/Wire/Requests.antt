-- ===== src/Wire/Requests.antt =====
-- The requests whose bodies are a fixed number of words, or empty (vci_proxy/protocol.py).
use gds2_automation.Base.{
  ℕ, ◌≡◌, ◌&&◌, [], ◌∷◌, nat_eq, string_eq, pair_eq, if◌then◌else◌, Result, ok, err, struct_error,
}
use gds2_automation.Wire.Pack.{Bytes, is_u32}
use gds2_automation.Wire.Frame.{
  frame, frame_words, exchange, close_req, connect_req, disconnect_req, read_msgs_req,
  stop_filter_req, read_version_req, ping_req, heartbeat, all_u32,
}
use gds2_automation.Wire.Fixed.{
  first1, first2, first3, first4, exchange-first1, exchange-first2, exchange-first3,
  exchange-first4,
}

unfoldable pub encode_close_req : ℕ → ℕ → Result Bytes
encode_close_req device_id seq = frame_words close_req seq (device_id ∷ [])

unfoldable pub decode_close_req : Bytes → Result ℕ
decode_close_req body = first1 body

unfoldable pub encode_connect_req : ℕ → ℕ → ℕ → ℕ → ℕ → Result Bytes
encode_connect_req device_id protocol_id flags baudrate seq =
    frame_words connect_req seq (device_id ∷ protocol_id ∷ flags ∷ baudrate ∷ [])

unfoldable pub decode_connect_req : Bytes → Result (ℕ × ℕ × ℕ × ℕ)
decode_connect_req body = first4 body

unfoldable pub encode_disconnect_req : ℕ → ℕ → Result Bytes
encode_disconnect_req channel_id seq = frame_words disconnect_req seq (channel_id ∷ [])

unfoldable pub decode_disconnect_req : Bytes → Result ℕ
decode_disconnect_req body = first1 body

unfoldable pub encode_read_msgs_req : ℕ → ℕ → ℕ → ℕ → Result Bytes
encode_read_msgs_req channel_id num_msgs timeout seq =
    frame_words read_msgs_req seq (channel_id ∷ num_msgs ∷ timeout ∷ [])

unfoldable pub decode_read_msgs_req : Bytes → Result (ℕ × ℕ × ℕ)
decode_read_msgs_req body = first3 body

unfoldable pub encode_stop_filter_req : ℕ → ℕ → ℕ → Result Bytes
encode_stop_filter_req channel_id filter_id seq =
    frame_words stop_filter_req seq (channel_id ∷ filter_id ∷ [])

unfoldable pub decode_stop_filter_req : Bytes → Result (ℕ × ℕ)
decode_stop_filter_req body = first2 body

unfoldable pub encode_read_version_req : ℕ → ℕ → Result Bytes
encode_read_version_req device_id seq = frame_words read_version_req seq (device_id ∷ [])

unfoldable pub decode_read_version_req : Bytes → Result ℕ
decode_read_version_req body = first1 body

unfoldable pub encode_ping_req : ℕ → Result Bytes
encode_ping_req seq = frame ping_req seq []

unfoldable pub encode_heartbeat : ℕ → Result Bytes
encode_heartbeat seq = frame heartbeat seq []

-- Each request of a fixed size is decoded to the values that were encoded, and encoding raises
-- `struct.error` exactly when a value or the sequence number is no 32-bit number.
pub fixed_requests_round_trip :
    (a b c d seq : ℕ)
    → (exchange (encode_close_req a seq) decode_close_req
        ≡ (if all_u32 (a ∷ []) && is_u32 seq then ok a else err struct_error))
      × (exchange (encode_disconnect_req a seq) decode_disconnect_req
          ≡ (if all_u32 (a ∷ []) && is_u32 seq then ok a else err struct_error))
      × (exchange (encode_read_version_req a seq) decode_read_version_req
          ≡ (if all_u32 (a ∷ []) && is_u32 seq then ok a else err struct_error))
      × (exchange (encode_stop_filter_req a b seq) decode_stop_filter_req
          ≡ (if all_u32 (a ∷ b ∷ []) && is_u32 seq then ok (a, b) else err struct_error))
      × (exchange (encode_read_msgs_req a b c seq) decode_read_msgs_req
          ≡ (if all_u32 (a ∷ b ∷ c ∷ []) && is_u32 seq then ok (a, b, c) else err struct_error))
      × (exchange (encode_connect_req a b c d seq) decode_connect_req ≡ (
          if all_u32 (a ∷ b ∷ c ∷ d ∷ []) && is_u32 seq then ok (a, b, c, d) else err struct_error))
unfolding encode_close_req decode_close_req encode_disconnect_req decode_disconnect_req
    encode_read_version_req decode_read_version_req encode_stop_filter_req decode_stop_filter_req
    encode_read_msgs_req decode_read_msgs_req encode_connect_req decode_connect_req
fixed_requests_round_trip a b c d seq = (
  exchange-first1 close_req seq a,
  exchange-first1 disconnect_req seq a,
  exchange-first1 read_version_req seq a,
  exchange-first2 stop_filter_req seq a b,
  exchange-first3 read_msgs_req seq a b c,
  exchange-first4 connect_req seq a b c d,
)
