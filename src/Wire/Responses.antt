-- ===== src/Wire/Responses.antt =====
-- The responses whose bodies are a fixed number of words, or empty (vci_proxy/protocol.py).
use gds2_automation.Base.{
  ℕ, ◌≡◌, ◌&&◌, [], ◌∷◌, nat_eq, string_eq, pair_eq, if◌then◌else◌, Result, ok, err, struct_error,
}
use gds2_automation.Wire.Pack.{Bytes, is_u32}
use gds2_automation.Wire.Frame.{
  frame, frame_words, exchange, open_rsp, close_rsp, connect_rsp, disconnect_rsp, write_msgs_rsp,
  start_filter_rsp, stop_filter_rsp, ping_rsp, heartbeat_ack, all_u32,
}
use gds2_automation.Wire.Fixed.{first1, first2, exchange-first1, exchange-first2}

unfoldable pub encode_open_rsp : ℕ → ℕ → ℕ → Result Bytes
encode_open_rsp return_code device_id seq = frame_words open_rsp seq (return_code ∷ device_id ∷ [])

unfoldable pub decode_open_rsp : Bytes → Result (ℕ × ℕ)
decode_open_rsp body = first2 body

unfoldable pub encode_close_rsp : ℕ → ℕ → Result Bytes
encode_close_rsp return_code seq = frame_words close_rsp seq (return_code ∷ [])

unfoldable pub decode_close_rsp : Bytes → Result ℕ
decode_close_rsp body = first1 body

unfoldable pub encode_connect_rsp : ℕ → ℕ → ℕ → Result Bytes
encode_connect_rsp return_code channel_id seq =
    frame_words connect_rsp seq (return_code ∷ channel_id ∷ [])

unfoldable pub decode_connect_rsp : Bytes → Result (ℕ × ℕ)
decode_connect_rsp body = first2 body

unfoldable pub encode_disconnect_rsp : ℕ → ℕ → Result Bytes
encode_disconnect_rsp return_code seq = frame_words disconnect_rsp seq (return_code ∷ [])

unfoldable pub decode_disconnect_rsp : Bytes → Result ℕ
decode_disconnect_rsp body = first1 body

unfoldable pub encode_write_msgs_rsp : ℕ → ℕ → ℕ → Result Bytes
encode_write_msgs_rsp return_code num_written seq =
    frame_words write_msgs_rsp seq (return_code ∷ num_written ∷ [])

unfoldable pub decode_write_msgs_rsp : Bytes → Result (ℕ × ℕ)
decode_write_msgs_rsp body = first2 body

unfoldable pub encode_start_filter_rsp : ℕ → ℕ → ℕ → Result Bytes
encode_start_filter_rsp return_code filter_id seq =
    frame_words start_filter_rsp seq (return_code ∷ filter_id ∷ [])

unfoldable pub decode_start_filter_rsp : Bytes → Result (ℕ × ℕ)
decode_start_filter_rsp body = first2 body

unfoldable pub encode_stop_filter_rsp : ℕ → ℕ → Result Bytes
encode_stop_filter_rsp return_code seq = frame_words stop_filter_rsp seq (return_code ∷ [])

unfoldable pub decode_stop_filter_rsp : Bytes → Result ℕ
decode_stop_filter_rsp body = first1 body

unfoldable pub encode_ping_rsp : ℕ → Result Bytes
encode_ping_rsp seq = frame ping_rsp seq []

unfoldable pub encode_heartbeat_ack : ℕ → Result Bytes
encode_heartbeat_ack seq = frame heartbeat_ack seq []

-- Each response of a fixed size is decoded to the values that were encoded, and encoding raises
-- `struct.error` exactly when a value or the sequence number is no 32-bit number.
pub fixed_responses_round_trip :
    (a b seq : ℕ)
    → (exchange (encode_close_rsp a seq) decode_close_rsp
        ≡ (if all_u32 (a ∷ []) && is_u32 seq then ok a else err struct_error))
      × (exchange (encode_disconnect_rsp a seq) decode_disconnect_rsp
          ≡ (if all_u32 (a ∷ []) && is_u32 seq then ok a else err struct_error))
      × (exchange (encode_stop_filter_rsp a seq) decode_stop_filter_rsp
          ≡ (if all_u32 (a ∷ []) && is_u32 seq then ok a else err struct_error))
      × (exchange (encode_open_rsp a b seq) decode_open_rsp
          ≡ (if all_u32 (a ∷ b ∷ []) && is_u32 seq then ok (a, b) else err struct_error))
      × (exchange (encode_connect_rsp a b seq) decode_connect_rsp
          ≡ (if all_u32 (a ∷ b ∷ []) && is_u32 seq then ok (a, b) else err struct_error))
      × (exchange (encode_write_msgs_rsp a b seq) decode_write_msgs_rsp
          ≡ (if all_u32 (a ∷ b ∷ []) && is_u32 seq then ok (a, b) else err struct_error))
      × (exchange (encode_start_filter_rsp a b seq) decode_start_filter_rsp
          ≡ (if all_u32 (a ∷ b ∷ []) && is_u32 seq then ok (a, b) else err struct_error))
unfolding encode_close_rsp decode_close_rsp encode_disconnect_rsp decode_disconnect_rsp
    encode_stop_filter_rsp decode_stop_filter_rsp encode_open_rsp decode_open_rsp encode_connect_rsp
    decode_connect_rsp encode_write_msgs_rsp decode_write_msgs_rsp encode_start_filter_rsp
    decode_start_filter_rsp
fixed_responses_round_trip a b seq = (
  exchange-first1 close_rsp seq a,
  exchange-first1 disconnect_rsp seq a,
  exchange-first1 stop_filter_rsp seq a,
  exchange-first2 open_rsp seq a b,
  exchange-first2 connect_rsp seq a b,
  exchange-first2 write_msgs_rsp seq a b,
  exchange-first2 start_filter_rsp seq a b,
)
