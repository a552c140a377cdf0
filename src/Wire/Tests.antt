-- ===== src/Wire/Tests.antt =====
-- Frames of every kind at concrete values (vci_proxy/protocol.py).
use gds2_automation.Base.{
  ℕ, ◌≡◌, refl, ◌≤◌, ◌&&◌, if◌then◌else◌, none, some, List, [], ◌∷◌, ok, err, struct_error,
  value_error, ◌>>=◌, length, arith, ◌==◌, string_eq, nat_eq,
}
use gds2_automation.Wire.Pack.{is_u32}
use gds2_automation.Wire.Frame.{
  Message, magic, encode, received, received-encode, fits, exchange, all_u32,
}
use gds2_automation.Wire.Requests.{
  fixed_requests_round_trip, encode_close_req, decode_close_req, encode_disconnect_req,
  decode_disconnect_req, encode_read_version_req, decode_read_version_req, encode_stop_filter_req,
  decode_stop_filter_req, encode_read_msgs_req, decode_read_msgs_req, encode_connect_req,
  decode_connect_req,
}
use gds2_automation.Wire.Responses.{
  fixed_responses_round_trip, encode_close_rsp, decode_close_rsp, encode_disconnect_rsp,
  decode_disconnect_rsp, encode_stop_filter_rsp, decode_stop_filter_rsp, encode_open_rsp,
  decode_open_rsp, encode_connect_rsp, decode_connect_rsp, encode_write_msgs_rsp,
  decode_write_msgs_rsp, encode_start_filter_rsp, decode_start_filter_rsp,
}
use gds2_automation.Wire.Messages.{
  MsgDict, encode_read_msgs_rsp, decode_read_msgs_rsp, encode_write_msgs_req, decode_write_msgs_req,
  decode_msgs, read_msgs_rsp_round_trip, write_msgs_req_round_trip, msgs_fit, msgs_bytes, msg_fits,
  msg_bytes,
}
use gds2_automation.Wire.Messages.Bounds.{decode_msgs_bounds, stored}
use gds2_automation.Wire.Filters.{
  encode_start_filter_req, decode_start_filter_req, start_filter_req_round_trip, slot_fits,
  slot_bytes,
}
use gds2_automation.Wire.Auth.{encode_auth_req, decode_auth_req, auth_req_round_trip}
use gds2_automation.Wire.Text.{Utf8, rstrip, IsVersion}

abbrev ping_message : Message
ping_message = record { msg_type = 0xfc; sequence = 9; body = [] }

received-encode_example : (encode ping_message >>= received) ≡ ok (magic, 14, 0xfc, 9, [])
unfolding fits
received-encode_example = received-encode ping_message

abbrev request_message : MsgDict
request_message = record {
  protocol_id = some 6;
  rx_status = none;
  tx_flags = some 64;
  timestamp = none;
  payload = some (0 ∷ 0 ∷ 7 ∷ 224 ∷ []);
}

abbrev answered_message : MsgDict
answered_message = record {
  protocol_id = some 6;
  rx_status = some 0;
  tx_flags = some 64;
  timestamp = some 0;
  payload = some (0 ∷ 0 ∷ 7 ∷ 224 ∷ []);
}

read_msgs_rsp_round_trip_example :
    exchange (encode_read_msgs_rsp 0 (request_message ∷ []) 3) decode_read_msgs_rsp
    ≡ ok (0, answered_message ∷ [])
unfolding msgs_fit msg_fits msgs_bytes msg_bytes
read_msgs_rsp_round_trip_example = read_msgs_rsp_round_trip 0 3 (request_message ∷ [])

write_msgs_req_round_trip_example :
    exchange (encode_write_msgs_req 1 (request_message ∷ []) 100 3) decode_write_msgs_req
    ≡ ok (1, answered_message ∷ [], 100)
unfolding msgs_fit msg_fits msgs_bytes msg_bytes
write_msgs_req_round_trip_example = write_msgs_req_round_trip 1 100 3 (request_message ∷ [])

-- A header that announces two messages over a body that holds none.
decode_msgs_bounds_example :
    (ms : List MsgDict) × (decode_msgs 2 (0 ∷ 0 ∷ 0 ∷ []) ≡ ok ms)
    × (length ms ≤ 2)
    × (stored ms ≤ 3)
decode_msgs_bounds_example = decode_msgs_bounds 2 (0 ∷ 0 ∷ 0 ∷ [])

start_filter_req_round_trip_example :
    exchange
      (encode_start_filter_req 1 3 (some request_message) none none 5)
      decode_start_filter_req
    ≡ ok (1, 3, some answered_message, none, none)
unfolding slot_fits slot_bytes msg_fits msg_bytes
start_filter_req_round_trip_example =
    start_filter_req_round_trip 1 3 5 (some request_message) none none

-- A signature that is too short.
auth_req_round_trip_example :
    exchange (encode_auth_req 1000 (1 ∷ 2 ∷ []) 5) decode_auth_req ≡ err value_error
auth_req_round_trip_example = auth_req_round_trip 1000 5 (1 ∷ 2 ∷ [])

-- Texts of one-byte characters.
abbrev ascii : Utf8
ascii = record {
  Text = List ℕ;
  empty = [];
  is_empty = λ t. length t == 0;
  encode = λ t. t;
  decode = λ t. t;
  decode-encode = λ t. refl;
  encode-empty = refl;
}

clean_name : rstrip (111 ∷ 107 ∷ []) ≡ 111 ∷ 107 ∷ []
unfolding rstrip
clean_name = refl

ok-IsVersion : IsVersion ascii (111 ∷ 107 ∷ [])
ok-IsVersion = record { short = omega arith; clean = clean_name }

fixed_requests_round_trip_example :
    (exchange (encode_close_req 1 5) decode_close_req ≡ ok 1)
    × (exchange (encode_disconnect_req 1 5) decode_disconnect_req ≡ ok 1)
    × (exchange (encode_read_version_req 1 5) decode_read_version_req ≡ ok 1)
    × (exchange (encode_stop_filter_req 1 2 5) decode_stop_filter_req ≡ ok (1, 2))
    × (exchange (encode_read_msgs_req 1 2 3 5) decode_read_msgs_req ≡ ok (1, 2, 3))
    × (exchange (encode_connect_req 1 2 3 4 5) decode_connect_req
        ≡ (if all_u32 (1 ∷ 2 ∷ 3 ∷ 4 ∷ []) && is_u32 5 then ok (1, 2, 3, 4) else err struct_error))
fixed_requests_round_trip_example = fixed_requests_round_trip 1 2 3 4 5

fixed_responses_round_trip_example :
    (exchange (encode_close_rsp 1 5) decode_close_rsp ≡ ok 1)
    × (exchange (encode_disconnect_rsp 1 5) decode_disconnect_rsp ≡ ok 1)
    × (exchange (encode_stop_filter_rsp 1 5) decode_stop_filter_rsp ≡ ok 1)
    × (exchange (encode_open_rsp 1 2 5) decode_open_rsp ≡ ok (1, 2))
    × (exchange (encode_connect_rsp 1 2 5) decode_connect_rsp ≡ ok (1, 2))
    × (exchange (encode_write_msgs_rsp 1 2 5) decode_write_msgs_rsp ≡ ok (1, 2))
    × (exchange (encode_start_filter_rsp 1 2 5) decode_start_filter_rsp ≡ ok (1, 2))
fixed_responses_round_trip_example = fixed_responses_round_trip 1 2 5
