-- ===== src/Wire/Auth.antt =====
-- The Auth request (vci_proxy/protocol.py).
use gds2_automation.Base.{
  ℕ, ◌+◌, ◌/◌, ◌%◌, ◌≡◌, inl, inr, true, ◌&&◌, ◌++◌, arith, ltb, nat_eq, string_eq, pair_eq,
  if◌then◌else◌, Bool-cases, Result, ok, err, struct_error, value_error, ◌>>=◌, ◌>>◌, length, take,
  drop,
}
use gds2_automation.Wire.Pack.{Bytes, is_u32, is_u64, bytes4, pack_u64, unpack_u64, word-bytes4}
use gds2_automation.Wire.Frame.{
  frame, exchange, exchange-frame, check_min_len, auth_req, header_size,
}

-- The body is the timestamp as a 64-bit number and the signature behind it.
unfoldable pub encode_auth_req : ℕ → Bytes → ℕ → Result Bytes
encode_auth_req timestamp signature seq = do
  head ← pack_u64 timestamp
  frame auth_req seq (head ++ signature)

unfoldable pub decode_auth_req : Bytes → Result (ℕ × Bytes)
unfolding check_min_len
decode_auth_req body = do
  check_min_len body 40
  timestamp ← unpack_u64 (take 8 body)
  ok (timestamp, take 32 (drop 8 body))

timestamp_lem :
    (t : ℕ) (rest : Bytes)
    → is_u64 t ≡ true
    → unpack_u64 (take 8 (bytes4 (t / 4294967296) ++ bytes4 (t % 4294967296) ++ rest)) ≡ ok t
unfolding unpack_u64
timestamp_lem t rest h = ground (arith, word-bytes4 (t / 4294967296), word-bytes4 (t % 4294967296))

-- An Auth request is decoded to its timestamp and the first 32 bytes of its signature. A shorter
-- signature makes decoding raise `ValueError`, and a timestamp of more than 64 bits, a frame or a
-- sequence number of more than 32 bits makes encoding raise `struct.error`.
pub auth_req_round_trip :
    (timestamp seq : ℕ) (signature : Bytes)
    → exchange (encode_auth_req timestamp signature seq) decode_auth_req ≡ (
        if is_u64 timestamp && (is_u32 (header_size + (8 + length signature)) && is_u32 seq)
        then (if ltb (length signature) 32
            then err value_error
            else ok (timestamp, take 32 signature))
        else err struct_error)
unfolding encode_auth_req pack_u64
auth_req_round_trip t seq s = elim (Bool-cases (is_u64 t)) [
  | inr n ↦ unfold exchange in rw n
  | inl y ↦ rw y (
      rw
        (exchange-frame auth_req seq (bytes4 (t / 4294967296) ++ bytes4 (t % 4294967296) ++ s)
          decode_auth_req)
        (unfold decode_auth_req in (rw (timestamp_lem t s y) (ground arith))))
]
