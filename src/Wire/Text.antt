-- ===== src/Wire/Text.antt =====
-- The bodies that hold text: Open requests, Auth responses and ReadVersion responses
-- (vci_proxy/protocol.py).
use gds2_automation.Base.{
  ℕ, zero, suc, ◌+◌, ◌-◌, ◌≤◌, ◌≡◌, refl, sym, ap, ◌∙◌, inl, inr, Bool, true, false, not, ◌&&◌,
  Option, none, some, [], ◌∷◌, ◌++◌, append_assoc, arith, ltb, ◌==◌, nat_eq, string_eq, pair_eq,
  if◌then◌else◌, Bool-cases, Result, ok, err, struct_error, value_error, ◌>>=◌, ◌>>◌, length, take,
  drop, replicate, length-append, length-take, length-replicate, take-append_of_eq,
  drop-append_of_eq, take_all,
}
use gds2_automation.Wire.Pack.{Bytes, is_u32, pack_words, unpack1, word-bytes4}
use gds2_automation.Wire.Frame.{
  frame, exchange, exchange-frame, check_min_len, open_req, auth_rsp, read_version_rsp, header_size,
  words, pack_words_lem,
}

-- Python's str and its UTF-8 codec (`errors="replace"` when decoding): decoding what was encoded
-- gives the text back.
pub record Utf8 : Type 1 where
  pub Text : Type 0
  pub empty : Text
  pub is_empty : Text → Bool
  pub encode : Text → Bytes
  pub decode : Bytes → Text
  pub decode-encode : (t : Text) → decode (encode t) ≡ t
  pub encode-empty : encode empty ≡ []

strip_cons : ℕ → Bytes → Bytes
strip_cons b [] = if b == 0 then [] else b ∷ []
strip_cons b (c ∷ cs) = b ∷ c ∷ cs

-- bs.rstrip(b"\x00")
unfoldable pub rstrip : Bytes → Bytes
unfolding strip_cons
rstrip [] = []
rstrip (b ∷ bs) = strip_cons b (rstrip bs)

-- bs[:80].ljust(80, b"\x00")
unfoldable pub pad80 : Bytes → Bytes
pad80 bs = take 80 bs ++ replicate (80 - length (take 80 bs)) 0

rstrip-zeros : (n : ℕ) → rstrip (replicate n 0) ≡ []
unfolding rstrip
rstrip-zeros zero = refl
rstrip-zeros (suc n) = rw (rstrip-zeros n)

rstrip-append_zeros : (bs : Bytes) (n : ℕ) → rstrip (bs ++ replicate n 0) ≡ rstrip bs
unfolding rstrip
rstrip-append_zeros [] n = rstrip-zeros n
rstrip-append_zeros (b ∷ bs) n = rw (rstrip-append_zeros bs n)

length-pad80 : (bs : Bytes) → length (pad80 bs) ≡ 80
unfolding pad80
length-pad80 bs =
    rw (length-append (take 80 bs) (replicate (80 - length (take 80 bs)) 0))
      (rw (length-replicate {A = ℕ} (80 - length (take 80 bs)) 0) (fill 80 bs))
  where
    fill : (n : ℕ) (bs : Bytes) → length (take n bs) + (n - length (take n bs)) ≡ n
    fill n bs = omega (arith, length-take n bs)

-- The three fields of 80 bytes are found at their offsets.
fields :
    (p q r : Bytes)
    → length p ≡ 80
    → length q ≡ 80
    → length r ≡ 80
    → (take 80 (p ++ (q ++ r)) ≡ p)
      × (take 80 (drop 80 (p ++ (q ++ r))) ≡ q)
      × (take 80 (drop 160 (p ++ (q ++ r))) ≡ r)
fields p q r hp hq hr = (
  take-append_of_eq 80 p (q ++ r) (sym hp),
  rw (drop-append_of_eq 80 p (q ++ r) (sym hp)) (take-append_of_eq 80 q r (sym hq)),
  rw (← append_assoc p q r) (
      rw (drop-append_of_eq 160 (p ++ q) r (omega (arith, length-append p q)))
        (take_all 80 r (omega arith))),
)

unpack1-words : (a : ℕ) → is_u32 a ≡ true → unpack1 (words (a ∷ [])) ≡ ok a
unfolding unpack1
unpack1-words a h = ground (arith, word-bytes4 a)

-- `1 if success else 0`
abbrev flag_byte : Bool → ℕ
flag_byte s = if s then 1 else 0

flag_lem : (s : Bool) → not (flag_byte s == 0) ≡ s
flag_lem true = refl
flag_lem false = refl

module _ (codec : Utf8) where
  open codec use {Text, empty, is_empty, encode, decode, decode-encode, encode-empty}

  -- `if device_name`: none and the empty text are both false.
  abbrev device_body : Option Text → Bytes
  device_body none = []
  device_body (some name) = if is_empty name then [] else encode name ++ (0 ∷ [])

  unfoldable pub encode_open_req : Option Text → ℕ → Result Bytes
  encode_open_req device_name seq = frame open_req seq (device_body device_name)

  unfoldable pub decode_open_req : Bytes → Result (Option Text)
  decode_open_req [] = ok none
  decode_open_req (b ∷ bs) = ok (some (decode (rstrip (b ∷ bs))))

  unfoldable pub encode_read_version_rsp : ℕ → Text → Text → Text → ℕ → Result Bytes
  encode_read_version_rsp return_code firmware_ver dll_ver api_ver seq = do
    head ← pack_words (return_code ∷ [])
    frame read_version_rsp seq (
        head ++ (pad80 (encode firmware_ver) ++ (pad80 (encode dll_ver) ++ pad80 (encode api_ver))))

  unfoldable pub decode_read_version_rsp : Bytes → Result (ℕ × Text × Text × Text)
  unfolding check_min_len
  decode_read_version_rsp body = do
    check_min_len body 244
    return_code ← unpack1 (take 4 body)
    let fw_ver = decode (rstrip (take 80 (drop 4 body)))
    let dll_ver = decode (rstrip (take 80 (drop 84 body)))
    let api_ver = decode (rstrip (take 80 (drop 164 body)))
    ok (return_code, fw_ver, dll_ver, api_ver)

  unfoldable pub encode_auth_rsp : Bool → Text → ℕ → Result Bytes
  encode_auth_rsp success message seq = frame auth_rsp seq (flag_byte success ∷ encode message)

  unfoldable pub decode_auth_rsp : Bytes → Result (Bool × Text)
  unfolding check_min_len
  decode_auth_rsp [] = err value_error
  decode_auth_rsp (b ∷ rest) =
      ok (not (b == 0), (if ltb 1 (length (b ∷ rest)) then decode rest else empty))

  empty-lem : (m : Text) → encode m ≡ [] → empty ≡ m
  empty-lem m h = sym (decode-encode empty) ∙ (ap decode (encode-empty ∙ sym h) ∙ decode-encode m)

  message_lem :
      (m : Text) (bs : Bytes)
      → encode m ≡ bs
      → (if ltb 1 (suc (length bs)) then decode bs else empty) ≡ m
  message_lem m [] h = empty-lem m h
  message_lem m (b ∷ bs) h = rw (← h) (rw (decode-encode m) (ground arith))

  -- An Auth response is decoded to its flag and its message; encoding raises `struct.error` exactly
  -- when the frame or the sequence number has more than 32 bits.
  pub auth_rsp_round_trip :
      (success : Bool) (message : Text) (seq : ℕ)
      → exchange (encode_auth_rsp success message seq) decode_auth_rsp ≡ (
          if is_u32 (header_size + suc (length (encode message))) && is_u32 seq
          then ok (success, message)
          else err struct_error)
  unfolding encode_auth_rsp
  auth_rsp_round_trip s m seq =
      rw (exchange-frame auth_rsp seq (flag_byte s ∷ encode m) decode_auth_rsp)
        (unfold decode_auth_rsp in rw (message_lem m (encode m) refl) (rw (flag_lem s)))

  nul_body : (bs : Bytes) → decode_open_req (bs ++ (0 ∷ [])) ≡ ok (some (decode (rstrip bs)))
  unfolding decode_open_req
  nul_body [] = unfold rstrip in refl
  nul_body (b ∷ bs) = ap (λ r. ok (some (decode r))) (rstrip-append_zeros (b ∷ bs) 1)

  -- An Open request is decoded to the device's name; none and the empty name both arrive as none.
  -- The name does not end in NUL.
  pub open_req_round_trip :
      (name : Text) (seq : ℕ)
      → rstrip (encode name) ≡ encode name
      → exchange (encode_open_req (some name) seq) decode_open_req ≡ (
          if is_u32 (header_size + length (device_body (some name))) && is_u32 seq
          then ok (if is_empty name then none else some name)
          else err struct_error)
  unfolding encode_open_req
  open_req_round_trip name seq h = elim (Bool-cases (is_empty name)) [
    | inl y ↦
        rw (exchange-frame open_req seq (device_body (some name)) decode_open_req)
          (rw y (unfold decode_open_req in refl))
    | inr n ↦
        rw (exchange-frame open_req seq (device_body (some name)) decode_open_req)
          (rw n (rw (nul_body (encode name)) (rw h (rw (decode-encode name)))))
  ]

  -- A version text that the 80 bytes of its field hold: it has at most 80, and ends in no NUL.
  pub record IsVersion (t : Text) : Type 0 where
    pub short : length (encode t) ≤ 80
    pub clean : rstrip (encode t) ≡ encode t

  rstrip-pad80 : (t : Text) → IsVersion t → decode (rstrip (pad80 (encode t))) ≡ t
  unfolding pad80
  rstrip-pad80 t v =
      rw (rstrip-append_zeros (take 80 (encode t)) (80 - length (take 80 (encode t))))
        (rw (take_all 80 (encode t) v.short) (rw v.clean (decode-encode t)))

  version_body : ℕ → Text → Text → Text → Bytes
  version_body rc f d a =
      words (rc ∷ []) ++ (pad80 (encode f) ++ (pad80 (encode d) ++ pad80 (encode a)))

  length-version_body : (rc : ℕ) (f d a : Text) → length (version_body rc f d a) ≡ 244
  unfolding version_body
  length-version_body rc f d a = omega (
    arith,
    length-append (pad80 (encode f)) (pad80 (encode d) ++ pad80 (encode a)),
    length-append (pad80 (encode d)) (pad80 (encode a)),
    length-pad80 (encode f),
    length-pad80 (encode d),
    length-pad80 (encode a),
  )

  decode-version_body :
      (rc : ℕ) (f d a : Text)
      → is_u32 rc ≡ true
      → IsVersion f
      → IsVersion d
      → IsVersion a
      → decode_read_version_rsp (version_body rc f d a) ≡ ok (rc, f, d, a)
  unfolding decode_read_version_rsp
  decode-version_body rc f d a y hf hd ha = rw (length-version_body rc f d a) (
      unfold version_body in
      let (pf, pd, pa) =
        fields (pad80 (encode f)) (pad80 (encode d)) (pad80 (encode a)) (length-pad80 (encode f))
          (length-pad80 (encode d)) (length-pad80 (encode a)) in
      rw (unpack1-words rc y)
        (rw (pf, pd, pa) (rw (rstrip-pad80 f hf, rstrip-pad80 d hd, rstrip-pad80 a ha))))

  -- A ReadVersion response is decoded to its return code and its three texts, each of at most 80
  -- bytes with no NUL at its end; encoding raises `struct.error` exactly when the return code or the
  -- sequence number has more than 32 bits.
  pub read_version_rsp_round_trip :
      (return_code seq : ℕ) (firmware_ver dll_ver api_ver : Text)
      → IsVersion firmware_ver
      → IsVersion dll_ver
      → IsVersion api_ver
      → exchange
          (encode_read_version_rsp return_code firmware_ver dll_ver api_ver seq)
          decode_read_version_rsp
        ≡ (if is_u32 return_code && is_u32 seq
            then ok (return_code, firmware_ver, dll_ver, api_ver)
            else err struct_error)
  unfolding encode_read_version_rsp
  read_version_rsp_round_trip rc seq f d a hf hd ha = elim (Bool-cases (is_u32 rc)) [
    | inr n ↦ unfold exchange in rw (pack_words_lem (rc ∷ []), n)
    | inl y ↦ rw (pack_words_lem (rc ∷ []), y) (unfold version_body in sent y)
  ]
    where
      sent :
          is_u32 rc ≡ true
          → exchange (frame read_version_rsp seq (version_body rc f d a)) decode_read_version_rsp
            ≡ (if is_u32 seq then ok (rc, f, d, a) else err struct_error)
      sent y =
          rw (exchange-frame read_version_rsp seq (version_body rc f d a) decode_read_version_rsp)
            (rw (length-version_body rc f d a) (rw (decode-version_body rc f d a y hf hd ha)))
