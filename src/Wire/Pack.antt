-- ===== src/Wire/Pack.antt =====
-- `struct.pack` and `struct.unpack` for the big-endian formats that protocol.py uses. A bytes object
-- is the list of its bytes. Packing a value out of range raises `struct.error`, and so does unpacking
-- a buffer of another size.
use gds2_automation.Base.{
  ℕ, ◌+◌, ◌*◌, ◌/◌, ◌%◌, ◌≡◌, Bool, true, List, [], ◌∷◌, ◌++◌, arith, Result, ok, err, struct_error,
  ◌>>=◌, ltb, if◌then◌else◌,
}

abbrev pub Bytes : Type 0
Bytes = List ℕ

-- The range tests of the formats B, H, I and Q.
abbrev pub is_u8 : ℕ → Bool
is_u8 v = ltb v 256

abbrev pub is_u16 : ℕ → Bool
is_u16 v = ltb v 65536

abbrev pub is_u32 : ℕ → Bool
is_u32 v = ltb v 4294967296

abbrev pub is_u64 : ℕ → Bool
is_u64 v = ltb v 18446744073709551616

abbrev pub bytes2 : ℕ → Bytes
bytes2 v = (v / 256 % 256) ∷ (v % 256) ∷ []

abbrev pub bytes4 : ℕ → Bytes
bytes4 v = (v / 16777216 % 256) ∷ (v / 65536 % 256) ∷ (v / 256 % 256) ∷ (v % 256) ∷ []

-- struct.pack(">H", v)
unfoldable pub pack_u16 : ℕ → Result Bytes
pack_u16 v = if is_u16 v then ok (bytes2 v) else err struct_error

-- struct.pack(">I", v)
unfoldable pub pack_u32 : ℕ → Result Bytes
pack_u32 v = if is_u32 v then ok (bytes4 v) else err struct_error

-- struct.pack(">Q", v): the high word, then the low word
unfoldable pub pack_u64 : ℕ → Result Bytes
pack_u64 v =
    if is_u64 v then ok (bytes4 (v / 4294967296) ++ bytes4 (v % 4294967296)) else err struct_error

-- struct.pack(">B", v)
unfoldable pub pack_u8 : ℕ → Result Bytes
pack_u8 v = if is_u8 v then ok (v ∷ []) else err struct_error

-- struct.pack(">II…", …), one word for each item
unfoldable pub pack_words : List ℕ → Result Bytes
pack_words [] = ok []
pack_words (v ∷ vs) = do b ← pack_u32 v; bs ← pack_words vs; ok (b ++ bs)

unfoldable pub word : ℕ → ℕ → ℕ → ℕ → ℕ
word a b c d = a * 16777216 + b * 65536 + c * 256 + d

-- struct.unpack(">I", bs)[0], up to struct.unpack(">IIIII", bs)
unfoldable pub unpack1 : Bytes → Result ℕ
unpack1 (a ∷ b ∷ c ∷ d ∷ []) = ok (word a b c d)
unpack1 _ = err struct_error

-- The first word of a buffer and the bytes behind it.
unfoldable pub next_word : Bytes → Result (ℕ × Bytes)
next_word (a ∷ b ∷ c ∷ d ∷ rest) = ok (word a b c d, rest)
next_word _ = err struct_error

unfoldable pub unpack2 : Bytes → Result (ℕ × ℕ)
unfolding next_word unpack1
unpack2 bs = do (v, rest) ← next_word bs; w ← unpack1 rest; ok (v, w)

unfoldable pub unpack3 : Bytes → Result (ℕ × ℕ × ℕ)
unfolding next_word unpack2
unpack3 bs = do (v, rest) ← next_word bs; (w, x) ← unpack2 rest; ok (v, w, x)

unfoldable pub unpack4 : Bytes → Result (ℕ × ℕ × ℕ × ℕ)
unfolding next_word unpack3
unpack4 bs = do (v, rest) ← next_word bs; (w, x, y) ← unpack3 rest; ok (v, w, x, y)

unfoldable pub unpack5 : Bytes → Result (ℕ × ℕ × ℕ × ℕ × ℕ)
unfolding next_word unpack4
unpack5 bs = do (v, rest) ← next_word bs; (w, x, y, z) ← unpack4 rest; ok (v, w, x, y, z)

-- struct.unpack(">Q", bs)[0]
unfoldable pub unpack_u64 : Bytes → Result ℕ
unfolding unpack2
unpack_u64 bs = do (hi, lo) ← unpack2 bs; ok (hi * 4294967296 + lo)

pub word-bytes4 :
    (v : ℕ)
    → is_u32 v ≡ true
    → word (v / 16777216 % 256) (v / 65536 % 256) (v / 256 % 256) (v % 256) ≡ v
unfolding word
word-bytes4 v h = ground arith
