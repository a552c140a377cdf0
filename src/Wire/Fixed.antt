-- ===== src/Wire/Fixed.antt =====
-- Bodies that are a fixed number of words: how they are read, and what is read back.
use gds2_automation.Base.{
  ℕ, ◌<◌, ◌≡◌, inl, inr, true, ◌&&◌, List, [], ◌∷◌, ◌++◌, append-nil, arith, nat_eq, string_eq,
  pair_eq, if◌then◌else◌, Bool-cases, Result, ok, err, struct_error, ◌>>◌, length, take,
}
use gds2_automation.Wire.Pack.{Bytes, is_u32, unpack1, unpack2, unpack3, unpack4, word-bytes4}
use gds2_automation.Wire.Frame.{
  MsgType, frame_words, check_min_len, exchange, exchange-frame_words, words, all_u32,
}

-- `_check_min_len(body, 4, …)` and `struct.unpack(">I", body[:4])`, and so for more words.
unfoldable pub first1 : Bytes → Result ℕ
unfolding check_min_len
first1 body = do check_min_len body 4; unpack1 (take 4 body)

unfoldable pub first2 : Bytes → Result (ℕ × ℕ)
unfolding check_min_len
first2 body = do check_min_len body 8; unpack2 (take 8 body)

unfoldable pub first3 : Bytes → Result (ℕ × ℕ × ℕ)
unfolding check_min_len
first3 body = do check_min_len body 12; unpack3 (take 12 body)

unfoldable pub first4 : Bytes → Result (ℕ × ℕ × ℕ × ℕ)
unfolding check_min_len
first4 body = do check_min_len body 16; unpack4 (take 16 body)

-- The words that `struct.pack` wrote are the words that are read, whatever follows them.
pub first1-words :
    (a : ℕ) (rest : Bytes) → all_u32 (a ∷ []) ≡ true → first1 (words (a ∷ []) ++ rest) ≡ ok a
unfolding first1 unpack1
first1-words a rest h = ground (arith, word-bytes4 a)

pub first2-words :
    (a b : ℕ) (rest : Bytes)
    → all_u32 (a ∷ b ∷ []) ≡ true
    → first2 (words (a ∷ b ∷ []) ++ rest) ≡ ok (a, b)
unfolding first2 unpack2
first2-words a b rest h = ground (arith, word-bytes4 a, word-bytes4 b)

pub first3-words :
    (a b c : ℕ) (rest : Bytes)
    → all_u32 (a ∷ b ∷ c ∷ []) ≡ true
    → first3 (words (a ∷ b ∷ c ∷ []) ++ rest) ≡ ok (a, b, c)
unfolding first3 unpack3
first3-words a b c rest h = ground (arith, word-bytes4 a, word-bytes4 b, word-bytes4 c)

pub first4-words :
    (a b c d : ℕ) (rest : Bytes)
    → all_u32 (a ∷ b ∷ c ∷ d ∷ []) ≡ true
    → first4 (words (a ∷ b ∷ c ∷ d ∷ []) ++ rest) ≡ ok (a, b, c, d)
unfolding first4 unpack4
first4-words a b c d rest h =
    ground (arith, word-bytes4 a, word-bytes4 b, word-bytes4 c, word-bytes4 d)

-- A message of words arrives as `decode` reads those words.
exchange-words {ℓ} :
    {A : Type ℓ} (t : MsgType) (seq : ℕ) (ws : List ℕ) (decode : Bytes → Result A) (a : A)
    → length ws < 1000
    → (all_u32 ws ≡ true → decode (words ws ++ []) ≡ ok a)
    → exchange (frame_words t seq ws) decode
      ≡ (if all_u32 ws && is_u32 seq then ok a else err struct_error)
exchange-words t seq ws decode a h k = elim (Bool-cases (all_u32 ws)) [
  | inl y ↦ rw (exchange-frame_words t seq ws decode h, ← append-nil (words ws)) (rw (y, k y))
  | inr n ↦ rw (exchange-frame_words t seq ws decode h) (rw n)
]

module _ (t : MsgType) (seq : ℕ) where
  pub exchange-first1 :
      (a : ℕ)
      → exchange (frame_words t seq (a ∷ [])) first1
        ≡ (if all_u32 (a ∷ []) && is_u32 seq then ok a else err struct_error)
  exchange-first1 a = exchange-words t seq (a ∷ []) first1 a (omega arith) (first1-words a [])

  pub exchange-first2 :
      (a b : ℕ)
      → exchange (frame_words t seq (a ∷ b ∷ [])) first2
        ≡ (if all_u32 (a ∷ b ∷ []) && is_u32 seq then ok (a, b) else err struct_error)
  exchange-first2 a b =
      exchange-words t seq (a ∷ b ∷ []) first2 (a, b) (omega arith) (first2-words a b [])

  pub exchange-first3 :
      (a b c : ℕ)
      → exchange (frame_words t seq (a ∷ b ∷ c ∷ [])) first3
        ≡ (if all_u32 (a ∷ b ∷ c ∷ []) && is_u32 seq then ok (a, b, c) else err struct_error)
  exchange-first3 a b c =
      exchange-words t seq (a ∷ b ∷ c ∷ []) first3 (a, b, c) (omega arith) (first3-words a b c [])

  pub exchange-first4 :
      (a b c d : ℕ)
      → exchange (frame_words t seq (a ∷ b ∷ c ∷ d ∷ [])) first4
        ≡ (if all_u32 (a ∷ b ∷ c ∷ d ∷ []) && is_u32 seq then ok (a, b, c, d) else err struct_error)
  exchange-first4 a b c d =
      exchange-words t seq (a ∷ b ∷ c ∷ d ∷ []) first4 (a, b, c, d) (omega arith)
        (first4-words a b c d [])
