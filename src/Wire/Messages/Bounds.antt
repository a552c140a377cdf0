-- ===== src/Wire/Messages/Bounds.antt =====
-- The loop over the messages of a body stays within the body, whatever the bytes
-- (vci_proxy/protocol.py).
use gds2_automation.Base.{
  ℕ, zero, suc, ◌+◌, ◌≤◌, ◌≡◌, refl, inl, inr, false, List, [], ◌∷◌, arith, ltb, nat_eq, string_eq,
  pair_eq, if◌then◌else◌, Bool-cases, Result, ok, ◌>>=◌, length, take, drop, length-take,
  length-drop,
}
use gds2_automation.Wire.Pack.{Bytes, unpack5}
use gds2_automation.Wire.Messages.{MsgDict, or_empty, decoded_msg, decode_msgs}

-- The bytes that messages take up in a body.
abbrev pub stored : List MsgDict → ℕ
stored [] = 0
stored (m ∷ ms) = 20 + length (or_empty m.payload) + stored ms

abbrev Reads : ℕ → ℕ → Result (List MsgDict) → Type 0
Reads n size r = (ms : List MsgDict) × (r ≡ ok ms) × (length ms ≤ n) × (stored ms ≤ size)

unpack5_total : (bs : Bytes) → length bs ≡ 20 → (h : ℕ × ℕ × ℕ × ℕ × ℕ) × (unpack5 bs ≡ ok h)
unfolding unpack5
unpack5_total (a ∷ b ∷ c ∷ d ∷ e ∷ f ∷ g ∷ h ∷ i ∷ j ∷ k ∷ l ∷ m ∷ n ∷ o ∷ p ∷ q ∷ r ∷ s ∷ t ∷ [])
      e' =
    (_, refl)
unpack5_total _ e = absurd (omega arith)

module _ (n size : ℕ) (ih : (bs : Bytes) → Reads n (length bs) (decode_msgs n bs)) where
  -- The end of a round: the head has been read.
  data-Reads :
      (h : ℕ × ℕ × ℕ × ℕ × ℕ) (behind : Bytes)
      → 20 + length behind ≤ size
      → Reads (suc n) size (
          if ltb (length behind) h.4
          then ok []
          else (do ms ← decode_msgs n (drop h.4 behind); ok (decoded_msg h behind ∷ ms)))
  data-Reads h behind fits = elim (Bool-cases (ltb (length behind) h.4)) [
    | inl y ↦ rw y ([], refl, omega arith, omega arith)
    | inr j ↦ rw j (
        let (ms, r, few, small) = ih (drop h.4 behind) in
        rw r (
          decoded_msg h behind ∷ ms,
          refl,
          omega arith,
          unfold decoded_msg in ground (arith, length-drop h.4 behind, length-take h.4 behind),
        ))
  ]

length-take_of_le : (n : ℕ) (bs : Bytes) → n ≤ length bs → length (take n bs) ≡ n
length-take_of_le n bs h = omega (arith, length-take n bs)

head-Reads :
    (n : ℕ) (rest : Bytes) (h : ℕ × ℕ × ℕ × ℕ × ℕ)
    → ((bs : Bytes) → Reads n (length bs) (decode_msgs n bs))
    → ltb (length rest) 20 ≡ false
    → unpack5 (take 20 rest) ≡ ok h
    → Reads (suc n) (length rest) (decode_msgs (suc n) rest)
unfolding decode_msgs
head-Reads n rest h ih k e =
    rw k
      (rw e (data-Reads n (length rest) ih h (drop 20 rest) (ground (arith, length-drop 20 rest))))

step-Reads :
    (n : ℕ) (rest : Bytes)
    → ((bs : Bytes) → Reads n (length bs) (decode_msgs n bs))
    → Reads (suc n) (length rest) (decode_msgs (suc n) rest)
step-Reads n rest ih = elim (Bool-cases (ltb (length rest) 20)) [
  | inl y ↦ unfold decode_msgs in rw y ([], refl, omega arith, omega arith)
  | inr k ↦
      (let (h, e) = unpack5_total (take 20 rest) (length-take_of_le 20 rest (ground arith)) in
        head-Reads n rest h ih k e)
]

-- Whatever the bytes and the count in the header, the decoding loop raises nothing, yields at most
-- as many messages as the header announces, and they take up no more bytes than there are.
pub decode_msgs_bounds : (n : ℕ) (rest : Bytes) → Reads n (length rest) (decode_msgs n rest)
decode_msgs_bounds zero rest = unfold decode_msgs in ([], refl, omega arith, omega arith)
decode_msgs_bounds (suc n) rest = step-Reads n rest (decode_msgs_bounds n)
