-- ===== src/Session/State/Delivery.antt =====
-- What the event queues keep (_emit and _enqueue_terminal_event of
-- diagnostic_platform/session_orchestrator.py).
use gds2_automation.Base.{
  ℕ, zero, suc, ◌+◌, ◌-◌, ◌≤◌, ◌<◌, ◌≡◌, refl, true, inl, inr, ◌⊎◌, Bool-cases, List, [], ◌∷◌, ◌++◌,
  length, drop, arith, length-append, length-drop,
}
use native.Mathlib.Decide.{dec_lt}
use gds2_automation.Session.State.{
  Message, is_terminal_event, queue_size, enqueue_terminal_event, deliver,
}

enqueue_room :
    (q : List Message) (m : Message)
    → length q < queue_size
    → enqueue_terminal_event q m ≡ q ++ (m ∷ [])
unfolding enqueue_terminal_event
enqueue_room [] m h = refl
enqueue_room (x ∷ q) m h = ground arith

enqueue_full :
    (q : List Message) (m : Message)
    → length q ≡ queue_size
    → enqueue_terminal_event q m ≡ drop 1 q ++ (m ∷ [])
unfolding enqueue_terminal_event
enqueue_full [] m h = refl
enqueue_full (x ∷ q) m h = ground (arith, enqueue_room q m (omega arith))

length-cases :
    (q : List Message) → length q ≤ queue_size → (length q < queue_size) ⊎ (length q ≡ queue_size)
length-cases q h = elim (dec_lt (length q) queue_size) [
  | yes room ↦ inl room
  | no full ↦ inr (omega arith)
]

-- An event that ends a session is delivered to any queue within its limit, also to a full one,
-- where it costs the oldest event and no other.
pub terminal_event_delivered :
    (q : List Message) (m : Message)
    → length q ≤ queue_size
    → is_terminal_event m ≡ true
    → deliver q m ≡ drop (length q + 1 - queue_size) q ++ (m ∷ [])
unfolding deliver
terminal_event_delivered q m h t = elim (length-cases q h) [
  | inl room ↦ trivially_room room
  | inr full ↦ made_room full
]
  where
    trivially_room :
        length q < queue_size → deliver q m ≡ drop (length q + 1 - queue_size) q ++ (m ∷ [])
    trivially_room room = kept (length q + 1 - queue_size) (omega arith)
      where
        kept : (n : ℕ) → n ≡ 0 → deliver q m ≡ drop n q ++ (m ∷ [])
        kept zero e = ground arith
        kept (suc n) e = absurd (omega arith)

    made_room : length q ≡ queue_size → deliver q m ≡ drop (length q + 1 - queue_size) q ++ (m ∷ [])
    made_room full = kept (length q + 1 - queue_size) (omega arith)
      where
        kept : (n : ℕ) → n ≡ 1 → deliver q m ≡ drop n q ++ (m ∷ [])
        kept n e = rw e (ground (arith, enqueue_full q m full))

-- No event makes a queue that is within its limit longer than the limit.
pub deliver_bounds :
    (q : List Message) (m : Message) → length q ≤ queue_size → length (deliver q m) ≤ queue_size
unfolding deliver
deliver_bounds q m h = elim (Bool-cases (is_terminal_event m)) [
  | inl t ↦ rw (terminal_event_delivered q m h t) (
      omega (
        arith,
        length-append (drop (length q + 1 - queue_size) q) (m ∷ []),
        length-drop (length q + 1 - queue_size) q,
      ))
  | inr other ↦ ground (arith, length-append q (m ∷ []))
]
