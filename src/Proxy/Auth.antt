-- ===== src/Proxy/Auth.antt =====
-- Authentication of the tunnel client (vci_proxy/auth.py, and _is_replayed_auth,
-- _validated_body_length, _read_frame_body and _authenticate_vci of vci_proxy/reverse_server.py).
pub mod Early
pub mod Replay
pub mod Sound
use gds2_automation.Base.{
  ℕ, ◌+◌, ◌-◌, Bool, true, false, not, ◌&&◌, ◌||◌, Option, none, some, List, [], ◌∷◌, ◌++◌, arith,
  ltb, leb, ◌==◌, nat_eq, string_eq, pair_eq, bytes_eq, if◌then◌else◌, Result, ok, err, value_error,
  ◌>>=◌, ◌>>◌,
}
use gds2_automation.Base.Dict
use gds2_automation.Base.Dict.{Dict, get-put}
use gds2_automation.Wire.Pack.{Bytes, pack_u64}
use gds2_automation.Wire.Frame
use gds2_automation.Wire.Frame.{code, magic, header_size, auth_req, heartbeat, heartbeat_ack}
use gds2_automation.Wire.Auth.{decode_auth_req}
use gds2_automation.Wire.Text.{Utf8, encode_auth_rsp}

abbrev pub max_drift_s : ℕ
max_drift_s = 300

abbrev pub max_frame_body_bytes : ℕ
max_frame_body_bytes = 1_000_000

-- Why a signature is accepted or refused.
pub data Reason : Type 0 where
  drift_too_large signature_mismatch verified replay_detected token_missing not_required : Reason

-- `hmac` is HMAC-SHA256 of a key and a message, of the standard library.
module _ (hmac : Bytes → Bytes → Bytes) where
  -- `token` is the token's UTF-8 encoding.
  unfoldable pub compute_signature : Bytes → ℕ → Result Bytes
  compute_signature token timestamp = do ts_bytes ← pack_u64 timestamp; ok (hmac token ts_bytes)

  -- `now` is `int(time.time())`.
  unfoldable pub verify_signature : ℕ → Bytes → ℕ → Bytes → Result (Bool × Reason)
  unfolding compute_signature
  verify_signature now token timestamp signature =
      if ltb max_drift_s ((now - timestamp) + (timestamp - now))
      then ok (false, drift_too_large)
      else do
        expected ← compute_signature token timestamp
        if not (expected == signature) then ok (false, signature_mismatch) else ok (true, verified)

-- The signatures that were accepted, with the time of the acceptance.
abbrev pub Seen : Type 0
Seen = Dict (ℕ × Bytes) ℕ

unfoldable pub prune : ℕ → Seen → Seen
prune stale_before [] = []
prune stale_before ((k, seen_at) ∷ seen) =
    let rest = prune stale_before seen in
    if leb stale_before seen_at then (k, seen_at) ∷ rest else rest

unfoldable pub mark_seen : Seen → ℕ × Bytes → ℕ → Option ℕ → Bool × Seen
mark_seen seen key now (some seen_at) = (true, seen)
mark_seen seen key now none = (false, Dict.put seen key now)

-- Times start at 0, so the truncated subtraction keeps every entry where the code's is negative.
unfoldable pub is_replayed_auth : ℕ → Seen → Bytes → ℕ → Bool × Seen
unfolding prune mark_seen
is_replayed_auth now seen signature timestamp =
    let kept = prune (now - max_drift_s) seen in
    mark_seen kept (timestamp, signature) now (Dict.get kept (timestamp, signature))

-- The check of an Auth request: the signature, then the replay.
unfoldable pub replay_check : ℕ → Seen → ℕ → Bytes → Bool × Reason → (Bool × Reason) × Seen
replay_check now seen timestamp signature (false, reason) = ((false, reason), seen)
replay_check now seen timestamp signature (true, reason) =
    let (replayed, seen') = is_replayed_auth now seen signature timestamp in
    ((if replayed then (false, replay_detected) else (true, reason)), seen')

module _ (hmac : Bytes → Bytes → Bytes) where
  -- The signature and the replay, as the handler of an Auth request checks them.
  unfoldable pub verify_and_check : ℕ → Seen → Bytes → ℕ → Bytes → Result ((Bool × Reason) × Seen)
  unfolding replay_check
  verify_and_check now seen token timestamp signature = do
    verdict ← verify_signature hmac now token timestamp signature
    ok (replay_check now seen timestamp signature verdict)

-- _validated_body_length
unfoldable pub validated_body_length : ℕ → Result ℕ
validated_body_length len =
    if ltb len header_size
    then err value_error
    else if ltb max_frame_body_bytes (len - header_size)
    then err value_error
    else ok (len - header_size)

-- _read_frame_body: `arrived` is what the stream yields in time; none stands for a timeout, an early
-- end of the stream or a lost connection.
unfoldable pub read_frame_body : ℕ → Option Bytes → Option Bytes
unfolding validated_body_length
read_frame_body len arrived = elim (validated_body_length len) [
  | err e ↦ none
  | ok n ↦ if leb n 0 then some [] else arrived
]

pub record AuthConfig : Type 0 where
  pub enabled : Bool
  pub token : Option Bytes

-- `not self.config.auth.token`
unfoldable pub lacks_token : Option Bytes → Bool
lacks_token none = true
lacks_token (some []) = true
lacks_token (some (b ∷ bs)) = false

abbrev pub token_of : Option Bytes → Bytes
token_of none = []
token_of (some t) = t

-- A frame as the handler reads it: the header's fields and the bytes that arrive behind it.
pub record Incoming : Type 0 where
  pub frame_magic : ℕ
  pub frame_length : ℕ
  pub msg_type : ℕ
  pub sequence : ℕ
  pub arrived : Option Bytes

-- The outcome of `_authenticate_vci`: its result or what it raises, the frames that it wrote, and
-- the signatures seen.
abbrev pub Outcome : Type 0
Outcome = Result Bool × List Bytes × Seen

module _ (codec : Utf8) (say : Reason → codec.Text) (hmac : Bytes → Bytes → Bytes) where
  -- Writing a response; `alive` says whether the write succeeds, and a failed one ends the handler.
  unfoldable pub answer : Result Bytes → Bool → Bool → Seen → Outcome
  answer (err e) alive result seen = (err e, [], seen)
  answer (ok rsp) alive result seen = (ok (alive && result), (if alive then rsp ∷ [] else []), seen)

  unfoldable pub answer_check : ℕ → Bool → (Bool × Reason) × Seen → Outcome
  unfolding answer
  answer_check seq alive ((success, reason), seen) =
      answer (encode_auth_rsp codec success (say reason) seq) alive success seen

  unfoldable pub answer_verdict : ℕ → Bool → Seen → Result ((Bool × Reason) × Seen) → Outcome
  unfolding answer_check
  answer_verdict seq alive seen (err e) = (err e, [], seen)
  answer_verdict seq alive seen (ok checked) = answer_check seq alive checked

  unfoldable pub check_signature : AuthConfig → ℕ → Seen → ℕ → Bool → Result (ℕ × Bytes) → Outcome
  unfolding answer_verdict
  check_signature config now seen seq alive (err e) = (err e, [], seen)
  check_signature config now seen seq alive (ok (timestamp, signature)) =
      answer_verdict seq alive seen
        (verify_and_check hmac now seen (token_of config.token) timestamp signature)

  -- The branch of an Auth request.
  unfoldable pub handle_auth_req : AuthConfig → ℕ → Seen → ℕ → Bool → Bytes → Outcome
  unfolding check_signature lacks_token
  handle_auth_req config now seen seq alive body =
      if config.enabled && lacks_token config.token
      then answer (encode_auth_rsp codec false (say token_missing) seq) alive false seen
      else if not config.enabled
      then answer (encode_auth_rsp codec true (say not_required) seq) alive true seen
      else check_signature config now seen seq alive (decode_auth_req body)

  -- The second phase of the handshake: a second heartbeat, answered again.
  unfoldable pub second_phase : Seen → List Bytes → Bool → Option Incoming → Outcome
  second_phase seen sent alive none = (ok false, sent, seen)
  second_phase seen sent alive (some frame) =
      if not (frame.frame_magic == magic)
      then (ok false, sent, seen)
      else elim (read_frame_body frame.frame_length frame.arrived) [
        | none ↦ (ok false, sent, seen)
        | some body ↦
            if not (frame.msg_type == code heartbeat || frame.msg_type == code heartbeat_ack)
            then (ok false, sent, seen)
            else elim (Frame.frame heartbeat_ack frame.sequence []) [
              | err e ↦ (err e, sent, seen)
              | ok ack ↦ (ok alive, (if alive then sent ++ (ack ∷ []) else sent), seen)
            ]
      ]

  -- The branch of a heartbeat, which registers a legacy client where no authentication is required.
  unfoldable pub handle_heartbeat : AuthConfig → Seen → ℕ → Bool → Bool → Option Incoming → Outcome
  unfolding second_phase
  handle_heartbeat config seen seq alive alive' second =
      if config.enabled then (ok false, [], seen) else elim (Frame.frame heartbeat_ack seq []) [
        | err e ↦ (err e, [], seen)
        | ok ack ↦
            if not alive then (ok false, [], seen) else second_phase seen (ack ∷ []) alive' second
      ]

  -- The frame by its type, once its body is read.
  unfoldable pub dispatch :
      AuthConfig → ℕ → Seen → Bool → Bool → Incoming → Option Incoming → Option Bytes → Outcome
  unfolding handle_auth_req handle_heartbeat
  dispatch config now seen alive alive' frame second none = (ok false, [], seen)
  dispatch config now seen alive alive' frame second (some body) =
      if frame.msg_type == code auth_req
      then handle_auth_req config now seen frame.sequence alive body
      else if frame.msg_type == code heartbeat
      then handle_heartbeat config seen frame.sequence alive alive' second
      else (ok false, [], seen)

  -- _authenticate_vci; `alive` and `alive'` say whether its first and its second write succeed, and
  -- `first` and `second` are the frames that it reads, or none where reading the header fails.
  unfoldable pub authenticate_vci :
      AuthConfig → ℕ → Seen → Bool → Bool → Option Incoming → Option Incoming → Outcome
  unfolding dispatch
  authenticate_vci config now seen alive alive' none second = (ok false, [], seen)
  authenticate_vci config now seen alive alive' (some frame) second =
      if not (frame.frame_magic == magic)
      then (ok false, [], seen)
      else dispatch config now seen alive alive' frame second
          (read_frame_body frame.frame_length frame.arrived)
