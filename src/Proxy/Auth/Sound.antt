-- ===== src/Proxy/Auth/Sound.antt =====
-- Where authentication is required, only an Auth request registers a client
-- (_authenticate_vci of vci_proxy/reverse_server.py).
use gds2_automation.Base.{
  ℕ, ◌≡◌, refl, Bool, true, false, not, ◌&&◌, Option, none, some, [], arith, ◌==◌, nat_eq,
  string_eq, pair_eq, bytes_eq, if◌then◌else◌, Result, ok, err,
}
use gds2_automation.Wire.Pack.{Bytes}
use gds2_automation.Wire.Frame.{code, magic, auth_req, heartbeat}
use gds2_automation.Wire.Auth.{decode_auth_req}
use gds2_automation.Wire.Text.{Utf8, encode_auth_rsp}
use gds2_automation.Proxy.Auth.{
  Reason, token_missing, not_required, Seen, lacks_token, token_of, read_frame_body, AuthConfig,
  Incoming, Outcome, answer, answer_verdict, check_signature, handle_auth_req, handle_heartbeat,
  dispatch, authenticate_vci, verify_and_check,
}
use gds2_automation.Proxy.Auth.Replay.{Accepts}

module _ (codec : Utf8) (say : Reason → codec.Text) (hmac : Bytes → Bytes → Bytes) where
  -- A frame that carries an Auth request which the check accepts.
  pub record IsAuthentic (config : AuthConfig) (now : ℕ) (seen : Seen) (frame : Incoming)
      : Type 0 where
    pub body : Bytes
    pub timestamp : ℕ
    pub signature : Bytes
    pub has_magic : frame.frame_magic ≡ magic
    pub has_type : frame.msg_type ≡ code auth_req
    pub has_body : read_frame_body frame.frame_length frame.arrived ≡ some body
    pub has_token : lacks_token config.token ≡ false
    pub decoded : decode_auth_req body ≡ ok (timestamp, signature)
    pub accepted :
        Accepts hmac (verify_and_check hmac now seen (token_of config.token) timestamp signature)

  answer-true :
      (rsp : Result Bytes) (alive result : Bool) (seen : Seen)
      → (answer codec say hmac rsp alive result seen).0 ≡ ok true
      → result ≡ true
  unfolding answer
  answer-true (err e) alive result seen h = cc
  answer-true (ok rsp) alive result seen h = ground arith

  verdict_true :
      (seq : ℕ) (alive : Bool) (seen : Seen) (r : Result ((Bool × Reason) × Seen))
      → (answer_verdict codec say hmac seq alive seen r).0 ≡ ok true
      → Accepts hmac r
  unfolding answer_verdict
  verdict_true seq alive seen (err e) h = absurd (cc)
  verdict_true seq alive seen (ok ((success, reason), seen')) h =
      answer-true (encode_auth_rsp codec success (say reason) seq) alive success seen' h

  checked :
      (config : AuthConfig) (now : ℕ) (seen : Seen) (seq : ℕ) (alive : Bool)
      (r : Result (ℕ × Bytes))
      → (check_signature codec say hmac config now seen seq alive r).0 ≡ ok true
      → (p : ℕ × Bytes) × (r ≡ ok p)
        × Accepts hmac (verify_and_check hmac now seen (token_of config.token) p.0 p.1)
  unfolding check_signature
  checked config now seen seq alive (err e) h = absurd (cc)
  checked config now seen seq alive (ok (ts, sig)) h = (
    (ts, sig),
    refl,
    verdict_true seq alive seen (verify_and_check hmac now seen (token_of config.token) ts sig) h,
  )

  handled :
      (config : AuthConfig) (now : ℕ) (seen : Seen) (seq : ℕ) (alive : Bool) (body : Bytes)
      → config.enabled ≡ true
      → (handle_auth_req codec say hmac config now seen seq alive body).0 ≡ ok true
      → (lacks_token config.token ≡ false)
        × ((check_signature codec say hmac config now seen seq alive (decode_auth_req body)).0
            ≡ ok true)
  unfolding handle_auth_req
  handled config now seen seq alive body on = go config.enabled (lacks_token config.token) on
    where
      go :
          (e l : Bool)
          → e ≡ true
          → (if e && l
              then answer codec say hmac
                  (encode_auth_rsp codec false (say token_missing) seq)
                  alive
                  false
                  seen
              else if not e
              then answer codec say hmac
                  (encode_auth_rsp codec true (say not_required) seq)
                  alive
                  true
                  seen
              else check_signature codec say hmac config now seen seq alive
                  (decode_auth_req body)).0
            ≡ ok true
          → (l ≡ false)
            × ((check_signature codec say hmac config now seen seq alive (decode_auth_req body)).0
                ≡ ok true)
      go false l h k = absurd (cc)
      go true true h k = absurd (
          cc (answer-true (encode_auth_rsp codec false (say token_missing) seq) alive false seen k))
      go true false h k = (refl, k)

  refuses_heartbeat :
      (config : AuthConfig) (seen : Seen) (seq : ℕ) (alive alive' : Bool) (second : Option Incoming)
      → config.enabled ≡ true
      → (handle_heartbeat codec say hmac config seen seq alive alive' second).0 ≡ ok false
  unfolding handle_heartbeat
  refuses_heartbeat config seen seq alive alive' second on = rw on

  -- Where authentication is required, a client is registered only by an Auth request in the first
  -- frame: with the magic, with a body that arrives, for a server that has a token, and with a
  -- signature and a timestamp that the check accepts.
  pub authenticate_vci_sound :
      (config : AuthConfig) (now : ℕ) (seen : Seen) (alive alive' : Bool)
      (first second : Option Incoming)
      → config.enabled ≡ true
      → (authenticate_vci codec say hmac config now seen alive alive' first second).0 ≡ ok true
      → (frame : Incoming) × (first ≡ some frame) × IsAuthentic config now seen frame
  unfolding authenticate_vci
  authenticate_vci_sound config now seen alive alive' none second on h = absurd (cc)
  authenticate_vci_sound config now seen alive alive' (some frame) second on h =
      (frame, refl, by_magic (frame.frame_magic == magic) refl h)
    where
      by_type :
          (body : Bytes) (t b : Bool)
          → (frame.frame_magic == magic) ≡ true
          → read_frame_body frame.frame_length frame.arrived ≡ some body
          → (frame.msg_type == code auth_req) ≡ t
          → (if t
              then handle_auth_req codec say hmac config now seen frame.sequence alive body
              else if b
              then handle_heartbeat codec say hmac config seen frame.sequence alive alive' second
              else (ok false, [], seen)).0
            ≡ ok true
          → IsAuthentic config now seen frame
      by_type body false false m r t k = absurd (cc)
      by_type body false true m r t k =
          absurd (cc (refuses_heartbeat config seen frame.sequence alive alive' second on))
      by_type body true b m r t k =
          let (tokened, k') = handled config now seen frame.sequence alive body on k in
          let (p, decoded, accepted) =
            checked config now seen frame.sequence alive (decode_auth_req body) k' in
          record {
            body = body;
            timestamp = p.0;
            signature = p.1;
            has_magic = ground arith;
            has_type = ground arith;
            has_body = r;
            has_token = tokened;
            decoded = decoded;
            accepted = accepted;
          }

      by_body :
          (r : Option Bytes)
          → (frame.frame_magic == magic) ≡ true
          → read_frame_body frame.frame_length frame.arrived ≡ r
          → (dispatch codec say hmac config now seen alive alive' frame second r).0 ≡ ok true
          → IsAuthentic config now seen frame
      by_body none m e k = absurd (cc)
      by_body (some body) m e k =
          by_type body (frame.msg_type == code auth_req) (frame.msg_type == code heartbeat) m e refl
            k

      by_magic :
          (m : Bool)
          → (frame.frame_magic == magic) ≡ m
          → (if not m
              then (let out : Outcome = (ok false, [], seen) in out)
              else dispatch codec say hmac config now seen alive alive' frame second
                  (read_frame_body frame.frame_length frame.arrived)).0
            ≡ ok true
          → IsAuthentic config now seen frame
      by_magic false e k = absurd (cc)
      by_magic true e k = by_body (read_frame_body frame.frame_length frame.arrived) e refl k
