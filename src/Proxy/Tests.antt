-- ===== src/Proxy/Tests.antt =====
-- Runs of the proxy's authentication and caches at concrete inputs (vci_proxy/reverse_server.py,
-- auth.py).
use gds2_automation.Base.{
  ℕ, String, ◌≡◌, refl, true, none, some, List, [], ◌∷◌, ◌++◌, ok, ◌>>=◌, arith, take, length,
  bytes_eq, nat_eq, string_eq, pair_eq, ◌==◌, if◌then◌else◌, replicate,
}
use gds2_automation.Base.{false}
use gds2_automation.Proxy.StepFlow
use gds2_automation.Proxy.StepFlow.{offered_when_idle, title_of_actions}
use gds2_automation.Base.Dict
use gds2_automation.Wire.Pack.{Bytes, pack_u64, pack_u32, pack_u16, unpack_u64, next_word, word}
use gds2_automation.Wire.Frame.{
  code, disconnect_req, read_msgs_req, ioctl_req, ioctl_rsp, magic, words, frame, encode,
  pack_header, check_min_len,
}
use gds2_automation.Wire.Ioctl.{ioctl_req_body, ioctl_rsp_body}
use gds2_automation.Wire.Text.{Utf8, encode_auth_rsp}
use gds2_automation.Wire.Auth.{decode_auth_req}
use gds2_automation.Cache.ReadMsgs
use gds2_automation.Cache.Ioctl
use gds2_automation.Cache.FilterDedup
use gds2_automation.Proxy.Caches.{Caches, try_serve_cached, record_in_caches, invalidate_caches}
use gds2_automation.Proxy.Caches.Serving.{recorded_ioctl_served, disconnect_voids_channel}
use gds2_automation.Proxy.Auth.{
  Reason, AuthConfig, Incoming, compute_signature, verify_and_check, verify_signature, replay_check,
  is_replayed_auth, prune, mark_seen, lacks_token, validated_body_length, read_frame_body, answer,
  answer_check, answer_verdict, check_signature, handle_auth_req, dispatch, authenticate_vci,
}
use gds2_automation.Proxy.Auth.Replay.{Accepts, seen_after, attempts, all_before, accepted_once}
use gds2_automation.Proxy.Auth.Early.{early_timestamp_replayed}
use gds2_automation.Proxy.Auth.Sound.{IsAuthentic, authenticate_vci_sound}

abbrev digest_of : Bytes → String
digest_of [] = "empty"
digest_of (b ∷ bs) = if b == 0 then "first" else "second"

abbrev caches : Caches
caches = record {
  reads = ReadMsgs.init (record { enabled = true; ttl_ms = 50 });
  filters = FilterDedup.init true;
  ioctls = record { enabled = true; ttl = 2000; entries = []; hits = 0; misses = 0 };
}

-- GET_CONFIG for the data rate of channel 1, and then for another parameter.
recorded_ioctl_served_example :
    (do
      cs' ←
          record_in_caches digest_of caches 100
            (code ioctl_req)
            (ioctl_req_body 1 1 (some (1 ∷ [])))
            (code ioctl_rsp)
            (ioctl_rsp_body 0 (some (9 ∷ [])))
            (some 1)
      (try_serve_cached digest_of cs' 600
          (code ioctl_req)
          (ioctl_req_body 1 1 (some (3 ∷ [])))
          7).0)
    ≡ (do resp ← frame ioctl_rsp 7 (ioctl_rsp_body 0 (some (9 ∷ []))); ok (some resp, some 1))
unfolding Ioctl.is_cacheable
recorded_ioctl_served_example =
    recorded_ioctl_served digest_of caches 100 600 1 1 7 (some (1 ∷ [])) (some (3 ∷ []))
      (some (9 ∷ [])) refl (unfold Ioctl.is_cacheable in refl) (omega arith) refl

disconnect_voids_channel_example :
    ((do
      cs' ← invalidate_caches caches (code disconnect_req) (words (1 ∷ []))
      (try_serve_cached digest_of cs' 600 (code read_msgs_req) (words (1 ∷ 10 ∷ 100 ∷ [])) 7).0)
      ≡ ok (none, none))
    × ((do
      cs' ← invalidate_caches caches (code disconnect_req) (words (1 ∷ []))
      (try_serve_cached digest_of cs' 600 (code ioctl_req) (ioctl_req_body 1 3 none) 7).0)
        ≡ ok (none, some 3))
disconnect_voids_channel_example =
    disconnect_voids_channel digest_of caches 1 10 100 3 600 7 none refl

-- A keyed digest of 32 bytes.
abbrev mac : Bytes → Bytes → Bytes
mac key message = take 32 (key ++ (message ++ replicate 32 0))

abbrev token : Bytes
token = 5 ∷ 6 ∷ []

abbrev signature : Bytes
signature = 5 ∷ 6 ∷ 0 ∷ 0 ∷ 0 ∷ 0 ∷ 0 ∷ 0 ∷ 3 ∷ 232 ∷ replicate 22 0

accepted_first : Accepts mac (verify_and_check mac 1100 [] token 1000 signature)
unfolding verify_and_check verify_signature compute_signature pack_u64 replay_check is_replayed_auth
    prune mark_seen Dict.get
accepted_first = refl

-- A request of time 1000 that is accepted at 1100, and comes again at 1250, after another one.
accepted_once_example : ¬ (
    Accepts mac (
      verify_and_check mac 1250
        (attempts
          (seen_after mac [] (verify_and_check mac 1100 [] token 1000 signature))
          ((1200, 1 ∷ [], 1200) ∷ []))
        token
        1000
        signature))
accepted_once_example =
    accepted_once mac 1100 1250 [] token 1000 signature ((1200, 1 ∷ [], 1200) ∷ []) (omega arith)
      (unfold all_before in refl) accepted_first

abbrev ahead : Bytes
ahead = 5 ∷ 6 ∷ 0 ∷ 0 ∷ 0 ∷ 0 ∷ 0 ∷ 0 ∷ 5 ∷ 20 ∷ replicate 22 0

ahead_is_signed : compute_signature mac token 1300 ≡ ok ahead
unfolding compute_signature pack_u64
ahead_is_signed = refl

-- A request of time 1300 that is accepted at 1000, and again at 1301, after another one.
early_timestamp_replayed_example :
    Accepts mac (verify_and_check mac 1000 (((900, signature), 950) ∷ []) token 1300 ahead)
    × Accepts mac (
        verify_and_check mac 1301
          (attempts
            (seen_after mac
              (((900, signature), 950) ∷ [])
              (verify_and_check mac 1000 (((900, signature), 950) ∷ []) token 1300 ahead))
            ((1200, 1 ∷ [], 1200) ∷ []))
          token
          1300
          ahead)
early_timestamp_replayed_example =
    early_timestamp_replayed mac 1000 1301 1300 (((900, signature), 950) ∷ []) token ahead
      ((1200, 1 ∷ [], 1200) ∷ []) ahead_is_signed (omega arith) (omega arith) (omega arith)
      (omega arith) (unfold Dict.get in refl) ((λ same. cc), tt)

-- Texts of one-byte characters, and the reason as a text of one character.
abbrev latin : Utf8
latin = record {
  Text = List ℕ;
  empty = [];
  is_empty = λ t. length t == 0;
  encode = λ t. t;
  decode = λ t. t;
  decode-encode = λ t. refl;
  encode-empty = refl;
}

abbrev say : Reason → Bytes
say reason = 82 ∷ []

abbrev required : AuthConfig
required = record { enabled = true; token = some token }

abbrev auth_frame : Incoming
auth_frame = record {
  frame_magic = magic;
  frame_length = 54;
  msg_type = 0xfe;
  sequence = 1;
  arrived = some ((0 ∷ 0 ∷ 0 ∷ 0 ∷ 0 ∷ 0 ∷ 3 ∷ 232 ∷ []) ++ signature);
}

registered :
    (authenticate_vci latin say mac required 1100 [] true true (some auth_frame) none).0 ≡ ok true
unfolding authenticate_vci dispatch handle_auth_req lacks_token check_signature answer_verdict
    answer_check answer read_frame_body validated_body_length code decode_auth_req unpack_u64
    next_word word check_min_len verify_and_check verify_signature compute_signature pack_u64
    pack_u32 pack_u16 replay_check is_replayed_auth prune mark_seen Dict.get encode_auth_rsp frame
    encode pack_header
registered = refl

authenticate_vci_sound_example :
    (frame : Incoming) × (some auth_frame ≡ some frame)
    × IsAuthentic latin say mac required 1100 [] frame
authenticate_vci_sound_example =
    authenticate_vci_sound latin say mac required 1100 [] true true (some auth_frame) none refl
      registered

abbrev flow : StepFlow.DiagnosticsStepFlowState
flow = record {
  session_active = true;
  branch = StepFlow.module_branch;
  current_page = "data_display";
  selected_module = "ecm";
  selected_data_category = "engine";
  vehicle_dtc_ready = false;
  vehicle_dtc_status_message = "";
  category_confirmed = true;
  stream_active = false;
  ai_sse_running = false;
  ai_start_pending = false;
  auto_ai_start_scheduled = false;
  session_live_data_active = false;
  session_ai_active = false;
  session_navigation_active = false;
  output_mode = StepFlow.dtc;
}

abbrev same_text : String → String
same_text text = text

offered_when_idle_example :
    StepFlow.offers same_text same_text same_text
      (StepFlow.build_step_flow_view same_text same_text same_text flow)
    ≡ true
unfolding StepFlow.is_busy
offered_when_idle_example = offered_when_idle same_text same_text same_text flow
