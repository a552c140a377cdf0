-- ===== src/Proxy/Caches.antt =====
-- The caches of the server: serving a request, voiding entries, recording a response
-- (_try_serve_cached, _invalidate_caches and _record_in_caches of vci_proxy/reverse_server.py).
pub mod Serving
use gds2_automation.Base.{
  ℕ, ◌-◌, String, ◌&&◌, Option, none, some, arith, ◌==◌, nat_eq, string_eq, pair_eq, if◌then◌else◌,
  Result, ok, err, ◌>>=◌, ◌>>◌, take,
}
use gds2_automation.Base.Dict
use gds2_automation.Base.Dict.{Dict, get-put, get-pop}
use gds2_automation.Wire.Pack.{Bytes, unpack1}
use gds2_automation.Wire.Frame.{
  code, read_msgs_req, start_filter_req, start_filter_rsp, ioctl_req, ioctl_rsp, disconnect_req,
  close_req, stop_filter_req,
}
use gds2_automation.Wire.Requests.{
  decode_read_msgs_req, decode_disconnect_req, decode_stop_filter_req,
}
use gds2_automation.Wire.Responses.{decode_start_filter_rsp}
use gds2_automation.Wire.Ioctl.{encode_ioctl_rsp, decode_ioctl_req, decode_ioctl_rsp}
use gds2_automation.Cache.ReadMsgs
use gds2_automation.Cache.ReadMsgs.{ReadMsgsCache}
use gds2_automation.Cache.Ioctl
use gds2_automation.Cache.Ioctl.{IoctlCache, is_cacheable}
use gds2_automation.Cache.FilterDedup
use gds2_automation.Cache.FilterDedup.{FilterDedup}

-- The caches of the server.
pub record Caches : Type 0 where
  pub reads : ReadMsgsCache
  pub filters : FilterDedup
  pub ioctls : IoctlCache

-- A cached reply and the id of the Ioctl, and the caches after the look-up; a raise keeps what the
-- look-up counted.
abbrev pub Served : Type 0
Served = Result (Option Bytes × Option ℕ) × Caches

-- A reply with no Ioctl id.
abbrev pub plain : Result (Option Bytes) → Result (Option Bytes × Option ℕ)
plain r = r >>= λ o. ok (o, none)

unfoldable pub serve_read : Caches → ℕ → ℕ → Result (ℕ × ℕ × ℕ) → Served
serve_read cs now seq (err e) = (err e, cs)
serve_read cs now seq (ok (channel_id, num_msgs, timeout)) =
    let (r, reads') = ReadMsgs.try_serve_from_cache cs.reads now channel_id seq in
    (plain r, record cs { reads = reads' })

unfoldable pub ioctl_reply : ℕ → ℕ → Option (ℕ × Option Bytes) → Result (Option Bytes × Option ℕ)
ioctl_reply ioctl_id seq none = ok (none, some ioctl_id)
ioctl_reply ioctl_id seq (some (ret, output_data)) = do
  resp ← encode_ioctl_rsp ret output_data seq
  ok (some resp, some ioctl_id)

unfoldable pub serve_ioctl : Caches → ℕ → ℕ → Result (ℕ × ℕ × Option Bytes) → Served
unfolding ioctl_reply
serve_ioctl cs now seq (err e) = (err e, cs)
serve_ioctl cs now seq (ok (channel_id, ioctl_id, input)) =
    let (o, ioctls') = Ioctl.try_get_cached cs.ioctls now channel_id ioctl_id in
    (ioctl_reply ioctl_id seq o, record cs { ioctls = ioctls' })

unfoldable pub record_ioctl : Caches → ℕ → Bytes → Bytes → Option ℕ → Result Caches
record_ioctl cs now body resp_body none = ok cs
record_ioctl cs now body resp_body (some i) = do
  channel_id ← unpack1 (take 4 body)
  (ret, output_data) ← decode_ioctl_rsp resp_body
  ok (record cs { ioctls = Ioctl.record_result cs.ioctls now channel_id i ret output_data })

module _ (sha256 : Bytes → String) where
  -- `now` is the reading of the monotonic clock.
  unfoldable pub try_serve_cached : Caches → ℕ → ℕ → Bytes → ℕ → Served
  unfolding serve_read serve_ioctl
  try_serve_cached cs now msg_type body seq =
      if msg_type == code read_msgs_req
      then serve_read cs now seq (decode_read_msgs_req body)
      else if msg_type == code start_filter_req
      then (let (r, filters') = FilterDedup.try_dedup sha256 cs.filters body seq in
          (plain r, record cs { filters = filters' }))
      else if msg_type == code ioctl_req
      then serve_ioctl cs now seq (decode_ioctl_req body)
      else (ok (none, none), cs)

  unfoldable pub record_in_caches : Caches → ℕ → ℕ → Bytes → ℕ → Bytes → Option ℕ → Result Caches
  unfolding record_ioctl
  record_in_caches cs now msg_type body resp_type resp_body ioctl_id =
      if msg_type == code read_msgs_req
      then (do
        channel_id ← unpack1 (take 4 body)
        return_code ← unpack1 (take 4 resp_body)
        ok (record cs { reads = ReadMsgs.record_result cs.reads now channel_id return_code }))
      else if msg_type == code start_filter_req && resp_type == code start_filter_rsp
      then (do
        (return_code, filter_id) ← decode_start_filter_rsp resp_body
        filters' ← FilterDedup.record_result sha256 cs.filters body filter_id return_code resp_body
        ok (record cs { filters = filters' }))
      else if msg_type == code ioctl_req && resp_type == code ioctl_rsp
      then record_ioctl cs now body resp_body ioctl_id
      else ok cs

unfoldable pub drop_channel : Caches → ℕ → Caches
drop_channel cs channel_id = record {
  reads = ReadMsgs.invalidate_channel cs.reads channel_id;
  filters = FilterDedup.invalidate_channel cs.filters channel_id;
  ioctls = Ioctl.invalidate_channel cs.ioctls channel_id;
}

unfoldable pub clear_all : Caches → Caches
clear_all cs = record {
  reads = ReadMsgs.clear cs.reads;
  filters = FilterDedup.clear cs.filters;
  ioctls = Ioctl.invalidate cs.ioctls;
}

unfoldable pub invalidate_caches : Caches → ℕ → Bytes → Result Caches
unfolding drop_channel clear_all
invalidate_caches cs msg_type body =
    if msg_type == code disconnect_req
    then (do channel_id ← decode_disconnect_req body; ok (drop_channel cs channel_id))
    else if msg_type == code close_req
    then ok (clear_all cs)
    else if msg_type == code stop_filter_req
    then (do
      (channel_id, filter_id) ← decode_stop_filter_req body
      ok (record cs { filters = FilterDedup.on_stop_filter cs.filters filter_id }))
    else ok cs
