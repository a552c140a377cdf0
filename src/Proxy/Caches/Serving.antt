-- ===== src/Proxy/Caches/Serving.antt =====
-- What the server answers from its caches after a response was recorded, a channel was
-- disconnected or a device was closed (vci_proxy/reverse_server.py).
use gds2_automation.Base.{
  ℕ, ◌-◌, ◌≤◌, String, ◌≡◌, refl, sym, ap, ◌∙◌, ◌≢◌, Bool, true, false, Option, none, some, [], ◌∷◌,
  ◌++◌, arith, ◌==◌, nat_eq, string_eq, pair_eq, if◌then◌else◌, Result, ok, err, ◌>>=◌, length,
  take,
}
use gds2_automation.Wire.Pack.{Bytes, is_u32, unpack1, word-bytes4}
use gds2_automation.Wire.Frame.{
  code, read_msgs_req, start_filter_req, ioctl_req, ioctl_rsp, close_req, disconnect_req, all_u32,
  words, frame, pack_words_lem,
}
use gds2_automation.Wire.Requests.{decode_read_msgs_req, decode_disconnect_req}
use gds2_automation.Wire.Fixed.{first1-words, first3-words}
use gds2_automation.Wire.Ioctl.{
  bytes_or_empty, nonempty, decode_ioctl_req, encode_ioctl_rsp, ioctl_req_body, ioctl_rsp_body,
  decode-ioctl_req_body, decode-ioctl_rsp_body,
}
use gds2_automation.Cache.ReadMsgs.{
  try_serve_from_cache-invalidate_channel, try_serve_from_cache-clear,
}
use gds2_automation.Cache.Ioctl
use gds2_automation.Cache.Ioctl.{
  is_cacheable, record-try_get_cached, try_get_cached-invalidate_channel, try_get_cached-invalidate,
}
use gds2_automation.Cache.FilterDedup
use gds2_automation.Base.Dict
use gds2_automation.Proxy.Caches.{
  Caches, Served, plain, serve_read, serve_ioctl, ioctl_reply, record_ioctl, try_serve_cached,
  record_in_caches, drop_channel, clear_all, invalidate_caches,
}

first_word :
    (ch : ℕ) (rest : Bytes) → is_u32 ch ≡ true → unpack1 (take 4 (words (ch ∷ []) ++ rest)) ≡ ok ch
unfolding unpack1
first_word ch rest h = ground (arith, word-bytes4 ch)

-- The reply of a look-up, whatever it counts.
serve_ioctl-fst :
    (cs : Caches) (now seq ch i : ℕ) (input : Option Bytes)
    → (serve_ioctl cs now seq (ok (ch, i, input))).0
      ≡ ioctl_reply i seq (Ioctl.try_get_cached cs.ioctls now ch i).0
unfolding serve_ioctl
serve_ioctl-fst cs now seq ch i input = refl

data_of_nonempty : (o : Option Bytes) → bytes_or_empty (nonempty o) ≡ bytes_or_empty o
data_of_nonempty none = refl
data_of_nonempty (some []) = refl
data_of_nonempty (some (b ∷ bs)) = refl

-- The reply of a recorded success has the body of the response that was recorded.
ioctl_reply-recorded :
    (i seq : ℕ) (output : Option Bytes)
    → all_u32 (0 ∷ length (bytes_or_empty output) ∷ []) ≡ true
    → ioctl_reply i seq (some (0, nonempty output))
      ≡ (do resp ← frame ioctl_rsp seq (ioctl_rsp_body 0 output); ok (some resp, some i))
unfolding ioctl_reply encode_ioctl_rsp
ioctl_reply-recorded i seq output fits =
    rw (data_of_nonempty output)
      (rw (pack_words_lem (0 ∷ length (bytes_or_empty output) ∷ []), fits) refl)

decode_read :
    (ch n t : ℕ)
    → all_u32 (ch ∷ n ∷ t ∷ []) ≡ true
    → decode_read_msgs_req (words (ch ∷ n ∷ t ∷ [])) ≡ ok (ch, n, t)
unfolding decode_read_msgs_req
decode_read ch n t h = first3-words ch n t [] h

module _ (sha256 : Bytes → String) where
  serve_ioctl_request :
      (cs : Caches) (now seq : ℕ) (body : Bytes)
      → try_serve_cached sha256 cs now (code ioctl_req) body seq
        ≡ serve_ioctl cs now seq (decode_ioctl_req body)
  unfolding try_serve_cached code
  serve_ioctl_request cs now seq body = refl

  record_ioctl_response :
      (cs : Caches) (t : ℕ) (body resp : Bytes) (i : ℕ)
      → record_in_caches sha256 cs t (code ioctl_req) body (code ioctl_rsp) resp (some i)
        ≡ record_ioctl cs t body resp (some i)
  unfolding record_in_caches code
  record_ioctl_response cs t body resp i = refl

  record_ioctl_lem :
      (cs : Caches) (t ch i : ℕ) (input output : Option Bytes)
      → all_u32 (ch ∷ i ∷ length (bytes_or_empty input) ∷ []) ≡ true
      → is_u32 (length (bytes_or_empty output)) ≡ true
      → record_ioctl cs t (ioctl_req_body ch i input) (ioctl_rsp_body 0 output) (some i)
        ≡ ok (record cs { ioctls = Ioctl.record_result cs.ioctls t ch i 0 (nonempty output) })
  unfolding record_ioctl
  record_ioctl_lem cs t ch i input output fits fits' =
      rw
        (first_word ch (words (i ∷ length (bytes_or_empty input) ∷ []) ++ bytes_or_empty input)
          (ground arith))
        (rw (decode-ioctl_rsp_body 0 output (ground arith)))

  ioctl_served :
      (cs : Caches) (now seq ch i : ℕ) (input : Option Bytes)
      → all_u32 (ch ∷ i ∷ length (bytes_or_empty input) ∷ []) ≡ true
      → (try_serve_cached sha256 cs now (code ioctl_req) (ioctl_req_body ch i input) seq).0
        ≡ ioctl_reply i seq (Ioctl.try_get_cached cs.ioctls now ch i).0
  ioctl_served cs now seq ch i input fits =
      ap (λ (s : Served). s.0) (serve_ioctl_request cs now seq (ioctl_req_body ch i input))
      ∙ (ap (λ r. (serve_ioctl cs now seq r).0) (decode-ioctl_req_body ch i input fits)
          ∙ serve_ioctl-fst cs now seq ch i (nonempty input))

  -- With the Ioctl cache switched on and fields of 32 bits, once a successful response to an Ioctl of
  -- a cacheable id is recorded, every Ioctl request of that channel and id within the time to live is
  -- answered, whatever input it carries: with the frame of a response that has the recorded body and
  -- the request's sequence number, or with what framing that raises.
  pub recorded_ioctl_served :
      (cs : Caches) (t now ch i seq : ℕ) (input input' output : Option Bytes)
      → cs.ioctls.enabled ≡ true
      → is_cacheable i ≡ true
      → now - t ≤ cs.ioctls.ttl
      → all_u32 (
          ch
          ∷ i
          ∷ length (bytes_or_empty input)
          ∷ length (bytes_or_empty input')
          ∷ length (bytes_or_empty output)
          ∷ [])
        ≡ true
      → (do
        cs' ←
            record_in_caches sha256 cs t
              (code ioctl_req)
              (ioctl_req_body ch i input)
              (code ioctl_rsp)
              (ioctl_rsp_body 0 output)
              (some i)
        (try_serve_cached sha256 cs' now (code ioctl_req) (ioctl_req_body ch i input') seq).0)
        ≡ (do resp ← frame ioctl_rsp seq (ioctl_rsp_body 0 output); ok (some resp, some i))
  recorded_ioctl_served cs t now ch i seq input input' output on known fresh fits =
      rw (record_ioctl_response cs t (ioctl_req_body ch i input) (ioctl_rsp_body 0 output) i) (
        rw (record_ioctl_lem cs t ch i input output (ground arith) (ground arith)) (
          ioctl_served
            (record cs { ioctls = Ioctl.record_result cs.ioctls t ch i 0 (nonempty output) }) now
            seq ch i input' (ground arith)
          ∙ (ap (ioctl_reply i seq)
                (record-try_get_cached cs.ioctls t now ch i (nonempty output) on known fresh)
              ∙ ioctl_reply-recorded i seq output (ground arith))))

  serve_read_request :
      (cs : Caches) (now seq : ℕ) (body : Bytes)
      → try_serve_cached sha256 cs now (code read_msgs_req) body seq
        ≡ serve_read cs now seq (decode_read_msgs_req body)
  unfolding try_serve_cached code
  serve_read_request cs now seq body = refl

  read_served :
      (cs : Caches) (now seq ch n t : ℕ)
      → all_u32 (ch ∷ n ∷ t ∷ []) ≡ true
      → (try_serve_cached sha256 cs now (code read_msgs_req) (words (ch ∷ n ∷ t ∷ [])) seq).0
        ≡ (serve_read cs now seq (ok (ch, n, t))).0
  read_served cs now seq ch n t fits =
      ap (λ (s : Served). s.0) (serve_read_request cs now seq (words (ch ∷ n ∷ t ∷ [])))
      ∙ ap (λ r. (serve_read cs now seq r).0) (decode_read ch n t fits)

  read_after_drop :
      (cs : Caches) (ch n t now seq : ℕ)
      → (serve_read (drop_channel cs ch) now seq (ok (ch, n, t))).0 ≡ ok (none, none)
  unfolding serve_read drop_channel
  read_after_drop cs ch n t now seq =
      rw (try_serve_from_cache-invalidate_channel cs.reads now ch seq)

  ioctl_after_drop :
      (cs : Caches) (ch i now seq : ℕ) (input : Option Bytes)
      → (serve_ioctl (drop_channel cs ch) now seq (ok (ch, i, input))).0 ≡ ok (none, some i)
  unfolding serve_ioctl drop_channel
  ioctl_after_drop cs ch i now seq input = rw (try_get_cached-invalidate_channel cs.ioctls now ch i)

  disconnect_lem :
      (cs : Caches) (ch : ℕ)
      → is_u32 ch ≡ true
      → invalidate_caches cs (code disconnect_req) (words (ch ∷ [])) ≡ ok (drop_channel cs ch)
  unfolding invalidate_caches code decode_disconnect_req
  disconnect_lem cs ch h = rw (first1-words ch [] (ground arith))

  -- For fields of 32 bits, after a Disconnect request of a channel, neither a ReadMsgs request nor
  -- an Ioctl request of that channel is answered from the caches.
  pub disconnect_voids_channel :
      (cs : Caches) (ch n t i now seq : ℕ) (input : Option Bytes)
      → all_u32 (ch ∷ n ∷ t ∷ i ∷ length (bytes_or_empty input) ∷ []) ≡ true
      → ((do
        cs' ← invalidate_caches cs (code disconnect_req) (words (ch ∷ []))
        (try_serve_cached sha256 cs' now (code read_msgs_req) (words (ch ∷ n ∷ t ∷ [])) seq).0)
          ≡ ok (none, none))
        × ((do
          cs' ← invalidate_caches cs (code disconnect_req) (words (ch ∷ []))
          (try_serve_cached sha256 cs' now (code ioctl_req) (ioctl_req_body ch i input) seq).0)
            ≡ ok (none, some i))
  disconnect_voids_channel cs ch n t i now seq input fits = (
    rw (disconnect_lem cs ch (ground arith)) (
        read_served (drop_channel cs ch) now seq ch n t (ground arith)
        ∙ read_after_drop cs ch n t now seq),
    rw (disconnect_lem cs ch (ground arith)) (
        ioctl_served (drop_channel cs ch) now seq ch i input (ground arith)
        ∙ (sym (serve_ioctl-fst (drop_channel cs ch) now seq ch i input)
            ∙ ioctl_after_drop cs ch i now seq input)),
  )

  -- A Close request empties the caches: no request of any type is answered from them then.
  pub close_empties_caches :
      (cs : Caches) (body : Bytes) (now msg_type seq : ℕ) (request reply : Bytes) (i : Option ℕ)
      → (invalidate_caches cs (code close_req) body ≡ ok (clear_all cs))
        × ((try_serve_cached sha256 (clear_all cs) now msg_type request seq).0 ≢ ok (some reply, i))
  close_empties_caches cs body now msg_type seq request reply i = (
    unfold invalidate_caches code in refl,
    unfold try_serve_cached in
        by_type (msg_type == code read_msgs_req) (msg_type == code start_filter_req)
          (msg_type == code ioctl_req) (decode_read_msgs_req request) (decode_ioctl_req request),
  )
    where
      reads_none :
          (r : Result (ℕ × ℕ × ℕ)) → (serve_read (clear_all cs) now seq r).0 ≢ ok (some reply, i)
      reads_none (err e) = unfold serve_read in cc
      reads_none (ok (ch, n, t)) =
          unfold serve_read clear_all in rw (try_serve_from_cache-clear cs.reads now ch seq) (cc)

      ioctls_none :
          (r : Result (ℕ × ℕ × Option Bytes))
          → (serve_ioctl (clear_all cs) now seq r).0 ≢ ok (some reply, i)
      ioctls_none (err e) = unfold serve_ioctl in cc
      ioctls_none (ok (ch, j, input)) =
          unfold serve_ioctl clear_all in rw (try_get_cached-invalidate cs.ioctls now ch j) (cc)

      filters_none :
          (on : Bool)
          → (FilterDedup.try_dedup sha256
              (FilterDedup.clear (record cs.filters { enabled = on }))
              request
              seq).0
            ≡ ok none
      filters_none false = unfold FilterDedup.try_dedup FilterDedup.clear in refl
      filters_none true = unfold FilterDedup.try_dedup FilterDedup.clear Dict.get in refl

      by_type :
          (a b c : Bool) (r : Result (ℕ × ℕ × ℕ)) (q : Result (ℕ × ℕ × Option Bytes))
          → (if a
              then serve_read (clear_all cs) now seq r
              else if b
              then (let (r, filters') =
                    FilterDedup.try_dedup sha256 (clear_all cs).filters request seq in
                  (plain r, record (clear_all cs) { filters = filters' }))
              else if c
              then serve_ioctl (clear_all cs) now seq q
              else (ok (none, none), clear_all cs)).0
            ≢ ok (some reply, i)
      by_type true b c r q = reads_none r
      by_type false true c r q = unfold clear_all in rw (filters_none cs.filters.enabled) (cc)
      by_type false false true r q = ioctls_none q
      by_type false false false r q = cc
