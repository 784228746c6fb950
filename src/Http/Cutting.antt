-- ===== src/Http/Cutting.antt =====
-- protos/http/http.go: messages whose headers end inside their bytes are cut and parsed without a panic.
use packetbeat.Base.{
  ◌+◌, ◌≤◌, ◌++◌, ◌≡◌, refl, inl, inr, ◌&&◌, ◌||◌, List, [], some, length, take, drop, ltb,
  Bool-cases, Option-cases, arith, length-append, length-take, ◌==◌,
}
use packetbeat.Base.GoMap.{bytes_instance}
use packetbeat.Base.Int.{is_positive}
use packetbeat.Base.Text.{Bytes, codes}
use packetbeat.Http.Message.{HttpMessage}
use packetbeat.Http.Parameters.{
  Urls, hide_secrets, put_all, contains, extract_parameters, should_include_in_body, with_chunks,
  cut_message_body,
}
use packetbeat.Http.State.{HttpTransaction, Http}
use packetbeat.Http.Transactions.{cut_request, cut_response}
use packetbeat.Base.Slice.{slice?-head, rest?-inside, Buffer}

-- The headers end inside the bytes: then the body is cut.
cut_message_body-some :
    (include : List Bytes) (m : HttpMessage) (raw : Buffer)
    → m.body_offset ≤ length raw.bytes
    → (r : Bytes × Buffer) × (cut_message_body include m raw ≡ some r)
      × (m.body_offset ≤ length r.1.bytes)
unfolding cut_message_body with_chunks
cut_message_body-some include m raw h =
    let headers = take m.body_offset (raw.bytes ++ raw.spare) in
    let len : length headers ≡ m.body_offset = ground (
      arith,
      length-take m.body_offset (raw.bytes ++ raw.spare),
      length-append raw.bytes raw.spare,
    ) in
    let cut = slice?-head raw m.body_offset h in
    let rest = rest?-inside raw m.body_offset h in
    elim (Bool-cases
      (length m.content_type == 0 || should_include_in_body include m.content_type)) [
        | inr f ↦ ((headers, raw), rw (cut_message_body, cut, f) refl, h)
        | inl t ↦ elim (Bool-cases (ltb 0 (length m.chunked_body))) [
          | inl c ↦ (
            with_chunks m headers raw,
            rw (cut_message_body, cut, t, c) refl,
            ground (
              arith,
              len,
              length-append headers
                  (m.chunked_body ++ drop (length headers + length m.chunked_body) raw.bytes),
            ),
          )
          | inr c ↦ (
            (headers ++ drop m.body_offset raw.bytes, raw),
            rw (cut_message_body, cut, t, c, rest) refl,
            h,
          )
        ]
      ]

pub extract_parameters-some :
    (urls : Urls) (keywords : List Bytes) (m : HttpMessage) (msg : Buffer)
    → m.body_offset ≤ length msg.bytes
    → (r : Bytes × Bytes) × (extract_parameters urls keywords m msg ≡ some r)
unfolding extract_parameters
extract_parameters-some urls keywords m msg h = elim (Option-cases (urls.parse m.request_uri)) [
  | inl u ↦ (([], []), rw (extract_parameters, u) refl)
  | inr ((p, values), u) ↦
      elim (Bool-cases
        (is_positive m.content_length && contains m.content_type (codes "urlencoded"))) [
          | inr f ↦
              ((p, urls.encode (hide_secrets keywords values)), rw (extract_parameters, u, f) refl)
          | inl t ↦
              let rest = rest?-inside msg m.body_offset h in
              elim (Option-cases (urls.parse_query (drop m.body_offset msg.bytes))) [
                | inl b ↦ ((p, []), rw (extract_parameters, u, t, rest, b) refl)
                | inr (form, b) ↦ (
                  (
                    p,
                    urls.encode
                        (put_all (hide_secrets keywords form) (hide_secrets keywords values)),
                  ),
                  rw (extract_parameters, u, t, rest, b) refl,
                )
              ]
        ]
]

pub cut_request-some :
    (http : Http) (msg : HttpMessage) (raw : Buffer) (trans : HttpTransaction)
    → msg.body_offset ≤ length raw.bytes
    → (x : Bytes) × (raw' : Buffer) × (cut_request http msg raw trans
        ≡ some (record trans { request_raw = x }, raw'))
      × (msg.body_offset ≤ length raw'.bytes)
unfolding cut_request
cut_request-some http msg raw trans h = elim (Bool-cases (http.send_request)) [
  | inr f ↦ (trans.request_raw, raw, rw (cut_request, f) refl, h)
  | inl t ↦
      let ((x, raw'), e, l) = cut_message_body-some http.include_body_for msg raw h in
      (x, raw', rw (cut_request, t, e) refl, l)
]

pub cut_response-some :
    (http : Http) (msg : HttpMessage) (raw : Buffer) (trans : HttpTransaction)
    → msg.body_offset ≤ length raw.bytes
    → (x : Bytes) × (raw' : Buffer) × (cut_response http msg raw trans
        ≡ some (record trans { response_raw = x }, raw'))
unfolding cut_response
cut_response-some http msg raw trans h = elim (Bool-cases (http.send_response)) [
  | inr f ↦ (trans.response_raw, raw, rw (cut_response, f) refl)
  | inl t ↦
      let ((x, raw'), e, l) = cut_message_body-some http.include_body_for msg raw h in
      (x, raw', rw (cut_response, t, e) refl)
]
