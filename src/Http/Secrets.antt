-- ===== src/Http/Secrets.antt =====
-- protos/http/http.go: `extractParameters` shows no secret.
use packetbeat.Base.{
  ◌≡◌, ◌⊎◌, refl, sym, ap, inl, inr, true, ◌&&◌, List, [], ◌∷◌, Option, none, some, Bool-cases,
  Option-cases,
}
use packetbeat.Base.GoMap.{put, bytes_eq, bytes_instance}
use packetbeat.Base.Int.{is_positive}
use packetbeat.Base.Text.{Bytes, codes}
use packetbeat.Http.Message.{HttpMessage}
use packetbeat.Http.Parameters.{
  Urls, Values, is_secret_parameter, hidden_text, hide_values, add_values, hide_secrets, put_all,
  contains, extract_parameters,
}
use packetbeat.Base.Slice.{Buffer, rest?}

-- Each text is "xxxxx".
abbrev pub AllHidden : List Bytes → Type 0
AllHidden [] = Unit
AllHidden (v ∷ vs) = (v ≡ hidden_text) × AllHidden vs

-- The texts of each secret key are hidden.
abbrev pub ShowsNone : List Bytes → Values → Type 0
ShowsNone keywords [] = Unit
ShowsNone keywords ((k, vs) ∷ rest) =
    (is_secret_parameter keywords k ≡ true → AllHidden vs) × ShowsNone keywords rest

hide_values-AllHidden : (vs : List Bytes) → AllHidden (hide_values true vs)
unfolding hide_values
hide_values-AllHidden [] = tt
hide_values-AllHidden (v ∷ vs) = (refl, hide_values-AllHidden vs)

add_values-ShowsNone :
    (keywords : List Bytes) (k : Bytes) (vs : List Bytes) (rest : Values)
    → (is_secret_parameter keywords k ≡ true → AllHidden vs)
    → ShowsNone keywords rest
    → ShowsNone keywords (add_values k vs rest)
add_values-ShowsNone keywords k [] rest h r = r
add_values-ShowsNone keywords k (v ∷ vs) rest h r = (h, r)

hide_secrets-ShowsNone :
    (keywords : List Bytes) (values : Values) → ShowsNone keywords (hide_secrets keywords values)
unfolding hide_secrets
hide_secrets-ShowsNone keywords [] = tt
hide_secrets-ShowsNone keywords ((k, vs) ∷ rest) =
    add_values-ShowsNone keywords k (hide_values (is_secret_parameter keywords k) vs)
      (hide_secrets keywords rest) (λ s. rw s (hide_values-AllHidden vs))
      (hide_secrets-ShowsNone keywords rest)

put-ShowsNone :
    (keywords : List Bytes) (k : Bytes) (vs : List Bytes) (set : Values)
    → (is_secret_parameter keywords k ≡ true → AllHidden vs)
    → ShowsNone keywords set
    → ShowsNone keywords (put k vs set)
unfolding put
put-ShowsNone keywords k vs [] h s = (h, tt)
put-ShowsNone keywords k vs ((j, ws) ∷ set) h s = elim (Bool-cases (bytes_eq j k)) [
  | inl t ↦ rw (put, t) (h, s.1)
  | inr f ↦ rw (put, f) (s.0, put-ShowsNone keywords k vs set h s.1)
]

put_all-ShowsNone :
    (keywords : List Bytes) (values set : Values)
    → ShowsNone keywords values
    → ShowsNone keywords set
    → ShowsNone keywords (put_all values set)
unfolding put_all
put_all-ShowsNone keywords [] set v s = s
put_all-ShowsNone keywords ((k, vs) ∷ values) set v s =
    put_all-ShowsNone keywords values (put k vs set) v.1 (put-ShowsNone keywords k vs set v.0 s)

abbrev params_of : Option (Bytes × Bytes) → Bytes
params_of none = []
params_of (some r) = r.1

params_are :
    (path params q b : Bytes)
    → ◌≡◌ {A = Option (Bytes × Bytes)} (some (q, b)) (some (path, params))
    → params ≡ b
params_are path params q b h = ap params_of (sym h)

none_are : (r : Bytes × Bytes) → ◌≡◌ {A = Option (Bytes × Bytes)} none (some r) → ⊥
none_are r h = cc

-- The parameters of a request are empty, or the encoding of values in which every text of a key
-- that is, in lower case, one of `Hide_keywords` is "xxxxx", whatever net/url makes of the request.
pub extract_parameters-ShowsNone :
    (urls : Urls) (keywords : List Bytes) (m : HttpMessage) (msg : Buffer) (path params : Bytes)
    → extract_parameters urls keywords m msg ≡ some (path, params)
    → (params ≡ [])
      ⊎ ((values : Values) × (params ≡ urls.encode values) × ShowsNone keywords values)
unfolding extract_parameters
extract_parameters-ShowsNone urls keywords m msg path params e =
    elim (Option-cases (urls.parse m.request_uri)) [
      | inl u ↦ inl (params_are path params [] [] (rw (extract_parameters, u) at e))
      | inr ((p, values), u) ↦
          let shown = hide_secrets keywords values in
          let shows = hide_secrets-ShowsNone keywords values in
          elim (Bool-cases
            (is_positive m.content_length && contains m.content_type (codes "urlencoded"))) [
              | inr f ↦ inr (
                shown,
                params_are path params p (urls.encode shown) (rw (extract_parameters, u, f) at e),
                shows,
              )
              | inl t ↦ elim (Option-cases (rest? msg m.body_offset)) [
                | inl r ↦ absurd (none_are (path, params) (rw (extract_parameters, u, t, r) at e))
                | inr (body, r) ↦ elim (Option-cases (urls.parse_query body)) [
                  | inl b ↦
                      inl (params_are path params p [] (rw (extract_parameters, u, t, r, b) at e))
                  | inr (form, b) ↦
                      let all = put_all (hide_secrets keywords form) shown in
                      inr (
                        all,
                        params_are path params p (urls.encode all)
                            (rw (extract_parameters, u, t, r, b) at e),
                        put_all-ShowsNone keywords (hide_secrets keywords form) shown
                            (hide_secrets-ShowsNone keywords form) shows,
                      )
                ]
              ]
            ]
    ]
