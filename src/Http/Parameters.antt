-- ===== src/Http/Parameters.antt =====
-- protos/http/http.go: cookies, the parameters of a request and which of them are secret, and the part
-- of a message that is kept. The package net/url is the record `Urls`.
use packetbeat.Base.{
  ◌+◌, ◌++◌, Bool, true, false, ◌&&◌, ◌||◌, List, [], ◌∷◌, Option, none, some, length, take, drop,
  get_or, ltb, ◌==◌, if◌then◌else◌, ◌-◌,
}
use packetbeat.Base.Find.{index}
use packetbeat.Base.GoMap.{put, bytes_eq, bytes_instance}
use packetbeat.Base.Int.{is_positive}
use packetbeat.Base.Scan.{to_lower}
use packetbeat.Base.Space.{trim_space}
use packetbeat.Base.Text.{Bytes, codes, split}
use packetbeat.Base.Slice.{Buffer, slice?, rest?}
use packetbeat.Http.Message.{HttpMessage}
use packetbeat.Http.State.{HeaderValue, plain, cookies}

-- `url.Values`: the texts of each key.
abbrev pub Values : Type 0
Values = List (Bytes × List Bytes)

-- What the source uses of net/url. `parse` gives the path and the values of `url.Parse` and `Query`,
-- and `none` is an error.
pub record Urls : Type 0 where
  pub parse : Bytes → Option (Bytes × Values)
  pub parse_query : Bytes → Option Values
  pub encode : Values → Bytes

-- `parseCookieValue`
unfoldable pub parse_cookie_value : Bytes → Bytes
parse_cookie_value raw =
    let last = length raw - 1 in
    if ltb 1 (length raw) && (get_or raw 0 0 == b'"' && get_or raw last 0 == b'"')
    then take (last - 1) (drop 1 raw)
    else raw

-- The loop of `splitCookiesHeader`.
unfoldable pub add_cookies : List Bytes → List (Bytes × Bytes) → List (Bytes × Bytes)
add_cookies [] set = set
add_cookies (c ∷ cs) set = elim (index (codes "=") c) [
  | none ↦ add_cookies cs set
  | some i ↦ add_cookies cs (
      put (to_lower (trim_space (take i c))) (parse_cookie_value (trim_space (drop (i + 1) c))) set)
]

-- `splitCookiesHeader`
unfoldable pub split_cookies_header : Bytes → List (Bytes × Bytes)
unfolding add_cookies
split_cookies_header v = add_cookies (split v b';') []

-- The headers of an event, where the value of one name is split.
unfoldable pub shown_headers : Bool → Bytes → List (Bytes × Bytes) → List (Bytes × HeaderValue)
shown_headers split_cookie name [] = []
shown_headers split_cookie name ((n, v) ∷ hs) =
    let rest = shown_headers split_cookie name hs in
    if split_cookie && bytes_eq n name
    then (n, cookies (split_cookies_header v)) ∷ rest
    else (n, plain v) ∷ rest

-- `isSecretParameter`
unfoldable pub is_secret_parameter : List Bytes → Bytes → Bool
is_secret_parameter [] key = false
is_secret_parameter (k ∷ ks) key =
    let rest = is_secret_parameter ks key in if bytes_eq (to_lower key) k then true else rest

abbrev pub hidden_text : Bytes
hidden_text = codes "xxxxx"

unfoldable pub hide_values : Bool → List Bytes → List Bytes
hide_values secret [] = []
hide_values secret (v ∷ vs) = (if secret then hidden_text else v) ∷ hide_values secret vs

abbrev pub add_values : Bytes → List Bytes → Values → Values
add_values key [] rest = rest
add_values key (v ∷ vs) rest = (key, v ∷ vs) ∷ rest

-- `hideSecrets`; a key without texts is not added.
unfoldable pub hide_secrets : List Bytes → Values → Values
hide_secrets keywords [] = []
hide_secrets keywords ((key, vs) ∷ rest) =
    add_values key (hide_values (is_secret_parameter keywords key) vs) (hide_secrets keywords rest)

unfoldable pub put_all : Values → Values → Values
put_all [] set = set
put_all ((k, vs) ∷ rest) set = put_all rest (put k vs set)

-- `strings.Contains`
abbrev pub contains : Bytes → Bytes → Bool
contains s sub = elim (index sub s) [ none ↦ false | some i ↦ true ]

-- `extractParameters`, with the bytes of the message: the path and the parameters, which are empty
-- behind an error, or a panic.
unfoldable pub extract_parameters :
    Urls → List Bytes → HttpMessage → Buffer → Option (Bytes × Bytes)
extract_parameters urls keywords m msg = elim (urls.parse m.request_uri) [
  | none ↦ some ([], [])
  | some (path, values) ↦
      let shown = hide_secrets keywords values in
      if is_positive m.content_length && contains m.content_type (codes "urlencoded")
      then elim (rest? msg m.body_offset) [
        | none ↦ none
        | some body ↦ elim (urls.parse_query body) [
          | none ↦ some (path, [])
          | some form ↦ some (path, urls.encode (put_all (hide_secrets keywords form) shown))
        ]
      ]
      else some (path, urls.encode shown)
]

-- `shouldIncludeInBody`
unfoldable pub should_include_in_body : List Bytes → Bytes → Bool
should_include_in_body [] content_type = false
should_include_in_body (i ∷ is) content_type =
    let rest = should_include_in_body is content_type in
    if contains content_type i then true else rest

-- What `cutMessageBody` gives, and the bytes of the message behind it: a body of chunks is appended
-- to the headers in place.
unfoldable pub with_chunks : HttpMessage → Bytes → Buffer → Bytes × Buffer
with_chunks m headers raw =
    let end = length headers + length m.chunked_body in
    (
      headers ++ m.chunked_body,
      record raw { bytes = headers ++ (m.chunked_body ++ drop end raw.bytes) },
    )

-- `cutMessageBody`, or a panic.
unfoldable pub cut_message_body : List Bytes → HttpMessage → Buffer → Option (Bytes × Buffer)
cut_message_body include m raw = elim (slice? raw 0 m.body_offset) [
  | none ↦ none
  | some headers ↦
      if length m.content_type == 0 || should_include_in_body include m.content_type
      then (if ltb 0 (length m.chunked_body)
          then some (with_chunks m headers raw)
          else elim (rest? raw m.body_offset) [
            | none ↦ none
            | some body ↦ some (headers ++ body, raw)
          ])
      else some (headers, raw)
]
