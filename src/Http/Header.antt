-- ===== src/Http/Header.antt =====
-- protos/http/http.go: versions, status lines, and `parseHeader`.
use packetbeat.Base.{
  ℕ, zero, suc, ◌+◌, ◌-◌, ◌%◌, ◌++◌, Bool, true, false, ◌&&◌, ◌||◌, [], ◌∷◌, Option, none, some,
  length, take, drop, get_or, ltb, ◌==◌, if◌then◌else◌,
}
use packetbeat.Base.Find.{index}
use packetbeat.Base.GoMap.{lookup, put, bytes_eq, bytes_instance}
use packetbeat.Base.Int.{ℤ, pos, negsuc, pos_part}
use packetbeat.Base.Scan.{to_lower, last_index, atoi}
use packetbeat.Base.Text.{Bytes, codes, trim_by}
use packetbeat.Http.Message.{HttpMessage, Options, crlf, HeaderRead, header, partial, unread}

-- `uint16(n)`, for an int.
abbrev pub to_uint16 : ℤ → ℕ
to_uint16 (pos n) = n % 65536
to_uint16 (negsuc n) = 65535 - n % 65536

-- `parseVersion`, with what `messageParser` takes on its error.
unfoldable pub parse_version : Bytes → ℕ × ℕ
parse_version (a ∷ b ∷ c ∷ s) = (pos_part (atoi (a ∷ [])), pos_part (atoi (c ∷ [])))
parse_version _ = (1, 0)

-- `parseResponseStatus`; `none` is its error.
unfoldable pub parse_response_status : Bytes → Option (ℕ × Bytes)
parse_response_status s = elim (index (b' ' ∷ []) s) [
  | none ↦ none
  | some p ↦ elim (last_index b' ' s) [
    | none ↦ none
    | some p' ↦ some (to_uint16 (atoi (take p s)), drop (p' + 1) s)
  ]
]

-- The fields that the parser needs itself, and the address of the client.
unfoldable pub known_header : Options → Bytes → Bytes → HttpMessage → HttpMessage
known_header http name value m =
    let m' : HttpMessage =
      if bytes_eq name (codes "content-length")
      then record m { content_length = atoi value; has_content_length = true }
      else if bytes_eq name (codes "content-type")
      then record m { content_type = value }
      else if bytes_eq name (codes "transfer-encoding")
      then record m { transfer_encoding = value }
      else if bytes_eq name (codes "connection")
      then record m { connection = value }
      else m in
    if ltb 0 (length http.real_ip_header) && bytes_eq name http.real_ip_header
    then record m' { real_ip = value }
    else m'

-- The value of a header that may have been there before.
unfoldable pub joined_header : Bytes → Option Bytes → Bytes
joined_header value none = value
joined_header value (some old) = old ++ (codes ", " ++ value)

abbrev pub is_listed : Option Bool → Bool
is_listed none = false
is_listed (some b) = true

unfoldable pub stored_header : Options → Bytes → Bytes → HttpMessage → HttpMessage
unfolding joined_header
stored_header http name value m =
    if http.send_headers && (http.send_all_headers || is_listed (lookup name http.whitelist))
    then record m { headers = put name (joined_header value (lookup name m.headers)) m.headers }
    else m

abbrev pub is_tab_or_space : ℕ → Bool
is_tab_or_space c = c == 32 || c == 9

-- A header with its name before the place `i` and its value from there to the place `p`.
unfoldable pub read_header : Options → Bytes → ℕ → ℕ → HttpMessage → HttpMessage
read_header http text i p m =
    let name = to_lower (take i text) in
    let value = trim_by is_tab_or_space (take (p - (i + 1)) (drop (i + 1) text)) in
    stored_header http name value (known_header http name value m)

-- The loop over folded lines.
unfoldable pub fold_loop : Options → Bytes → ℕ → ℕ → ℕ → HttpMessage → HeaderRead
fold_loop http text i zero p m = unread
fold_loop http text i (suc fuel) p m =
    if ltb p (length text)
    then elim (index crlf (drop p text)) [
      | none ↦ partial
      | some q ↦ elim (is_tab_or_space (get_or text (p + q + 1) 0)) [
        | true ↦ fold_loop http text i fuel (p + q + 2) m
        | false ↦ header (read_header http text i (p + q) m) (p + q + 2)
      ]
    ]
    else partial

-- `parseHeader`; each round moves by two bytes at least.
unfoldable pub parse_header : Options → HttpMessage → Bytes → HeaderRead
parse_header http m text = elim (index (b':' ∷ []) text) [
  | none ↦ partial
  | some i ↦ fold_loop http text i (length text + 1) (i + 1) m
]
