-- ===== src/Http/Message.antt =====
-- protos/http/http.go: messages, and what the parser leaves.
use packetbeat.Base.{length, ◌-◌, ◌∷◌, ℕ, Bool, false, List, []}
use packetbeat.Base.Int.{ℤ, pos}
use packetbeat.Base.Text.{Bytes}
use packetbeat.Base.Slice.{Buffer}

-- The states of the parser.
pub data ParseState : Type 0 where
  start_state fline_state headers_state body_state : ParseState
  body_chunked_start body_chunked body_chunked_wait_final_crlf : ParseState

-- `HttpMessage`; its tuple, processes, direction and raw bytes are arguments of the functions that
-- read them. A nil map of headers is the empty one.
pub record HttpMessage : Type 0 where
  pub ts : ℕ
  pub has_content_length : Bool
  pub header_offset : ℕ
  pub body_offset : ℕ
  pub version_major : ℕ  -- uint8
  pub version_minor : ℕ  -- uint8
  pub connection : Bytes
  pub chunked_length : ℤ
  pub chunked_body : Bytes
  pub is_request : Bool
  pub first_line : Bytes
  pub request_uri : Bytes
  pub method : Bytes
  pub status_code : ℕ  -- uint16
  pub status_phrase : Bytes
  pub real_ip : Bytes
  pub content_length : ℤ
  pub content_type : Bytes
  pub transfer_encoding : Bytes
  pub headers : List (Bytes × Bytes)
  pub start : ℕ
  pub end : ℕ

-- `&HttpMessage{Ts: ts}`
abbrev pub new_message : ℕ → HttpMessage
new_message ts = record {
  ts = ts;
  has_content_length = false;
  header_offset = 0;
  body_offset = 0;
  version_major = 0;
  version_minor = 0;
  connection = [];
  chunked_length = pos 0;
  chunked_body = [];
  is_request = false;
  first_line = [];
  request_uri = [];
  method = [];
  status_code = 0;
  status_phrase = [];
  real_ip = [];
  content_length = pos 0;
  content_type = [];
  transfer_encoding = [];
  headers = [];
  start = 0;
  end = 0;
}

-- What the parser changes of `HttpStream`, and the message.
pub record Cursor : Type 0 where
  pub parse_offset : ℕ
  pub parse_state : ParseState
  pub body_received : ℕ
  pub message : HttpMessage

-- What one round of the loop does: it goes on, or it returns `true, false`, `false, false` or
-- `true, true`, or it panics; `spent` is no result of the code.
pub data Round : Type 0 where
  next : Cursor → Round
  waits : Cursor → Round
  failed : Round
  complete : Cursor → Round
  panicked : Round
  spent : Round

-- The options that the parser reads; `whitelist` is `Headers_whitelist`.
pub record Options : Type 0 where
  pub send_headers : Bool
  pub send_all_headers : Bool
  pub whitelist : List (Bytes × Bool)
  pub real_ip_header : Bytes

-- What `parseHeader` does: it has read a header, with the bytes it took, or the header is not whole;
-- `unread` is no result of the code.
pub data HeaderRead : Type 0 where
  header : HttpMessage → ℕ → HeaderRead
  partial : HeaderRead
  unread : HeaderRead

abbrev pub crlf : Bytes
crlf = 13 ∷ 10 ∷ []

-- `len(s.data[s.parseOffset:])`
abbrev pub left : Buffer → ℕ → ℕ
left d offset = length d.bytes - offset
