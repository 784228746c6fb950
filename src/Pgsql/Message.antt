-- ===== src/Pgsql/Message.antt =====
-- protos/pgsql/pgsql.go: constants, messages, and what the parsers leave.
-- The functions that the source calls in the vendored libbeat are the fields of `Common`, and are
-- arguments of the definitions that use them.
use packetbeat.Base.{ℕ, ◌+◌, ◌*◌, ◌++◌, ◌≡◌, ◌≢◌, ◌<◌, Bool, false, List, [], ◌∷◌, Option, some}
use packetbeat.Base.Text.{Bytes}

-- `common.Bytes_Ntohs`, `common.Bytes_Ntohl` and `common.ReadString`, which is `none` on an error.
pub record Common : Type 0 where
  pub ntohs : Bytes → ℕ
  pub ntohl : Bytes → ℕ
  pub read_string : Bytes → Option Bytes

-- No byte of the text is 0.
abbrev pub IsText : Bytes → Type 0
IsText [] = Unit
IsText (c ∷ s) = (c ≢ 0) × (c < 256) × IsText s

-- What libbeat documents: big-endian numbers, and strings that end at the first byte 0.
pub record IsCommon (lib : Common) : Type 0 where
  pub ntohs_is : (a b : ℕ) → lib.ntohs (a ∷ b ∷ []) ≡ a * 256 + b
  pub ntohl_is :
      (a b c d : ℕ) → lib.ntohl (a ∷ b ∷ c ∷ d ∷ []) ≡ a * 16777216 + b * 65536 + c * 256 + d
  pub read_string_is : (s rest : Bytes) → IsText s → lib.read_string (s ++ 0 ∷ rest) ≡ some s

pub data ParseState : Type 0 where
  start_state get_data_state : ParseState

-- `SSLRequest`, `StartupMessage` and `CancelRequest`
pub data Command : Type 0 where
  ssl_request startup_message cancel_request : Command

-- `PgsqlMessage`; its tuple, processes and direction are arguments of the functions that read them.
pub record PgsqlMessage : Type 0 where
  pub start : ℕ
  pub end : ℕ
  pub is_ssl_response : Bool
  pub is_ssl_request : Bool
  pub to_export : Bool
  pub ts : ℕ
  pub is_request : Bool
  pub query : Bytes
  pub size : ℕ
  pub fields : List Bytes
  pub fields_format : List ℕ
  pub rows : List (List Bytes)
  pub number_of_rows : ℕ
  pub number_of_fields : ℕ
  pub is_ok : Bool
  pub is_error : Bool
  pub error_info : Bytes
  pub error_code : Bytes
  pub error_severity : Bytes
  pub incomplete : Bool

-- `&PgsqlMessage{Ts: ts}`
abbrev pub new_message : ℕ → PgsqlMessage
new_message ts = record {
  start = 0;
  end = 0;
  is_ssl_response = false;
  is_ssl_request = false;
  to_export = false;
  ts = ts;
  is_request = false;
  query = [];
  size = 0;
  fields = [];
  fields_format = [];
  rows = [];
  number_of_rows = 0;
  number_of_fields = 0;
  is_ok = false;
  is_error = false;
  error_info = [];
  error_code = [];
  error_severity = [];
  incomplete = false;
}

-- What the parser changes of `PgsqlStream`, and the message.
pub record Cursor : Type 0 where
  pub parse_offset : ℕ
  pub parse_state : ParseState
  pub message : PgsqlMessage

-- What one round of the loop does: it goes on, it returns `true, false` or `true, true`, or it
-- panics; `spent` is no result of the code.
pub data Round : Type 0 where
  next : Cursor → Round
  waits : Cursor → Round
  complete : Cursor → Round
  panicked : Round
  spent : Round
