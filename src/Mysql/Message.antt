-- ===== src/Mysql/Message.antt =====
-- protos/mysql/mysql.go: constants, messages, and what a round of the parser leaves.
use packetbeat.Base.{ℕ, Bool, false, []}
use packetbeat.Base.Text.{Bytes}

abbrev pub mysql_cmd_query : ℕ
mysql_cmd_query = 3

abbrev pub max_payload_size : ℕ
max_payload_size = 102_400  -- 100 * 1024

pub data ParseState : Type 0 where
  state_start state_eat_message state_eat_fields state_eat_rows : ParseState

-- `MysqlMessage`. `Fields` and `Rows` are not used, and the tuple, the processes, the direction
-- and the raw bytes that `handleMysql` stores in it are arguments of the functions that read them.
pub record MysqlMessage : Type 0 where
  pub start : ℕ
  pub end : ℕ
  pub ts : ℕ
  pub is_request : Bool
  pub packet_length : ℕ  -- uint32
  pub seq : ℕ  -- uint8
  pub typ : ℕ  -- uint8
  pub number_of_rows : ℕ
  pub number_of_fields : ℕ
  pub size : ℕ
  pub tables : Bytes
  pub is_ok : Bool
  pub affected_rows : ℕ
  pub insert_id : ℕ
  pub is_error : Bool
  pub error_code : ℕ
  pub error_info : Bytes
  pub query : Bytes
  pub ignore_message : Bool
  pub is_truncated : Bool

-- `&MysqlMessage{Ts: ts}`
abbrev pub new_message : ℕ → MysqlMessage
new_message ts = record {
  start = 0;
  end = 0;
  ts = ts;
  is_request = false;
  packet_length = 0;
  seq = 0;
  typ = 0;
  number_of_rows = 0;
  number_of_fields = 0;
  size = 0;
  tables = [];
  is_ok = false;
  affected_rows = 0;
  insert_id = 0;
  is_error = false;
  error_code = 0;
  error_info = [];
  query = [];
  ignore_message = false;
  is_truncated = false;
}

-- What the parser changes: the fields of `MysqlStream` but its data, and the message.
pub record Cursor : Type 0 where
  pub parse_offset : ℕ
  pub parse_state : ParseState
  pub is_client : Bool
  pub message : MysqlMessage

-- What one round of the loop does: it goes on, it returns `true, false`, `false, false` or
-- `true, true`, or it panics.
pub data Round : Type 0 where
  next : Cursor → Round
  waits : Cursor → Round
  failed : Round
  complete : Cursor → Round
  panicked : Round
