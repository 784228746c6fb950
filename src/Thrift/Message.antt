-- ===== src/Thrift/Message.antt =====
-- protos/thrift/thrift.go: constants, options, messages, and what the readers leave.
-- The functions that the source calls in the vendored libbeat, and those of Go's library that
-- stand on its tables of Unicode or on floating point, are the fields of `Library`.
use packetbeat.Base.{ℕ, ◌+◌, ◌*◌, ◌≡◌, Bool, false, List, [], ◌∷◌, Option}
use packetbeat.Base.Int.{ℤ}
use packetbeat.Base.Text.{Bytes}

-- `common.Bytes_Ntohs`, `common.Bytes_Ntohl`, `common.Bytes_Ntohll`, `utf8.ValidString`,
-- `strconv.Quote`, and `strconv.FormatFloat(math.Float64frombits(bits), 'f', -1, 64)`.
pub record Library : Type 0 where
  pub ntohs : Bytes → ℕ
  pub ntohl : Bytes → ℕ
  pub ntohll : Bytes → ℕ
  pub valid_string : Bytes → Bool
  pub quote : Bytes → Bytes
  pub format_float : ℕ → Bytes

-- `int(b[0])*256 + ...`, as `binary.BigEndian` reads.
abbrev pub big_endian : ℕ → Bytes → ℕ
big_endian acc [] = acc
big_endian acc (b ∷ bs) = big_endian (acc * 256 + b) bs

-- What libbeat documents: big-endian numbers of two, four and eight bytes.
pub record IsLibrary (lib : Library) : Type 0 where
  pub ntohs_is : (a b : ℕ) → lib.ntohs (a ∷ b ∷ []) ≡ big_endian 0 (a ∷ b ∷ [])
  pub ntohl_is : (a b c d : ℕ) → lib.ntohl (a ∷ b ∷ c ∷ d ∷ []) ≡ big_endian 0 (a ∷ b ∷ c ∷ d ∷ [])
  pub ntohll_is :
      (a b c d e f g h : ℕ)
      → lib.ntohll (a ∷ b ∷ c ∷ d ∷ e ∷ f ∷ g ∷ h ∷ [])
        ≡ big_endian 0 (a ∷ b ∷ c ∷ d ∷ e ∷ f ∷ g ∷ h ∷ [])

-- What the source reads of the types of the vendored go-thrift. The order of a map is the one in
-- which `range` goes through it.
pub record ParserField : Type 0 where
  pub id : ℤ
  pub name : Bytes

pub record ParserMethod : Type 0 where
  pub name : Bytes
  pub arguments : List ParserField
  pub exceptions : List ParserField

pub record ParserService : Type 0 where
  pub name : Bytes
  pub methods : List (Bytes × ParserMethod)

-- `ThriftIdlMethod`; a name of `none` is nil.
pub record ThriftIdlMethod : Type 0 where
  pub service : ParserService
  pub method : ParserMethod
  pub params : List (Option Bytes)
  pub exceptions : List (Option Bytes)

-- `ThriftIdl`, its `MethodsByName`.
abbrev pub ThriftIdl : Type 0
ThriftIdl = List (Bytes × ThriftIdlMethod)

abbrev pub socket_transport : ℕ
socket_transport = 1

abbrev pub framed_transport : ℕ
framed_transport = 2

abbrev pub binary_protocol : ℕ
binary_protocol = 1

-- What the parser reads of `Thrift`. The three sizes are taken as natural numbers.
pub record Options : Type 0 where
  pub string_max_size : ℕ
  pub collection_max_size : ℕ
  pub drop_after_n_struct_fields : ℕ
  pub capture_reply : Bool
  pub obfuscate_strings : Bool
  pub transport_type : ℕ
  pub protocol_type : ℕ
  pub idl : Option ThriftIdl

-- `ThriftField`, whose `Type` is the byte of its type.
pub record ThriftField : Type 0 where
  pub type : ℕ
  pub id : ℕ  -- uint16
  pub value : Bytes

-- `ThriftMessage`, without the tuple, the direction and the processes that `Parse` adds for
-- `handleThrift`. The fields in the order of the source.
pub record ThriftMessage : Type 0 where
  pub ts : ℕ
  pub start : ℕ
  pub fields : List ThriftField
  pub is_request : Bool
  pub has_exception : Bool
  pub version : ℕ
  pub type : ℕ
  pub method : Bytes
  pub seq_id : ℕ
  pub params : Bytes
  pub return_value : Bytes
  pub exceptions : Bytes
  pub frame_size : ℕ  -- uint32
  pub service : Bytes

-- `&ThriftMessage{Ts: ts}`
abbrev pub new_message : ℕ → ThriftMessage
new_message ts = record {
  ts = ts;
  start = 0;
  fields = [];
  is_request = false;
  has_exception = false;
  version = 0;
  type = 0;
  method = [];
  seq_id = 0;
  params = [];
  return_value = [];
  exceptions = [];
  frame_size = 0;
  service = [];
}

-- `ThriftStartState` and `ThriftFieldState`
pub data ParseState : Type 0 where
  start_state field_state : ParseState

-- What `messageParser` reads and writes of a `ThriftStream` besides the data.
pub record Cursor : Type 0 where
  pub parse_offset : ℕ
  pub parse_state : ParseState
  pub message : ThriftMessage

-- The results `(value, ok, complete, off)` of a reader: not complete, not ok, or a value and the
-- number of bytes consumed; or it panics. `spent` is no result of the code.
pub data Read (A : Type 0) : Type 0 where
  cut refused crashed spent : Read A
  whole : A → ℕ → Read A

module _ {A B : Type 0} where
  abbrev pub map_read : (A → B) → Read A → Read B
  map_read f cut = cut
  map_read f refused = refused
  map_read f crashed = crashed
  map_read f spent = spent
  map_read f (whole a off) = whole (f a) off

  -- What follows a whole value; the early returns pass on all else.
  abbrev pub bind_read : Read A → (A → ℕ → Read B) → Read B
  bind_read cut f = cut
  bind_read refused f = refused
  bind_read crashed f = crashed
  bind_read spent f = spent
  bind_read (whole a off) f = f a off

-- The readers that `funcReadersByType` returns, by their names.
pub data ThriftFieldReader : Type 0 where
  bool_reader byte_reader double_reader i16_reader i32_reader i64_reader : ThriftFieldReader
  string_reader list_reader set_reader map_reader struct_reader : ThriftFieldReader

-- What a round of the loop of `messageParser` does.
pub data Round : Type 0 where
  next waits complete : Cursor → Round
  failed panicked spent : Round
