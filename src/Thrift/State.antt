-- ===== src/Thrift/State.antt =====
-- protos/thrift/thrift.go: transactions, the state `Thrift` and its options.
-- A timer is known by the transaction it was armed for: it holds that transaction's tuple, and fires
-- unless it is stopped. Go's pointers to transactions are numbers that are given in turn.
use packetbeat.Base.{ℕ, Bool, true, false, List, [], Option, none, some, if◌then◌else◌}
use packetbeat.Base.GoMap.{bytes_eq}
use packetbeat.Base.Text.{Bytes, codes}
use packetbeat.Mysql.State.{override_number}
use packetbeat.Protos.{TcpTuple}
use packetbeat.Redis.Transactions.{override}
use packetbeat.Thrift.Message.{
  ThriftIdl, socket_transport, framed_transport, binary_protocol, Options, ThriftMessage,
}
use packetbeat.Thrift.Idl.{
  ParseFile, NewIdl, no_idl, idl_error, idl_panics, new_idl, new_thrift_idl,
}
use packetbeat.Transaction.{Endpoint}

-- `ThriftTransaction`, whose `Type` is always "thrift". `timer` is the number of its timer.
pub record ThriftTransaction : Type 0 where
  pub tuple : TcpTuple
  pub src : Endpoint
  pub dst : Endpoint
  pub response_time : ℕ  -- int32
  pub ts_micros : ℕ  -- `Ts`
  pub ts : ℕ  -- `ts` and `JsTs`
  pub request : ThriftMessage
  pub reply : Option ThriftMessage
  pub timer : ℕ

-- The event that `publishTransactions` sends, whose "type" is always "thrift". A value of `none` is
-- a key that is not there.
pub record ThriftEvent : Type 0 where
  pub status_ok : Bool
  pub responsetime : ℕ
  pub method : Bytes
  pub path : Bytes
  pub query : Bytes
  pub bytes_in : ℕ
  pub bytes_out : ℕ
  pub params : Bytes
  pub service : Option Bytes
  pub return_value : Option Bytes
  pub exceptions : Option Bytes
  pub request : Option Bytes
  pub response : Option Bytes
  pub timestamp : ℕ
  pub src : Endpoint
  pub dst : Endpoint

-- `Thrift`. A key of `trans_map` may hold nil, which is `none`. `publish_queue` holds the
-- transactions that `publishTransactions` has not yet taken, without the bound of 1000 at which
-- a send waits for it. `results` of `none` is a nil channel. `timers` are the armed timers, and
-- `next_timer` is the number of the next one.
pub record Thrift : Type 0 where
  pub ports : List ℕ
  pub options : Options
  pub send_request : Bool
  pub send_response : Bool
  pub trans_map : List (Bytes × Option ThriftTransaction)
  pub publish_queue : List ThriftTransaction
  pub results : Option (List ThriftEvent)
  pub timers : List (ℕ × TcpTuple)
  pub next_timer : ℕ

-- `config.Thrift`
pub record ThriftConfig : Type 0 where
  pub ports : List ℕ
  pub string_max_size : Option ℕ
  pub collection_max_size : Option ℕ
  pub drop_after_n_struct_fields : Option ℕ
  pub transport_type : Option Bytes
  pub protocol_type : Option Bytes
  pub capture_reply : Option Bool
  pub obfuscate_strings : Option Bool
  pub idl_files : List Bytes
  pub send_request : Option Bool
  pub send_response : Option Bool

-- `InitDefaults`
unfoldable pub default_options : Options → Options
default_options o = record o {
  string_max_size = 200;
  collection_max_size = 15;
  drop_after_n_struct_fields = 500;
  transport_type = socket_transport;
  protocol_type = binary_protocol;
  capture_reply = true;
  obfuscate_strings = false;
}

unfoldable pub init_defaults : Thrift → Thrift
init_defaults thrift = record thrift {
  options = default_options thrift.options;
  send_request = false;
  send_response = false;
}

-- What `readConfig` and `Init` do: they are done, return an error, or panic.
pub data Configured : Type 0 where
  configured config_error : Thrift → Configured
  config_panics : Configured

-- The transport that a text names.
unfoldable pub transport_of : Option Bytes → ℕ → Option ℕ
transport_of none old = some old
transport_of (some name) old =
    if bytes_eq name (codes "socket")
    then some socket_transport
    else if bytes_eq name (codes "framed")
    then some framed_transport
    else none

unfoldable pub protocol_of : Option Bytes → ℕ → Option ℕ
protocol_of none old = some old
protocol_of (some name) old = if bytes_eq name (codes "binary") then some binary_protocol else none

-- The sizes of the configuration.
unfoldable pub with_sizes : ThriftConfig → Thrift → Thrift
with_sizes config thrift = record thrift {
  ports = config.ports;
  options = record (thrift.options) {
    string_max_size = override_number config.string_max_size thrift.options.string_max_size;
    collection_max_size =
        override_number config.collection_max_size thrift.options.collection_max_size;
    drop_after_n_struct_fields =
        override_number config.drop_after_n_struct_fields thrift.options.drop_after_n_struct_fields;
  };
}

-- `if config.Capture_reply != nil`, `if config.Obfuscate_strings != nil`
unfoldable pub with_switches : ThriftConfig → Thrift → Thrift
with_switches config thrift = record thrift {
  options = record (thrift.options) {
    capture_reply = override config.capture_reply thrift.options.capture_reply;
    obfuscate_strings = override config.obfuscate_strings thrift.options.obfuscate_strings;
  };
}

unfoldable pub with_sends : ThriftConfig → Thrift → Thrift
with_sends config thrift = record thrift {
  send_request = override config.send_request thrift.send_request;
  send_response = override config.send_response thrift.send_response;
}

unfoldable pub with_idl : Option ThriftIdl → Thrift → Thrift
with_idl idl thrift = record thrift { options = record (thrift.options) { idl = idl } }

-- The end of `readConfig`, from the IDL files on. No files leave the IDL as it was.
unfoldable pub after_idl : ThriftConfig → Thrift → NewIdl → Configured
after_idl config thrift no_idl = configured (with_sends config thrift)
after_idl config thrift idl_error = config_error (with_idl none thrift)
after_idl config thrift idl_panics = config_panics
after_idl config thrift (new_idl idl) = configured (with_sends config (with_idl (some idl) thrift))

unfoldable pub with_transport : ℕ → Thrift → Thrift
with_transport t thrift = record thrift { options = record (thrift.options) { transport_type = t } }

unfoldable pub with_protocol : ℕ → Thrift → Thrift
with_protocol p thrift = record thrift { options = record (thrift.options) { protocol_type = p } }

-- `readConfig`
unfoldable pub read_config : ParseFile → ThriftConfig → Thrift → Configured
read_config parse_file config thrift =
    let sized = with_sizes config thrift in
    elim (transport_of config.transport_type sized.options.transport_type) [
      | none ↦ config_error sized
      | some t ↦
          let moved = with_transport t sized in
          elim (protocol_of config.protocol_type moved.options.protocol_type) [
            | none ↦ config_error moved
            | some p ↦
                let switched = with_switches config (with_protocol p moved) in
                after_idl config switched (new_thrift_idl parse_file config.idl_files)
          ]
    ]

-- The rest of `Init`; in test mode the queue and the results are left as they were.
unfoldable pub after_config : Bool → Option (List ThriftEvent) → Configured → Configured
after_config test_mode results config_panics = config_panics
after_config test_mode results (config_error thrift) = config_error thrift
after_config test_mode results (configured thrift) = configured (
    if test_mode
    then record thrift { trans_map = [] }
    else record thrift { trans_map = []; publish_queue = []; results = results })

-- `Init`
unfoldable pub init_thrift :
    Bool → ParseFile → ThriftConfig → Option (List ThriftEvent) → Thrift → Configured
init_thrift test_mode parse_file config results thrift =
    let defaults = init_defaults thrift in
    let read = read_config parse_file config defaults in
    after_config test_mode results (if test_mode then configured defaults else read)
