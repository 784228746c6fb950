-- ===== src/Tests/Thrift.antt =====
-- The theorems on protos/thrift/thrift.go and thrift_idl.go at small inputs, and runs of the parser.
use packetbeat.Base.{
  ℕ, ◌++◌, ◌≡◌, ◌≢◌, refl, true, false, List, [], ◌∷◌, Option, some, none, map, length, take,
  get_or, arith, ◌+◌,
}
use packetbeat.Base.GoMap.{lookup, bytes_instance, nat_eq}
use packetbeat.Base.Int.{pos}
use packetbeat.Base.Text.{Bytes, codes, itoa, join}
use packetbeat.Protos.{IpPortTuple, TcpTuple}
use packetbeat.Redis.Transactions.{Lookups}
use packetbeat.Thrift.{message_parser, round_field, is_call, finish_message}
use packetbeat.Thrift.Message.{
  Library, IsLibrary, big_endian, ParserField, Options, ThriftMessage, new_message, i32_reader,
  struct_reader, crashed, whole, Cursor, waits, complete, failed, panicked,
}
use packetbeat.Thrift.Reading.{capped, quoted}
use packetbeat.Thrift.Values.{
  func_readers_by_type, field_name, format_fields, format_struct, in_struct, in_brackets, joined,
  read_with,
}
use packetbeat.Thrift.Idl.{fields_to_array_by_id, fill_names, set_name, max_id, nils}
use packetbeat.Thrift.State.{ThriftEvent, Thrift}
use packetbeat.Thrift.Stream.{ThriftPrivateData, parse}
use packetbeat.Thrift.Transactions.{
  pointer, transaction_at, answered, handle_thrift, event_of, publish_transactions,
  finish_connection, timer_fires,
}
use packetbeat.Thrift.Encoding.{
  i32, string, list, struct, nil, cons, Fields, stop, field, type_of, encode, show, show_fields,
  IsValue, AreFields,
}
use packetbeat.Thrift.RoundTrip.{read_with-encode}
use packetbeat.Thrift.Calls.{Wire, IsWire, headed, among, with_fields}
use packetbeat.Thrift.Messages.{encode_message, started, at_start, message_parser-encode}
use packetbeat.Thrift.Streaming.{IsReadyPrivate, parse_thrift-IsReady}
use packetbeat.Thrift.Correlation.{asked, waiting, Tells, thrift_call_and_reply}
use packetbeat.Thrift.Timers.{
  Event, message, connection_ends, timer, published, run, IsTimed, run-IsTimed,
}
use packetbeat.Thrift.Expiry.{fin_sends_call, old_timer_loses_call}
use packetbeat.Thrift.CutStructs.{encode_open, cut_struct_panics}
use packetbeat.Thrift.Resume.{thrift_message_parser_resumes}
use packetbeat.Thrift.Names.{name_of, fields_to_array_by_id-names}
use packetbeat.Transaction.{endpoints}

-- Big-endian numbers; every string is valid, and quoted without escapes.
abbrev library : Library
library = record {
  ntohs = big_endian 0;
  ntohl = big_endian 0;
  ntohll = big_endian 0;
  valid_string = λ s. true;
  quote = λ s. b'"' ∷ (s ++ b'"' ∷ []);
  format_float = λ n. itoa (pos n);
}

library-IsLibrary : IsLibrary library
library-IsLibrary = record {
  ntohs_is = λ a b. refl;
  ntohl_is = λ a b c d. refl;
  ntohll_is = λ a b c d e f g h. refl;
}

abbrev options : Options
options = record {
  string_max_size = 200;
  collection_max_size = 15;
  drop_after_n_struct_fields = 500;
  capture_reply = true;
  obfuscate_strings = false;
  transport_type = 1;
  protocol_type = 1;
  idl = none;
}

abbrev pair : Fields
pair = field 1 (string (codes "ab")) (field 2 (list i32_reader (cons (i32 7) nil)) stop)

pair_shown : show library options (struct pair) ≡ codes "(1: \"ab\", 2: [7])"
unfolding show in_struct format_struct join format_fields field_name itoa quoted capped in_brackets
    joined
pair_shown = refl

pair-IsValue : IsValue library options (struct pair)
unfolding IsValue
pair-IsValue = (
  omega arith,
  (omega arith, omega arith, (omega arith, (omega arith, (refl, omega arith, tt)), tt)),
)

read_with-encode_example :
    (func_readers_by_type (type_of struct_reader) ≡ some struct_reader)
    × (read_with library options struct_reader (encode (struct pair) ++ 9 ∷ [])
        ≡ whole (show library options (struct pair)) (length (encode (struct pair))))
read_with-encode_example =
    read_with-encode library options (struct pair) (9 ∷ []) library-IsLibrary pair-IsValue

abbrev ping : Wire
ping = record {
  strict = true;
  type = 1;
  method = codes "ping";
  seq_id = 0;
  fields = field 1 (i32 7) stop;
}

ping-IsWire : IsWire library options ping
unfolding AreFields
ping-IsWire = (omega arith, omega arith, omega arith, (omega arith, omega arith, tt))

message_parser-encode_example :
    message_parser library options (encode_message false 0 ping ++ []) (at_start 0 (new_message 5))
    ≡ complete (
        among (length (encode_message false 0 ping)) (
          finish_message options (
            with_fields
              (show_fields library options ping.fields)
              (headed options ping (started false 0 5)))))
message_parser-encode_example =
    message_parser-encode library options false ping 0 5 [] library-IsLibrary ping-IsWire refl
      (unfold is_call in refl)

-- The message, cut inside its header.
abbrev first_bytes : Bytes
first_bytes = take 6 (encode_message false 0 ping)

thrift_message_parser_resumes_example :
    ((c' : Cursor)
      → message_parser library options first_bytes (at_start 0 (new_message 5)) ≡ complete c'
      → message_parser library options (first_bytes ++ 9 ∷ []) (at_start 0 (new_message 5))
        ≡ complete c')
    × (message_parser library options first_bytes (at_start 0 (new_message 5)) ≡ failed
        → message_parser library options (first_bytes ++ 9 ∷ []) (at_start 0 (new_message 5))
          ≡ failed)
    × ((c' : Cursor)
        → message_parser library options first_bytes (at_start 0 (new_message 5)) ≡ waits c'
        → message_parser library options (first_bytes ++ 9 ∷ []) (at_start 0 (new_message 5))
          ≡ message_parser library options (first_bytes ++ 9 ∷ []) c')
thrift_message_parser_resumes_example =
    thrift_message_parser_resumes library options first_bytes (9 ∷ []) (at_start 0 (new_message 5))
      refl (omega arith, omega arith)

-- A struct in a message whose data end behind its only field.
abbrev cut_struct : Bytes
cut_struct = 12 ∷ 0 ∷ 1 ∷ encode_open (field 1 (i32 7) stop)

cut_struct_panics_example :
    (read_with library options struct_reader (encode_open (field 1 (i32 7) stop)) ≡ crashed)
    × (round_field library options cut_struct (among 0 (new_message 5)) ≡ panicked)
cut_struct_panics_example =
    cut_struct_panics library options 0 1 (field 1 (i32 7) stop) (new_message 5) cut_struct
      library-IsLibrary (unfold IsValue in (omega arith, omega arith, tt)) (omega arith)
      (omega arith) refl

-- The two ids of a method, of which the second is 3.
abbrev first_field : ParserField
first_field = record { id = pos 1; name = codes "a" }

abbrev third_field : ParserField
third_field = record { id = pos 3; name = codes "c" }

fields_to_array_by_id-names_example :
    (output : List (Option Bytes)) × (fields_to_array_by_id (first_field ∷ third_field ∷ [])
      ≡ some output)
    × (length output ≡ max_id 0 (first_field ∷ third_field ∷ []) + 1)
    × ((i : ℕ) → get_or output i none ≡ name_of i (first_field ∷ third_field ∷ []) none)
fields_to_array_by_id-names_example =
    fields_to_array_by_id-names first_field (third_field ∷ []) (refl, (refl, tt))

names_run :
    fields_to_array_by_id (first_field ∷ third_field ∷ [])
    ≡ some (none ∷ some (codes "a") ∷ none ∷ some (codes "c") ∷ [])
unfolding fields_to_array_by_id fill_names set_name max_id nils
names_run = refl

abbrev lookups : Lookups
lookups = record {
  hashable = λ t. t.stream_id ∷ [];
  find_processes_tuple = λ t. record { src = []; dst = [] };
}

abbrev tuple : TcpTuple
tuple = record {
  ip_length = 4;
  src_ip = 1 ∷ [];
  dst_ip = 2 ∷ [];
  src_port = 1000;
  dst_port = 9090;
  stream_id = 7;
}

abbrev flow : IpPortTuple
flow = record { ip_length = 4; src_ip = 1 ∷ []; dst_ip = 2 ∷ []; src_port = 1000; dst_port = 9090 }

abbrev thrift : Thrift
thrift = record {
  ports = 9090 ∷ [];
  options = options;
  send_request = false;
  send_response = false;
  trans_map = [];
  publish_queue = [];
  results = some [];
  timers = [];
  next_timer = 0;
}

abbrev call : ThriftMessage
call = record (new_message 5) { is_request = true; method = codes "ping" }

abbrev reply : ThriftMessage
reply = record (new_message 9) { method = codes "ping" }

parse_thrift-IsReady_example :
    (private' : Option ThriftPrivateData) × (thrift' : Thrift) × (parse library lookups
        (record { ts = 5; tuple = flow; payload = first_bytes })
        tuple
        1
        none
        thrift
      ≡ some (private', thrift'))
    × IsReadyPrivate private'
parse_thrift-IsReady_example =
    parse_thrift-IsReady library lookups (record { ts = 5; tuple = flow; payload = first_bytes })
      tuple 1 none thrift tt

thrift_call_and_reply_example :
    (after : Thrift) × (e : ThriftEvent) × (publish_transactions
        (handle_thrift lookups tuple 0 reply (handle_thrift lookups tuple 1 call thrift))
      ≡ after)
    × (after.results
        ≡ some (
            []
            ++ map (event_of thrift) (
                (thrift.publish_queue ++ waiting (transaction_at (lookups.hashable tuple) thrift))
                ++ (answered reply (asked lookups tuple 1 call thrift) ∷ []))))
    × (event_of thrift (answered reply (asked lookups tuple 1 call thrift)) ≡ e)
    × Tells (endpoints tuple (lookups.find_processes_tuple tuple) 1) call reply e
    × (transaction_at (lookups.hashable tuple) after ≡ none)
    × ((k : Bytes) → k ≢ lookups.hashable tuple → transaction_at k after ≡ transaction_at k thrift)
thrift_call_and_reply_example =
    thrift_call_and_reply lookups tuple 1 0 call reply thrift [] refl refl refl refl

thrift-IsTimed : IsTimed lookups thrift
unfolding transaction_at pointer lookup
thrift-IsTimed = record { armed = λ k t e. absurd (cc e); numbered = λ n tup e. absurd (cc e) }

abbrev events : List Event
events =
    message tuple 1 call
    ∷ message tuple 1 call
    ∷ timer 0
    ∷ message tuple 0 reply
    ∷ connection_ends tuple
    ∷ published
    ∷ []

run-IsTimed_example : IsTimed lookups (run lookups events thrift)
run-IsTimed_example = run-IsTimed lookups events thrift thrift-IsTimed

fin_sends_call_example :
    let t = asked lookups tuple 1 call thrift in
    let ended = finish_connection lookups tuple (handle_thrift lookups tuple 1 call thrift) in
    (ended.publish_queue
      ≡ (thrift.publish_queue ++ waiting (transaction_at (lookups.hashable tuple) thrift))
        ++ (t ∷ []))
    × (lookup (lookups.hashable tuple) ended.trans_map ≡ none)
    × (lookup t.timer ended.timers ≡ none)
fin_sends_call_example = fin_sends_call lookups tuple 1 call thrift refl

old_timer_loses_call_example :
    let lost =
      timer_fires lookups thrift.next_timer
        (handle_thrift lookups tuple 1 call (handle_thrift lookups tuple 1 call thrift)) in
    (transaction_at (lookups.hashable tuple) lost ≡ none)
    × (handle_thrift lookups tuple 0 reply lost ≡ lost)
old_timer_loses_call_example =
    old_timer_loses_call lookups tuple 1 0 call call reply thrift refl refl refl
