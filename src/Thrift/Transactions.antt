-- ===== src/Thrift/Transactions.antt =====
-- protos/thrift/thrift.go: transactions, from the messages of a stream to published events.
-- A transaction that was sent to the queue is not written to any more, so the queue holds the
-- transactions themselves.
use packetbeat.Base.{
  ℕ, suc, ◌/◌, ◌++◌, Bool, false, not, List, [], ◌∷◌, Option, none, some, length, ltb,
  if◌then◌else◌,
}
use packetbeat.Base.GoMap.{lookup, put, delete, bytes_eq, bytes_instance, nat_eq}
use packetbeat.Base.Text.{Bytes, codes}
use packetbeat.Protos.{TcpTuple}
use packetbeat.Redis.Transactions.{Lookups}
use packetbeat.Thrift.Message.{ThriftMessage}
use packetbeat.Thrift.State.{ThriftTransaction, ThriftEvent, Thrift}
use packetbeat.Transaction.{CmdlineTuple, endpoints, response_time}

-- `transMap[key]`, which is nil for a missing key as well.
unfoldable pub pointer : Option (Option ThriftTransaction) → Option ThriftTransaction
pointer none = none
pointer (some t) = t

unfoldable pub transaction_at : Bytes → Thrift → Option ThriftTransaction
transaction_at key thrift = pointer (lookup key thrift.trans_map)

-- `thrift.PublishQueue <- trans`
unfoldable pub send : ThriftTransaction → Thrift → Thrift
send t thrift = record thrift { publish_queue = thrift.publish_queue ++ (t ∷ []) }

unfoldable pub send_old : Option ThriftTransaction → Thrift → Thrift
send_old none thrift = thrift
send_old (some t) thrift = send t thrift

-- `trans.timer.Stop()`
unfoldable pub stop_timer : ThriftTransaction → Thrift → Thrift
stop_timer t thrift = record thrift { timers = delete t.timer thrift.timers }

-- The transaction of a call.
unfoldable pub call_transaction :
    ThriftMessage → TcpTuple → ℕ → CmdlineTuple → ℕ → ThriftTransaction
call_transaction msg tuple direction cmdline timer =
    let ends = endpoints tuple cmdline direction in
    record {
      tuple = tuple;
      src = ends.src;
      dst = ends.dst;
      response_time = 0;
      ts_micros = msg.ts / 1000;
      ts = msg.ts;
      request = msg;
      reply = none;
      timer = timer;
    }

-- `trans` goes into the map, and its timer is armed.
unfoldable pub arm : Bytes → ThriftTransaction → Thrift → Thrift
arm key t thrift = record thrift {
  trans_map = put key (some t) thrift.trans_map;
  timers = (thrift.next_timer, t.tuple) ∷ thrift.timers;
  next_timer = suc thrift.next_timer;
}

-- `receivedRequest`. A transaction that waits in the map is sent, and its timer goes on.
unfoldable pub received_request :
    Lookups → ThriftMessage → TcpTuple → ℕ → CmdlineTuple → Thrift → Thrift
received_request env msg tuple direction cmdline thrift =
    let key = env.hashable tuple in
    arm key (call_transaction msg tuple direction cmdline thrift.next_timer)
      (send_old (transaction_at key thrift) thrift)

-- The transaction with its reply.
unfoldable pub answered : ThriftMessage → ThriftTransaction → ThriftTransaction
answered msg t = record t { reply = some msg; response_time = response_time t.ts msg.ts }

-- `transMap[key] = nil`
unfoldable pub forget : Bytes → Thrift → Thrift
forget key thrift = record thrift { trans_map = put key none thrift.trans_map }

-- `receivedReply`, on the transaction in the map: the key stays there, with nil.
unfoldable pub complete_call :
    Lookups → ThriftMessage → TcpTuple → Option ThriftTransaction → Thrift → Thrift
complete_call env msg tuple none thrift = thrift
complete_call env msg tuple (some t) thrift =
    if bytes_eq t.request.method msg.method
    then stop_timer t (forget (env.hashable tuple) (send (answered msg t) thrift))
    else thrift

unfoldable pub received_reply : Lookups → ThriftMessage → TcpTuple → Thrift → Thrift
received_reply env msg tuple thrift =
    complete_call env msg tuple (transaction_at (env.hashable tuple) thrift) thrift

-- `handleThrift`, with what `Parse` puts into the message before.
unfoldable pub handle_thrift : Lookups → TcpTuple → ℕ → ThriftMessage → Thrift → Thrift
handle_thrift env tuple direction msg thrift =
    if msg.is_request
    then received_request env msg tuple direction (env.find_processes_tuple tuple) thrift
    else received_reply env msg tuple thrift

-- `delete(thrift.transMap, key)`
unfoldable pub delete_key : Bytes → Thrift → Thrift
delete_key key thrift = record thrift { trans_map = delete key thrift.trans_map }

-- `ReceivedFin`, on the transaction in the map.
unfoldable pub close_call : Lookups → Option ThriftTransaction → Thrift → Thrift
close_call env none thrift = thrift
close_call env (some t) thrift = elim t.reply [
  | some msg ↦ thrift
  | none ↦ stop_timer t (delete_key (env.hashable t.tuple) (send t thrift))
]

unfoldable pub finish_connection : Lookups → TcpTuple → Thrift → Thrift
finish_connection env tuple thrift =
    close_call env (transaction_at (env.hashable tuple) thrift) thrift

-- A timer fires: `expireTransaction` deletes the key of its transaction.
unfoldable pub expire_transaction : Lookups → Option TcpTuple → Thrift → Thrift
expire_transaction env none thrift = thrift
expire_transaction env (some tuple) thrift = delete_key (env.hashable tuple) thrift

unfoldable pub timer_fires : Lookups → ℕ → Thrift → Thrift
timer_fires env n thrift =
    expire_transaction env (lookup n thrift.timers)
      (record thrift { timers = delete n thrift.timers })

-- The texts of a reply in its event.
unfoldable pub reply_failed : Option ThriftMessage → Bool
reply_failed none = false
reply_failed (some msg) = msg.has_exception

unfoldable pub non_empty : Bytes → Option Bytes
non_empty text = if ltb 0 (length text) then some text else none

unfoldable pub return_value_of : Option ThriftMessage → Option Bytes
return_value_of none = none
return_value_of (some msg) = some msg.return_value

unfoldable pub exceptions_of : Option ThriftMessage → Option Bytes
exceptions_of none = none
exceptions_of (some msg) = non_empty msg.exceptions

unfoldable pub bytes_out_of : Option ThriftMessage → ℕ
bytes_out_of none = 0
bytes_out_of (some msg) = msg.frame_size

unfoldable pub response_of : Option ThriftMessage → Option Bytes
response_of none = none
response_of (some msg) =
    some (if msg.has_exception then codes "Exceptions: " ++ msg.exceptions else msg.return_value)

unfoldable pub event_of : Thrift → ThriftTransaction → ThriftEvent
event_of thrift t = record {
  status_ok = not (reply_failed t.reply);
  responsetime = t.response_time;
  method = t.request.method;
  path = t.request.service;
  query = t.request.method ++ t.request.params;
  bytes_in = t.request.frame_size;
  bytes_out = bytes_out_of t.reply;
  params = t.request.params;
  service = non_empty t.request.service;
  return_value = return_value_of t.reply;
  exceptions = exceptions_of t.reply;
  request = if thrift.send_request then some (t.request.method ++ t.request.params) else none;
  response = if thrift.send_response then response_of t.reply else none;
  timestamp = t.ts;
  src = t.src;
  dst = t.dst;
}

-- `results <- event`, where there is a channel.
unfoldable pub publish : ThriftTransaction → Thrift → Thrift
publish t thrift = elim thrift.results [
  | none ↦ thrift
  | some events ↦ record thrift { results = some (events ++ (event_of thrift t ∷ [])) }
]

-- `publishTransactions`, for all that the queue holds.
unfoldable pub publish_all : List ThriftTransaction → Thrift → Thrift
publish_all [] thrift = record thrift { publish_queue = [] }
publish_all (t ∷ queue) thrift = publish_all queue (publish t thrift)

unfoldable pub publish_transactions : Thrift → Thrift
publish_transactions thrift = publish_all thrift.publish_queue thrift
