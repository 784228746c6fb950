-- ===== src/Transaction.antt =====
-- What the transaction code of the protocols shares (protos/redis/redis.go, protos/mysql/mysql.go
-- and protos/pgsql/pgsql.go repeat it): the end points and the response time.
use packetbeat.Base.{ℕ, ◌+◌, ◌-◌, ◌*◌, ◌/◌, ◌%◌, ◌≤◌, ◌<◌, ◌≡◌, ◌==◌, leb, if◌then◌else◌, arith}
use packetbeat.Base.Text.{Bytes}
use packetbeat.Protos.{TcpTuple}
use packetbeat.Tcp.{tcp_direction_reverse}

-- `common.CmdlineTuple`
pub record CmdlineTuple : Type 0 where
  pub src : Bytes
  pub dst : Bytes

-- `common.Endpoint`, with the address itself for its printed form.
pub record Endpoint : Type 0 where
  pub ip : Bytes
  pub port : ℕ
  pub proc : Bytes

pub record Endpoints : Type 0 where
  pub src : Endpoint
  pub dst : Endpoint

-- `trans.Src` and `trans.Dst`: swapped where the message came against the stream's direction.
unfoldable pub endpoints : TcpTuple → CmdlineTuple → ℕ → Endpoints
endpoints tuple cmdline direction =
    let src : Endpoint = record { ip = tuple.src_ip; port = tuple.src_port; proc = cmdline.src } in
    let dst : Endpoint = record { ip = tuple.dst_ip; port = tuple.dst_port; proc = cmdline.dst } in
    if direction == tcp_direction_reverse
    then record { src = dst; dst = src }
    else record { src = src; dst = dst }

-- `int32(to.Sub(from).Nanoseconds() / 1e6)`, as the bit pattern of the int32: the division drops
-- the fraction towards zero, and the conversion keeps the low 32 bits.
unfoldable pub response_time : ℕ → ℕ → ℕ
response_time from to =
    if leb from to
    then ((to - from) / 1_000_000) % 4_294_967_296
    else (4_294_967_296 - ((from - to) / 1_000_000) % 4_294_967_296) % 4_294_967_296

-- A response within 2 ^ 31 milliseconds (24 days) of its request gets the whole milliseconds
-- between them.
response_time_exact :
    (from to ms : ℕ)
    → ms < 2_147_483_648
    → from + ms * 1_000_000 ≤ to
    → to < from + ms * 1_000_000 + 1_000_000
    → response_time from to ≡ ms
unfolding response_time
response_time_exact from to ms small lo hi = ground arith
