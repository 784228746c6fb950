-- ===== src/Redis/Commands.antt =====
-- protos/redis/redis.go: the table of commands, and the test for a request.
use packetbeat.Base.{Bool, false, ◌||◌, List, [], ◌∷◌, String}
use packetbeat.Base.GoMap.{bytes_eq}
use packetbeat.Base.Text.{Bytes, codes, to_upper}

-- `RedisCommands`
abbrev redis_commands : List String
redis_commands =
    "APPEND" ∷ "AUTH" ∷ "BGREWRITEAOF" ∷ "BGSAVE" ∷ "BITCOUNT" ∷ "BITOP" ∷ "BITPOS" ∷ "BLPOP"
    ∷ "BRPOP" ∷ "BRPOPLPUSH" ∷ "CLIENT GETNAME" ∷ "CLIENT KILL" ∷ "CLIENT LIST" ∷ "CLIENT PAUSE"
    ∷ "CLIENT SETNAME" ∷ "CONFIG GET" ∷ "CONFIG RESETSTAT" ∷ "CONFIG REWRITE" ∷ "CONFIG SET"
    ∷ "DBSIZE" ∷ "DEBUG OBJECT" ∷ "DEBUG SEGFAULT" ∷ "DECR" ∷ "DECRBY" ∷ "DEL" ∷ "DISCARD" ∷ "DUMP"
    ∷ "ECHO" ∷ "EVAL" ∷ "EVALSHA" ∷ "EXEC" ∷ "EXISTS" ∷ "EXPIRE" ∷ "EXPIREAT" ∷ "FLUSHALL"
    ∷ "FLUSHDB" ∷ "GET" ∷ "GETBIT" ∷ "GETRANGE" ∷ "GETSET" ∷ "HDEL" ∷ "HEXISTS" ∷ "HGET" ∷ "HGETALL"
    ∷ "HINCRBY" ∷ "HINCRBYFLOAT" ∷ "HKEYS" ∷ "HLEN" ∷ "HMGET" ∷ "HMSET" ∷ "HSCAN" ∷ "HSET"
    ∷ "HSETINX" ∷ "HVALS" ∷ "INCR" ∷ "INCRBY" ∷ "INCRBYFLOAT" ∷ "INFO" ∷ "KEYS" ∷ "LASTSAVE"
    ∷ "LINDEX" ∷ "LINSERT" ∷ "LLEN" ∷ "LPOP" ∷ "LPUSH" ∷ "LPUSHX" ∷ "LRANGE" ∷ "LREM" ∷ "LSET"
    ∷ "LTRIM" ∷ "MGET" ∷ "MIGRATE" ∷ "MONITOR" ∷ "MOVE" ∷ "MSET" ∷ "MSETNX" ∷ "MULTI" ∷ "OBJECT"
    ∷ "PERSIST" ∷ "PEXPIRE" ∷ "PEXPIREAT" ∷ "PFADD" ∷ "PFCOUNT" ∷ "PFMERGE" ∷ "PING" ∷ "PSETEX"
    ∷ "PSUBSCRIBE" ∷ "PTTL" ∷ "PUBLISH" ∷ "PUBSUB" ∷ "PUNSUBSCRIBE" ∷ "QUIT" ∷ "RANDOMKEY"
    ∷ "RENAME" ∷ "RENAMENX" ∷ "RESTORE" ∷ "RPOP" ∷ "RPOPLPUSH" ∷ "RPUSH" ∷ "RPUSHX" ∷ "SADD"
    ∷ "SAVE" ∷ "SCAN" ∷ "SCARD" ∷ "SCRIPT EXISTS" ∷ "SCRIPT FLUSH" ∷ "SCRIPT KILL" ∷ "SCRIPT LOAD"
    ∷ "SDIFF" ∷ "SDIFFSTORE" ∷ "SELECT" ∷ "SET" ∷ "SETBIT" ∷ "SETEX" ∷ "SETNX" ∷ "SETRANGE"
    ∷ "SHUTDOWN" ∷ "SINTER" ∷ "SINTERSTORE" ∷ "SISMEMBER" ∷ "SLAVEOF" ∷ "SLOWLOG" ∷ "SMEMBERS"
    ∷ "SMOVE" ∷ "SORT" ∷ "SPOP" ∷ "SRANDMEMBER" ∷ "SREM" ∷ "SSCAN" ∷ "STRLEN" ∷ "SUBSCRIBE"
    ∷ "SUNION" ∷ "SUNIONSTORE" ∷ "SYNC" ∷ "TIME" ∷ "TTL" ∷ "TYPE" ∷ "UNSUBSCRIBE" ∷ "UNWATCH"
    ∷ "WATCH" ∷ "ZADD" ∷ "ZCARD" ∷ "ZCOUNT" ∷ "ZINCRBY" ∷ "ZINTERSTORE" ∷ "ZRANGE" ∷ "ZRANGEBYSCORE"
    ∷ "ZRANK" ∷ "ZREM" ∷ "ZREMRANGEBYLEX" ∷ "ZREMRANGEBYRANK" ∷ "ZREMRANGEBYSCORE" ∷ "ZREVRANGE"
    ∷ "ZREVRANGEBYSCORE" ∷ "ZREVRANK" ∷ "ZSCAN" ∷ "ZSCORE" ∷ "ZUNIONSTORE" ∷ []

holds : List String → Bytes → Bool
holds [] key = false
holds (c ∷ cs) key = bytes_eq (codes c) key || holds cs key

-- `isRedisCommand`
unfoldable pub is_redis_command : Bytes → Bool
unfolding holds to_upper
is_redis_command key = holds redis_commands (to_upper key)
