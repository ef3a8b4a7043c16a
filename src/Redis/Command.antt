-- ===== src/Redis/Command.antt =====
-- redis-server/src/CommandHandler.cpp: the choice of a handler by the name of the command.
use cpp_experiments.Common.{if◌then◌else◌}
use cpp_experiments.Common.Bytes.{Bytes, codes, ◌=ᵇ◌}

pub data Command : Type 0 where
  ping echo set get exists del incr decr ttl lrange lpush rpush llen save bgsave keys : Command
  unsupported : Command

unfoldable pub command_of : Bytes → Command
command_of name =
    if name =ᵇ codes "ping"
    then ping
    else if name =ᵇ codes "echo"
    then echo
    else if name =ᵇ codes "set"
    then set
    else if name =ᵇ codes "get"
    then get
    else if name =ᵇ codes "exists"
    then exists
    else if name =ᵇ codes "del"
    then del
    else if name =ᵇ codes "incr"
    then incr
    else if name =ᵇ codes "decr"
    then decr
    else if name =ᵇ codes "ttl"
    then ttl
    else if name =ᵇ codes "lrange"
    then lrange
    else if name =ᵇ codes "lpush"
    then lpush
    else if name =ᵇ codes "rpush"
    then rpush
    else if name =ᵇ codes "llen"
    then llen
    else if name =ᵇ codes "save"
    then save
    else if name =ᵇ codes "bgsave"
    then bgsave
    else if name =ᵇ codes "keys"
    then keys
    else unsupported
