-- ===== src/Redis/Dispatch.antt =====
-- redis-server/src/CommandHandler.cpp: KEYS, SAVE and BGSAVE, and `handleRequest`, which chooses
-- the handler of a command.
use cpp_experiments.Common.{
  ℕ, suc, Bool, true, false, ◌&&◌, ◌||◌, Option, none, some, List, [], ◌∷◌, ◌++◌, leb, ◌==◌,
  if◌then◌else◌,
}
use cpp_experiments.Common.Int.{pos, negsuc}
use cpp_experiments.Common.Fault.{Run, ok, fault, undefined, ◌>>=◌}
use cpp_experiments.Common.Bytes.{Bytes, codes, crlf}
use cpp_experiments.Common.Decimal.{print_ℕ}
use cpp_experiments.Common.Dict.{Dict}
use cpp_experiments.Redis.Node.{Node, plain, variant, aggregate, str, text, texts, deserialize}
use cpp_experiments.Redis.Command.{Command, command_of}
use cpp_experiments.Redis.Cache.{Cache}
use cpp_experiments.Redis.Handler.{
  Env, Handler, reply, status, error, wrong_arguments, lower, handle_ping, handle_echo, handle_set,
  handle_get, handle_exists, handle_del,
}
use cpp_experiments.Redis.Numbers.{handle_ladd, handle_ttl}
use cpp_experiments.Redis.Lists.{handle_lrange, handle_push, handle_llen}
use cpp_experiments.Redis.Dump.{Disk, save}

-- std::ispunct
abbrev is_punct : ℕ → Bool
is_punct c =
    (leb 33 c && leb c 47)
    || ((leb 58 c && leb c 64) || ((leb 91 c && leb c 96) || (leb 123 c && leb c 126)))

abbrev regex_char : ℕ → Bytes
regex_char c =
    if c == b'?'
    then b'.' ∷ []
    else if c == b'*'
    then b'.' ∷ b'*' ∷ []
    else if c == b'[' || (c == b']' || (c == b'^' || c == b'-'))
    then c ∷ []
    else if is_punct c
    then 92 ∷ c ∷ []
    else c ∷ []

unfoldable pub regex_of_pattern : Bytes → Bytes
regex_of_pattern [] = []
regex_of_pattern (c ∷ s) = regex_char c ++ regex_of_pattern s

-- The loop of KEYS: the count of the keys that match, and their replies.
unfoldable pub matching_keys : (Bytes → Bool) → Dict Node → ℕ × Bytes
matching_keys matches [] = (0, [])
matching_keys matches ((key, _) ∷ es) =
    let (n, out) = matching_keys matches es in
    if matches key then (suc n, reply (str key) ++ out) else (n, out)

unfoldable pub keys_reply : Bytes → Option (Bytes → Bool) → Cache → Bytes
keys_reply pattern none c = error (codes "ERR invalid pattern: " ++ pattern)
keys_reply pattern (some matches) c =
    let (n, out) = matching_keys matches c.nodes in b'*' ∷ (print_ℕ n ++ (crlf ++ out))

unfoldable pub handle_keys : Env → List Bytes → Handler
handle_keys env (_ ∷ pattern ∷ []) c =
    ok (keys_reply pattern (env.regex (regex_of_pattern pattern)) c, c)
handle_keys env _ c = ok (error wrong_arguments, c)

pub record State : Type 0 where
  pub cache : Cache
  pub dump : Option Bytes

-- What fork() does. The child writes the dump and ends; the parent goes on.
pub data Fork : Type 0 where
  failed forked : Fork

pub record World : Type 0 where
  pub env : Env
  pub disk : Disk
  pub fork : Fork

abbrev pub newer : Option Bytes → Option Bytes → Option Bytes
newer old none = old
newer old (some b) = some b

unfoldable pub handle_save : World → List Bytes → Bool → State → Run (Bytes × State)
handle_save w (_ ∷ []) background s =
    let (good, cache, file) = save w.disk w.env.now s.cache in
    let dump = newer s.dump file in
    if background
    then elim w.fork [
      | failed ↦ ok (error (codes "Save failed"), s)
      | forked ↦ ok (status (codes "OK"), record s { dump = dump })
    ]
    else ok (
      if good then status (codes "OK") else error (codes "Save failed"),
      record { cache = cache; dump = dump },
    )
handle_save w _ background s = ok (error wrong_arguments, s)

abbrev pub on_cache : Handler → State → Run (Bytes × State)
on_cache h s = do (out, c) ← h s.cache; ok (out, record s { cache = c })

unfoldable pub run_command : World → Command → List Bytes → State → Run (Bytes × State)
run_command w Command.ping args s = on_cache (handle_ping args) s
run_command w Command.echo args s = on_cache (handle_echo args) s
run_command w Command.set args s = on_cache (handle_set w.env.now args) s
run_command w Command.get args s = on_cache (handle_get w.env.now args) s
run_command w Command.exists args s = on_cache (handle_exists args) s
run_command w Command.del args s = on_cache (handle_del w.env.now args) s
run_command w Command.incr args s = on_cache (handle_ladd w.env.now args (pos 1)) s
run_command w Command.decr args s = on_cache (handle_ladd w.env.now args (negsuc 0)) s
run_command w Command.ttl args s = on_cache (handle_ttl w.env.now args) s
run_command w Command.lrange args s = on_cache (handle_lrange w.env args) s
run_command w Command.lpush args s = on_cache (handle_push w.env.now args false) s
run_command w Command.rpush args s = on_cache (handle_push w.env.now args true) s
run_command w Command.llen args s = on_cache (handle_llen w.env.now args) s
run_command w Command.save args s = handle_save w args false s
run_command w Command.bgsave args s = handle_save w args true s
run_command w Command.keys args s = on_cache (handle_keys w.env args) s
run_command w Command.unsupported args s = ok (error (codes "Not supported"), s)

-- The first argument of an empty request is read outside the vector.
unfoldable pub run_node : World → Node → State → Run (Bytes × State)
run_node w (aggregate []) s = fault undefined
run_node w (aggregate (v ∷ vs)) s =
    run_command w (command_of (lower (text v))) (text v ∷ texts vs) s
run_node w (plain _ _) s = run_command w (command_of (codes "missing")) [] s
run_node w (variant _) s = run_command w (command_of (codes "missing")) [] s

-- CommandHandler::handleRequest
unfoldable pub handle_request : World → Bytes → State → Run (Bytes × State)
handle_request w request s = do node ← deserialize request; run_node w node s
