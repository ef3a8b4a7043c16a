-- ===== src/Redis/Coherence/Requests.antt =====
-- Every request keeps the remembered texts right.
use cpp_experiments.Common.{ℕ, Bool, true, false, not, Option, none, List, [], ◌∷◌, if◌then◌else◌}
use cpp_experiments.Common.Int.{pos, negsuc}
use cpp_experiments.Common.Fault.{Run, ok, fault, ◌>>=◌}
use cpp_experiments.Common.Bytes.{Bytes}
use cpp_experiments.Common.Dict.{Dict, lookup, erase}
use cpp_experiments.Redis.Node.{Node, plain, variant, aggregate, deserialize}
use cpp_experiments.Redis.Cache.{Cache}
use cpp_experiments.Redis.Handler.{Env, handle_ping, handle_echo, handle_exists}
use cpp_experiments.Redis.Dump.{overdue, drop_expired, remember_all, save, Disk}
use cpp_experiments.Redis.Command.{Command}
use cpp_experiments.Redis.Dispatch.{
  World, State, Fork, failed, forked, handle_keys, handle_save, run_command, run_node,
  handle_request,
}
use cpp_experiments.Redis.Coherence.{AllNodes, CacheIsCoherent, remembered-NodeIsCoherent}
use cpp_experiments.Redis.Coherence.Handlers.{
  Ends, Keeps, handle_set-Keeps, handle_get-Keeps, handle_del-Keeps, handle_ladd-Keeps,
  handle_ttl-Keeps,
}
use cpp_experiments.Redis.Coherence.Lists.{
  handle_lrange-Keeps, handle_push-Keeps, handle_llen-Keeps,
}

abbrev pub StateEnds : Run (Bytes × State) → Type 0
StateEnds (ok (out, s)) = CacheIsCoherent s.cache
StateEnds (fault e) = Unit {0}

on_cache-Ends :
    (r : Run (Bytes × Cache)) (s : State)
    → Ends r
    → StateEnds (do (out, c) ← r; ok (out, record s { cache = c }))
on_cache-Ends (ok (out, c)) s h = h
on_cache-Ends (fault e) s h = tt

AllNodes-if : (b : Bool) (x y : Dict Node) → AllNodes x → AllNodes y → AllNodes (if b then x else y)
AllNodes-if true x y h k = h
AllNodes-if false x y h k = k

drop_expired-AllNodes :
    (now : ℕ) (nodes : Dict Node) (ttl : Dict ℕ)
    → AllNodes nodes
    → AllNodes (drop_expired now nodes ttl).0
unfolding drop_expired
drop_expired-AllNodes now [] ttl h = h
drop_expired-AllNodes now ((key, n) ∷ nodes) ttl h =
    let late = overdue now (lookup key ttl) in
    let ttl' = if late then erase key ttl else ttl in
    let kept = (drop_expired now nodes ttl').0 in
    let rest = drop_expired-AllNodes now nodes ttl' h.1 in
    AllNodes-if late kept ((key, n) ∷ kept) rest (h.0, rest)

remember_all-AllNodes : (nodes : Dict Node) → AllNodes nodes → AllNodes (remember_all nodes)
unfolding remember_all
remember_all-AllNodes [] h = h
remember_all-AllNodes ((key, n) ∷ nodes) h =
    (remembered-NodeIsCoherent n h.0, remember_all-AllNodes nodes h.1)

coherent-if :
    (b : Bool) (x y : Bool × Cache × Option Bytes)
    → CacheIsCoherent x.1
    → CacheIsCoherent y.1
    → CacheIsCoherent (if b then x else y).1
coherent-if true x y h k = h
coherent-if false x y h k = k

save-coherent :
    (disk : Disk) (now : ℕ) (c : Cache) → CacheIsCoherent c → CacheIsCoherent (save disk now c).1
unfolding save
save-coherent disk now c h =
    let kept = drop_expired-AllNodes now c.nodes c.ttl h in
    coherent-if (not disk.opens)
      (
        false,
        record {
          nodes = (drop_expired now c.nodes c.ttl).0;
          ttl = (drop_expired now c.nodes c.ttl).1;
        },
        none,
      )
      (_, _, _) kept (remember_all-AllNodes _ kept)

fork-Ends :
    (f : Fork) (x y : Bytes × State)
    → CacheIsCoherent x.1.cache
    → CacheIsCoherent y.1.cache
    → StateEnds (elim f [ failed ↦ ok x | forked ↦ ok y ])
fork-Ends failed x y h k = h
fork-Ends forked x y h k = k

handle_save-Ends :
    (w : World) (args : List Bytes) (background : Bool) (s : State)
    → CacheIsCoherent s.cache
    → StateEnds (handle_save w args background s)
unfolding handle_save
handle_save-Ends w (_ ∷ []) true s h = fork-Ends w.fork (_, s) (_, record s { dump = _ }) h h
handle_save-Ends w (_ ∷ []) false s h = save-coherent w.disk w.env.now s.cache h
handle_save-Ends w [] background s h = h
handle_save-Ends w (_ ∷ _ ∷ _) background s h = h

handle_ping-Keeps : (args : List Bytes) → Keeps (handle_ping args)
unfolding handle_ping
handle_ping-Keeps [] c h = h
handle_ping-Keeps (_ ∷ []) c h = h
handle_ping-Keeps (_ ∷ _ ∷ []) c h = h
handle_ping-Keeps (_ ∷ _ ∷ _ ∷ _) c h = h

handle_echo-Keeps : (args : List Bytes) → Keeps (handle_echo args)
unfolding handle_echo
handle_echo-Keeps [] c h = h
handle_echo-Keeps (_ ∷ []) c h = h
handle_echo-Keeps (_ ∷ _ ∷ []) c h = h
handle_echo-Keeps (_ ∷ _ ∷ _ ∷ _) c h = h

handle_keys-Keeps : (env : Env) (args : List Bytes) → Keeps (handle_keys env args)
unfolding handle_keys
handle_keys-Keeps env (_ ∷ pattern ∷ []) c h = h
handle_keys-Keeps env [] c h = h
handle_keys-Keeps env (_ ∷ []) c h = h
handle_keys-Keeps env (_ ∷ _ ∷ _ ∷ _) c h = h

run_command-Ends :
    (w : World) (command : Command) (args : List Bytes) (s : State)
    → CacheIsCoherent s.cache
    → StateEnds (run_command w command args s)
unfolding run_command handle_exists
run_command-Ends w Command.ping args s h = on_cache-Ends _ s (handle_ping-Keeps args s.cache h)
run_command-Ends w Command.echo args s h = on_cache-Ends _ s (handle_echo-Keeps args s.cache h)
run_command-Ends w Command.set args s h =
    on_cache-Ends _ s (handle_set-Keeps w.env.now args s.cache h)
run_command-Ends w Command.get args s h =
    on_cache-Ends _ s (handle_get-Keeps w.env.now args s.cache h)
run_command-Ends w Command.exists args s h = h
run_command-Ends w Command.del args s h =
    on_cache-Ends _ s (handle_del-Keeps w.env.now args s.cache h)
run_command-Ends w Command.incr args s h =
    on_cache-Ends _ s (handle_ladd-Keeps w.env.now args (pos 1) s.cache h)
run_command-Ends w Command.decr args s h =
    on_cache-Ends _ s (handle_ladd-Keeps w.env.now args (negsuc 0) s.cache h)
run_command-Ends w Command.ttl args s h =
    on_cache-Ends _ s (handle_ttl-Keeps w.env.now args s.cache h)
run_command-Ends w Command.lrange args s h =
    on_cache-Ends _ s (handle_lrange-Keeps w.env args s.cache h)
run_command-Ends w Command.lpush args s h =
    on_cache-Ends _ s (handle_push-Keeps w.env.now args false s.cache h)
run_command-Ends w Command.rpush args s h =
    on_cache-Ends _ s (handle_push-Keeps w.env.now args true s.cache h)
run_command-Ends w Command.llen args s h =
    on_cache-Ends _ s (handle_llen-Keeps w.env.now args s.cache h)
run_command-Ends w Command.save args s h = handle_save-Ends w args false s h
run_command-Ends w Command.bgsave args s h = handle_save-Ends w args true s h
run_command-Ends w Command.keys args s h =
    on_cache-Ends _ s (handle_keys-Keeps w.env args s.cache h)
run_command-Ends w Command.unsupported args s h = h

run_node-Ends :
    (w : World) (n : Node) (s : State) → CacheIsCoherent s.cache → StateEnds (run_node w n s)
unfolding run_node
run_node-Ends w (plain m e) s h = run_command-Ends w _ [] s h
run_node-Ends w (variant v) s h = run_command-Ends w _ [] s h
run_node-Ends w (aggregate []) s h = tt
run_node-Ends w (aggregate (v ∷ vs)) s h = run_command-Ends w _ _ s h

after_parse :
    (w : World) (r : Run Node) (s : State)
    → CacheIsCoherent s.cache
    → StateEnds (do node ← r; run_node w node s)
after_parse w (ok n) s h = run_node-Ends w n s h
after_parse w (fault e) s h = tt

-- Whatever bytes a client sends, in whatever environment, if the request is answered then every
-- remembered text in the cache is again empty or what its value renders to.
pub handle_request-coherent :
    (w : World) (request : Bytes) (s : State)
    → CacheIsCoherent s.cache
    → StateEnds (handle_request w request s)
unfolding handle_request
handle_request-coherent w request s h = after_parse w (deserialize request) s h
