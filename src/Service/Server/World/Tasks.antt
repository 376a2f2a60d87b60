-- ===== src/Service/Server/World/Tasks.antt =====
-- The tasks of the connections, and the end of `main`: each keeps the supervisor right between its
-- turns.
use sc_helper.Prelude.{ℕ, ◌≡◌, refl, Bool, true, false, List, Text, Bytes, Option, none, some}
use sc_helper.Prelude.Program
use sc_helper.Prelude.Program.{
  Result, ok, err, Outcome, done, failed, panicked, stuck, IsSettled, EndsIf, IsSettled-EndsIf,
  after, lift,
}
use sc_helper.Prelude.Async.{sync, ◌>>=◌}
use sc_helper.Ipc.{
  Command, ping, start_mihomo, stop_mihomo, set_dns, clear_dns, get_version, shutdown, Request,
  Response, stopped,
}
use sc_helper.Ipc.Fresh.{now_nanos, fresh_at}
use sc_helper.Ipc.Frame.Ends.{read_frame-IsSettled, write_frame-IsSettled}
use sc_helper.Ipc.Frame.{Stream}
use sc_helper.Service.Os.{
  read_clock, Target, macos, linux, windows, Trace, Env, IsEarly, IsLawfulOs,
}
use sc_helper.Service.State.{log, Sender, sender, Daemon}
use sc_helper.Service.Core.{start}
use sc_helper.Service.Core.Total.{start_total}
use sc_helper.Service.Core.Spawning.{start-IsSound}
use sc_helper.Service.Core.Turns.{stop_turns}
use sc_helper.Service.Server.Request.{fire, Build, start_response, unit_response, timestamp_fresh}
use sc_helper.Service.Server.Request.Sound.{IsResolved}
use sc_helper.Service.Server.Task.{
  Task, resolved, shut, set_dns_task, clear_dns_task, start_task, stop_task, dispatch_task,
  answer_task, request_task, responded, parsed_task, received, connection_task,
}
use sc_helper.Service.Server.World.Guard.{
  Own, whole, vacant, Rely, Rely-refl, Guarded, Guarded-whatever,
}
use sc_helper.Service.Server.World.Free.{
  Closed, Outside, Inside, IsFree, IsFree-pure, IsFree-turn, IsFree-bind, IsFree-catch, IsFree-if,
  locked-IsFree,
}
use sc_helper.Service.Server.World.Silent.{read-Rely, shut-Rely, set_dns-IsFree, clear_dns-IsFree}
use sc_helper.Service.Server.World.Stopping.{stop_turns-Guarded}

module _ (build : Build) (env : Env) (L : IsLawfulOs env) where
  abbrev P : Text → Type 0
  P = IsResolved build

  -- What it takes for a task to panic.
  abbrev Q : Type 0
  Q = IsEarly env

  set_dns_task-IsFree :
      (target : Target) (servers : List Text) → IsFree P Q (set_dns_task build env target servers)
  unfolding set_dns_task
  set_dns_task-IsFree macos servers =
      IsFree-bind (IsFree-catch (set_dns-IsFree P env build.lib.debug Q servers)) λ r. IsFree-pure _
  set_dns_task-IsFree linux servers = IsFree-pure _
  set_dns_task-IsFree windows servers = IsFree-pure _

  clear_dns_task-IsFree : (target : Target) → IsFree P Q (clear_dns_task build env target)
  unfolding clear_dns_task
  clear_dns_task-IsFree macos =
      IsFree-bind (IsFree-catch (clear_dns-IsFree P env build.lib.debug Q)) λ r. IsFree-pure _
  clear_dns_task-IsFree linux = IsFree-pure _
  clear_dns_task-IsFree windows = IsFree-pure _

  start-Guarded :
      (t : Trace) (d f l : Text)
      → Guarded P Inside (sync (start env (build.mihomo_path t) d f l)) (some whole)
  unfolding Guarded Inside
  start-Guarded t d f l = λ s h. (
    whole,
    (
      start-IsSound P env L (build.mihomo_path t) d f l (t, refl) s h,
      start_total env (build.mihomo_path t) d f l s,
    ),
  )

  start_task-IsFree :
      (t : Trace) (d f l : Text) → IsFree P Q (start_task build env (build.mihomo_path t) d f l)
  unfolding start_task
  start_task-IsFree t d f l = locked-IsFree P Q start_response _ (start-Guarded t d f l)

  stopped-Inside : (x : Outcome (Unit {0})) → IsSettled x → Inside (some vacant) x
  unfolding Inside
  stopped-Inside x h = h

  stop_task-IsFree : IsFree P Q (stop_task build env)
  unfolding stop_task
  stop_task-IsFree =
      locked-IsFree P Q (unit_response stopped) (stop_turns env build.target)
        (stop_turns-Guarded P env L Inside stopped-Inside build.target)

  begun-IsFree :
      (d f l : Text)
      → IsFree P Q (sync (resolved build) >>= λ path. start_task build env path d f l)
  unfolding Guarded
  begun-IsFree d f l = record {
    apply = λ s. (Rely-refl P s, (start_task-IsFree s.trace d f l).apply);
  }

  shut-EndsIf : (d : Daemon) (t : Option Sender) → EndsIf Q (fire t d).0
  unfolding fire
  shut-EndsIf d none = tt
  shut-EndsIf d (some sender) = tt

  dispatch_task-IsFree : (c : Command) → IsFree P Q (dispatch_task build env c)
  unfolding dispatch_task
  dispatch_task-IsFree ping = IsFree-pure _
  dispatch_task-IsFree get_version = IsFree-pure _
  dispatch_task-IsFree (start_mihomo d f l) = begun-IsFree d f l
  dispatch_task-IsFree stop_mihomo = stop_task-IsFree
  dispatch_task-IsFree (set_dns servers) = set_dns_task-IsFree build.target servers
  dispatch_task-IsFree clear_dns = clear_dns_task-IsFree build.target
  dispatch_task-IsFree shutdown =
      IsFree-bind (IsFree-turn shut λ d. (shut-Rely P d d.trigger, shut-EndsIf d d.trigger))
        λ _. IsFree-pure _

  answer_task-IsFree : (r : Request) (fresh : Bool) → IsFree P Q (answer_task build env r fresh)
  unfolding answer_task
  answer_task-IsFree r false = IsFree-pure _
  answer_task-IsFree r true = IsFree-if _ (IsFree-pure _) (dispatch_task-IsFree r.command)

  clock-Rely :
      (n : ℕ) (d s : Daemon) (now : Outcome ℕ)
      → Rely P d s
      → Rely P d (after (lift now s) (λ m. Program.pure (fresh_at m n))).1
  clock-Rely n d s (done m) h = h
  clock-Rely n d s (failed e) h = h
  clock-Rely n d s (panicked e) h = h
  clock-Rely n d s stuck h = h

  now_nanos-EndsIf : (r : Option ℕ) → (r ≡ none → Q) → EndsIf Q (now_nanos r)
  unfolding now_nanos
  now_nanos-EndsIf none h = h refl
  now_nanos-EndsIf (some n) h = tt

  clock-EndsIf :
      (n : ℕ) (s : Daemon) (now : Outcome ℕ)
      → EndsIf Q now
      → EndsIf Q (after (lift now s) (λ m. Program.pure (fresh_at m n))).0
  clock-EndsIf n s (done m) h = tt
  clock-EndsIf n s (failed e) h = tt
  clock-EndsIf n s (panicked e) h = h
  clock-EndsIf n s stuck h = absurd h

  fresh-IsFree : (n : ℕ) → IsFree P Q (sync (timestamp_fresh build env n))
  unfolding timestamp_fresh
  fresh-IsFree n = IsFree-turn _ λ d. (
    clock-Rely n d _ _ (read-Rely P d (env.clock d.trace)),
    clock-EndsIf n (log (read_clock (env.clock d.trace)) d) _
        (now_nanos-EndsIf (env.clock d.trace) (λ e. (d.trace, e))),
  )

  request_task-IsFree : (r : Request) → IsFree P Q (request_task build env r)
  unfolding request_task
  request_task-IsFree r =
      IsFree-bind (fresh-IsFree r.timestamp_nanos) λ fresh. answer_task-IsFree r fresh

  abbrev IsClosed : Task → Type 0
  IsClosed m = Guarded P (Closed Q) m none

  responded-IsClosed :
      (stream : Stream) (x : Outcome Response)
      → EndsIf Q x
      → IsClosed (responded build env stream x)
  unfolding responded Guarded Closed
  responded-IsClosed stream (done response) h =
      IsSettled-EndsIf Q _ (write_frame-IsSettled _ stream)
  responded-IsClosed stream (failed e) h = tt
  responded-IsClosed stream (panicked e) h = h
  responded-IsClosed stream stuck h = absurd h

  Outside-responded :
      (stream : Stream) (o : Option Own) (x : Outcome Response)
      → Outside Q o x
      → Guarded P (Closed Q) (responded build env stream x) o
  unfolding Outside
  Outside-responded stream none x h = responded-IsClosed stream x h
  Outside-responded stream (some o) x h = absurd h

  parsed_task-IsClosed :
      (stream : Stream) (r : Option Request) → IsClosed (parsed_task build env stream r)
  unfolding parsed_task Guarded Closed
  parsed_task-IsClosed stream none = tt
  parsed_task-IsClosed stream (some r) =
      Guarded-whatever P (Outside Q) (Closed Q) (responded build env stream)
        (Outside-responded stream) (request_task build env r) none (request_task-IsFree r).apply

  received-IsClosed :
      (stream : Stream) (x : Outcome Bytes) → EndsIf Q x → IsClosed (received build env stream x)
  unfolding received Guarded Closed
  received-IsClosed stream (done body) h = parsed_task-IsClosed stream _
  received-IsClosed stream (failed e) h = tt
  received-IsClosed stream (panicked e) h = h
  received-IsClosed stream stuck h = absurd h

  -- A connection's task keeps the supervisor right between its turns, whatever the client sends,
  -- and the end to which it comes is one of the code: a panic only if the clock may read a time
  -- before 1970.
  pub connection_task-IsClosed : (stream : Stream) → IsClosed (connection_task build env stream)
  unfolding connection_task
  connection_task-IsClosed stream =
      received-IsClosed _ _ (IsSettled-EndsIf Q _ (read_frame-IsSettled stream))
