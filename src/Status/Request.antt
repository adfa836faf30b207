-- ===== src/Status/Request.antt =====
-- status/ngx_healthcheck_request.c: a request for the page collects its snapshots in batches, waits for an
-- event in between, and sends the page.
pub mod Steps
pub mod Batches
pub mod Pages
pub mod Waits
pub mod Quiet
pub mod Told
use nginx_healthcheck_module.Base.{
  ℕ, zero, suc, ◌+◌, ◌-◌, ◌/◌, ◌^◌, ◌≡◌, Bool, true, false, not, ◌&&◌, ◌||◌, Option, none, some,
  List, [], ◌∷◌, ◌++◌, length, map, max, Bytes, ltb, leb, ◌==◌, if◌then◌else◌,
}
use nginx_healthcheck_module.Time.{add_time}
use nginx_healthcheck_module.Env.{Env, ℤ, pos, negsuc, now, peer_mutex}
use nginx_healthcheck_module.Runtime.{update}
use nginx_healthcheck_module.Status.Snapshot.{
  ShownPeer, Row, Snapshot, StepRc, ok, busy, again, error, Step, snapshot_init, snapshot_step,
}
use nginx_healthcheck_module.Status.Writer.{Writer, init}
use nginx_healthcheck_module.Status.Writer.Prints.{Print}
use nginx_healthcheck_module.Status.Formats.{Entry, Table}

-- What the record of a configured peer points to.
pub record Labels : Type 0 where
  pub upstream_name : Bytes
  pub name : Bytes
  pub check_type : Bytes
  pub port : ℕ

-- The peers of a module: `peers` has what is shared of them as it is now.
pub record Source : Type 0 where
  pub module_id : ℕ
  pub generation : ℕ
  pub labels : ℕ → Labels
  pub peers : List ShownPeer

-- A source that is NULL has no peers.
abbrev pub peers_of : Option Source → List ShownPeer
peers_of none = []
peers_of (some s) = s.peers

-- What the request is told by nginx: whether it is the main request, whether its connection has a socket of its
-- own, which HTTP/2 and HTTP/3 do not give it, whether ngx_handle_read_event and the addition of
-- a cleanup succeed, whether the connection is in error, whether it is closed or the request is terminated,
-- whether only a header is wanted, and what ngx_http_send_header and ngx_http_output_filter return.
pub record Core : Type 0 where
  pub is_main : Bool
  pub own_socket : Bool
  pub watch : ℕ → Bool
  pub cleanup_add : ℕ → Bool
  pub failed : ℕ → Bool
  pub closed : ℕ → Bool
  pub header_only : Bool
  pub is_head : Bool
  pub send_header : ℤ
  pub output_filter : ℤ

-- A line of the log: the elapsed time is in milliseconds.
pub record Warning : Type 0 where
  pub module_id : ℕ
  pub peer : ℕ
  pub generation : ℕ
  pub holder : ℤ
  pub elapsed : ℕ

-- `timer` is the delay that the retry event is set to, `cleanup` whether the handler of the request's cleanup is set.
pub record Request : Type 0 where
  pub snapshots : ℕ → Snapshot
  pub count : ℕ
  pub module_index : ℕ
  pub flag : ℕ
  pub argument : ℕ
  pub waiting_module : ℕ
  pub waiting_peer : ℕ
  pub started : ℕ
  pub next_log : ℕ
  pub timer : Option ℕ
  pub cleanup : Bool
  pub warnings : List Warning

-- NGX_HEALTHCHECK_STATUS_BATCH, _RETRY_MS, _YIELD_MS, _WARN_MS and _LOG_MS.
abbrev pub batch : ℕ
batch = 256

abbrev pub retry_ms : ℕ
retry_ms = 5

abbrev pub yield_ms : ℕ
yield_ms = 1

abbrev pub warn_ms : ℕ
warn_ms = 1000

abbrev pub log_ms : ℕ
log_ms = 5000

abbrev pub internal_error : ℤ
internal_error = pos 500

-- NGX_ERROR and NGX_DONE.
abbrev pub rc_error : ℤ
rc_error = negsuc 0

abbrev pub rc_done : ℤ
rc_done = negsuc 3

unfoldable pub request_cleanup : Request → Request
request_cleanup r = record r { timer = none; cleanup = false }

pub record Collected : Type 0 where
  pub rc : StepRc
  pub request : Request
  pub tick : ℕ

abbrev pub collected : StepRc → Request → ℕ → Collected
collected rc r t = record { rc = rc; request = r; tick = t }

abbrev pub keep_snapshot : Request → Snapshot → Request
keep_snapshot r s = record r { snapshots = update r.snapshots r.module_index s }

-- The loop with `left` modules to go. The mutexes of source `i` are those of `e i`.
unfoldable pub collect_from : (ℕ → Env) → (ℕ → Option Source) → ℕ → Request → ℕ → ℕ → Collected
collect_from e sources zero r remaining t = collected ok r t
collect_from e sources (suc left) r remaining t =
    let step =
      snapshot_step (e r.module_index) r.flag (peers_of (sources r.module_index))
        (r.snapshots r.module_index) remaining t in
    let kept = keep_snapshot r step.snapshot in
    elim step.rc [
      | ok ↦
          collect_from e sources left (record kept { module_index = r.module_index + 1 })
            step.remaining step.tick
      | busy ↦ collected busy kept step.tick
      | again ↦ collected again kept step.tick
      | error ↦ collected error kept step.tick
    ]

unfoldable pub collect : (ℕ → Env) → (ℕ → Option Source) → Request → ℕ → Collected
collect e sources r t = collect_from e sources (r.count - r.module_index) r batch t

abbrev pub describe : Source → Row → Entry
describe s row =
    let labels = s.labels row.index in
    record {
      index = row.index;
      upstream_name = labels.upstream_name;
      name = labels.name;
      check_type = labels.check_type;
      port = labels.port;
      health = row.health;
    }

-- A snapshot as the formats read it.
unfoldable pub table_of : Option Source → Snapshot → Table
table_of none s = record { peers = []; total = s.total; up = s.up; generation = 0 }
table_of (some source) s = record {
  peers = map (describe source) s.peers;
  total = s.total;
  up = s.up;
  generation = source.generation;
}

-- The answer NGX_HTTP_OK, with the blocks that go to the output filter, if any do.
pub record Response : Type 0 where
  pub content_length : ℕ
  pub body : Option (List Bytes)

-- rc == NGX_ERROR || rc > NGX_OK
abbrev pub refuses_header : ℤ → Bool
refuses_header (pos zero) = false
refuses_header (pos (suc n)) = true
refuses_header (negsuc zero) = true
refuses_header (negsuc (suc n)) = false

-- ngx_healthcheck_status_writer_send.
unfoldable pub writer_send : Core → Writer → ℤ × Option Response
writer_send c w =
    if refuses_header c.send_header || c.header_only || c.is_head || length w.chain == 0
    then (c.send_header, some (record { content_length = w.length; body = none }))
    else (c.output_filter, some (record { content_length = w.length; body = some w.chain }))

-- A format of the page, of the snapshots of both sources.
abbrev pub Output : Type 0
Output = (ℕ → Bool) → Table → Table → ℕ → Print

unfoldable pub request_output :
    (ℕ → Bool) → Core → Output → (ℕ → Option Source) → Request → ℕ → ℤ × Option Response
request_output alloc c output sources r t =
    let http = table_of (sources 0) (r.snapshots 0) in
    let stream = table_of (sources 1) (r.snapshots 1) in
    elim (output alloc http stream r.argument init t) [
      | none ↦ (internal_error, none)
      | some (w, u) ↦ writer_send c w
    ]

abbrev pub next_of : Request → ℕ
next_of r = (r.snapshots r.module_index).next

-- Another peer is waited for than before, since `now` milliseconds.
unfoldable pub begin_waiting : Request → ℕ → Request
begin_waiting r now =
    if r.started == 0
      || not (r.waiting_module == r.module_index)
      || not (r.waiting_peer == next_of r)
    then record r {
      started = now;
      waiting_module = r.module_index;
      waiting_peer = next_of r;
      next_log = max r.next_log (add_time now warn_ms);
    }
    else r

-- The source that is waited for has peers, so it is not NULL.
unfoldable pub warn : ℤ → Option Source → Request → ℕ → Request
warn holder none r now = r
warn holder (some source) r now =
    if leb r.next_log now
    then record r {
      warnings =
          record {
            module_id = source.module_id;
            peer = next_of r;
            generation = source.generation;
            holder = holder;
            elapsed = now - r.started;
          }
          ∷ r.warnings;
      next_log = add_time now log_ms;
    }
    else r

abbrev pub clocked : ℤ → Option Source → Request → Option ℕ → Request
clocked holder source r none = r
clocked holder source r (some now) =
    let ms = now / 1_000_000 in warn holder source (begin_waiting r ms) ms

-- `none` is NGX_ERROR. The event is watched at tick `t` and the clock is read at tick `t + 1`.
unfoldable pub wait : (ℕ → Env) → Core → (ℕ → Option Source) → StepRc → Request → ℕ → Option Request
wait e c sources rc r t = if c.is_main && c.own_socket && not (c.watch t) then none else elim rc [
  | again ↦
      let env = e r.module_index in
      let holder = env.holder (t + 1) (peer_mutex (next_of r)) in
      some (record (clocked holder (sources r.module_index) r (now env (t + 1))) {
        timer = some retry_ms;
      })
  | ok ↦ some (record r { timer = some yield_ms })
  | busy ↦ some (record r { timer = some yield_ms })
  | error ↦ some (record r { timer = some yield_ms })
]

-- What a turn of the request comes to: it waits, or ngx_http_finalize_request is called with `rc`.
pub data Outcome : Type 0 where
  waiting : Request → Outcome
  finalized : Request → ℤ → Option Response → Outcome

abbrev pub finish : Request → ℤ × Option Response → Outcome
finish r (rc, response) = finalized (request_cleanup r) rc response

abbrev pub wait_or_fail : Request → Option Request → Outcome
wait_or_fail r none = finish r (rc_error, none)
wait_or_fail r (some r') = waiting r'

-- What follows a batch that the timer has brought about.
unfoldable pub resumed : (ℕ → Env) → Core → Output → (ℕ → Option Source) → Collected → Outcome
resumed e c output sources k = elim k.rc [
  | again ↦ wait_or_fail k.request (wait e c sources again k.request k.tick)
  | busy ↦ wait_or_fail k.request (wait e c sources busy k.request k.tick)
  | ok ↦ finish k.request (request_output (e 0).alloc c output sources k.request k.tick)
  | error ↦ finish k.request (internal_error, none)
]

-- ngx_healthcheck_request_resume: the timer has fired.
unfoldable pub resume : (ℕ → Env) → Core → Output → (ℕ → Option Source) → Request → ℕ → Outcome
resume e c output sources r t =
    let fired = record r { timer = none } in
    if c.failed t || c.closed t
    then finish fired (rc_error, none)
    else resumed e c output sources (collect e sources fired (t + 1))

-- What the content handler comes to: the request is answered with `rc`, or it waits and NGX_DONE is returned, after
-- r->main->count++.
pub data Started : Type 0 where
  answered : ℤ → Option Response → Started
  suspended : Request → Started

abbrev pub new_snapshot : Option Source → Snapshot
new_snapshot source = snapshot_init (peers_of source)

abbrev pub new_request : (ℕ → Option Source) → ℕ → ℕ → ℕ → Request
new_request sources count flag argument = record {
  snapshots = λ i. new_snapshot (sources i);
  count = count;
  module_index = 0;
  flag = flag;
  argument = argument;
  waiting_module = 0;
  waiting_peer = 0;
  started = 0;
  next_log = 0;
  timer = none;
  cleanup = false;
  warnings = [];
}

-- The memory of the request is allocation `t`, those of the arrays of the snapshots follow.
unfoldable pub has_memory : (ℕ → Bool) → ℕ → ℕ → Bool
has_memory alloc count t = alloc t && alloc (t + 1) && (count == 1 || alloc (t + 2))

abbrev pub suspend : Option Request → Started
suspend none = answered internal_error none
suspend (some r) = suspended r

-- The first batch has come to rc; the cleanup is added at tick `t`.
unfoldable pub wait_first : (ℕ → Env) → Core → (ℕ → Option Source) → StepRc → Request → ℕ → Started
wait_first e c sources rc r t =
    if c.cleanup_add t
    then suspend (wait e c sources rc (record r { cleanup = true }) (t + 1))
    else answered internal_error none

unfoldable pub status_request :
    (ℕ → Env) → Core → Output → (ℕ → Option Source) → ℕ → ℕ → ℕ → ℕ → Started
status_request e c output sources count flag argument t =
    if count == 0 || ltb 2 count || c.failed t
    then answered internal_error none
    else if not (has_memory (e 0).alloc count t)
    then answered internal_error none
    else let k = collect e sources (new_request sources count flag argument) (t + 3) in
      elim k.rc [
        | ok ↦
            let (rc, response) = request_output (e 0).alloc c output sources k.request k.tick in
            answered rc response
        | busy ↦ wait_first e c sources busy k.request k.tick
        | again ↦ wait_first e c sources again k.request k.tick
        | error ↦ answered internal_error none
      ]
