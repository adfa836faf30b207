-- ===== src/Examples/Requests.antt =====
-- A request for the CSV page of two peers.
use nginx_healthcheck_module.Base.{
  ℕ, ◌≡◌, ◌≢◌, refl, sym, ◌∙◌, true, false, Option, none, some, List, map, [], ◌∷◌, codes, arith,
  if◌then◌else◌, ◌==◌,
}
use nginx_healthcheck_module.Time.{add_time, mul_time}
use nginx_healthcheck_module.Env.{Env, now, now_of, pos}
use nginx_healthcheck_module.Status.Snapshot.{ok, error, step_from, snapshot_step, is_hidden}
use nginx_healthcheck_module.Slots.{try_read_peer, current}
use nginx_healthcheck_module.Status.Formats.Csv.{csv_format, csv_text, csv_format-Prints}
use nginx_healthcheck_module.Status.Request.{
  Source, Core, Output, Warning, Request, Outcome, waiting, finalized, new_request, collect,
  collect_from, begin_waiting, warn, wait, batch, resumed, resume,
}
use nginx_healthcheck_module.Status.Request.Steps.{Batch}
use nginx_healthcheck_module.Status.Request.Batches.{collect-Batch, new_request-IsCollected}
use nginx_healthcheck_module.Status.Request.Pages.{Answers, Page, resume-Answers}
use nginx_healthcheck_module.Status.Request.Waits.{IsSettled, resume-IsSettled}
use nginx_healthcheck_module.Lock.{recover_lock}
use nginx_healthcheck_module.Examples.World.{world, idle_peer, fresh_slots}

abbrev envs : ℕ → Env
envs i = world 42

abbrev http : Source
http = record {
  module_id = 0;
  generation = 1;
  labels = λ i. record {
    upstream_name = codes "web";
    name = codes "10.0.0.1:80";
    check_type = codes "tcp";
    port = 0;
  };
  peers =
      record { index = 0; shm = some (fresh_slots idle_peer) }
      ∷ record { index = 1; shm = some (fresh_slots idle_peer) }
      ∷ [];
}

-- There are no streams.
abbrev sources : ℕ → Option Source
sources i = if i == 0 then some http else none

abbrev request : Request
request = new_request sources 2 0 0

abbrev core : Core
core = record {
  is_main = true;
  own_socket = true;
  watch = λ t. true;
  cleanup_add = λ t. true;
  failed = λ t. false;
  closed = λ t. false;
  header_only = false;
  is_head = false;
  send_header = pos 0;
  output_filter = pos 0;
}

abbrev csv_output : Output
csv_output alloc http stream flag = csv_format alloc http stream flag

all_read : (collect envs sources request 0).rc ≡ ok
unfolding collect collect_from snapshot_step step_from try_read_peer is_hidden current
all_read = refl

ok-ne-error : ok ≢ error
ok-ne-error = λ h. absurd (cc)

collect-Batch_example : Batch sources request batch (collect envs sources request 0)
collect-Batch_example =
    collect-Batch envs sources request 0 (omega arith) (new_request-IsCollected sources 2 0 0)
      (λ h. ok-ne-error (sym all_read ∙ h))

resume-Answers_example :
    Answers
      (λ r response. Page sources 2 (λ http stream. csv_text http stream 0) r response)
      (resume envs core csv_output sources request 0)
resume-Answers_example =
    resume-Answers envs core csv_output (λ http stream. csv_text http stream 0) sources request 0
      (λ http stream. csv_format-Prints (world 42).alloc http stream 0) (omega arith)
      (new_request-IsCollected sources 2 0 0)

resume-IsSettled_example : IsSettled (resume envs core csv_output sources request 0)
resume-IsSettled_example = resume-IsSettled envs core csv_output sources request 0

-- The lock of the first peer is held, by a process that lives, and it has been waited for since 1 s.
abbrev held : ℕ → Env
held i = record (world 42) { trylock = λ t m. false; holder = λ t m. pos 43 }

abbrev waits_long : Request
waits_long = record request { started = 1000; next_log = 2000; timer = some 5; cleanup = true }

warnings_of : Outcome → List Warning
warnings_of (waiting r) = r.warnings
warnings_of (finalized r rc response) = r.warnings

-- What the turn at 11 s comes to.
abbrev after_turn : Outcome
after_turn = resume held core csv_output sources waits_long 7

-- It warns.
is_warned : map (λ (w : Warning). w.elapsed) (warnings_of after_turn) ≡ 10_000 ∷ []
unfolding warnings_of resume resumed collect collect_from snapshot_step step_from try_read_peer
    is_hidden current recover_lock wait begin_waiting warn now now_of add_time mul_time
is_warned = refl
