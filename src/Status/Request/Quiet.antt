-- ===== src/Status/Request/Quiet.antt =====
-- When a request that waits warns of a peer whose lock is held.
use nginx_healthcheck_module.Base.{ℕ, ◌≤◌, ◌<◌, List, [], ◌∷◌}
use nginx_healthcheck_module.Time.{add_time}
use nginx_healthcheck_module.Env.{Env}
use nginx_healthcheck_module.Status.Request.{Warning, Request, Outcome, waiting, finalized, warn_ms}

-- Every warning tells of a peer that has been waited for for a second at least.
unfoldable pub AllLong : List Warning → Type 0
AllLong [] = Unit
AllLong (w ∷ ws) = (warn_ms ≤ w.elapsed) × AllLong ws

-- No warning is due before a second has passed from the begin of the wait.
pub record IsQuiet (r : Request) : Type 0 where
  pub armed : 0 < r.started → add_time r.started warn_ms ≤ r.next_log
  pub long : AllLong r.warnings

-- The outcome of a turn, of a request that was to warn at `due`.
pub StaysQuiet : ℕ → Outcome → Type 0
StaysQuiet due (waiting r) = IsQuiet r × (due ≤ r.next_log)
StaysQuiet due (finalized r rc response) = IsQuiet r × (due ≤ r.next_log)

-- What a batch leaves as it was.
abbrev clock_of : Request → ℕ × ℕ × List Warning
clock_of r = (r.started, r.next_log, r.warnings)
