-- ===== src/Env.antt =====
-- What the module calls and does not implement: the clock, nginx's shared mutexes and process flags.
-- The answer to an external call is a function of the number of the call, its tick.
use nginx_healthcheck_module.Base.{ℕ, ◌+◌, ◌/◌, ◌≤◌, ◌≡◌, ◌⊎◌, Bool, Option, none, some, u64_max}
use nginx_healthcheck_module.Time.{add_time, mul_time}

-- A signed integer; `negsuc n` is -(n + 1).
pub data ℤ : Type 0 where
  pos : ℕ → ℤ
  negsuc : ℕ → ℤ

pub record Timespec : Type 0 where
  pub sec : ℤ
  pub nsec : ℕ

-- Each shared record carries its own mutex.
pub data Mutex : Type 0 where
  activation_mutex : Mutex
  worker_mutex : ℕ → Mutex
  peer_mutex : ℕ → Mutex

-- What `kill(pid, 0)` tells: the process exists, may not be signalled, or is gone (ESRCH).
pub data KillResult : Type 0 where
  alive denied gone : KillResult

-- `ngx_healthcheck_now` over a clock; `none` is NGX_ERROR.
now_at : ℤ → ℕ → Option ℕ
now_at (pos s) nsec = some (add_time (mul_time s 1_000_000_000) nsec)
now_at (negsuc _) nsec = none

unfoldable pub now_of : (ℕ → Option Timespec) → ℕ → Option ℕ
unfolding now_at
now_of gettime t = elim (gettime t) [ none ↦ none | some ts ↦ now_at ts.sec ts.nsec ]

-- The reading at tick `u` fails or has reached `limit`.
abbrev pub Late : (ℕ → Option Timespec) → ℕ → ℕ → Type 0
Late gettime limit u =
    (now_of gettime u ≡ none) ⊎ ((n : ℕ) × (now_of gettime u ≡ some n) × (limit ≤ n))

pub record Env : Type 0 where
  pub gettime : ℕ → Option Timespec
  pub trylock : ℕ → Mutex → Bool
  pub holder : ℕ → Mutex → ℤ
  pub kill : ℕ → ℕ → KillResult
  pub force_unlock : ℕ → Mutex → ℕ → Bool
  -- `ngx_quit || ngx_exiting || ngx_terminate`
  pub quitting : ℕ → Bool
  -- Whether the pool still has memory.
  pub alloc : ℕ → Bool
  pub random : ℕ → ℕ
  -- The calling process, `ngx_pid`.
  pub pid : ℕ
  -- CLOCK_MONOTONIC reaches every limit: how many more external calls that takes.
  pub patience : ℕ → ℕ → ℕ
  pub progress : (limit t u : ℕ) → limit ≤ u64_max → t + patience limit t ≤ u → Late gettime limit u

unfoldable pub now : Env → ℕ → Option ℕ
now e t = now_of e.gettime t

-- The clock is read at tick `u` as `ms` milliseconds.
pub record IsReading (e : Env) (u ms : ℕ) : Type 0 where
  pub nanoseconds : ℕ
  pub reading : now e u ≡ some nanoseconds
  pub rounded : ms ≡ nanoseconds / 1_000_000
