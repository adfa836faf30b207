-- ===== src/Schedule/Owned.antt =====
-- A probe takes the locks of its worker's registration and of its peer, in that order, and is
-- turned away unless both still name it.
pub mod Holds
pub mod Waiting
use nginx_healthcheck_module.Base.{
  ℕ, ◌+◌, Bool, true, not, ◌&&◌, ◌||◌, none, some, ◌==◌, if◌then◌else◌,
}
use nginx_healthcheck_module.Time.{add_time}
use nginx_healthcheck_module.Env.{Env, now, worker_mutex, peer_mutex}
use nginx_healthcheck_module.Lock.{lock, lock_ns}
use nginx_healthcheck_module.State.{PeerState, WorkerState, preparing, inflight}
use nginx_healthcheck_module.Slots.{current, publish}
use nginx_healthcheck_module.Runtime.{
  Rc, ok, again, declined, phase_code, Probe, Runtime, Shared, set_peer,
}

-- With `owned` both locks are held. `not_now` (NGX_AGAIN) and `not_mine` (NGX_DECLINED) hold neither.
pub data Owned : Type 0 where
  owned : PeerState → Owned
  not_now : Owned
  not_mine : Owned

abbrev pub registration_differs : ℕ → ℕ → WorkerState → Bool
registration_differs pid instance_id w =
    not (w.instance_id == instance_id) || w.exiting || not (w.pid == pid)

abbrev pub round_differs : ℕ → Runtime → Probe → PeerState → Bool
round_differs pid r p s =
    not (s.worker == r.worker)
    || not (s.instance_id == p.instance_id)
    || not (s.term == p.term)
    || not (s.round == p.round)
    || not (s.owner == pid)

-- With a limit, from the two locks on.
unfoldable pub owned_within : Env → Runtime → Probe → Shared → ℕ → ℕ → ℕ → Owned × ℕ
owned_within e r p s i limit t =
    let w = lock e (worker_mutex r.worker) limit t in
    let q = lock e (peer_mutex i) limit w.1 in
    if not w.0
    then (not_now, w.1)
    else if registration_differs e.pid p.instance_id (current (s.workers r.worker))
    then (not_mine, w.1)
    else if not q.0
    then (not_now, q.1)
    else if round_differs e.pid r p (current (s.peers i))
    then (not_mine, q.1)
    else (owned (current (s.peers i)), q.1)

unfoldable pub owned_lock : Env → Runtime → Probe → Shared → ℕ → ℕ → ℕ → Owned × ℕ
owned_lock e r p s i limit t =
    let l = if limit == 0 && not (r.budget == 0) then r.budget else limit in
    if r.stopping || e.quitting t || not (p.generation == r.generation)
    then (not_mine, t + 1)
    else if l == 0
    then elim (now e (t + 1)) [
      | none ↦ (not_now, t + 2)
      | some n ↦ owned_within e r p s i (add_time n lock_ns) (t + 2)
    ]
    else owned_within e r p s i l (t + 1)

valid_rc : Owned → Rc
valid_rc (owned _) = ok
valid_rc not_now = again
valid_rc not_mine = declined

unfoldable pub probe_valid : Env → Runtime → Probe → Shared → ℕ → ℕ → Rc × ℕ
unfolding valid_rc
probe_valid e r p s i t = let o = owned_lock e r p s i 0 t in (valid_rc o.0, o.1)

unfoldable pub waiting_state : Probe → PeerState → PeerState
waiting_state p s = record s { phase = inflight; deadline = p.deadline }

unfoldable pub probe_waiting_owned : Probe → Shared → ℕ → Owned → Rc × Shared × Probe
probe_waiting_owned p s i not_now = (again, s, p)
probe_waiting_owned p s i not_mine = (declined, s, p)
probe_waiting_owned p s i (owned state) = (
  ok,
  if phase_code state.phase == phase_code preparing
      then set_peer s i (publish (s.peers i) (waiting_state p state))
      else s,
  record p { waiting_published = true },
)

unfoldable pub probe_waiting : Env → Runtime → Probe → Shared → ℕ → ℕ → (Rc × Shared × Probe) × ℕ
probe_waiting e r p s i t =
    let o = owned_lock e r p s i 0 t in
    if p.waiting_published then ((ok, s, p), t) else (probe_waiting_owned p s i o.0, o.1)
