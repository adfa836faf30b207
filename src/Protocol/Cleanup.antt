-- ===== src/Protocol/Cleanup.antt =====
-- protocol/ngx_healthcheck_probe.c: the end of a round's I/O, which closes the connection or keeps it idle.
use nginx_healthcheck_module.Base.{
  ℕ, ◌+◌, Bool, true, false, not, ◌&&◌, ◌||◌, none, some, ◌≡◌, refl, ap, sym, subst, inl, inr,
  arith, Bool-cases, Option-cases, if◌then◌else◌,
}
use nginx_healthcheck_module.Config.{SrvConf, is_tcp}
use nginx_healthcheck_module.Runtime.{Connection, Probe}

-- The event module: whether its events are level-triggered, whether the write event of the connection is
-- active, and what the removal of that event and the registration of the read event answer; whether
-- the connection can be read at once.
pub record Events : Type 0 where
  pub level : Bool
  pub write_active : ℕ → Bool
  pub del_write : ℕ → Bool
  pub add_read : ℕ → Bool
  pub read_ready : ℕ → Bool

-- What has become of the connection; `drains` keeps it and calls ngx_healthcheck_tcp_idle at once.
pub data Cleaned : Type 0 where
  absent closed kept drains : Cleaned

pub record Cleanup : Type 0 where
  pub probe : Probe
  pub connection : Cleaned
  pub tick : ℕ

-- The connection's own timers and posted events go with it.
abbrev pub probe_close : Probe → Probe
probe_close p = record p { connection = none }

abbrev pub is_keepable : SrvConf → Connection → Bool → Bool
is_keepable c k reusable =
    not
      (not reusable || not c.keep_connection || not (is_tcp c.check_type) || k.failed || k.timedout)

abbrev pub cleaned : Probe → Cleaned → ℕ → Cleanup
cleaned p k t = record { probe = p; connection = k; tick = t }

-- From the removal of the write event on, of a connection that may be kept.
unfoldable pub keep_idle : Events → Probe → Connection → ℕ → Cleanup
keep_idle b p k t =
    let idle : Probe = record p { connection = some (record k { idle = true }) } in
    if b.level && b.write_active t && not (b.del_write t)
    then cleaned (probe_close p) closed (t + 1)
    else if not (b.add_read (t + 1))
    then cleaned (probe_close idle) closed (t + 2)
    else if b.read_ready (t + 1)
    then cleaned idle drains (t + 2)
    else cleaned idle kept (t + 2)

unfoldable pub probe_cleanup : Events → SrvConf → Probe → Bool → ℕ → Cleanup
probe_cleanup b c p reusable t =
    let q : Probe = record p { timeout = none } in
    elim p.connection [
      | none ↦ cleaned q absent t
      | some k ↦
          if is_keepable c k reusable then keep_idle b q k t else cleaned (probe_close q) closed t
    ]

-- After a cleanup the time-out is not set, what the schedule reads of the round is as before, and a connection is left only
-- if it may be kept.
pub record IsClean (c : SrvConf) (p : Probe) (reusable : Bool) (q : Probe) : Type 0 where
  pub untimed : q.timeout ≡ none
  pub active : q.active ≡ p.active
  pub pending : q.pending ≡ p.pending
  pub keeps :
      (k : Connection)
      → q.connection ≡ some k
      → (reusable ≡ true)
        × (c.keep_connection ≡ true)
        × (is_tcp c.check_type ≡ true)
        × (k.failed ≡ false)
        × (k.timedout ≡ false)

-- The two ends of a cleanup, of a probe whose time-out has been deleted.
closed-IsClean :
    (c : SrvConf) (p : Probe) (reusable : Bool)
    → IsClean c p reusable (record p { timeout = none; connection = none })
closed-IsClean c p reusable = record {
  untimed = refl;
  active = refl;
  pending = refl;
  keeps = λ k at. absurd (ground arith);
}

idle-IsClean :
    (c : SrvConf) (p : Probe) (reusable : Bool) (k : Connection)
    → is_keepable c k reusable ≡ true
    → IsClean c p reusable
        (record p { timeout = none; connection = some (record k { idle = true }) })
idle-IsClean c p reusable k may = record {
  untimed = refl;
  active = refl;
  pending = refl;
  keeps = λ k' at.
      let same : record k { idle = true } ≡ k' = cc in
      let failed : k.failed ≡ k'.failed = ap (λ (x : Connection). x.failed) same in
      let timedout : k.timedout ≡ k'.timedout = ap (λ (x : Connection). x.timedout) same in
      (
        ground (arith, may),
        ground (arith, may),
        ground (arith, may),
        ground (arith, may, failed),
        ground (arith, may, timedout),
      );
}

keep_idle-IsClean :
    (b : Events) (c : SrvConf) (p : Probe) (reusable : Bool) (k : Connection) (t : ℕ)
    → is_keepable c k reusable ≡ true
    → IsClean c p reusable (keep_idle b (record p { timeout = none }) k t).probe
unfolding keep_idle
keep_idle-IsClean b c p reusable k t may =
    elim (Bool-cases (b.level && b.write_active t && not (b.del_write t))) [
      | inl stuck ↦ rw (stuck, keep_idle) (closed-IsClean c p reusable)
      | inr free ↦ elim (Bool-cases (b.add_read (t + 1))) [
        | inr fails ↦ rw (free, fails, keep_idle) (closed-IsClean c p reusable)
        | inl listens ↦ elim (Bool-cases (b.read_ready (t + 1))) [
          | inl ready ↦ rw (free, listens, ready, keep_idle) (idle-IsClean c p reusable k may)
          | inr quiet ↦ rw (free, listens, quiet, keep_idle) (idle-IsClean c p reusable k may)
        ]
      ]
    ]

pub probe_cleanup-IsClean :
    (b : Events) (c : SrvConf) (p : Probe) (reusable : Bool) (t : ℕ)
    → IsClean c p reusable (probe_cleanup b c p reusable t).probe
unfolding probe_cleanup keep_idle
probe_cleanup-IsClean b c p reusable t = elim (Option-cases p.connection) [
  | inl gone ↦
      rw (gone, probe_cleanup)
        (record {
          untimed = refl;
          active = refl;
          pending = refl;
          keeps = λ k at. absurd (ground arith);
        })
  | inr (k, at) ↦
      let q : Probe = record p { timeout = none } in
      let IsIt : Cleanup → Type 0 = λ x. IsClean c p reusable x.probe in
      elim (Bool-cases (is_keepable c k reusable)) [
        | inl may ↦
            let run : probe_cleanup b c p reusable t ≡ keep_idle b q k t =
              rw (at, may, probe_cleanup) refl in
            subst IsIt (sym run) (keep_idle-IsClean b c p reusable k t may)
        | inr must_close ↦
            let run : probe_cleanup b c p reusable t ≡ cleaned (probe_close q) closed t =
              rw (at, must_close, probe_cleanup) refl in
            subst IsIt (sym run) (closed-IsClean c p reusable)
      ]
]
