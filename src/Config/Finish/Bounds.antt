-- ===== src/Config/Finish/Bounds.antt =====
-- The parameters of a directive that is accepted fit together.
use nginx_healthcheck_module.Base.{
  ℕ, ◌-◌, ◌*◌, ◌^◌, ◌≤◌, ◌<◌, ◌≡◌, refl, ap, ◌∙◌, inl, inr, ◌⊎◌, subst, true, false, not, ◌&&◌,
  ◌||◌, ltb, leb, ◌==◌, if◌then◌else◌, min, u64_max, arith, div-mul-le, Bool-cases,
}
use nginx_healthcheck_module.Config.{SrvConf, is_tcp}
use nginx_healthcheck_module.Config.Finish.{
  CheckArgs, rehandshake_max, keepalive_time_max, configured, is_off, keepalive_conf, default_idle,
  finish_keepalive, check_timeout_of, reuse_of, keepalive_of, keeping, finish_conf,
}

-- What reading the arguments has made sure of.
pub record IsRead (a : CheckArgs) : Type 0 where
  pub interval_bounded : a.interval < 2 ^ 63
  pub timeout_positive : a.timeout_set ≡ true → 0 < a.timeout
  pub reuse_bounded : a.reuse_time ≤ rehandshake_max
  pub keepalive_bounded : a.keepalive_time ≤ rehandshake_max
  pub idle_bounded : a.keepalive_idle ≤ keepalive_time_max
  pub count_bounded : a.keepalive_count ≤ 127

-- What a probe relies on: it ends before the next one starts, a connection that is kept outlives a
-- round, and the kernel has an answer to its first probe before the connection is given up.
pub record IsKept (c : SrvConf) : Type 0 where
  pub kept : c.keep_connection ≡ true
  pub idle_positive : 1 ≤ c.keepalive_interval
  pub within_idle : c.keepalive_interval ≤ c.keepalive_idle
  pub idle_bounded : c.keepalive_idle ≤ keepalive_time_max
  pub before_rehandshake : (c.rehandshake ≡ 0) ⊎ (c.keepalive_idle * 1000 < c.rehandshake)
  pub counted : 1 ≤ c.keepalive_count
  pub count_bounded : c.keepalive_count ≤ 127

pub record IsConsistent (c : SrvConf) : Type 0 where
  pub interval_bounded : 100 ≤ c.check_interval
  pub timeout_positive : 0 < c.check_timeout
  pub timeout_less : c.check_timeout < c.check_interval
  pub only_tcp : c.keep_connection ≡ true → is_tcp c.check_type ≡ true
  pub outlives : (c.rehandshake ≡ 0) ⊎ (c.check_interval < c.rehandshake)
  pub keepalive_kept : c.keepalive ≡ true → IsKept c

timeout-bounds :
    (a : CheckArgs)
    → IsRead a
    → 100 ≤ a.interval
    → a.timeout_set && leb a.interval a.timeout ≡ false
    → (0 < check_timeout_of a) × (check_timeout_of a < a.interval)
unfolding check_timeout_of
timeout-bounds a v h k = ground (arith, v.timeout_positive)

handshake-bounded : (a : CheckArgs) → IsRead a → min (reuse_of a) (keepalive_of a) ≤ u64_max
handshake-bounded a v = ground arith

-- `out` differs from `c` in the keepalive parameters only.
record SameRounds (c out : SrvConf) : Type 0 where
  same_interval : out.check_interval ≡ c.check_interval
  same_timeout : out.check_timeout ≡ c.check_timeout
  same_type : out.check_type ≡ c.check_type
  same_keep : out.keep_connection ≡ c.keep_connection
  same_rehandshake : out.rehandshake ≡ c.rehandshake

keepalive_conf-IsKept :
    (c out : SrvConf) (a : CheckArgs) (idle : ℕ)
    → IsRead a
    → c.keep_connection ≡ true
    → idle ≤ keepalive_time_max
    → (c.rehandshake ≡ 0) ⊎ (idle * 1000 < c.rehandshake)
    → keepalive_conf c a idle ≡ configured out
    → IsKept out × SameRounds c out
unfolding keepalive_conf
keepalive_conf-IsKept c out a idle v kept bounded early h = (
  record {
    kept = ground arith;
    idle_positive = ground arith;
    within_idle = ground arith;
    idle_bounded = ground arith;
    before_rehandshake = ground (arith, early);
    counted = ground arith;
    count_bounded = ground (arith, v.count_bounded);
  },
  record {
    same_interval = ground arith;
    same_timeout = ground arith;
    same_type = ground arith;
    same_keep = ground arith;
    same_rehandshake = ground arith;
  },
)

-- The rehandshake interval as finish_keepalive gets it, and as the configuration has it.
abbrev rehandshake_of : ℕ → ℕ
rehandshake_of handshake = if handshake == u64_max then 0 else handshake

default_idle-early :
    (c : SrvConf) (handshake : ℕ)
    → (rehandshake_of handshake ≡ 0) ⊎ (default_idle c handshake * 1000 < rehandshake_of handshake)
unfolding default_idle
default_idle-early c handshake = elim (Bool-cases (handshake == u64_max)) [
  | inl forever ↦ inl (ground arith)
  | inr limited ↦ elim (Bool-cases (handshake == 0)) [
    | inl zero ↦ inl (ground arith)
    | inr some_time ↦ inr (ground (arith, div-mul-le (handshake - 1) 1000))
  ]
]

finish_keepalive-IsKept :
    (c out : SrvConf) (a : CheckArgs) (handshake : ℕ)
    → IsRead a
    → c.keep_connection ≡ true
    → c.rehandshake ≡ rehandshake_of handshake
    → finish_keepalive c a handshake ≡ configured out
    → IsKept out × SameRounds c out
unfolding finish_keepalive
finish_keepalive-IsKept c out a handshake v kept re h = elim (Bool-cases (a.keepalive_idle == 0)) [
  | inl none_given ↦
      keepalive_conf-IsKept c out a (min (default_idle c handshake) keepalive_time_max) v kept
        (ground arith) (ground (arith, default_idle-early c handshake)) (ground arith)
  | inr given ↦
      keepalive_conf-IsKept c out a a.keepalive_idle v kept v.idle_bounded
        (ground (arith, v.idle_bounded)) (ground arith)
]

-- The tests that finish_conf makes before it looks at the keepalive parameters.
record Passed (c : SrvConf) (a : CheckArgs) : Type 0 where
  long : ltb a.interval 100 ≡ false
  in_time : a.timeout_set && leb a.interval a.timeout ≡ false
  right_type : not (is_tcp c.check_type) && (not (is_off a.reuse) || a.keepalive) ≡ false
  outlasts : leb (reuse_of a) a.interval || leb (keepalive_of a) a.interval ≡ false

keeping-outlives :
    (c : SrvConf) (a : CheckArgs)
    → Passed c a
    → ((keeping c a).rehandshake ≡ 0) ⊎ (a.interval < (keeping c a).rehandshake)
keeping-outlives c a p = elim (Bool-cases (min (reuse_of a) (keepalive_of a) == u64_max)) [
  | inl forever ↦ inl (ground arith)
  | inr limited ↦ inr (ground (arith, p.outlasts))
]

keeping-IsConsistent :
    (c out : SrvConf) (a : CheckArgs)
    → IsRead a
    → Passed c a
    → SameRounds (keeping c a) out
    → (out.keepalive ≡ true → IsKept out)
    → IsConsistent out
keeping-IsConsistent c out a v p same kept =
    let outlives_out : (out.rehandshake ≡ 0) ⊎ (out.check_interval < out.rehandshake) =
      rw (same.same_rehandshake, same.same_interval) (keeping-outlives c a p) in
    record {
      interval_bounded = ground (arith, p.long, same.same_interval);
      timeout_positive =
          ground (arith, timeout-bounds a v (ground (arith, p.long)) p.in_time, same.same_timeout);
      timeout_less = ground (
        arith,
        timeout-bounds a v (ground (arith, p.long)) p.in_time,
        same.same_timeout,
        same.same_interval,
      );
      only_tcp = λ k. ap is_tcp same.same_type ∙ ground (arith, p.right_type, same.same_keep);
      outlives = outlives_out;
      keepalive_kept = kept;
    }

same_rounds : (c : SrvConf) → SameRounds c c
same_rounds c = record {
  same_interval = refl;
  same_timeout = refl;
  same_type = refl;
  same_keep = refl;
  same_rehandshake = refl;
}

Passed-IsConsistent :
    (c out : SrvConf) (a : CheckArgs)
    → IsRead a
    → Passed c a
    → finish_conf c a ≡ configured out
    → IsConsistent out
unfolding finish_conf
Passed-IsConsistent c out a v p h = elim (Bool-cases a.keepalive) [
  | inl on ↦
      let (kept, same) =
        finish_keepalive-IsKept (keeping c a) out a (min (reuse_of a) (keepalive_of a)) v
          (ground arith) refl (ground (arith, p.long, p.in_time, p.right_type, p.outlasts)) in
      keeping-IsConsistent c out a v p same (λ k. kept)
  | inr none ↦
      let same : keeping c a ≡ out = ground (arith, p.long, p.in_time, p.right_type, p.outlasts) in
      subst IsConsistent same (
        keeping-IsConsistent c (keeping c a) a v p (same_rounds (keeping c a))
          (λ k. absurd (ground arith)))
]

finish_conf-Passed :
    (c out : SrvConf) (a : CheckArgs) → finish_conf c a ≡ configured out → Passed c a
unfolding finish_conf
finish_conf-Passed c out a h = record {
  long = ground arith;
  in_time = ground arith;
  right_type = ground arith;
  outlasts = ground arith;
}

pub finish_conf-IsConsistent :
    (c out : SrvConf) (a : CheckArgs)
    → IsRead a
    → finish_conf c a ≡ configured out
    → IsConsistent out
finish_conf-IsConsistent c out a v h =
    Passed-IsConsistent c out a v (finish_conf-Passed c out a h) h
