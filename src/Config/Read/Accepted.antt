-- ===== src/Config/Read/Accepted.antt =====
-- Every directive that is accepted gives a configuration that fits together.
use nginx_healthcheck_module.Base.{
  ℕ, suc, ◌≤◌, ◌≡◌, inl, inr, subst, true, ◌&&◌, some, List, [], ◌∷◌, length, ◌==◌, Bytes, codes,
  strip_prefix, arith, Bool-cases, Option-cases,
}
use nginx_healthcheck_module.Config.{SrvConf}
use nginx_healthcheck_module.Config.Finish.{
  Handshake, default_time, CheckArgs, rehandshake_max, configured,
}
use nginx_healthcheck_module.Config.Finish.Bounds.{IsRead, IsConsistent, finish_conf-IsConsistent}
use nginx_healthcheck_module.Config.Read.{
  ConfLib, Reader, parse_handshake, parse_field, parse_fields, parse_keepalive, fields, Draft,
  first_draft, read_type, read_port, read_interval, read_timeout, read_rise, read_fall, read_down,
  read_reuse, read_keepalive, readers, read_with, read_all, drafted, check,
}

handshake-bounded :
    (l : ConfLib) (s : Bytes) (time time' : ℕ) (mode : Handshake)
    → time ≤ rehandshake_max
    → parse_handshake l s time ≡ some (mode, time')
    → time' ≤ rehandshake_max
unfolding parse_handshake
handshake-bounded l s time time' mode v h = ground arith

field-IsRead :
    (l : ConfLib) (n : ℕ) (s : Bytes) (a b : CheckArgs)
    → IsRead a
    → parse_field l n s a ≡ some b
    → IsRead b
unfolding parse_field
field-IsRead l n s a b v h = record {
  interval_bounded = ground (arith, v.interval_bounded);
  timeout_positive = ground (arith, v.timeout_positive);
  reuse_bounded = ground (arith, v.reuse_bounded);
  keepalive_bounded = elim (Option-cases (parse_handshake l s a.keepalive_time)) [
    | inl fails ↦ ground (arith, v.keepalive_bounded)
    | inr ((mode, time), reads) ↦ ground (
      arith,
      v.keepalive_bounded,
      handshake-bounded l s a.keepalive_time time mode v.keepalive_bounded reads,
    )
  ];
  idle_bounded = ground (arith, v.idle_bounded);
  count_bounded = ground (arith, v.count_bounded);
}

fields-IsRead :
    (l : ConfLib) (ss : List Bytes) (n : ℕ) (a b : CheckArgs)
    → IsRead a
    → parse_fields l n ss a ≡ some b
    → IsRead b
unfolding parse_fields
fields-IsRead l [] n a b v h = ground (arith, v)
fields-IsRead l (s ∷ ss) n a b v h = elim (Option-cases (parse_field l n s a)) [
  | inl fails ↦ absurd (ground arith)
  | inr (a', reads) ↦
      fields-IsRead l ss (suc n) a' b (field-IsRead l n s a a' v reads) (ground arith)
]

reset-IsRead :
    (a : CheckArgs)
    → IsRead a
    → IsRead (record a {
      keepalive = true;
      keepalive_handshake = default_time;
      keepalive_idle = 0;
      keepalive_interval = 0;
      keepalive_count = 0;
    })
reset-IsRead a v = record {
  interval_bounded = v.interval_bounded;
  timeout_positive = v.timeout_positive;
  reuse_bounded = v.reuse_bounded;
  keepalive_bounded = v.keepalive_bounded;
  idle_bounded = omega arith;
  count_bounded = omega arith;
}

keepalive-IsRead :
    (l : ConfLib) (s : Bytes) (a b : CheckArgs)
    → IsRead a
    → parse_keepalive l s a ≡ some b
    → IsRead b
unfolding parse_keepalive
keepalive-IsRead l s a b v h = elim (Bool-cases (length s == 0)) [
  | inl empty ↦ absurd (ground arith)
  | inr given ↦ elim (Bool-cases (length s == 3 && l.same_nocase s (codes "off"))) [
    | inl is_off ↦ ground (arith, v)
    | inr on ↦ fields-IsRead l (fields s) 0 _ b (reset-IsRead a v) (ground arith)
  ]
]

-- A reader keeps what is made sure of.
Keeps : Reader → Type 0
Keeps reader =
    (l : ConfLib) (s : Bytes) (d d' : Draft)
    → IsRead d.args
    → reader l s d ≡ some d'
    → IsRead d'.args

-- The readers that leave the arguments alone.
same_args : {a b : CheckArgs} → IsRead a → b ≡ a → IsRead b
same_args v same = rw same v

the_args : (d d' : Draft) (a : CheckArgs) → some (record d { args = a }) ≡ some d' → a ≡ d'.args
the_args d d' a h = ground arith

type-Keeps : Keeps read_type
unfolding Keeps read_type
type-Keeps l s d d' v h = same_args v (ground arith)

port-Keeps : Keeps read_port
unfolding Keeps read_port
port-Keeps l s d d' v h = same_args v (ground arith)

rise-Keeps : Keeps read_rise
unfolding Keeps read_rise
rise-Keeps l s d d' v h = same_args v (ground arith)

fall-Keeps : Keeps read_fall
unfolding Keeps read_fall
fall-Keeps l s d d' v h = same_args v (ground arith)

down-Keeps : Keeps read_down
unfolding Keeps read_down
down-Keeps l s d d' v h = same_args v (ground arith)

interval-Keeps : Keeps read_interval
unfolding Keeps read_interval
interval-Keeps l s d d' v h = elim (Option-cases (l.atoi s)) [
  | inl fails ↦ absurd (ground arith)
  | inr (n, reads) ↦ record {
    interval_bounded = ground (arith, l.atoi_bounded s n reads);
    timeout_positive = ground (arith, v.timeout_positive);
    reuse_bounded = ground (arith, v.reuse_bounded);
    keepalive_bounded = ground (arith, v.keepalive_bounded);
    idle_bounded = ground (arith, v.idle_bounded);
    count_bounded = ground (arith, v.count_bounded);
  }
]

timeout-Keeps : Keeps read_timeout
unfolding Keeps read_timeout
timeout-Keeps l s d d' v h = record {
  interval_bounded = ground (arith, v.interval_bounded);
  timeout_positive = λ k. ground arith;
  reuse_bounded = ground (arith, v.reuse_bounded);
  keepalive_bounded = ground (arith, v.keepalive_bounded);
  idle_bounded = ground (arith, v.idle_bounded);
  count_bounded = ground (arith, v.count_bounded);
}

reuse-Keeps : Keeps read_reuse
unfolding Keeps read_reuse
reuse-Keeps l s d d' v h = elim (Option-cases (parse_handshake l s d.args.reuse_time)) [
  | inl fails ↦ absurd (ground arith)
  | inr ((mode, time), reads) ↦ record {
    interval_bounded = ground (arith, v.interval_bounded);
    timeout_positive = ground (arith, v.timeout_positive);
    reuse_bounded =
        ground (arith, handshake-bounded l s d.args.reuse_time time mode v.reuse_bounded reads);
    keepalive_bounded = ground (arith, v.keepalive_bounded);
    idle_bounded = ground (arith, v.idle_bounded);
    count_bounded = ground (arith, v.count_bounded);
  }
]

keepalive-Keeps : Keeps read_keepalive
unfolding Keeps read_keepalive
keepalive-Keeps l s d d' v h = elim (Option-cases (parse_keepalive l s d.args)) [
  | inl fails ↦ absurd (ground arith)
  | inr (a, reads) ↦
      subst IsRead (the_args d d' a (ground arith)) (keepalive-IsRead l s d.args a v reads)
]

-- Every reader of a table keeps it.
AllKeep : List (Bytes × Reader) → Type 0
AllKeep [] = Unit
AllKeep ((prefix, reader) ∷ rest) = Keeps reader × AllKeep rest

readers-Keep : AllKeep readers
unfolding AllKeep
readers-Keep = (
  type-Keeps,
  (
    port-Keeps,
    (
      interval-Keeps,
      (
        timeout-Keeps,
        (rise-Keeps, (fall-Keeps, (down-Keeps, (reuse-Keeps, (keepalive-Keeps, tt))))),
      ),
    ),
  ),
)

read_with-Keeps :
    (table : List (Bytes × Reader)) (l : ConfLib) (s : Bytes) (d d' : Draft)
    → AllKeep table
    → IsRead d.args
    → read_with l table s d ≡ some d'
    → IsRead d'.args
unfolding read_with AllKeep Keeps
read_with-Keeps [] l s d d' all v h = absurd (ground arith)
read_with-Keeps ((prefix, reader) ∷ rest) l s d d' all v h =
    elim (Option-cases (strip_prefix prefix s)) [
      | inl other ↦ read_with-Keeps rest l s d d' all.1 v (ground arith)
      | inr (t, found) ↦ all.0 l t d d' v (ground arith)
    ]

read_all-IsRead :
    (l : ConfLib) (ss : List Bytes) (d d' : Draft)
    → IsRead d.args
    → read_all l ss d ≡ some d'
    → IsRead d'.args
unfolding read_all
read_all-IsRead l [] d d' v h = ground (arith, v)
read_all-IsRead l (s ∷ ss) d d' v h = elim (Option-cases (read_with l readers s d)) [
  | inl fails ↦ absurd (ground arith)
  | inr (e, reads) ↦
      read_all-IsRead l ss e d' (read_with-Keeps readers l s d e readers-Keep v reads)
        (ground arith)
]

first-IsRead : IsRead first_draft.args
first-IsRead = record {
  interval_bounded = omega arith;
  timeout_positive = λ h. absurd (ground arith);
  reuse_bounded = omega arith;
  keepalive_bounded = omega arith;
  idle_bounded = omega arith;
  count_bounded = omega arith;
}

-- Whatever the arguments of a check directive, and whatever Nginx reads the numbers and times in
-- them as (the numbers below 2 ^ 63): a configuration that is accepted has an interval of at least
-- 100 ms, a timeout above 0 and below the interval, keeps connections for TCP only, makes a kept
-- connection outlive a round, and with keepalive has kernel parameters that Linux takes, with the
-- first kernel probe before the connection is given up.
pub check-IsConsistent :
    (l : ConfLib) (values : List Bytes) (c : SrvConf)
    → check l values ≡ configured c
    → IsConsistent c
unfolding check
check-IsConsistent l values c h = elim (Option-cases (read_all l values first_draft)) [
  | inl fails ↦ absurd (ground arith)
  | inr (d, reads) ↦
      finish_conf-IsConsistent (drafted d) c d.args
        (read_all-IsRead l values first_draft d first-IsRead reads) (ground arith)
]
