-- ===== src/Status/Request/Steps.antt =====
-- The snapshots of a request while they are collected, and what a step does to the one that is read.
use nginx_healthcheck_module.Base.{
  ℕ, zero, suc, ◌+◌, ◌-◌, ◌≤◌, ◌<◌, ◌≡◌, ◌≢◌, ◌⊎◌, refl, ap, sym, subst, inl, inr, false, Option,
  List, ◌++◌, length, length-append, length-drop, arith, Bool-cases, ◌==◌,
}
use nginx_healthcheck_module.Env.{Env}
use nginx_healthcheck_module.Runtime.{update}
use nginx_healthcheck_module.Status.Snapshot.{
  ShownPeer, Snapshot, StepRc, ok, busy, again, error, Step, snapshot_step,
}
use nginx_healthcheck_module.Status.Snapshot.Prefix.{
  Readings, IsPage, IsRead, nothing, reads, snapshot_step-Progress,
}
use nginx_healthcheck_module.Status.Request.{Source, peers_of, Request, Collected}

-- The snapshot of a source is the page of readings of its first peers.
pub record Begun (flag : ℕ) (source : Option Source) (s : Snapshot) : Type 0 where
  pub readings : Readings
  pub page : IsPage flag readings s
  pub within : length readings ≤ length (peers_of source)

-- Of all its peers.
pub record Ended (flag : ℕ) (source : Option Source) (s : Snapshot) : Type 0 where
  pub readings : Readings
  pub page : IsPage flag readings s
  pub all : length readings ≡ length (peers_of source)

-- The sources in front of the one that is read are complete, and the others have begun.
pub record IsCollected (sources : ℕ → Option Source) (r : Request) : Type 0 where
  pub ended : (i : ℕ) → i < r.module_index → Ended r.flag (sources i) (r.snapshots i)
  pub begun : (i : ℕ) → Begun r.flag (sources i) (r.snapshots i)

-- The peers that are still to be read of `left` sources from the one that is read on.
unfoldable pub unread_of : (ℕ → Option Source) → (ℕ → Snapshot) → ℕ → ℕ → ℕ
unread_of sources snapshots i zero = 0
unread_of sources snapshots i (suc left) =
    (length (peers_of (sources i)) - (snapshots i).next) + unread_of sources snapshots (i + 1) left

unfoldable pub unread : (ℕ → Option Source) → Request → ℕ
unread sources r = unread_of sources r.snapshots r.module_index (r.count - r.module_index)

IsRead-length : {ps : List ShownPeer} {rs : Readings} → IsRead ps rs → length rs ≤ length ps
IsRead-length nothing = omega arith
IsRead-length (reads at more) = omega (arith, IsRead-length more)

-- What holds of a snapshot that has been kept, and of the others before.
pub update_all :
    (P : ℕ → Snapshot → Type 0) (f : ℕ → Snapshot) (i : ℕ) (s : Snapshot)
    → P i s
    → ((j : ℕ) → j ≢ i → P j (f j))
    → (j : ℕ) → P j (update f i s j)
update_all P f i s at others j = elim (Bool-cases (j == i)) [
  | inl same ↦ let eq : j ≡ i = ground arith in rw same (subst (λ k. P k s) (sym eq) at)
  | inr other ↦ rw other (others j (λ eq. absurd (ground arith)))
]

pub unread_of-later :
    (sources : ℕ → Option Source) (f : ℕ → Snapshot) (i j left : ℕ) (s : Snapshot)
    → i < j
    → unread_of sources (update f i s) j left ≡ unread_of sources f j left
unfolding unread_of
unread_of-later sources f i j zero s h = refl
unread_of-later sources f i j (suc left) s h =
    let later : (j == i) ≡ false = ground arith in
    rw later (
      ap (λ n. (length (peers_of (sources j)) - (f j).next) + n)
        (unread_of-later sources f i (j + 1) left s (omega arith)))

pub StepRc-cases : (rc : StepRc) → (rc ≡ ok) ⊎ (rc ≡ busy) ⊎ (rc ≡ again) ⊎ (rc ≡ error)
StepRc-cases ok = inl refl
StepRc-cases busy = inr (inl refl)
StepRc-cases again = inr (inr (inl refl))
StepRc-cases error = inr (inr (inr refl))

-- A batch that is not cut short by an error, from a request `r` on with room for `remaining` peers.
pub record Batch (sources : ℕ → Option Source) (r : Request) (remaining : ℕ) (k : Collected)
    : Type 0 where
  pub sound : IsCollected sources k.request
  pub busy_reads : k.rc ≡ busy → unread sources k.request + remaining ≡ unread sources r
  pub ok_ends : k.rc ≡ ok → k.request.module_index ≡ r.count
  pub asked : (k.request.argument ≡ r.argument) × (k.request.flag ≡ r.flag)
  pub never_more : unread sources k.request ≤ unread sources r

-- The snapshot of the source that is read, after a step.
pub record Stepped (sources : ℕ → Option Source) (r : Request) (remaining : ℕ) (step : Step)
    : Type 0 where
  pub count : ℕ
  pub begun : Begun r.flag (sources r.module_index) step.snapshot
  pub next : step.snapshot.next ≡ (r.snapshots r.module_index).next + count
  pub fits : step.snapshot.next ≤ length (peers_of (sources r.module_index))
  pub budget : count + step.remaining ≡ remaining
  pub complete : step.rc ≡ ok → step.snapshot.next ≡ length (peers_of (sources r.module_index))
  pub spent : step.rc ≡ busy → step.remaining ≡ 0

pub step-Stepped :
    (e : Env) (sources : ℕ → Option Source) (r : Request) (remaining t : ℕ)
    → IsCollected sources r
    → (snapshot_step e r.flag
        (peers_of (sources r.module_index))
        (r.snapshots r.module_index)
        remaining
        t).rc
      ≢ error
    → Stepped sources r remaining (
        snapshot_step e r.flag
          (peers_of (sources r.module_index))
          (r.snapshots r.module_index)
          remaining
          t)
step-Stepped e sources r remaining t q h =
    let ps = peers_of (sources r.module_index) in
    let s = r.snapshots r.module_index in
    let b = q.begun r.module_index in
    let p = snapshot_step-Progress e r.flag ps b.readings s remaining t b.page h in
    let joined = length-append b.readings p.more in
    let room = length-drop (length b.readings) ps in
    let read = IsRead-length p.honest in
    record {
      count = length p.more;
      begun = record {
        readings = b.readings ++ p.more;
        page = p.page;
        within = omega (arith, joined, room, read, b.within);
      };
      next = omega (arith, p.page.counted, b.page.counted, joined);
      fits = omega (arith, p.page.counted, joined, room, read, b.within);
      budget = p.budget;
      complete = λ ends. omega (arith, p.page.counted, joined, room, p.complete ends, b.within);
      spent = p.spent;
    }
