-- ===== src/Examples/Pages.antt =====
-- A writer and a snapshot.
use nginx_healthcheck_module.Base.{
  ℕ, ◌≡◌, ◌≢◌, refl, sym, ◌∙◌, Bool, true, some, List, [], ◌∷◌, ◌++◌, codes, drop,
}
use nginx_healthcheck_module.Slots.{try_read_peer, current}
use nginx_healthcheck_module.Status.Writer.{
  Writer, init, text_of, append, append_loop, add_block, copy_part,
}
use nginx_healthcheck_module.Status.Writer.Blocks.{IsWriter, init-IsWriter}
use nginx_healthcheck_module.Status.Writer.Appends.{append-IsWriter}
use nginx_healthcheck_module.Status.Snapshot.{
  ShownPeer, busy, error, snapshot_init, snapshot_step, step_from, is_hidden,
}
use nginx_healthcheck_module.Status.Snapshot.Prefix.{IsPage, Progress, snapshot_step-Progress}
use nginx_healthcheck_module.Examples.World.{world, idle_peer, fresh_slots}

abbrev memory : ℕ → Bool
memory t = true

abbrev written : Writer
written = record { chain = codes "up" ∷ []; length = 2; blocks = 1 }

up_written : append memory init (codes "up") 0 ≡ some (written, 3)
unfolding append append_loop add_block copy_part
up_written = refl

append-IsWriter_example :
    IsWriter written × (text_of written.chain ≡ text_of init.chain ++ codes "up")
append-IsWriter_example =
    append-IsWriter memory init written (codes "up") 0 3 init-IsWriter up_written

abbrev shown_peers : List ShownPeer
shown_peers =
    record { index = 0; shm = some (fresh_slots idle_peer) }
    ∷ record { index = 1; shm = some (fresh_slots idle_peer) }
    ∷ []

first-IsPage : IsPage 2 [] (snapshot_init shown_peers)
first-IsPage = record { counted = refl; totalled = refl; listed = refl }

stops_busy : (snapshot_step (world 42) 2 shown_peers (snapshot_init shown_peers) 1 0).rc ≡ busy
unfolding snapshot_step step_from try_read_peer is_hidden current
stops_busy = refl

busy-ne-error : busy ≢ error
busy-ne-error = λ h. absurd (cc)

one_read : (snapshot_step (world 42) 2 shown_peers (snapshot_init shown_peers) 1 0).rc ≢ error
one_read = λ h. busy-ne-error (sym stops_busy ∙ h)

-- With room for one of the two peers.
snapshot_step-Progress_example :
    Progress 2 []
      (drop 0 shown_peers)
      1
      (snapshot_step (world 42) 2 shown_peers (snapshot_init shown_peers) 1 0)
snapshot_step-Progress_example =
    snapshot_step-Progress (world 42) 2 shown_peers [] (snapshot_init shown_peers) 1 0 first-IsPage
      one_read
