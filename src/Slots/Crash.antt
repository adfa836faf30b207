-- ===== src/Slots/Crash.antt =====
-- A writer may die at any point of a publication: readers see the old state or the new one, whole,
-- and the bit that they route by agrees with the state that they see.
use nginx_healthcheck_module.Base.{◌<◌, ◌≡◌, refl, ◌⊎◌, inl, arith}
use nginx_healthcheck_module.State.{PeerState}
use nginx_healthcheck_module.Slots.{Slots, set_slot, current, spare, publish, is_down_word}

-- The word names a slot, and its bit 1 is that slot's health.
pub record IsPublished (p : Slots PeerState) : Type 0 where
  pub word_fits : p.published < 4
  pub routed : is_down_word p.published ≡ (current p).health.down

-- The memory after each store of a publication, in the order that the barrier keeps. The copy of a
-- state is many stores, so a writer may leave anything at all in the spare slot.
pub data Publishing (p : Slots PeerState) (state : PeerState) : Slots PeerState → Type 0 where
  untouched : Publishing p state p
  copying : (torn : PeerState) → Publishing p state (set_slot p (spare p) torn)
  finished : Publishing p state (publish p state)

pub current-publish : (p : Slots PeerState) (state : PeerState) → current (publish p state) ≡ state
unfolding current publish
current-publish p state = ground arith

-- Before, during and after the publication of a state over a published word, torn copies in the spare
-- slot included, the word names a slot and its bit 1 is that slot's health, and a reader sees the old
-- state or the new one.
pub Publishing-reads :
    {p q : Slots PeerState} {state : PeerState}
    → IsPublished p
    → Publishing p state q
    → IsPublished q × ((current q ≡ current p) ⊎ (current q ≡ state))
unfolding current publish is_down_word
Publishing-reads v untouched = (v, inl refl)
Publishing-reads v (copying torn) = ground arith
Publishing-reads v finished = ground arith
