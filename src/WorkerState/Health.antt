-- ===== src/WorkerState/Health.antt =====
-- When a worker is healthy, and when it is lost.
use bistro.Base.{Bool, true, false, ◌≡◌, ◌↔◌, ◌≢◌, ◌⊎◌, ◌+◌, ◌<◌, arith}
use bistro.Base.Int.{ℤ, ◌+ℤ◌, ◌≤ℤ◌, pos_part, neg_part}
use bistro.WorkerState.{State, RemoteWorkerState, judge, is_lost, compute_state}

module _ (s : RemoteWorkerState) (now healthcheck_gap heartbeat_gap lose_after : ℤ)
    (allowed : Bool) where
  abbrev outcome : State × Bool
  outcome = compute_state s now healthcheck_gap heartbeat_gap lose_after allowed

  abbrev pub IsRecent : Type 0
  IsRecent =
      (now ≤ℤ s.time_last_good_healthcheck_sent +ℤ healthcheck_gap)
      × (now ≤ℤ s.time_last_heartbeat_received +ℤ heartbeat_gap)

  -- A worker is found healthy exactly when it is neither NEW nor lost, its last good healthcheck and
  -- its last heartbeat are recent, and it was healthy before or may become so.
  pub compute_state-healthy_iff : (outcome.0 ≡ State.healthy) ↔ (
      (s.state ≢ State.new)
      × (s.state ≢ State.must_die)
      × IsRecent
      × ((s.has_been_healthy ≡ true) ⊎ (allowed ≡ true)))
  unfolding compute_state judge is_lost
  compute_state-healthy_iff = (
    λ h. (ground arith, ground arith, (ground arith, ground arith), ground arith),
    λ h. ground arith,
  )

  abbrev pub IsOverdue : Type 0
  IsOverdue =
      pos_part (s.time_became_unhealthy +ℤ lose_after) + neg_part now
      < pos_part now + neg_part (s.time_became_unhealthy +ℤ lose_after)

  -- A worker that is not lost yet is found lost only if it is not in the HEALTHY state, has been
  -- unhealthy for longer than the limit, and is not merely kept from being healthy by a lack of
  -- consensus.
  pub compute_state-must_die :
      s.state ≢ State.must_die
      → outcome.0 ≡ State.must_die
      → (s.state ≢ State.healthy) × IsOverdue × (outcome.1 ≡ false)
  unfolding compute_state judge is_lost
  compute_state-must_die alive h = (ground arith, ground arith, ground arith)

  -- Conversely a worker that is NEW or UNHEALTHY is found lost once it has been so for longer than
  -- the limit, unless it meets every condition for being healthy but the consensus.
  pub compute_state_lost :
      (s.state ≡ State.new) ⊎ ((s.state ≡ State.unhealthy) × (IsRecent → ⊥))
      → ◌<◌ 0 (pos_part lose_after)
      → neg_part lose_after ≡ 0
      → IsOverdue
      → outcome.0 ≡ State.must_die
  unfolding compute_state judge is_lost
  compute_state_lost c p n o = ground arith

  -- A lost worker stays lost, and a NEW one does not become healthy or unhealthy by itself.
  pub compute_state_stays :
      ((s.state ≡ State.must_die) → outcome ≡ (State.must_die, false))
      × ((s.state ≡ State.new) → (outcome.0 ≡ State.new) ⊎ (outcome.0 ≡ State.must_die))
  unfolding compute_state judge is_lost
  compute_state_stays = (λ e. ground arith, λ e. ground arith)
