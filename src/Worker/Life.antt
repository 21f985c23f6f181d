-- ===== src/Worker/Life.antt =====
-- The life of a worker: every update of its state and every heartbeat keeps it sound.
use bistro.Base.{
  ◌≡◌, refl, subst, Bool, ok, arith, same, if◌then◌else◌, Bool-cases, inl, inr, >>=-eq-ok,
  ok-injective, ◌≢◌, nat_eq,
}
use bistro.Base.Int.{ℤ}
use bistro.Thrift.{instance_eq, machine_eq, set_id_eq}
use bistro.WorkerState.{State, Flags, state_beq, compute_state, judge, is_lost}
use bistro.Requests.{no_requests, RemoteWorkerUpdate, request_suicide, add_new_worker}
use bistro.Worker.{RemoteWorker, compute_worker_state, change_state, lose_running_tasks}
use bistro.Worker.Heartbeat.{
  Callbacks, Site, send_healthcheck, note_unhealthy, lose_worker, update_state,
}
use bistro.Worker.Sound.{
  IsSound, send_healthcheck-IsSound, send_unsure_check-IsSound, note_unhealthy-IsSound,
  lose_running_tasks-IsSound, change_state-IsSound,
}

-- No worker goes back to the NEW state.
pub compute_worker_state-new :
    (f : Flags) (w : RemoteWorker) (t : ℤ) (c : Bool)
    → (compute_worker_state f w t c).0 ≡ State.new
    → w.state.state ≡ State.new
unfolding compute_worker_state compute_state judge is_lost
compute_worker_state-new f w t c e = ground arith

module _ {G : Type 0} (f : Flags) (callbacks : Callbacks G) where
  abbrev pub SoundSite : Site G → Type 0
  SoundSite (w, u, g) = IsSound w

  pub lose_worker-IsSound :
      (w : RemoteWorker) (u : RemoteWorkerUpdate) (g : G) {s : Site G}
      → IsSound w
      → lose_worker f callbacks (w, u, g) ≡ ok s
      → SoundSite s
  unfolding lose_worker lose_running_tasks request_suicide
  lose_worker-IsSound w u g h e =
      let lost = lose_running_tasks (w, request_suicide w.worker u) in
      let (g', ran, same) =
        >>=-eq-ok (callbacks.dead_worker w g)
          (λ g'. ok (change_state State.must_die lost.0, lost.1, g')) e in
      subst SoundSite (ok-injective same) (
        change_state-IsSound State.must_die lost.0
          (lose_running_tasks-IsSound f w (request_suicide w.worker u) h) (λ c. (refl, refl)))

  -- A state that the code computes asks for no task lists that the worker does not have.
  checked_state-IsSound :
      (w : RemoteWorker) (t : ℤ) (c : Bool)
      → IsSound w
      → (compute_worker_state f w t c).0 ≢ State.must_die
      → IsSound (
          change_state
            (compute_worker_state f w t c).0
            (note_unhealthy (compute_worker_state f w t c).0 t w))
  unfolding note_unhealthy
  checked_state-IsSound w t c h alive =
      let new_state = (compute_worker_state f w t c).0 in
      change_state-IsSound new_state (note_unhealthy new_state t w)
        (note_unhealthy-IsSound f w (no_requests t) h new_state t)
        (λ d. elim d [
          | inl e ↦ h.parts.idle (inl (compute_worker_state-new f w t c e))
          | inr e ↦ absurd (alive e)
        ])

  pub update_state-IsSound :
      (c : Bool) (w : RemoteWorker) (u : RemoteWorkerUpdate) (g : G) {s : Site G}
      → IsSound w
      → update_state f callbacks c (w, u, g) ≡ ok s
      → SoundSite s
  unfolding update_state
  update_state-IsSound c w u g {s} h e =
      let new_state = (compute_worker_state f w u.cur_time c).0 in
      let w1 = note_unhealthy new_state u.cur_time w in
      let u1 = if state_beq new_state State.new then add_new_worker w.worker u else u in
      let sent = send_healthcheck f (change_state new_state w1, u1) in
      elim (Bool-cases (state_beq w.state.state State.must_die)) [
        | inl dead ↦ subst SoundSite (ok-injective (rw (dead) at e)) h
        | inr alive ↦ elim (Bool-cases (state_beq new_state State.must_die)) [
          | inl lost ↦
              lose_worker-IsSound w1 u1 g (note_unhealthy-IsSound f w u h new_state u.cur_time)
                (rw (alive, lost) at e)
          | inr kept ↦
              let changed = checked_state-IsSound w u.cur_time c h (λ d. ground (arith, d)) in
              subst SoundSite (ok-injective (rw (alive, kept) at e)) (
                send_unsure_check-IsSound f sent.0 sent.1
                  (send_healthcheck-IsSound f (change_state new_state w1) u1 changed))
        ]
      ]
