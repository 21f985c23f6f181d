-- ===== src/Worker/Ledger.antt =====
-- What the owner of a worker keeps about the workers that are not lost stays true whatever the worker
-- goes through, if the callbacks keep it.
use bistro.Base.{
  ◌≡◌, sym, subst, Bool, false, Option, List, ◌∷◌, ok, check, ◌>>◌, arith, if◌then◌else◌,
  Bool-cases, inl, inr, >>=-eq-ok, ok-injective,
}
use bistro.Thrift.{InstanceId, BistroWorker, WorkerSetId, instance_eq}
use bistro.WorkerState.{State, Flags, state_beq, init, set_state}
use bistro.Requests.{RemoteWorkerUpdate, request_suicide}
use bistro.Worker.{
  RemoteWorker, make_worker, compute_worker_state, change_state, lose_running_tasks,
}
use bistro.Worker.Heartbeat.{
  Callbacks, Site, send_healthcheck, send_unsure_check, note_unhealthy, lose_worker, update_state,
  receive_heartbeat, update_new_worker, adopt_worker_set_id, may_adopt, adopted,
  consider_worker_set_id, update_current_worker, process_heartbeat,
}
use bistro.Worker.Beats.{consider_worker_set_id-cases, process_heartbeat-cases}

-- The workers that are not lost: others, and this one unless it is lost.
abbrev pub alive : RemoteWorker → List InstanceId → List InstanceId
alive w ids = if state_beq w.state.state State.must_die then ids else w.worker.id ∷ ids

-- A predicate on these workers and the owner's state that the callbacks keep.
pub record IsLedger {G : Type 0} (callbacks : Callbacks G) (P : List InstanceId → G → Type 0)
    : Type 0 where
  pub joins :
      (w : RemoteWorker) (g g' : G) (ids : List InstanceId)
      → P ids g
      → callbacks.new_worker w g ≡ ok g'
      → P (w.worker.id ∷ ids) g'
  pub leaves :
      (w : RemoteWorker) (g g' : G) (ids : List InstanceId)
      → P (w.worker.id ∷ ids) g
      → callbacks.dead_worker w g ≡ ok g'
      → P ids g'
  pub changes :
      (w : RemoteWorker) (i : WorkerSetId) (g : G) (r : Option WorkerSetId × G)
      (ids : List InstanceId)
      → P ids g
      → callbacks.worker_set_id_change w i g ≡ ok r
      → P ids r.1

module _ {G : Type 0} (f : Flags) (callbacks : Callbacks G) (P : List InstanceId → G → Type 0)
    (ledger : IsLedger callbacks P) (ids : List InstanceId) where
  abbrev pub Keeps : Site G → Type 0
  Keeps s = P (alive s.0 ids) s.2

  lose_worker-Keeps :
      (w : RemoteWorker) (u : RemoteWorkerUpdate) (g : G) {s : Site G}
      → P (w.worker.id ∷ ids) g
      → lose_worker f callbacks (w, u, g) ≡ ok s
      → Keeps s
  unfolding lose_worker set_state
  lose_worker-Keeps w u g {s} h e =
      let lost = lose_running_tasks (w, request_suicide w.worker u) in
      let (g', ran, end) =
        >>=-eq-ok (callbacks.dead_worker w g)
          (λ g'. ok (change_state State.must_die lost.0, lost.1, g')) e in
      subst Keeps (ok-injective end) (ledger.leaves w g g' ids h ran)

  pub update_state-Keeps :
      (c : Bool) (w : RemoteWorker) (u : RemoteWorkerUpdate) (g : G) {s : Site G}
      → Keeps (w, u, g)
      → update_state f callbacks c (w, u, g) ≡ ok s
      → Keeps s
  unfolding update_state note_unhealthy send_healthcheck send_unsure_check set_state
  update_state-Keeps c w u g {s} h e =
      let new_state = (compute_worker_state f w u.cur_time c).0 in
      elim (Bool-cases (state_beq w.state.state State.must_die)) [
        | inl lost ↦ subst Keeps (ok-injective (rw (lost) at e)) h
        | inr living ↦ elim (Bool-cases (state_beq new_state State.must_die)) [
          | inl dies ↦
              lose_worker-Keeps (note_unhealthy new_state u.cur_time w) _ g (rw (living) at h)
                (rw (living, dies) at e)
          | inr lives ↦
              subst Keeps (ok-injective (rw (living, lives) at e)) (rw (lives) (rw (living) at h))
        ]
      ]

  receive_heartbeat-Keeps :
      (c : Bool) (w : RemoteWorker) (u : RemoteWorkerUpdate) (g : G) {s : Site G}
      → Keeps (w, u, g)
      → receive_heartbeat f callbacks c (w, u, g) ≡ ok s
      → Keeps s
  unfolding receive_heartbeat
  receive_heartbeat-Keeps c w u g h e = update_state-Keeps c _ u g h e

  update_new_worker-Keeps :
      (w_new : BistroWorker) (id : WorkerSetId) (w : RemoteWorker) (u : RemoteWorkerUpdate) (g : G)
      {s : Site G}
      → Keeps (w, u, g)
      → update_new_worker f callbacks w_new id (w, u, g) ≡ ok s
      → Keeps s
  unfolding update_new_worker make_worker init
  update_new_worker-Keeps w_new id w u g {s} h e =
      let w' = make_worker u.cur_time w_new id w.scheduler_id in
      let (g1, left, e1) =
        >>=-eq-ok
          (if state_beq w.state.state State.must_die then ok g else callbacks.dead_worker w g) _
          e in
      let (g2, joined, e2) = >>=-eq-ok (callbacks.new_worker w' g1) _ e1 in
      let others : P ids g1 = elim (Bool-cases (state_beq w.state.state State.must_die)) [
        | inl t ↦ subst (P ids) (ok-injective (rw (t) at left)) (rw (t) at h)
        | inr t ↦ ledger.leaves w g g1 ids (rw (t) at h) (rw (t) at left)
      ] in
      receive_heartbeat-Keeps false w' _ g2 (ledger.joins w' g1 g2 ids others joined) e2

  consider_worker_set_id-Keeps :
      (id : WorkerSetId) (w : RemoteWorker) (u : RemoteWorkerUpdate) (g : G) {r : RemoteWorker × G}
      → Keeps (w, u, g)
      → consider_worker_set_id f callbacks id (w, g) ≡ ok r
      → Keeps (r.0, u, r.1)
  unfolding adopt_worker_set_id adopted
  consider_worker_set_id-Keeps id w u g {r} h e =
      elim (consider_worker_set_id-cases f callbacks id w g e) [
        | inl t ↦ subst (λ q. Keeps (q.0, u, q.1)) (sym t) h
        | inr (own, t) ↦
            let ((indirect, g'), ran, rest) =
              >>=-eq-ok (callbacks.worker_set_id_change w id g)
                (λ (indirect, g'). check (may_adopt id w) >> ok (adopted id indirect w, g')) t in
            let kept : P (alive w ids) g' =
              ledger.changes w id g (indirect, g') (alive w ids) h ran in
            elim (Bool-cases (may_adopt id w)) [
              | inl may ↦ subst (λ q. Keeps (q.0, u, q.1)) (ok-injective (rw (may) at rest)) kept
              | inr not ↦ absurd (ground (arith, rest))
            ]
      ]

  update_current_worker-Keeps :
      (w_new : BistroWorker) (id : WorkerSetId) (c : Bool) (w : RemoteWorker)
      (u : RemoteWorkerUpdate) (g : G) {s : Site G}
      → Keeps (w, u, g)
      → w.worker.id ≡ w_new.id
      → update_current_worker f callbacks w_new id c (w, u, g) ≡ ok s
      → Keeps s
  unfolding update_current_worker
  update_current_worker-Keeps w_new id c w u g h own e =
      let (r, considered, rest) =
        >>=-eq-ok (consider_worker_set_id f callbacks id (record w { worker = w_new }, g)) _ e in
      receive_heartbeat-Keeps c r.0 u r.1
        (consider_worker_set_id-Keeps id (record w { worker = w_new }) u g
          (subst (λ i. P (if state_beq w.state.state State.must_die then ids else i ∷ ids) g) own h)
          considered)
        rest

  pub process_heartbeat-Keeps :
      (w_new : BistroWorker) (id : WorkerSetId) (c : Bool) (w : RemoteWorker)
      (u : RemoteWorkerUpdate) (g : G) {r : Bool × Site G}
      → Keeps (w, u, g)
      → process_heartbeat f callbacks w_new id c (w, u, g) ≡ ok r
      → Keeps r.1
  process_heartbeat-Keeps w_new id c w u g {r} h e =
      elim (process_heartbeat-cases f callbacks w_new id c w u g e) [
        | inl (t, q) ↦ rw (t, q) h
        | inr (inl (v, t)) ↦ update_new_worker-Keeps w_new id w v g h t
        | inr (inr (v, own, t)) ↦ update_current_worker-Keeps w_new id c w v g h own t
      ]
