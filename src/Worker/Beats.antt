-- ===== src/Worker/Beats.antt =====
-- The heartbeats of a worker: what they keep, and when they replace it.
use bistro.Base.{
  ◌≡◌, subst, Bool, false, Option, some, Outcome, ok, check, ◌>>=◌, ◌>>◌, arith, same,
  if◌then◌else◌, Bool-cases, inl, inr, >>=-eq-ok, ◌⊎◌, nat_eq,
}
use bistro.Base.Int.{ltb_ℤ}
use bistro.Thrift.{BistroWorker, WorkerSetId, instance_eq, machine_eq, set_id_eq, protocol_version}
use bistro.WorkerState.{State, Flags, state_beq}
use bistro.Requests.{RemoteWorkerUpdate, request_suicide}
use bistro.Worker.{RemoteWorker, make_worker, lose_running_tasks}
use bistro.Worker.Heartbeat.{
  Callbacks, Site, receive_heartbeat, update_new_worker, adopt_worker_set_id, may_adopt, adopted,
  take_worker_set_id, consider_worker_set_id, update_current_worker, is_bumped, accept,
  process_heartbeat, check_protocol_version,
}
use bistro.Worker.Sound.{IsSound, with_ids, make_worker-IsSound}
use bistro.Worker.Life.{update_state-IsSound}

module _ {G : Type 0} (f : Flags) (callbacks : Callbacks G) where
  pub receive_heartbeat-IsSound :
      (c : Bool) (w : RemoteWorker) (u : RemoteWorkerUpdate) (g : G) {s : Site G}
      → IsSound w
      → receive_heartbeat f callbacks c (w, u, g) ≡ ok s
      → IsSound s.0
  unfolding receive_heartbeat
  receive_heartbeat-IsSound c w u g h e =
      update_state-IsSound f callbacks c
        (record w { state = record (w.state) { time_last_heartbeat_received = u.cur_time } }) u g
        (record { parts = h.parts }) e

  pub update_new_worker-IsSound :
      (w_new : BistroWorker) (id : WorkerSetId) (w : RemoteWorker) (u : RemoteWorkerUpdate) (g : G)
      {s : Site G}
      → update_new_worker f callbacks w_new id (w, u, g) ≡ ok s
      → IsSound s.0
  unfolding update_new_worker
  update_new_worker-IsSound w_new id w u g e =
      let w' = make_worker u.cur_time w_new id w.scheduler_id in
      let u' = (lose_running_tasks (w, u)).1 in
      let (g1, _, e1) =
        >>=-eq-ok
          (if state_beq w.state.state State.must_die then ok g else callbacks.dead_worker w g)
          (λ g1.
            callbacks.new_worker w' g1 >>= λ g2. receive_heartbeat f callbacks false (w', u', g2))
          e in
      let (g2, _, e2) =
        >>=-eq-ok (callbacks.new_worker w' g1)
          (λ g2. receive_heartbeat f callbacks false (w', u', g2)) e1 in
      receive_heartbeat-IsSound false w' u' g2
        (make_worker-IsSound u.cur_time w_new id w.scheduler_id) e2

  adopted-IsSound :
      (id : WorkerSetId) (indirect : Option WorkerSetId) (w : RemoteWorker)
      → IsSound w
      → id.scheduler_id ≡ w.scheduler_id
      → IsSound (adopted id indirect w)
  unfolding adopted
  adopted-IsSound id indirect w h own = record {
    parts = with_ids h.parts (some id) _ (λ c. cc, λ c. ground arith) (λ k e. ground arith);
  }

  adopt_worker_set_id-IsSound :
      (id : WorkerSetId) (w : RemoteWorker) (g : G) {r : RemoteWorker × G}
      → IsSound w
      → id.scheduler_id ≡ w.scheduler_id
      → adopt_worker_set_id f callbacks id (w, g) ≡ ok r
      → IsSound r.0
  unfolding adopt_worker_set_id
  adopt_worker_set_id-IsSound id w g {r} h own e =
      let ((indirect, g'), ran, rest) =
        >>=-eq-ok (callbacks.worker_set_id_change w id g)
          (λ (indirect, g'). check (may_adopt id w) >> ok (adopted id indirect w, g')) e in
      let end : adopted id indirect w ≡ r.0 = ground arith in
      subst IsSound end (adopted-IsSound id indirect w h own)

  -- The worker set is adopted, or the worker stays as it was.
  pub consider_worker_set_id-cases :
      (id : WorkerSetId) (w : RemoteWorker) (g : G) {r : RemoteWorker × G}
      → consider_worker_set_id f callbacks id (w, g) ≡ ok r
      → (r ≡ (w, g))
        ⊎ ((id.scheduler_id ≡ w.scheduler_id) × (adopt_worker_set_id f callbacks id (w, g) ≡ ok r))
  unfolding consider_worker_set_id take_worker_set_id
  consider_worker_set_id-cases id w g e =
      ground (arith, (instance_eq.beq_iff id.scheduler_id w.scheduler_id).0)

  consider_worker_set_id-IsSound :
      (id : WorkerSetId) (w : RemoteWorker) (g : G) {r : RemoteWorker × G}
      → IsSound w
      → consider_worker_set_id f callbacks id (w, g) ≡ ok r
      → IsSound r.0
  consider_worker_set_id-IsSound id w g {r} h e = elim (consider_worker_set_id-cases id w g e) [
    | inl t ↦ rw (t) h
    | inr (own, t) ↦ adopt_worker_set_id-IsSound id w g h own t
  ]

  pub update_current_worker-IsSound :
      (w_new : BistroWorker) (id : WorkerSetId) (c : Bool) (w : RemoteWorker)
      (u : RemoteWorkerUpdate) (g : G) {s : Site G}
      → IsSound w
      → update_current_worker f callbacks w_new id c (w, u, g) ≡ ok s
      → IsSound s.0
  unfolding update_current_worker
  update_current_worker-IsSound w_new id c w u g h e =
      let (r, considered, rest) =
        >>=-eq-ok (consider_worker_set_id f callbacks id (record w { worker = w_new }, g)) _ e in
      receive_heartbeat-IsSound c r.0 u r.1
        (consider_worker_set_id-IsSound id (record w { worker = w_new }) g
          (record { parts = h.parts }) considered)
        rest

  accept-ok : (o : Outcome (Site G)) {r : Bool × Site G} → accept f callbacks o ≡ ok r → o ≡ ok r.1
  accept-ok o e = ground arith

  -- A heartbeat leaves the worker as it is, replaces it, or updates it.
  pub process_heartbeat-cases :
      (w_new : BistroWorker) (id : WorkerSetId) (c : Bool) (w : RemoteWorker)
      (u : RemoteWorkerUpdate) (g : G) {r : Bool × Site G}
      → process_heartbeat f callbacks w_new id c (w, u, g) ≡ ok r
      → ((r.1.0 ≡ w) × (r.1.2 ≡ g))
        ⊎ ((v : RemoteWorkerUpdate) × (update_new_worker f callbacks w_new id (w, v, g) ≡ ok r.1))
        ⊎ ((v : RemoteWorkerUpdate) × (w.worker.id ≡ w_new.id)
            × (update_current_worker f callbacks w_new id c (w, v, g) ≡ ok r.1))
  unfolding process_heartbeat
  process_heartbeat-cases w_new id c w u g {r} e =
      elim (Bool-cases (check_protocol_version w_new.protocol_version protocol_version)) [
        | inr t ↦ absurd (ground arith)
        | inl t ↦ elim (Bool-cases (same w.worker.machine_lock w_new.machine_lock)) [
          | inr other ↦ elim (Bool-cases (is_bumped f callbacks w u.cur_time c)) [
            | inl bump ↦
                inr (inl (request_suicide w.worker u, accept-ok _ (rw (t, other, bump) at e)))
            | inr okay ↦ inl (ground arith, ground arith)
          ]
          | inl here ↦ elim (Bool-cases (same w.worker.id w_new.id)) [
            | inr other ↦ elim (Bool-cases (ltb_ℤ w_new.id.start_time w.worker.id.start_time)) [
              | inl old ↦ inl (ground arith, ground arith)
              | inr young ↦ inr (inl (u, accept-ok _ (rw (t, here, other, young) at e)))
            ]
            | inl own ↦ inr (
                inr (
                  _,
                  (instance_eq.beq_iff w.worker.id w_new.id).0 own,
                  accept-ok _ (rw (t, here, own) at e),
                ))
          ]
        ]
      ]

  pub process_heartbeat-IsSound :
      (w_new : BistroWorker) (id : WorkerSetId) (c : Bool) (w : RemoteWorker)
      (u : RemoteWorkerUpdate) (g : G) {r : Bool × Site G}
      → IsSound w
      → process_heartbeat f callbacks w_new id c (w, u, g) ≡ ok r
      → IsSound r.1.0
  process_heartbeat-IsSound w_new id c w u g h e =
      elim (process_heartbeat-cases w_new id c w u g e) [
        | inl (t, _) ↦ rw (t) h
        | inr (inl (v, t)) ↦ update_new_worker-IsSound w_new id w v g t
        | inr (inr (v, _, t)) ↦ update_current_worker-IsSound w_new id c w v g h t
      ]
