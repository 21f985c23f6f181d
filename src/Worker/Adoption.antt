-- ===== src/Worker/Adoption.antt =====
-- The worker sets that a worker adopts.
use bistro.Base.{
  Bool, sym, ◌≡◌, Option, refl, ap, ◌∙◌, true, some, ok, check, ◌>>◌, arith, same, if◌then◌else◌,
  Bool-cases, inl, inr, >>=-eq-ok, >>-eq-ok, ◌⊎◌, nat_eq,
}
use bistro.Thrift.{BistroWorker, WorkerSetId, instance_eq, machine_eq, set_id_eq, protocol_version}
use bistro.WorkerSet.{earlier}
use bistro.WorkerState.{State, Flags, state_beq, set_state}
use bistro.Requests.{RemoteWorkerUpdate, request_suicide}
use bistro.Worker.{RemoteWorker, compute_worker_state, lose_running_tasks}
use bistro.Worker.Heartbeat.{
  Callbacks, adopt_worker_set_id, may_adopt, adopted, is_no_later_than_initial, take_worker_set_id,
  consider_worker_set_id, update_state, lose_worker, note_unhealthy, send_healthcheck,
  send_unsure_check, update_current_worker, receive_heartbeat, process_heartbeat,
  check_protocol_version,
}

module _ {G : Type 0} (f : Flags) (callbacks : Callbacks G) (id : WorkerSetId) (w : RemoteWorker)
    (g : G) where
  adopt_worker_set_id-eq :
      {r : RemoteWorker × G}
      → adopt_worker_set_id f callbacks id (w, g) ≡ ok r
      → (indirect : Option WorkerSetId) × (r.0 ≡ adopted id indirect w) × (may_adopt id w ≡ true)
  unfolding adopt_worker_set_id
  adopt_worker_set_id-eq {r} e =
      let ((indirect, g'), ran, rest) =
        >>=-eq-ok (callbacks.worker_set_id_change w id g)
          (λ (indirect, g'). check (may_adopt id w) >> ok (adopted id indirect w, g')) e in
      (indirect, ground arith, ground arith)

  take_worker_set_id-later :
      (old : WorkerSetId) {r : RemoteWorker × G}
      → w.worker_set_id ≡ some old
      → take_worker_set_id f callbacks id (w, g) ≡ ok r
      → (r ≡ (w, g))
        ⊎ ((adopt_worker_set_id f callbacks id (w, g) ≡ ok r)
            × (earlier old.version id.version ≡ ok true))
  unfolding take_worker_set_id
  take_worker_set_id-later old h e = ground arith

  -- A worker's set is replaced only by a later version, and never lost; the first one that it adopts
  -- stays its first associated set; and what it adopts comes from the current scheduler.
  consider_worker_set_id-later :
      (old first : WorkerSetId) (r : RemoteWorker × G)
      → w.worker_set_id ≡ some old
      → w.first_associated_worker_set_id ≡ some first
      → consider_worker_set_id f callbacks id (w, g) ≡ ok r
      → ((r.0.worker_set_id ≡ some old)
          ⊎ ((r.0.worker_set_id ≡ some id)
              × (earlier old.version id.version ≡ ok true)
              × (id.scheduler_id ≡ w.scheduler_id)))
        × (r.0.first_associated_worker_set_id ≡ some first)
  unfolding consider_worker_set_id adopted
  consider_worker_set_id-later old first r h hf e =
      elim (Bool-cases (same id.scheduler_id w.scheduler_id)) [
        | inr foreign ↦ (inl (ground arith), ground arith)
        | inl own ↦
            let (stale, judged, rest) =
              >>=-eq-ok (is_no_later_than_initial f callbacks id w)
                (λ stale. if stale then ok (w, g) else take_worker_set_id f callbacks id (w, g))
                (rw (own) at e) in
            elim (Bool-cases stale) [
              | inl t ↦ (inl (ground arith), ground arith)
              | inr t ↦ elim (take_worker_set_id-later old h (rw (t) at rest)) [
                | inl t ↦ (inl (ground arith), ground arith)
                | inr (took, later) ↦
                    let (_, same_worker, _) = adopt_worker_set_id-eq took in
                    (
                      inr (
                        ap (λ v. v.worker_set_id) same_worker,
                        later,
                        (instance_eq.beq_iff id.scheduler_id w.scheduler_id).0 own,
                      ),
                      ap (λ v. v.first_associated_worker_set_id) same_worker ∙ rw (hf) refl,
                    )
              ]
            ]
      ]

module _ {G : Type 0} (f : Flags) (callbacks : Callbacks G) where
  -- What an update of the state leaves alone.
  update_state-keeps :
      (c : Bool) (v v' : RemoteWorker) (u u' : RemoteWorkerUpdate) (k k' : G)
      → update_state f callbacks c (v, u, k) ≡ ok (v', u', k')
      → (v'.worker_set_id ≡ v.worker_set_id)
        × (v'.first_associated_worker_set_id ≡ v.first_associated_worker_set_id)
  unfolding update_state lose_worker lose_running_tasks note_unhealthy set_state send_healthcheck
      send_unsure_check
  update_state-keeps c v v' u u' k k' e =
      elim (Bool-cases (state_beq v.state.state State.must_die)) [
        | inl dead ↦ (ground arith, ground arith)
        | inr alive ↦
            let now = (compute_worker_state f v u.cur_time c).0 in
            elim (Bool-cases (state_beq now State.must_die)) [
              | inl lost ↦
                  let (k1, called, rest) =
                    >>=-eq-ok (callbacks.dead_worker (note_unhealthy now u.cur_time v) k) _
                      (rw (alive, lost) at e) in
                  (ground arith, ground arith)
              | inr kept ↦ (ground arith, ground arith)
            ]
      ]

  -- On a heartbeat of a worker's current instance, from its machine and port, that returns, for a
  -- worker that has a set and a first associated one: it is accepted, the worker's set is replaced only by the heartbeat's, if this is a later version that
  -- the worker's scheduler issued, and is not lost; and the first associated set stays.
  pub process_heartbeat-later :
      (w_new : BistroWorker) (id : WorkerSetId) (c : Bool) (w : RemoteWorker)
      (u : RemoteWorkerUpdate) (g : G) (old first : WorkerSetId) (accepted : Bool)
      (w' : RemoteWorker) (u' : RemoteWorkerUpdate) (g' : G)
      → w.worker.machine_lock ≡ w_new.machine_lock
      → w.worker.id ≡ w_new.id
      → w.worker_set_id ≡ some old
      → w.first_associated_worker_set_id ≡ some first
      → process_heartbeat f callbacks w_new id c (w, u, g) ≡ ok (accepted, (w', u', g'))
      → (accepted ≡ true)
        × ((w'.worker_set_id ≡ some old)
            ⊎ ((w'.worker_set_id ≡ some id)
                × (earlier old.version id.version ≡ ok true)
                × (id.scheduler_id ≡ w.scheduler_id)))
        × (w'.first_associated_worker_set_id ≡ some first)
  unfolding process_heartbeat update_current_worker receive_heartbeat
  process_heartbeat-later w_new id c w u g old first accepted w' u' g' place instance h hf e =
      let here : same w.worker.machine_lock w_new.machine_lock ≡ true =
        (machine_eq.beq_iff w.worker.machine_lock w_new.machine_lock).1 place in
      let now : same w.worker.id w_new.id ≡ true =
        (instance_eq.beq_iff w.worker.id w_new.id).1 instance in
      let e1 =
        >>-eq-ok (check (check_protocol_version w_new.protocol_version protocol_version)) _ e in
      let ((v, v_u, v_g), updated, e2) =
        >>=-eq-ok
          (update_current_worker f callbacks w_new id c (
            w,
            (if state_beq w.state.state State.must_die then request_suicide w.worker u else u),
            g,
          ))
          _ (rw (here, now) at e1) in
      let ((w1, g1), considered, e3) =
        >>=-eq-ok (consider_worker_set_id f callbacks id (record w { worker = w_new }, g)) _
          updated in
      let (kept, first_kept) = update_state-keeps c _ v _ v_u g1 v_g e3 in
      let (either, same_first) =
        consider_worker_set_id-later f callbacks id (record w { worker = w_new }) g old first
          (w1, g1) h hf considered in
      let same_worker : v ≡ w' = ground arith in
      (
        ground arith,
        (elim either [
          | inl o ↦ inl (ap (λ x. x.worker_set_id) (sym same_worker) ∙ kept ∙ o)
          | inr (o, l, s) ↦ inr (ap (λ x. x.worker_set_id) (sym same_worker) ∙ kept ∙ o, l, s)
        ]),
        ap (λ x. x.first_associated_worker_set_id) (sym same_worker) ∙ first_kept ∙ same_first,
      )
