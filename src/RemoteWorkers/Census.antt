-- ===== src/RemoteWorkers/Census.antt =====
-- Whatever comes in, the scheduler's worker set is that of the workers that are not lost.
use bistro.Base.{
  suc, String, Bool, ◌≡◌, refl, sym, ap, ◌∙◌, subst, Option, none, some, List, [], ◌∷◌, AssocMap,
  find, assign, has, insert_new, same, string_eq, length, ok, or_fatal, if◌then◌else◌, Bool-cases,
  inl, inr, >>=-eq-ok, after_check, >>-eq-ok, ok-injective,
}
use mathlib.Core.Option.{some_inj}
use bistro.Base.Int.{ℤ}
use bistro.Thrift.{InstanceId, BistroWorker, WorkerSetId, protocol_version, instance_eq}
use bistro.WorkerState.{State, Flags, state_beq, init}
use bistro.WorkerSet.Hash.{hash_of, hash_of_swap}
use bistro.Requests.{RemoteWorkerUpdate}
use bistro.Worker.{RemoteWorker, make_worker}
use bistro.Worker.Heartbeat.{
  update_state, process_heartbeat as process_worker_heartbeat, enforce_protocol_version,
}
use bistro.Worker.Ledger.{alive, update_state-Keeps, process_heartbeat-Keeps}
use bistro.RemoteWorkers.{RemoteWorkers, callbacks, new_worker, consensus_permits_becoming_healthy}
use bistro.RemoteWorkers.Operations.{
  add_to_host, remove_from_host, connect, move_host, beat, process_heartbeat, update_worker,
  update_workers,
}
use bistro.RemoteWorkers.Members.{alive_ids, IsSettled, IsSettled-same, callbacks-IsLedger}

-- Two lists of the same workers, in any order.
abbrev pub Alike : List InstanceId → List InstanceId → Type 0
Alike ids ids' = (hash_of ids ≡ hash_of ids') × (length ids ≡ length ids')

Alike-alive :
    (x : RemoteWorker) (ids ids' : List InstanceId)
    → Alike ids ids'
    → Alike (alive x ids) (alive x ids')
unfolding hash_of
Alike-alive x ids ids' (h, n) = elim (Bool-cases (state_beq x.state.state State.must_die)) [
  | inl t ↦ rw (t) (h, n)
  | inr t ↦ rw (t) (cc, ap suc n)
]

Alike-swap :
    (x v : RemoteWorker) (ids : List InstanceId)
    → Alike (alive x (alive v ids)) (alive v (alive x ids))
Alike-swap x v ids = elim (Bool-cases (state_beq x.state.state State.must_die)) [
  | inl t ↦ rw (t) (refl, refl)
  | inr t ↦ elim (Bool-cases (state_beq v.state.state State.must_die)) [
    | inl s ↦ rw (t, s) (refl, refl)
    | inr s ↦ rw (t, s) (hash_of_swap x.worker.id v.worker.id ids, refl)
  ]
]

-- The workers besides one of them, which may change.
pub record IsSplit (shard : String) (workers : AssocMap String RemoteWorker) (w : RemoteWorker)
    (others : List InstanceId) : Type 0 where
  pub is_split : Alike (alive_ids workers) (alive w others)
  pub after : (v : RemoteWorker) → Alike (alive v others) (alive_ids (assign shard v workers))

pub alive-IsSplit :
    (shard : String) (workers : AssocMap String RemoteWorker) (w : RemoteWorker)
    → find shard workers ≡ some w
    → (others : List InstanceId) × IsSplit shard workers w others
unfolding find assign alive_ids
alive-IsSplit shard [] w h = cc
alive-IsSplit shard ((s, x) ∷ workers) w h = elim (Bool-cases (same s shard)) [
  | inl t ↦
      let e : x ≡ w = some_inj.0 (rw (t) at h) in
      (
        alive_ids workers,
        record { is_split = rw (e) (refl, refl); after = λ v. rw (t) (refl, refl) },
      )
  | inr t ↦
      let (others, split) = alive-IsSplit shard workers w (rw (t) at h) in
      (
        alive x others,
        record {
          is_split =
              let (h1, n1) = Alike-alive x _ _ split.is_split in
              let (h2, n2) = Alike-swap x w others in (h1 ∙ h2, n1 ∙ n2);
          after = λ v. rw (t) (
              let (h1, n1) = Alike-swap v x others in
              let (h2, n2) = Alike-alive x _ _ (split.after v) in (h1 ∙ h2, n1 ∙ n2));
        },
      )
]

-- The set's hash and the number of initial worker sets are those of the workers that are not lost.
abbrev pub IsCounted : RemoteWorkers → Type 0
IsCounted r = IsSettled r.workers (alive_ids r.workers) r

pub IsCounted-after :
    (shard : String) (workers : AssocMap String RemoteWorker) (w v : RemoteWorker)
    (others : List InstanceId) (r : RemoteWorkers)
    → IsSplit shard workers w others
    → IsSettled workers (alive v others) r
    → IsCounted (record r { workers = assign shard v r.workers })
IsCounted-after shard workers w v others r split h =
    let (same_hash, same_length) = split.after v in
    let back = ap (λ m. alive_ids (assign shard v m)) (sym h.has_workers) in
    record {
      is_hash = h.is_hash ∙ same_hash ∙ ap hash_of back;
      is_count = h.is_count ∙ same_length ∙ ap length back;
      has_workers = refl;
    }

-- Pools are no part of what is counted.
pub IsCounted-hosts :
    (r : RemoteWorkers) {r' : RemoteWorkers}
    → r'.workers ≡ r.workers
    → r'.non_must_die ≡ r.non_must_die
    → r'.initial_worker_set_ids ≡ r.initial_worker_set_ids
    → IsCounted r
    → IsCounted r'
IsCounted-hosts r {r' = r'} w s i h = record {
  is_hash = ap (λ x. x.hash) s ∙ h.is_hash ∙ ap (λ m. hash_of (alive_ids m)) (sym w);
  is_count = ap length i ∙ h.is_count ∙ ap (λ m. length (alive_ids m)) (sym w);
  has_workers = refl;
}

add_to_host-IsCounted :
    (host shard : String) (r : RemoteWorkers) {r' : RemoteWorkers}
    → IsCounted r
    → add_to_host host shard r ≡ ok r'
    → IsCounted r'
unfolding add_to_host
add_to_host-IsCounted host shard r {r' = r'} h e =
    let end = ok-injective (after_check _ _ e) in
    subst IsCounted end (IsCounted-hosts r refl refl refl h)

move_host-IsCounted :
    (shard old new : String) (r : RemoteWorkers) {r' : RemoteWorkers}
    → IsCounted r
    → move_host shard old new r ≡ ok r'
    → IsCounted r'
unfolding move_host remove_from_host
move_host-IsCounted shard old new r {r' = r'} h e = elim (Bool-cases (same new old)) [
  | inl t ↦ subst IsCounted (ok-injective (rw (t) at e)) h
  | inr t ↦
      let (mid, out, k) = >>=-eq-ok (remove_from_host old shard r) _ (rw (t) at e) in
      let end = ok-injective (after_check _ _ out) in
      add_to_host-IsCounted new shard mid (subst IsCounted end (IsCounted-hosts r refl refl refl h))
        k
]

connect-IsCounted :
    (t : ℤ) (worker : BistroWorker) (id : WorkerSetId) (r : RemoteWorkers) {r' : RemoteWorkers}
    → IsCounted r
    → connect t worker id r ≡ ok r'
    → IsCounted r'
unfolding connect alive_ids make_worker init
connect-IsCounted t worker id r {r' = r'} h e =
    let w = make_worker t worker id r.scheduler_id in
    let (mid, joined, k) = >>=-eq-ok (new_worker w r) _ e in
    let s = (callbacks-IsLedger r.workers).joins w r mid (alive_ids r.workers) h joined in
    let more : RemoteWorkers = record mid {
      workers = insert_new worker.shard w mid.workers;
      worker_pool = record (mid.worker_pool) { shards = worker.shard ∷ mid.worker_pool.shards };
    } in
    let back = ap (λ m. worker.id ∷ alive_ids m) (sym s.has_workers) in
    add_to_host-IsCounted worker.machine_lock.hostname worker.shard more
      (record {
        is_hash = s.is_hash ∙ ap hash_of back;
        is_count = s.is_count ∙ ap length back;
        has_workers = refl;
      })
      k

pub or_fatal-eq {ℓ} : {A : Type ℓ} (o : Option A) {a : A} → or_fatal o ≡ ok a → o ≡ some a
or_fatal-eq none h = cc
or_fatal-eq (some b) h = ap some (ok-injective h)

module _ (f : Flags) where
  beat-IsCounted :
      (worker : BistroWorker) (id : WorkerSetId) (u : RemoteWorkerUpdate) (r : RemoteWorkers)
      {s : Bool × RemoteWorkerUpdate × RemoteWorkers}
      → IsCounted r
      → beat f worker id (u, r) ≡ ok s
      → IsCounted s.2
  unfolding beat
  beat-IsCounted worker id u r {s = s} h e =
      let (w, found, e1) = >>=-eq-ok (or_fatal (find worker.shard r.workers)) _ e in
      let (permits, agreed, e2) = >>=-eq-ok (consensus_permits_becoming_healthy w r) _ e1 in
      let (site, beaten, e3) =
        >>=-eq-ok (process_worker_heartbeat f callbacks worker id permits (w, u, r)) _ e2 in
      let (accepted, (w', u', r')) = site in
      let (r'', moved, end) = >>=-eq-ok (move_host worker.shard _ _ _) _ e3 in
      let (others, split) = alive-IsSplit worker.shard r.workers w (or_fatal-eq _ found) in
      let (same_hash, same_length) = split.is_split in
      let kept =
        process_heartbeat-Keeps f callbacks _ (callbacks-IsLedger r.workers) others worker id
          permits w u r
          (IsSettled-same r.workers (alive_ids r.workers) (alive w others) r same_hash same_length
            h)
          beaten in
      subst (λ q. IsCounted q.2) (ok-injective end)
        (move_host-IsCounted worker.shard _ _ _
          (IsCounted-after worker.shard r.workers w w' others r' split kept) moved)

  pub process_heartbeat-IsCounted :
      (worker : BistroWorker) (id : WorkerSetId) (u : RemoteWorkerUpdate) (r : RemoteWorkers)
      {s : Option WorkerSetId × RemoteWorkerUpdate × RemoteWorkers}
      → IsCounted r
      → process_heartbeat f worker id (u, r) ≡ ok s
      → IsCounted s.2
  unfolding process_heartbeat
  process_heartbeat-IsCounted worker id u r {s = s} h e =
      let e1 = >>-eq-ok (enforce_protocol_version worker.protocol_version protocol_version) _ e in
      let (known, found, e2) =
        >>=-eq-ok (if has worker.shard r.workers then ok r else connect u.cur_time worker id r) _
          e1 in
      let counted : IsCounted known = elim (Bool-cases (has worker.shard r.workers)) [
        | inl t ↦ subst IsCounted (ok-injective (rw (t) at found)) h
        | inr t ↦ connect-IsCounted u.cur_time worker id r h (rw (t) at found)
      ] in
      let ((accepted, u', r'), beaten, end) = >>=-eq-ok (beat f worker id (u, known)) _ e2 in
      subst (λ q. IsCounted q.2) (ok-injective end)
        (beat-IsCounted worker id u known counted beaten)

  pub update_worker-IsCounted :
      (shard : String) (u : RemoteWorkerUpdate) (r : RemoteWorkers)
      {s : RemoteWorkerUpdate × RemoteWorkers}
      → IsCounted r
      → update_worker f shard (u, r) ≡ ok s
      → IsCounted s.1
  unfolding update_worker
  update_worker-IsCounted shard u r {s = s} h e =
      let (w, found, e1) = >>=-eq-ok (or_fatal (find shard r.workers)) _ e in
      let (permits, agreed, e2) = >>=-eq-ok (consensus_permits_becoming_healthy w r) _ e1 in
      let ((w', u', r'), updated, end) =
        >>=-eq-ok (update_state f callbacks permits (w, u, r)) _ e2 in
      let (others, split) = alive-IsSplit shard r.workers w (or_fatal-eq _ found) in
      let (same_hash, same_length) = split.is_split in
      let kept =
        update_state-Keeps f callbacks _ (callbacks-IsLedger r.workers) others permits w u r
          (IsSettled-same r.workers (alive_ids r.workers) (alive w others) r same_hash same_length
            h)
          updated in
      subst (λ q. IsCounted q.1) (ok-injective end)
        (IsCounted-after shard r.workers w w' others r' split kept)

  pub update_workers-IsCounted :
      (shards : List String) (s : RemoteWorkerUpdate × RemoteWorkers)
      {t : RemoteWorkerUpdate × RemoteWorkers}
      → IsCounted s.1
      → update_workers f shards s ≡ ok t
      → IsCounted t.1
  unfolding update_workers
  update_workers-IsCounted [] s h e = subst (λ q. IsCounted q.1) (ok-injective e) h
  update_workers-IsCounted (shard ∷ shards) (u, r) h e =
      let (mid, first, rest) = >>=-eq-ok (update_worker f shard (u, r)) _ e in
      update_workers-IsCounted shards mid (update_worker-IsCounted shard u r h first) rest
