-- ===== src/RemoteWorkers/Members.antt =====
-- The workers that are not lost, and what the scheduler keeps about their set.
use bistro.Base.{
  suc, String, ◌≡◌, sym, ap, ◌∙◌, subst, Option, none, some, List, [], ◌∷◌, AssocMap, same,
  string_eq, length, ok, arith, Bool-cases, inl, inr, >>=-eq-ok, after_check, ok-injective,
}
use bistro.Thrift.{InstanceId, WorkerSetHash, WorkerSetId, instance_eq, set_id_eq}
use bistro.WorkerSet.{earlier, add_worker_id_to_hash, remove_worker_id_from_hash}
use bistro.WorkerSet.Hash.{hash_of, remove_first-hash_of}
use bistro.Worker.{RemoteWorker}
use bistro.Worker.Ledger.{alive, IsLedger}
use bistro.History.{HistoryStep}
use bistro.RemoteWorkers.{
  RemoteWorkers, VersionShardSet, callbacks, is_none, add_to_version_shard_set,
  remove_from_version_shard_set, advance, add_step, new_worker, dead_worker, erase_one,
  forget_indirect, worker_set_id_change, update_indirect_worker_set_version,
}

unfoldable pub alive_ids : AssocMap String RemoteWorker → List InstanceId
alive_ids [] = []
alive_ids ((shard, w) ∷ workers) = alive w (alive_ids workers)

-- The hash is that of the workers, and there are as many initial worker sets.
pub record IsSettled (workers : AssocMap String RemoteWorker) (ids : List InstanceId)
    (r : RemoteWorkers) : Type 0 where
  pub is_hash : r.non_must_die.hash ≡ hash_of ids
  pub is_count : length r.initial_worker_set_ids ≡ length ids
  pub has_workers : r.workers ≡ workers

pub IsSettled-same :
    (workers : AssocMap String RemoteWorker) (ids ids' : List InstanceId) (r : RemoteWorkers)
    → hash_of ids ≡ hash_of ids'
    → length ids ≡ length ids'
    → IsSettled workers ids r
    → IsSettled workers ids' r
IsSettled-same workers ids ids' r h n s = record {
  is_hash = s.is_hash ∙ h;
  is_count = s.is_count ∙ n;
  has_workers = s.has_workers;
}

-- What a new version of the set leaves.
advance-IsSettled :
    (hash : WorkerSetHash) (step : HistoryStep) (r : RemoteWorkers)
    (workers : AssocMap String RemoteWorker) (ids : List InstanceId) {r' : RemoteWorkers}
    → hash ≡ hash_of ids
    → length r.initial_worker_set_ids ≡ length ids
    → r.workers ≡ workers
    → advance hash step r ≡ ok r'
    → IsSettled workers ids r'
unfolding advance
advance-IsSettled hash step r workers ids {r' = r'} h n w e =
    let (history, added, end) = >>=-eq-ok (add_step _ step r.history) _ e in
    subst (IsSettled workers ids) (ok-injective end)
      (record { is_hash = h; is_count = n; has_workers = w })

length-erase_one :
    (id : WorkerSetId) (ids : List WorkerSetId) {left : List WorkerSetId}
    → erase_one id ids ≡ ok left
    → length ids ≡ suc (length left)
unfolding erase_one
length-erase_one id [] h = cc
length-erase_one id (other ∷ ids) h = elim (Bool-cases (same other id)) [
  | inl t ↦ ap (λ l. suc (length l)) (ok-injective (rw (t) at h))
  | inr t ↦
      let (rest, e, k) = >>=-eq-ok (erase_one id ids) _ (rw (t) at h) in
      ap suc (length-erase_one id ids e) ∙ ap (λ l. suc (length l)) (ok-injective k)
]

-- Fields that the predicate does not mention may change.
IsSettled-indirect :
    (workers : AssocMap String RemoteWorker) (ids : List InstanceId) (r : RemoteWorkers)
    (vss : VersionShardSet)
    → IsSettled workers ids r
    → IsSettled workers ids (record r { indirect_versions = vss })
IsSettled-indirect workers ids r vss h = record {
  is_hash = h.is_hash;
  is_count = h.is_count;
  has_workers = h.has_workers;
}

update_indirect-IsSettled :
    (workers : AssocMap String RemoteWorker) (ids : List InstanceId) (shard : String)
    (current : Option WorkerSetId) (new : WorkerSetId) (r : RemoteWorkers)
    {s : Option WorkerSetId × RemoteWorkers}
    → IsSettled workers ids r
    → update_indirect_worker_set_version shard current new r ≡ ok s
    → IsSettled workers ids s.1
unfolding update_indirect_worker_set_version
update_indirect-IsSettled workers ids shard none new r {s = s} h e =
    let (vss, added, end) =
      >>=-eq-ok (add_to_version_shard_set new.version shard r.indirect_versions) _ e in
    subst (λ q. IsSettled workers ids q.1) (ok-injective end)
      (IsSettled-indirect workers ids r vss h)
update_indirect-IsSettled workers ids shard (some id) new r {s = s} h e =
    let e1 = after_check (same id.scheduler_id r.scheduler_id) _ e in
    let (later, compared, e2) = >>=-eq-ok (earlier id.version new.version) _ e1 in
    elim (Bool-cases later) [
      | inr t ↦ subst (λ q. IsSettled workers ids q.1) (ok-injective (rw (t) at e2)) h
      | inl t ↦
          let (vss, removed, e3) =
            >>=-eq-ok (remove_from_version_shard_set id.version shard r.indirect_versions) _
              (rw (t) at e2) in
          let (vss', added, end) =
            >>=-eq-ok (add_to_version_shard_set new.version shard vss) _ e3 in
          subst (λ q. IsSettled workers ids q.1) (ok-injective end)
            (IsSettled-indirect workers ids r vss' h)
    ]

new_worker-IsSettled :
    (workers : AssocMap String RemoteWorker) (w : RemoteWorker) (r r' : RemoteWorkers)
    (ids : List InstanceId)
    → IsSettled workers ids r
    → new_worker w r ≡ ok r'
    → IsSettled workers (w.worker.id ∷ ids) r'
unfolding new_worker hash_of
new_worker-IsSettled workers w r r' ids h e =
    let e1 = after_check (is_none w.worker_set_id) _ e in
    let e2 = after_check (is_none w.indirect_worker_set_id) _ e1 in
    let e3 = after_check (is_none w.first_associated_worker_set_id) _ e2 in
    advance-IsSettled (add_worker_id_to_hash r.non_must_die.hash w.worker.id) _ _ workers
      (w.worker.id ∷ ids) (ap (λ s. add_worker_id_to_hash s w.worker.id) h.is_hash)
      (ap suc h.is_count) h.has_workers e3

dead_worker-IsSettled :
    (workers : AssocMap String RemoteWorker) (w : RemoteWorker) (r r' : RemoteWorkers)
    (ids : List InstanceId)
    → IsSettled workers (w.worker.id ∷ ids) r
    → dead_worker w r ≡ ok r'
    → IsSettled workers ids r'
unfolding dead_worker
dead_worker-IsSettled workers w r r' ids h e =
    let (left, erased, e1) =
      >>=-eq-ok (erase_one w.initial_worker_set_id r.initial_worker_set_ids) _ e in
    let (vss, forgotten, e2) = >>=-eq-ok (forget_indirect w r) _ e1 in
    let (hash, removed, e3) =
      >>=-eq-ok (remove_worker_id_from_hash r.non_must_die.hash w.worker.id) _ e2 in
    let is_hash : hash ≡ hash_of ids = ok-injective (
      sym removed
      ∙ ap (λ s. remove_worker_id_from_hash s w.worker.id) h.is_hash
      ∙ remove_first-hash_of w.worker.id ids) in
    let is_count : length left ≡ length ids = omega (
      arith,
      length-erase_one w.initial_worker_set_id r.initial_worker_set_ids erased,
      h.is_count,
    ) in
    advance-IsSettled hash _ _ workers ids is_hash is_count h.has_workers e3

pub callbacks-IsLedger :
    (workers : AssocMap String RemoteWorker) → IsLedger callbacks (λ ids r. IsSettled workers ids r)
unfolding worker_set_id_change
callbacks-IsLedger workers = record {
  joins = λ w r r' ids h e. new_worker-IsSettled workers w r r' ids h e;
  leaves = λ w r r' ids h e. dead_worker-IsSettled workers w r r' ids h e;
  changes = λ w i r s ids h e.
      update_indirect-IsSettled workers ids w.worker.shard w.indirect_worker_set_id i r h
        (after_check (same r.scheduler_id i.scheduler_id) _ e);
}
