-- ===== src/Worker/Sound.antt =====
-- What holds of every worker, and that the updates of its state keep it.
use bistro.Base.{ℕ, ◌≤◌, ◌≡◌, refl, Bool, true, Option, none, some, [], arith, find, has, ◌↔◌, ◌⊎◌}
use bistro.Base.Maps.{string_eq, pair_eq}
use bistro.Base.Int.{ℤ}
use bistro.Thrift.{InstanceId, BistroWorker, WorkerSetId, instance_eq}
use bistro.WorkerState.{State, Flags, set_state}
use bistro.Requests.{TaskId, TaskMap, RemoteWorkerUpdate}
use bistro.Worker.{RemoteWorker, make_worker, change_state, lose_running_tasks}
use bistro.Worker.Heartbeat.{send_healthcheck, send_unsure_check, next_repeats, note_unhealthy}

-- A worker that has not reported its tasks yet, or is lost, runs none.
pub record IsSoundAt (state : State) (been : Bool) (running unsure : TaskMap) (repeats : ℕ)
    (id first : Option WorkerSetId) (scheduler : InstanceId) : Type 0 where
  pub idle : (state ≡ State.new) ⊎ (state ≡ State.must_die) → (running ≡ []) × (unsure ≡ [])
  pub was_healthy : state ≡ State.healthy → been ≡ true
  pub unsure_runs : (i : TaskId) → has i unsure ≡ true → has i running ≡ true
  pub few_repeats : repeats ≤ 8
  pub associated : (id ≡ none) ↔ (first ≡ none)
  pub versioned : (i : WorkerSetId) → id ≡ some i → i.scheduler_id ≡ scheduler

pub record IsSound (w : RemoteWorker) : Type 0 where
  pub parts :
      IsSoundAt w.state.state w.state.has_been_healthy w.running_tasks w.unsure_if_running_tasks
        w.repeats_of_unsure_if_running_check w.worker_set_id w.first_associated_worker_set_id
        w.scheduler_id

module _ {state : State} {been : Bool} {running unsure : TaskMap} {repeats : ℕ}
    {id first : Option WorkerSetId} {scheduler : InstanceId}
    (h : IsSoundAt state been running unsure repeats id first scheduler) where
  pub with_repeats : (n : ℕ) → n ≤ 8 → IsSoundAt state been running unsure n id first scheduler
  with_repeats n le = record {
    idle = h.idle;
    was_healthy = h.was_healthy;
    unsure_runs = h.unsure_runs;
    few_repeats = le;
    associated = h.associated;
    versioned = h.versioned;
  }

  pub with_tasks :
      (r u : TaskMap)
      → ((state ≡ State.new) ⊎ (state ≡ State.must_die) → (r ≡ []) × (u ≡ []))
      → ((i : TaskId) → has i u ≡ true → has i r ≡ true)
      → IsSoundAt state been r u repeats id first scheduler
  with_tasks r u c d = record {
    idle = c;
    was_healthy = h.was_healthy;
    unsure_runs = d;
    few_repeats = h.few_repeats;
    associated = h.associated;
    versioned = h.versioned;
  }

  pub with_state :
      (s : State) (b : Bool)
      → (s ≡ State.healthy → b ≡ true)
      → ((s ≡ State.new) ⊎ (s ≡ State.must_die) → (running ≡ []) × (unsure ≡ []))
      → IsSoundAt s b running unsure repeats id first scheduler
  with_state s b c d = record {
    idle = d;
    was_healthy = c;
    unsure_runs = h.unsure_runs;
    few_repeats = h.few_repeats;
    associated = h.associated;
    versioned = h.versioned;
  }

  pub with_ids :
      (i j : Option WorkerSetId)
      → ((i ≡ none) ↔ (j ≡ none))
      → ((k : WorkerSetId) → i ≡ some k → k.scheduler_id ≡ scheduler)
      → IsSoundAt state been running unsure repeats i j scheduler
  with_ids i j c d = record {
    idle = h.idle;
    was_healthy = h.was_healthy;
    unsure_runs = h.unsure_runs;
    few_repeats = h.few_repeats;
    associated = c;
    versioned = d;
  }

pub make_worker-IsSound :
    (t : ℤ) (w : BistroWorker) (i : WorkerSetId) (s : InstanceId) → IsSound (make_worker t w i s)
unfolding make_worker find
make_worker-IsSound t w i s = record {
  parts = record {
    idle = λ h. (refl, refl);
    was_healthy = λ h. cc;
    unsure_runs = λ id h. cc;
    few_repeats = omega arith;
    associated = (λ h. refl, λ h. refl);
    versioned = λ id h. cc;
  };
}

abbrev IsSoundLeft : RemoteWorker × RemoteWorkerUpdate → Type 0
IsSoundLeft (w, u) = IsSound w

module _ (f : Flags) (w : RemoteWorker) (u : RemoteWorkerUpdate) (h : IsSound w) where
  pub send_healthcheck-IsSound : IsSound (send_healthcheck f (w, u)).0
  unfolding send_healthcheck
  send_healthcheck-IsSound = record { parts = h.parts }

  pub send_unsure_check-IsSound : IsSound (send_unsure_check f (w, u)).0
  unfolding send_unsure_check next_repeats
  send_unsure_check-IsSound = record {
    parts = with_repeats h.parts _ (ground (arith, h.parts.few_repeats));
  }

  pub note_unhealthy-IsSound : (s : State) (t : ℤ) → IsSound (note_unhealthy s t w)
  unfolding note_unhealthy
  note_unhealthy-IsSound s t = record { parts = h.parts }

  pub lose_running_tasks-IsSound : IsSound (lose_running_tasks (w, u)).0
  unfolding lose_running_tasks find
  lose_running_tasks-IsSound = record {
    parts = with_tasks h.parts [] [] (λ c. (refl, refl)) (λ i e. cc);
  }

-- The state may change if the new one asks for no less.
pub change_state-IsSound :
    (s : State) (w : RemoteWorker)
    → IsSound w
    → ((s ≡ State.new) ⊎ (s ≡ State.must_die)
        → (w.running_tasks ≡ []) × (w.unsure_if_running_tasks ≡ []))
    → IsSound (change_state s w)
unfolding set_state
change_state-IsSound s w h c = record { parts = with_state h.parts s _ (λ e. ground (arith, e)) c }
