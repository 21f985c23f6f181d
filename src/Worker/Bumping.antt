-- ===== src/Worker/Bumping.antt =====
-- How a heartbeat from another machine or port replaces a worker.
use bistro.Base.{String, ◌≡◌, true, [], has}
use bistro.Base.Maps.{string_eq, pair_eq, nat_eq}
use bistro.Thrift.{BistroWorker, instance_eq, machine_eq, set_id_eq}
use bistro.WorkerState.{Flags}
use bistro.Requests.{TaskId, RemoteWorkerUpdate}
use bistro.Worker.{RemoteWorker}
use bistro.Worker.Heartbeat.{Callbacks}

module _ {G : Type 0} (f : Flags) (callbacks : Callbacks G) where
  -- The same worker, without tasks, and the requests of before.
  pub record IsSettled (v : RemoteWorker) (u : RemoteWorkerUpdate) (w' : RemoteWorker)
      (u' : RemoteWorkerUpdate) : Type 0 where
    pub same_worker : w'.worker ≡ v.worker
    pub no_tasks : w'.running_tasks ≡ []
    pub keeps_suicides :
        (s : String) → has s u.suicide_workers ≡ true → has s u'.suicide_workers ≡ true
    pub keeps_lost :
        (id : TaskId) → has id u.lost_running_tasks ≡ true → has id u'.lost_running_tasks ≡ true

  -- The worker of the heartbeat replaced `w`, whose tasks are lost and which is asked to kill itself.
  pub record IsReplaced (w : RemoteWorker) (w_new : BistroWorker) (w' : RemoteWorker)
      (u' : RemoteWorkerUpdate) : Type 0 where
    pub is_new : w'.worker ≡ w_new
    pub has_no_tasks : w'.running_tasks ≡ []
    pub loses_tasks :
        (id : TaskId) → has id w.running_tasks ≡ true → has id u'.lost_running_tasks ≡ true
    pub asks_old : has w.worker.shard u'.suicide_workers ≡ true
