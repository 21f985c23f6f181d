-- ===== src/Thrift.antt =====
-- if/common.thrift: the structs that schedulers and workers exchange, as far as the modelled code
-- reads them. The resource measurements of tasks and workers, which it only passes on, are left out.
use bistro.Base.{String, Bool, true, ◌&&◌, ◌≡◌, ◌↔◌, List, Eq, same, arith, nat_eq, string_eq, ℕ}
use bistro.Base.Int.{ℤ, eqb_ℤ, eqb_ℤ_iff, int_eq}
use bistro.Backoff.{BackoffDuration}

pub record InstanceId : Type 0 where
  pub start_time : ℤ
  pub rand : ℤ

pub record Resource : Type 0 where
  pub name : String
  pub amount : ℤ

pub record NodeResources : Type 0 where
  pub node : String
  pub resources : List Resource

pub record RunningTask : Type 0 where
  pub job : String
  pub node : String
  pub node_resources : List NodeResources
  pub worker_shard : String
  pub invocation_id : InstanceId
  pub next_backoff_duration : BackoffDuration
  pub worker_suicide_task_kill_wait_ms : ℤ

pub record MachinePortLock : Type 0 where
  pub hostname : String
  pub port : ℤ

pub record ServiceAddress : Type 0 where
  pub ip_or_host : String
  pub port : ℤ

pub record BistroWorker : Type 0 where
  pub shard : String
  pub machine_lock : MachinePortLock
  pub addr : ServiceAddress
  pub id : InstanceId
  pub heartbeat_period_sec : ℤ
  pub protocol_version : ℤ

-- An i64 that is only added and xor-ed is kept as its 64-bit pattern.
pub record SetHash : Type 0 where
  pub add_all : ℕ
  pub xor_all : ℕ

pub record WorkerSetHash : Type 0 where
  pub start_time : SetHash
  pub rand : SetHash
  pub num_workers : ℤ

-- `version` is an i64, kept as its 64-bit pattern.
pub record WorkerSetId : Type 0 where
  pub scheduler_id : InstanceId
  pub version : ℕ
  pub hash : WorkerSetHash

-- common_constants::kProtocolVersion()
abbrev pub protocol_version : ℤ
protocol_version = bistro.Base.Int.pos 2

abbrev pub instance_beq : InstanceId → InstanceId → Bool
instance_beq a b = eqb_ℤ a.start_time b.start_time && eqb_ℤ a.rand b.rand

pub instance_beq_iff : (a b : InstanceId) → (instance_beq a b ≡ true) ↔ (a ≡ b)
instance_beq_iff a b = ground (arith, eqb_ℤ_iff a.start_time b.start_time, eqb_ℤ_iff a.rand b.rand)

instance abbrev pub instance_eq : Eq InstanceId
instance_eq = record { beq = instance_beq; beq_iff = instance_beq_iff }

abbrev pub machine_beq : MachinePortLock → MachinePortLock → Bool
machine_beq a b = same a.hostname b.hostname && eqb_ℤ a.port b.port

pub machine_beq_iff : (a b : MachinePortLock) → (machine_beq a b ≡ true) ↔ (a ≡ b)
machine_beq_iff a b =
    ground (arith, string_eq.beq_iff a.hostname b.hostname, eqb_ℤ_iff a.port b.port)

instance abbrev pub machine_eq : Eq MachinePortLock
machine_eq = record { beq = machine_beq; beq_iff = machine_beq_iff }

abbrev pub hash_beq : SetHash → SetHash → Bool
hash_beq a b = same a.add_all b.add_all && same a.xor_all b.xor_all

pub hash_beq_iff : (a b : SetHash) → (hash_beq a b ≡ true) ↔ (a ≡ b)
hash_beq_iff a b = ground arith

instance abbrev pub hash_eq : Eq SetHash
hash_eq = record { beq = hash_beq; beq_iff = hash_beq_iff }

abbrev pub set_hash_beq : WorkerSetHash → WorkerSetHash → Bool
set_hash_beq a b =
    hash_beq a.start_time b.start_time
    && hash_beq a.rand b.rand
    && eqb_ℤ a.num_workers b.num_workers

pub set_hash_beq_iff : (a b : WorkerSetHash) → (set_hash_beq a b ≡ true) ↔ (a ≡ b)
set_hash_beq_iff a b = ground (
  arith,
  hash_beq_iff a.start_time b.start_time,
  hash_beq_iff a.rand b.rand,
  eqb_ℤ_iff a.num_workers b.num_workers,
)

instance abbrev pub set_hash_eq : Eq WorkerSetHash
set_hash_eq = record { beq = set_hash_beq; beq_iff = set_hash_beq_iff }

abbrev pub set_id_beq : WorkerSetId → WorkerSetId → Bool
set_id_beq a b =
    instance_beq a.scheduler_id b.scheduler_id
    && same a.version b.version
    && set_hash_beq a.hash b.hash

pub set_id_beq_iff : (a b : WorkerSetId) → (set_id_beq a b ≡ true) ↔ (a ≡ b)
set_id_beq_iff a b = ground (
  arith,
  instance_beq_iff a.scheduler_id b.scheduler_id,
  nat_eq.beq_iff a.version b.version,
  set_hash_beq_iff a.hash b.hash,
)

instance abbrev pub set_id_eq : Eq WorkerSetId
set_id_eq = record { beq = set_id_beq; beq_iff = set_id_beq_iff }
