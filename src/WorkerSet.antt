-- ===== src/WorkerSet.antt =====
-- remote/WorkerSetID.h: the hash of a set of workers, and the order of its versions. An int64_t that
-- is only added and xor-ed, and a version, is its 64-bit pattern.
pub mod Xor
pub mod Hash
pub mod Versions
use Prim.Native.Nat.{bit_xor}
use bistro.Base.{
  ℕ, ◌+◌, ◌-◌, ◌%◌, ◌<◌, Bool, true, false, Outcome, ok, fatal, check, ◌>>◌, ltb, if◌then◌else◌,
  not,
}
use bistro.Base.Int.{ℤ, pos, negsuc, ◌+ℤ◌, ◌-ℤ◌, ltb_ℤ}
use bistro.Base.Word.{two_63, two_64, to_u64, from_u64}
use bistro.Thrift.{InstanceId, SetHash, WorkerSetHash}

unfoldable pub add_value_to_hash : SetHash → ℤ → SetHash
add_value_to_hash h v = record {
  add_all = (h.add_all + to_u64 v) % two_64;
  xor_all = bit_xor h.xor_all (to_u64 v);
}

unfoldable pub remove_value_from_hash : SetHash → ℤ → SetHash
remove_value_from_hash h v = record {
  add_all = (h.add_all + two_64 - to_u64 v) % two_64;
  xor_all = bit_xor h.xor_all (to_u64 v);
}

unfoldable pub add_worker_id_to_hash : WorkerSetHash → InstanceId → WorkerSetHash
unfolding add_value_to_hash
add_worker_id_to_hash s id = record {
  start_time = add_value_to_hash s.start_time id.start_time;
  rand = add_value_to_hash s.rand id.rand;
  num_workers = s.num_workers +ℤ pos 1;
}

unfoldable pub remove_worker_id_from_hash : WorkerSetHash → InstanceId → Outcome WorkerSetHash
remove_worker_id_from_hash s id =
    check (ltb_ℤ (pos 0) s.num_workers)
    >> ok (record {
      start_time = remove_value_from_hash s.start_time id.start_time;
      rand = remove_value_from_hash s.rand id.rand;
      num_workers = s.num_workers -ℤ pos 1;
    })

-- a - b on uint64_t
abbrev pub sub_64 : ℕ → ℕ → ℕ
sub_64 a b = (a + two_64 - b) % two_64

-- WorkerSetIDEarlierThan: versions 2^63 apart have no order, and abort the process.
unfoldable pub make_signed : ℕ → ℤ
make_signed v = from_u64 v

unfoldable pub earlier : ℕ → ℕ → Outcome Bool
unfolding make_signed
earlier a b =
    if not (ltb_ℤ (make_signed (sub_64 a b)) (pos 0))
    then ok false
    else if ltb_ℤ (pos 0) (make_signed (sub_64 b a))
    then ok true
    else fatal
