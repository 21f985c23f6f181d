-- ===== src/WorkerSet/Hash.antt =====
-- The hash stands for a set of workers: it does not depend on the order in which they were added,
-- and a removal undoes an addition.
use mathlib.Core.Logic.{∥∥₁_elim}
use mathlib.Core.List.{Perm, Permᴰ}
use bistro.Base.{
  ℕ, ◌+◌, ◌-◌, ◌%◌, ◌<◌, ◌≤◌, ◌≡◌, refl, ap, ◌∙◌, List, [], ◌∷◌, ok, check, arith, ltb, length,
}
use bistro.Base.Int.{ℤ, pos, negsuc, neg_part, ◌+ℤ◌, ◌-ℤ◌, ltb_ℤ}
use bistro.Base.Word.{two_64, to_u64}
use bistro.Thrift.{InstanceId, SetHash, WorkerSetHash}
use bistro.WorkerSet.{
  add_value_to_hash, remove_value_from_hash, add_worker_id_to_hash, remove_worker_id_from_hash,
}
use bistro.WorkerSet.Xor.{xor_cancel, xor_swap}

to_u64-lt : (z : ℤ) → to_u64 z < two_64
to_u64-lt (pos n) = omega arith
to_u64-lt (negsuc n) = omega arith

remove-add_value :
    (h : SetHash) (v : ℤ)
    → h.add_all < two_64
    → remove_value_from_hash (add_value_to_hash h v) v ≡ h
unfolding remove_value_from_hash add_value_to_hash
remove-add_value h v lt = ground (arith, to_u64-lt v, xor_cancel h.xor_all (to_u64 v))

add_value_swap :
    (h : SetHash) (v w : ℤ)
    → add_value_to_hash (add_value_to_hash h v) w ≡ add_value_to_hash (add_value_to_hash h w) v
unfolding add_value_to_hash
add_value_swap h v w = ground (arith, xor_swap h.xor_all (to_u64 v) (to_u64 w))

-- Sums below 2^64, and a count that is not negative.
pub record IsHash (s : WorkerSetHash) : Type 0 where
  pub start_fits : s.start_time.add_all < two_64
  pub rand_fits : s.rand.add_all < two_64
  pub counted : neg_part s.num_workers ≡ 0

num_workers_add :
    (z : ℤ)
    → neg_part z ≡ 0
    → (ltb_ℤ (pos 0) (z +ℤ pos 1) ≡ bistro.Base.true) × (z +ℤ pos 1 -ℤ pos 1 ≡ z)
unfolding ◌+ℤ◌ ◌-ℤ◌
num_workers_add z h = (ground arith, ground arith)

-- Removing a worker that was just added gives the hash from before.
pub remove-add_worker_id :
    (s : WorkerSetHash) (id : InstanceId)
    → IsHash s
    → remove_worker_id_from_hash (add_worker_id_to_hash s id) id ≡ ok s
unfolding remove_worker_id_from_hash add_worker_id_to_hash
remove-add_worker_id s id h =
    let (more, back) = num_workers_add s.num_workers h.counted in
    rw (
      more,
      back,
      remove-add_value s.start_time id.start_time h.start_fits,
      remove-add_value s.rand id.rand h.rand_fits,
    )

add_worker_id_swap :
    (s : WorkerSetHash) (a b : InstanceId)
    → add_worker_id_to_hash (add_worker_id_to_hash s a) b
      ≡ add_worker_id_to_hash (add_worker_id_to_hash s b) a
unfolding add_worker_id_to_hash
add_worker_id_swap s a b =
    cc (add_value_swap s.start_time a.start_time b.start_time, add_value_swap s.rand a.rand b.rand)

abbrev pub empty_hash : WorkerSetHash
empty_hash = record {
  start_time = record { add_all = 0; xor_all = 0 };
  rand = record { add_all = 0; xor_all = 0 };
  num_workers = pos 0;
}

-- The hash of the workers that were added in turn.
unfoldable pub hash_of : List InstanceId → WorkerSetHash
hash_of [] = empty_hash
hash_of (id ∷ ids) = add_worker_id_to_hash (hash_of ids) id

pub hash_of_swap :
    (a b : InstanceId) (ids : List InstanceId) → hash_of (a ∷ b ∷ ids) ≡ hash_of (b ∷ a ∷ ids)
unfolding hash_of
hash_of_swap a b ids = add_worker_id_swap (hash_of ids) b a

add_value_fits : (h : SetHash) (v : ℤ) → (add_value_to_hash h v).add_all < two_64
unfolding add_value_to_hash
add_value_fits h v = omega arith

count_nonneg : (z : ℤ) → neg_part z ≡ 0 → neg_part (z +ℤ pos 1) ≡ 0
unfolding ◌+ℤ◌
count_nonneg z h = ground arith

hash_of-IsHash : (ids : List InstanceId) → IsHash (hash_of ids)
unfolding hash_of add_worker_id_to_hash
hash_of-IsHash [] = omega arith
hash_of-IsHash (id ∷ ids) = record {
  start_fits = add_value_fits (hash_of ids).start_time id.start_time;
  rand_fits = add_value_fits (hash_of ids).rand id.rand;
  counted = count_nonneg _ (hash_of-IsHash ids).counted;
}

hash_of_permᴰ : {xs ys : List InstanceId} → Permᴰ xs ys → hash_of xs ≡ hash_of ys
unfolding hash_of
hash_of_permᴰ Permᴰ.nil = refl
hash_of_permᴰ (Permᴰ.cons {a = a} {b = b} e p) = cc (hash_of_permᴰ p)
hash_of_permᴰ (Permᴰ.swap {a = a} {b = b} {l = l} e f) = add_worker_id_swap (hash_of l) b a ∙ cc
hash_of_permᴰ (Permᴰ.trans p q) = hash_of_permᴰ p ∙ hash_of_permᴰ q

WorkerSetHash-set : IsSet WorkerSetHash
WorkerSetHash-set = hlevel

-- The hash forgets the order in which workers were added.
hash_of-perm : {xs ys : List InstanceId} → Perm xs ys → hash_of xs ≡ hash_of ys
hash_of-perm p = ∥∥₁_elim p (WorkerSetHash-set _ _) hash_of_permᴰ

pub remove_first-hash_of :
    (id : InstanceId) (ids : List InstanceId)
    → remove_worker_id_from_hash (hash_of (id ∷ ids)) id ≡ ok (hash_of ids)
unfolding hash_of
remove_first-hash_of id ids = remove-add_worker_id (hash_of ids) id (hash_of-IsHash ids)

pub num_workers-hash_of : (ids : List InstanceId) → (hash_of ids).num_workers ≡ pos (length ids)
unfolding hash_of add_worker_id_to_hash ◌+ℤ◌
num_workers-hash_of [] = refl
num_workers-hash_of (id ∷ ids) = ground (arith, num_workers-hash_of ids)

-- Whatever the order in which the workers were added, removing one of them gives the hash of the
-- others, and it never aborts.
pub remove_worker_id-hash_of :
    (xs rest : List InstanceId) (id : InstanceId)
    → Perm xs (id ∷ rest)
    → remove_worker_id_from_hash (hash_of xs) id ≡ ok (hash_of rest)
unfolding hash_of
remove_worker_id-hash_of xs rest id p =
    rw (hash_of-perm p) (remove-add_worker_id (hash_of rest) id (hash_of-IsHash rest))
