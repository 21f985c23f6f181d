-- ===== src/Scheduling.antt =====
-- scheduler/utils.cpp, scheduler/SchedulerPolicy.h and config/Node.h: one attempt to run a task on a
-- node, within the resources of the node and of its parents.
--
-- The resources of the nodes stand in one table, which all jobs share; a job keeps what it needs.
pub mod Policies
pub mod Amounts
pub mod Resources
pub mod Needs
pub mod Invariants
pub mod Counts
pub mod Rounds
use bistro.Base.{
  ℕ, suc, ◌+◌, Bool, true, false, not, Option, none, some, List, [], ◌∷◌, ◌++◌, AssocMap, find,
  assign, Outcome, ok, throw, fatal, check, or_throw, ◌>>=◌, ◌>>◌, length, get_or, set, leb,
  if◌then◌else◌, Eq, nat_eq, String,
}
use bistro.Base.Int.{ℤ, pos, ltb_ℤ, ◌-ℤ◌}
use bistro.Base.Word.{to_i32}

pub record NodeFields : Type 0 where
  pub name : String
  pub level : ℕ
  pub enabled : Bool
  pub tags : List String
  pub offset : ℕ

-- A node without a parent, or with one.
pub data Node : Type 0 where
  at_root : NodeFields → Node
  under : NodeFields → Node → Node

unfoldable pub traverse_up : Node → List NodeFields
traverse_up (at_root n) = n ∷ []
traverse_up (under n parent) = n ∷ traverse_up parent

-- NodeGroupToPackedResources
abbrev pub Packed : Type 0
Packed = AssocMap ℕ (List ℤ)

-- `nodes` has the back of the C++ vector, which the policies pop, at its head. The priority, a double,
-- is counted in units of 2^-1074, of which every finite double is a multiple.
pub record JobWithNodes : Type 0 where
  pub job : String
  pub priority : ℤ
  pub resources : Packed
  pub nodes : List Node

pub data TaskRunnerResponse : Type 0 where
  ran_task did_not_run_task do_not_run_more_tasks : TaskRunnerResponse

-- A resource of a node group, by level and index, and the amount to take.
pub record Update : Type 0 where
  pub level : ℕ
  pub index : ℕ
  pub amount : ℤ

abbrev pub update_of : ℕ → ℕ → ℤ → Update
update_of l i d = record { level = l; index = i; amount = d }

abbrev pub cons_update : Update → Option (List Update) → Option (List Update)
cons_update u none = none
cons_update u (some us) = some (u ∷ us)

-- The inner loop: none if a resource does not suffice.
unfoldable pub collect_node : ℕ → ℕ → List ℤ → List ℤ → Option (List Update)
collect_node level index [] amounts = some []
collect_node level index (d ∷ ds) amounts =
    let rest = collect_node level (suc index) ds amounts in
    if ltb_ℤ (get_or amounts index (pos 0)) d
    then none
    else cons_update (update_of level index d) rest

abbrev pub append_updates : Option (List Update) → Option (List Update) → Option (List Update)
append_updates none b = none
append_updates (some us) none = none
append_updates (some us) (some vs) = some (us ++ vs)

-- The outer loop. An early return for a lack of resources comes before the CHECKs of later nodes.
unfoldable pub collect : List NodeFields → Packed → Packed → Outcome (Option (List Update))
collect [] needs packed = ok (some [])
collect (n ∷ ns) needs packed = or_throw (find n.level needs) "out_of_range" >>= λ job.
    or_throw (find n.level packed) "out_of_range" >>= λ amounts.
    check (leb (n.offset + length job) (length amounts))
    >> (elim (collect_node n.level n.offset job amounts) [
      | none ↦ ok none
      | some us ↦ collect ns needs packed >>= λ rest. ok (append_updates (some us) rest)
    ])

-- The amount that a pointer into the table stands for.
unfoldable pub amount_at : ℕ → ℕ → Packed → ℤ
amount_at level index packed = elim (find level packed) [
  | none ↦ pos 0
  | some amounts ↦ get_or amounts index (pos 0)
]

-- With the difference of two's complement.
unfoldable pub take_amount : Update → Packed → Packed
take_amount u packed = elim (find u.level packed) [
  | none ↦ packed
  | some amounts ↦
      assign u.level (set amounts u.index (to_i32 (get_or amounts u.index (pos 0) -ℤ u.amount)))
        packed
]

unfoldable pub apply_updates : List Update → Packed → Outcome Packed
apply_updates [] packed = ok packed
apply_updates (u ∷ us) packed =
    check (not (ltb_ℤ (amount_at u.level u.index packed) u.amount))
    >> apply_updates us (take_amount u packed)

-- The runner's answer to a task that may run, on the type `G` of its states.
abbrev pub TaskRunnerCallback : Type 0 → Type 0
TaskRunnerCallback G = JobWithNodes → Node → G → Outcome (TaskRunnerResponse × G)

module _ {G : Type 0} where
  unfoldable pub finish_attempt :
      List Update → Packed → TaskRunnerResponse × G → Outcome (TaskRunnerResponse × Packed × G)
  finish_attempt updates packed (ran_task, g) =
      apply_updates updates packed >>= λ packed'. ok (ran_task, packed', g)
  finish_attempt updates packed (response, g) = ok (response, packed, g)

  unfoldable pub try_to_schedule :
      Node
      → JobWithNodes
      → TaskRunnerCallback G
      → Packed × G
      → Outcome (TaskRunnerResponse × Packed × G)
  try_to_schedule node jwn cb (packed, g) =
      collect (traverse_up node) jwn.resources packed >>= λ updates. elim updates [
        | none ↦ ok (did_not_run_task, packed, g)
        | some us ↦ cb jwn node g >>= λ answer. finish_attempt us packed answer
      ]
