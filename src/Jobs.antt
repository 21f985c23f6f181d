-- ===== src/Jobs.antt =====
-- config/Job.{h,cpp}: what the scheduler and the runners read of a job, the host that a task must run
-- on, and whether a job should run on a node.
use bistro.Base.{
  ℕ, String, Bool, not, ◌&&◌, Option, none, some, List, [], ◌∷◌, ◌==◌, same, string_eq, get_elem?,
  is_nil, Outcome, ok, or_fatal, ◌>>=◌, if◌then◌else◌,
}
use bistro.Base.Int.{ℤ}
use bistro.Scheduling.{Node, NodeFields, traverse_up}
use bistro.Filters.{Platform, JobFilters, does_pass}

-- `filters` and `resources` are indexed by node levels and resources. A level that is not found,
-- StringTable::NotFound, is none; a job without errors is valid.
pub record Job (D R : Type 0) : Type 0 where
  pub name : String
  pub enabled : Bool
  pub errors : List String
  pub level_for_tasks : ℕ
  pub priority : ℤ
  pub resources : List ℤ
  pub filters : List (JobFilters D R)
  pub depends_on : List String
  pub host_placement : String
  pub level_for_host_placement : Option ℕ

pub data ShouldRun : Type 0 where
  will_run no_disabled no_avoided : ShouldRun

-- The name of the first node of a level, on the way up.
unfoldable pub name_at_level : ℕ → List NodeFields → String
name_at_level level [] = ""
name_at_level level (n ∷ nodes) = if n.level == level then n.name else name_at_level level nodes

module _ {D R : Type 0} where
  unfoldable pub can_run : Job D R → Bool
  can_run job = job.enabled && is_nil job.errors

  unfoldable pub required_host_for_task : Job D R → Node → String
  required_host_for_task job node =
      if not (same job.host_placement "")
      then job.host_placement
      else elim job.level_for_host_placement [
        | none ↦ ""
        | some level ↦ name_at_level level (traverse_up node)
      ]

module _ {D R : Type 0} (p : Platform D R) where
  -- The loop of shouldRunOn. Reading beyond the filters is undefined.
  unfoldable pub should_run_up : Job D R → List NodeFields → Outcome ShouldRun
  should_run_up job [] = ok ShouldRun.will_run
  should_run_up job (n ∷ nodes) =
      if not n.enabled
      then ok ShouldRun.no_disabled
      else (or_fatal (get_elem? job.filters n.level) >>= λ filters.
          if does_pass p filters job.name n
          then should_run_up job nodes
          else ok ShouldRun.no_avoided)

  unfoldable pub should_run_on : Job D R → Node → Outcome ShouldRun
  should_run_on job node = should_run_up job (traverse_up node)
