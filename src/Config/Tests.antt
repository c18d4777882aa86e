-- ===== src/Config/Tests.antt =====
-- The merge of configurations and the synchronization on small ones.
use mergecrew.Base.{set_entry, set_all, ℕ, String, Option, none, some, List, [], ◌∷◌, ◌≡◌, refl}
use mergecrew.Config.{MergecrewConfig, WorkflowDef, RunnerConfig}
use mergecrew.Config.Merge.{merge_with_default, IsMerged, merge_with_default-IsMerged}
use mergecrew.Config.Sync.{Fetched, file, Versions, Comes, sync_lifecycle, sync_lifecycle-Comes}

abbrev workflow : String → String → WorkflowDef
workflow id agent = record { id = id; agents = agent ∷ []; out = [] }

abbrev config : List WorkflowDef → Option RunnerConfig → MergecrewConfig
config workflows runner = record {
  agents = ("coder", record { kind = "Coder" }) ∷ [];
  workflows = workflows;
  human_gates = none;
  skills = [];
  runner = runner;
  build = none;
}

abbrev default : MergecrewConfig
default = config (workflow "plan" "planner" ∷ workflow "build" "coder" ∷ []) none

-- A project that overrides one workflow and asks for an image.
abbrev project : MergecrewConfig
project = config (workflow "plan" "coder" ∷ workflow "audit" "coder" ∷ []) (
    some (record {
      image = some "node:22";
      setup = none;
      cache_paths = none;
      egress_allow = some ("registry.npmjs.org" ∷ []);
    }))

merge_with_default-IsMerged_example : IsMerged default project (merge_with_default default project)
merge_with_default-IsMerged_example = merge_with_default-IsMerged default project

merged_workflows :
    (merge_with_default default project).workflows
    ≡ workflow "plan" "coder" ∷ workflow "build" "coder" ∷ workflow "audit" "coder" ∷ []
unfolding merge_with_default set_all set_entry
merged_workflows = refl

abbrev parse : String → Option MergecrewConfig
parse yaml = some project

abbrev fetch : ℕ → Fetched
fetch p = file "version: 1"

abbrev unversioned : Versions
unversioned p = none

sync_lifecycle-Comes_example :
    Comes parse default 1 (fetch 1) unversioned (sync_lifecycle parse default fetch 1 unversioned).1
    × ((sync_lifecycle parse default fetch 1 (sync_lifecycle parse default fetch 1 unversioned).1).1
        ≡ (sync_lifecycle parse default fetch 1 unversioned).1)
sync_lifecycle-Comes_example = sync_lifecycle-Comes parse default fetch 1 unversioned
