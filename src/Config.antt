-- ===== src/Config.antt =====
-- packages/domain/src/lifecycle.ts: the configuration of a project, with the fields that this library reads or that the merge
-- of configurations handles. The resources of a runner are left out.
pub mod Merge
pub mod Sync
mod Tests
use mergecrew.Base.{String, Option, List}

pub record AgentDefinition : Type 0 where
  pub kind : String

pub record WorkflowDef : Type 0 where
  pub id : String
  pub agents : List String
  pub out : List String

pub data GateKind : Type 0 where
  auto notify require_approval : GateKind

pub record HumanGatesDef : Type 0 where
  pub production_promote : GateKind
  pub sensitive_path_patterns : List String

-- The schemas, the credentials and the class of side effects of a skill are left out.
pub record CustomSkillDef : Type 0 where
  pub description : String
  pub endpoint : Option String

pub record RunnerConfig : Type 0 where
  pub image : Option String
  pub setup : Option (List String)
  pub cache_paths : Option (List String)
  pub egress_allow : Option (List String)

pub record BuildCommandDef : Type 0 where
  pub cmd : String
  pub args : List String

-- `commands`, by their names.
pub record BuildConfig : Type 0 where
  pub commands : List (String × BuildCommandDef)

pub record MergecrewConfig : Type 0 where
  pub agents : List (String × AgentDefinition)
  pub workflows : List WorkflowDef
  pub human_gates : Option HumanGatesDef
  pub skills : List (String × CustomSkillDef)
  pub runner : Option RunnerConfig
  pub build : Option BuildConfig
