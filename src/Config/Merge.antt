-- ===== src/Config/Merge.antt =====
-- packages/config-yaml/src/merge.ts: `mergeWithDefault`. A JavaScript map or record is a list in the order of insertion; the
-- built-in default is an argument.
use mergecrew.Base.{
  set_all, lookup_in, latest, lookup-set_all, String, Option, none, some, [], ◌≡◌, refl, ap, ◌∙◌,
  or_else,
}
use mergecrew.Config.{WorkflowDef, MergecrewConfig}

abbrev pub name_of : {A : Type 0} → String × A → String
name_of p = p.0

unfoldable pub merge_with_default : MergecrewConfig → MergecrewConfig → MergecrewConfig
unfolding set_all
merge_with_default base project = record {
  workflows = set_all (λ w. w.id) project.workflows (set_all (λ w. w.id) base.workflows []);
  human_gates = or_else project.human_gates base.human_gates;
  agents = set_all name_of project.agents base.agents;
  skills = set_all name_of project.skills base.skills;
  runner = none;
  build = none;
}

-- In the merged configuration a workflow, an agent or a skill is the project's last of its name, and the default's where the project has
-- none; the human gates are the project's if it gives any. The runner's and the build's settings are gone, whatever
-- the project says.
pub record IsMerged (base project merged : MergecrewConfig) : Type 0 where
  pub workflows :
      (k : String)
      → lookup_in (λ (w : WorkflowDef). w.id) k merged.workflows
        ≡ or_else
            (latest (λ (w : WorkflowDef). w.id) k project.workflows)
            (latest (λ (w : WorkflowDef). w.id) k base.workflows)
  pub agents :
      (k : String)
      → lookup_in name_of k merged.agents
        ≡ or_else (latest name_of k project.agents) (lookup_in name_of k base.agents)
  pub skills :
      (k : String)
      → lookup_in name_of k merged.skills
        ≡ or_else (latest name_of k project.skills) (lookup_in name_of k base.skills)
  pub human_gates : merged.human_gates ≡ or_else project.human_gates base.human_gates
  pub runner : merged.runner ≡ none
  pub build : merged.build ≡ none

or_else-none : {A : Type 0} (o : Option A) → or_else o none ≡ o
or_else-none none = refl
or_else-none (some x) = refl

pub merge_with_default-IsMerged :
    (base project : MergecrewConfig) → IsMerged base project (merge_with_default base project)
unfolding merge_with_default
merge_with_default-IsMerged base project = record {
  workflows = λ k.
      lookup-set_all (λ (w : WorkflowDef). w.id) k project.workflows
        (set_all (λ (w : WorkflowDef). w.id) base.workflows [])
      ∙ ap (or_else (latest (λ (w : WorkflowDef). w.id) k project.workflows))
          (lookup-set_all (λ (w : WorkflowDef). w.id) k base.workflows [] ∙ or_else-none _);
  agents = λ k. lookup-set_all name_of k project.agents base.agents;
  skills = λ k. lookup-set_all name_of k project.skills base.skills;
  human_gates = refl;
  runner = refl;
  build = refl;
}
