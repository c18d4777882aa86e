-- ===== src/Config/Sync.antt =====
-- apps/orchestrator/src/lifecycle-sync.ts: `syncLifecycleFromRepo`. What the repository answers and the parser with its
-- schema are parameters, and the built-in default is an argument.
use mergecrew.Base.{
  ℕ, ◌+◌, String, Option, none, some, true, false, ◌≡◌, ◌≢◌, ◌⊎◌, inl, inr, refl, arith, ◌==◌,
  eq_iff, if◌then◌else◌, opt_is, is_some, Bool-cases,
}
use mergecrew.Config.{MergecrewConfig}
use mergecrew.Config.Merge.{merge_with_default}
use mergecrew.Orchestrator.Store.{Lifecycle}

-- What the settings, the project's row and the repository give for `mergecrew.yaml`.
pub data Fetched : Type 0 where
  not_configured no_repo no_yaml : Fetched
  file : String → Fetched

pub data SyncOutcome : Type 0 where
  skipped : String → SyncOutcome
  synced : ℕ → SyncOutcome

abbrev pub Versions : Type 0
Versions = ℕ → Option Lifecycle

-- `last?.version ?? 0`
abbrev pub version_of : Option Lifecycle → ℕ
version_of none = 0
version_of (some lc) = lc.version

-- `last?.sourceYaml`
abbrev pub source_of : Option Lifecycle → Option String
source_of none = none
source_of (some lc) = some lc.source_yaml

-- The latest version of a project, after one more is stored.
unfoldable pub store_version : ℕ → Lifecycle → Versions → Versions
store_version project lc versions q = if q == project then some lc else versions q

module _ (parse : String → Option MergecrewConfig) (base : MergecrewConfig) where
  unfoldable pub store_parsed :
      ℕ → String → Option MergecrewConfig → Versions → SyncOutcome × Versions
  store_parsed project yaml none versions = (skipped "parse-failed", versions)
  store_parsed project yaml (some parsed) versions =
      let next = version_of (versions project) + 1 in
      (
        synced next,
        store_version project
            (record { version = next; source_yaml = yaml; parsed = merge_with_default base parsed })
            versions,
      )

  unfoldable pub sync_fetched : ℕ → Fetched → Versions → SyncOutcome × Versions
  sync_fetched project not_configured versions = (skipped "github-app-not-configured", versions)
  sync_fetched project no_repo versions = (skipped "no-connected-repo", versions)
  sync_fetched project no_yaml versions = (skipped "no-yaml-in-repo", versions)
  sync_fetched project (file yaml) versions =
      if opt_is yaml (source_of (versions project))
      then (skipped "unchanged", versions)
      else store_parsed project yaml (parse yaml) versions

  unfoldable pub sync_lifecycle : (ℕ → Fetched) → ℕ → Versions → SyncOutcome × Versions
  unfolding sync_fetched
  sync_lifecycle fetch project versions = sync_fetched project (fetch project) versions

-- A new version, one above the last, of the text and of its merged configuration; other projects keep theirs.
pub record IsSynced (base : MergecrewConfig) (project : ℕ) (yaml : String)
    (config : MergecrewConfig) (before after : Versions) : Type 0 where
  pub latest :
      after project
      ≡ some (record {
        version = version_of (before project) + 1;
        source_yaml = yaml;
        parsed = merge_with_default base config;
      })
  pub others : (q : ℕ) → q ≢ project → after q ≡ before q

some_of : (o : Option Lifecycle) → is_some o ≡ true → (lc : Lifecycle) × (o ≡ some lc)
some_of none h = cc
some_of (some lc) h = (lc, refl)

-- What a synchronization comes to: one version more, of a text that parses and differs from the last one, or no change.
abbrev pub Comes :
    (String → Option MergecrewConfig) → MergecrewConfig → ℕ → Fetched → Versions → Versions → Type 0
Comes parse base project fetched before after =
    ((yaml : String) × (config : MergecrewConfig) × (fetched ≡ file yaml)
      × (parse yaml ≡ some config)
      × (opt_is yaml (source_of (before project)) ≡ false)
      × IsSynced base project yaml config before after)
    ⊎ (after ≡ before)

module _ (parse : String → Option MergecrewConfig) (base : MergecrewConfig) (project : ℕ) where
  store_parsed-Comes :
      (yaml : String) (o : Option MergecrewConfig) (versions : Versions)
      → parse yaml ≡ o
      → opt_is yaml (source_of (versions project)) ≡ false
      → Comes parse base project
          (file yaml)
          versions
          (store_parsed parse base project yaml o versions).1
  unfolding store_parsed store_version
  store_parsed-Comes yaml none versions e d = inr refl
  store_parsed-Comes yaml (some config) versions e d = inl (
    yaml,
    config,
    refl,
    e,
    d,
    record { latest = ground arith; others = λ q ne. ground (arith, ne) },
  )

  sync_fetched-Comes :
      (f : Fetched) (versions : Versions)
      → Comes parse base project f versions (sync_fetched parse base project f versions).1
  unfolding sync_fetched
  sync_fetched-Comes not_configured versions = inr refl
  sync_fetched-Comes no_repo versions = inr refl
  sync_fetched-Comes no_yaml versions = inr refl
  sync_fetched-Comes (file yaml) versions =
      elim (Bool-cases (opt_is yaml (source_of (versions project)))) [
        | inl q ↦ inr (rw q refl)
        | inr q ↦ rw q (store_parsed-Comes yaml (parse yaml) versions refl q)
      ]

  -- A text that is the last one's changes nothing.
  sync_fetched-unchanged :
      (yaml : String) (versions : Versions)
      → opt_is yaml (source_of (versions project)) ≡ true
      → (sync_fetched parse base project (file yaml) versions).1 ≡ versions
  unfolding sync_fetched
  sync_fetched-unchanged yaml versions e = rw e refl

  again :
      (f : Fetched) (before after : Versions)
      → Comes parse base project f before after
      → (sync_fetched parse base project f before).1 ≡ after
      → (sync_fetched parse base project f after).1 ≡ after
  again f before after (inr same) e = rw same (rw same at e)
  again f before after (inl (yaml, config, is, ok, d, v)) e =
      rw is (sync_fetched-unchanged yaml after (rw v.latest (ground (arith, eq_iff yaml yaml))))

module _ (parse : String → Option MergecrewConfig) (base : MergecrewConfig) (fetch : ℕ → Fetched)
    (project : ℕ) (versions : Versions) where
  -- A synchronization stores one version, one above the last, of a text that parses and differs from the last one, or nothing changes;
  -- other projects keep theirs. A second one, of what the same repository gives, changes nothing.
  pub sync_lifecycle-Comes :
      Comes parse base project
        (fetch project)
        versions
        (sync_lifecycle parse base fetch project versions).1
      × ((sync_lifecycle parse base fetch project
            (sync_lifecycle parse base fetch project versions).1).1
          ≡ (sync_lifecycle parse base fetch project versions).1)
  unfolding sync_lifecycle
  sync_lifecycle-Comes =
      let once = sync_fetched-Comes parse base project (fetch project) versions in
      (once, again parse base project (fetch project) versions _ once refl)

  -- A project that has a lifecycle keeps one.
  pub sync_lifecycle-keeps :
      is_some (versions project) ≡ true
      → (lc : Lifecycle) × ((sync_lifecycle parse base fetch project versions).1 project ≡ some lc)
  sync_lifecycle-keeps h = elim sync_lifecycle-Comes.0 [
    | inl (yaml, config, is, ok, d, v) ↦ (_, v.latest)
    | inr same ↦ rw same (some_of (versions project) h)
  ]
