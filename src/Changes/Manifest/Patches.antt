-- ===== src/Changes/Manifest/Patches.antt =====
-- What a package.json that is promoted without review can change.
use mergecrew.Base.{
  ℕ, String, Option, none, some, List, [], ◌∷◌, Bool, true, false, ◌||◌, ◌≡◌, inl, inr, refl, subst,
  arith, All, all_sound, Bool-cases, Option-cases,
}
use mergecrew.Changes.Promote.{
  AutoPromoteRule, AutoPromoteCandidate, auto_promote_matches, ArePatches, auto_promote_matches_iff,
}
use mergecrew.Changes.Manifest.{
  Json, Items, Fields, field_of, keys_of, dep_keys, is_dep_key, equal_field, siblings_equal,
  EntryChange, as_record, block_of, blocks_changes, parse_package_json_diff, accumulate,
  as_versions, versions_of, package_json_changes,
}
use mergecrew.Changes.Manifest.Entries.{
  Agrees, IsBump, joined, key_listed, block-Agrees, All-split, versions-AllBumps,
}

module _ (index_name : ℕ → String) (chars : String → Items) where
  -- The blocks of the keys agree.
  abbrev pub BlocksAgree : List String → Fields → Fields → Type 0
  BlocksAgree ks fs gs =
      All
        (λ k.
          (n : String)
          → Agrees (field_of n (block_of index_name chars (field_of k fs)))
              (field_of n (block_of index_name chars (field_of k gs))))
        ks

  blocks-Agree :
      (ks : List String) (fs gs : Fields) (cs : List EntryChange)
      → blocks_changes index_name chars ks fs gs ≡ some cs
      → All IsBump cs
      → BlocksAgree ks fs gs
  unfolding blocks_changes
  blocks-Agree [] fs gs cs e h = tt
  blocks-Agree (k ∷ ks) fs gs cs e h =
      let ((xs, mine, bumps), (ys, later, others)) = joined _ _ cs e h in
      (
        block-Agrees (block_of index_name chars (field_of k fs))
            (block_of index_name chars (field_of k gs)) xs mine bumps,
        blocks-Agree ks fs gs ys later others,
      )

  -- Outside the blocks of dependencies nothing changes, and in each of them every dependency is the same or a patch bump.
  pub record IsPatchOnly (parse_json : String → Option Json) (before after : String) : Type 0 where
    pub old : Fields
    pub new : Fields
    pub reads_old : as_record (parse_json before) ≡ some old
    pub reads_new : as_record (parse_json after) ≡ some new
    pub siblings :
        (k : String) → is_dep_key k ≡ false → equal_field (field_of k old) (field_of k new) ≡ true
    pub blocks : BlocksAgree dep_keys old new

  siblings-equal :
      (fs gs : Fields)
      → siblings_equal fs gs ≡ true
      → (k : String) → is_dep_key k ≡ false
      → equal_field (field_of k fs) (field_of k gs) ≡ true
  unfolding siblings_equal
  siblings-equal fs gs e k d =
      let P : String → Type 0 =
        λ n. (is_dep_key n || equal_field (field_of n fs) (field_of n gs)) ≡ true in
      let (left, right) = All-split P (keys_of fs) (keys_of gs) (all_sound _ _ e) in
      elim (Option-cases (field_of k fs)) [
        | inr (v, f) ↦ let met = key_listed P k v fs left f in ground (arith, d, met)
        | inl f ↦ elim (Option-cases (field_of k gs)) [
          | inr (w, g) ↦ let met = key_listed P k w gs right g in ground (arith, d, met)
          | inl g ↦ rw (f, g) refl
        ]
      ]

  diff-IsPatchOnly :
      (parse_json : String → Option Json) (before after : String) (cs : List EntryChange)
      → parse_package_json_diff index_name chars parse_json before after ≡ some cs
      → All IsBump cs
      → IsPatchOnly parse_json before after
  unfolding parse_package_json_diff
  diff-IsPatchOnly parse_json before after cs e h =
      elim (Option-cases (as_record (parse_json before))) [
        | inl f ↦ absurd (cc (rw f at e))
        | inr (fs, f) ↦ elim (Option-cases (as_record (parse_json after))) [
          | inl g ↦ absurd (cc (rw (f, g) at e))
          | inr (gs, g) ↦ elim (Bool-cases (siblings_equal fs gs)) [
            | inr q ↦ absurd (cc (rw (f, g, q) at e))
            | inl q ↦ record {
              old = fs;
              new = gs;
              reads_old = f;
              reads_new = g;
              siblings = siblings-equal fs gs q;
              blocks = blocks-Agree dep_keys fs gs cs (rw (f, g, q) at e) h;
            }
          ]
        ]
      ]

  accumulate-IsPatchOnly :
      (parse_json : String → Option Json) (files : List (String × String)) (cs : List EntryChange)
      → accumulate index_name chars parse_json files ≡ some cs
      → All IsBump cs
      → All (λ f. IsPatchOnly parse_json f.0 f.1) files
  unfolding accumulate
  accumulate-IsPatchOnly parse_json [] cs e h = tt
  accumulate-IsPatchOnly parse_json ((before, after) ∷ files) cs e h =
      let ((xs, mine, bumps), (ys, later, others)) = joined _ _ cs e h in
      (
        diff-IsPatchOnly parse_json before after xs mine bumps,
        accumulate-IsPatchOnly parse_json files ys later others,
      )

  versions-IsPatchOnly :
      (parse_json : String → Option Json) (files : List (String × String))
      (o : Option (List EntryChange))
      → accumulate index_name chars parse_json files ≡ o
      → ArePatches (versions_of o)
      → All (λ f. IsPatchOnly parse_json f.0 f.1) files
  versions-IsPatchOnly parse_json files none e h = elim h [ ]
  versions-IsPatchOnly parse_json files (some cs) e h = elim (Option-cases (as_versions cs)) [
    | inl q ↦ absurd (rw q at h)
    | inr (vs, q) ↦
        accumulate-IsPatchOnly parse_json files cs e (versions-AllBumps cs vs q (rw q at h))
  ]

  changes-IsPatchOnly :
      (parse_json : String → Option Json) (needs : Bool) (files : List (String × String))
      → ArePatches (package_json_changes index_name chars parse_json needs files)
      → All (λ f. IsPatchOnly parse_json f.0 f.1) files
  unfolding package_json_changes
  changes-IsPatchOnly parse_json needs [] h = elim h [ ]
  changes-IsPatchOnly parse_json false (f ∷ files) h = elim h [ ]
  changes-IsPatchOnly parse_json true (f ∷ files) h =
      versions-IsPatchOnly parse_json (f ∷ files) _ refl h

-- Where a rule that asks for patch bumps promotes a changeset without review, each of its package.json files parses before and after,
-- nothing but the blocks of dependencies differs, no dependency comes or goes, and each dependency's entry is the same or goes
-- to a patch bump of its version.
pub promoted-IsPatchOnly :
    (index_name : ℕ → String) (chars : String → Items) (parse_json : String → Option Json)
    (matches_any : List String → String → Bool) (rule : AutoPromoteRule) (needs : Bool)
    (texts : List (String × String)) (changeset : AutoPromoteCandidate)
    → rule.require_package_json_patch_only ≡ true
    → changeset.package_json_changes ≡ package_json_changes index_name chars parse_json needs texts
    → auto_promote_matches matches_any rule changeset ≡ none
    → All (λ f. IsPatchOnly index_name chars parse_json f.0 f.1) texts
promoted-IsPatchOnly index_name chars parse_json matches_any rule needs texts changeset r c e =
    let promotable = (auto_promote_matches_iff matches_any rule changeset).0 e in
    changes-IsPatchOnly index_name chars parse_json needs texts
      (subst ArePatches c (promotable.packages r).1)
