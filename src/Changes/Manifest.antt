-- ===== src/Changes/Manifest.antt =====
-- packages/domain/src/parse-package-diff.ts, on parsed JSON, and the loop over the changed package.json files of
-- `applyAutoPromoteIfMatches` (apps/runner/src/step.ts). The keys of a record are distinct, as JSON.parse leaves them; names that
-- every JavaScript object inherits are left out. A number stands as a code of its value.
pub mod Entries
pub mod Patches
use mergecrew.Base.{
  ℕ, suc, ◌+◌, String, Option, none, some, List, [], ◌∷◌, ◌++◌, Bool, true, false, not, ◌&&◌, ◌||◌,
  ◌==◌, str_eq, if◌then◌else◌, all, any, is_some,
}
use mergecrew.Changes.Promote.{PackageJsonVersionChange}

mutual
  pub data Json : Type 0 where
    null : Json
    bool : Bool → Json
    num : ℕ → Json
    str : String → Json
    arr : Items → Json
    obj : Fields → Json

  pub data Items : Type 0 where
    nil : Items
    cons : Json → Items → Items

  pub data Fields : Type 0 where
    end : Fields
    field : String → Json → Fields → Fields

-- `record[key]`, where none is `undefined`.
abbrev pub field_of : String → Fields → Option Json
field_of k end = none
field_of k (field n v fs) = if str_eq n k then some v else field_of k fs

abbrev pub keys_of : Fields → List String
keys_of end = []
keys_of (field n v fs) = n ∷ keys_of fs

abbrev pub same_bool : Bool → Bool → Bool
same_bool true b = b
same_bool false b = not b

-- A test of a value that may be missing on the other side.
abbrev pub fits : (Json → Bool) → Option Json → Bool
fits test none = false
fits test (some v) = test v

-- Records are compared by the keys of either.
unfoldable mutual
  pub deep_equal : Json → Json → Bool
  deep_equal null null = true
  deep_equal (bool a) (bool b) = same_bool a b
  deep_equal (num a) (num b) = a == b
  deep_equal (str a) (str b) = str_eq a b
  deep_equal (arr xs) (arr ys) = items_equal xs ys
  deep_equal (obj fs) (obj gs) =
      fields_equal fs gs && all (λ k. is_some (field_of k fs)) (keys_of gs)
  deep_equal _ _ = false

  pub items_equal : Items → Items → Bool
  items_equal nil nil = true
  items_equal (cons x xs) (cons y ys) = deep_equal x y && items_equal xs ys
  items_equal _ _ = false

  pub fields_equal : Fields → Fields → Bool
  fields_equal end gs = true
  fields_equal (field k v fs) gs = fits (deep_equal v) (field_of k gs) && fields_equal fs gs

-- `===`: two parsed records or arrays are never the same one.
abbrev pub identical : Json → Json → Bool
identical null null = true
identical (bool a) (bool b) = same_bool a b
identical (num a) (num b) = a == b
identical (str a) (str b) = str_eq a b
identical _ _ = false

abbrev pub dep_keys : List String
dep_keys = "dependencies" ∷ "devDependencies" ∷ "peerDependencies" ∷ []

abbrev pub is_dep_key : String → Bool
is_dep_key k = any (λ d. str_eq d k) dep_keys

abbrev pub equal_field : Option Json → Option Json → Bool
equal_field none none = true
equal_field none (some b) = false
equal_field (some a) b = fits (deep_equal a) b

unfoldable pub siblings_equal : Fields → Fields → Bool
unfolding deep_equal
siblings_equal fs gs =
    all (λ k. is_dep_key k || equal_field (field_of k fs) (field_of k gs))
      (keys_of fs ++ keys_of gs)

-- A change of a dependency's entry, whose values are texts in a package.json that is in order.
pub record EntryChange : Type 0 where
  pub name : String
  pub before : Json
  pub after : Json

abbrev push_change : EntryChange → Option (List EntryChange) → Option (List EntryChange)
push_change c none = none
push_change c (some cs) = some (c ∷ cs)

abbrev compare_entry :
    String → Json → Option Json → Option (List EntryChange) → Option (List EntryChange)
compare_entry n bv none rest = none
compare_entry n bv (some av) rest =
    if identical bv av
    then rest
    else push_change (record { name = n; before = bv; after = av }) rest

-- The names of the block before the change, then those that only the block after it has.
unfoldable pub walk : Fields → Fields → Option (List EntryChange)
walk end a = some []
walk (field n bv fs) a = compare_entry n bv (field_of n a) (walk fs a)

unfoldable pub block_changes : Fields → Fields → Option (List EntryChange)
unfolding walk
block_changes b a = if all (λ k. is_some (field_of k b)) (keys_of a) then walk b a else none

abbrev join_changes :
    Option (List EntryChange) → Option (List EntryChange) → Option (List EntryChange)
join_changes none more = none
join_changes (some cs) none = none
join_changes (some cs) (some ds) = some (cs ++ ds)

abbrev pub as_record : Option Json → Option Fields
as_record (some (obj fs)) = some fs
as_record _ = none

-- `index_name` is the name of an array's place, and `chars` the characters of a text.
module _ (index_name : ℕ → String) (chars : String → Items) where
  abbrev indexed : ℕ → Items → Fields
  indexed i nil = end
  indexed i (cons v vs) = field (index_name i) v (indexed (suc i) vs)

  -- `(record[block] ?? {})` with the keys that it has.
  abbrev pub block_of : Option Json → Fields
  block_of (some (obj fs)) = fs
  block_of (some (arr xs)) = indexed 0 xs
  block_of (some (str s)) = indexed 0 (chars s)
  block_of _ = end

  unfoldable pub blocks_changes : List String → Fields → Fields → Option (List EntryChange)
  unfolding block_changes
  blocks_changes [] fs gs = some []
  blocks_changes (k ∷ ks) fs gs =
      join_changes (block_changes (block_of (field_of k fs)) (block_of (field_of k gs)))
        (blocks_changes ks fs gs)

  abbrev pub diff_records : Option Fields → Option Fields → Option (List EntryChange)
  diff_records (some fs) (some gs) =
      if siblings_equal fs gs then blocks_changes dep_keys fs gs else none
  diff_records _ _ = none

  module _ (parse_json : String → Option Json) where
    unfoldable pub parse_package_json_diff : String → String → Option (List EntryChange)
    unfolding blocks_changes siblings_equal
    parse_package_json_diff before after =
        diff_records (as_record (parse_json before)) (as_record (parse_json after))

    -- The texts of each package.json before and after; none once one of them has no clean difference.
    unfoldable pub accumulate : List (String × String) → Option (List EntryChange)
    unfolding parse_package_json_diff
    accumulate [] = some []
    accumulate ((before, after) ∷ files) =
        join_changes (parse_package_json_diff before after) (accumulate files)

abbrev push_version :
    PackageJsonVersionChange
    → Option (List PackageJsonVersionChange)
    → Option (List PackageJsonVersionChange)
push_version c none = none
push_version c (some cs) = some (c ∷ cs)

abbrev read_version :
    String
    → Json
    → Json
    → Option (List PackageJsonVersionChange)
    → Option (List PackageJsonVersionChange)
read_version n (str x) (str y) rest = push_version (record { name = n; before = x; after = y }) rest
read_version n _ _ rest = none

-- The changes that `isPatchBump` can read; at another value it throws, and nothing is promoted.
abbrev as_versions : List EntryChange → Option (List PackageJsonVersionChange)
as_versions [] = some []
as_versions (c ∷ cs) = read_version c.name c.before c.after (as_versions cs)

abbrev pub versions_of : Option (List EntryChange) → Option (List PackageJsonVersionChange)
versions_of none = none
versions_of (some cs) = as_versions cs

-- `packageJsonChanges`: undefined unless a rule asks for it and a package.json is changed.
unfoldable pub package_json_changes :
    (ℕ → String)
    → (String → Items)
    → (String → Option Json)
    → Bool
    → List (String × String)
    → Option (List PackageJsonVersionChange)
unfolding accumulate
package_json_changes index_name chars parse_json needs [] = none
package_json_changes index_name chars parse_json needs (f ∷ files) =
    if needs then versions_of (accumulate index_name chars parse_json (f ∷ files)) else none
