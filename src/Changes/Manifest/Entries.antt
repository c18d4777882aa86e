-- ===== src/Changes/Manifest/Entries.antt =====
-- The entries of the blocks of dependencies.
use mergecrew.Base.{
  String, Option, none, some, List, [], ◌∷◌, ◌++◌, true, ◌≡◌, ◌⊎◌, inl, inr, refl, sym, subst, ap,
  arith, str_eq, eq_iff, all, is_some, All, all_sound, Bool-cases, Option-cases,
}
use mergecrew.Changes.Versions.{is_patch_bump}
use mergecrew.Changes.Promote.{PackageJsonVersionChange}
use mergecrew.Changes.Manifest.{
  Json, null, bool, num, arr, str, obj, Fields, end, field, field_of, keys_of, identical,
  EntryChange, push_change, compare_entry, walk, block_changes, join_changes, read_version,
  as_versions,
}

-- The entry is the same, or goes from a text to one that is a patch bump.
abbrev pub IsPatched : Json → Json → Type 0
IsPatched bv av =
    (identical bv av ≡ true)
    ⊎ ((x : String) × (y : String) × (bv ≡ str x) × (av ≡ str y) × (is_patch_bump x y ≡ true))

-- The dependency is on both sides or on neither, and as above on both.
abbrev pub Agrees : Option Json → Option Json → Type 0
Agrees none none = Unit
Agrees (some bv) (some av) = IsPatched bv av
Agrees _ _ = ⊥

abbrev pub IsBump : EntryChange → Type 0
IsBump c =
    (x : String) × (y : String) × (c.before ≡ str x)
    × (c.after ≡ str y)
    × (is_patch_bump x y ≡ true)

abbrev AllBumps : Option (List EntryChange) → Type 0
AllBumps none = Unit
AllBumps (some cs) = All IsBump cs

pushed :
    (n : String) (bv av : Json) (rest : Option (List EntryChange)) (cs : List EntryChange)
    → push_change (record { name = n; before = bv; after = av }) rest ≡ some cs
    → All IsBump cs
    → IsPatched bv av × ((ds : List EntryChange) × (rest ≡ some ds) × All IsBump ds)
pushed n bv av none cs e h = absurd (cc)
pushed n bv av (some ds) cs e h =
    let (p, later) = subst AllBumps (sym e) h in (inr p, (ds, refl, later))

-- What the comparison of an entry comes to, where it comes to changes at all.
compare-Cases :
    (n : String) (bv : Json) (o : Option Json) (rest : Option (List EntryChange))
    (cs : List EntryChange)
    → compare_entry n bv o rest ≡ some cs
    → All IsBump cs
    → Agrees (some bv) o × ((ds : List EntryChange) × (rest ≡ some ds) × All IsBump ds)
compare-Cases n bv none rest cs e h = absurd (cc)
compare-Cases n bv (some av) rest cs e h = elim (Bool-cases (identical bv av)) [
  | inl q ↦ (inl q, (cs, rw q at e, h))
  | inr q ↦ pushed n bv av rest cs (rw q at e) h
]

walk-Agrees :
    (b a : Fields) (cs : List EntryChange)
    → walk b a ≡ some cs
    → All IsBump cs
    → (n : String) (v : Json) → field_of n b ≡ some v
    → Agrees (some v) (field_of n a)
unfolding walk
walk-Agrees end a cs e h n v f = cc
walk-Agrees (field m bv fs) a cs e h n v f =
    let (here_agrees, (ds, later, bumps)) = compare-Cases m bv (field_of m a) (walk fs a) cs e h in
    elim (Bool-cases (str_eq m n)) [
      | inl q ↦
          let same : bv ≡ v = ground (arith, rw q at f) in
          subst (λ z. Agrees (some z) (field_of n a)) same
            (subst (λ z. Agrees (some bv) (field_of z a)) ((eq_iff m n).0 q) here_agrees)
      | inr q ↦ walk-Agrees fs a ds later bumps n v (rw q at f)
    ]

-- A key that has a value is among the keys.
pub key_listed :
    (P : String → Type 0) (n : String) (v : Json) (fs : Fields)
    → All P (keys_of fs)
    → field_of n fs ≡ some v
    → P n
key_listed P n v end h e = cc
key_listed P n v (field m w fs) (p, h) e = elim (Bool-cases (str_eq m n)) [
  | inl q ↦ subst P ((eq_iff m n).0 q) p
  | inr q ↦ key_listed P n v fs h (rw q at e)
]

pub block-Agrees :
    (b a : Fields) (cs : List EntryChange)
    → block_changes b a ≡ some cs
    → All IsBump cs
    → (n : String) → Agrees (field_of n b) (field_of n a)
unfolding block_changes
block-Agrees b a cs e h n = elim (Bool-cases (all (λ k. is_some (field_of k b)) (keys_of a))) [
  | inr q ↦ absurd (ground (arith, rw q at e))
  | inl q ↦ elim (Option-cases (field_of n b)) [
    | inr (v, f) ↦ rw f (walk-Agrees b a cs (rw q at e) h n v f)
    | inl f ↦ elim (Option-cases (field_of n a)) [
      | inl g ↦ rw (f, g) tt
      | inr (w, g) ↦
          let listed = key_listed (λ k. is_some (field_of k b) ≡ true) n w a (all_sound _ _ q) g in
          absurd (cc (ap is_some f, listed))
    ]
  ]
]

pub All-split {ℓ} :
    {A : Type 0} (P : A → Type ℓ) (xs ys : List A) → All P (xs ++ ys) → All P xs × All P ys
All-split P [] ys h = (tt, h)
All-split P (x ∷ xs) ys (p, h) = let (a, b) = All-split P xs ys h in ((p, a), b)

-- What joins to changes is changes on both sides.
pub joined :
    (o more : Option (List EntryChange)) (cs : List EntryChange)
    → join_changes o more ≡ some cs
    → All IsBump cs
    → ((xs : List EntryChange) × (o ≡ some xs) × All IsBump xs)
      × ((ys : List EntryChange) × (more ≡ some ys) × All IsBump ys)
joined none more cs e h = absurd (cc)
joined (some xs) none cs e h = absurd (cc)
joined (some xs) (some ys) cs e h =
    let (left, right) = All-split IsBump xs ys (subst AllBumps (sym e) h) in
    ((xs, refl, left), (ys, refl, right))

abbrev pub IsPatch : PackageJsonVersionChange → Type 0
IsPatch v = is_patch_bump v.before v.after ≡ true

abbrev AllPatches : Option (List PackageJsonVersionChange) → Type 0
AllPatches none = Unit
AllPatches (some vs) = All IsPatch vs

read-IsBump :
    (m : String) (bv av : Json) (rest : Option (List PackageJsonVersionChange))
    (vs : List PackageJsonVersionChange)
    → read_version m bv av rest ≡ some vs
    → All IsPatch vs
    → ((x : String) × (y : String) × (bv ≡ str x) × (av ≡ str y) × (is_patch_bump x y ≡ true))
      × ((ws : List PackageJsonVersionChange) × (rest ≡ some ws) × All IsPatch ws)
read-IsBump m (str x) (str y) none vs e h = absurd (cc)
read-IsBump m (str x) (str y) (some ws) vs e h =
    let (p, later) = subst AllPatches (sym e) h in ((x, y, refl, refl, p), (ws, refl, later))
read-IsBump m (str x) null rest vs e h = absurd (cc)
read-IsBump m (str x) (bool b) rest vs e h = absurd (cc)
read-IsBump m (str x) (num n) rest vs e h = absurd (cc)
read-IsBump m (str x) (arr xs) rest vs e h = absurd (cc)
read-IsBump m (str x) (obj fs) rest vs e h = absurd (cc)
read-IsBump m null av rest vs e h = absurd (cc)
read-IsBump m (bool b) av rest vs e h = absurd (cc)
read-IsBump m (num n) av rest vs e h = absurd (cc)
read-IsBump m (arr xs) av rest vs e h = absurd (cc)
read-IsBump m (obj fs) av rest vs e h = absurd (cc)

-- The texts that are read as versions, where each is a patch bump.
pub versions-AllBumps :
    (cs : List EntryChange) (vs : List PackageJsonVersionChange)
    → as_versions cs ≡ some vs
    → All IsPatch vs
    → All IsBump cs
versions-AllBumps [] vs e h = tt
versions-AllBumps (c ∷ cs) vs e h =
    let ((x, y, b, a, p), (ws, later, rest)) =
      read-IsBump c.name c.before c.after (as_versions cs) vs e h in
    ((x, y, b, a, p), versions-AllBumps cs ws later rest)
