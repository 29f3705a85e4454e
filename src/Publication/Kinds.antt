-- ===== src/Publication/Kinds.antt =====
-- The files that a unified patch is built from.
use changesafe.Prelude.{
  ◌≡◌, refl, ℕ, suc, ◌+◌, ◌≤◌, Bool, true, false, Option, none, some, List, [], ◌∷◌, String, codes,
  is_some, all, any, map, length, if◌then◌else◌, none-ne-some, arith,
}
use changesafe.Domain.Analysis.{ArtifactFile, ArtifactBundle}
use changesafe.Publication.Patch.{
  PathKind, model_sql, model_yaml, test, migration, rollback, pr, manifest, path_kinds, is_kind,
  is_unsafe, path_kind, is_allowlisted_bundle, build_unified_patch,
}

unfoldable pub count : PathKind → List (Option PathKind) → ℕ
count k [] = 0
count k (o ∷ os) = let rest = count k os in if is_kind k o then suc rest else rest

abbrev pub kinds_of : List (String × ArtifactFile) → List (Option PathKind)
kinds_of files = map (λ (file : String × ArtifactFile). path_kind file.0) files

-- no path is absolute, goes up, or has a backslash
unfoldable pub AreSafe : List (String × ArtifactFile) → Type 0
AreSafe [] = Unit {0}
AreSafe (file ∷ files) = (is_unsafe (codes file.0) ≡ false) × AreSafe files

abbrev total : List (Option PathKind) → ℕ
total os =
    count model_sql os
    + count model_yaml os
    + count test os
    + count migration os
    + count rollback os
    + count pr os
    + count manifest os

total-length : (os : List (Option PathKind)) → all is_some os ≡ true → total os ≡ length os
unfolding count
total-length [] h = refl
total-length (none ∷ os) h = ground (arith, h)
total-length (some model_sql ∷ os) h = omega (arith, total-length os h)
total-length (some model_yaml ∷ os) h = omega (arith, total-length os h)
total-length (some test ∷ os) h = omega (arith, total-length os h)
total-length (some migration ∷ os) h = omega (arith, total-length os h)
total-length (some rollback ∷ os) h = omega (arith, total-length os h)
total-length (some pr ∷ os) h = omega (arith, total-length os h)
total-length (some manifest ∷ os) h = omega (arith, total-length os h)

any-count :
    (k : PathKind) (os : List (Option PathKind)) → any (is_kind k) os ≡ true → 1 ≤ count k os
unfolding count
any-count k [] h = ground (arith, h)
any-count k (o ∷ os) h = ground (arith, h, any-count k os)

unless-some : (b : Bool) (o : Option PathKind) → is_some (if b then none else o) ≡ true → b ≡ false
unless-some true o h = ground (arith, h)
unless-some false o h = refl

path_kind-safe : (path : String) → is_some (path_kind path) ≡ true → is_unsafe (codes path) ≡ false
unfolding path_kind
path_kind-safe path h = unless-some (is_unsafe (codes path)) _ h

all-AreSafe :
    (files : List (String × ArtifactFile)) → all is_some (kinds_of files) ≡ true → AreSafe files
unfolding AreSafe
all-AreSafe [] h = tt
all-AreSafe (file ∷ files) h =
    (path_kind-safe file.0 (ground (arith, h)), all-AreSafe files (ground (arith, h)))

length-kinds : (files : List (String × ArtifactFile)) → length (kinds_of files) ≡ length files
length-kinds [] = refl
length-kinds (file ∷ files) = omega (arith, length-kinds files)

one_of_each :
    (os : List (Option PathKind))
    → length os ≡ 7
    → all is_some os ≡ true
    → all (λ k. any (is_kind k) os) path_kinds ≡ true
    → (k : PathKind) → count k os ≡ 1
one_of_each os n known h k =
    let sum = total-length os known in
    let c0 = any-count model_sql os (ground (arith, h)) in
    let c1 = any-count model_yaml os (ground (arith, h)) in
    let c2 = any-count test os (ground (arith, h)) in
    let c3 = any-count migration os (ground (arith, h)) in
    let c4 = any-count rollback os (ground (arith, h)) in
    let c5 = any-count pr os (ground (arith, h)) in
    let c6 = any-count manifest os (ground (arith, h)) in
    elim k as (λ j. count j os ≡ 1) [
      | model_sql ↦ omega arith
      | model_yaml ↦ omega arith
      | test ↦ omega arith
      | migration ↦ omega arith
      | rollback ↦ omega arith
      | pr ↦ omega arith
      | manifest ↦ omega arith
    ]

unless-none :
    (b : Bool) (patch other : String) → (if b then some other else none) ≡ some patch → b ≡ true
unless-none true patch other h = refl
unless-none false patch other h = absurd (none-ne-some h)

accepted :
    (artifacts : ArtifactBundle) (patch : String)
    → build_unified_patch artifacts ≡ some patch
    → is_allowlisted_bundle artifacts.files ≡ true
unfolding build_unified_patch
accepted artifacts patch h = unless-none (is_allowlisted_bundle artifacts.files) patch _ h

-- A patch is built only from one file of each of the seven kinds, at paths that are not absolute, do not
-- go up and have no backslash.
pub build_unified_patch_one_of_each :
    (artifacts : ArtifactBundle) (patch : String)
    → build_unified_patch artifacts ≡ some patch
    → ((k : PathKind) → count k (kinds_of artifacts.files) ≡ 1) × AreSafe artifacts.files
unfolding is_allowlisted_bundle
build_unified_patch_one_of_each artifacts patch h =
    let fine = accepted artifacts patch h in
    let known : all is_some (kinds_of artifacts.files) ≡ true = ground (arith, fine) in
    (
      one_of_each (kinds_of artifacts.files) (ground (arith, fine, length-kinds artifacts.files))
          known (ground (arith, fine)),
      all-AreSafe artifacts.files known,
    )
