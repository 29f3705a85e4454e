-- ===== src/Publication/Patch.antt =====
-- preview.py: the allowlist of artifact paths and the unified patch. `\d` is taken on ASCII.
use Prim.Native.Nat.{Ordering}
use Prim.Native.Char.{code}
use Prim.Native.String.{compare, ◌++◌ as append}
use changesafe.Prelude.{
  ℕ, zero, suc, Bool, true, false, ◌&&◌, ◌||◌, not, Option, none, some, List, [], ◌∷◌, String,
  Codes, codes, ◌=c=◌, elem_codes, starts_with, leb, ◌==◌, all, any, map, length, show, format,
  is_some, is_empty, if◌then◌else◌,
}
use changesafe.SqlTypes.Parts.{is_digit}
use changesafe.Domain.Analysis.{ArtifactFile, ArtifactBundle}
use changesafe.Config.Settings.{split_on}

pub data PathKind : Type 0 where
  model_sql model_yaml test migration rollback pr manifest : PathKind

abbrev pub path_kinds : List PathKind
path_kinds = model_sql ∷ model_yaml ∷ test ∷ migration ∷ rollback ∷ pr ∷ manifest ∷ []

abbrev pub kind_number : PathKind → ℕ
kind_number model_sql = 0
kind_number model_yaml = 1
kind_number test = 2
kind_number migration = 3
kind_number rollback = 4
kind_number pr = 5
kind_number manifest = 6

abbrev is_lower : ℕ → Bool
is_lower c = leb b'a' c && leb c b'z'

-- `[a-z_][a-z0-9_]*`
is_name : Codes → Bool
unfolding is_digit
is_name [] = false
is_name (c ∷ s) = (is_lower c || c == b'_') && all (λ d. is_lower d || is_digit d || d == b'_') s

-- the text after a prefix
unfoldable pub after : Codes → Codes → Option Codes
after [] s = some s
after (p ∷ ps) [] = none
after (p ∷ ps) (c ∷ s) = if p == c then after ps s else none

-- the text before a suffix
unfoldable pub before : Codes → Codes → Option Codes
unfolding ◌=c=◌
before suffix [] = if [] =c= suffix then some [] else none
before suffix (c ∷ s) =
    let rest = before suffix s in
    if (c ∷ s) =c= suffix then some [] else elim rest [ none ↦ none | some p ↦ some (c ∷ p) ]

abbrev then_matches : (Codes → Bool) → Option Codes → Bool
then_matches p none = false
then_matches p (some s) = p s

-- a name between a prefix and a suffix
is_named : Codes → Codes → Codes → Bool
unfolding after before is_name
is_named prefix suffix path =
    then_matches (λ s. then_matches is_name (before suffix s)) (after prefix path)

-- `[a-z0-9-]+`
is_slug : Codes → Bool
unfolding is_digit
is_slug s = not (is_empty s) && all (λ c. is_lower c || is_digit c || c == b'-') s

-- the rest after as many digits, and after a dash
digits_then : ℕ → (Codes → Bool) → Codes → Bool
unfolding is_digit
digits_then zero p s = p s
digits_then (suc n) p [] = false
digits_then (suc n) p (c ∷ s) = is_digit c && digits_then n p s

dash_then : (Codes → Bool) → Codes → Bool
dash_then p [] = false
dash_then p (c ∷ s) = c == b'-' && p s

is_dated : Codes → Bool
unfolding digits_then dash_then is_slug before
is_dated = digits_then 4 (
    dash_then (
      digits_then 2 (
        dash_then (
          digits_then 2 (
            dash_then (λ s.
              then_matches is_slug (before (codes "-rename.md") s)
              || then_matches is_slug (before (codes "-remove.md") s)
              || then_matches is_slug (before (codes "-type_change.md") s)))))))

-- `PATH_PATTERNS`
unfoldable pub matches_kind : PathKind → Codes → Bool
unfolding is_named is_dated after ◌=c=◌
matches_kind model_sql path = is_named (codes "models/marts/") (codes ".sql") path
matches_kind model_yaml path = is_named (codes "models/marts/") (codes ".yml") path
matches_kind test path = is_named (codes "tests/assert_") (codes ".sql") path
matches_kind migration path = then_matches is_dated (after (codes "migrations/") path)
matches_kind rollback path = path =c= codes "ROLLBACK.md"
matches_kind pr path = path =c= codes "PR_BODY.md"
matches_kind manifest path = path =c= codes "changesafe-manifest.json"

-- the first kind whose pattern matches
first_kind : Codes → List PathKind → Option PathKind
unfolding matches_kind
first_kind path [] = none
first_kind path (k ∷ ks) =
    let rest = first_kind path ks in if matches_kind k path then some k else rest

-- `parsed.is_absolute() or ".." in parsed.parts or "\\" in path`
unfoldable pub is_unsafe : Codes → Bool
unfolding starts_with split_on elem_codes
is_unsafe path =
    starts_with path (codes "/")
    || elem_codes (codes "..") (split_on b'/' path)
    || any (λ c. c == 92) path

unfoldable pub path_kind : String → Option PathKind
unfolding is_unsafe first_kind
path_kind path = if is_unsafe (codes path) then none else first_kind (codes path) path_kinds

abbrev pub is_kind : PathKind → Option PathKind → Bool
is_kind k none = false
is_kind k (some l) = kind_number k == kind_number l

-- `len(files) == len(PATH_PATTERNS) and set(kinds) == set(PATH_PATTERNS)`
unfoldable pub is_allowlisted_bundle : List (String × ArtifactFile) → Bool
unfolding path_kind
is_allowlisted_bundle files =
    let kinds = map (λ (file : String × ArtifactFile). path_kind file.0) files in
    length files == length path_kinds
    && all is_some kinds
    && all (λ k. any (is_kind k) kinds) path_kinds

-- `text.replace("\r\n", "\n")`
crlf_to_lf : String → String
crlf_to_lf String.[] = ""
crlf_to_lf (String.◌∷◌ c s) =
    let rest = crlf_to_lf s in
    if code c == 13 && starts_with (codes s) (10 ∷ []) then rest else String.◌∷◌ c rest

-- `text.replace("\r", "\n")`
cr_to_lf : String → String
cr_to_lf String.[] = ""
cr_to_lf (String.◌∷◌ c s) =
    let rest = cr_to_lf s in if code c == 13 then append "\n" rest else String.◌∷◌ c rest

-- the line boundaries of `str.splitlines`
is_boundary : ℕ → Bool
is_boundary c = leb 10 c && leb c 13 || leb 28 c && leb c 30 || c == 133 || c == 8232 || c == 8233

-- `text.splitlines()`, of a text without a carriage return
unfoldable pub split_lines : String → List String
unfolding is_boundary
split_lines String.[] = []
split_lines (String.◌∷◌ c s) =
    let rest = split_lines s in
    if is_boundary (code c)
    then "" ∷ rest
    else elim rest [ [] ↦ String.◌∷◌ c "" ∷ [] | l ∷ ls ↦ String.◌∷◌ c l ∷ ls ]

-- `text[:n]`
take_text : ℕ → String → String
take_text zero s = ""
take_text (suc n) String.[] = ""
take_text (suc n) (String.◌∷◌ c s) = String.◌∷◌ c (take_text n s)

unfoldable pub lines_of : ArtifactFile → List String
unfolding crlf_to_lf cr_to_lf split_lines
lines_of file = split_lines (cr_to_lf (crlf_to_lf file.content))

-- the header and the body of a file, each line ended
unfoldable pub section_lines : String × ArtifactFile → List String
unfolding lines_of take_text show format
section_lines (path, file) =
    format ("diff --git a/" ∷ path ∷ " b/" ∷ path ∷ [])
    ∷ "new file mode 100644"
    ∷ format ("index 0000000.." ∷ take_text 7 file.sha256 ∷ [])
    ∷ "--- /dev/null"
    ∷ format ("+++ b/" ∷ path ∷ [])
    ∷ format ("@@ -0,0 +1," ∷ show (length (lines_of file)) ∷ " @@" ∷ [])
    ∷ map (λ line. append "+" line) (lines_of file)

unlines : List String → String
unlines [] = ""
unlines (l ∷ ls) = append l (append "\n" (unlines ls))

abbrev is_before : String → String → Bool
is_before a b = elim (compare a b) [ Ordering.gt ↦ false | _ ↦ true ]

insert_file : String × ArtifactFile → List (String × ArtifactFile) → List (String × ArtifactFile)
insert_file file [] = file ∷ []
insert_file file (g ∷ gs) =
    let rest = insert_file file gs in if is_before file.0 g.0 then file ∷ g ∷ gs else g ∷ rest

-- `sorted(files)`
unfoldable pub sort_files : List (String × ArtifactFile) → List (String × ArtifactFile)
unfolding insert_file
sort_files [] = []
sort_files (f ∷ fs) = insert_file f (sort_files fs)

unfoldable pub patch_of : List (String × ArtifactFile) → String
unfolding section_lines unlines
patch_of [] = ""
patch_of (f ∷ fs) = append (unlines (section_lines f)) (patch_of fs)

-- `none` is `UnsafeArtifactPath`
unfoldable pub build_unified_patch : ArtifactBundle → Option String
unfolding is_allowlisted_bundle sort_files patch_of
build_unified_patch artifacts =
    if is_allowlisted_bundle artifacts.files
    then some (patch_of (sort_files artifacts.files))
    else none
