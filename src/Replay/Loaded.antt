-- ===== src/Replay/Loaded.antt =====
-- What a bundle of metadata that is loaded from a snapshot is.
use changesafe.Prelude.{
  ◌≡◌, refl, sym, ap, ◌∙◌, subst, Bool, true, false, Option, none, some, List, [], ◌∷◌, String,
  ◌=s=◌, =s=_iff, Codes, all, find?, some-injective, none-ne-some, if◌then◌else◌, Result, ok, err,
  guard, >>=-eq-ok, >>-eq-ok, ok-injective, arith,
}
use changesafe.Domain.Change.{ChangeRequest}
use changesafe.Domain.Context.{ContextBundle, SchemaField, snapshot, require_snapshot_hash}
use changesafe.Replay.Catalog.{
  RecordedFieldContext, RecordedDataHubCatalog, has_name, equal_types_of, type_matches,
  fields_match_schema,
}
use changesafe.Replay.Load.{
  ReplayError, unavailable, checksum_mismatch, unknown_asset, unknown_field, other_exception,
  contract_violated, Decoded, no_json, no_catalog, catalog, Replay, ChecksumFile, no_file,
  not_ascii, words_of, read_checksum, or_raise, first_word, validated, load_payload, has_key,
  bundle_of, load,
}

-- the bundle is for the asset and the field of the change, from files with the recorded checksum, and its
-- type is the one that its own schema gives the field
pub record IsRecorded (r : Replay) (change : ChangeRequest) (b : ContextBundle) : Type 0 where
  pub asset : b.target_urn ≡ change.asset_urn
  pub field : b.field ≡ change.field
  pub from_snapshot : b.provenance.mode ≡ snapshot
  pub checked :
      (raw : Codes) × (expected : String) × (words : List String) × (r.files.raw ≡ some raw)
      × (r.files.checksum ≡ words_of (expected ∷ words))
      × (r.sha256 raw ≡ expected)
      × (b.provenance.snapshot_hash ≡ some expected)
  pub typed :
      (f : SchemaField) × (find? (has_name change.field) b.schema_fields ≡ some f)
      × (equal_types_of b.field_type f.data_type ≡ true)

raise-ok : {A : Type 0} (e : ReplayError) (o : Option A) (a : A) → or_raise e o ≡ ok a → o ≡ some a
raise-ok e none a h = cc h
raise-ok e (some b) a h = ap (λ x. some x) (ok-injective h)

read-ok :
    (file : ChecksumFile) (words : List String)
    → read_checksum file ≡ ok words
    → file ≡ words_of words
read-ok no_file words h = cc h
read-ok not_ascii words h = cc h
read-ok (words_of ws) words h = ap (λ x. words_of x) (ok-injective h)

test-ok : {E : Type 0} (b : Bool) (e : E) (u : Unit {0}) → guard b e ≡ ok u → b ≡ true
test-ok true e u h = refl
test-ok false e u h = cc h

first-ok :
    (ws : List String) (w : String) → first_word ws ≡ ok w → (rest : List String) × (ws ≡ w ∷ rest)
first-ok [] w h = cc h
first-ok (v ∷ ws) w h = (ws, ap (λ x. x ∷ ws) (ok-injective h))

accepted-ok :
    (b : Bool) (c d : RecordedDataHubCatalog)
    → ◌≡◌ {A = Result ReplayError RecordedDataHubCatalog}
        (if b then ok c else err contract_violated)
        (ok d)
    → (c ≡ d) × (b ≡ true)
accepted-ok true c d h = (ok-injective h, refl)
accepted-ok false c d h = cc h

validated-ok :
    (x : Decoded) (c : RecordedDataHubCatalog) → validated x ≡ ok c → fields_match_schema c ≡ true
validated-ok no_json c h = cc h
validated-ok no_catalog c h = cc h
validated-ok (catalog d) c h =
    let (same, fine) = accepted-ok (fields_match_schema d) d c h in
    subst (λ x. fields_match_schema x ≡ true) same fine

found-here :
    (p : String × RecordedFieldContext → Bool) (name : String) (g : String × RecordedFieldContext)
    (gs : List (String × RecordedFieldContext)) (f : String × RecordedFieldContext) (b : Bool)
    → (g.0 =s= name) ≡ b
    → p g ≡ true
    → (if b then some g else find? (has_key name) gs) ≡ some f
    → ((find? (has_key name) gs ≡ some f) → (p f ≡ true) × (f.0 ≡ name))
    → (p f ≡ true) × (f.0 ≡ name)
found-here p name g gs f true same h found later =
    let e = some-injective found in
    (
      subst (λ x. p x ≡ true) e h,
      subst (λ (x : String × RecordedFieldContext). x.0 ≡ name) e ((=s=_iff g.0 name).0 same),
    )
found-here p name g gs f false same h found later = later found

found-matches :
    (p : String × RecordedFieldContext → Bool) (name : String)
    (fs : List (String × RecordedFieldContext)) (f : String × RecordedFieldContext)
    → all p fs ≡ true
    → find? (has_key name) fs ≡ some f
    → (p f ≡ true) × (f.0 ≡ name)
found-matches p name [] f h found = absurd (none-ne-some found)
found-matches p name (g ∷ gs) f h found =
    found-here p name g gs f (g.0 =s= name) refl (ground (arith, h)) found
      (found-matches p name gs f (ground (arith, h)))

typed-found :
    (o : Option SchemaField) (recorded : RecordedFieldContext)
    → type_matches o recorded ≡ true
    → (f : SchemaField) × (o ≡ some f) × (equal_types_of recorded.field_type f.data_type ≡ true)
typed-found none recorded h = ground (arith, h)
typed-found (some f) recorded h = (f, refl, h)

fields-typed :
    (c : RecordedDataHubCatalog) (name : String) (f : String × RecordedFieldContext)
    → fields_match_schema c ≡ true
    → find? (has_key name) c.fields ≡ some f
    → (s : SchemaField) × (find? (has_name name) c.schema_fields ≡ some s)
      × (equal_types_of f.1.field_type s.data_type ≡ true)
unfolding fields_match_schema
fields-typed c name f h found =
    let (fits, same) =
      found-matches
        (λ (g : String × RecordedFieldContext).
          type_matches (find? (has_name g.0) c.schema_fields) g.1)
        name c.fields f (ground (arith, h)) found in
    let (s, there, equal) = typed-found (find? (has_name f.0) c.schema_fields) f.1 fits in
    (s, ap (λ n. find? (has_name n) c.schema_fields) (sym same) ∙ there, equal)

-- A bundle that the snapshot gives is for the asset and the field of the change, in snapshot mode; the
-- digest of the file is the recorded checksum and stands in the bundle; and the type of the field agrees
-- with that of the schema field of its name.
pub load-IsRecorded :
    (r : Replay) (change : ChangeRequest) (b : ContextBundle)
    → load r change ≡ ok b
    → IsRecorded r change b
unfolding load load_payload bundle_of
load-IsRecorded r change b h =
    let (payload, h1, r1) = >>=-eq-ok (load_payload r) _ h in
    let (u2, h2, r2) =
      >>-eq-ok (guard (payload.0.target_urn =s= change.asset_urn) unknown_asset) _ r1 in
    let (field, h3, r3) =
      >>=-eq-ok (or_raise unknown_field (find? (has_key change.field) payload.0.fields)) _ r2 in
    let (u4, h4, r4) =
      >>-eq-ok
        (guard (require_snapshot_hash (bundle_of payload.0 payload.1 change field.1))
          other_exception)
        _ r3 in
    let (raw, k1, s1) = >>=-eq-ok (or_raise unavailable r.files.raw) _ h1 in
    let (words, k2, s2) = >>=-eq-ok (read_checksum r.files.checksum) _ s1 in
    let (expected, k3, s3) = >>=-eq-ok (first_word words) _ s2 in
    let (u5, k4, s4) = >>-eq-ok (guard (r.sha256 raw =s= expected) checksum_mismatch) _ s3 in
    let (c, k5, s5) = >>=-eq-ok (validated (r.decode raw)) _ s4 in
    let (rest, split) = first-ok words expected k3 in
    let same =
      (=s=_iff (r.sha256 raw) expected).0
        (test-ok (r.sha256 raw =s= expected) checksum_mismatch u5 k4) in
    let pair = ok-injective s5 in
    subst (IsRecorded r change) (ok-injective r4) (record {
      asset =
          (=s=_iff payload.0.target_urn change.asset_urn).0
            (test-ok (payload.0.target_urn =s= change.asset_urn) unknown_asset u2 h2);
      field = refl;
      from_snapshot = refl;
      checked = (
        raw,
        expected,
        rest,
        raise-ok unavailable r.files.raw raw k1,
        read-ok r.files.checksum words k2 ∙ ap (λ x. words_of x) split,
        same,
        ap (λ x. some x) (sym (ap (λ (x : RecordedDataHubCatalog × String). x.1) pair) ∙ same),
      );
      typed =
          fields-typed payload.0 change.field field
            (subst (λ (x : RecordedDataHubCatalog × String). fields_match_schema x.0 ≡ true) pair
              (validated-ok (r.decode raw) c k5))
            (raise-ok unknown_field (find? (has_key change.field) payload.0.fields) field h3);
    })
