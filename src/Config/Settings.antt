-- ===== src/Config/Settings.antt =====
-- `Settings` of config.py: the fields that the modelled code reads, the capabilities computed from them,
-- the fingerprint of the warehouse binding, and `protect_external_mutations`. A blank optional text has
-- become `None` by then. A secret and a URL are their texts; a given URL is true, a secret if it is not
-- empty.
use changesafe.Prelude.{
  ℕ, Bool, false, ◌&&◌, ◌||◌, not, Option, none, some, List, [], ◌∷◌, ◌++◌, String, ◌=s=◌, Codes,
  codes, upper, elem_codes, ◌==◌, length, is_truthy, is_some, is_empty, all, if◌then◌else◌,
}
use changesafe.Domain.Change.{is_identifier}

pub record Settings : Type 0 where
  pub datahub_gms_url : Option String
  pub datahub_gms_token : Option String
  pub save_document_restrict_updates : Bool
  pub demo_urn_allowlist : String
  pub github_token : Option String
  pub changesafe_github_repository : Option String
  pub github_base_branch : String
  pub public_writeback_enabled : Bool
  pub public_pr_enabled : Bool
  pub changesafe_admin_token : Option String
  pub live_evidence_required : Bool
  pub warehouse_validation_enabled : Bool
  pub warehouse_validation_required : Bool
  pub warehouse_evidence_max_age_seconds : ℕ
  pub snowflake_account : Option String
  pub snowflake_user : Option String
  pub snowflake_authenticator : Option String
  pub snowflake_private_key_path : Option String
  pub snowflake_warehouse : Option String
  pub snowflake_database : Option String
  pub snowflake_schema : Option String
  pub snowflake_role : Option String
  pub snowflake_target_relation_allowlist : List (String × String)

-- `bool(value)` of a text that may be missing
abbrev pub is_set : Option String → Bool
is_set none = false
is_set (some s) = is_truthy s

unfoldable pub live_context_enabled : Settings → Bool
live_context_enabled s = is_some s.datahub_gms_url && is_set s.datahub_gms_token

unfoldable pub github_publication_enabled : Settings → Bool
github_publication_enabled s =
    s.public_pr_enabled
    && is_set s.github_token
    && is_set s.changesafe_github_repository
    && is_set s.changesafe_admin_token

unfoldable pub datahub_writeback_enabled : Settings → Bool
unfolding live_context_enabled
datahub_writeback_enabled s =
    s.public_writeback_enabled && live_context_enabled s && is_set s.changesafe_admin_token

abbrev pub is_jwt : Option String → Bool
is_jwt none = false
is_jwt (some s) = s =s= "SNOWFLAKE_JWT"

unfoldable pub warehouse_configured : Settings → Bool
warehouse_configured s =
    s.warehouse_validation_enabled
    && is_set s.snowflake_account
    && is_set s.snowflake_user
    && is_jwt s.snowflake_authenticator
    && is_some s.snowflake_private_key_path
    && is_set s.snowflake_warehouse
    && is_set s.snowflake_database
    && is_set s.snowflake_schema
    && is_set s.snowflake_role
    && not (is_empty s.snowflake_target_relation_allowlist)

-- `mapping.get(key)`
unfoldable pub lookup : String → List (String × String) → Option String
lookup key [] = none
lookup key ((k, v) ∷ rest) = let found = lookup key rest in if k =s= key then some v else found

-- the values of the fingerprint, of a configuration in which each is given
unfoldable pub given_values : List (Option String) → Option (List Codes)
given_values [] = some []
given_values (none ∷ vs) = none
given_values (some v ∷ vs) =
    let rest = given_values vs in
    if is_truthy v then elim rest [ none ↦ none | some cs ↦ some (upper (codes v) ∷ cs) ] else none

-- `separator.join(parts)`
unfoldable pub join_codes : ℕ → List Codes → Codes
join_codes separator [] = []
join_codes separator (c ∷ []) = c
join_codes separator (c ∷ d ∷ cs) = c ++ separator ∷ join_codes separator (d ∷ cs)

-- `warehouse_binding_fingerprint`; the digest is an argument
unfoldable pub warehouse_binding_fingerprint : (Codes → String) → Settings → String → Option String
unfolding lookup given_values join_codes
warehouse_binding_fingerprint sha256 s asset_urn =
    let values = given_values (
      s.snowflake_account
      ∷ s.snowflake_user
      ∷ s.snowflake_role
      ∷ s.snowflake_warehouse
      ∷ s.snowflake_database
      ∷ s.snowflake_schema
      ∷ lookup asset_urn s.snowflake_target_relation_allowlist
      ∷ []) in
    elim values [ none ↦ none | some cs ↦ some (sha256 (join_codes 31 cs)) ]

-- `text.split(separator)`, of a separator of one code point
unfoldable pub split_on : ℕ → Codes → List Codes
split_on separator [] = [] ∷ []
split_on separator (c ∷ s) =
    let rest = split_on separator s in
    if c == separator
    then [] ∷ rest
    else elim rest [ [] ↦ (c ∷ []) ∷ [] | part ∷ parts ↦ (c ∷ part) ∷ parts ]

unfoldable pub is_relation : Codes → Bool
unfolding split_on is_identifier
is_relation relation =
    length (split_on b'.' relation) == 3 && all is_identifier (split_on b'.' relation)

unfoldable pub approved_target : Settings → String × String → Bool
unfolding is_relation split_on elem_codes
approved_target s (urn, relation) =
    elem_codes (codes urn) (split_on b';' (codes s.demo_urn_allowlist))
    && not (is_empty (codes urn))
    && is_relation (codes relation)

-- `protect_external_mutations` accepts the settings
unfoldable pub protect_external_mutations : Settings → Bool
unfolding approved_target
protect_external_mutations s =
    not (
      (s.public_pr_enabled || s.public_writeback_enabled) && not (is_some s.changesafe_admin_token))
    && not (s.public_writeback_enabled && s.save_document_restrict_updates)
    && not (s.warehouse_validation_required && not s.warehouse_validation_enabled)
    && not (
        s.warehouse_validation_enabled
        && (not (
              all is_some (
                s.snowflake_account ∷ s.snowflake_user ∷ s.snowflake_authenticator
                ∷ s.snowflake_private_key_path ∷ s.snowflake_warehouse ∷ s.snowflake_database
                ∷ s.snowflake_schema ∷ s.snowflake_role ∷ []))
            || is_empty s.snowflake_target_relation_allowlist))
    && not (s.warehouse_validation_enabled && not (is_jwt s.snowflake_authenticator))
    && all (approved_target s) s.snowflake_target_relation_allowlist
