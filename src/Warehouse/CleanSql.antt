-- ===== src/Warehouse/CleanSql.antt =====
-- The texts of a plan have no delimiter and no comment marker, since their parts have none.
use changesafe.Prelude.{◌≡◌, subst, Codes, all-append, ok, ok-injective, >>=-eq-ok}
use changesafe.Warehouse.Text.{
  quote_identifier, text_of, schema_probe_text, rename_text, remove_text, type_change_text,
  schema_probe_sql, rename_sql, remove_sql, type_change_sql,
}
use changesafe.Warehouse.Clean.{is_clean, IsClean, quote-IsClean}

module _ (relation : Codes) (placed : IsClean relation) where
  probe_text-IsClean : (q : Codes) → IsClean q → IsClean (schema_probe_text q relation)
  unfolding schema_probe_text IsClean is_clean text_of
  probe_text-IsClean q h = simp (all-append is_clean, h, placed)

  pub schema_probe-IsClean :
      (field sql : Codes) → schema_probe_sql field relation ≡ ok sql → IsClean sql
  unfolding schema_probe_sql
  schema_probe-IsClean field sql h =
      let (q, h1, r1) = >>=-eq-ok (quote_identifier field) _ h in
      subst IsClean (ok-injective r1) (probe_text-IsClean q (quote-IsClean field q h1))

  rename_text-IsClean : (q n : Codes) → IsClean q → IsClean n → IsClean (rename_text q n relation)
  unfolding rename_text IsClean is_clean text_of
  rename_text-IsClean q n h k = simp (all-append is_clean, h, k, placed)

  pub rename-IsClean :
      (field new_field sql : Codes) → rename_sql field new_field relation ≡ ok sql → IsClean sql
  unfolding rename_sql
  rename-IsClean field new_field sql h =
      let (q, h1, r1) = >>=-eq-ok (quote_identifier field) _ h in
      let (n, h2, r2) = >>=-eq-ok (quote_identifier new_field) _ r1 in
      subst IsClean (ok-injective r2)
        (rename_text-IsClean q n (quote-IsClean field q h1) (quote-IsClean new_field n h2))

  remove_text-IsClean : (q : Codes) → IsClean q → IsClean (remove_text q relation)
  unfolding remove_text IsClean is_clean text_of
  remove_text-IsClean q h = simp (all-append is_clean, h, placed)

  pub remove-IsClean : (field sql : Codes) → remove_sql field relation ≡ ok sql → IsClean sql
  unfolding remove_sql
  remove-IsClean field sql h =
      let (q, h1, r1) = >>=-eq-ok (quote_identifier field) _ h in
      subst IsClean (ok-injective r1) (remove_text-IsClean q (quote-IsClean field q h1))

  type_change_text-IsClean :
      (q current target : Codes)
      → IsClean q
      → IsClean current
      → IsClean target
      → IsClean (type_change_text q current target relation)
  unfolding type_change_text IsClean is_clean text_of
  type_change_text-IsClean q current target h k l = simp (all-append is_clean, h, k, l, placed)

  pub type_change-IsClean :
      (field current target sql : Codes)
      → IsClean current
      → IsClean target
      → type_change_sql field current target relation ≡ ok sql
      → IsClean sql
  unfolding type_change_sql
  type_change-IsClean field current target sql k l h =
      let (q, h1, r1) = >>=-eq-ok (quote_identifier field) _ h in
      subst IsClean (ok-injective r1)
        (type_change_text-IsClean q current target (quote-IsClean field q h1) k l)
