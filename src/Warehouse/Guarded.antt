-- ===== src/Warehouse/Guarded.antt =====
-- What the guard of a query makes sure of.
use changesafe.Prelude.{
  ◌≡◌, refl, ap, subst, Bool, true, false, ◌&&◌, Option, none, some, List, [], ◌∷◌, Codes, upper,
  ◌=c=◌, =c=_iff, elem_codes, inl, inr, all, filter, length, is_empty, ◌==◌, if◌then◌else◌,
  Bool-cases, Result, ok, err, guard, >>=-eq-ok, ok-injective, arith,
}
use changesafe.Warehouse.Text.{QueryError, unsafe_query}
use changesafe.Warehouse.Contract.{WarehouseQuery}
use changesafe.Warehouse.Guard.{
  TableRef, ColumnRef, Statement, Parser, has_delimiter, single_select, parse_single_select,
  is_physical, table_relation, physical_tables, column_allowed, is_read_only, require_parsed,
}

-- each column is one of the fields, quoted and not qualified
unfoldable pub AreFields : List Codes → List ColumnRef → Type 0
AreFields fields [] = Unit {0}
AreFields fields (c ∷ cs) =
    ((c.table ≡ [])
      × (c.db ≡ [])
      × (c.catalog ≡ [])
      × (c.is_quoted ≡ true)
      × (elem_codes (upper c.name) fields ≡ true))
    × AreFields fields cs

-- a statement that reads the fields of one table, and joins nothing
pub record IsReadOnly (s : Statement) (relation : Codes) (fields : List Codes) : Type 0 where
  pub is_a_select : s.is_select ≡ true
  pub no_join : s.has_join ≡ false
  pub no_subquery : s.has_subquery ≡ false
  pub one_table :
      (t : TableRef) × (filter (is_physical s) s.tables ≡ t ∷ []) × (table_relation t ≡ relation)
  pub only_fields : AreFields fields s.columns

-- a query without delimiters and comments, whose text is one such statement
abbrev pub IsGuarded : Parser → Codes → List Codes → WarehouseQuery → Type 0
IsGuarded parse relation fields query =
    (has_delimiter query.sql ≡ false)
    × ((s : Statement) × (parse query.sql ≡ some (s ∷ [])) × IsReadOnly s relation fields)

unfoldable pub AllGuarded : Parser → Codes → List Codes → List WarehouseQuery → Type 0
AllGuarded parse relation fields [] = Unit {0}
AllGuarded parse relation fields (q ∷ qs) =
    IsGuarded parse relation fields q × AllGuarded parse relation fields qs

empty-nil : {A : Type 0} (xs : List A) → is_empty xs ≡ true → xs ≡ []
empty-nil [] h = refl
empty-nil (x ∷ xs) h = ground (arith, h)

columns-AreFields :
    (fields : List Codes) (cs : List ColumnRef)
    → all (column_allowed fields) cs ≡ true
    → AreFields fields cs
unfolding AreFields column_allowed
columns-AreFields fields [] h = tt
columns-AreFields fields (c ∷ cs) h = (
  (
    empty-nil c.table (ground (arith, h)),
    empty-nil c.db (ground (arith, h)),
    empty-nil c.catalog (ground (arith, h)),
    ground (arith, h),
    ground (arith, h),
  ),
  columns-AreFields fields cs (ground (arith, h)),
)

single-table :
    (relation : Codes) (ts : List TableRef)
    → (all (λ t. table_relation t =c= relation) ts && length ts == 1) ≡ true
    → (t : TableRef) × (ts ≡ t ∷ []) × (table_relation t ≡ relation)
single-table relation [] h = ground (arith, h)
single-table relation (t ∷ []) h =
    (t, refl, (=c=_iff (table_relation t) relation).0 (ground (arith, h)))
single-table relation (t ∷ u ∷ ts) h = ground (arith, h)

statement-IsReadOnly :
    (s : Statement) (relation : Codes) (fields columns : List Codes)
    → s.is_select ≡ true
    → is_read_only s relation fields columns ≡ true
    → IsReadOnly s relation fields
unfolding is_read_only physical_tables
statement-IsReadOnly s relation fields columns select h = record {
  is_a_select = select;
  no_join = ground (arith, h);
  no_subquery = ground (arith, h);
  one_table = single-table relation (filter (is_physical s) s.tables) (ground (arith, h));
  only_fields = columns-AreFields fields s.columns (ground (arith, h));
}

chosen :
    (b : Bool) (a s : Statement)
    → ◌≡◌ {A = Result QueryError Statement} (if b then ok a else err unsafe_query) (ok s)
    → (a ≡ s) × (b ≡ true)
chosen true a s h = (ok-injective h, refl)
chosen false a s h = cc h

single_select-ok :
    (o : Option (List Statement)) (s : Statement)
    → single_select o ≡ ok s
    → (o ≡ some (s ∷ [])) × (s.is_select ≡ true)
single_select-ok none s h = cc h
single_select-ok (some []) s h = cc h
single_select-ok (some (a ∷ b ∷ rest)) s h = cc h
single_select-ok (some (a ∷ [])) s h =
    let (same, select) = chosen a.is_select a s h in
    (ap (λ x. some (x ∷ [])) same, subst (λ (x : Statement). x.is_select ≡ true) same select)

pub guard-true : {E : Type 0} (b : Bool) (e : E) (u : Unit {0}) → guard b e ≡ ok u → b ≡ true
guard-true true e u h = refl
guard-true false e u h = cc h

parse-ok :
    (parse : Parser) (sql : Codes) (s : Statement)
    → parse_single_select parse sql ≡ ok s
    → (has_delimiter sql ≡ false) × (parse sql ≡ some (s ∷ [])) × (s.is_select ≡ true)
unfolding parse_single_select
parse-ok parse sql s h = elim (Bool-cases (has_delimiter sql)) [
  | inl bad ↦ ground (arith, bad, h)
  | inr good ↦
      let (parses, select) = single_select-ok (parse sql) s (ground (arith, good, h)) in
      (good, parses, select)
]

pub parsed-IsGuarded :
    (parse : Parser) (query : WarehouseQuery) (relation : Codes) (fields : List Codes)
    (trusted : Codes)
    → require_parsed parse query relation fields trusted ≡ ok tt
    → IsGuarded parse relation fields query
unfolding require_parsed
parsed-IsGuarded parse query relation fields trusted h =
    let (s, h1, r1) = >>=-eq-ok (parse_single_select parse query.sql) _ h in
    let (u, h2, r2) =
      >>=-eq-ok (guard (is_read_only s relation fields query.expected_columns) unsafe_query) _ r1 in
    let (plain, parses, select) = parse-ok parse query.sql s h1 in
    (
      plain,
      (
        s,
        parses,
        statement-IsReadOnly s relation fields query.expected_columns select
            (guard-true (is_read_only s relation fields query.expected_columns) unsafe_query u h2),
      ),
    )
