-- ===== src/Warehouse/Guard.antt =====
-- `validate_read_only_query`. The SQL parser is an argument, as what it says of a statement.
use changesafe.Prelude.{
  Bool, not, ◌&&◌, ◌||◌, Option, none, some, List, [], ◌∷◌, ◌=s=◌, Codes, codes, upper, ◌=c=◌,
  elem_codes, contains, is_distinct_codes, ◌==◌, all, any, filter, map, length, is_empty,
  if◌then◌else◌, Result, ok, err, ◌>>=◌, ◌>>◌, guard,
}
use changesafe.Domain.Change.{is_identifier}
use changesafe.Domain.Equal.{same_list}
use changesafe.Config.Settings.{join_codes}
use changesafe.Warehouse.Text.{QueryError, unsafe_query, normalize_relation, quote_all}
use changesafe.Warehouse.Contract.{
  WarehouseQuery, QueryContract, trusted_contract_sql, trusted_contract_columns,
}

-- a table of a statement; a part that is not there is empty
pub record TableRef : Type 0 where
  pub catalog : Codes
  pub db : Codes
  pub name : Codes

pub record ColumnRef : Type 0 where
  pub table : Codes
  pub db : Codes
  pub catalog : Codes
  pub name : Codes
  pub is_quoted : Bool

-- what the parser says of a statement, with its text in the dialect
pub record Statement : Type 0 where
  pub is_select : Bool
  pub cte_names : List Codes
  pub tables : List TableRef
  pub has_join : Bool
  pub has_subquery : Bool
  pub columns : List ColumnRef
  pub named_selects : List Codes
  pub rendered : Codes

-- `parse(sql, read="snowflake")`; `none` is `ParseError`
abbrev pub Parser : Type 0
Parser = Codes → Option (List Statement)

-- `";" in sql or any(marker in sql for marker in COMMENT_MARKERS)`
unfoldable pub has_delimiter : Codes → Bool
unfolding contains
has_delimiter sql =
    any (λ c. c == b';') sql
    || contains (codes "--") sql
    || contains (codes "/*") sql
    || contains (codes "*/") sql

abbrev pub single_select : Option (List Statement) → Result QueryError Statement
single_select (some (s ∷ [])) = if s.is_select then ok s else err unsafe_query
single_select _ = err unsafe_query

unfoldable pub parse_single_select : Parser → Codes → Result QueryError Statement
unfolding has_delimiter
parse_single_select parse sql =
    if has_delimiter sql then err unsafe_query else single_select (parse sql)

-- a table that is no common table expression of the statement
unfoldable pub is_physical : Statement → TableRef → Bool
unfolding elem_codes upper
is_physical s t =
    not (is_empty t.db && is_empty t.catalog && elem_codes (upper t.name) (map upper s.cte_names))

abbrev pub table_relation : TableRef → Codes
table_relation t =
    join_codes b'.'
      (map upper (filter (λ part. not (is_empty part)) (t.catalog ∷ t.db ∷ t.name ∷ [])))

-- `_physical_tables` accepts the statement
unfoldable pub physical_tables : Statement → Codes → Bool
unfolding is_physical join_codes ◌=c=◌
physical_tables s relation =
    let physical = filter (is_physical s) s.tables in
    all (λ t. table_relation t =c= relation) physical && length physical == 1

unfoldable pub column_allowed : List Codes → ColumnRef → Bool
unfolding elem_codes upper
column_allowed fields c =
    is_empty c.table
    && is_empty c.db
    && is_empty c.catalog
    && elem_codes (upper c.name) fields
    && c.is_quoted

-- the equality of sets
unfoldable pub same_set : List Codes → List Codes → Bool
unfolding elem_codes
same_set xs ys = all (λ x. elem_codes x ys) xs && all (λ y. elem_codes y xs) ys

abbrev pub given_fields : Option Codes → List Codes
given_fields none = []
given_fields (some d) = d ∷ []

-- `expected_semantic_fields`
abbrev pub semantic_fields : QueryContract → List Codes
semantic_fields c = c.source_field ∷ given_fields c.destination_field

-- the query is the registered one
unfoldable pub matches_contract : WarehouseQuery → Codes → List Codes → QueryContract → Bool
unfolding same_list same_set ◌=c=◌
matches_contract query relation fields c =
    query.code =s= c.code
    && query.sql =c= c.sql
    && same_list ◌=c=◌ query.expected_columns c.expected_columns
    && relation =c= c.relation
    && same_set fields c.allowed_fields

unfoldable pub result_columns_valid : Statement → List Codes → Bool
unfolding same_list is_distinct_codes is_identifier upper ◌=c=◌
result_columns_valid s columns =
    let expected = map upper columns in
    same_list ◌=c=◌ (map upper s.named_selects) expected
    && is_distinct_codes expected
    && all is_identifier expected

-- the statement is one that the contract allows
unfoldable pub is_read_only : Statement → Codes → List Codes → List Codes → Bool
unfolding physical_tables column_allowed result_columns_valid
is_read_only s relation fields columns =
    not (s.has_join || s.has_subquery)
    && physical_tables s relation
    && all (column_allowed fields) s.columns
    && result_columns_valid s columns

-- the registered contract is the one that the trusted functions give
unfoldable pub require_trusted : QueryContract → Result QueryError Codes
unfolding same_set trusted_contract_sql trusted_contract_columns same_list ◌=c=◌
require_trusted c = do
  guard (same_set c.allowed_fields (semantic_fields c)) unsafe_query
  sql ← trusted_contract_sql c
  columns ← trusted_contract_columns c
  guard (c.sql =c= sql && same_list ◌=c=◌ c.expected_columns columns) unsafe_query
  ok sql

-- the part of `validate_read_only_query` that parses
unfoldable pub require_parsed :
    Parser → WarehouseQuery → Codes → List Codes → Codes → Result QueryError Unit
unfolding parse_single_select is_read_only ◌=c=◌
require_parsed parse query relation fields trusted = do
  s ← parse_single_select parse query.sql
  guard (is_read_only s relation fields query.expected_columns) unsafe_query
  expected ← parse_single_select parse trusted
  guard (s.rendered =c= expected.rendered) unsafe_query
  again ← parse_single_select parse s.rendered
  guard (again.rendered =c= s.rendered) unsafe_query

-- with the contract that is registered for the identity of the query, if one is
unfoldable pub validate_read_only_query :
    Parser → Option QueryContract → WarehouseQuery → Codes → List Codes → Result QueryError Unit
unfolding normalize_relation quote_all matches_contract require_trusted require_parsed
validate_read_only_query parse none query relation allowed_fields = err unsafe_query
validate_read_only_query parse (some c) query relation allowed_fields =
    let fields = map upper allowed_fields in
    do
      normalized ← normalize_relation relation
      guard (not (is_empty fields)) unsafe_query
      quote_all allowed_fields
      guard (matches_contract query normalized fields c) unsafe_query
      trusted ← require_trusted c
      require_parsed parse query normalized fields trusted
