-- ===== src/SqlTypes/Kind.antt =====
-- `type_change_kind` of sql_types.py.
use changesafe.Prelude.{
  ℕ, ◌-◌, Bool, true, false, ◌&&◌, ◌||◌, List, [], ◌∷◌, String, codes, ◌=c=◌, leb, ltb, ◌==◌,
  if◌then◌else◌, Result, ok, err, ◌>>=◌,
}
use changesafe.SqlTypes.Parts.{TypeError, unpack}
use changesafe.SqlTypes.Canonicalize.{SqlType, canonical_sql_type}

pub data ChangeKind : Type 0 where
  no_op widening incompatible : ChangeKind

-- `==` on tuples of numbers
unfoldable pub same_parameters : List ℕ → List ℕ → Bool
same_parameters [] [] = true
same_parameters [] (n ∷ ns) = false
same_parameters (m ∷ ms) [] = false
same_parameters (m ∷ ms) (n ∷ ns) = m == n && same_parameters ms ns

-- `==` on canonical types
unfoldable pub same_type : SqlType → SqlType → Bool
unfolding same_parameters
same_type a b = a.base =c= b.base && same_parameters a.parameters b.parameters

-- `new_parameters[0] > current_parameters[0]`; an index out of range raises
unfoldable pub sized_kind : List ℕ → List ℕ → Result TypeError ChangeKind
sized_kind (m ∷ ms) (n ∷ ns) = ok (if ltb m n then widening else incompatible)
sized_kind _ _ = err unpack

-- Two numbers are unpacked from each side. A canonical scale is at most the precision, so the
-- differences are exact.
unfoldable pub number_kind : List ℕ → List ℕ → Result TypeError ChangeKind
number_kind (precision ∷ scale ∷ []) (new_precision ∷ new_scale ∷ []) = ok (
    if leb scale new_scale && leb (precision - scale) (new_precision - new_scale)
    then widening
    else incompatible)
number_kind _ _ = err unpack

-- the tests behind the comparison for equality
unfoldable pub kind_of : SqlType → SqlType → Result TypeError ChangeKind
kind_of current new =
    if same_type current new
    then ok no_op
    else if current.base =c= new.base
    then (if current.base =c= codes "VARCHAR" || current.base =c= codes "BINARY"
        then sized_kind current.parameters new.parameters
        else if current.base =c= codes "NUMBER"
        then number_kind current.parameters new.parameters
        else ok incompatible)
    else ok incompatible

unfoldable pub type_change_kind : String → String → Result TypeError ChangeKind
unfolding kind_of
type_change_kind current_type new_type = do
  current ← canonical_sql_type current_type
  new ← canonical_sql_type new_type
  kind_of current new
