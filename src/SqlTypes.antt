-- ===== src/SqlTypes.antt =====
-- apps/api/src/changesafe/sql_types.py: the type parser, the canonical form of a Snowflake scalar
-- type, and the classification of a type change. `ValueError` is a value of `TypeError`.
pub mod Parts
pub mod Canonicalize
pub mod Canonical
pub mod Kind
pub mod Sized
pub mod Widens
pub mod Order
pub mod Values
