-- ===== src/Predicate/Values.antt =====
-- What a predicate reads of the column store (`Value`, `ColumnType` and the getters in
-- crates/cq-core/src/store.rs and crates/cq-core/src/schema.rs), and what it uses of floats, regular
-- expressions and Unicode.
use cqserver.Prelude.{
  ℕ, ℤ, negsuc, ◌-◌, ◌^◌, ◌&&◌, Bool, true, false, Option, none, some, List, [], ◌∷◌, int_eq,
  nat_eq, if◌then◌else◌,
}

-- A text as its code points.
abbrev pub Str : Type 0
Str = List ℕ

abbrev pub str_eq : Str → Str → Bool
str_eq [] [] = true
str_eq (a ∷ s) (b ∷ t) = nat_eq a b && str_eq s t
str_eq _ _ = false

-- Floats `F`, regular expressions `R`, and the case mappings: of a whole text, and of a character
-- (which may become several).
pub record Ops (F R : Type 0) : Type 0 where
  pub is_nan : F → Bool
  pub eq_f : F → F → Bool
  pub lt_f : F → F → Bool
  pub le_f : F → F → Bool
  pub nan : F
  pub zero_f : F
  pub add_f : F → F → F
  pub sub_f : F → F → F
  pub mul_f : F → F → F
  pub div_f : F → F → F
  pub neg_f : F → F
  pub abs_f : F → F
  pub round_f : F → F
  pub floor_f : F → F
  pub ceil_f : F → F
  pub of_int : ℤ → F
  pub to_bits : F → ℕ
  pub is_match : R → Str → Bool
  pub to_uppercase : Str → Str
  pub to_lowercase : Str → Str
  pub upper_char : ℕ → Str
  pub lower_char : ℕ → Str
  pub byte_len : Str → ℕ

abbrev pub is_none : {A : Type 0} → Option A → Bool
is_none none = true
is_none (some a) = false

pub data ColumnType : Type 0 where
  double_column long_column int_column string_column bool_column timestamp_column bytes_column :
      ColumnType

pub data Value (F : Type 0) : Type 0 where
  double_value : F → Value F
  long_value : ℤ → Value F
  int_value : ℤ → Value F
  string_value : Option Str → Value F
  bool_value : Option Bool → Value F
  timestamp_value : ℤ → Value F
  bytes_value : Option (List ℕ) → Value F
  null_value : Value F

-- `i64::MIN` and `i32::MIN`.
abbrev pub null_long : ℤ
null_long = negsuc (2 ^ 63 - 1)

abbrev pub null_int : ℤ
null_int = negsuc (2 ^ 31 - 1)

abbrev pub null_timestamp : ℤ
null_timestamp = negsuc (2 ^ 63 - 1)

-- What the getters of the store answer for one column of a row.
pub record Cell (F : Type 0) : Type 0 where
  pub column_type : ColumnType
  pub double : F
  pub long : ℤ
  pub int : ℤ
  pub string : Option Str
  pub bool : Option Bool
  pub timestamp : ℤ
  pub value : Value F

abbrev pub Row : Type 0 → Type 0
Row F = ℕ → Cell F

module _ {F R : Type 0} (ops : Ops F R) where
  unfoldable pub as_f64 : Value F → Option F
  as_f64 (double_value v) = if ops.is_nan v then none else some v
  as_f64 (long_value v) = if int_eq v null_long then none else some (ops.of_int v)
  as_f64 (int_value v) = if int_eq v null_int then none else some (ops.of_int v)
  as_f64 (timestamp_value v) = if int_eq v null_timestamp then none else some (ops.of_int v)
  as_f64 _ = none

  unfoldable pub is_null_value : Value F → Bool
  is_null_value (double_value v) = ops.is_nan v
  is_null_value (long_value v) = int_eq v null_long
  is_null_value (int_value v) = int_eq v null_int
  is_null_value (string_value none) = true
  is_null_value (bool_value none) = true
  is_null_value (timestamp_value v) = int_eq v null_timestamp
  is_null_value (bytes_value none) = true
  is_null_value null_value = true
  is_null_value _ = false

  -- The null test by the column's type, of `column_is_null` and the leaf `IsNull`.
  unfoldable pub column_is_null : Cell F → Bool
  column_is_null c = elim c.column_type [
    | double_column ↦ ops.is_nan c.double
    | long_column ↦ int_eq c.long null_long
    | int_column ↦ int_eq c.int null_int
    | string_column ↦ is_none c.string
    | bool_column ↦ is_none c.bool
    | timestamp_column ↦ int_eq c.timestamp null_timestamp
    | bytes_column ↦ is_null_value c.value
  ]
