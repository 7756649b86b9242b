-- ===== src/Topic/Values.antt =====
-- The conversion of JSON to typed values, and of values to what a column holds (`Value::from_json`,
-- `ColumnStore::set` in crates/cq-core/src/store.rs).
use cqserver.Prelude.{
  ℕ, ℤ, pos, negsuc, ◌-◌, ◌^◌, ◌%◌, Bool, true, false, not, Option, none, some, List, [], ◌∷◌,
  int_eq, ltb, if◌then◌else◌, any,
}
use cqserver.Predicate.Values.{
  Ops, Str, Value, ColumnType, double_value, long_value, int_value, string_value, bool_value,
  timestamp_value, bytes_value, null_value, double_column, long_column, int_column, string_column,
  bool_column, timestamp_column, bytes_column, null_long, null_int, null_timestamp, str_eq,
}
use cqserver.Subscription.Rows.{StoreOps, Json, float_json, integer_json, text_json, bool_json}

-- The parsers and the printers of numbers, timestamps and base64, and `to_ascii_lowercase`.
pub record TextOps (F : Type 0) : Type 0 where
  pub parse_f64 : Str → Option F
  pub parse_i64 : Str → Option ℤ
  pub parse_i32 : Str → Option ℤ
  pub print_f64 : F → Str
  pub print_int : ℤ → Str
  pub print_number : F → Str
  pub parse_timestamp_json : Json F → ℤ
  pub parse_timestamp_str : Str → Option ℤ
  -- What `Value::to_json` prints with.
  pub store_ops : StoreOps F
  pub decode_base64 : Str → Option (List ℕ)
  pub ascii_lowercase : Str → Str

abbrev or_else : {A : Type 0} → Option A → A → A
or_else none b = b
or_else (some a) b = a

abbrev true_text : Str
true_text = 116 ∷ 114 ∷ 117 ∷ 101 ∷ []

abbrev false_text : Str
false_text = 102 ∷ 97 ∷ 108 ∷ 115 ∷ 101 ∷ []

-- "true", "1", "yes" and "y".
abbrev yes_texts : List Str
yes_texts = true_text ∷ (49 ∷ []) ∷ (121 ∷ 101 ∷ 115 ∷ []) ∷ (121 ∷ []) ∷ []

-- "false", "0", "no" and "n".
abbrev no_texts : List Str
no_texts = false_text ∷ (48 ∷ []) ∷ (110 ∷ 111 ∷ []) ∷ (110 ∷ []) ∷ []

abbrev bool_text : Bool → Str
bool_text true = true_text
bool_text false = false_text

-- A 64-bit integer as a 32-bit one.
unfoldable pub wrap_i32 : ℤ → ℤ
wrap_i32 (pos n) =
    let low = n % 2 ^ 32 in if ltb low (2 ^ 31) then pos low else negsuc (2 ^ 32 - 1 - low)
wrap_i32 (negsuc n) =
    let low = n % 2 ^ 32 in if ltb low (2 ^ 31) then negsuc low else pos (2 ^ 32 - 1 - low)

unfoldable pub null_of : {F R : Type 0} → Ops F R → ColumnType → Value F
null_of ops double_column = double_value ops.nan
null_of ops long_column = long_value null_long
null_of ops int_column = int_value null_int
null_of ops string_column = string_value none
null_of ops bool_column = bool_value none
null_of ops timestamp_column = timestamp_value null_timestamp
null_of ops bytes_column = bytes_value none

module _ {F R : Type 0} (ops : Ops F R) (text : TextOps F) where
  -- The words that stand for a boolean.
  unfoldable pub parse_bool : Str → Option Bool
  parse_bool s =
      let lower = text.ascii_lowercase s in
      if any (str_eq lower) yes_texts
      then some true
      else if any (str_eq lower) no_texts
      then some false
      else none

  -- A number is an integer or a float; only an integer has an `as_i64`.
  unfoldable pub from_json : Json F → ColumnType → Value F
  from_json (float_json v) double_column = double_value v
  from_json (integer_json n) double_column = double_value (ops.of_int n)
  from_json (text_json s) double_column = double_value (or_else (text.parse_f64 s) ops.nan)
  from_json (integer_json n) long_column = long_value n
  from_json (text_json s) long_column = long_value (or_else (text.parse_i64 s) null_long)
  from_json (integer_json n) int_column = int_value (wrap_i32 n)
  from_json (text_json s) int_column = int_value (or_else (text.parse_i32 s) null_int)
  from_json (text_json s) string_column = string_value (some s)
  from_json (bool_json b) string_column = string_value (some (bool_text b))
  from_json (integer_json n) string_column = string_value (some (text.print_int n))
  from_json (float_json v) string_column = string_value (some (text.print_number v))
  from_json (bool_json b) bool_column = bool_value (some b)
  from_json (text_json s) bool_column = bool_value (parse_bool s)
  from_json (integer_json n) bool_column = bool_value (some (not (int_eq n (pos 0))))
  from_json (text_json s) bytes_column = bytes_value (text.decode_base64 s)
  from_json j timestamp_column = timestamp_value (text.parse_timestamp_json j)
  from_json j kind = null_of ops kind

  -- What a column of a kind holds after a value is set: the old value, if the types do not fit.
  unfoldable pub set_value : ColumnType → Value F → Value F → Value F
  set_value double_column (double_value v) old = double_value v
  set_value double_column (long_value v) old = double_value (ops.of_int v)
  set_value double_column (int_value v) old = double_value (ops.of_int v)
  set_value long_column (long_value v) old = long_value v
  set_value long_column (int_value v) old = long_value v
  set_value int_column (int_value v) old = int_value v
  set_value bytes_column (bytes_value v) old = bytes_value v
  set_value string_column (string_value v) old = string_value v
  set_value string_column (double_value v) old = string_value (some (text.print_f64 v))
  set_value string_column (long_value v) old = string_value (some (text.print_int v))
  set_value string_column (int_value v) old = string_value (some (text.print_int v))
  set_value string_column (bool_value (some b)) old = string_value (some (bool_text b))
  set_value string_column (timestamp_value v) old =
      string_value
        (if int_eq v null_timestamp then none else some (text.store_ops.format_timestamp_micros v))
  set_value string_column other old = string_value none
  set_value timestamp_column (timestamp_value v) old = timestamp_value v
  set_value timestamp_column (string_value (some s)) old =
      timestamp_value (or_else (text.parse_timestamp_str s) null_timestamp)
  set_value timestamp_column (long_value v) old =
      timestamp_value (if int_eq v null_long then null_timestamp else v)
  set_value timestamp_column (int_value v) old =
      timestamp_value (if int_eq v null_int then null_timestamp else v)
  set_value timestamp_column other old = timestamp_value null_timestamp
  set_value bool_column (bool_value v) old = bool_value v
  set_value bool_column (long_value v) old =
      bool_value (if int_eq v null_long then none else some (not (int_eq v (pos 0))))
  set_value bool_column (int_value v) old =
      bool_value (if int_eq v null_int then none else some (not (int_eq v (pos 0))))
  set_value bool_column (double_value v) old =
      bool_value (if ops.is_nan v then none else some (not (ops.eq_f v ops.zero_f)))
  set_value bool_column (string_value (some s)) old = bool_value (parse_bool s)
  set_value bool_column other old = bool_value none
  set_value kind null_value old = null_of ops kind
  set_value kind value old = old
