-- ===== src/Predicate/Sample.antt =====
-- Values for runs: whole numbers for floats, texts for regular expressions, and cells with texts.
use cqserver.Prelude.{
  ℕ, ◌+◌, ◌&&◌, not, Option, none, [], ◌∷◌, ℤ, pos, pos_part, ltb, nat_eq, ltb_ℤ, leb_ℤ,
  if◌then◌else◌, map,
}
use cqserver.Predicate.Values.{Str, Ops, Cell, string_column, string_value, str_eq}

-- The dotless i, whose capital is `I`; all other characters stay.
abbrev pub capital : ℕ → ℕ
capital c = if nat_eq c 305 then 73 else c

abbrev pub width : Str → ℕ
width [] = 0
width (c ∷ s) = (if ltb c 128 then 1 else 2) + width s

-- Whole numbers for floats, with the number 999 for NaN.
abbrev pub ops : Ops ℤ Str
ops = record {
  is_nan = λ v. nat_eq (pos_part v) 999;
  eq_f = λ a b. nat_eq (pos_part a) (pos_part b) && not (nat_eq (pos_part a) 999);
  lt_f = ltb_ℤ;
  le_f = leb_ℤ;
  nan = pos 999;
  zero_f = pos 0;
  add_f = λ a b. pos (pos_part a + pos_part b);
  sub_f = λ a b. a;
  mul_f = λ a b. a;
  div_f = λ a b. a;
  neg_f = λ a. a;
  abs_f = λ a. a;
  round_f = λ a. a;
  floor_f = λ a. a;
  ceil_f = λ a. a;
  of_int = λ a. a;
  to_bits = pos_part;
  is_match = str_eq;
  to_uppercase = map capital;
  to_lowercase = λ s. s;
  upper_char = λ c. capital c ∷ [];
  lower_char = λ c. c ∷ [];
  byte_len = width;
}

abbrev pub text_cell : Option Str → Cell ℤ
text_cell s = record {
  column_type = string_column;
  double = pos 0;
  long = pos 0;
  int = pos 0;
  string = s;
  bool = none;
  timestamp = pos 0;
  value = string_value s;
}
