-- ===== src/Lua/Plain.antt =====
-- A Lua that converts no argument, for runs at concrete inputs.
use lua_testcase.Common.{none, false}
use lua_testcase.Lua.{Conversions}

abbrev pub plain : Conversions
plain = record {
  string_to_integer = λ s. none;
  number_to_integer = λ m n. none;
  integer_to_string = λ v. "";
  number_to_string = λ m n. "";
  string_is_number = λ s. false;
}
