-- ===== src/Lua/Args.antt =====
-- lua_type, lua_to* and luaL_check* on the arguments of a call, the first argument at index 1.
use lua_testcase.Common.{
  ℕ, zero, suc, Bool, true, false, List, Option, none, some, String, get_elem?,
}
use lua_testcase.Common.Int.{ℤ}
use lua_testcase.Lua.{
  Value, nil, boolean, integer, quotient, string, Conversions, bad_argument, function,
}
use lua_testcase.Lua.Run.{Action, pure, raise}

-- The argument at an index; none where the call gives fewer.
abbrev pub arg : List Value → ℕ → Option Value
arg args zero = none
arg args (suc i) = get_elem? args i

-- lua_isnoneornil
abbrev pub is_none_or_nil : Option Value → Bool
is_none_or_nil none = true
is_none_or_nil (some nil) = true
is_none_or_nil (some _) = false

-- lua_isnumber: a number, or a string that converts to one.
abbrev pub is_number : Conversions → Option Value → Bool
is_number c (some (integer v)) = true
is_number c (some (quotient m n)) = true
is_number c (some (string s)) = c.string_is_number s
is_number c _ = false

-- lua_toboolean
abbrev pub to_boolean : Option Value → Bool
to_boolean none = false
to_boolean (some nil) = false
to_boolean (some (boolean b)) = b
to_boolean (some _) = true

-- lua_tointegerx, on what converts to an integer.
abbrev pub to_integer : Conversions → Option Value → Option ℤ
to_integer c (some (integer v)) = some v
to_integer c (some (quotient m n)) = c.number_to_integer m n
to_integer c (some (string s)) = c.string_to_integer s
to_integer c _ = none

-- lua_tolstring, on what converts to a string.
abbrev pub to_string : Conversions → Option Value → Option String
to_string c (some (string s)) = some s
to_string c (some (integer v)) = some (c.integer_to_string v)
to_string c (some (quotient m n)) = some (c.number_to_string m n)
to_string c _ = none

-- luaL_checktype(L, i, LUA_TBOOLEAN); lua_toboolean(L, i)
abbrev pub boolean_of : Option Value → Option Bool
boolean_of (some (boolean b)) = some b
boolean_of _ = none

-- A luaL_check*: the converted argument, or a raised argument error.
abbrev pub checked : {C R S A : Type 0} → ℕ → Option A → Action C R S A
checked i (some a) = pure a
checked i none = raise (bad_argument i)

abbrev pub check_integer : {C R S : Type 0} → Conversions → List Value → ℕ → Action C R S ℤ
check_integer c args i = checked i (to_integer c (arg args i))

abbrev pub check_string : {C R S : Type 0} → Conversions → List Value → ℕ → Action C R S String
check_string c args i = checked i (to_string c (arg args i))

abbrev pub check_boolean : {C R S : Type 0} → List Value → ℕ → Action C R S Bool
check_boolean args i = checked i (boolean_of (arg args i))

-- luaL_checktype(L, i, LUA_TFUNCTION)
abbrev pub function_of : Option Value → Option Value
function_of (some (function n)) = some (function n)
function_of _ = none

abbrev pub check_function : {C R S : Type 0} → List Value → ℕ → Action C R S Value
check_function args i = checked i (function_of (arg args i))
