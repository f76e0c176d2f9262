-- ===== src/Lua.antt =====
-- What the C functions exchange with Lua: the values, the arguments and the checks that lauxlib makes
-- on them.
pub mod Run
pub mod Args
pub mod Plain
pub mod Format
pub mod Ends
use lua_testcase.Common.{
  ℕ, Bool, true, false, List, [], ◌∷◌, Option, none, some, String, str_eq, if◌then◌else◌,
}
use lua_testcase.Common.Int.{ℤ}

-- A Lua value as the C functions make and inspect them. Floating-point numbers are kept as the two
-- operands of the C division that makes them (and a sum a + b / c as its three), texts of strerror as
-- the errno, error objects of lua_errno as what they are made from: errno, operation, and the message
-- with what is formatted into it, and those of lua_error_new as the value that they are made from.
mutual
  pub data Value : Type 0 where
    nil : Value
    boolean : Bool → Value
    integer : ℤ → Value
    quotient : ℕ → ℕ → Value
    sum_quotient : ℕ → ℕ → ℕ → Value
    string : String → Value
    bytes : List ℕ → Value
    function : ℕ → Value
    userdata : String → ℤ → Value
    strerror : ℕ → Value
    error_object : Value → Value
    errno_object : ℕ → String → List String → Value
    table : Fields → Value

  pub data Fields : Type 0 where
    end : Fields
    field : String → Value → Fields → Fields

-- lua_setfield(L, -2, name)
abbrev pub set_field : String → Value → Fields → Fields
set_field k v end = field k v end
set_field k v (field j w fs) = if str_eq j k then field k v fs else field j w (set_field k v fs)

-- The field of a table; nil where it has none.
abbrev pub get_field : String → Fields → Value
get_field k end = nil
get_field k (field j w fs) = if str_eq j k then w else get_field k fs

-- The field of a value that is a table.
abbrev pub field_of : String → Value → Value
field_of k (table fs) = get_field k fs
field_of k _ = nil

-- How a Lua error is raised: by a failed luaL_check* of an argument, by luaL_argerror with a message
-- (and what is formatted into it), or by luaL_error.
pub data Raise : Type 0 where
  bad_argument : ℕ → Raise
  arg_error : ℕ → String → List String → List ℤ → Raise
  error : String → Raise

-- The conversions between numbers and strings that Lua makes on arguments.
pub record Conversions : Type 0 where
  pub string_to_integer : String → Option ℤ
  pub number_to_integer : ℕ → ℕ → Option ℤ
  pub integer_to_string : ℤ → String
  pub number_to_string : ℕ → ℕ → String
  pub string_is_number : String → Bool
