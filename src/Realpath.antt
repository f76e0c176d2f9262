-- ===== src/Realpath.antt =====
-- src/realpath.c: a path resolved into a buffer that the module allocates when it is opened. The state
-- of a run is the module's two static variables, which all Lua states of the process share; of the
-- buffer its size is kept. The closing of a Lua state, which frees the buffer of that state, is left out.
pub mod Buffer
mod Tests
use lua_testcase.Lua.Args.{check_string}
use lua_testcase.Common.{ℕ, String, Option, none, List, if◌then◌else◌, ◌-◌, some, ◌∷◌, []}
use lua_testcase.Lua.Run.{Action, ◌>>=◌, call, get, pure, put}
use lua_testcase.Common.Int.{ℤ, pos, negsuc, u64_mod, eqb_ℤ, minus_one}
use lua_testcase.Lua.{Conversions, Value, string, nil, errno_object}

-- pathconf(".", _PC_PATH_MAX), and realpath into a buffer, where one is given.
pub data Call : Type 0 where
  pathconf_path_max : Call
  realpath : String → Option ℕ → Call

-- The long that pathconf returns; the resolved path of realpath (none for NULL), with the number of
-- bytes that it writes to the buffer; and errno.
pub record Reply : Type 0 where
  pub limit : ℤ
  pub resolved : Option String
  pub written : ℕ
  pub errno : ℕ

-- REALPATH_BUFSIZ, and the size of what REALPATH_BUF points at (none for NULL).
pub record Statics : Type 0 where
  pub bufsiz : ℕ
  pub buf : Option ℕ

abbrev pub Routine : Type 0 → Type 0
Routine A = Action Call Reply Statics A

-- How the variables start; PATH_MAX is a parameter.
pub start : ℕ → Statics
start path_max = record { bufsiz = path_max; buf = none }

-- The conversion of a long to size_t.
abbrev pub to_size : ℤ → ℕ
to_size (pos n) = n
to_size (negsuc n) = u64_mod - 1 - n

-- luaopen_testcase_realpath, up to the function that it returns.
pub luaopen : Routine (Unit {0})
luaopen = do
  r ← call pathconf_path_max
  s ← get
  let size = if eqb_ℤ r.limit minus_one then s.bufsiz else to_size r.limit in
      put (record { bufsiz = size; buf = some size })

pub realpath_lua : Conversions → List Value → Routine (List Value)
realpath_lua c args = do
  path ← check_string c args 1
  s ← get
  r ← call (realpath path s.buf)
  pure (elim r.resolved [
    | some p ↦ string p ∷ []
    | none ↦ nil ∷ errno_object r.errno "realpath" [] ∷ []
  ])
