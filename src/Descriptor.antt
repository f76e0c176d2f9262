-- ===== src/Descriptor.antt =====
-- src/close.c and src/shutdown.c, on a descriptor given by its number or by a file handle of Lua. Their
-- function checkfilep is the same text. Handles belong to Lua's io library: the code reads one field.
pub mod Handles
pub mod Options
mod Tests
use lua_testcase.Lua.Args.{is_number, is_none_or_nil, arg, checked, check_integer, to_string}
use lua_testcase.Lua.Run.{Action, pure, ◌>>=◌, call, raise, get}
use lua_testcase.Lua.{Conversions, Value, string, userdata, boolean, arg_error, errno_object}
use lua_testcase.Common.{
  Option, String, if◌then◌else◌, List, ℕ, Bool, str_eq, some, none, true, ◌∷◌, [], false,
}
use lua_testcase.Common.Int.{ℤ, eqb_ℤ, minus_one, pos, to_int}

-- SHUT_RD, SHUT_WR, SHUT_RDWR
pub data How : Type 0 where
  shut_rd shut_wr shut_rdwr : How

-- A stream is known by the address of its FILE.
pub data Call : Type 0 where
  close : ℤ → Call
  shutdown : ℤ → How → Call
  fileno : ℕ → Call

pub record Reply : Type 0 where
  pub ret : ℤ
  pub errno : ℕ

-- luaL_Stream: its FILE* (none for NULL), and whether its field closef is set, by which Lua tells open
-- handles from closed ones.
pub record Handle : Type 0 where
  pub f : Option ℕ
  pub is_open : Bool

abbrev pub Handles : Type 0
Handles = ℤ → Handle

abbrev pub Routine : Type 0 → Type 0
Routine A = Action Call Reply Handles A

-- luaL_checkudata(L, i, LUA_FILEHANDLE)
abbrev pub handle_of : Option Value → Option ℤ
handle_of (some (userdata name h)) = if str_eq name "FILE*" then some h else none
handle_of _ = none

-- The descriptor of a stream, -1 where there is none.
pub descriptor_of : Option ℕ → Routine ℤ
descriptor_of none = pure minus_one
descriptor_of (some p) = do r ← call (fileno p); pure r.ret

-- What the functions return for the reply to their call.
abbrev pub reported : String → Reply → List Value
reported name r =
    if eqb_ℤ r.ret (pos 0)
    then boolean true ∷ []
    else boolean false ∷ errno_object r.errno name [] ∷ []

-- luaL_checkoption(L, i, fallback, options)
abbrev pub option_or : String → Option Value → Option Value
option_or fallback o = if is_none_or_nil o then some (string fallback) else o

-- The switch on the option's place in "rd", "wr", "rdwr".
pub how_of : String → Option How
how_of s =
    if str_eq s "rd"
    then some shut_rd
    else if str_eq s "wr"
    then some shut_wr
    else if str_eq s "rdwr"
    then some shut_rdwr
    else none

module _ (c : Conversions) where
  -- The descriptor that the first argument stands for.
  pub check_fd : List Value → Routine ℤ
  check_fd args =
      if is_number c (arg args 1)
      then (do v ← check_integer c args 1; pure (to_int v))
      else (do h ← checked 1 (handle_of (arg args 1)); s ← get; descriptor_of (s h).f)

  pub close_lua : List Value → Routine (List Value)
  close_lua args = do fd ← check_fd args; r ← call (close fd); pure (reported "close" r)

  pub check_how : List Value → Routine How
  check_how args = do
    s ← checked 2 (to_string c (option_or "rdwr" (arg args 2)))
    how ← (elim (how_of s) [
      | some h ↦ pure h
      | none ↦ raise (arg_error 2 "invalid option '%s'" (s ∷ []) [])
    ])
    pure how

  pub shutdown_lua : List Value → Routine (List Value)
  shutdown_lua args = do
    fd ← check_fd args
    how ← check_how args
    r ← call (shutdown fd how)
    pure (reported "shutdown" r)
