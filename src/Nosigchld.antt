-- ===== src/Nosigchld.antt =====
-- src/nosigchld.c, where SIGCHLD is defined: the handler of SIGCHLD that does nothing. The state of a
-- run is the closure's userdatum; sigaction is a call of the system.
pub mod Disposition
mod Tests
use lua_testcase.Lua.Args.{to_boolean, arg}
use lua_testcase.Lua.{Value, boolean, strerror}
use lua_testcase.Lua.Run.{Action, ◌>>=◌, call, ◌>>◌, put, get, pure, when}
use lua_testcase.Common.Int.{ℤ, eqb_ℤ, pos}
use lua_testcase.Common.{ℕ, List, false, Bool, not, true, if◌then◌else◌, ◌∷◌, []}

-- What a struct sigaction says: the handler of the module, or any other disposition. Zero bytes are
-- a disposition too.
pub data Handling : Type 0 where
  noop : Handling
  other : ℕ → Handling

-- nosigchld_t, whose field noop does not change.
pub record Nosigchld : Type 0 where
  pub saved : Handling
  pub enabled : Bool

-- sigaction(SIGCHLD, &noop, &saved) and sigaction(SIGCHLD, &saved, NULL)
pub data Call : Type 0 where
  install : Call
  restore : Handling → Call

-- The return value, errno, and what is stored through the last argument.
pub record Reply : Type 0 where
  pub ret : ℤ
  pub errno : ℕ
  pub old : Handling

abbrev pub succeeded : Reply → Bool
succeeded r = eqb_ℤ r.ret (pos 0)

abbrev eqb : Bool → Bool → Bool
eqb true b = b
eqb false b = not b

abbrev pub Routine : Type 0 → Type 0
Routine A = Action Call Reply Nosigchld A

-- luaopen_testcase_nosigchld: memset, and the handler.
pub new : Nosigchld
new = record { saved = other 0; enabled = false }

-- The change of the handler, with errno after it.
change : Nosigchld → Bool → Routine ℕ
change s true = do
  r ← call install
  put (
      if succeeded r
      then record { saved = r.old; enabled = true }
      else record s { enabled = false })
  pure r.errno
change s false = do
  r ← call (restore s.saved)
  when (succeeded r) (put (record s { enabled = false }))
  pure r.errno

set_enabled : Bool → Routine (List Value)
set_enabled enabled = do
  s ← get
  errno ← (if not (eqb s.enabled enabled) then change s enabled else pure 0)
  s' ← get
  pure (if eqb s'.enabled enabled then boolean true ∷ [] else boolean false ∷ strerror errno ∷ [])

pub nosigchld_lua : List Value → Routine (List Value)
nosigchld_lua args = set_enabled (to_boolean (arg args 1))
