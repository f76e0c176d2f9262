-- ===== src/Iohook.antt =====
-- lib/iohook.lua: what is printed while a function runs, by print or to stdout and stderr, goes to hook
-- functions. A function is known by a number; a call of one is an event, and does not itself print or hook.
pub mod Sessions
mod Tests
use lua_testcase.Common.{
  ℕ, Bool, true, false, String, List, [], ◌∷◌, ◌++◌, Option, none, some, if◌then◌else◌, ◌⊎◌, inl,
  inr,
}
use lua_testcase.Paths.{Text}

-- A call of a hook function, or a write to the real output.
pub data Event : Type 0 where
  called : ℕ → List Text → Event
  written : List Text → Event

-- The local variables, whether _G.print, _G.io.stdout and _G.io.stderr are replaced, and what has happened. The
-- default functions, which do nothing, are none.
pub record Hooks : Type 0 where
  pub is_blocked : Bool
  pub is_hooked : Bool
  pub on_start : Option ℕ
  pub on_hook : Option ℕ
  pub on_end : Option ℕ
  pub replaced : Bool
  pub log : List Event

abbrev pub start : Hooks
start = record {
  is_blocked = false;
  is_hooked = false;
  on_start = none;
  on_hook = none;
  on_end = none;
  replaced = false;
  log = [];
}

abbrev pub event : Option ℕ → List Text → List Event
event none args = []
event (some f) args = called f args ∷ []

abbrev pub block : Hooks → Hooks
block h = record h { is_blocked = true }

abbrev pub unblock : Hooks → Hooks
unblock h = record h { is_blocked = false }

abbrev started : Hooks → Hooks
started h =
    if h.is_hooked then h else record h { is_hooked = true; log = h.log ++ event h.on_start [] }

unfoldable pub printout : List Text → Hooks → Hooks
printout args h =
    let h' = started h in
    if h.is_blocked then h else record h' { log = h'.log ++ event h'.on_hook args }

-- print, and write to stdout or stderr.
unfoldable pub print : List Text → Hooks → Hooks
print args h = if h.replaced then printout args h else record h { log = h.log ++ written args ∷ [] }

-- An argument of hook: nil or false, a function, or a value of another type.
pub data Argument : Type 0 where
  absent : Argument
  function : ℕ → Argument
  other : String → Argument

-- A function or the default, or the type that is refused.
abbrev pub checked : Argument → Option ℕ ⊎ String
checked absent = inl none
checked (function f) = inl (some f)
checked (other t) = inr t

-- The number of the argument that is refused, and its type.
abbrev pub install :
    Option ℕ ⊎ String → Option ℕ ⊎ String → Option ℕ ⊎ String → Hooks → Option (ℕ × String) × Hooks
install (inr t) s e h = (some (1, t), h)
install (inl f) (inr t) e h = (some (2, t), h)
install (inl f) (inl s) (inr t) h = (some (3, t), h)
install (inl f) (inl s) (inl e) h =
    (none, record h { on_hook = f; on_start = s; on_end = e; is_hooked = false; replaced = true })

unfoldable pub hook : Argument → Argument → Argument → Hooks → Option (ℕ × String) × Hooks
hook hookfn startfn endfn h = install (checked hookfn) (checked startfn) (checked endfn) h

abbrev ended : Hooks → Hooks
ended h =
    if h.is_hooked then record h { is_hooked = false; log = h.log ++ event h.on_end [] } else h

unfoldable pub unhook : Hooks → Hooks
unhook h =
    let h' = ended (record h { replaced = false }) in
    record h' { on_hook = none; on_start = none; on_end = none }
