-- ===== src/Readdir.antt =====
-- src/readdir.c: a callback on the entries of a directory. The callback is a call, like those of the
-- system; the state of a run is errno and the height of the Lua stack.
pub mod Visits
pub mod Ends
mod Tests
use lua_testcase.Lua.Args.{check_string, check_function}
use lua_testcase.Common.{
  Bool, String, Option, ℕ, true, some, none, List, if◌then◌else◌, false, suc, ◌+◌, ◌==◌, not, ltb,
  ◌&&◌, [], zero,
}
use lua_testcase.Lua.{Conversions, Value, nil, error_object, errno_object}
use lua_testcase.Lua.Run.{Action, pure, ◌>>=◌, ◌>>◌, get, call, put}

pub data Call : Type 0 where
  opendir : String → Call
  readdir closedir : Call
  call_back : Value → String → Call  -- lua_pcall of the function on a name

-- How lua_pcall ends: with an error value, or with the result.
pub data Answer : Type 0 where
  failed : Value → Answer
  answered : Value → Answer

-- Whether opendir gives a stream, the entry of readdir (none for NULL), the answer of the callback,
-- and the errno that a call sets, if it sets it.
pub record Reply : Type 0 where
  pub opened : Bool
  pub entry : Option String
  pub answer : Answer
  pub errno : Option ℕ

pub record Machine : Type 0 where
  pub errno : ℕ
  pub top : ℕ

abbrev pub Routine : Type 0 → Type 0
Routine A = Action Call Reply Machine A

abbrev pub or_kept : Option ℕ → ℕ → ℕ
or_kept none old = old
or_kept (some e) old = e

-- A call, and what it does to errno.
abbrev pub system : Call → Routine Reply
system c = do r ← call c; s ← get; put (record s { errno = or_kept r.errno s.errno }); pure r

abbrev pub set_errno : ℕ → Routine (Unit {0})
set_errno e = do s ← get; put (record s { errno = e })

abbrev pub is_nil : Value → Bool
is_nil nil = true
is_nil _ = false

-- lua_settop
abbrev pub set_top : ℕ → Routine (Unit {0})
set_top n = do s ← get; put (record s { top = n })

-- The function and the name are pushed, and lua_pcall leaves its answer in their place.
abbrev pub pcall : Value → String → Routine Reply
pcall f name = do a ← system (call_back f name); s ← get; put (record s { top = s.top + 1 }); pure a

-- What follows the loop.
pub finish : Routine (Option Value)
finish = do
  system closedir
  s ← get
  pure (some (if s.errno == 0 then nil else errno_object s.errno "readdir" []))

-- What is done with the callback's answer; `rest` is the rest of the loop.
pub after : Answer → Routine (Option Value) → Routine (Option Value)
after (failed v) rest = do system closedir; pure (some (error_object v))
after (answered v) rest = do
  s ← get
  if ltb 2 s.top && not (is_nil v) then system closedir >> pure (some v) else set_errno 0 >> rest

-- What is done with an entry of readdir.
pub step : Option String → Value → Routine (Option Value) → Routine (Option Value)
step none f rest = finish
step (some name) f rest = do a ← pcall f name; after a.answer rest

-- The loop; none where the fuel does not suffice.
pub visit_entries : Value → ℕ → Routine (Option Value)
visit_entries f zero = pure none
visit_entries f (suc fuel) = do e ← system readdir; step e.entry f (visit_entries f fuel)

pub start : Reply → Value → ℕ → Routine (Option Value)
start o f fuel =
    if o.opened
    then set_errno 0 >> visit_entries f fuel
    else do s ← get; pure (some (errno_object s.errno "readdir" []))

module _ (c : Conversions) where
  pub readdir_lua : ℕ → List Value → Routine (Option Value)
  readdir_lua fuel args = do
    path ← check_string c args 1
    f ← check_function args 2
    set_top 2
    o ← system (opendir path)
    start o f fuel
