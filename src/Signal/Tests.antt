-- ===== src/Signal/Tests.antt =====
-- src/signal.c on a system with a few of Linux's signals, and its theorems at concrete inputs.
use lua_testcase.Signal.Dispositions.{
  Request, session, ignores, disposition, Disposition, handler, by_text, seen, opens_nosigpipe,
  ignored, session-seen, by_number, default, restores, kills,
}
use lua_testcase.Lua.Plain.{plain}
use lua_testcase.Common.{
  ◌≡◌, ◌↔◌, refl, true, String, List, [], ◌∷◌, Option, none, some, str_eq, IsOneOf, if◌then◌else◌,
  arith,
}
use lua_testcase.Common.Int.{ℤ, pos, to_int, eqb_ℤ, minus_one}
use lua_testcase.Lua.{boolean, integer, string}
use lua_testcase.Lua.Run.{Kernel, returned}
use lua_testcase.Signal.{
  Entry, Platform, signal_names, signals, fold_case, lookup_by_name, lookup_by_num,
}
use lua_testcase.Signal.Lookup.{lookup_by_name_iff, lookup_by_name-lookup_by_num}
use lua_testcase.Signal.Names.{
  text, number, array, integer as slot_integer, raw_get, raw_set, add_name, add_entry, signames,
}
use lua_testcase.Signal.Names.Texts.{signames_of_text}
use lua_testcase.Signal.Calls.{Call, kill, Reply, kill_lua, sigignore_lua, sigdefault_lua, ignore}
use lua_testcase.Nosigpipe.{luaopen_nosigpipe}

abbrev value_of : String → List (String × ℤ) → Option ℤ
value_of s [] = none
value_of s ((n, v) ∷ l) = if str_eq s n then some v else value_of s l

abbrev linux : Platform
linux s = value_of s (
    ("SIGHUP", pos 1)
    ∷ ("SIGABRT", pos 6)
    ∷ ("SIGIOT", pos 6)
    ∷ ("SIGTERM", pos 15)
    ∷ ("SIGIO", pos 29)
    ∷ ("SIGPOLL", pos 29)
    ∷ [])

abbrev willing : Kernel Call Reply
willing t c = record { ret = pos 0; errno = 0 }

abbrev sigpoll : Entry
sigpoll = record { name = "SIGPOLL"; num = pos 29 }

abbrev sigterm : Entry
sigterm = record { name = "SIGTERM"; num = pos 15 }

pollable : lookup_by_name (signals linux) "SigIO" ≡ some (record { name = "SIGIO"; num = pos 29 })
unfolding signals lookup_by_name fold_case
pollable = refl

term_to_42 : kill_lua linux plain (string "sigterm" ∷ integer (pos 42) ∷ []) willing tt [] ≡ (
  returned (boolean true ∷ []),
  tt,
  (kill (pos 42) (pos 15), record { ret = pos 0; errno = 0 }) ∷ [],
)
unfolding kill_lua signals lookup_by_name fold_case to_int
term_to_42 = refl

lookup_by_name_iff_example : (lookup_by_name (signals linux) "sigterm" ≡ some sigterm) ↔ (
    IsOneOf "SIGTERM" signal_names
    × (linux "SIGTERM" ≡ some (pos 15))
    × (fold_case "sigterm" ≡ fold_case "SIGTERM"))
lookup_by_name_iff_example = lookup_by_name_iff linux "sigterm" sigterm

lookup_by_name-lookup_by_num_example :
    (lookup_by_name (signals linux) "SIGPOLL" ≡ some sigpoll) × (sigpoll.num ≡ pos 29)
unfolding signals lookup_by_num
lookup_by_name-lookup_by_num_example = lookup_by_name-lookup_by_num linux (pos 29) sigpoll refl

two_names :
    raw_get (number (pos 29)) (signames (signals linux)) ≡ some (array ("SIGPOLL" ∷ "SIGIO" ∷ []))
unfolding signals signames raw_get raw_set add_entry add_name
two_names = refl

signames_of_text_example :
    (raw_get (text "SIGIOT") (signames (signals linux)) ≡ some (slot_integer (pos 6))) ↔ (
      (v : ℤ) × (slot_integer (pos 6) ≡ slot_integer v)
      × IsOneOf "SIGIOT" signal_names
      × (linux "SIGIOT" ≡ some v))
signames_of_text_example = signames_of_text linux "SIGIOT" (slot_integer (pos 6))

-- A system with SIGPIPE that refuses to change the disposition of SIGHUP.
abbrev piped : Platform
piped s = if str_eq s "SIGPIPE" then some (pos 13) else linux s

abbrev refusing : Kernel Call Reply
refusing t (ignore v) =
    if eqb_ℤ v (pos 1)
    then record { ret = minus_one; errno = 22 }
    else record { ret = pos 0; errno = 0 }
refusing t c = record { ret = pos 0; errno = 0 }

abbrev requests : List Request
requests =
    ignores (by_text "sigterm") []
    ∷ opens_nosigpipe
    ∷ ignores (by_number (pos 1)) []
    ∷ ignores (by_text "SIGFOO") []
    ∷ restores (by_number (pos 15)) []
    ∷ kills (by_text "SIGHUP") (integer (pos 42) ∷ [])
    ∷ []

session-seen_example :
    let (h, t) = session piped plain refusing requests [] [] in
    disposition (λ v. handler 7) (pos 15) t ≡ seen piped plain (λ v. handler 7) (pos 15) h
session-seen_example =
    session-seen piped plain (λ v. handler 7) refusing (pos 15) requests (λ sig t is. ground arith)

all_seen :
    let (h, t) = session piped plain refusing requests [] [] in
    let first : ℤ → Disposition = λ v. handler 7 in
    (seen piped plain first (pos 1) h ≡ handler 7)
    × (seen piped plain first (pos 13) h ≡ ignored)
    × (seen piped plain first (pos 15) h ≡ default)
unfolding session kill_lua sigignore_lua sigdefault_lua luaopen_nosigpipe signals lookup_by_name
    fold_case to_int
all_seen = (refl, refl, refl)
