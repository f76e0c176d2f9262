-- ===== src/Descriptor/Options.antt =====
-- The option of src/shutdown.c.
use lua_testcase.Common.{
  String, List, ◌∷◌, [], ◌≡◌, arith, refl, Option, none, if◌then◌else◌, some, str_eq,
}
use lua_testcase.Common.Int.{ℤ, to_int}
use lua_testcase.Lua.Run.{Kernel, raised, Outcome, Trace}
use lua_testcase.Lua.{Conversions, Value, integer, nil, string, arg_error}
use lua_testcase.Common.{eq_iff}
use lua_testcase.Descriptor.{
  shutdown_lua, check_fd, check_how, how_of, Call, Reply, Handles, How, shutdown, shut_rdwr,
  shut_rd, shut_wr,
}
use lua_testcase.Descriptor.Handles.{after}

-- The documented options.
abbrev pub documented : List (String × How)
documented = ("rd", shut_rd) ∷ ("wr", shut_wr) ∷ ("rdwr", shut_rdwr) ∷ []

abbrev pub listed : String → List (String × How) → Option How
listed o [] = none
listed o ((n, how) ∷ l) = if str_eq n o then some how else listed o l

module _ (c : Conversions) (k : Kernel Call Reply) (s : Handles) (v : ℤ) where
  abbrev pub expected : String → Option How → Outcome (List Value) × Handles × Trace Call Reply
  expected o (some how) = after k s [] "shutdown" (shutdown (to_int v) how)
  expected o none = (raised (arg_error 2 "invalid option '%s'" (o ∷ []) []), s, [])

  -- Given an integer for the descriptor, and any text, shutdown acts on that descriptor as the list of
  -- documented options says, and for a text that is not listed raises an argument error that names it,
  -- with nothing shut down; an option that is nil or left out is "rdwr".
  shutdown_lua_option :
      (o : String)
      → let run = λ (args : List Value). shutdown_lua c (integer v ∷ args) k s [] in
        (run (string o ∷ []) ≡ expected o (listed o documented))
        × (run [] ≡ expected "rdwr" (listed "rdwr" documented))
        × (run (nil ∷ []) ≡ expected "rdwr" (listed "rdwr" documented))
  unfolding shutdown_lua check_fd check_how how_of
  shutdown_lua_option o = (
    ground (
      arith,
      eq_iff o "rd",
      eq_iff o "wr",
      eq_iff o "rdwr",
      eq_iff "rd" o,
      eq_iff "wr" o,
      eq_iff "rdwr" o,
    ),
    refl,
    refl,
  )
