-- ===== src/Getopts/Tests.antt =====
-- lib/getopts.lua on a command line, and its theorems there.
use lua_testcase.Common.{◌≡◌, ◌∷◌, List, some, [], refl, false, true}
use lua_testcase.Lua.Format.{bytes_of}
use lua_testcase.Paths.{Text}
use lua_testcase.Getopts.{
  ok, err, start_options, getopts, parse_testcase, options_loop, option_round, break_at, names_loop,
  given_twice,
}
use lua_testcase.Getopts.Order.{merged, values_of, at_most_one, getopts_lem}

abbrev line : List Text
line =
    bytes_of "a_test.lua"
    ∷ bytes_of "--testcase=add,sub,add"
    ∷ bytes_of "--coverage"
    ∷ bytes_of "lib"
    ∷ []

parsed :
    getopts line
    ≡ some (
        ok (record {
          help = false;
          coverage = true;
          checkall = false;
          testcase = bytes_of "add" ∷ bytes_of "sub" ∷ [];
          paths = bytes_of "a_test.lua" ∷ bytes_of "lib" ∷ [];
        }))
unfolding getopts options_loop option_round break_at parse_testcase names_loop
parsed = refl

twice :
    getopts (bytes_of "--testcase=add" ∷ bytes_of "--testcase=sub" ∷ []) ≡ some (err given_twice)
unfolding getopts options_loop option_round break_at parse_testcase names_loop
twice = refl

getopts_lem_example : getopts line ≡ some (at_most_one (merged start_options line) (values_of line))
getopts_lem_example = getopts_lem line
