-- ===== src/Eval/Tests.antt =====
-- Runs of parse_inlineopt, and its theorem on a file.
use lua_testcase.Common.{List, [], ◌∷◌, ◌++◌, ◌≡◌, refl}
use lua_testcase.Lua.Format.{bytes_of}
use lua_testcase.Paths.{Text}
use lua_testcase.Eval.{
  parse_inlineopt, parse_lines, checkline, find_break, inline_opt, is_placeholder, nothing,
  replaced, error, no_code, invalid_value, inline_code, trim_space,
}
use lua_testcase.Eval.Phases.{Line, text_of, before, AreLines}
use lua_testcase.Eval.Replaced.{MayGive, parse_inlineopt-MayGive}
use lua_testcase.Eval.Inline.{parse_inlineopt-before}

abbrev lines : List Line
lines =
    (bytes_of "local m = {}", 1)
    ∷ (bytes_of "-- lua-testcase: true ", 0)
    ∷ (bytes_of "local testcase = {} local x = 1", 0)
    ∷ []

abbrev last : Text
last = bytes_of "return m"

parse_inlineopt-before_example : parse_inlineopt (text_of lines last) ≡ before [] 0 lines last
parse_inlineopt-before_example =
    let good : AreLines lines = (refl, (refl, (refl, tt))) in
    parse_inlineopt-before lines last good refl

parse_inlineopt-MayGive_example :
    MayGive (text_of lines last) (parse_inlineopt (text_of lines last))
parse_inlineopt-MayGive_example = parse_inlineopt-MayGive (text_of lines last)

parsing : Unit {0}
unfolding parse_inlineopt parse_lines checkline find_break inline_opt is_placeholder
parsing = tt

-- All of the line is replaced, with what follows the placeholder.
replaces :
    parse_inlineopt (text_of lines last)
    ≡ replaced (
        bytes_of "local m = {}\r\n-- lua-testcase: true \n"
        ++ (inline_code ++ bytes_of "\nreturn m"))
unfolding parsing
replaces = refl

off : parse_inlineopt (bytes_of "-- lua-testcase: false\n") ≡ nothing
unfolding parsing
off = refl

-- The error names the line after that of the option.
next_line : parse_inlineopt (bytes_of "-- lua-testcase: true\nreturn 1\n") ≡ error (no_code 2)
unfolding parsing
next_line = refl

wrong : parse_inlineopt (bytes_of "--lua-testcase: foo") ≡ error (invalid_value (bytes_of "foo") 1)
unfolding parsing
wrong = refl

trimmed : trim_space (bytes_of " \ta b\n ") ≡ bytes_of "a b"
trimmed = refl
