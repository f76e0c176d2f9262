-- ===== src/Eval.antt =====
-- lib/eval.lua: parse_inlineopt and checkline, which find the line of the inline option and put the code that
-- loads the module in place of the line after it; and trim.space of lib/trim.lua. The patterns are matched
-- by functions that go through the text once, as no part of one can take what the next part needs.
pub mod Phases
pub mod Breaks
pub mod Checks
pub mod Inline
pub mod Splits
pub mod Replaced
mod Tests
use lua_testcase.Common.{
  ℕ, zero, suc, ◌+◌, ◌-◌, ◌==◌, ltb, Bool, true, false, List, [], ◌∷◌, ◌++◌, Option, none, some,
  if◌then◌else◌, take, drop, length,
}
use lua_testcase.Lua.Format.{bytes_of}
use lua_testcase.Paths.{Text, same}

-- %s
abbrev pub is_space : ℕ → Bool
is_space c = if c == b' ' then true else if ltb c 9 then false else ltb c 14

abbrev pub skip_space : Text → Text
skip_space [] = []
skip_space (c ∷ s) = let rest = skip_space s in if is_space c then rest else c ∷ s

abbrev is_blank : Text → Bool
is_blank [] = true
is_blank (c ∷ s) = if is_space c then is_blank s else false

-- The text without the space at its end.
abbrev drop_space : Text → Text
drop_space [] = []
drop_space (c ∷ s) = let rest = drop_space s in if is_blank (c ∷ s) then [] else c ∷ rest

abbrev pub trim_space : Text → Text
trim_space s = drop_space (skip_space s)

-- What follows a literal text, or one space or '-' at least with all that follow it.
abbrev literal : Text → Text → Option Text
literal [] s = some s
literal (c ∷ t) [] = none
literal (c ∷ t) (d ∷ s) = if c == d then literal t s else none

abbrev spaces : Text → Option Text
spaces [] = none
spaces (c ∷ s) = if is_space c then some (skip_space s) else none

abbrev skip_dashes : Text → Text
skip_dashes [] = []
skip_dashes (c ∷ s) = let rest = skip_dashes s in if c == b'-' then rest else c ∷ s

abbrev dashes : Text → Option Text
dashes [] = none
dashes (c ∷ s) = if c == b'-' then some (skip_dashes s) else none

abbrev then_match : Option Text → (Text → Option Text) → Option Text
then_match none f = none
then_match (some s) f = f s

-- find(line, INLINE_OPT): what follows the match.
unfoldable pub inline_opt : Text → Option Text
inline_opt line =
    then_match (dashes (skip_space line)) (λ s.
      then_match (literal (bytes_of "lua-testcase:") (skip_space s)) (λ s. some (skip_space s)))

abbrev is_some : Option Text → Bool
is_some none = false
is_some (some s) = true

-- find(line, PLACEHOLDER)
unfoldable pub is_placeholder : Text → Bool
is_placeholder line = is_some (
    then_match (literal (bytes_of "local") (skip_space line)) (λ s. then_match (spaces s) (λ s.
      then_match (literal (bytes_of "testcase") s) (λ s.
        then_match (literal (bytes_of "=") (skip_space s)) (λ s.
          then_match (literal (bytes_of "{") (skip_space s))
            (λ s. literal (bytes_of "}") (skip_space s)))))))

-- VALID_OPTVAL
abbrev pub valid_optval : Text → Option Bool
valid_optval v =
    if same v (bytes_of "true")
    then some true
    else if same v (bytes_of "false")
    then some false
    else none

abbrev pub inline_code : Text
inline_code = bytes_of "local testcase = require('testcase')"

-- EINVAL, EALREADY and ENOCODE, with what is formatted into them.
pub data Invalid : Type 0 where
  invalid_value : Text → ℕ → Invalid
  already_defined : ℕ → ℕ → Invalid
  no_code : ℕ → Invalid

pub record Context : Type 0 where
  pub chknext : Bool
  pub decl : Option (ℕ × ℕ)
  pub defline : Option ℕ

abbrev pub no_context : Context
no_context = record { chknext = false; decl = none; defline = none }

pub data Checked : Type 0 where
  fine : Context → Checked
  invalid : Invalid → Checked

abbrev pub defined : Context → ℕ → Option ℕ → Bool → Checked
defined ctx lineno (some n) ok = invalid (already_defined lineno n)
defined ctx lineno none true = fine (record ctx { chknext = true; defline = some lineno })
defined ctx lineno none false = fine ctx

abbrev pub check_value : Context → Text → ℕ → Option Bool → Checked
check_value ctx optval lineno none = invalid (invalid_value optval lineno)
check_value ctx optval lineno (some ok) = defined ctx lineno ctx.defline ok

abbrev pub check_option : Context → ℕ → Option Text → Checked
check_option ctx lineno none = fine ctx
check_option ctx lineno (some value) =
    check_value ctx (trim_space value) lineno (valid_optval (trim_space value))

unfoldable pub checkline : Context → Text → ℕ → ℕ → ℕ → Checked
checkline ctx line lineno head tail =
    let option = check_option ctx lineno (inline_opt line) in
    if ctx.chknext
    then (if is_placeholder line
        then fine (record ctx { chknext = false; decl = some (head, tail) })
        else invalid (no_code lineno))
    else option

-- How many bytes '\r*\n' takes at the start of the text.
abbrev pub break_length : Text → Option ℕ
break_length [] = none
break_length (c ∷ s) =
    let rest = break_length s in
    if c == b'\n'
    then some 1
    else if c == b'\r'
    then (elim rest [ none ↦ none | some n ↦ some (suc n) ])
    else none

abbrev pub further : Option (ℕ × ℕ) → Option (ℕ × ℕ)
further none = none
further (some (n, m)) = some (suc n, m)

-- find(s, CRLF): how many bytes stand before the line break, and how many it has.
unfoldable pub find_break : Text → Option (ℕ × ℕ)
find_break [] = none
find_break (c ∷ s) =
    let rest = find_break s in
    elim (break_length (c ∷ s)) [ some m ↦ some (0, m) | none ↦ further rest ]

pub data Result : Type 0 where
  nothing : Result
  replaced : Text → Result
  error : Invalid → Result
  out_of_fuel : Result

-- The end of parse_inlineopt.
abbrev pub finish : Text → Context → ℕ → Option (ℕ × ℕ) → Result
finish s ctx lineno (some (head, tail)) =
    replaced (take (head - 1) s ++ (inline_code ++ drop tail s))
finish s ctx lineno none = if ctx.chknext then error (no_code lineno) else nothing

abbrev pub concluded : Text → ℕ → Checked → Result
concluded s lineno (invalid e) = error e
concluded s lineno (fine ctx) = finish s ctx lineno ctx.decl

abbrev pub continued : (Context → Result) → Checked → Result
continued next (invalid e) = error e
continued next (fine ctx) = next ctx

-- One round of the loop, or what follows it, where r is the text from pos on.
abbrev pub line_round :
    (Text → ℕ → ℕ → Context → Result) → Text → Text → ℕ → ℕ → Context → Option (ℕ × ℕ) → Result
line_round next s r pos lineno ctx (some (n, m)) =
    continued (next (drop (n + m) r) ((pos + n) + m) (lineno + 1))
      (checkline ctx (take n r) (lineno + 1) pos ((pos + n) - 1))
line_round next s r pos lineno ctx none =
    if ltb pos (length s)
    then concluded s (lineno + 1) (checkline ctx r (lineno + 1) pos (length s))
    else concluded s lineno (fine ctx)

unfoldable pub parse_lines : Text → ℕ → Text → ℕ → ℕ → Context → Result
parse_lines s zero r pos lineno ctx = out_of_fuel
parse_lines s (suc fuel) r pos lineno ctx =
    line_round (parse_lines s fuel) s r pos lineno ctx (find_break r)

unfoldable pub parse_inlineopt : Text → Result
parse_inlineopt s = parse_lines s (suc (length s)) s 1 0 no_context
