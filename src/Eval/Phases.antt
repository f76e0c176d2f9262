-- ===== src/Eval/Phases.antt =====
-- What the lines of a file make parse_inlineopt do: the phases before an inline option, at the line after it,
-- and after that line.
use lua_testcase.Common.{
  ℕ, zero, suc, ◌+◌, ◌==◌, ltb, Bool, true, false, not, List, [], ◌∷◌, ◌++◌, Option, none, some,
  if◌then◌else◌, length, ◌≡◌,
}
use lua_testcase.Paths.{Text}
use lua_testcase.Eval.{
  inline_opt, trim_space, valid_optval, is_placeholder, inline_code, invalid_value, already_defined,
  no_code, Result, nothing, replaced, error,
}

-- What a line says: nothing, an option with a value, or one with a value that is not valid.
pub data Says : Type 0 where
  no_option on off : Says
  bad : Text → Says

abbrev pub kind_of : Text → Option Bool → Says
kind_of v none = bad v
kind_of v (some true) = on
kind_of v (some false) = off

abbrev pub value_says : Option Text → Says
value_says none = no_option
value_says (some v) = kind_of (trim_space v) (valid_optval (trim_space v))

unfoldable pub says : Text → Says
says line = value_says (inline_opt line)

-- A line, and how many '\r' stand before its '\n'.
abbrev pub Line : Type 0
Line = Text × ℕ

abbrev pub line_break : ℕ → Text
line_break zero = b'\n' ∷ []
line_break (suc n) = b'\r' ∷ line_break n

-- A file: its lines, and what follows the last line break.
abbrev pub text_of : List Line → Text → Text
text_of [] last = last
text_of ((l, n) ∷ ls) last = l ++ (line_break n ++ text_of ls last)

abbrev pub is_nil : Text → Bool
is_nil [] = true
is_nil (c ∷ s) = false

-- No '\n', and no '\r' at the end.
abbrev pub is_line : Text → Bool
is_line [] = true
is_line (c ∷ l) =
    let rest = is_line l in
    if c == b'\n' then false else if is_nil l then not (c == b'\r') else rest

abbrev pub has_newline : Text → Bool
has_newline [] = false
has_newline (c ∷ s) = if c == b'\n' then true else has_newline s

abbrev pub AreLines : List Line → Type 0
AreLines [] = Unit
AreLines ((l, n) ∷ ls) = (is_line l ≡ true) × AreLines ls

-- What follows the last line break is looked at where it is longer than one byte.
abbrev pub is_long : Text → Bool
is_long last = ltb 1 (length last)

abbrev pub after_says : Result → ℕ → ℕ → Says → Result → Result
after_says r d n no_option next = next
after_says r d n on next = error (already_defined n d)
after_says r d n off next = error (already_defined n d)
after_says r d n (bad v) next = error (invalid_value v n)

-- After the line of the code, where r is the result so far, and d the line of the option.
abbrev pub after : Result → ℕ → ℕ → List Line → Text → Result
after r d n [] last = if is_long last then after_says r d (n + 1) (says last) r else r
after r d n ((l, k) ∷ ls) last =
    let rest = after r d (n + 1) ls last in after_says r d (n + 1) (says l) rest

-- At the line after the option, which is line n.
abbrev pub expects : Text → ℕ → List Line → Text → Result
expects acc n [] last =
    if is_long last
    then (if is_placeholder last
        then replaced (acc ++ (inline_code ++ []))
        else error (no_code (n + 1)))
    else error (no_code n)
expects acc n ((l, k) ∷ ls) last =
    if is_placeholder l
    then after (replaced (acc ++ (inline_code ++ (line_break k ++ text_of ls last)))) n (n + 1) ls
        last
    else error (no_code (n + 1))

abbrev pub last_says : ℕ → Says → Result
last_says n no_option = nothing
last_says n off = nothing
last_says n on = error (no_code n)
last_says n (bad v) = error (invalid_value v n)

abbrev pub before_says : ℕ → Says → Result → Result → Result
before_says n no_option next found = next
before_says n off next found = next
before_says n on next found = found
before_says n (bad v) next found = error (invalid_value v n)

-- Before an option that is on, where acc are the lines so far.
abbrev pub before : Text → ℕ → List Line → Text → Result
before acc n [] last = if is_long last then last_says (n + 1) (says last) else nothing
before acc n ((l, k) ∷ ls) last =
    let acc' = (acc ++ l) ++ line_break k in
    let next = before acc' (n + 1) ls last in
    before_says (n + 1) (says l) next (expects acc' (n + 1) ls last)
