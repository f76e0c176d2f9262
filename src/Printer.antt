-- ===== src/Printer.antt =====
-- lib/printer.lua: parse_format, which finds the parameters of a format, and printline, on the text that
-- vstringify makes of its arguments.
pub mod Loops
pub mod Formats
pub mod Lines
mod Tests
use lua_testcase.Common.{
  ℕ, zero, suc, ◌+◌, ◌-◌, ◌==◌, ltb, Bool, true, false, List, [], ◌∷◌, ◌++◌, Option, none, some,
  if◌then◌else◌, take, drop, length,
}
use lua_testcase.Paths.{Text}

-- The position of the '%' that is open, or 0, the number of parameters, and the calls of the callback.
pub record Parsed : Type 0 where
  pub position : ℕ
  pub nparam : ℕ
  pub params : List (Text × ℕ)

-- sub(s, i, i)
abbrev pub char_at : ℕ → Text → Text
char_at i s = take 1 (drop (i - 1) s)

abbrev pub found : Text → Parsed → Parsed
found s p = record p {
  nparam = p.nparam + 1;
  params = p.params ++ (char_at (p.position + 1) s, p.nparam + 1) ∷ [];
}

abbrev closed : Text → ℕ → Parsed → Parsed
closed s i p =
    let p' = if ltb 1 (i - p.position) then found s p else p in record p' { position = 0 }

unfoldable pub step : Text → ℕ → ℕ → Parsed → Parsed
step s i c p =
    if c == b'%'
    then record p { position = if p.position == 0 then i else 0 }
    else if ltb 0 p.position
    then (if c == b' ' then closed s i p else p)
    else p

-- The loop, from position i on.
unfoldable pub parse_loop : Text → ℕ → Text → Parsed → Parsed
parse_loop s i [] p = p
parse_loop s i (c ∷ r) p = parse_loop s (i + 1) r (step s i c p)

abbrev pub last_param : Text → Parsed → Parsed
last_param s p = if ltb 0 p.position then found s p else p

-- The result, with the calls of the callback.
unfoldable pub parse_format : Text → ℕ × List (Text × ℕ)
parse_format s =
    let p = last_param s (parse_loop s 1 s (record { position = 0; nparam = 0; params = [] })) in
    (p.nparam, p.params)

abbrev pub starts_line : Text → Bool
starts_line [] = false
starts_line (x ∷ s) = x == b'\n'

abbrev pub after_first : Text → Text
after_first [] = []
after_first (x ∷ s) = s

-- Where x is kept before the line break.
abbrev pub keep : ℕ → Option (Text × Text) → Option (Text × Text)
keep x none = none
keep x (some (line, rest)) = some (x ∷ line, rest)

-- find(s, '\r?\n'): what stands before the first line break, and after it.
unfoldable pub find_newline : Text → Option (Text × Text)
find_newline [] = none
find_newline (x ∷ s) =
    let rest = find_newline s in
    if x == b'\n'
    then some ([], s)
    else if x == b'\r'
    then (if starts_line s then some ([], after_first s) else keep x rest)
    else keep x rest

abbrev pub rest_of : Text → Text → List Text
rest_of prefix [] = []
rest_of prefix (x ∷ s) = prefix ∷ (x ∷ s) ∷ []

-- The texts that are written: the lines, each after the prefix, and what is left.
unfoldable pub print_lines : ℕ → Text → Text → Option (List Text)
print_lines zero prefix s = none
print_lines (suc fuel) prefix s = elim (find_newline s) [
  | none ↦ some (rest_of prefix s)
  | some (line, rest) ↦ elim (print_lines fuel prefix rest) [
    | none ↦ none
    | some ws ↦ some (prefix ∷ line ∷ (b'\n' ∷ []) ∷ ws)
  ]
]

abbrev pub with_suffix : Option Text → List Text → List Text
with_suffix none ws = ws
with_suffix (some suffix) ws = ws ++ suffix ∷ []

abbrev pub suffixed : Option Text → Option (List Text) → Option (List Text)
suffixed suffix none = none
suffixed suffix (some ws) = some (with_suffix suffix ws)

unfoldable pub printline : Option Text → Option Text → Text → Option (List Text)
printline none suffix s = suffixed suffix (some (s ∷ []))
printline (some prefix) suffix s = suffixed suffix (print_lines (suc (length s)) prefix s)
