-- ===== src/Printer/Lines.antt =====
-- What printline writes.
use mathlib.Core.List.{append-nil, append_assoc}
use lua_testcase.Common.{
  ℕ, zero, suc, ◌==◌, ◌<◌, Bool, true, false, List, [], ◌∷◌, ◌++◌, Option, none, some,
  if◌then◌else◌, length, ◌≡◌, refl, arith, inl, inr, Bool-cases, Option-cases, ap, ◌∙◌, sym,
}
use lua_testcase.Paths.{Text}
use lua_testcase.Printer.{
  starts_line, after_first, keep, find_newline, print_lines, printline, with_suffix, suffixed,
}

abbrev pub joined : List Text → Text
joined [] = []
joined (w ∷ ws) = w ++ joined ws

-- The text with its line breaks as "\n".
unfoldable pub unix : Text → Text
unix [] = []
unix (x ∷ s) =
    let rest = unix s in if x == b'\r' then (if starts_line s then rest else x ∷ rest) else x ∷ rest

-- The text with the prefix before each line that has anything or a line break; the flag says that a line begins.
unfoldable pub indent : Text → Bool → Text → Text
indent prefix begins [] = []
indent prefix begins (x ∷ s) = (if begins then prefix else []) ++ (x ∷ indent prefix (x == b'\n') s)

abbrev pub suffix_text : Option Text → Text
suffix_text none = []
suffix_text (some s) = s

-- A text that begins with a line break.
unix_break :
    (s : Text)
    → starts_line s ≡ true
    → (unix s ≡ b'\n' ∷ unix (after_first s)) × (length (after_first s) < length s)
unfolding unix
unix_break [] h = absurd (cc h)
unix_break (x ∷ s) h = (ground (arith, h), omega arith)

find-keep :
    (x : ℕ) (s : Text)
    → (x == b'\n') ≡ false
    → (if x == b'\r' then starts_line s else false) ≡ false
    → (find_newline (x ∷ s) ≡ keep x (find_newline s)) × (unix (x ∷ s) ≡ x ∷ unix s)
unfolding find_newline unix
find-keep x s n r = (ground (arith, n, r), ground (arith, r))

find-break :
    (x : ℕ) (s : Text)
    → (x == b'\n') ≡ false
    → (if x == b'\r' then starts_line s else false) ≡ true
    → (find_newline (x ∷ s) ≡ some ([], after_first s)) × (unix (x ∷ s) ≡ unix s)
unfolding find_newline unix
find-break x s n r = (ground (arith, n, r), ground (arith, r))

-- What find_newline finds is where the text with the prefixes breaks.
abbrev Breaks : Text → Text → Option (Text × Text) → Type 0
Breaks prefix s none = indent prefix false (unix s) ≡ s
Breaks prefix s (some (line, rest)) =
    (indent prefix false (unix s) ≡ line ++ (b'\n' ∷ indent prefix true (unix rest)))
    × (length rest < length s)

Breaks-keep :
    (prefix s : Text) (x : ℕ) (o : Option (Text × Text))
    → (x == b'\n') ≡ false
    → unix (x ∷ s) ≡ x ∷ unix s
    → Breaks prefix s o
    → Breaks prefix (x ∷ s) (keep x o)
unfolding indent
Breaks-keep prefix s x none n u h = rw (u, n) (ap (◌∷◌ x) h)
Breaks-keep prefix s x (some (line, rest)) n u h = (rw (u, n) (ap (◌∷◌ x) h.0), omega (arith, h.1))

find_newline-Breaks : (prefix s : Text) → Breaks prefix s (find_newline s)
unfolding find_newline unix indent
find_newline-Breaks prefix [] = refl
find_newline-Breaks prefix (x ∷ s) = elim (Bool-cases (x == b'\n')) [
  | inl n ↦
      let f : find_newline (x ∷ s) ≡ some ([], s) = rw n refl in
      let u : unix (x ∷ s) ≡ x ∷ unix s = ground (arith, n) in
      let is : x ≡ b'\n' = ground (arith, n) in
      rw f (rw (u, n) (ap (λ y. y ∷ indent prefix true (unix s)) is), omega arith)
  | inr n ↦ elim (Bool-cases (if x == b'\r' then starts_line s else false)) [
    | inl r ↦
        let (f, u) = find-break x s n r in
        let (b, less) = unix_break s (ground (arith, r)) in
        rw f (rw (u, b) refl, omega (arith, less))
    | inr r ↦
        let (f, u) = find-keep x s n r in
        rw f (Breaks-keep prefix s x (find_newline s) n u (find_newline-Breaks prefix s))
  ]
]

unix-cons : (x : ℕ) (s : Text) → (y : ℕ) × (t : Text) × (unix (x ∷ s) ≡ y ∷ t)
unfolding unix
unix-cons x s = elim (Bool-cases (if x == b'\r' then starts_line s else false)) [
  | inl r ↦
      let u : unix (x ∷ s) ≡ unix s = ground (arith, r) in
      (b'\n', unix (after_first s), u ∙ (unix_break s (ground (arith, r))).0)
  | inr r ↦ (x, unix s, ground (arith, r))
]

indent_first :
    (prefix : Text) (x : ℕ) (s : Text)
    → indent prefix true (unix (x ∷ s)) ≡ prefix ++ indent prefix false (unix (x ∷ s))
unfolding indent
indent_first prefix x s = let (y, t, u) = unix-cons x s in rw u refl

print_nothing :
    (fuel : ℕ) (prefix : Text)
    → (ws : List Text) × (print_lines (suc fuel) prefix [] ≡ some ws)
      × (joined ws ≡ indent prefix true (unix []))
unfolding print_lines find_newline indent unix
print_nothing fuel prefix = ([], refl, refl)

print_lines_lem :
    (fuel : ℕ) (prefix s : Text)
    → length s < fuel
    → (ws : List Text) × (print_lines fuel prefix s ≡ some ws)
      × (joined ws ≡ indent prefix true (unix s))
unfolding print_lines
print_lines_lem zero prefix s h = absurd (omega (arith, h))
print_lines_lem (suc fuel) prefix [] h = print_nothing fuel prefix
print_lines_lem (suc fuel) prefix (x ∷ s) h =
    let breaks = find_newline-Breaks prefix (x ∷ s) in
    let first = indent_first prefix x s in
    elim (Option-cases (find_newline (x ∷ s))) [
      | inl e ↦
          let b : indent prefix false (unix (x ∷ s)) ≡ x ∷ s = rw e at breaks in
          (
            prefix ∷ (x ∷ s) ∷ [],
            ground (arith, e),
            ap (◌++◌ prefix) (append-nil (x ∷ s) ∙ sym b) ∙ sym first,
          )
      | inr ((line, rest), e) ↦
          let (b, less) : (indent prefix false (unix (x ∷ s))
                ≡ line ++ (b'\n' ∷ indent prefix true (unix rest)))
              × (length rest < length (x ∷ s)) =
            rw e at breaks in
          let (ws, p, j) = print_lines_lem fuel prefix rest (omega (arith, less, h)) in
          (
            prefix ∷ line ∷ (b'\n' ∷ []) ∷ ws,
            ground (arith, e, p),
            rw j (ap (◌++◌ prefix) (sym b) ∙ sym first),
          )
    ]

abbrev pub printed : Option Text → Text → Text
printed none s = s
printed (some prefix) s = indent prefix true (unix s)

joined-append : (ws : List Text) (w : Text) → joined (ws ++ w ∷ []) ≡ joined ws ++ w
joined-append [] w = append-nil w
joined-append (v ∷ ws) w = ap (◌++◌ v) (joined-append ws w) ∙ sym (append_assoc v (joined ws) w)

joined-with_suffix :
    (suffix : Option Text) (ws : List Text)
    → joined (with_suffix suffix ws) ≡ joined ws ++ suffix_text suffix
joined-with_suffix none ws = sym (append-nil (joined ws))
joined-with_suffix (some w) ws = joined-append ws w

-- printline ends on every text. Without a prefix it writes the text as it is; with one it writes the text
-- with its line breaks as "\n", and the prefix once before each line, also an empty one, but not after the
-- last line break. The suffix follows.
printline_lem :
    (prefix suffix : Option Text) (s : Text)
    → (ws : List Text) × (printline prefix suffix s ≡ some ws)
      × (joined ws ≡ printed prefix s ++ suffix_text suffix)
unfolding printline
printline_lem none suffix s = (
  with_suffix suffix (s ∷ []),
  refl,
  joined-with_suffix suffix (s ∷ []) ∙ ap (λ t. t ++ suffix_text suffix) (append-nil s),
)
printline_lem (some prefix) suffix s =
    let (ws, p, j) = print_lines_lem (suc (length s)) prefix s (omega arith) in
    (
      with_suffix suffix ws,
      ap (suffixed suffix) p,
      joined-with_suffix suffix ws ∙ ap (λ t. t ++ suffix_text suffix) j,
    )
