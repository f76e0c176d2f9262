-- ===== src/Eval/Splits.antt =====
-- The lines of a text.
use lua_testcase.Common.{
  ℕ, ◌==◌, false, List, [], ◌∷◌, ◌++◌, ◌≡◌, refl, arith, ap, ◌∙◌, Bool-cases, inl, inr, suc,
}
use lua_testcase.Paths.{Text}
use lua_testcase.Eval.Phases.{line_break, text_of, has_newline, Line, AreLines}

-- A text is made of lines, and of what follows them.
abbrev pub Split : Text → Type 0
Split s =
    (ls : List Line) × (last : Text) × AreLines ls
    × (has_newline last ≡ false)
    × (s ≡ text_of ls last)

-- A byte that is no line break goes to the first line, but for a '\r' before its end.
into_line :
    (c : ℕ) (l : Text) (k : ℕ) (ls : List Line) (last : Text)
    → (c == b'\n') ≡ false
    → AreLines ((l, k) ∷ ls)
    → has_newline last ≡ false
    → Split (c ∷ text_of ((l, k) ∷ ls) last)
into_line c [] k ls last break g closed = elim (Bool-cases (c == b'\r')) [
  | inl cr ↦
      let is_cr : c ≡ b'\r' = ground (arith, cr) in
      (
        ([], suc k) ∷ ls,
        last,
        (refl, g.1),
        closed,
        ap (λ d. d ∷ (line_break k ++ text_of ls last)) is_cr,
      )
  | inr cr ↦ ((c ∷ [], k) ∷ ls, last, (rw (break, cr) refl, g.1), closed, refl)
]
into_line c (d ∷ l) k ls last break g closed =
    ((c ∷ d ∷ l, k) ∷ ls, last, (rw break g.0, g.1), closed, refl)

-- A byte that is no line break.
split_other :
    (c : ℕ) (ls : List Line) (last : Text)
    → (c == b'\n') ≡ false
    → AreLines ls
    → has_newline last ≡ false
    → Split (c ∷ text_of ls last)
split_other c [] last break g closed = ([], c ∷ last, tt, rw break closed, refl)
split_other c ((l, k) ∷ ls) last break g closed = into_line c l k ls last break g closed

split_cons :
    (c : ℕ) (ls : List Line) (last : Text)
    → AreLines ls
    → has_newline last ≡ false
    → Split (c ∷ text_of ls last)
split_cons c ls last g closed = elim (Bool-cases (c == b'\n')) [
  | inl break ↦
      (([], 0) ∷ ls, last, (refl, g), closed, ap (λ d. d ∷ text_of ls last) (ground (arith, break)))
  | inr break ↦ split_other c ls last break g closed
]

pub split : (s : Text) → Split s
split [] = ([], [], tt, refl, refl)
split (c ∷ s) =
    let (ls, last, g, closed, e) = split s in
    let (ls', last', g', closed', e') = split_cons c ls last g closed in
    (ls', last', g', closed', ap (◌∷◌ c) e ∙ e')
