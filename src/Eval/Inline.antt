-- ===== src/Eval/Inline.antt =====
-- What parse_inlineopt makes of a file, by its lines.
use mathlib.Core.List.{append-nil, append_assoc}
use lua_testcase.Common.{
  ℕ, zero, suc, ◌+◌, ◌-◌, ltb, true, false, List, [], ◌∷◌, ◌++◌, some, if◌then◌else◌, length, take,
  drop, ◌≡◌, refl, arith, ap, ◌∙◌, sym, length-append, drop-length-append, ◌<◌, ◌≤◌, Bool-cases,
  inl, inr,
}
use lua_testcase.Paths.{Text}
use lua_testcase.Eval.{
  Context, fine, checkline, concluded, continued, parse_lines, line_round, is_placeholder, Result,
  no_context, no_code, finish, replaced, inline_code, parse_inlineopt, nothing, error,
}
use lua_testcase.Eval.Phases.{
  Line, line_break, text_of, is_line, has_newline, is_long, AreLines, says, Says, after_says, after,
  bad, no_option, off, on, expects, before_says, before, last_says,
}
use lua_testcase.Eval.Breaks.{
  find_break_line, find_break_last, length-line_break, take-append, drop_line,
}
use lua_testcase.Eval.Checks.{
  expecting, with_code, checked_before, checked_after, check_before, check_after, check_expecting,
}

module _ (s : Text) where
  -- One line of the loop.
  line_step :
      (fuel : ℕ) (l : Text) (k : ℕ) (ls : List Line) (last acc : Text) (n : ℕ) (ctx : Context)
      → is_line l ≡ true
      → parse_lines s (suc fuel) (text_of ((l, k) ∷ ls) last) (suc (length acc)) n ctx
        ≡ continued
            (parse_lines s fuel
              (text_of ls last)
              (suc (length ((acc ++ l) ++ line_break k)))
              (n + 1))
            (checkline ctx l (n + 1) (suc (length acc)) (length (acc ++ l)))
  unfolding parse_lines
  line_step fuel l k ls last acc n ctx h =
      let rest = text_of ls last in
      let f = find_break_line l k rest h in
      let start : (suc (length acc) + length l) + suc k
          ≡ suc (length ((acc ++ l) ++ line_break k)) =
        omega (
          arith,
          length-append (acc ++ l) (line_break k),
          length-append acc l,
          length-line_break k,
        ) in
      let end : (suc (length acc) + length l) - 1 ≡ length (acc ++ l) =
        omega (arith, length-append acc l) in
      let r = text_of ((l, k) ∷ ls) last in
      ap (line_round (parse_lines s fuel) s r (suc (length acc)) n ctx) f
      ∙ rw (take-append l (line_break k ++ rest), drop_line l k rest, start, end) refl

  -- The end of the loop.
  last_step :
      (fuel : ℕ) (last acc : Text) (n : ℕ) (ctx : Context)
      → s ≡ acc ++ last
      → has_newline last ≡ false
      → parse_lines s (suc fuel) last (suc (length acc)) n ctx ≡ (
          if is_long last
          then concluded s (n + 1) (checkline ctx last (n + 1) (suc (length acc)) (length s))
          else concluded s n (fine ctx))
  unfolding parse_lines
  last_step fuel last acc n ctx e h =
      let f = find_break_last last h in
      let long : ltb (suc (length acc)) (length s) ≡ is_long last =
        ground (arith, ap length e, length-append acc last) in
      ap (line_round (parse_lines s fuel) s last (suc (length acc)) n ctx) f ∙ rw long refl

  advance :
      (acc l : Text) (k : ℕ) (rest : Text)
      → s ≡ acc ++ (l ++ (line_break k ++ rest))
      → s ≡ ((acc ++ l) ++ line_break k) ++ rest
  advance acc l k rest e =
      e
      ∙ sym (append_assoc acc l (line_break k ++ rest))
      ∙ sym (append_assoc (acc ++ l) (line_break k) rest)

  module _ (last : Text) (closed : has_newline last ≡ false) where
    after_continued :
        (d h t n : ℕ) (r : Result) (next : Context → Result) (z : Says)
        → continued next (checked_after d h t n z) ≡ after_says r d n z (next (with_code d h t))
    after_continued d h t n r next no_option = refl
    after_continued d h t n r next on = refl
    after_continued d h t n r next off = refl
    after_continued d h t n r next (bad v) = refl

    conclude_after :
        (d h t n : ℕ) (z : Says)
        → concluded s n (checked_after d h t n z)
          ≡ after_says
              (finish s (with_code d h t) n (some (h, t)))
              d
              n
              z
              (finish s (with_code d h t) n (some (h, t)))
    conclude_after d h t n no_option = refl
    conclude_after d h t n on = refl
    conclude_after d h t n off = refl
    conclude_after d h t n (bad v) = refl

    after_lem :
        (fuel : ℕ) (ls : List Line) (acc : Text) (n d h t : ℕ)
        → s ≡ acc ++ text_of ls last
        → AreLines ls
        → length ls < fuel
        → parse_lines s fuel (text_of ls last) (suc (length acc)) n (with_code d h t)
          ≡ after (finish s (with_code d h t) n (some (h, t))) d n ls last
    after_lem zero ls acc n d h t e g less = absurd (omega (arith, less))
    after_lem (suc fuel) [] acc n d h t e g less =
        let z = finish s (with_code d h t) n (some (h, t)) in
        last_step fuel last acc n (with_code d h t) e closed
        ∙ ap (λ c. if is_long last then concluded s (n + 1) c else z)
            (check_after last d h t (n + 1) (suc (length acc)) (length s))
        ∙ ap (λ x. if is_long last then x else z) (conclude_after d h t (n + 1) (says last))
    after_lem (suc fuel) ((l, k) ∷ ls) acc n d h t e g less =
        let z = finish s (with_code d h t) n (some (h, t)) in
        let acc' = (acc ++ l) ++ line_break k in
        line_step fuel l k ls last acc n (with_code d h t) g.0
        ∙ ap (continued (parse_lines s fuel (text_of ls last) (suc (length acc')) (n + 1)))
            (check_after l d h t (n + 1) (suc (length acc)) (length (acc ++ l)))
        ∙ after_continued d h t (n + 1) z
            (parse_lines s fuel (text_of ls last) (suc (length acc')) (n + 1)) (says l)
        ∙ ap (after_says z d (n + 1) (says l)) (
            after_lem fuel ls acc' (n + 1) d h t (advance acc l k (text_of ls last) e) g.1
              (omega (arith, less)))

    -- The line after the option is found at its positions.
    coded :
        (acc l rest : Text)
        → s ≡ acc ++ (l ++ rest)
        → (d n : ℕ)
        → finish s
            (with_code d (suc (length acc)) (length (acc ++ l)))
            n
            (some (suc (length acc), length (acc ++ l)))
          ≡ replaced (acc ++ (inline_code ++ rest))
    coded acc l rest e d n =
        let first : take (length acc) s ≡ acc =
          ap (take (length acc)) e ∙ take-append acc (l ++ rest) in
        let later : drop (length (acc ++ l)) s ≡ rest =
          ap (drop (length (acc ++ l))) (e ∙ sym (append_assoc acc l rest))
          ∙ drop-length-append (acc ++ l) rest in
        let at : suc (length acc) - 1 ≡ length acc = omega arith in
        ap (λ k. replaced (take k s ++ (inline_code ++ drop (length (acc ++ l)) s))) at
        ∙ ap (λ x. replaced (x ++ (inline_code ++ drop (length (acc ++ l)) s))) first
        ∙ ap (λ x. replaced (acc ++ (inline_code ++ x))) later

    expects_lem :
        (fuel : ℕ) (ls : List Line) (acc : Text) (n : ℕ)
        → s ≡ acc ++ text_of ls last
        → AreLines ls
        → length ls < fuel
        → parse_lines s fuel (text_of ls last) (suc (length acc)) n (expecting n)
          ≡ expects acc n ls last
    expects_lem zero ls acc n e g less = absurd (omega (arith, less))
    expects_lem (suc fuel) [] acc n e g less =
        let h = suc (length acc) in
        let t = length s in
        let end : acc ++ last ≡ s = sym e in
        let found : concluded s (n + 1) (fine (with_code n h t))
            ≡ replaced (acc ++ (inline_code ++ [])) =
          ap (λ x. concluded s (n + 1) (fine (with_code n h (length x)))) e
          ∙ coded acc last [] (e ∙ ap (◌++◌ acc) (sym (append-nil last))) n (n + 1) in
        last_step fuel last acc n (expecting n) e closed
        ∙ ap (λ c. if is_long last then concluded s (n + 1) c else error (no_code n))
            (check_expecting last n (n + 1) h t)
        ∙ elim (Bool-cases (is_placeholder last)) [
          | inl p ↦ rw p (ap (λ x. if is_long last then x else error (no_code n)) found)
          | inr p ↦ rw p refl
        ]
    expects_lem (suc fuel) ((l, k) ∷ ls) acc n e g less =
        let h = suc (length acc) in
        let t = length (acc ++ l) in
        let rest = line_break k ++ text_of ls last in
        let acc' = (acc ++ l) ++ line_break k in
        let next = parse_lines s fuel (text_of ls last) (suc (length acc')) (n + 1) in
        line_step fuel l k ls last acc n (expecting n) g.0
        ∙ ap (continued next) (check_expecting l n (n + 1) h t)
        ∙ elim (Bool-cases (is_placeholder l)) [
          | inl p ↦ rw p (
              after_lem fuel ls acc' (n + 1) n h t (advance acc l k (text_of ls last) e) g.1
                (omega (arith, less))
              ∙ ap (λ z. after z n (n + 1) ls last) (coded acc l rest e n (n + 1)))
          | inr p ↦ rw p refl
        ]

    before_continued :
        (n : ℕ) (next : Context → Result) (z : Says)
        → continued next (checked_before n z)
          ≡ before_says n z (next no_context) (next (expecting n))
    before_continued n next no_option = refl
    before_continued n next on = refl
    before_continued n next off = refl
    before_continued n next (bad v) = refl

    conclude_before : (n : ℕ) (z : Says) → concluded s n (checked_before n z) ≡ last_says n z
    conclude_before n no_option = refl
    conclude_before n on = refl
    conclude_before n off = refl
    conclude_before n (bad v) = refl

    before_lem :
        (fuel : ℕ) (ls : List Line) (acc : Text) (n : ℕ)
        → s ≡ acc ++ text_of ls last
        → AreLines ls
        → length ls < fuel
        → parse_lines s fuel (text_of ls last) (suc (length acc)) n no_context
          ≡ before acc n ls last
    before_lem zero ls acc n e g less = absurd (omega (arith, less))
    before_lem (suc fuel) [] acc n e g less =
        last_step fuel last acc n no_context e closed
        ∙ ap (λ c. if is_long last then concluded s (n + 1) c else nothing)
            (check_before last (n + 1) (suc (length acc)) (length s))
        ∙ ap (λ x. if is_long last then x else nothing) (conclude_before (n + 1) (says last))
    before_lem (suc fuel) ((l, k) ∷ ls) acc n e g less =
        let acc' = (acc ++ l) ++ line_break k in
        let next = parse_lines s fuel (text_of ls last) (suc (length acc')) (n + 1) in
        let e' = advance acc l k (text_of ls last) e in
        line_step fuel l k ls last acc n no_context g.0
        ∙ ap (continued next) (check_before l (n + 1) (suc (length acc)) (length (acc ++ l)))
        ∙ before_continued (n + 1) next (says l)
        ∙ ap (λ x. before_says (n + 1) (says l) x (next (expecting (n + 1))))
            (before_lem fuel ls acc' (n + 1) e' g.1 (omega (arith, less)))
        ∙ ap (before_says (n + 1) (says l) (before acc' (n + 1) ls last))
            (expects_lem fuel ls acc' (n + 1) e' g.1 (omega (arith, less)))

lines_short : (ls : List Line) (last : Text) → length ls ≤ length (text_of ls last)
lines_short [] last = omega arith
lines_short ((l, k) ∷ ls) last = omega (
  arith,
  lines_short ls last,
  length-append l (line_break k ++ text_of ls last),
  length-append (line_break k) (text_of ls last),
  length-line_break k,
)

-- parse_inlineopt ends on every file that is made of lines, each ended by "\n" after any number of "\r", and of what
-- follows them. It does what the phases say: nothing where no option is on; an error for a value that is not
-- valid, for an option that is on with no placeholder in the next line, and for any option after that; and
-- otherwise the file with the whole line of the placeholder replaced by the code, and all the rest as it is.
pub parse_inlineopt-before :
    (ls : List Line) (last : Text)
    → AreLines ls
    → has_newline last ≡ false
    → parse_inlineopt (text_of ls last) ≡ before [] 0 ls last
unfolding parse_inlineopt
parse_inlineopt-before ls last g closed =
    before_lem (text_of ls last) last closed (suc (length (text_of ls last))) ls [] 0 refl g
      (omega (arith, lines_short ls last))
