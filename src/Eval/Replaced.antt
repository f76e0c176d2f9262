-- ===== src/Eval/Replaced.antt =====
-- What is replaced in a file, and what stays as it is.
use mathlib.Core.List.{append-nil, append_assoc}
use lua_testcase.Common.{
  ℕ, ◌+◌, Bool, true, false, List, [], ◌∷◌, ◌++◌, ◌≡◌, refl, arith, inl, inr, Bool-cases, ap, ◌∙◌,
  sym, ◌⊎◌,
}
use lua_testcase.Paths.{Text}
use lua_testcase.Eval.{
  is_placeholder, inline_code, Result, replaced, error, nothing, parse_inlineopt, no_code,
  out_of_fuel,
}
use lua_testcase.Eval.Phases.{
  Says, no_option, on, off, bad, says, Line, line_break, text_of, is_long, after, after_says,
  expects, before, before_says, last_says, is_line, AreLines, has_newline,
}
use lua_testcase.Eval.Inline.{parse_inlineopt-before}
use lua_testcase.Eval.Splits.{split}

after_says_lem :
    (r : Result) (d n : ℕ) (z : Says) (next : Result) (t : Text)
    → after_says r d n z next ≡ replaced t
    → (z ≡ no_option) × (next ≡ replaced t)
after_says_lem r d n no_option next t h = (refl, h)
after_says_lem r d n on next t h = cc
after_says_lem r d n off next t h = cc
after_says_lem r d n (bad v) next t h = cc

after_lem :
    (r : Result) (d n : ℕ) (ls : List Line) (last t : Text)
    → after r d n ls last ≡ replaced t
    → r ≡ replaced t
after_lem r d n [] last t h = elim (Bool-cases (is_long last)) [
  | inl e ↦ (after_says_lem r d (n + 1) (says last) r t (rw e at h)).1
  | inr e ↦ rw e at h
]
after_lem r d n ((l, k) ∷ ls) last t h =
    after_lem r d (n + 1) ls last t
      (after_says_lem r d (n + 1) (says l) (after r d (n + 1) ls last) t h).1

-- A line and what follows it: it goes up to its line break, or to the end of the text.
abbrev pub IsWhole : Text → Text → Type 0
IsWhole line rest =
    ((is_line line ≡ true) × (j : ℕ) × (s : Text) × (rest ≡ line_break j ++ s))
    ⊎ ((has_newline line ≡ false) × (rest ≡ []))

-- The next line is a placeholder, and the code stands in its place.
abbrev Coded : Text → Text → Text → Type 0
Coded acc s t =
    (l : Text) × (rest : Text) × IsWhole l rest
    × (s ≡ l ++ rest)
    × (is_placeholder l ≡ true)
    × (t ≡ acc ++ (inline_code ++ rest))

expects_lem :
    (acc : Text) (n : ℕ) (ls : List Line) (last t : Text)
    → AreLines ls
    → has_newline last ≡ false
    → expects acc n ls last ≡ replaced t
    → Coded acc (text_of ls last) t
expects_lem acc n [] last t g closed h = elim (Bool-cases (is_long last)) [
  | inl long ↦ elim (Bool-cases (is_placeholder last)) [
    | inl p ↦
        let same : replaced (acc ++ (inline_code ++ [])) ≡ replaced t = rw (long, p) at h in
        (last, [], inr (closed, refl), sym (append-nil last), p, cc same)
    | inr p ↦ let wrong : error (no_code (n + 1)) ≡ replaced t = rw (long, p) at h in cc wrong
  ]
  | inr long ↦ let wrong : error (no_code n) ≡ replaced t = rw long at h in cc wrong
]
expects_lem acc n ((l, k) ∷ ls) last t g closed h = elim (Bool-cases (is_placeholder l)) [
  | inl p ↦
      let rest = line_break k ++ text_of ls last in
      let same =
        after_lem (replaced (acc ++ (inline_code ++ rest))) n (n + 1) ls last t (rw p at h) in
      (l, rest, inl (g.0, k, text_of ls last, refl), refl, p, cc same)
  | inr p ↦ let wrong : error (no_code (n + 1)) ≡ replaced t = rw p at h in cc wrong
]

-- After some lines there is a line with an option that is on, and the next line is a placeholder, in whose
-- place stands the code.
abbrev ReplacesAfter : Text → Text → Text → Type 0
ReplacesAfter acc s t =
    (head : List Line) × (option : Text) × (k : ℕ) × (line : Text) × (rest : Text) × AreLines head
    × (is_line option ≡ true)
    × IsWhole line rest
    × (s ≡ text_of head (option ++ (line_break k ++ (line ++ rest))))
    × (says option ≡ on)
    × (is_placeholder line ≡ true)
    × (t ≡ acc ++ text_of head (option ++ (line_break k ++ (inline_code ++ rest))))

abbrev pub Replaces : Text → Text → Type 0
Replaces s t = ReplacesAfter [] s t

last_not_replaced : (n : ℕ) (z : Says) (t : Text) → ¬ (last_says n z ≡ replaced t)
last_not_replaced n no_option t h = cc h
last_not_replaced n off t h = cc h
last_not_replaced n on t h = cc h
last_not_replaced n (bad v) t h = cc h

says_cases :
    (z : Says)
    → (z ≡ on)
      ⊎ ((n : ℕ) (next found : Result) (t : Text)
          → before_says n z next found ≡ replaced t
          → next ≡ replaced t)
says_cases on = inl refl
says_cases no_option = inr (λ n next found t h. h)
says_cases off = inr (λ n next found t h. h)
says_cases (bad v) = inr (λ n next found t h. cc h)

before_lem :
    (acc : Text) (n : ℕ) (ls : List Line) (last t : Text)
    → AreLines ls
    → has_newline last ≡ false
    → before acc n ls last ≡ replaced t
    → ReplacesAfter acc (text_of ls last) t
before_lem acc n [] last t g closed h = elim (Bool-cases (is_long last)) [
  | inl long ↦ absurd (last_not_replaced (n + 1) (says last) t (rw long at h))
  | inr long ↦ let wrong : nothing ≡ replaced t = rw long at h in cc wrong
]
before_lem acc n ((l, k) ∷ ls) last t g closed h =
    let acc' = (acc ++ l) ++ line_break k in
    let whole : (x : Text) → acc' ++ x ≡ acc ++ (l ++ (line_break k ++ x)) =
      λ x. append_assoc (acc ++ l) (line_break k) x ∙ append_assoc acc l (line_break k ++ x) in
    elim (says_cases (says l)) [
      | inl option ↦
          let (line, later, w, e, p, e') =
            expects_lem acc' (n + 1) ls last t g.1 closed (rw option at h) in
          (
            [],
            l,
            k,
            line,
            later,
            tt,
            g.0,
            w,
            ap (λ x. l ++ (line_break k ++ x)) e,
            option,
            p,
            e' ∙ whole (inline_code ++ later),
          )
      | inr none_there ↦
          let (head, option, k', line, later, gs, i, w, e, o, p, e') =
            before_lem acc' (n + 1) ls last t g.1 closed (
              none_there (n + 1) (before acc' (n + 1) ls last) (expects acc' (n + 1) ls last) t
                h) in
          let new = text_of head (option ++ (line_break k' ++ (inline_code ++ later))) in
          (
            (l, k) ∷ head,
            option,
            k',
            line,
            later,
            (g.0, gs),
            i,
            w,
            ap (λ x. l ++ (line_break k ++ x)) e,
            o,
            p,
            e' ∙ whole new,
          )
    ]

-- Whether it has not run out of fuel.
abbrev ends : Result → Bool
ends out_of_fuel = false
ends nothing = true
ends (replaced t) = true
ends (error e) = true

after_says-ends :
    (r : Result) (d n : ℕ) (z : Says) (next : Result)
    → ends next ≡ true
    → ends (after_says r d n z next) ≡ true
after_says-ends r d n no_option next h = h
after_says-ends r d n on next h = refl
after_says-ends r d n off next h = refl
after_says-ends r d n (bad v) next h = refl

after-ends :
    (r : Result) (d n : ℕ) (ls : List Line) (last : Text)
    → ends r ≡ true
    → ends (after r d n ls last) ≡ true
after-ends r d n [] last h = elim (Bool-cases (is_long last)) [
  | inl e ↦ rw e (after_says-ends r d (n + 1) (says last) r h)
  | inr e ↦ rw e h
]
after-ends r d n ((l, k) ∷ ls) last h =
    after_says-ends r d (n + 1) (says l) (after r d (n + 1) ls last)
      (after-ends r d (n + 1) ls last h)

expects-ends :
    (acc : Text) (n : ℕ) (ls : List Line) (last : Text) → ends (expects acc n ls last) ≡ true
expects-ends acc n [] last = ground arith
expects-ends acc n ((l, k) ∷ ls) last =
    let z = replaced (acc ++ (inline_code ++ (line_break k ++ text_of ls last))) in
    elim (Bool-cases (is_placeholder l)) [
      | inl p ↦ rw p (after-ends z n (n + 1) ls last refl)
      | inr p ↦ rw p refl
    ]

last_says-ends : (n : ℕ) (z : Says) → ends (last_says n z) ≡ true
last_says-ends n no_option = refl
last_says-ends n off = refl
last_says-ends n on = refl
last_says-ends n (bad v) = refl

before_says-ends :
    (n : ℕ) (z : Says) (next found : Result)
    → ends next ≡ true
    → ends found ≡ true
    → ends (before_says n z next found) ≡ true
before_says-ends n no_option next found h g = h
before_says-ends n off next found h g = h
before_says-ends n on next found h g = g
before_says-ends n (bad v) next found h g = refl

before-ends :
    (acc : Text) (n : ℕ) (ls : List Line) (last : Text) → ends (before acc n ls last) ≡ true
before-ends acc n [] last = elim (Bool-cases (is_long last)) [
  | inl e ↦ rw e (last_says-ends (n + 1) (says last))
  | inr e ↦ rw e refl
]
before-ends acc n ((l, k) ∷ ls) last =
    let acc' = (acc ++ l) ++ line_break k in
    before_says-ends (n + 1) (says l) (before acc' (n + 1) ls last) (expects acc' (n + 1) ls last)
      (before-ends acc' (n + 1) ls last) (expects-ends acc' (n + 1) ls last)

-- It ends, and a new text has the code in place of a line.
abbrev pub MayGive : Text → Result → Type 0
MayGive s out_of_fuel = ⊥
MayGive s nothing = Unit
MayGive s (error e) = Unit
MayGive s (replaced t) = Replaces s t

may_give :
    (s : Text) (r : Result)
    → ends r ≡ true
    → ((t : Text) → r ≡ replaced t → Replaces s t)
    → MayGive s r
may_give s out_of_fuel h f = cc h
may_give s nothing h f = tt
may_give s (error e) h f = tt
may_give s (replaced t) h f = f t refl

-- parse_inlineopt ends on every text, and if it gives a new one, then the old text is some whole lines, a
-- whole line with an option that is on, a whole line that is a placeholder, up to its line break or the
-- end, and the rest; and the new text has the code in place of that line, with all before and after it
-- as it was.
pub parse_inlineopt-MayGive : (s : Text) → MayGive s (parse_inlineopt s)
parse_inlineopt-MayGive s =
    let (ls, last, g, closed, e) = split s in
    let same : parse_inlineopt s ≡ before [] 0 ls last =
      ap parse_inlineopt e ∙ parse_inlineopt-before ls last g closed in
    may_give s (parse_inlineopt s) (rw same (before-ends [] 0 ls last))
      (λ t h. rw e (before_lem [] 0 ls last t g closed (sym same ∙ h)))
