-- ===== src/Eval/Breaks.antt =====
-- The line breaks that find_break finds.
use mathlib.Core.List.{append_assoc}
use lua_testcase.Common.{
  ℕ, zero, suc, ◌+◌, true, false, [], ◌∷◌, ◌++◌, none, some, length, take, drop, ◌≡◌, refl, arith,
  ap, ◌∙◌, sym, length-append, drop-length-append,
}
use lua_testcase.Paths.{Text}
use lua_testcase.Eval.{break_length, find_break, further}
use lua_testcase.Eval.Phases.{line_break, is_line, has_newline}

pub break_length-line_break :
    (n : ℕ) (rest : Text) → break_length (line_break n ++ rest) ≡ some (suc n)
break_length-line_break zero rest = refl
break_length-line_break (suc n) rest = rw (break_length-line_break n rest) refl

-- No line break begins in a line.
pub break_length_line :
    (c : ℕ) (l : Text) (rest : Text)
    → is_line (c ∷ l) ≡ true
    → break_length (c ∷ (l ++ rest)) ≡ none
break_length_line c [] rest h = ground (arith, h)
break_length_line c (d ∷ l) rest h =
    ground (arith, h, break_length_line d l rest (ground (arith, h)))

pub break_length_last : (s : Text) → has_newline s ≡ false → break_length s ≡ none
break_length_last [] h = refl
break_length_last (c ∷ s) h = ground (arith, h, break_length_last s (ground (arith, h)))

pub is_line_rest : (c : ℕ) (l : Text) → is_line (c ∷ l) ≡ true → is_line l ≡ true
is_line_rest c [] h = refl
is_line_rest c (d ∷ l) h = ground (arith, h)

pub find_at :
    (c : ℕ) (s : Text) → break_length (c ∷ s) ≡ none → find_break (c ∷ s) ≡ further (find_break s)
unfolding find_break
find_at c s h = ground (arith, h)

pub find_here :
    (c m : ℕ) (s : Text) → break_length (c ∷ s) ≡ some m → find_break (c ∷ s) ≡ some (0, m)
unfolding find_break
find_here c m s h = ground (arith, h)

pub find_break_line :
    (l : Text) (n : ℕ) (rest : Text)
    → is_line l ≡ true
    → find_break (l ++ (line_break n ++ rest)) ≡ some (length l, suc n)
find_break_line [] zero rest h = find_here b'\n' 1 rest refl
find_break_line [] (suc n) rest h =
    find_here b'\r' (suc (suc n)) (line_break n ++ rest) (break_length-line_break (suc n) rest)
find_break_line (c ∷ l) n rest h =
    find_at c (l ++ (line_break n ++ rest)) (break_length_line c l (line_break n ++ rest) h)
    ∙ ap further (find_break_line l n rest (is_line_rest c l h))

pub find_break_last : (s : Text) → has_newline s ≡ false → find_break s ≡ none
unfolding find_break
find_break_last [] h = refl
find_break_last (c ∷ s) h =
    find_at c s (break_length_last (c ∷ s) h) ∙ ap further (find_break_last s (ground (arith, h)))

pub length-line_break : (n : ℕ) → length (line_break n) ≡ suc n
length-line_break zero = refl
length-line_break (suc n) = ap suc (length-line_break n)

pub take-append : (a b : Text) → take (length a) (a ++ b) ≡ a
take-append [] b = refl
take-append (x ∷ a) b = rw (take-append a b) refl

pub drop_line :
    (l : Text) (n : ℕ) (rest : Text) → drop (length l + suc n) (l ++ (line_break n ++ rest)) ≡ rest
drop_line l n rest =
    let e : length l + suc n ≡ length (l ++ line_break n) =
      omega (arith, length-append l (line_break n), length-line_break n) in
    ap (λ k. drop k (l ++ (line_break n ++ rest))) e
    ∙ ap (drop (length (l ++ line_break n))) (sym (append_assoc l (line_break n) rest))
    ∙ drop-length-append (l ++ line_break n) rest
