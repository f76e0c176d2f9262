-- ===== src/Printer/Formats.antt =====
-- What parse_format finds in a format.
use mathlib.Core.List.{append-nil, append_assoc}
use lua_testcase.Common.{
  ℕ, suc, ◌+◌, true, false, List, [], ◌∷◌, ◌++◌, length, ◌≡◌, refl, arith, ap, ◌∙◌, sym, ltb,
  length-append, Option, some, none,
}
use lua_testcase.Paths.{Text}
use lua_testcase.Printer.{Parsed, char_at, parse_loop, last_param, parse_format}
use lua_testcase.Printer.Loops.{
  is_end, has_end, has_percent, idle, inside, loop_plain, step_shut, loop_open, step_escape,
  char_after,
}

-- A format in pieces: text without '%', an escaped '%', and a specifier, of a byte and what follows it up to a
-- space.
pub data Piece : Type 0 where
  plain : Text → Piece
  escape : Piece
  specifier : ℕ → Text → Piece

abbrev pub IsPiece : Piece → Type 0
IsPiece (plain s) = has_percent s ≡ false
IsPiece escape = Unit
IsPiece (specifier c s) = (is_end c ≡ false) × (has_end s ≡ false)

abbrev pub text_of : Piece → Text
text_of (plain s) = s
text_of escape = b'%' ∷ b'%' ∷ []
text_of (specifier c s) = b'%' ∷ c ∷ (s ++ b' ' ∷ [])

abbrev pub render : List Piece → Text
render [] = []
render (p ∷ l) = text_of p ++ render l

abbrev own_count : Piece → ℕ
own_count (plain s) = 0
own_count escape = 0
own_count (specifier c s) = 1

abbrev own_params : ℕ → Piece → List (Text × ℕ)
own_params n (plain s) = []
own_params n escape = []
own_params n (specifier c s) = (c ∷ [], n + 1) ∷ []

-- The specifiers, numbered from n + 1 on.
abbrev pub specifiers : ℕ → List Piece → List (Text × ℕ)
specifiers n [] = []
specifiers n (p ∷ l) = own_params n p ++ specifiers (n + own_count p) l

abbrev pub count : List Piece → ℕ
count [] = 0
count (p ∷ l) = own_count p + count l

abbrev pub AreFor : List Piece → Type 0
AreFor [] = Unit
AreFor (p ∷ l) = IsPiece p × AreFor l

idle_same : (n : ℕ) (ps : List (Text × ℕ)) → idle n ps ≡ idle (n + 0) (ps ++ [])
idle_same n ps = rw (append-nil ps) (ap (λ k. idle k ps) (omega arith))

loop_piece :
    (s pre : Text) (p : Piece) (rest : Text) (n : ℕ) (ps : List (Text × ℕ))
    → s ≡ pre ++ (text_of p ++ rest)
    → IsPiece p
    → parse_loop s (suc (length pre)) (text_of p ++ rest) (idle n ps)
      ≡ parse_loop s
          (suc (length pre) + length (text_of p))
          rest
          (idle (n + own_count p) (ps ++ own_params n p))
unfolding parse_loop
loop_piece s pre (plain t) rest n ps e h =
    loop_plain s (suc (length pre)) t rest n ps h
    ∙ ap (parse_loop s (suc (length pre) + length t) rest) (idle_same n ps)
loop_piece s pre escape rest n ps e h =
    step_escape s (length pre) rest n ps
    ∙ ap (parse_loop s (suc (length pre) + 2) rest) (idle_same n ps)
loop_piece s pre (specifier c t) rest n ps e h =
    let o = length pre in
    let open_up = loop_open s o c t (b' ' ∷ rest) n ps h.0 h.1 in
    let name : char_at (suc o + 1) s ≡ c ∷ [] = char_after pre ((t ++ b' ' ∷ []) ++ rest) s c e in
    ap (λ x. parse_loop s (suc o) (b'%' ∷ c ∷ x) (idle n ps)) (append_assoc t (b' ' ∷ []) rest)
    ∙ open_up
    ∙ ap (parse_loop s ((suc o + suc (suc (length t))) + 1) rest) (step_shut s o (length t) n ps)
    ∙ ap
        (λ x.
          parse_loop s ((suc o + suc (suc (length t))) + 1) rest
            (idle (n + 1) (ps ++ (x, n + 1) ∷ [])))
        name
    ∙ ap (λ j. parse_loop s j rest (idle (n + 1) (ps ++ (c ∷ [], n + 1) ∷ [])))
        (omega (arith, length-append t (b' ' ∷ [])))

loop_pieces :
    (s pre : Text) (l : List Piece) (rest : Text) (n : ℕ) (ps : List (Text × ℕ))
    → s ≡ pre ++ (render l ++ rest)
    → AreFor l
    → parse_loop s (suc (length pre)) (render l ++ rest) (idle n ps)
      ≡ parse_loop s
          (suc (length (pre ++ render l)))
          rest
          (idle (n + count l) (ps ++ specifiers n l))
loop_pieces s pre [] rest n ps e h =
    rw (append-nil pre) (ap (parse_loop s (suc (length pre)) rest) (idle_same n ps))
loop_pieces s pre (p ∷ l) rest n ps e h =
    let t = text_of p in
    let split : render (p ∷ l) ++ rest ≡ t ++ (render l ++ rest) = append_assoc t (render l) rest in
    let here : s ≡ pre ++ (t ++ (render l ++ rest)) = e ∙ ap (◌++◌ pre) split in
    let later : s ≡ (pre ++ t) ++ (render l ++ rest) =
      here ∙ sym (append_assoc pre t (render l ++ rest)) in
    let index : suc (length pre) + length t ≡ suc (length (pre ++ t)) =
      omega (arith, length-append pre t) in
    let n' = n + own_count p in
    let ps' = ps ++ own_params n p in
    let sum : n' + count l ≡ n + (own_count p + count l) = omega arith in
    ap (λ x. parse_loop s (suc (length pre)) x (idle n ps)) split
    ∙ loop_piece s pre p (render l ++ rest) n ps here h.0
    ∙ ap (λ j. parse_loop s j (render l ++ rest) (idle n' ps')) index
    ∙ loop_pieces s (pre ++ t) l rest n' ps' later h.1
    ∙ ap (λ x. parse_loop s (suc (length x)) rest (idle (n' + count l) (ps' ++ specifiers n' l)))
        (append_assoc pre t (render l))
    ∙ ap
        (λ k.
          parse_loop s (suc (length (pre ++ render (p ∷ l)))) rest
            (idle k (ps' ++ specifiers n' l)))
        sum
    ∙ ap
        (λ x. parse_loop s (suc (length (pre ++ render (p ∷ l)))) rest (idle (n + count (p ∷ l)) x))
        (append_assoc ps (own_params n p) (specifiers n' l))

-- A specifier may end the format.
abbrev pub last_text : Option (ℕ × Text) → Text
last_text none = []
last_text (some (c, t)) = b'%' ∷ c ∷ t

abbrev pub last_params : ℕ → Option (ℕ × Text) → List (Text × ℕ)
last_params n none = []
last_params n (some (c, t)) = (c ∷ [], n + 1) ∷ []

abbrev pub last_count : Option (ℕ × Text) → ℕ
last_count none = 0
last_count (some x) = 1

abbrev pub IsLast : Option (ℕ × Text) → Type 0
IsLast none = Unit
IsLast (some (c, t)) = (is_end c ≡ false) × (has_end t ≡ false)

abbrev result : Text → Parsed → ℕ × List (Text × ℕ)
result s p = let q = last_param s p in (q.nparam, q.params)

result-inside :
    (s : Text) (o n : ℕ) (ps : List (Text × ℕ))
    → result s (inside o n ps) ≡ (n + 1, ps ++ (char_at (suc o + 1) s, n + 1) ∷ [])
result-inside s o n ps = let f : ltb 0 (suc o) ≡ true = ground arith in rw f refl

-- In a format that is made of text without '%', of "%%", and of specifiers that are followed by a space or the
-- end, parse_format finds all specifiers, in their order, and gives the callback the byte after each '%' with
-- its number.
parse_format-render :
    (l : List Piece) (z : Option (ℕ × Text))
    → AreFor l
    → IsLast z
    → parse_format (render l ++ last_text z)
      ≡ (count l + last_count z, specifiers 0 l ++ last_params (count l) z)
unfolding parse_format parse_loop
parse_format-render l none h g =
    let s = render l ++ [] in
    ap (result s) (loop_pieces s [] l [] 0 [] refl h)
    ∙ rw (append-nil (specifiers 0 l)) (ap (λ k. (k, specifiers 0 l)) (omega arith))
parse_format-render l (some (c, t)) h g =
    let s = render l ++ (b'%' ∷ c ∷ t) in
    let o = length (render l) in
    let n = 0 + count l in
    let ps = specifiers 0 l in
    let opened : parse_loop s (suc o) (b'%' ∷ c ∷ (t ++ [])) (idle n ps) ≡ inside o n ps =
      loop_open s o c t [] n ps g.0 g.1 in
    let count_same : n ≡ count l = omega arith in
    ap (result s) (loop_pieces s [] l (b'%' ∷ c ∷ t) 0 [] refl h)
    ∙ ap (λ x. result s (parse_loop s (suc o) (b'%' ∷ c ∷ x) (idle n ps))) (sym (append-nil t))
    ∙ ap (result s) opened
    ∙ result-inside s o n ps
    ∙ ap (λ x. (n + 1, ps ++ (x, n + 1) ∷ [])) (char_after (render l) t s c refl)
    ∙ ap (λ k. (k + 1, ps ++ (c ∷ [], k + 1) ∷ [])) count_same
