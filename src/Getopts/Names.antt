-- ===== src/Getopts/Names.antt =====
-- What parse_testcase of lib/getopts.lua makes of a value.
use mathlib.Core.List.{append-nil, append_assoc}
use lua_testcase.Common.{
  ◌≡◌, List, ℕ, Option, Bool, some, [], length, ◌∷◌, ◌<◌, arith, false, none, if◌then◌else◌, true,
  ◌==◌, suc, refl, Option-cases, inl, inr, zero, ◌++◌, ◌∙◌, ap,
}
use lua_testcase.Paths.{Text}
use lua_testcase.Getopts.{
  ok, err, break_at, contains, add_name, is_nil, names_loop, parse_testcase, no_name,
}

abbrev cons_first : ℕ → List Text → List Text
cons_first y [] = []
cons_first y (s ∷ l) = (y ∷ s) ∷ l

-- The texts between the commas.
abbrev pub split : Text → List Text
split [] = [] ∷ []
split (y ∷ s) = let rest = split s in if y == b',' then [] ∷ rest else cons_first y rest

abbrev pub has_nil : List Text → Bool
has_nil [] = false
has_nil (s ∷ l) = if is_nil s then true else has_nil l

-- The names with those of a list that are not among them, each once, in their order.
abbrev pub add_names : List Text → List Text → List Text
add_names names [] = names
add_names names (s ∷ l) = add_names (add_name s names) l

abbrev rest_of : Option Text → List Text
rest_of none = []
rest_of (some s) = split s

split-break_at : (s : Text) → split s ≡ (break_at b',' s).0 ∷ rest_of (break_at b',' s).1
unfolding break_at
split-break_at [] = refl
split-break_at (y ∷ s) = ground (arith, split-break_at s)

length-break_at : (s r : Text) → (break_at b',' s).1 ≡ some r → length r < length s
unfolding break_at
length-break_at [] r h = cc
length-break_at (y ∷ s) r h = ground (arith, length-break_at s r)

names_loop_lem :
    (fuel : ℕ) (names : List Text) (value : Text)
    → length value < fuel
    → names_loop fuel names value
      ≡ some (if has_nil (split value) then err no_name else ok (add_names names (split value)))
unfolding names_loop
names_loop_lem zero names value h = elim h [ ]
names_loop_lem (suc fuel) names value h = elim (Option-cases (break_at b',' value).1) [
  | inl last ↦ rw (split-break_at value, last) (ground arith)
  | inr (r, more) ↦
      let less = length-break_at value r more in
      let rest = names_loop_lem fuel (add_name (break_at b',' value).0 names) r (omega arith) in
      rw (split-break_at value, more) (ground arith)
]

-- parse_testcase ends on every value. Of the texts between the commas it returns each once, in
-- the order in which they come first, and it fails if and only if one of them is empty.
pub parse_testcase_lem :
    (value : Text)
    → parse_testcase value
      ≡ some (if has_nil (split value) then err no_name else ok (add_names [] (split value)))
unfolding parse_testcase
parse_testcase_lem [] = refl
parse_testcase_lem (y ∷ s) = names_loop_lem (suc (length (y ∷ s))) [] (y ∷ s) (omega arith)

-- The names with commas between them.
abbrev pub join : Text → List Text → Text
join n [] = n
join n (m ∷ l) = n ++ (b',' ∷ join m l)

abbrev pub has_comma : Text → Bool
has_comma [] = false
has_comma (y ∷ s) = if y == b',' then true else has_comma s

-- Names that are not empty, have no comma, and are not among those given.
abbrev pub AreNames : List Text → List Text → Type 0
AreNames names [] = Unit
AreNames names (s ∷ l) =
    (is_nil s ≡ false)
    × (has_comma s ≡ false)
    × (contains names s ≡ false)
    × AreNames (names ++ s ∷ []) l

split-append : (s t : Text) → has_comma s ≡ false → split (s ++ (b',' ∷ t)) ≡ s ∷ split t
split-append [] t h = refl
split-append (y ∷ s) t h = ground (arith, split-append s t)

split-comma_free : (s : Text) → has_comma s ≡ false → split s ≡ s ∷ []
split-comma_free [] h = refl
split-comma_free (y ∷ s) h = ground (arith, split-comma_free s)

split-join :
    (names : List Text) (n : Text) (l : List Text)
    → AreNames names (n ∷ l)
    → split (join n l) ≡ n ∷ l
split-join names n [] h = split-comma_free n h.1
split-join names n (m ∷ l) h =
    split-append n (join m l) h.1 ∙ ap (λ t. n ∷ t) (split-join (names ++ n ∷ []) m l h.3)

has_nil-AreNames : (names l : List Text) → AreNames names l → has_nil l ≡ false
has_nil-AreNames names [] h = refl
has_nil-AreNames names (s ∷ l) h =
    let rest = has_nil-AreNames (names ++ s ∷ []) l h.3 in ground arith

add_names-AreNames : (names l : List Text) → AreNames names l → add_names names l ≡ names ++ l
add_names-AreNames names [] h = rw append-nil refl
add_names-AreNames names (s ∷ l) h =
    rw h.2 (add_names-AreNames (names ++ s ∷ []) l h.3 ∙ append_assoc names (s ∷ []) l)

-- parse_testcase gives back names that are joined by commas, where they are different from one
-- another, not empty, and without a comma.
parse_testcase-join :
    (n : Text) (l : List Text) → AreNames [] (n ∷ l) → parse_testcase (join n l) ≡ some (ok (n ∷ l))
parse_testcase-join n l h =
    parse_testcase_lem (join n l)
    ∙ rw (split-join [] n l h, has_nil-AreNames [] (n ∷ l) h, add_names-AreNames [] (n ∷ l) h) refl
