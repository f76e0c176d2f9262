-- ===== src/Stat/Perm.antt =====
-- The permissions of src/stat.c and src/fstat.c as text.
use lua_testcase.Stat.{perm_of, format_octal}
use lua_testcase.Common.{
  ◌≡◌, ℕ, ◌%◌, List, true, Bool, suc, take, ◌<◌, ◌∷◌, refl, ◌&&◌, arith, ◌*◌, ◌==◌, zero, leb, ◌+◌,
  ◌-◌, length, [], ◌≤◌,
}

-- What a text of octal digits stands for.
abbrev pub parse_octal : ℕ → List ℕ → ℕ
parse_octal acc [] = acc
parse_octal acc (d ∷ ds) = parse_octal (acc * 8 + (d - b'0')) ds

abbrev all_below : ℕ → (ℕ → Bool) → Bool
all_below zero p = true
all_below (suc n) p = p n && all_below n p

all_below→holds : (n : ℕ) (p : ℕ → Bool) (x : ℕ) → all_below n p ≡ true → x < n → p x ≡ true
all_below→holds zero p x h lt = absurd (omega arith)
all_below→holds (suc n) p x h lt = ground (arith, all_below→holds n p x)

abbrev is_faithful : ℕ → Bool
is_faithful n = (parse_octal 0 (take 5 (format_octal n)) == n) && leb (length (format_octal n)) 5

all-is_faithful : all_below 1024 is_faithful ≡ true
unfolding format_octal
all-is_faithful = refl

take_all : (n : ℕ) (l : List ℕ) → length l ≤ n → take n l ≡ l
take_all zero [] h = refl
take_all zero (x ∷ l) h = absurd (omega arith)
take_all (suc n) [] h = refl
take_all (suc n) (x ∷ l) h = rw (take_all n l (omega arith))

-- The text of the permissions stands for the mode's lowest ten bits, and the buffer of six bytes cuts
-- nothing off it.
pub perm_of_faithful :
    (mode : ℕ)
    → (parse_octal 0 (perm_of mode) ≡ mode % 1024) × (perm_of mode ≡ format_octal (mode % 1024))
unfolding perm_of
perm_of_faithful mode =
    let n = mode % 1024 in
    let good = all_below→holds 1024 is_faithful n all-is_faithful (omega arith) in
    (ground arith, take_all 5 (format_octal n) (ground arith))
