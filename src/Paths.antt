-- ===== src/Paths.antt =====
-- lib/trim.lua, and trim_cwd of lib/filesystem.lua: names of files, as their bytes.
mod Tests
use lua_testcase.Common.{
  ℕ, ◌-◌, ◌==◌, ◌≡◌, Bool, true, false, List, [], ◌∷◌, ◌++◌, length, take, drop, if◌then◌else◌,
  arith, refl, drop-length-append, ◌≢◌, ap, length-append, sym, ◌∙◌, ◌↔◌,
}

abbrev pub Text : Type 0
Text = List ℕ

abbrev pub same : Text → Text → Bool
same [] [] = true
same [] (y ∷ t) = false
same (x ∷ s) [] = false
same (x ∷ s) (y ∷ t) = if x == y then same s t else false

-- sub(s, -n): from 0 it is the whole text.
abbrev pub last_bytes : ℕ → Text → Text
last_bytes n s = if n == 0 then s else drop (length s - n) s

unfoldable pub trim_suffix : Text → Text → Text
trim_suffix s suffix =
    if same (last_bytes (length suffix) s) suffix then take (length s - length suffix) s else s

unfoldable pub trim_prefix : Text → Text → Text
trim_prefix s prefix = if same (take (length prefix) s) prefix then drop (length prefix) s else s

abbrev pub slash : Text
slash = b'/' ∷ []

-- The constant CWD is a parameter.
unfoldable pub trim_cwd : Text → Text → Text
unfolding trim_prefix
trim_cwd cwd pathname =
    if same (take (length cwd) pathname) cwd
    then trim_prefix (trim_prefix pathname cwd) slash
    else pathname

abbrev pub has_slash : Text → Bool
has_slash [] = false
has_slash (x ∷ s) = x == b'/'

-- What a name stands for in a directory.
abbrev pub resolved : Text → Text → Text
resolved dir name = if has_slash name then name else dir ++ (b'/' ∷ name)

same_refl : (s : Text) → same s s ≡ true
same_refl [] = refl
same_refl (x ∷ s) = ground (arith, same_refl s)

same_eq : (s t : Text) → same s t ≡ true → s ≡ t
same_eq [] [] h = refl
same_eq [] (y ∷ t) h = cc
same_eq (x ∷ s) [] h = cc
same_eq (x ∷ s) (y ∷ t) h =
    let one : x ≡ y = ground (arith, h) in
    let rest : s ≡ t = same_eq s t (ground (arith, h)) in rw (one, rest) refl

pub same_iff : (s t : Text) → (same s t ≡ true) ↔ (s ≡ t)
same_iff s t = (same_eq s t, λ e. ap (same s) (sym e) ∙ same_refl s)

take-append : (s t : Text) → take (length s) (s ++ t) ≡ s
take-append [] t = refl
take-append (x ∷ s) t = rw (take-append s t) refl

-- The name begins with the text.
abbrev pub begins : Text → Text → Bool
begins cwd p = same (take (length cwd) p) cwd

trim_cwd-append : (cwd x : Text) → trim_cwd cwd (cwd ++ x) ≡ trim_prefix x slash
unfolding trim_cwd
trim_cwd-append cwd x = rw (take-append cwd x, same_refl cwd, drop-length-append cwd x) refl

-- trim_cwd makes of the absolute name of a file below the working directory CWD, where one slash and
-- no second one follows the bytes of CWD, a relative name that stands for the same file in CWD; and of
-- an absolute name that does not begin with the bytes of CWD a name that stands for the same file.
pub resolved-trim_cwd :
    (cwd : Text)
    → ((rest : Text)
        → has_slash rest ≡ false
        → resolved cwd (trim_cwd cwd (cwd ++ (b'/' ∷ rest))) ≡ cwd ++ (b'/' ∷ rest))
      × ((p : Text) → has_slash p ≡ true → begins cwd p ≡ false → resolved cwd (trim_cwd cwd p) ≡ p)
unfolding trim_prefix trim_cwd
resolved-trim_cwd cwd =
    (λ rest h. rw (trim_cwd-append cwd (b'/' ∷ rest)) (rw h refl), λ p h e. rw e (rw h refl))

-- trim_cwd cuts any name that begins with the bytes of CWD, also where they are not followed by a
-- slash: of the absolute name of a file in a sibling directory whose name begins as that of CWD
-- does, it makes a name that stands for another file, one below CWD.
pub trim_cwd_sibling :
    (cwd x : Text)
    → has_slash x ≡ false
    → let named = resolved cwd (trim_cwd cwd (cwd ++ x)) in
      (named ≡ cwd ++ (b'/' ∷ x)) × (named ≢ cwd ++ x)
unfolding trim_prefix
trim_cwd_sibling cwd x h =
    let named : resolved cwd (trim_cwd cwd (cwd ++ x)) ≡ cwd ++ (b'/' ∷ x) =
      rw (trim_cwd-append cwd x) (not_cut x h) in
    (named, λ e. longer (sym named ∙ e))
  where
    not_cut :
        (x : Text) → has_slash x ≡ false → resolved cwd (trim_prefix x slash) ≡ cwd ++ (b'/' ∷ x)
    not_cut [] h = refl
    not_cut (y ∷ x) h = rw h (rw h refl)

    longer : cwd ++ (b'/' ∷ x) ≡ cwd ++ x → ⊥
    longer e = omega (arith, ap length e, length-append cwd (b'/' ∷ x), length-append cwd x)
