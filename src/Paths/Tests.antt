-- ===== src/Paths/Tests.antt =====
-- trim_cwd of lib/filesystem.lua in the directory /w, and its theorems there.
use lua_testcase.Common.{◌∷◌, ◌≡◌, false, [], ◌++◌, refl, true, ◌≢◌}
use lua_testcase.Paths.{
  trim_cwd, resolved, resolved-trim_cwd, trim_cwd_sibling, Text, has_slash, begins,
}

abbrev cwd : Text
cwd = b'/' ∷ b'w' ∷ []

below : trim_cwd cwd (b'/' ∷ b'w' ∷ b'/' ∷ b'a' ∷ []) ≡ b'a' ∷ []
unfolding trim_cwd
below = refl

resolved-trim_cwd_example :
    ((rest : Text)
      → has_slash rest ≡ false
      → resolved cwd (trim_cwd cwd (cwd ++ (b'/' ∷ rest))) ≡ cwd ++ (b'/' ∷ rest))
    × ((p : Text) → has_slash p ≡ true → begins cwd p ≡ false → resolved cwd (trim_cwd cwd p) ≡ p)
resolved-trim_cwd_example = resolved-trim_cwd cwd

-- The file a of the directory /wx is named x/a.
trim_cwd_sibling_example :
    let x : Text = b'x' ∷ b'/' ∷ b'a' ∷ [] in
    (resolved cwd (trim_cwd cwd (cwd ++ x)) ≡ cwd ++ (b'/' ∷ x))
    × (resolved cwd (trim_cwd cwd (cwd ++ x)) ≢ cwd ++ x)
trim_cwd_sibling_example = trim_cwd_sibling cwd (b'x' ∷ b'/' ∷ b'a' ∷ []) refl
