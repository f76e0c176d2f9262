-- ===== src/Printer/Loops.antt =====
-- The loop of parse_format outside a specifier and inside one.
use lua_testcase.Common.{
  ℕ, suc, ◌+◌, ◌==◌, Bool, true, false, List, [], ◌∷◌, ◌++◌, if◌then◌else◌, length, ◌≡◌, refl,
  arith, ap, ◌∙◌, take, drop, ◌-◌, ltb,
}
use lua_testcase.Paths.{Text}
use lua_testcase.Printer.{Parsed, char_at, step, parse_loop}

-- Whether the byte is '%' or a space.
abbrev pub is_end : ℕ → Bool
is_end c = if c == b'%' then true else c == b' '

abbrev pub has_end : Text → Bool
has_end [] = false
has_end (c ∷ s) = if is_end c then true else has_end s

abbrev pub has_percent : Text → Bool
has_percent [] = false
has_percent (c ∷ s) = if c == b'%' then true else has_percent s

abbrev pub idle : ℕ → List (Text × ℕ) → Parsed
idle n ps = record { position = 0; nparam = n; params = ps }

abbrev pub inside : ℕ → ℕ → List (Text × ℕ) → Parsed
inside o n ps = record { position = suc o; nparam = n; params = ps }

module _ (s : Text) where
  -- Text without '%' outside a specifier.
  pub step_plain :
      (i c n : ℕ) (ps : List (Text × ℕ)) → (c == b'%') ≡ false → step s i c (idle n ps) ≡ idle n ps
  unfolding step
  step_plain i c n ps h = rw h refl

  pub loop_plain :
      (i : ℕ) (t rest : Text) (n : ℕ) (ps : List (Text × ℕ))
      → has_percent t ≡ false
      → parse_loop s i (t ++ rest) (idle n ps) ≡ parse_loop s (i + length t) rest (idle n ps)
  unfolding parse_loop
  loop_plain i [] rest n ps h = ap (λ j. parse_loop s j rest (idle n ps)) (omega arith)
  loop_plain i (c ∷ t) rest n ps h =
      ap (parse_loop s (i + 1) (t ++ rest)) (step_plain i c n ps (ground (arith, h)))
      ∙ loop_plain (i + 1) t rest n ps (ground (arith, h))
      ∙ ap (λ j. parse_loop s j rest (idle n ps)) (omega arith)

  -- Text without '%' or a space inside a specifier.
  pub step-inside :
      (i c o n : ℕ) (ps : List (Text × ℕ))
      → is_end c ≡ false
      → step s i c (inside o n ps) ≡ inside o n ps
  unfolding step
  step-inside i c o n ps h = ground (arith, h)

  pub loop_inside :
      (i o : ℕ) (t rest : Text) (n : ℕ) (ps : List (Text × ℕ))
      → has_end t ≡ false
      → parse_loop s i (t ++ rest) (inside o n ps)
        ≡ parse_loop s (i + length t) rest (inside o n ps)
  unfolding parse_loop
  loop_inside i o [] rest n ps h = ap (λ j. parse_loop s j rest (inside o n ps)) (omega arith)
  loop_inside i o (c ∷ t) rest n ps h =
      ap (parse_loop s (i + 1) (t ++ rest)) (step-inside i c o n ps (ground (arith, h)))
      ∙ loop_inside (i + 1) o t rest n ps (ground (arith, h))
      ∙ ap (λ j. parse_loop s j rest (inside o n ps)) (omega arith)

  pub step_open : (o n : ℕ) (ps : List (Text × ℕ)) → step s (suc o) b'%' (idle n ps) ≡ inside o n ps
  unfolding step
  step_open o n ps = refl

  pub step_shut :
      (o k n : ℕ) (ps : List (Text × ℕ))
      → step s (suc o + suc (suc k)) b' ' (inside o n ps)
        ≡ idle (n + 1) (ps ++ (char_at (suc o + 1) s, n + 1) ∷ [])
  unfolding step
  step_shut o k n ps =
      let e : ltb 1 ((suc o + suc (suc k)) - suc o) ≡ true = ground arith in
      let f : ltb 0 (suc o) ≡ true = ground arith in rw f (rw e refl)

  pub loop_open :
      (o : ℕ) (c : ℕ) (t rest : Text) (n : ℕ) (ps : List (Text × ℕ))
      → is_end c ≡ false
      → has_end t ≡ false
      → parse_loop s (suc o) (b'%' ∷ c ∷ (t ++ rest)) (idle n ps)
        ≡ parse_loop s (suc o + suc (suc (length t))) rest (inside o n ps)
  unfolding parse_loop
  loop_open o c t rest n ps h g =
      ap (λ p. parse_loop s ((suc o + 1) + 1) (t ++ rest) (step s (suc o + 1) c p))
        (step_open o n ps)
      ∙ ap (parse_loop s ((suc o + 1) + 1) (t ++ rest)) (step-inside (suc o + 1) c o n ps h)
      ∙ loop_inside ((suc o + 1) + 1) o t rest n ps g
      ∙ ap (λ j. parse_loop s j rest (inside o n ps)) (omega arith)

  pub step_escape :
      (o : ℕ) (rest : Text) (n : ℕ) (ps : List (Text × ℕ))
      → parse_loop s (suc o) (b'%' ∷ b'%' ∷ rest) (idle n ps)
        ≡ parse_loop s (suc o + 2) rest (idle n ps)
  unfolding parse_loop step
  step_escape o rest n ps =
      let e : (suc o + 1) + 1 ≡ suc o + 2 = omega arith in
      let f : (suc o == 0) ≡ false = ground arith in
      rw f (ap (λ j. parse_loop s j rest (idle n ps)) e)

pub drop_before : (pre x : Text) (y : ℕ) → drop (suc (length pre)) (pre ++ (y ∷ x)) ≡ x
drop_before [] x y = refl
drop_before (z ∷ pre) x y = drop_before pre x y

-- The byte after the '%'.
pub char_after :
    (pre x s : Text) (c : ℕ) → s ≡ pre ++ (b'%' ∷ c ∷ x) → char_at (suc (length pre) + 1) s ≡ c ∷ []
char_after pre x s c e =
    ap (λ k. take 1 (drop k s)) (the_index (length pre))
    ∙ ap (λ t. take 1 (drop (suc (length pre)) t)) e
    ∙ ap (take 1) (drop_before pre (c ∷ x) b'%')
  where
    the_index : (k : ℕ) → (suc k + 1) - 1 ≡ suc k
    the_index k = omega arith
