-- ===== src/Command/Selected/Names.antt =====
-- The loops of get_files.
use lua_testcase.Common.{
  Bool, true, false, List, [], ◌∷◌, ◌++◌, Option, none, some, if◌then◌else◌, ℕ, ◌+◌, arith, ◌≡◌,
  Option-cases, inl, inr, Bool-cases, ◌∙◌, ap, ◌⊎◌, sym, refl,
}
use lua_testcase.Paths.{Text, same, same_iff}
use lua_testcase.Command.{failure_status}
use lua_testcase.Command.Selected.{
  Listing, listed, missing, failed, Result, got, exited, ipairs_error, contains, names_loop,
  files_loop,
}

abbrev pub is_got : {A : Type 0} → Result A → Bool
is_got (got a) = true
is_got r = false

pub result_cases : {A : Type 0} (r : Result A) → ((a : A) × (r ≡ got a)) ⊎ (is_got r ≡ false)
result_cases (got a) = inl (a, refl)
result_cases (exited n) = inr refl
result_cases ipairs_error = inr refl

abbrev pub is_listed : Listing → Bool
is_listed (listed l) = true
is_listed r = false

pub listing_cases : (x : Listing) → ((l : List Text) × (x ≡ listed l)) ⊎ (is_listed x ≡ false)
listing_cases (listed l) = inl (l, refl)
listing_cases missing = inr refl
listing_cases failed = inr refl

module _ (realpath : Text → Option Text) (getfiles : Text → Option Text → Listing) where
  abbrev pub is_path : Text → Text → Bool
  is_path q f = elim (realpath f) [ none ↦ false | some path ↦ same path q ]

  -- How many of the names are of the file, and whether any is.
  abbrev pub occurs : Text → List Text → ℕ
  occurs q [] = 0
  occurs q (f ∷ l) = (if is_path q f then 1 else 0) + occurs q l

  abbrev pub has_path : Text → List Text → Bool
  has_path q [] = false
  has_path q (f ∷ l) = if is_path q f then true else has_path q l

  abbrev pub in_listing : Text → Listing → Bool
  in_listing q (listed names) = has_path q names
  in_listing q missing = false
  in_listing q failed = false

  -- Whether getfiles lists the file for any of the paths.
  abbrev pub has_listed : Option Text → Text → List Text → Bool
  has_listed suffix q [] = false
  has_listed suffix q (p ∷ l) =
      if in_listing q (getfiles p suffix) then true else has_listed suffix q l

  occurs-append :
      (q f : Text) (l : List Text)
      → occurs q (l ++ f ∷ []) ≡ occurs q l + (if is_path q f then 1 else 0)
  occurs-append q f [] = omega arith
  occurs-append q f (g ∷ l) = omega (arith, occurs-append q f l)

  -- The paths seen are those of the names, each of one of them.
  abbrev pub Agree : List Text → List Text → Type 0
  Agree seen files = (q : Text) → occurs q files ≡ (if contains q seen then 1 else 0)

  abbrev pub Grown : List Text → (Text → Bool) → List Text × List Text → Type 0
  Grown seen f (seen', files') =
      Agree seen' files' × ((q : Text) → contains q seen' ≡ (if contains q seen then true else f q))

  abbrev pub IfGot : {A : Type 0} → (A → Type 0) → Result A → Type 0
  IfGot P (got a) = P a
  IfGot P (exited n) = Unit
  IfGot P ipairs_error = Unit

  pub IfGot-map :
      {A : Type 0} (P Q : A → Type 0) (r : Result A) → ((a : A) → P a → Q a) → IfGot P r → IfGot Q r
  IfGot-map P Q (got a) f h = f a h
  IfGot-map P Q (exited n) f h = tt
  IfGot-map P Q ipairs_error f h = tt

  pub IfGot-none : {A : Type 0} (P : A → Type 0) (r : Result A) → is_got r ≡ false → IfGot P r
  IfGot-none P (got a) e = absurd (cc e)
  IfGot-none P (exited n) e = tt
  IfGot-none P ipairs_error e = tt

  names_loop_lem :
      (seen files l : List Text)
      → Agree seen files
      → IfGot (Grown seen (λ q. has_path q l)) (names_loop realpath getfiles seen files l)
  unfolding names_loop
  names_loop_lem seen files [] h = (h, λ q. ground arith)
  names_loop_lem seen files (f ∷ l) h = elim (Option-cases (realpath f)) [
    | inl fails ↦
        let step : names_loop realpath getfiles seen files (f ∷ l) ≡ exited failure_status =
          ground arith in
        rw step tt
    | inr (path, is) ↦
        let at : (q : Text) → is_path q f ≡ same path q = λ q. ground arith in
        elim (Bool-cases (contains path seen)) [
          | inl old ↦
              let step : names_loop realpath getfiles seen files (f ∷ l)
                  ≡ names_loop realpath getfiles seen files l =
                ground arith in
              let is_old : (q : Text) → is_path q f ≡ true → contains q seen ≡ true = λ q e.
                ap (λ r. contains r seen) (sym ((same_iff path q).0 (sym (at q) ∙ e))) ∙ old in
              rw step (
                IfGot-map _ _ (names_loop realpath getfiles seen files l)
                  (λ x g. (g.0, λ q. g.1 q ∙ ground (arith, is_old q)))
                  (names_loop_lem seen files l h))
          | inr new ↦
              let step : names_loop realpath getfiles seen files (f ∷ l)
                  ≡ names_loop realpath getfiles (path ∷ seen) (files ++ f ∷ []) l =
                ground arith in
              let h' : Agree (path ∷ seen) (files ++ f ∷ []) = λ q.
                let is_new : same path q ≡ true → contains q seen ≡ false =
                  λ e. ap (λ r. contains r seen) (sym ((same_iff path q).0 e)) ∙ new in
                occurs-append q f files ∙ ground (arith, h q, at q, is_new) in
              rw step (
                IfGot-map _ _ (names_loop realpath getfiles (path ∷ seen) (files ++ f ∷ []) l)
                  (λ x g. (g.0, λ q. g.1 q ∙ ground (arith, at q)))
                  (names_loop_lem (path ∷ seen) (files ++ f ∷ []) l h'))
        ]
  ]

  pub files_loop_lem :
      (suffix : Option Text) (seen files l : List Text)
      → Agree seen files
      → IfGot
          (λ files'.
            (q : Text)
            → occurs q files'
              ≡ (if (if contains q seen then true else has_listed suffix q l) then 1 else 0))
          (files_loop realpath getfiles suffix seen files l)
  unfolding files_loop
  files_loop_lem suffix seen files [] h = λ q. h q ∙ ground arith
  files_loop_lem suffix seen files (p ∷ l) h = elim (listing_cases (getfiles p suffix)) [
    | inl (names, e) ↦
        let rest = names_loop_lem seen files names h in
        let in_names : (q : Text) → in_listing q (getfiles p suffix) ≡ has_path q names =
          λ q. ap (in_listing q) e in
        elim (result_cases (names_loop realpath getfiles seen files names)) [
          | inl ((seen', files'), r) ↦
              let g : Grown seen (λ q. has_path q names) (seen', files') = rw r at rest in
              let step : files_loop realpath getfiles suffix seen files (p ∷ l)
                  ≡ files_loop realpath getfiles suffix seen' files' l =
                ground arith in
              rw step (
                IfGot-map _ _ (files_loop realpath getfiles suffix seen' files' l)
                  (λ x d q. d q ∙ ground (arith, g.1 q, in_names q))
                  (files_loop_lem suffix seen' files' l g.0))
          | inr none_got ↦
              IfGot-none _ (files_loop realpath getfiles suffix seen files (p ∷ l))
                (ground (arith, none_got))
        ]
    | inr ends ↦
        IfGot-none _ (files_loop realpath getfiles suffix seen files (p ∷ l)) (ground (arith, ends))
  ]

  abbrev pub all_found : List Text → Bool
  all_found [] = true
  all_found (f ∷ l) = elim (realpath f) [ none ↦ false | some path ↦ all_found l ]

  abbrev pub is_fine : Listing → Bool
  is_fine (listed names) = all_found names
  is_fine missing = false
  is_fine failed = false

  -- Whether getfiles lists each path, and all the files that it lists are found.
  abbrev pub all_listed : Option Text → List Text → Bool
  all_listed suffix [] = true
  all_listed suffix (p ∷ l) = if is_fine (getfiles p suffix) then all_listed suffix l else false

  names_loop_got :
      (seen files l : List Text)
      → all_found l ≡ true
      → is_got (names_loop realpath getfiles seen files l) ≡ true
  unfolding names_loop
  names_loop_got seen files [] h = refl
  names_loop_got seen files (f ∷ l) h = elim (Option-cases (realpath f)) [
    | inl fails ↦ absurd (ground (arith, h, fails))
    | inr (path, is) ↦
        let rest : all_found l ≡ true = ground (arith, h, is) in
        ground (
          arith,
          names_loop_got seen files l rest,
          names_loop_got (path ∷ seen) (files ++ f ∷ []) l rest,
        )
  ]

  pub files_loop_got :
      (suffix : Option Text) (seen files l : List Text)
      → all_listed suffix l ≡ true
      → is_got (files_loop realpath getfiles suffix seen files l) ≡ true
  unfolding files_loop
  files_loop_got suffix seen files [] h = refl
  files_loop_got suffix seen files (p ∷ l) h = elim (listing_cases (getfiles p suffix)) [
    | inl (names, e) ↦
        let found : all_found names ≡ true = sym (ap is_fine e) ∙ ground arith in
        let more : all_listed suffix l ≡ true = ground (arith, h) in
        let got_names = names_loop_got seen files names found in
        elim (result_cases (names_loop realpath getfiles seen files names)) [
          | inl ((seen', files'), r) ↦
              let rest = files_loop_got suffix seen' files' l more in ground (arith, rest)
          | inr none_got ↦ absurd (ground (arith, got_names, none_got))
        ]
    | inr ends ↦ absurd (ground (arith, h, ends))
  ]
