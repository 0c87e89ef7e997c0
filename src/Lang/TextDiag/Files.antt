-- ===== src/Lang/TextDiag/Files.antt =====
-- The file that a line names up to its first colon is found, whatever other extensions are tried.
use aide_mcp.Base.{
  text_equal, [], ◌∷◌, some, true, Text, ◌++◌, ◌≡◌, refl, ap, inl, inr, Bool-cases, none, false,
  arith, List, Option, ◌<◌, ◌⊎◌, sym, ◌∙◌, subst, Option-cases, ap₂, All, length, ◌==◌, any, drop,
  append_assoc, ltb, In,
}
use aide_mcp.Base.Strings.{starts_with}
use aide_mcp.Lang.TextDiag.{find, colon, space, candidate, earliest, scan_exts}
use aide_mcp.Lang.TextDiag.Parts.{drop-append, find-ext}

-- What is found stands in the text.
splits_here :
    (p t before at : Text)
    → ◌≡◌ {A = Option (Text × Text)} (some ([], t)) (some (before, at))
    → starts_with p t ≡ true
    → (t ≡ before ++ at) × (starts_with p at ≡ true)
splits_here p t before at h there =
    let first : [] ≡ before = cc h in
    let second : t ≡ at = cc h in
    (second ∙ ap (λ b. b ++ at) first, subst (λ x. starts_with p x ≡ true) second there)

find-splits :
    (p s before at : Text)
    → find p s ≡ some (before, at)
    → (s ≡ before ++ at) × (starts_with p at ≡ true)
unfolding find
find-splits p [] before at h = elim (Bool-cases (starts_with p [])) [
  | inl here ↦ splits_here p [] before at (rw (here, find) at h) here
  | inr miss ↦ absurd (cc (rw (miss, find) at h))
]
find-splits p (c ∷ s) before at h = elim (Bool-cases (starts_with p (c ∷ s))) [
  | inl here ↦ splits_here p (c ∷ s) before at (rw here at h) here
  | inr miss ↦ elim (Option-cases (find p s)) [
    | inl none_later ↦ absurd (cc (rw none_later at (rw miss at h)))
    | inr ((b, a), later) ↦
        let g = rw later at (rw miss at h) in
        let first : c ∷ b ≡ before = cc g in
        let second : a ≡ at = cc g in
        let (split, there) = find-splits p s b a later in
        (
          ap (λ t. c ∷ t) split ∙ ap (λ t. t ++ a) first ∙ ap (λ t. before ++ t) second,
          subst (λ x. starts_with p x ≡ true) second there,
        )
  ]
]

starts_with-splits : (p s : Text) → starts_with p s ≡ true → (more : Text) × (s ≡ p ++ more)
starts_with-splits [] s h = (s, refl)
starts_with-splits (c ∷ p) [] h = absurd (ground (arith, h))
starts_with-splits (c ∷ p) (d ∷ s) h =
    let (more, e) = starts_with-splits p s (ground (arith, h)) in
    let same : d ≡ c = ground (arith, h) in (more, ap₂ (λ x t. x ∷ t) same e)

-- A text without a colon, before a colon: another text before a colon is the same or longer.
first_colon :
    (file g rest more : Text)
    → All (λ c. (c == colon) ≡ false) file
    → file ++ colon ∷ rest ≡ g ++ colon ∷ more
    → ((g ≡ file) × (more ≡ rest)) ⊎ (length file < length g)
first_colon [] [] rest more h e = inl (refl, cc (sym e))
first_colon [] (x ∷ g) rest more h e = inr (omega arith)
first_colon (c ∷ file) [] rest more (hc, h) e =
    let same : c ≡ colon = cc e in absurd (ground (arith, hc, same))
first_colon (c ∷ file) (x ∷ g) rest more (hc, h) e =
    let same : c ≡ x = cc e in
    elim (first_colon file g rest more h (cc e)) [
      | inl (eq, others) ↦ inl (ap₂ (λ y t. y ∷ t) (sym same) eq, others)
      | inr longer ↦ inr (omega (arith, longer))
    ]

-- No end of the file, or one behind its first colon.
abbrev IsLater : Text → Option (Text × Text) → Type 0
IsLater file o = (o ≡ none) ⊎ ((q : Text × Text) × (o ≡ some q) × (length file < length q.0))

module _ (file rest : Text) (no_colon : All (λ c. (c == colon) ≡ false) file)
    (no_space : any (λ c. c == space) file ≡ false) where
  abbrev IsEnd : Option (Text × Text) → Type 0
  IsEnd o = o ≡ some (file, colon ∷ rest)

  kept_or_none :
      (ext before at more : Text)
      → at ≡ ext ++ colon ∷ more
      → ((before ++ ext ≡ file) × (more ≡ rest)) ⊎ (length file < length (before ++ ext))
      → IsEnd (candidate ext (some (before, at))) ⊎ IsLater file (candidate ext (some (before, at)))
  kept_or_none ext before at more there (inl (same, others)) =
      let behind : drop (length ext) at ≡ colon ∷ rest =
        ap (drop (length ext)) there
        ∙ drop-append ext (colon ∷ more)
        ∙ ap (λ t. colon ∷ t) others in
      inl (rw (same, candidate) (rw no_space (rw behind refl)))
  kept_or_none ext before at more there (inr longer) =
      elim (Bool-cases (any (λ c. c == space) (before ++ ext))) [
        | inl blank ↦ inr (inl (rw (blank, candidate) refl))
        | inr plain ↦
            inr (inr ((before ++ ext, drop (length ext) at), rw (plain, candidate) refl, longer))
      ]

  candidate_cases :
      (ext : Text)
      → let o = candidate ext (find (ext ++ colon ∷ []) (file ++ colon ∷ rest)) in
        IsEnd o ⊎ IsLater file o
  candidate_cases ext = go (find (ext ++ colon ∷ []) (file ++ colon ∷ rest)) refl
    where
      go :
          (f : Option (Text × Text))
          → find (ext ++ colon ∷ []) (file ++ colon ∷ rest) ≡ f
          → IsEnd (candidate ext f) ⊎ IsLater file (candidate ext f)
      go none e = inr (inl refl)
      go (some (before, at)) e =
          let (split, there) = find-splits (ext ++ colon ∷ []) (file ++ colon ∷ rest) before at e in
          let (more, ends) = starts_with-splits (ext ++ colon ∷ []) at there in
          let shape : at ≡ ext ++ colon ∷ more = ends ∙ append_assoc ext (colon ∷ []) more in
          kept_or_none ext before at more shape (
            first_colon file (before ++ ext) rest more no_colon
              (split ∙ ap (λ t. before ++ t) shape ∙ sym (append_assoc before ext (colon ∷ more))))

  -- How long two names are of which one is known.
  same_length :
      (p q : Text × Text)
      → ◌≡◌ {A = Option (Text × Text)} (some p) (some q)
      → length p.0 ≡ length q.0
  same_length p q e = let same : p ≡ q = cc e in ap (λ (x : Text × Text). length x.0) same

  earliest-IsEnd :
      (best o : Option (Text × Text))
      → IsEnd best
      → IsEnd o ⊎ IsLater file o
      → IsEnd (earliest best o)
  earliest-IsEnd none o e h = absurd (cc e)
  earliest-IsEnd (some p) none e h = e
  earliest-IsEnd (some p) (some q) e (inl e') = elim (Bool-cases (ltb (length q.0) (length p.0))) [
    | inl less ↦ rw less e'
    | inr more ↦ rw more e
  ]
  earliest-IsEnd (some p) (some q) e (inr (inl gone)) = absurd (cc gone)
  earliest-IsEnd (some p) (some q) e (inr (inr (r, there, longer))) =
      let a = same_length p (file, colon ∷ rest) e in
      let b = same_length q r there in
      elim (Bool-cases (ltb (length q.0) (length p.0))) [
        | inl less ↦ absurd (ground (arith, less, a, b, longer))
        | inr more ↦ rw more e
      ]

  earliest-new :
      (best o : Option (Text × Text)) → IsLater file best → IsEnd o → IsEnd (earliest best o)
  earliest-new best none later e = absurd (cc e)
  earliest-new none (some q) later e = e
  earliest-new (some p) (some q) (inl gone) e = absurd (cc gone)
  earliest-new (some p) (some q) (inr (r, there, longer)) e =
      let a = same_length q (file, colon ∷ rest) e in
      let b = same_length p r there in
      elim (Bool-cases (ltb (length q.0) (length p.0))) [
        | inl less ↦ rw less e
        | inr more ↦ absurd (ground (arith, more, a, b, longer))
      ]

  earliest-both :
      (best o : Option (Text × Text))
      → IsLater file best
      → IsLater file o
      → IsLater file (earliest best o)
  earliest-both best none h k = h
  earliest-both none (some q) h k = k
  earliest-both (some p) (some q) h k = elim (Bool-cases (ltb (length q.0) (length p.0))) [
    | inl less ↦ rw less k
    | inr more ↦ rw more h
  ]

  earliest-IsLater :
      (best o : Option (Text × Text))
      → IsLater file best
      → IsEnd o ⊎ IsLater file o
      → IsEnd (earliest best o) ⊎ IsLater file (earliest best o)
  earliest-IsLater best o later (inl e) = inl (earliest-new best o later e)
  earliest-IsLater best o later (inr further) = inr (earliest-both best o later further)

  scan-IsEnd :
      (exts : List Text) (best : Option (Text × Text))
      → IsEnd best
      → IsEnd (scan_exts exts (file ++ colon ∷ rest) best)
  unfolding scan_exts
  scan-IsEnd [] best e = e
  scan-IsEnd (ext ∷ exts) best e = scan-IsEnd exts _ (earliest-IsEnd best _ e (candidate_cases ext))

  pub scan-found :
      (stem ext : Text) (exts : List Text) (best : Option (Text × Text))
      → file ≡ stem ++ ext
      → In ext exts
      → IsLater file best
      → IsEnd (scan_exts exts (file ++ colon ∷ rest) best)
  unfolding scan_exts
  scan-found stem ext [] best same m later = absurd m
  scan-found stem ext (x ∷ exts) best same (inr m) later =
      elim (earliest-IsLater best _ later (candidate_cases x)) [
        | inl e ↦ scan-IsEnd exts _ e
        | inr still ↦ scan-found stem ext exts _ same m still
      ]
  scan-found stem ext (x ∷ exts) best same (inl here) later = scan-IsEnd exts _ (
      earliest-new best _ later (
        subst (λ y. IsEnd (candidate y (find (y ++ colon ∷ []) (file ++ colon ∷ rest)))) here
          (own stem ext same)))
    where
      own :
          (stem ext : Text)
          → file ≡ stem ++ ext
          → IsEnd (candidate ext (find (ext ++ colon ∷ []) (file ++ colon ∷ rest)))
      own stem ext same =
          let line : file ++ colon ∷ rest ≡ stem ++ (ext ++ colon ∷ rest) =
            ap (λ f. f ++ colon ∷ rest) same ∙ append_assoc stem ext (colon ∷ rest) in
          let found : find (ext ++ colon ∷ []) (file ++ colon ∷ rest)
              ≡ some (stem, ext ++ colon ∷ rest) =
            ap (find (ext ++ colon ∷ [])) line
            ∙ find-ext stem ext rest (subst (All (λ c. (c == colon) ≡ false)) same no_colon) in
          rw (found, candidate)
            (rw (← same) (rw no_space (rw (drop-append ext (colon ∷ rest)) refl)))
