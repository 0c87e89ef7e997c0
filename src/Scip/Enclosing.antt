-- ===== src/Scip/Enclosing.antt =====
-- The definition that encloses a line, for `enclosing_definition_symbol_id` and its callers.
use mathlib.Core.Option
use mathlib.Core.Bool.{false≢true}
use aide_mcp.Base.{
  text_equal, [], ◌∷◌, none, some, true, ◌≡◌, refl, ◌++◌, inl, inr, List, Option, Text, sym, ap,
  ◌∙◌, Bool-cases, All, All-append, subst, In, In-append_left, In-append_right, Option-cases,
  append-nil, All-weaken, append_assoc,
}
use aide_mcp.Base.Int.{ℤ, leb_int, leb_int_trans, leb_int-total, leb_int_refl}
use aide_mcp.Scip.{
  Occurrence, consider, best_of, enclosing_definition_symbol_id, defines, better, Document, head_of,
}

-- A definition that starts at `start`, on the line or before.
abbrev pub IsCandidate : ℤ → Occurrence → ℤ → Type 0
IsCandidate line occ start =
    (defines occ ≡ true) × (head_of occ.range ≡ some start) × (leb_int start line ≡ true)

-- Of the occurrences `occs`, the one that starts last of all candidates, or none if there is none.
abbrev pub IsNearest : ℤ → List Occurrence → Option (ℤ × Text) → Type 0
IsNearest line occs none = All (λ o. (s : ℤ) → IsCandidate line o s → ⊥) occs
IsNearest line occs (some (start, id)) =
    ((occ : Occurrence) × In occ occs × IsCandidate line occ start × (occ.symbol ≡ id))
    × All (λ o. (s : ℤ) → IsCandidate line o s → leb_int s start ≡ true) occs

no_candidate :
    (line : ℤ) (occs : List Occurrence) (occ : Occurrence) (best : Option (ℤ × Text))
    → ((s : ℤ) → IsCandidate line occ s → ⊥)
    → IsNearest line occs best
    → IsNearest line (occs ++ occ ∷ []) best
no_candidate line occs occ none none_here h = All-append _ occs (occ ∷ []) h (none_here, tt)
no_candidate line occs occ (some (start, id)) none_here ((o, m, c, e), h) = (
  (o, In-append_left o occs (occ ∷ []) m, c, e),
  All-append _ occs (occ ∷ []) h ((λ s c'. absurd (none_here s c')), tt),
)

candidate_time :
    (line : ℤ) (occ : Occurrence) (s t : ℤ)
    → head_of occ.range ≡ some s
    → IsCandidate line occ t
    → s ≡ t
candidate_time line occ s t h (d, f, l) = cc (sym h ∙ f)

a_candidate :
    (line : ℤ) (occs : List Occurrence) (occ : Occurrence) (start : ℤ) (best : Option (ℤ × Text))
    → IsCandidate line occ start
    → IsNearest line occs best
    → IsNearest line (occs ++ occ ∷ []) (better start occ.symbol best)
a_candidate line occs occ start none c h = (
  (occ, In-append_right occ occs (occ ∷ []) (inl refl), c, refl),
  All-append _ occs (occ ∷ []) (All-weaken _ _ occs (λ o not_one s c'. absurd (not_one s c')) h)
      ((λ s c'. rw (candidate_time line occ start s c.1 c') (leb_int_refl s)), tt),
)
a_candidate line occs occ start (some (b, id)) c ((o, m, co, e), h) =
    elim (Bool-cases (leb_int b start)) [
      | inl later ↦ rw later (
        (occ, In-append_right occ occs (occ ∷ []) (inl refl), c, refl),
        All-append _ occs (occ ∷ [])
            (All-weaken _ _ occs (λ o' below s c'. leb_int_trans s b start (below s c') later) h)
            ((λ s c'. rw (candidate_time line occ start s c.1 c') (leb_int_refl s)), tt),
      )
      | inr earlier ↦ rw earlier (
        (o, In-append_left o occs (occ ∷ []) m, co, e),
        All-append _ occs (occ ∷ []) h (
          (λ s c'. rw (← candidate_time line occ start s c.1 c') (leb_int-total b start earlier)),
          tt,
        ),
      )
    ]

consider-IsNearest :
    (line : ℤ) (occs : List Occurrence) (occ : Occurrence) (best : Option (ℤ × Text))
    → IsNearest line occs best
    → IsNearest line (occs ++ occ ∷ []) (consider line occ best)
unfolding consider
consider-IsNearest line occs occ best h = elim (Bool-cases (defines occ)) [
  | inr use_only ↦
      rw use_only (no_candidate line occs occ best (λ s (d, f, l). false≢true (sym use_only ∙ d)) h)
  | inl definition ↦ rw definition (elim (Option-cases (head_of occ.range)) [
    | inl no_range ↦
        rw no_range
          (no_candidate line occs occ best (λ s (d, f, l). absurd (cc (sym no_range ∙ f))) h)
    | inr (start, range) ↦ rw range (elim (Bool-cases (leb_int start line)) [
      | inl before ↦ rw before (a_candidate line occs occ start best (definition, range, before) h)
      | inr after ↦ rw after (
          no_candidate line occs occ best
            (λ s (d, f, l).
              false≢true (sym after ∙ ap (λ x. leb_int x line) (cc (sym range ∙ f)) ∙ l))
            h)
    ])
  ])
]

best_of-IsNearest :
    (line : ℤ) (seen occs : List Occurrence) (best : Option (ℤ × Text))
    → IsNearest line seen best
    → IsNearest line (seen ++ occs) (best_of line occs best)
unfolding best_of
best_of-IsNearest line seen [] best h = subst (λ o. IsNearest line o best) (sym (append-nil seen)) h
best_of-IsNearest line seen (occ ∷ occs) best h =
    subst (λ o. IsNearest line o (best_of line occs (consider line occ best)))
      (append_assoc seen (occ ∷ []) occs)
      (best_of-IsNearest line (seen ++ occ ∷ []) occs (consider line occ best)
        (consider-IsNearest line seen occ best h))

-- The symbol found is that of a definition which starts on the line or before, and no definition that
-- does so starts later; if none is found there is no such definition.
pub enclosing-IsNearest :
    (doc : Document) (line : ℤ)
    → (best : Option (ℤ × Text)) × (enclosing_definition_symbol_id doc line
        ≡ Option.map (λ b. b.1) best)
      × IsNearest line doc.occurrences best
unfolding enclosing_definition_symbol_id
enclosing-IsNearest doc line = (
  best_of line doc.occurrences none,
  same (best_of line doc.occurrences none),
  best_of-IsNearest line [] doc.occurrences none tt,
)
  where
    same :
        (best : Option (ℤ × Text))
        → (elim best [ none ↦ none | some (start, id) ↦ some id ]) ≡ Option.map (λ b. b.1) best
    same none = refl
    same (some (start, id)) = refl
