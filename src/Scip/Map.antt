-- ===== src/Scip/Map.antt =====
-- `defs_in_path` and `project_map` agree.
use aide_mcp.Base.{
  text_equal, [], ◌∷◌, none, ◌≡◌, refl, if◌then◌else◌, ◌++◌, inl, inr, List, Bool, Text, sym, ap,
  ◌∙◌, Bool-cases, text_same, map, select, List-cases, text_same_iff, append-nil, subst,
}
use aide_mcp.Scip.{
  Document, Index, ModuleEntry, defs_in_path, find, LocatedSymbol, project_map, with_path,
  has_symbols, entry_of, document_map_symbols,
}

abbrev has_path : Text → Document → Bool
has_path path d = text_same d.relative_path path

-- No two documents have one path.
abbrev pub DistinctPaths : Index → Type 0
DistinctPaths [] = Unit
DistinctPaths (doc ∷ index) =
    (find (λ d. text_same d.relative_path doc.relative_path) index ≡ none) × DistinctPaths index

-- The symbols of the entries with a path.
abbrev pub symbols_at : Text → List ModuleEntry → List LocatedSymbol
symbols_at path [] = []
symbols_at path (m ∷ ms) =
    let rest = symbols_at path ms in
    if text_same m.relative_path path
    then map (with_path m.relative_path) m.symbols ++ rest
    else rest

symbols_at-select :
    (path : Text) (ms : List ModuleEntry)
    → symbols_at path (select has_symbols ms) ≡ symbols_at path ms
symbols_at-select path [] = refl
symbols_at-select path (m ∷ ms) = elim (List-cases m.symbols) [
  | inl empty ↦ elim (Bool-cases (text_same m.relative_path path)) [
    | inl hit ↦ rw (empty, hit) (symbols_at-select path ms)
    | inr miss ↦ rw (empty, miss) (symbols_at-select path ms)
  ]
  | inr (s, ss, e) ↦ elim (Bool-cases (text_same m.relative_path path)) [
    | inl hit ↦
        rw (e, hit)
          (ap (λ r. map (with_path m.relative_path) (s ∷ ss) ++ r) (symbols_at-select path ms))
    | inr miss ↦ rw (e, miss) (symbols_at-select path ms)
  ]
]

symbols_at-none :
    (path : Text) (index : Index)
    → find (has_path path) index ≡ none
    → symbols_at path (map (entry_of []) index) ≡ []
unfolding entry_of
symbols_at-none path [] h = refl
symbols_at-none path (doc ∷ index) h = elim (Bool-cases (text_same doc.relative_path path)) [
  | inl hit ↦ absurd (cc (rw hit at h))
  | inr miss ↦ rw miss (symbols_at-none path index (rw miss at h))
]

-- The definitions of a path are those that `project_map` shows for it when it keeps all kinds, if no
-- two documents have one path.
pub defs_in_path-project_map :
    (index : Index) (path : Text)
    → DistinctPaths index
    → defs_in_path index path ≡ symbols_at path (project_map index [])
unfolding defs_in_path project_map entry_of
defs_in_path-project_map index path d =
    go index d ∙ sym (symbols_at-select path (map (entry_of []) index))
  where
    go :
        (index : Index)
        → DistinctPaths index
        → defs_in_path index path ≡ symbols_at path (map (entry_of []) index)
    go [] d = refl
    go (doc ∷ index) (apart, d) = elim (Bool-cases (text_same doc.relative_path path)) [
      | inr miss ↦ rw (miss, defs_in_path) (go index d)
      | inl hit ↦
          let same_path = (text_same_iff doc.relative_path path).0 hit in
          rw (hit, defs_in_path)
            (sym (append-nil (map (with_path doc.relative_path) (document_map_symbols doc [])))
              ∙ ap (λ r. map (with_path doc.relative_path) (document_map_symbols doc []) ++ r)
                  (sym (
                    symbols_at-none path index
                      (subst (λ (x : Text). find (has_path x) index ≡ none) same_path apart))))
    ]
