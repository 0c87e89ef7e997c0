-- ===== src/Indexer/Store/Files.antt =====
-- Where the index files go that the retention loop takes out of the store.
use aide_mcp.Base.{
  text_equal, List, Text, ℕ, ◌≡◌, some, ◌⊎◌, In, inl, ◌∷◌, Bool-cases, text_same, text_same_iff,
  inr, ◌∙◌, [], none, refl, ◌++◌, In-append_right, arith, Option, sym, subst, Option-cases,
  same_refl,
}
use aide_mcp.Indexer.Store.{evict, optional, freed}
use aide_mcp.Base.Map.{Map, get, remove, get-remove}
use aide_mcp.Indexer.State.{CommitEntry}
use aide_mcp.Indexer.Store.Evict.{has_key, get-evict}

In-freed :
    (p : Text) (o : Option CommitEntry) (paths : List Text) → In p paths → In p (freed o paths)
In-freed p none paths h = h
In-freed p (some e) paths h = In-append_right p (optional e.index_path) paths h

In-optional :
    (p : Text) (o : Option Text) (paths : List Text) → o ≡ some p → In p (optional o ++ paths)
In-optional p none paths h = absurd (cc h)
In-optional p (some q) paths h = inl (ground (arith, h))

-- A tracked file stays tracked, or its path is handed out.
pub evict_conserves :
    (ps : List (Text × ℕ)) (m : Map Text CommitEntry) (k p : Text) (e : CommitEntry)
    → get k m ≡ some e
    → e.index_path ≡ some p
    → (get k (evict ps m).0 ≡ some e) ⊎ In p (evict ps m).1
unfolding evict
evict_conserves [] m k p e g h = inl g
evict_conserves (q ∷ ps) m k p e g h = elim (Bool-cases (text_same q.0 k)) [
  | inl s ↦
      let gq : get q.0 m ≡ some e = rw ((text_same_iff q.0 k).0 s) g in
      inr (
        subst (λ o. In p (freed o (evict ps (remove q.0 m)).1)) (sym gq)
          (In-optional p e.index_path _ h))
  | inr s ↦ elim (evict_conserves ps (remove q.0 m) k p e (get-remove q.0 k m ∙ rw s g) h) [
    | inl stays ↦ inl stays
    | inr out ↦ inr (In-freed p (get q.0 m) _ out)
  ]
]

In-of_optional :
    (p : Text) (o : Option Text) (paths : List Text)
    → In p (optional o ++ paths)
    → (o ≡ some p) ⊎ In p paths
In-of_optional p none paths h = inr h
In-of_optional p (some q) paths (inl h) = inl (ground (arith, h))
In-of_optional p (some q) paths (inr h) = inr h

-- `p` is the path of a commit of `m` that `rest` has no longer.
abbrev pub Source : Text → Map Text CommitEntry → Map Text CommitEntry → Type 0
Source p m rest =
    (k : Text) × (e : CommitEntry) × (get k m ≡ some e)
    × (e.index_path ≡ some p)
    × (get k rest ≡ none)

Source-remove :
    (q p : Text) (m rest : Map Text CommitEntry) → Source p (remove q m) rest → Source p m rest
Source-remove q p m rest (k, e, g, own, lost) =
    (k, e, ground (arith, g, get-remove q k m), own, lost)

-- A path that the loop hands out is that of a commit which it takes out.
pub evicted-Source :
    (ps : List (Text × ℕ)) (m : Map Text CommitEntry) (p : Text)
    → In p (evict ps m).1
    → Source p m (evict ps m).0
unfolding evict has_key
evicted-Source [] m p h = absurd h
evicted-Source (q ∷ ps) m p h =
    let rest = remove q.0 m in
    elim (Option-cases (get q.0 m)) [
      | inl e ↦
          Source-remove q.0 p m _
            (evicted-Source ps rest p (subst (λ o. In p (freed o (evict ps rest).1)) e h))
      | inr (e, g) ↦
          elim (In-of_optional p e.index_path _
            (subst (λ o. In p (freed o (evict ps rest).1)) g h)) [
              | inl own ↦ (q.0, e, g, own, get-evict q.0 (q ∷ ps) m ∙ rw (same_refl q.0) refl)
              | inr out ↦ Source-remove q.0 p m _ (evicted-Source ps rest p out)
            ]
    ]
