-- ===== src/Server/SafeDelete/Checked.antt =====
-- Without `force`, a symbol is deleted only after the index shows no use of the symbol of its line.
use aide_mcp.Base.{
  text_equal, [], ◌∷◌, none, some, true, List, Option, Text, ◌≡◌, In, false, arith, refl, inl, inr,
  Bool, ◌⊎◌, ap, Bool-cases, text_same, text_same_iff, In-append_left, In-of_select,
  In-append_right, not, if◌then◌else◌, subst,
}
use aide_mcp.Base.Result.{Result, ok, err}
use aide_mcp.Indexer.Store.{Store}
use aide_mcp.Scip.{
  Index, Document, Occurrence, callers, references, hits_of, defines, enclosing_definition_id,
  OccurrenceHit,
}
use aide_mcp.Server.ScipQueries.{
  line_0based, relativize_path, resolve_scip_path, scip_references_at, answered, references_of,
  ScipError, references_at_path,
}
use aide_mcp.Server.SafeDelete.{SafeDeleteSymbolArgs, safe_delete_symbol, after_preflight, deletion}
use aide_mcp.Lsp.SafeEdit.{Surroundings}
use aide_mcp.Lsp.Workspace.{Workspace}

-- Wherever the symbol stands in the index, it is defined there.
abbrev pub IsUnused : Index → Text → Type 0
IsUnused index id =
    (doc : Document) (occ : Occurrence)
    → In doc index
    → In occ doc.occurrences
    → occ.symbol ≡ id
    → defines occ ≡ true

-- The index that is ready knows a definition for the line, and no use of it.
pub record IsChecked (strip_prefix : Text → Text → Option Text) (load : Text → Result Text Index)
    (root : Text) (s : Store) (args : SafeDeleteSymbolArgs) : Type 0 where
  pub path : Text
  pub index : Index
  pub id : Text
  pub resolved : resolve_scip_path root none s ≡ ok path
  pub loaded : load path ≡ ok index
  pub encloses :
      enclosing_definition_id index
        (relativize_path strip_prefix load root args.file)
        (line_0based args.line)
      ≡ some id
  pub unused : IsUnused index id

abbrev hit_at : Text → Occurrence → OccurrenceHit
hit_at path occ = record { relative_path = path; range = occ.range; is_definition = defines occ }

In-hits_of :
    (path id : Text) (occs : List Occurrence) (occ : Occurrence)
    → In occ occs
    → occ.symbol ≡ id
    → In (hit_at path occ) (hits_of path id occs)
In-hits_of path id [] occ h e = absurd h
In-hits_of path id (o ∷ occs) occ (inl same) e =
    let here : text_same o.symbol id ≡ true = ground (arith, text_same_iff o.symbol id, same, e) in
    rw here (inl (ap (hit_at path) same))
In-hits_of path id (o ∷ occs) occ (inr later) e = elim (Bool-cases (text_same o.symbol id)) [
  | inl t ↦ rw t (inr (In-hits_of path id occs occ later e))
  | inr t ↦ rw t (In-hits_of path id occs occ later e)
]

In-references :
    (id : Text) (index : Index) (doc : Document) (occ : Occurrence)
    → In doc index
    → In occ doc.occurrences
    → occ.symbol ≡ id
    → In (hit_at doc.relative_path occ) (references index id)
unfolding references
In-references id [] doc occ d h e = absurd d
In-references id (x ∷ index) doc occ (inl same) h e =
    In-append_left _ (hits_of x.relative_path id x.occurrences) _ (
      subst
        (λ (y : Document).
          In (hit_at doc.relative_path occ) (hits_of y.relative_path id y.occurrences))
        same (In-hits_of doc.relative_path id doc.occurrences occ h e))
In-references id (x ∷ index) doc occ (inr later) h e =
    In-append_right _ (hits_of x.relative_path id x.occurrences) _
      (In-references id index doc occ later h e)

callers-IsUnused : (index : Index) (id : Text) → callers index id ≡ [] → IsUnused index id
unfolding callers
callers-IsUnused index id h doc occ d o e = elim (Bool-cases (defines occ)) [
  | inl defined ↦ defined
  | inr used ↦
      let listed =
        In-of_select (λ o. not o.is_definition) (hit_at doc.relative_path occ) (references index id)
          (In-references id index doc occ d o e) (rw used refl) in
      absurd (rw h at listed)
]

module _ (strip_prefix : Text → Text → Option Text) (load : Text → Result Text Index) (root : Text)
    (s : Store) (args : SafeDeleteSymbolArgs) where
  -- An empty answer of the check.
  passed :
      scip_references_at strip_prefix load root args.file args.line s ≡ ok (some [])
      → IsChecked strip_prefix load root s args
  unfolding scip_references_at
  passed h = at_path (resolve_scip_path root none s) refl h
    where
      at_id :
          (path : Text) (index : Index) (o : Option Text)
          → resolve_scip_path root none s ≡ ok path
          → load path ≡ ok index
          → enclosing_definition_id index
              (relativize_path strip_prefix load root args.file)
              (line_0based args.line)
            ≡ o
          → answered index o ≡ ok (some [])
          → IsChecked strip_prefix load root s args
      at_id path index none resolved loaded encloses h = absurd (cc h)
      at_id path index (some id) resolved loaded encloses h = record {
        path = path;
        index = index;
        id = id;
        resolved = resolved;
        loaded = loaded;
        encloses = encloses;
        unused = callers-IsUnused index id (cc h);
      }

      at_index :
          (path : Text) (r : Result Text Index)
          → resolve_scip_path root none s ≡ ok path
          → load path ≡ r
          → references_of strip_prefix load root args.file args.line r ≡ ok (some [])
          → IsChecked strip_prefix load root s args
      at_index path (err e) resolved loaded h = absurd (cc h)
      at_index path (ok index) resolved loaded h =
          at_id path index
            (enclosing_definition_id index (relativize_path strip_prefix load root args.file)
              (line_0based args.line))
            resolved loaded refl h

      at_path :
          (r : Result ScipError Text)
          → resolve_scip_path root none s ≡ r
          → references_at_path strip_prefix load root args.file args.line r ≡ ok (some [])
          → IsChecked strip_prefix load root s args
      at_path (err e) resolved h = absurd (cc h)
      at_path (ok path) resolved h = at_index path (load path) resolved refl h

-- Without `force`, whatever the state of the store, the index and the language server, safe_delete_symbol
-- either changes no file and no document, or a ready index was loaded, in which the line has an enclosing
-- definition, and every occurrence of that symbol in the whole index is a definition.
pub safe_delete_symbol-IsChecked :
    (strip_prefix : Text → Text → Option Text) (load : Text → Result Text Index)
    (uri_of extension_of : Text → Option Text) (has_plugin has_client : Bool) (e : Surroundings)
    (root : Text) (s : Store) (args : SafeDeleteSymbolArgs) (w : Workspace)
    → args.force ≡ false
    → ((safe_delete_symbol strip_prefix load uri_of extension_of has_plugin has_client e root s args
          w).1
        ≡ w)
      ⊎ IsChecked strip_prefix load root s args
unfolding safe_delete_symbol
safe_delete_symbol-IsChecked strip_prefix load uri_of extension_of has_plugin has_client e root s
      args w h =
    elim (Bool-cases has_plugin) [
      | inr unclaimed ↦ inl (rw unclaimed refl)
      | inl claimed ↦ rw claimed (unforced args.force h)
    ]
  where
    go :
        (r : Result ScipError (Option (List OccurrenceHit)))
        → scip_references_at strip_prefix load root args.file args.line s ≡ r
        → ((after_preflight strip_prefix load uri_of extension_of r
              (deletion strip_prefix load uri_of extension_of has_client e root s args w)
              w).1
            ≡ w)
          ⊎ IsChecked strip_prefix load root s args
    go (err x) there = inl refl
    go (ok none) there = inl refl
    go (ok (some [])) there = inr (passed strip_prefix load root s args there)
    go (ok (some (r ∷ refs))) there = inl refl

    unforced :
        (force : Bool)
        → force ≡ false
        → ((if force
              then deletion strip_prefix load uri_of extension_of has_client e root s args w
              else after_preflight strip_prefix load uri_of extension_of
                  (scip_references_at strip_prefix load root args.file args.line s)
                  (deletion strip_prefix load uri_of extension_of has_client e root s args w)
                  w).1
            ≡ w)
          ⊎ IsChecked strip_prefix load root s args
    unforced true h = absurd (cc h)
    unforced false h = go (scip_references_at strip_prefix load root args.file args.line s) refl
