-- ===== src/Scip/Complete.antt =====
-- `enclosing_defs_of_callers` lists the definition around every use, where it has information.
use mathlib.Core.Option
use aide_mcp.Base.{
  text_equal, [], ◌∷◌, none, some, true, false, ◌≡◌, arith, refl, ◌++◌, inl, inr, List, Option,
  Text, ◌⊎◌, sym, Bool-cases, In, In-append_left, In-append_right, subst, text_same, text_same_iff,
  ◌||◌, ◌≢◌, ap, ◌∙◌, map, same_refl, Option-cases, All, All-In,
}
use aide_mcp.Scip.{
  Document, Found, Index, LocatedSymbol, SymbolInformation, add_enclosing, find, is_symbol, located,
  seen_before, scan_document, scan_index, enclosing_caller, enclosing_defs_of_callers, Occurrence,
  enclosing_definition_symbol_id,
}
use aide_mcp.Scip.Callers.{
  find_holds, seen_before-append, NoRepeats, key_of, IsCallSite, IsCaller, callers_sound,
  IsNearest-of_symbol,
}
use aide_mcp.Scip.Map.{DistinctPaths}
use aide_mcp.Base.Int.{ℤ}
use aide_mcp.Scip.Enclosing.{IsCandidate, IsNearest, enclosing-IsNearest}

-- No document of the list has information on the symbol, or it is listed under its path.
abbrev pub IsCovered : Document → Text → List LocatedSymbol → Type 0
IsCovered doc id out =
    (find (is_symbol id) doc.symbols ≡ none)
    ⊎ ((l : LocatedSymbol) × In l out × (l.relative_path ≡ doc.relative_path) × (l.symbol ≡ id))

abbrev HasOnePath : Index → Type 0
HasOnePath index =
    (d e : Document) → In d index → In e index → d.relative_path ≡ e.relative_path → d ≡ e

record IsComplete (index : Index) (f : Found) : Type 0 where
  covered :
      (doc : Document) (id : Text)
      → In doc index
      → seen_before (doc.relative_path, id) f.seen ≡ true
      → IsCovered doc id f.out

IsCovered-append :
    (doc : Document) (id : Text) (out more : List LocatedSymbol)
    → IsCovered doc id out
    → IsCovered doc id (out ++ more)
IsCovered-append doc id out more (inl h) = inl h
IsCovered-append doc id out more (inr (l, m, p, q)) = inr (l, In-append_left l out more m, p, q)

add_enclosing-seen :
    (doc : Document) (id : Text) (f : Found) (k : Text × Text)
    → seen_before k (add_enclosing doc id f).seen
      ≡ (seen_before k f.seen || seen_before k ((doc.relative_path, id) ∷ []))
unfolding add_enclosing
add_enclosing-seen doc id f k = elim (Bool-cases (seen_before (doc.relative_path, id) f.seen)) [
  | inr new ↦ rw (new, add_enclosing) (seen_before-append k f.seen ((doc.relative_path, id) ∷ []))
  | inl old ↦ rw (old, add_enclosing) (already k old)
]
  where
    already :
        (k : Text × Text)
        → seen_before (doc.relative_path, id) f.seen ≡ true
        → seen_before k f.seen
          ≡ (seen_before k f.seen || seen_before k ((doc.relative_path, id) ∷ []))
    already (path, i) old = elim (Bool-cases (text_same doc.relative_path path)) [
      | inr apart ↦ ground (arith, apart)
      | inl same ↦ elim (Bool-cases (text_same id i)) [
        | inr apart ↦ ground (arith, apart)
        | inl equal ↦
            let p = (text_same_iff doc.relative_path path).0 same in
            let q = (text_same_iff id i).0 equal in
            let there : seen_before (path, i) f.seen ≡ true =
              subst (λ x. seen_before (path, x) f.seen ≡ true) q
                (subst (λ x. seen_before (x, id) f.seen ≡ true) p old) in
            ground (arith, there)
      ]
    ]

module _ (index : Index) (symbol : Text) (one_path : HasOnePath index) (doc : Document)
    (here : In doc index) where
  added :
      (id : Text) (f : Found)
      → seen_before (doc.relative_path, id) f.seen ≡ false
      → (d : Document) (i : Text) → In d index
      → IsComplete index f
      → seen_before (d.relative_path, i) (add_enclosing doc id f).seen ≡ true
      → IsCovered d i (elim (find (is_symbol id) doc.symbols) [
        | none ↦ f.out
        | some info ↦ f.out ++ located doc info ∷ []
      ])
  added id f new d i m c h = elim (Bool-cases (seen_before (d.relative_path, i) f.seen)) [
    | inl old ↦ grown (find (is_symbol id) doc.symbols) (c.covered d i m old)
    | inr fresh ↦
        let both : seen_before (d.relative_path, i) ((doc.relative_path, id) ∷ []) ≡ true =
          ground (arith, h, fresh, add_enclosing-seen doc id f (d.relative_path, i)) in
        let paths : doc.relative_path ≡ d.relative_path =
          (text_same_iff doc.relative_path d.relative_path).0 (ground (arith, both)) in
        let ids : id ≡ i = (text_same_iff id i).0 (ground (arith, both)) in
        subst (λ x. IsCovered x i (outcome (find (is_symbol id) doc.symbols)))
          (one_path doc d here m paths)
          (subst (λ x. IsCovered doc x (outcome (find (is_symbol id) doc.symbols))) ids
            (listed (find (is_symbol id) doc.symbols) refl))
  ]
    where
      outcome : Option SymbolInformation → List LocatedSymbol
      outcome o = elim o [ none ↦ f.out | some info ↦ f.out ++ located doc info ∷ [] ]

      grown : (o : Option SymbolInformation) → IsCovered d i f.out → IsCovered d i (outcome o)
      grown none k = k
      grown (some info) k = IsCovered-append d i f.out (located doc info ∷ []) k

      listed :
          (o : Option SymbolInformation)
          → find (is_symbol id) doc.symbols ≡ o
          → IsCovered doc id (outcome o)
      listed none e = inl e
      listed (some info) e = inr (
        located doc info,
        In-append_right (located doc info) f.out (located doc info ∷ []) (inl refl),
        refl,
        (text_same_iff info.symbol id).0 (find_holds (is_symbol id) doc.symbols info e),
      )

  add_enclosing-IsComplete :
      (id : Text) (f : Found) → IsComplete index f → IsComplete index (add_enclosing doc id f)
  unfolding add_enclosing
  add_enclosing-IsComplete id f c = elim (Bool-cases (seen_before (doc.relative_path, id) f.seen)) [
    | inl old ↦ rw (old, add_enclosing) c
    | inr new ↦
        let more : Found = record {
          seen = f.seen ++ (doc.relative_path, id) ∷ [];
          out = elim (find (is_symbol id) doc.symbols) [
            | none ↦ f.out
            | some info ↦ f.out ++ located doc info ∷ []
          ];
        } in
        let same : add_enclosing doc id f ≡ more = rw (new, add_enclosing) refl in
        record {
          covered = λ d i m h.
              subst (λ (x : Found). IsCovered d i x.out) (sym same) (added id f new d i m c h);
        }
  ]

  scan_document-IsComplete :
      (occs : List Occurrence) (f : Found)
      → IsComplete index f
      → IsComplete index (scan_document doc symbol occs f)
  unfolding scan_document
  scan_document-IsComplete [] f c = c
  scan_document-IsComplete (occ ∷ occs) f c =
      elim (Option-cases (enclosing_caller doc symbol occ)) [
        | inl e ↦ rw e (scan_document-IsComplete occs f c)
        | inr (id, e) ↦ rw e (
            scan_document-IsComplete occs (add_enclosing doc id f)
              (add_enclosing-IsComplete id f c))
      ]

-- What has been seen stays seen.
abbrev HasSeen : Text × Text → Found → Type 0
HasSeen k f = seen_before k f.seen ≡ true

add_enclosing-HasSeen :
    (doc : Document) (id : Text) (f : Found)
    → ((k : Text × Text) → HasSeen k f → HasSeen k (add_enclosing doc id f))
      × HasSeen (doc.relative_path, id) (add_enclosing doc id f)
add_enclosing-HasSeen doc id f = (
  λ k h. ground (arith, h, add_enclosing-seen doc id f k),
  add_enclosing-seen doc id f (doc.relative_path, id)
      ∙ ground (arith, same_refl doc.relative_path, same_refl id),
)

module _ (doc : Document) (symbol : Text) where
  scan_document-keeps :
      (occs : List Occurrence) (f : Found) (k : Text × Text)
      → HasSeen k f
      → HasSeen k (scan_document doc symbol occs f)
  unfolding scan_document
  scan_document-keeps [] f k h = h
  scan_document-keeps (occ ∷ occs) f k h = elim (Option-cases (enclosing_caller doc symbol occ)) [
    | inl e ↦ rw (e, scan_document) (scan_document-keeps occs f k h)
    | inr (id, e) ↦
        rw (e, scan_document)
          (scan_document-keeps occs (add_enclosing doc id f) k
            ((add_enclosing-HasSeen doc id f).0 k h))
  ]

  scan_document-finds :
      (occs : List Occurrence) (f : Found) (occ : Occurrence) (id : Text)
      → In occ occs
      → enclosing_caller doc symbol occ ≡ some id
      → HasSeen (doc.relative_path, id) (scan_document doc symbol occs f)
  unfolding scan_document
  scan_document-finds [] f occ id m e = absurd m
  scan_document-finds (o ∷ occs) f occ id (inl same) e =
      let here : enclosing_caller doc symbol o ≡ some id =
        ap (enclosing_caller doc symbol) (sym same) ∙ e in
      rw (here, scan_document)
        (scan_document-keeps occs (add_enclosing doc id f) (doc.relative_path, id)
          (add_enclosing-HasSeen doc id f).1)
  scan_document-finds (o ∷ occs) f occ id (inr later) e =
      elim (Option-cases (enclosing_caller doc symbol o)) [
        | inl none_here ↦ rw (none_here, scan_document) (scan_document-finds occs f occ id later e)
        | inr (i, here) ↦
            rw (here, scan_document)
              (scan_document-finds occs (add_enclosing doc i f) occ id later e)
      ]

scan_index-keeps :
    (index : Index) (symbol : Text) (f : Found) (k : Text × Text)
    → HasSeen k f
    → HasSeen k (scan_index index symbol f)
unfolding scan_index
scan_index-keeps [] symbol f k h = h
scan_index-keeps (doc ∷ index) symbol f k h =
    scan_index-keeps index symbol _ k (scan_document-keeps doc symbol doc.occurrences f k h)

scan_index-finds :
    (index : Index) (symbol : Text) (f : Found) (doc : Document) (occ : Occurrence) (id : Text)
    → In doc index
    → In occ doc.occurrences
    → enclosing_caller doc symbol occ ≡ some id
    → HasSeen (doc.relative_path, id) (scan_index index symbol f)
unfolding scan_index
scan_index-finds [] symbol f doc occ id d m e = absurd d
scan_index-finds (x ∷ index) symbol f doc occ id (inr later) m e =
    scan_index-finds index symbol _ doc occ id later m e
scan_index-finds (x ∷ index) symbol f doc occ id (inl same) m e =
    scan_index-keeps index symbol _ (doc.relative_path, id)
      (subst
        (λ (y : Document). HasSeen (doc.relative_path, id) (scan_document y symbol y.occurrences f))
        same (scan_document-finds doc symbol doc.occurrences f occ id m e))

scan_index-IsComplete :
    (index rest : Index) (symbol : Text) (f : Found)
    → HasOnePath index
    → ((d : Document) → In d rest → In d index)
    → IsComplete index f
    → IsComplete index (scan_index rest symbol f)
unfolding scan_index
scan_index-IsComplete index [] symbol f one_path h c = c
scan_index-IsComplete index (doc ∷ rest) symbol f one_path h c =
    scan_index-IsComplete index rest symbol _ one_path (λ d m. h d (inr m))
      (scan_document-IsComplete index symbol one_path doc (h doc (inl refl)) doc.occurrences f c)

not_there :
    (path : Text) (index : Index)
    → find (λ d. text_same d.relative_path path) index ≡ none
    → (d : Document) → In d index
    → d.relative_path ≢ path
not_there path [] h d m e = absurd m
not_there path (x ∷ index) h d m e = elim (Bool-cases (text_same x.relative_path path)) [
  | inl hit ↦ absurd (cc (rw hit at h))
  | inr miss ↦ elim m [
    | inl same ↦ absurd (
        ground (
          arith,
          miss,
          (text_same_iff x.relative_path path).1
              (ap (λ (y : Document). y.relative_path) (sym same) ∙ e),
        ))
    | inr later ↦ not_there path index (rw miss at h) d later e
  ]
]

DistinctPaths-HasOnePath : (index : Index) → DistinctPaths index → HasOnePath index
DistinctPaths-HasOnePath [] h d e m k same = absurd m
DistinctPaths-HasOnePath (x ∷ index) (fresh, h) d e (inl a) (inl b) same = a ∙ sym b
DistinctPaths-HasOnePath (x ∷ index) (fresh, h) d e (inr a) (inr b) same =
    DistinctPaths-HasOnePath index h d e a b same
DistinctPaths-HasOnePath (x ∷ index) (fresh, h) d e (inl a) (inr b) same = absurd (
    not_there x.relative_path index fresh e b (sym same ∙ ap (λ (y : Document). y.relative_path) a))
DistinctPaths-HasOnePath (x ∷ index) (fresh, h) d e (inr a) (inl b) same =
    absurd
      (not_there x.relative_path index fresh d a (same ∙ ap (λ (y : Document). y.relative_path) b))

-- A use that has a definition before it has an enclosing one.
enclosing_caller-some :
    (doc : Document) (symbol : Text) (occ def : Occurrence) (line start : ℤ)
    → IsCallSite symbol occ line
    → In def doc.occurrences
    → IsCandidate line def start
    → (id : Text) × (enclosing_caller doc symbol occ ≡ some id)
      × ((s : ℤ) × IsNearest line doc.occurrences (some (s, id)))
unfolding enclosing_caller
enclosing_caller-some doc symbol occ def line start (same, used, starts) m candidate =
    elim (Option-cases (enclosing_definition_symbol_id doc line)) [
      | inr (id, found) ↦ (
        id,
        rw ((text_same_iff occ.symbol symbol).1 same, enclosing_caller) (rw used (rw starts found)),
        IsNearest-of_symbol doc line id found,
      )
      | inl gone ↦
          let (best, found, nearest) = enclosing-IsNearest doc line in
          absurd (none_near best (sym found ∙ gone) nearest)
    ]
  where
    none_near :
        (best : Option (ℤ × Text))
        → ◌≡◌ {A = Option Text} (Option.map (λ b. b.1) best) none
        → IsNearest line doc.occurrences best
        → ⊥
    none_near none e n =
        All-In (λ o. (s : ℤ) → IsCandidate line o s → ⊥) def doc.occurrences n m start candidate
    none_near (some b) e n = absurd (cc e)

-- In an index whose documents have distinct paths: the result lists no definition of a path twice; what it
-- lists is a definition that starts last before a use of the symbol in its document, with the path, kind
-- and name that the document gives it; and for every use that stands behind some definition, one that
-- starts last before it is listed, unless its document has no information on it.
pub callers_exact :
    (index : Index) (symbol : Text)
    → DistinctPaths index
    → let out = enclosing_defs_of_callers index symbol in
      NoRepeats (map key_of out)
      × All (IsCaller index symbol) out
      × ((doc : Document) (occ def : Occurrence) (line start : ℤ)
          → In doc index
          → In occ doc.occurrences
          → IsCallSite symbol occ line
          → In def doc.occurrences
          → IsCandidate line def start
          → (id : Text) × ((s : ℤ) × IsNearest line doc.occurrences (some (s, id)))
            × IsCovered doc id out)
unfolding enclosing_defs_of_callers
callers_exact index symbol distinct =
    let (no_repeats, sound) = callers_sound index symbol in
    let f : Found = record { seen = []; out = [] } in
    let c =
      scan_index-IsComplete index index symbol f (DistinctPaths-HasOnePath index distinct)
        (λ d m. m) (record { covered = λ d i m h. absurd (cc h) }) in
    (
      no_repeats,
      sound,
      λ doc occ def line start d m site k candidate.
          let (id, e, nearest) =
            enclosing_caller-some doc symbol occ def line start site k candidate in
          (id, nearest, c.covered doc id d (scan_index-finds index symbol f doc occ id d m e)),
    )
