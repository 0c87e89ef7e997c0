-- ===== src/Scip/Callers.antt =====
-- `enclosing_defs_of_callers` lists each definition once, and only those that enclose a call site.
use mathlib.Core.Option
use aide_mcp.Base.{
  text_equal, [], ◌∷◌, none, some, true, false, ◌≡◌, arith, refl, ◌++◌, inl, inr, List, Option,
  Bool, Text, ◌||◌, sym, ap, ◌∙◌, Bool-cases, map, text_same_iff, All, In, Option-cases, subst,
  All-append, ◌⊎◌, text_same, All-weaken,
}
use aide_mcp.Scip.{
  LocatedSymbol, seen_before, Index, find, scan_index, enclosing_defs_of_callers, Document, Found,
  Occurrence, add_enclosing, scan_document, enclosing_caller, SymbolInformation, is_symbol, located,
  name_of, defines, enclosing_definition_symbol_id, head_of,
}
use aide_mcp.Base.Int.{ℤ}
use aide_mcp.Scip.Enclosing.{IsNearest, enclosing-IsNearest}

abbrev pub key_of : LocatedSymbol → Text × Text
key_of l = (l.relative_path, l.symbol)

-- No definition is listed twice.
abbrev pub NoRepeats : List (Text × Text) → Type 0
NoRepeats [] = Unit
NoRepeats (k ∷ ks) = (seen_before k ks ≡ false) × NoRepeats ks

-- `l` is a definition of its document that encloses a call site of `symbol`.
abbrev Encloses : Index → Text → LocatedSymbol → Type 0
Encloses index symbol l =
    (doc : Document) × In doc index
    × (occ : Occurrence) × In occ doc.occurrences
    × (enclosing_caller doc symbol occ ≡ some l.symbol)
    × (info : SymbolInformation) × (find (is_symbol l.symbol) doc.symbols ≡ some info)
    × (l ≡ located doc info)

record IsSound (index : Index) (symbol : Text) (f : Found) : Type 0 where
  distinct : NoRepeats (map key_of f.out)
  recorded :
      (k : Text × Text) → seen_before k f.seen ≡ false → seen_before k (map key_of f.out) ≡ false
  sound : All (Encloses index symbol) f.out

pub seen_before-append :
    (k : Text × Text) (js ks : List (Text × Text))
    → seen_before k (js ++ ks) ≡ (seen_before k js || seen_before k ks)
seen_before-append k [] ks = refl
seen_before-append k (j ∷ js) ks = ground (arith, seen_before-append k js ks)

NoRepeats-snoc :
    (k : Text × Text) (ks : List (Text × Text))
    → seen_before k ks ≡ false
    → NoRepeats ks
    → NoRepeats (ks ++ k ∷ [])
NoRepeats-snoc k [] h n = (refl, tt)
NoRepeats-snoc k (j ∷ ks) h (fresh, n) = (
  ground (
    arith,
    h,
    fresh,
    seen_before-append j ks (k ∷ []),
    text_same_iff j.0 k.0,
    text_same_iff j.1 k.1,
    text_same_iff k.0 j.0,
    text_same_iff k.1 j.1,
  ),
  NoRepeats-snoc k ks (ground (arith, h)) n,
)

map-append {ℓ κ} :
    {A : Type ℓ} {B : Type κ} (f : A → B) (xs ys : List A) → map f (xs ++ ys) ≡ map f xs ++ map f ys
map-append f [] ys = refl
map-append f (x ∷ xs) ys = ap (λ r. f x ∷ r) (map-append f xs ys)

pub find_holds {ℓ} :
    {A : Type ℓ} (p : A → Bool) (xs : List A) (x : A) → find p xs ≡ some x → p x ≡ true
find_holds p [] x h = absurd (cc h)
find_holds p (y ∷ xs) x h = elim (Bool-cases (p y)) [
  | inl e ↦ let same : y ≡ x = cc (rw e at h) in rw (← same) e
  | inr e ↦ find_holds p xs x (rw e at h)
]

module _ (index : Index) (symbol : Text) (doc : Document) (here : In doc index) where
  add_enclosing-IsSound :
      (occ : Occurrence) (id : Text) (f : Found)
      → In occ doc.occurrences
      → enclosing_caller doc symbol occ ≡ some id
      → IsSound index symbol f
      → IsSound index symbol (add_enclosing doc id f)
  unfolding add_enclosing
  add_enclosing-IsSound occ id f m e s =
      elim (Bool-cases (seen_before (doc.relative_path, id) f.seen)) [
        | inl old ↦ rw old s
        | inr new ↦ rw new (go (find (is_symbol id) doc.symbols) refl new)
      ]
    where
      k : Text × Text
      k = (doc.relative_path, id)

      wider :
          (j : Text × Text)
          → seen_before j (f.seen ++ k ∷ []) ≡ false
          → seen_before j f.seen ≡ false
      wider j h = ground (arith, h, seen_before-append j f.seen (k ∷ []))

      go :
          (o : Option SymbolInformation)
          → find (is_symbol id) doc.symbols ≡ o
          → seen_before k f.seen ≡ false
          → IsSound index symbol (record {
            seen = f.seen ++ k ∷ [];
            out = elim o [ none ↦ f.out | some info ↦ f.out ++ located doc info ∷ [] ];
          })
      go none found new = record {
        distinct = s.distinct;
        recorded = λ j h. s.recorded j (wider j h);
        sound = s.sound;
      }
      go (some info) found new =
          let same : info.symbol ≡ id =
            (text_same_iff info.symbol id).0 (find_holds (is_symbol id) doc.symbols info found) in
          let keys : map key_of (f.out ++ located doc info ∷ []) ≡ map key_of f.out ++ k ∷ [] =
            map-append key_of f.out (located doc info ∷ [])
            ∙ ap (λ (i : Text). map key_of f.out ++ (doc.relative_path, i) ∷ []) same in
          record {
            distinct =
                subst NoRepeats (sym keys)
                  (NoRepeats-snoc k (map key_of f.out) (s.recorded k new) s.distinct);
            recorded = λ j h.
                let old = s.recorded j (wider j h) in
                ap (seen_before j) keys
                ∙ seen_before-append j (map key_of f.out) (k ∷ [])
                ∙ ground (arith, h, old, seen_before-append j f.seen (k ∷ []));
            sound = All-append (Encloses index symbol) f.out (located doc info ∷ []) s.sound (
              (
                doc,
                here,
                occ,
                m,
                e ∙ ap some (sym same),
                info,
                ap (λ (i : Text). find (is_symbol i) doc.symbols) same ∙ found,
                refl,
              ),
              tt,
            );
          }

  scan_document-IsSound :
      (occs : List Occurrence) (f : Found)
      → ((o : Occurrence) → In o occs → In o doc.occurrences)
      → IsSound index symbol f
      → IsSound index symbol (scan_document doc symbol occs f)
  unfolding scan_document
  scan_document-IsSound [] f h s = s
  scan_document-IsSound (occ ∷ occs) f h s = elim (Option-cases (enclosing_caller doc symbol occ)) [
    | inl e ↦ rw e (scan_document-IsSound occs f (λ o m. h o (inr m)) s)
    | inr (id, e) ↦ rw e (
        scan_document-IsSound occs (add_enclosing doc id f) (λ o m. h o (inr m))
          (add_enclosing-IsSound occ id f (h occ (inl refl)) e s))
  ]

scan_index-IsSound :
    (index rest : Index) (symbol : Text) (f : Found)
    → ((d : Document) → In d rest → In d index)
    → IsSound index symbol f
    → IsSound index symbol (scan_index rest symbol f)
unfolding scan_index
scan_index-IsSound index [] symbol f h s = s
scan_index-IsSound index (doc ∷ rest) symbol f h s =
    scan_index-IsSound index rest symbol _ (λ d m. h d (inr m))
      (scan_document-IsSound index symbol doc (h doc (inl refl)) doc.occurrences f (λ o m. m) s)

-- A use of the symbol, which starts on the line.
abbrev pub IsCallSite : Text → Occurrence → ℤ → Type 0
IsCallSite symbol occ line =
    (occ.symbol ≡ symbol) × (defines occ ≡ false) × (head_of occ.range ≡ some line)

-- Of the definitions of the document, the last to start before a use of `symbol` is that of `id`.
abbrev pub HasCaller : Document → Text → Text → Type 0
HasCaller doc symbol id =
    (occ : Occurrence) × In occ doc.occurrences
    × (line : ℤ) × IsCallSite symbol occ line
    × (start : ℤ) × IsNearest line doc.occurrences (some (start, id))

-- What is listed of a symbol.
pub record IsListed (doc : Document) (l : LocatedSymbol) : Type 0 where
  pub info : SymbolInformation
  pub known : In info doc.symbols
  pub path : l.relative_path ≡ doc.relative_path
  pub symbol : l.symbol ≡ info.symbol
  pub kind : l.kind ≡ info.kind
  pub name :
      (l.display_name ≡ info.display_name)
      ⊎ ((info.display_name ≡ []) × (l.display_name ≡ info.symbol))

enclosing_caller-site :
    (doc : Document) (symbol id : Text) (occ : Occurrence)
    → enclosing_caller doc symbol occ ≡ some id
    → (line : ℤ) × IsCallSite symbol occ line × (enclosing_definition_symbol_id doc line ≡ some id)
unfolding enclosing_caller
enclosing_caller-site doc symbol id occ h = elim (Bool-cases (text_same occ.symbol symbol)) [
  | inr other ↦ absurd (cc (rw (other, enclosing_caller) at h))
  | inl same ↦ elim (Bool-cases (defines occ)) [
    | inl defined ↦ absurd (cc (rw (defined) at (rw (same, enclosing_caller) at h)))
    | inr used ↦ elim (Option-cases (head_of occ.range)) [
      | inl empty ↦ absurd (cc (rw empty at (rw used at (rw (same, enclosing_caller) at h))))
      | inr (line, starts) ↦ (
        line,
        ((text_same_iff occ.symbol symbol).0 same, used, starts),
        rw starts at (rw used at (rw (same, enclosing_caller) at h)),
      )
    ]
  ]
]

pub IsNearest-of_symbol :
    (doc : Document) (line : ℤ) (id : Text)
    → enclosing_definition_symbol_id doc line ≡ some id
    → (start : ℤ) × IsNearest line doc.occurrences (some (start, id))
IsNearest-of_symbol doc line id h =
    let (best, found, nearest) = enclosing-IsNearest doc line in go best (sym found ∙ h) nearest
  where
    go :
        (best : Option (ℤ × Text))
        → Option.map (λ b. b.1) best ≡ some id
        → IsNearest line doc.occurrences best
        → (start : ℤ) × IsNearest line doc.occurrences (some (start, id))
    go none e n = absurd (cc e)
    go (some (start, i)) e n =
        let same : i ≡ id = cc e in
        (start, subst (λ x. IsNearest line doc.occurrences (some (start, x))) same n)

In-find : {A : Type 0} (p : A → Bool) (xs : List A) (x : A) → find p xs ≡ some x → In x xs
In-find p [] x h = absurd (cc h)
In-find p (y ∷ xs) x h = elim (Bool-cases (p y)) [
  | inl e ↦ let same : y ≡ x = cc (rw e at h) in inl (sym same)
  | inr e ↦ inr (In-find p xs x (rw e at h))
]

name_cases :
    (info : SymbolInformation)
    → (name_of info ≡ info.display_name) ⊎ ((info.display_name ≡ []) × (name_of info ≡ info.symbol))
name_cases info = go info.display_name refl
  where
    go :
        (n : Text)
        → info.display_name ≡ n
        → (name_of info ≡ info.display_name)
          ⊎ ((info.display_name ≡ []) × (name_of info ≡ info.symbol))
    go [] e = inr (e, rw (e, name_of) refl)
    go (c ∷ cs) e = inl (rw (e, name_of) refl)

located-IsListed :
    (doc : Document) (id : Text) (info : SymbolInformation)
    → find (is_symbol id) doc.symbols ≡ some info
    → IsListed doc (located doc info)
located-IsListed doc id info found = record {
  info = info;
  known = In-find (is_symbol id) doc.symbols info found;
  path = refl;
  symbol = refl;
  kind = refl;
  name = name_cases info;
}

abbrev pub IsCaller : Index → Text → LocatedSymbol → Type 0
IsCaller index symbol l =
    (doc : Document) × In doc index × HasCaller doc symbol l.symbol × IsListed doc l

Encloses-IsCaller :
    (index : Index) (symbol : Text) (l : LocatedSymbol)
    → Encloses index symbol l
    → IsCaller index symbol l
Encloses-IsCaller index symbol l (doc, here, occ, m, e, info, found, same) =
    let (line, site, encloses) = enclosing_caller-site doc symbol l.symbol occ e in
    let (start, nearest) = IsNearest-of_symbol doc line l.symbol encloses in
    (
      doc,
      here,
      (occ, m, line, site, start, nearest),
      subst (IsListed doc) (sym same) (located-IsListed doc l.symbol info found),
    )

-- No definition of a path is listed twice, and every listed one encloses a use of the symbol.
pub callers_sound :
    (index : Index) (symbol : Text)
    → NoRepeats (map key_of (enclosing_defs_of_callers index symbol))
      × All (IsCaller index symbol) (enclosing_defs_of_callers index symbol)
unfolding enclosing_defs_of_callers
callers_sound index symbol =
    let s =
      scan_index-IsSound index index symbol (record { seen = []; out = [] }) (λ d m. m)
        (record { distinct = tt; recorded = λ k h. refl; sound = tt }) in
    (
      s.distinct,
      All-weaken (Encloses index symbol) (IsCaller index symbol)
          (enclosing_defs_of_callers index symbol) (Encloses-IsCaller index symbol) s.sound,
    )
