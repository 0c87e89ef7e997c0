-- ===== src/Scip.antt =====
-- The queries of crates/aide-scip/src/lib.rs on an index: `Index`, `Document`, `Occurrence` and
-- `SymbolInformation` are types of the crate `scip`, of which the queries read these fields. `kind`
-- is what `{:?}` prints of a symbol's kind.
pub mod Enclosing
pub mod Callers
pub mod Complete
pub mod Map
use aide_mcp.Base.{
  text_equal, [], ◌∷◌, none, some, true, false, ℕ, if◌then◌else◌, ◌++◌, List, Option, Bool, Text,
  ◌&&◌, sym, text_same, map, ◌%◌, select, any, not, ◌==◌, ◌||◌,
}
use aide_mcp.Base.Int.{ℤ, leb_int}
use aide_mcp.Base.Strings.{contains}

pub record Occurrence : Type 0 where
  pub symbol : Text
  -- the bits of an `i32`
  pub symbol_roles : ℕ
  pub range : List ℤ

pub record SymbolInformation : Type 0 where
  pub symbol : Text
  pub display_name : Text
  pub kind : Text
  pub documentation : List Text

pub record Document : Type 0 where
  pub relative_path : Text
  pub occurrences : List Occurrence
  pub symbols : List SymbolInformation

abbrev pub Index : Type 0
Index = List Document

pub record OccurrenceHit : Type 0 where
  pub relative_path : Text
  pub range : List ℤ
  pub is_definition : Bool

pub record LocatedSymbol : Type 0 where
  pub symbol : Text
  pub display_name : Text
  pub kind : Text
  pub relative_path : Text
  pub line : Option ℤ

pub record MapSymbol : Type 0 where
  pub symbol : Text
  pub display_name : Text
  pub kind : Text
  pub line : Option ℤ

pub record ModuleEntry : Type 0 where
  pub relative_path : Text
  pub symbols : List MapSymbol

-- `(occ.symbol_roles & SymbolRole::Definition as i32) != 0`, where `Definition` is 1
abbrev pub defines : Occurrence → Bool
defines occ = occ.symbol_roles % 2 == 1

abbrev pub head_of {ℓ} : {A : Type ℓ} → List A → Option A
head_of [] = none
head_of (x ∷ xs) = some x

abbrev pub find {ℓ} : {A : Type ℓ} → (A → Bool) → List A → Option A
find p [] = none
find p (x ∷ xs) = if p x then some x else find p xs

-- The loop over the occurrences, with `best`.
abbrev pub at_least : ℤ → Option (ℤ × Text) → Bool
at_least start none = true
at_least start (some (b, id)) = leb_int b start

abbrev pub better : ℤ → Text → Option (ℤ × Text) → Option (ℤ × Text)
better start symbol best = if at_least start best then some (start, symbol) else best

-- The round of the loop for one occurrence.
unfoldable pub consider : ℤ → Occurrence → Option (ℤ × Text) → Option (ℤ × Text)
consider line occ best =
    if defines occ
    then elim (head_of occ.range) [
      | none ↦ best
      | some start ↦ if leb_int start line then better start occ.symbol best else best
    ]
    else best

unfoldable pub best_of : ℤ → List Occurrence → Option (ℤ × Text) → Option (ℤ × Text)
unfolding consider
best_of line [] best = best
best_of line (occ ∷ occs) best = best_of line occs (consider line occ best)

unfoldable pub enclosing_definition_symbol_id : Document → ℤ → Option Text
unfolding best_of
enclosing_definition_symbol_id doc line = elim (best_of line doc.occurrences none) [
  | none ↦ none
  | some (start, id) ↦ some id
]

pub record SymbolHit : Type 0 where
  pub symbol : Text
  pub display_name : Text
  pub kind : Text
  pub relative_path : Text
  pub documentation : List Text

-- `lowercase` is `str::to_lowercase`.
module _ (lowercase : Text → Text) where
  abbrev pub is_found : Text → SymbolInformation → Bool
  is_found [] sym = true
  is_found (c ∷ needle) sym =
      contains (c ∷ needle) (lowercase sym.display_name)
      || contains (c ∷ needle) (lowercase sym.symbol)

  abbrev pub hits_in : Text → Text → List SymbolInformation → List SymbolHit
  hits_in path needle [] = []
  hits_in path needle (sym ∷ syms) =
      let rest = hits_in path needle syms in
      if is_found needle sym
      then record {
        symbol = sym.symbol;
        display_name = sym.display_name;
        kind = sym.kind;
        relative_path = path;
        documentation = sym.documentation;
      }
        ∷ rest
      else rest

  unfoldable pub find_symbols : Index → Text → List SymbolHit
  find_symbols [] query = []
  find_symbols (doc ∷ index) query =
      hits_in doc.relative_path (lowercase query) doc.symbols ++ find_symbols index query

abbrev pub is_symbol : Text → SymbolInformation → Bool
is_symbol id s = text_same s.symbol id

abbrev pub name_of : SymbolInformation → Text
name_of s = elim s.display_name [ [] ↦ s.symbol | c ∷ cs ↦ c ∷ cs ]

unfoldable pub enclosing_definition_in_doc : Document → ℤ → Option Text
unfolding enclosing_definition_symbol_id
enclosing_definition_in_doc doc line = elim (enclosing_definition_symbol_id doc line) [
  | none ↦ none
  | some id ↦ elim (find (is_symbol id) doc.symbols) [ none ↦ some id | some s ↦ some (name_of s) ]
]

unfoldable pub enclosing_definition : Index → Text → ℤ → Option Text
unfolding enclosing_definition_in_doc
enclosing_definition index path line = elim (find (λ d. text_same d.relative_path path) index) [
  | none ↦ none
  | some doc ↦ enclosing_definition_in_doc doc line
]

unfoldable pub enclosing_definition_id : Index → Text → ℤ → Option Text
unfolding enclosing_definition_symbol_id
enclosing_definition_id index path line = elim (find (λ d. text_same d.relative_path path) index) [
  | none ↦ none
  | some doc ↦ enclosing_definition_symbol_id doc line
]

abbrev pub hits_of : Text → Text → List Occurrence → List OccurrenceHit
hits_of path symbol [] = []
hits_of path symbol (occ ∷ occs) =
    let rest = hits_of path symbol occs in
    if text_same occ.symbol symbol
    then record { relative_path = path; range = occ.range; is_definition = defines occ } ∷ rest
    else rest

unfoldable pub references : Index → Text → List OccurrenceHit
references [] symbol = []
references (doc ∷ index) symbol =
    hits_of doc.relative_path symbol doc.occurrences ++ references index symbol

unfoldable pub callers : Index → Text → List OccurrenceHit
unfolding references
callers index symbol = select (λ o. not o.is_definition) (references index symbol)

abbrev pub defines_symbol : Text → Occurrence → Bool
defines_symbol id o = text_same o.symbol id && defines o

-- `def_line`
abbrev pub definition_line : Document → Text → Option ℤ
definition_line doc id = elim (find (defines_symbol id) doc.occurrences) [
  | none ↦ none
  | some o ↦ head_of o.range
]

abbrev pub located : Document → SymbolInformation → LocatedSymbol
located doc info = record {
  symbol = info.symbol;
  display_name = name_of info;
  kind = info.kind;
  relative_path = doc.relative_path;
  line = definition_line doc info.symbol;
}

-- `kinds.iter().any(|k| *k == kind_str)`, where no kinds are all kinds
abbrev pub wanted : List Text → Text → Bool
wanted [] kind = true
wanted (k ∷ ks) kind = any (λ j. text_same j kind) (k ∷ ks)

abbrev pub map_symbols : Document → List Text → List SymbolInformation → List MapSymbol
map_symbols doc kinds [] = []
map_symbols doc kinds (sym ∷ syms) =
    let rest = map_symbols doc kinds syms in
    if wanted kinds sym.kind
    then record {
      symbol = sym.symbol;
      display_name = name_of sym;
      kind = sym.kind;
      line = definition_line doc sym.symbol;
    }
      ∷ rest
    else rest

unfoldable pub document_map_symbols : Document → List Text → List MapSymbol
document_map_symbols doc kinds = map_symbols doc kinds doc.symbols

unfoldable pub entry_of : List Text → Document → ModuleEntry
unfolding document_map_symbols
entry_of kinds doc = record {
  relative_path = doc.relative_path;
  symbols = document_map_symbols doc kinds;
}

abbrev pub has_symbols : ModuleEntry → Bool
has_symbols m = elim m.symbols [ [] ↦ false | _ ∷ _ ↦ true ]

unfoldable pub project_map : Index → List Text → List ModuleEntry
unfolding entry_of
project_map index kinds = select has_symbols (map (entry_of kinds) index)

abbrev pub with_path : Text → MapSymbol → LocatedSymbol
with_path path s = record {
  symbol = s.symbol;
  display_name = s.display_name;
  kind = s.kind;
  relative_path = path;
  line = s.line;
}

unfoldable pub defs_in_path : Index → Text → List LocatedSymbol
unfolding document_map_symbols
defs_in_path index path = elim (find (λ d. text_same d.relative_path path) index) [
  | none ↦ []
  | some doc ↦ map (with_path doc.relative_path) (document_map_symbols doc [])
]

-- `HashSet::insert` and its answer, on the list of what it holds.
abbrev pub seen_before : Text × Text → List (Text × Text) → Bool
seen_before k ks = any (λ j. text_same j.0 k.0 && text_same j.1 k.1) ks

-- The state of the loops: `seen` and `out`.
pub record Found : Type 0 where
  pub seen : List (Text × Text)
  pub out : List LocatedSymbol

-- The round for an occurrence, from the enclosing definition on.
unfoldable pub add_enclosing : Document → Text → Found → Found
add_enclosing doc id f = if seen_before (doc.relative_path, id) f.seen then f else record {
  seen = f.seen ++ (doc.relative_path, id) ∷ [];
  out = elim (find (is_symbol id) doc.symbols) [
    | none ↦ f.out
    | some info ↦ f.out ++ located doc info ∷ []
  ];
}

-- The definition that encloses a call site of `symbol`, if the occurrence is one.
unfoldable pub enclosing_caller : Document → Text → Occurrence → Option Text
unfolding enclosing_definition_symbol_id
enclosing_caller doc symbol occ =
    if text_same occ.symbol symbol && not (defines occ)
    then elim (head_of occ.range) [
      | none ↦ none
      | some line ↦ enclosing_definition_symbol_id doc line
    ]
    else none

unfoldable pub scan_document : Document → Text → List Occurrence → Found → Found
unfolding add_enclosing enclosing_caller
scan_document doc symbol [] f = f
scan_document doc symbol (occ ∷ occs) f =
    scan_document doc symbol occs
      (elim (enclosing_caller doc symbol occ) [ none ↦ f | some id ↦ add_enclosing doc id f ])

unfoldable pub scan_index : Index → Text → Found → Found
unfolding scan_document
scan_index [] symbol f = f
scan_index (doc ∷ index) symbol f =
    scan_index index symbol (scan_document doc symbol doc.occurrences f)

unfoldable pub enclosing_defs_of_callers : Index → Text → List LocatedSymbol
unfolding scan_index
enclosing_defs_of_callers index symbol =
    (scan_index index symbol (record { seen = []; out = [] })).out
