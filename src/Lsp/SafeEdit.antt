-- ===== src/Lsp/SafeEdit.antt =====
-- The edits that measure their effect, in crates/aide-lsp/src/ops.rs: `safe_edit`, the four edits by
-- symbol, and what they share.
pub mod Report
pub mod Matches
pub mod Effect
pub mod Keeps
use aide_mcp.Base.{
  text_equal, nat_equal, [], ◌∷◌, none, some, ℕ, if◌then◌else◌, List, Text, ◌++◌, Option, ◌||◌,
  codes, text_same, ◌==◌,
}
use aide_mcp.Lsp.Workspace.{
  Workspace, Write, EditError, io, uri, invalid_position, panic, no_symbol, not_unique,
  write_through,
}
use aide_mcp.Base.Map.{Map, get}
use aide_mcp.Base.Result.{Result, ok, err, ◌>>=◌}
use aide_mcp.Lsp.Documents.{ensure_current}
use aide_mcp.Lsp.Symbols.{Symbols, find_enclosing_symbol}
use aide_mcp.Lsp.Client.{Diagnostic}
use aide_mcp.Lsp.Position.Splice.{Range, SpliceError, splice_at, splice_range}
use aide_mcp.Lsp.SafeEdit.Report.{
  build_safe_edit_report, DiagnosticSnapshot, SafeEditReport, snapshots_of,
}
use aide_mcp.Lsp.SafeEdit.Matches.{count_matches, replace_first}
use aide_mcp.Lsp.Position.{Position, position_to_byte_offset}

abbrev pub language_id_for : Option Text → Text
language_id_for none = codes "plaintext"
language_id_for (some e) =
    if text_same e (codes "rs")
    then codes "rust"
    else if text_same e (codes "ts") || text_same e (codes "tsx")
    then codes "typescript"
    else if text_same e (codes "js") || text_same e (codes "jsx")
    then codes "javascript"
    else if text_same e (codes "py")
    then codes "python"
    else if text_same e (codes "go")
    then codes "go"
    else codes "plaintext"

-- `?` on a step that changes the state.
infixl 5 ◌>=>◌
abbrev pub ◌>=>◌ :
    {A : Type 0} {B : Type 0}
    → Result EditError A × Workspace
    → (A → Workspace → Result EditError B × Workspace)
    → Result EditError B × Workspace
(ok a, w) >=> f = f a w
(err e, w) >=> f = (err e, w)

-- What the server answers to a request for symbols.
pub data SymbolsResponse : Type 0 where
  nested : Symbols → SymbolsResponse
  flat absent : SymbolsResponse

-- What an operation meets: the diagnostics that are published when it looks first and last, how its
-- write goes, the answers to its requests, and the times at which it touches documents.
pub record Surroundings : Type 0 where
  pub published : Map Text (List Diagnostic)
  pub settled : Map Text (List Diagnostic)
  pub write : Write
  pub symbols : Result EditError SymbolsResponse
  pub now : ℕ
  pub later : ℕ
  pub settle : ℕ

abbrev pub diagnostics_of : Option (List Diagnostic) → List Diagnostic
diagnostics_of none = []
diagnostics_of (some ds) = ds

-- `code: -32_000` of each operation is told apart here by the constructors of the error.
abbrev pub required : Option (Range × Text) → Result EditError (Range × Text)
required none = err no_symbol
required (some s) = ok s

abbrev pub as_edit_error : Result SpliceError Text → Result EditError Text
as_edit_error (ok s) = ok s
as_edit_error (err SpliceError.invalid_pos) = err invalid_position
as_edit_error (err SpliceError.panic) = err panic

abbrev pub read_file : Text → Workspace → Result EditError Text × Workspace
read_file path w = elim (get path w.files) [ none ↦ (err io, w) | some text ↦ (ok text, w) ]

unfoldable pub symbol_in :
    SymbolsResponse → Position → Workspace → Result EditError (Option (Range × Text)) × Workspace
unfolding find_enclosing_symbol
symbol_in (nested syms) at w = (ok (find_enclosing_symbol syms at), w)
symbol_in flat at w = (ok none, w)
symbol_in absent at w = (ok none, w)

abbrev pub or_uri_error : Option Text → Result EditError Text
or_uri_error none = err uri
or_uri_error (some u) = ok u

module _ (uri_of extension_of : Text → Option Text) where
  abbrev pub path_to_uri : Text → Result EditError Text
  path_to_uri path = or_uri_error (uri_of path)

  -- `ensure_document_current` on the files of the workspace.
  unfoldable pub ensure : Text → ℕ → Workspace → Result EditError (Unit {0}) × Workspace
  unfolding ensure_current
  ensure path now w = elim (get path w.files) [
    | none ↦ (err io, w)
    | some text ↦ elim (uri_of path) [
      | none ↦ (err uri, w)
      | some u ↦
          let (docs, sent) =
            ensure_current u (language_id_for (extension_of path)) text now w.docs in
          (ok tt, record w { docs = docs; sent = w.sent ++ sent })
    ]
  ]

  unfoldable pub snapshot_published_diagnostics :
      Map Text (List Diagnostic) → List Text → Result EditError (List DiagnosticSnapshot)
  snapshot_published_diagnostics published [] = ok []
  snapshot_published_diagnostics published (p ∷ ps) = path_to_uri p >>= λ u.
      snapshot_published_diagnostics published ps >>= λ rest.
      ok (snapshots_of p (diagnostics_of (get u published)) ++ rest)

  unfoldable pub apply_and_snapshot :
      Surroundings
      → Text
      → Text
      → List Text
      → Workspace
      → Result EditError SafeEditReport × Workspace
  unfolding ensure snapshot_published_diagnostics write_through build_safe_edit_report
  apply_and_snapshot e path after related w = ensure path e.now w >=> λ done w₁.
      (snapshot_published_diagnostics e.published (path ∷ related), w₁) >=> λ before w₂.
      (path_to_uri path, w₂) >=> λ u w₃.
      write_through e.write path u after e.later w₃ >=> λ done' w₄.
      (snapshot_published_diagnostics e.settled (path ∷ related), w₄) >=> λ now_there w₅.
      (ok (build_safe_edit_report path before now_there e.settle), w₅)

  unfoldable pub safe_edit :
      Surroundings
      → Text
      → Text
      → Text
      → List Text
      → Workspace
      → Result EditError SafeEditReport × Workspace
  unfolding apply_and_snapshot ensure count_matches replace_first
  safe_edit e path old_string new_string related w = ensure path e.now w >=> λ done w₁.
      read_file path w₁ >=> λ before w₂.
      if count_matches old_string before == 1
      then apply_and_snapshot e path (replace_first old_string new_string before) related w₂
      else (err not_unique, w₂)

  unfoldable pub locate_symbol :
      Surroundings
      → Text
      → Position
      → Workspace
      → Result EditError (Option (Range × Text)) × Workspace
  unfolding ensure symbol_in
  locate_symbol e path at w = ensure path e.now w >=> λ done w₁.
      (path_to_uri path, w₁) >=> λ u w₂. (e.symbols, w₂) >=> λ response w₃. symbol_in response at w₃

  unfoldable pub require_symbol_at :
      Surroundings → Text → Position → Workspace → Result EditError (Range × Text) × Workspace
  unfolding locate_symbol
  require_symbol_at e path at w = locate_symbol e path at w >=> λ found w₁. (required found, w₁)

  -- What the four edits by symbol share: the symbol, the text of the file, and the text made of them.
  unfoldable pub edit_symbol :
      (Text → Range → Result EditError Text)
      → Surroundings
      → Text
      → Position
      → List Text
      → Workspace
      → Result EditError SafeEditReport × Workspace
  unfolding require_symbol_at apply_and_snapshot
  edit_symbol change e path at related w = require_symbol_at e path at w >=> λ symbol w₁.
      read_file path w₁ >=> λ before w₂.
      (change before symbol.0, w₂) >=> λ after w₃. apply_and_snapshot e path after related w₃

-- The insertion of `content` at a position.
unfoldable pub insert_at : Text → Text → Position → Result EditError Text
unfolding position_to_byte_offset splice_at
insert_at content before at = elim (position_to_byte_offset before at) [
  | none ↦ err invalid_position
  | some n ↦ as_edit_error (splice_at before content n n)
]

module _ (uri_of extension_of : Text → Option Text) (e : Surroundings) (path : Text)
    (at : Position) where
  unfoldable pub replace_symbol_body :
      Text → List Text → Workspace → Result EditError SafeEditReport × Workspace
  unfolding edit_symbol splice_range
  replace_symbol_body new_body =
      edit_symbol uri_of extension_of
        (λ before range. as_edit_error (splice_range before range new_body)) e path at

  unfoldable pub insert_before_symbol :
      Text → List Text → Workspace → Result EditError SafeEditReport × Workspace
  unfolding edit_symbol insert_at
  insert_before_symbol content =
      edit_symbol uri_of extension_of (λ before range. insert_at content before range.start) e path
        at

  unfoldable pub insert_after_symbol :
      Text → List Text → Workspace → Result EditError SafeEditReport × Workspace
  unfolding edit_symbol insert_at
  insert_after_symbol content =
      edit_symbol uri_of extension_of (λ before range. insert_at content before range.end) e path at

  unfoldable pub delete_symbol_range :
      List Text → Workspace → Result EditError SafeEditReport × Workspace
  unfolding edit_symbol splice_range
  delete_symbol_range =
      edit_symbol uri_of extension_of (λ before range. as_edit_error (splice_range before range []))
        e path at
