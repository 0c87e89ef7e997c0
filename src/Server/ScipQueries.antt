-- ===== src/Server/ScipQueries.antt =====
-- How the tools of crates/aide-mcp/src/server.rs ask the SCIP index of a repository. Loading an index and
-- `Path::strip_prefix` are arguments.
use aide_mcp.Base.{
  text_equal, [], ◌∷◌, none, some, ℕ, if◌then◌else◌, List, Option, Text, map, leb, ◌^◌, ◌-◌,
}
use aide_mcp.Base.Int.{ℤ, pos}
use aide_mcp.Base.Result.{Result, ok, err, ◌>>=◌}
use aide_mcp.Indexer.State.{CommitInfo, pending, in_progress, ready, failed}
use aide_mcp.Indexer.Store.{Store, last_ready, status}
use aide_mcp.Lsp.SafeEdit.Report.{DiagnosticSnapshot, SafeEditReport}
use aide_mcp.Scip.{Index, OccurrenceHit, callers, enclosing_definition, enclosing_definition_id}

pub data ScipError : Type 0 where
  no_state no_ready_index no_index_path not_ready no_definition : ScipError
  load_failed : Text → ScipError

abbrev pub ready_path : CommitInfo → Result ScipError Text
ready_path info = elim info.state [
  | ready ↦ elim info.index_path [ none ↦ err no_index_path | some path ↦ ok path ]
  | pending ↦ err not_ready
  | in_progress ↦ err not_ready
  | failed why ↦ err not_ready
]

abbrev pub known_or : ScipError → Option CommitInfo → Result ScipError CommitInfo
known_or e none = err e
known_or e (some info) = ok info

unfoldable pub resolve_scip_path : Text → Option Text → Store → Result ScipError Text
unfolding status last_ready
resolve_scip_path root (some sha) s =
    known_or no_state (status root s (some sha)) >>= λ info. ready_path info
resolve_scip_path root none s =
    known_or no_ready_index (last_ready root s) >>= λ info. ready_path info

-- `i32::try_from(line).unwrap_or(i32::MAX)`
abbrev pub line_0based : ℕ → ℤ
line_0based line = if leb (2 ^ 31) line then pos (2 ^ 31 - 1) else pos line

abbrev pub or_else_text : Option Text → Text → Text
or_else_text none s = s
or_else_text (some t) s = t

abbrev pub loaded_or_failed : Result Text Index → Result ScipError Index
loaded_or_failed (ok index) = ok index
loaded_or_failed (err e) = err (load_failed e)

abbrev pub answered : Index → Option Text → Result ScipError (Option (List OccurrenceHit))
answered index none = err no_definition
answered index (some id) = ok (some (callers index id))

-- `strip_prefix root path`, and `load` as `cached_scip_load`.
module _ (strip_prefix : Text → Text → Option Text) (load : Text → Result Text Index) where
  abbrev pub relativize_path : Text → Text → Text
  relativize_path root file = or_else_text (strip_prefix root file) file

  unfoldable pub load_scip_index : Text → Option Text → Store → Result ScipError Index
  unfolding resolve_scip_path
  load_scip_index root sha s = resolve_scip_path root sha s >>= λ path. loaded_or_failed (load path)

  abbrev pub references_in :
      Text → Text → ℕ → Index → Result ScipError (Option (List OccurrenceHit))
  references_in root file line index =
      answered index (enclosing_definition_id index (relativize_path root file) (line_0based line))

  abbrev pub references_of :
      Text → Text → ℕ → Result Text Index → Result ScipError (Option (List OccurrenceHit))
  references_of root file line loaded =
      loaded_or_failed loaded >>= λ index. references_in root file line index

  abbrev pub references_at_path :
      Text → Text → ℕ → Result ScipError Text → Result ScipError (Option (List OccurrenceHit))
  references_at_path root file line (err e) = ok none
  references_at_path root file line (ok path) = references_of root file line (load path)

  unfoldable pub scip_references_at :
      Text → Text → ℕ → Store → Result ScipError (Option (List OccurrenceHit))
  unfolding resolve_scip_path callers enclosing_definition_id
  scip_references_at root file line s =
      references_at_path root file line (resolve_scip_path root none s)

  abbrev pub annotated : Text → Index → DiagnosticSnapshot → DiagnosticSnapshot
  annotated root index d = record d {
    enclosing_symbol =
        enclosing_definition index (relativize_path root d.file) (line_0based d.line);
  }

  abbrev pub annotate_with :
      Text → Result ScipError Index → List DiagnosticSnapshot → List DiagnosticSnapshot
  annotate_with root (err e) ds = ds
  annotate_with root (ok index) ds = map (annotated root index) ds

  unfoldable pub annotate_diagnostic_snapshots_with_scip :
      Text → Store → List DiagnosticSnapshot → List DiagnosticSnapshot
  unfolding load_scip_index enclosing_definition
  annotate_diagnostic_snapshots_with_scip root s [] = []
  annotate_diagnostic_snapshots_with_scip root s (d ∷ ds) =
      annotate_with root (load_scip_index root none s) (d ∷ ds)

  unfoldable pub annotate_safe_edit_report : Text → Store → SafeEditReport → SafeEditReport
  unfolding annotate_diagnostic_snapshots_with_scip
  annotate_safe_edit_report root s report = record report {
    new_errors = annotate_diagnostic_snapshots_with_scip root s report.new_errors;
    new_warnings = annotate_diagnostic_snapshots_with_scip root s report.new_warnings;
    resolved = annotate_diagnostic_snapshots_with_scip root s report.resolved;
  }
