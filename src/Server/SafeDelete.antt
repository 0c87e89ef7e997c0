-- ===== src/Server/SafeDelete.antt =====
-- `safe_delete_symbol` of crates/aide-mcp/src/server.rs: the check of the SCIP index before the deletion.
-- Which plugin claims a root and whether its server starts are arguments.
pub mod Checked
use aide_mcp.Base.{[], ◌∷◌, none, some, ℕ, if◌then◌else◌, List, Option, Bool, Text}
use aide_mcp.Base.Result.{Result, ok, err}
use aide_mcp.Indexer.Store.{Store}
use aide_mcp.Lsp.SafeEdit.{Surroundings, delete_symbol_range}
use aide_mcp.Lsp.SafeEdit.Report.{SafeEditReport}
use aide_mcp.Lsp.Workspace.{EditError, Workspace}
use aide_mcp.Scip.{Index, OccurrenceHit}
use aide_mcp.Server.ScipQueries.{ScipError, annotate_safe_edit_report, scip_references_at}

pub record SafeDeleteSymbolArgs : Type 0 where
  pub file : Text
  pub line : ℕ
  pub column : ℕ
  pub related_files : List Text
  pub force : Bool

-- The answer of the tool; the two refusals are told apart by their reasons.
pub data Answer : Type 0 where
  no_plugin no_client no_index : Answer
  in_use : List OccurrenceHit → Answer
  preflight_failed : ScipError → Answer
  edit_failed : EditError → Answer
  deleted : SafeEditReport → Answer

module _ (strip_prefix : Text → Text → Option Text) (load : Text → Result Text Index)
    (uri_of extension_of : Text → Option Text) where
  abbrev pub reported :
      Text → Store → Result EditError SafeEditReport × Workspace → Answer × Workspace
  reported root s (ok report, w) =
      (deleted (annotate_safe_edit_report strip_prefix load root s report), w)
  reported root s (err e, w) = (edit_failed e, w)

  -- What follows the check.
  unfoldable pub deletion :
      Bool → Surroundings → Text → Store → SafeDeleteSymbolArgs → Workspace → Answer × Workspace
  unfolding annotate_safe_edit_report delete_symbol_range
  deletion has_client e root s args w =
      if has_client
      then reported root s (
          delete_symbol_range uri_of extension_of e args.file
            (record { line = args.line; character = args.column }) args.related_files w)
      else (no_client, w)

  abbrev pub after_preflight :
      Result ScipError (Option (List OccurrenceHit))
      → Answer × Workspace
      → Workspace
      → Answer × Workspace
  after_preflight (err e) go_on w = (preflight_failed e, w)
  after_preflight (ok none) go_on w = (no_index, w)
  after_preflight (ok (some [])) go_on w = go_on
  after_preflight (ok (some (r ∷ refs))) go_on w = (in_use (r ∷ refs), w)

  unfoldable pub safe_delete_symbol :
      Bool
      → Bool
      → Surroundings
      → Text
      → Store
      → SafeDeleteSymbolArgs
      → Workspace
      → Answer × Workspace
  unfolding deletion scip_references_at
  safe_delete_symbol has_plugin has_client e root s args w =
      let go_on = deletion has_client e root s args w in
      if has_plugin
      then if args.force
        then go_on
        else after_preflight (scip_references_at strip_prefix load root args.file args.line s) go_on
            w
      else (no_plugin, w)
