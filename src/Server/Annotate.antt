-- ===== src/Server/Annotate.antt =====
-- The annotation of search hits and of diagnostics in crates/aide-mcp/src/server.rs, and `ScipMeta`. The
-- symbols of a hit's lines stand beside the hit.
use aide_mcp.Base.{
  text_equal, none, some, ℕ, List, Option, Text, codes, map, ◌-◌, if◌then◌else◌, text_same, ◌≡◌,
  refl, [], ◌∷◌,
}
use aide_mcp.Base.Result.{Result, ok, err}
use aide_mcp.Indexer.State.{CommitInfo, IndexState, pending, in_progress, ready, failed}
use aide_mcp.Indexer.Store.{Store, last_known}
use aide_mcp.Scip.{Index, enclosing_definition}
use aide_mcp.Search.Grep.{GrepHit, LineMatch}
use aide_mcp.Server.ScipQueries.{line_0based, ScipError, load_scip_index, relativize_path}
use aide_mcp.Lang.Diagnostics.{Diagnostic}
use aide_mcp.Search.Ls.{Scope, tracked, all, dirty, staged}

pub record ScipMeta : Type 0 where
  pub state : Text
  pub sha : Option Text
  pub reason : Option Text

abbrev pub no_index : ScipMeta
no_index = record { state = codes "no_index"; sha = none; reason = none }

abbrev pub state_name : IndexState → Text × Option Text
state_name pending = (codes "pending", none)
state_name in_progress = (codes "in_progress", none)
state_name ready = (codes "ready", none)
state_name (failed r) = (codes "failed", some r)

abbrev pub from_commit_info : CommitInfo → ScipMeta
from_commit_info info = record {
  state = (state_name info.state).0;
  sha = some info.sha;
  reason = (state_name info.state).1;
}

-- Lines of hits are counted from 1.
abbrev pub symbols_of : Index → GrepHit → List (Option Text)
symbols_of index hit =
    map (λ (l : LineMatch). enclosing_definition index hit.path (line_0based (l.line - 1)))
      hit.lines

abbrev pub without_symbols : GrepHit → List (Option Text)
without_symbols hit = map (λ (l : LineMatch). none) hit.lines

abbrev pub symbols_with : Result Text Index → List GrepHit → List (List (Option Text))
symbols_with (err e) hits = map without_symbols hits
symbols_with (ok index) hits = map (symbols_of index) hits

abbrev pub symbols_at :
    (Text → Result Text Index) → Option Text → List GrepHit → List (List (Option Text))
symbols_at load none hits = map without_symbols hits
symbols_at load (some path) hits = symbols_with (load path) hits

abbrev pub hits_of_commit :
    (Text → Result Text Index)
    → List GrepHit
    → Option CommitInfo
    → ScipMeta × List (List (Option Text))
hits_of_commit load hits none = (no_index, map without_symbols hits)
hits_of_commit load hits (some info) = elim info.state [
  | ready ↦ (from_commit_info info, symbols_at load info.index_path hits)
  | pending ↦ (from_commit_info info, map without_symbols hits)
  | in_progress ↦ (from_commit_info info, map without_symbols hits)
  | failed why ↦ (from_commit_info info, map without_symbols hits)
]

unfoldable pub annotate_hits_with_scip :
    (Text → Result Text Index) → Text → Store → List GrepHit → ScipMeta × List (List (Option Text))
unfolding last_known enclosing_definition
annotate_hits_with_scip load root s hits = hits_of_commit load hits (last_known root s)

-- The symbol of a diagnostic with a file and a line, which is counted from 1.
abbrev pub symbol_at : (Text → Text) → Index → Option Text → Option ℕ → Option Text → Option Text
symbol_at relative index (some file) (some line) before =
    enclosing_definition index (relative file) (line_0based (line - 1))
symbol_at relative index (some file) none before = before
symbol_at relative index none line before = before

module _ (strip_prefix : Text → Text → Option Text) (load : Text → Result Text Index) where
  abbrev pub with_symbol : Text → Index → Diagnostic → Diagnostic
  with_symbol root index d = record d {
    enclosing_symbol =
        symbol_at (relativize_path strip_prefix load root) index d.file d.line_start
          d.enclosing_symbol;
  }

  abbrev pub with_symbols : Text → Result ScipError Index → List Diagnostic → List Diagnostic
  with_symbols root (err e) ds = ds
  with_symbols root (ok index) ds = map (with_symbol root index) ds

  unfoldable pub annotate_diagnostics_with_scip : Text → Store → List Diagnostic → List Diagnostic
  unfolding load_scip_index enclosing_definition
  annotate_diagnostics_with_scip root s [] = []
  annotate_diagnostics_with_scip root s (d ∷ ds) =
      with_symbols root (load_scip_index strip_prefix load root none s) (d ∷ ds)

abbrev pub scope_label : Scope → Text
scope_label tracked = codes "tracked"
scope_label all = codes "all"
scope_label dirty = codes "dirty"
scope_label staged = codes "staged"

abbrev pub or_all : Option Text → Text
or_all none = codes "all"
or_all (some raw) = raw

-- The error holds the text that names no scope.
abbrev pub scope_of : Text → Result Text Scope
scope_of raw =
    if text_same raw (codes "tracked")
    then ok tracked
    else (if text_same raw (codes "all")
        then ok all
        else (if text_same raw (codes "dirty")
            then ok dirty
            else (if text_same raw (codes "staged") then ok staged else err raw)))

unfoldable pub parse_scope : Option Text → Result Text Scope
parse_scope raw = scope_of (or_all raw)

-- Labels are parsed back.
parse_scope-label : (scope : Scope) → parse_scope (some (scope_label scope)) ≡ ok scope
unfolding parse_scope
parse_scope-label tracked = refl
parse_scope-label all = refl
parse_scope-label dirty = refl
parse_scope-label staged = refl
