-- ===== src/Lsp/SafeEdit/Report.antt =====
-- `build_safe_edit_report` of crates/aide-lsp/src/ops.rs: what an edit changed among the diagnostics.
pub mod Exact
use aide_mcp.Base.{
  text_equal, text_same, nat_equal, [], ◌∷◌, none, some, ℕ, Bool, if◌then◌else◌, List, Option, Text,
  ◌==◌, any, select, length, not, codes, ◌&&◌,
}
use aide_mcp.Lsp.Client.{Diagnostic}

pub record DiagnosticSnapshot : Type 0 where
  pub file : Text
  pub line : ℕ
  pub col : ℕ
  pub severity : Text
  pub message : Text
  pub source : Option Text
  pub enclosing_symbol : Option Text

pub record SafeEditReport : Type 0 where
  pub edited_file : Text
  pub total_before : ℕ
  pub total_after : ℕ
  pub new_errors : List DiagnosticSnapshot
  pub new_warnings : List DiagnosticSnapshot
  pub resolved : List DiagnosticSnapshot
  pub unchanged_count : ℕ
  pub confidence : Text
  pub settle_ms : ℕ

-- The derived equality of the keys of `diag_key`.
abbrev pub same_key : DiagnosticSnapshot → DiagnosticSnapshot → Bool
same_key a b =
    text_same a.file b.file
    && ((a.line == b.line)
        && ((a.col == b.col) && (text_same a.severity b.severity && text_same a.message b.message)))

-- The set of the keys of a list contains the key of `d`.
abbrev pub contains_key : List DiagnosticSnapshot → DiagnosticSnapshot → Bool
contains_key ds d = any (same_key d) ds

-- One element for each key, as in a set.
abbrev pub key_set : List DiagnosticSnapshot → List DiagnosticSnapshot
key_set [] = []
key_set (d ∷ ds) = let rest = key_set ds in if contains_key ds d then rest else d ∷ rest

abbrev pub is_severity : Text → DiagnosticSnapshot → Bool
is_severity s d = text_same d.severity s

abbrev pub unknown : Text
unknown = codes "Unknown"

abbrev pub or_unknown : Option Text → Text
or_unknown none = unknown
or_unknown (some s) = s

abbrev pub snapshot_of : Text → Diagnostic → DiagnosticSnapshot
snapshot_of path d = record {
  file = path;
  line = d.range.start.line;
  col = d.range.start.character;
  severity = or_unknown d.severity;
  message = d.message;
  source = d.source;
  enclosing_symbol = none;
}

abbrev pub snapshots_of : Text → List Diagnostic → List DiagnosticSnapshot
snapshots_of path [] = []
snapshots_of path (d ∷ ds) = snapshot_of path d ∷ snapshots_of path ds

abbrev pub appeared : List DiagnosticSnapshot → List DiagnosticSnapshot → List DiagnosticSnapshot
appeared before after = select (λ d. not (contains_key before d)) after

unfoldable pub build_safe_edit_report :
    Text → List DiagnosticSnapshot → List DiagnosticSnapshot → ℕ → SafeEditReport
build_safe_edit_report path before after settle = record {
  edited_file = path;
  total_before = length before;
  total_after = length after;
  new_errors = select (is_severity (codes "Error")) (appeared before after);
  new_warnings = select (is_severity (codes "Warning")) (appeared before after);
  resolved = appeared after before;
  unchanged_count = length (select (contains_key after) (key_set before));
  confidence = codes "best_effort";
  settle_ms = settle;
}
