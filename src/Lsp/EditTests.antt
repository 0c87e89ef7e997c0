-- ===== src/Lsp/EditTests.antt =====
-- The theorems on edits at concrete texts and workspaces.
use mathlib.Core.List.Permᴰ.{swap}
use aide_mcp.Base.{
  text_equal, nat_equal, [], ◌∷◌, none, some, true, ℕ, ◌≡◌, arith, refl, Text, codes, List, In, ◌↔◌,
  inr,
}
use aide_mcp.Base.Result.{ok}
use aide_mcp.Lsp.Position.{position_to_byte_offset, byte_offset, compute_line_offsets}
use aide_mcp.Lsp.Position.Splice.{Range, IsSplice}
use aide_mcp.Lsp.Symbols.{Symbols, symbol, absent, nil, cons, find_enclosing_symbol}
use aide_mcp.Lsp.Documents.{receive_all}
use aide_mcp.Lsp.Edits.{TextEdit, apply_text_edits}
use aide_mcp.Lsp.Edits.Pieces.{Hunk, original, edited, apply_text_edits-pieces}
use aide_mcp.Lsp.Workspace.{Workspace, written, Outcomes, WorkspaceEdit}
use aide_mcp.Lsp.Workspace.InSync.{InSync}
use aide_mcp.Lsp.Session.{Operation, rename_symbol, replace_body, outside, query, after_all}
use aide_mcp.Lsp.Session.InSync.{AllNotified, IsNotified, session-InSync}
use aide_mcp.Lsp.SafeEdit.{Surroundings, nested, replace_symbol_body}
use aide_mcp.Lsp.SafeEdit.Effect.{Edited, replace_symbol_body-Edited}
use aide_mcp.Lsp.SafeEdit.Report.{DiagnosticSnapshot, SafeEditReport, build_safe_edit_report}
use aide_mcp.Lsp.SafeEdit.Report.Exact.{IsUnknownTo, build_safe_edit_report_lem}

abbrev on_first : ℕ → ℕ → Range
on_first from to = record {
  start = record { line = 0; character = from };
  end = record { line = 0; character = to };
}

abbrev edit_at : ℕ → ℕ → Text → TextEdit
edit_at from to new = record { range = on_first from to; new_text = new }

-- `aé` to `let aé`, and the `1` to `2`.
abbrev hunks : List Hunk
hunks =
    record { kept = []; old = []; edit = edit_at 0 0 (codes "let ") }
    ∷ record { kept = 97 ∷ 233 ∷ codes " = "; old = codes "1"; edit = edit_at 5 6 (codes "2") }
    ∷ []

apply_text_edits-pieces_example :
    apply_text_edits
      (original hunks (codes ";"))
      (edit_at 5 6 (codes "2") ∷ edit_at 0 0 (codes "let ") ∷ [])
    ≡ ok (edited hunks (codes ";"))
unfolding byte_offset compute_line_offsets
apply_text_edits-pieces_example =
    apply_text_edits-pieces hunks (codes ";")
      (edit_at 5 6 (codes "2") ∷ edit_at 0 0 (codes "let ") ∷ []) (refl, refl, (refl, refl, tt))
      ((inr (refl, omega arith), tt), (tt, tt)) (swap refl refl)

abbrev main_rs : Text
main_rs = codes "/main.rs"

abbrev workspace : Workspace
workspace = record { files = (main_rs, codes "fn f() {}") ∷ []; docs = []; sent = [] }

workspace-InSync : InSync [] workspace
unfolding receive_all
workspace-InSync = record { server = []; legal = refl; mirrors = λ u. refl; distinct = tt }

abbrev all_written : Outcomes
all_written n = (written true, n)

abbrev renaming : WorkspaceEdit
renaming = record {
  changes = some ((main_rs, edit_at 3 4 (codes "g") ∷ []) ∷ []);
  document_changes = none;
}

abbrev outline : Symbols
outline = cons (symbol (codes "f") (on_first 0 9) (on_first 3 4) absent) nil

abbrev surroundings : Surroundings
surroundings = record {
  published = [];
  settled = [];
  write = written true;
  symbols = ok (nested outline);
  now = 1;
  later = 2;
  settle = 1500;
}

replace_symbol_body-Edited_example :
    (report : SafeEditReport) × (w' : Workspace) × (after : Text) × (replace_symbol_body
        (λ p. some p)
        (λ p. some (codes "rs"))
        surroundings
        main_rs
        (record { line = 0; character = 4 })
        (codes "fn g() {}")
        []
        workspace
      ≡ (ok report, w'))
    × Edited (λ p. some p) (λ p. some (codes "rs")) [] main_rs main_rs after workspace w'
    × IsSplice (codes "fn f() {}") (codes "fn g() {}") 0 9 after
unfolding find_enclosing_symbol position_to_byte_offset
replace_symbol_body-Edited_example =
    replace_symbol_body-Edited (λ p. some p) (λ p. some (codes "rs")) [] surroundings main_rs
      main_rs (codes "fn f() {}") (codes "fn g() {}") (record { line = 0; character = 4 }) outline
      (on_first 0 9) (codes "f") 0 9 [] workspace refl refl tt refl refl refl refl refl
      (omega arith) workspace-InSync

abbrev finding : Text → DiagnosticSnapshot
finding severity = record {
  file = main_rs;
  line = 0;
  col = 3;
  severity = severity;
  message = codes "unused";
  source = none;
  enclosing_symbol = none;
}

build_safe_edit_report_lem_example :
    let r =
      build_safe_edit_report main_rs
        (finding (codes "Warning") ∷ [])
        (finding (codes "Error") ∷ [])
        1500 in
    (In (finding (codes "Error")) r.new_errors ↔ (
      In (finding (codes "Error")) (finding (codes "Error") ∷ [])
      × (((finding (codes "Error")).severity ≡ codes "Error")
          × IsUnknownTo (finding (codes "Warning") ∷ []) (finding (codes "Error")))))
    × (In (finding (codes "Error")) r.new_warnings ↔ (
        In (finding (codes "Error")) (finding (codes "Error") ∷ [])
        × (((finding (codes "Error")).severity ≡ codes "Warning")
            × IsUnknownTo (finding (codes "Warning") ∷ []) (finding (codes "Error")))))
    × (In (finding (codes "Error")) r.resolved ↔ (
        In (finding (codes "Error")) (finding (codes "Warning") ∷ [])
        × IsUnknownTo (finding (codes "Error") ∷ []) (finding (codes "Error"))))
build_safe_edit_report_lem_example =
    build_safe_edit_report_lem main_rs (finding (codes "Warning") ∷ [])
      (finding (codes "Error") ∷ []) 1500 (finding (codes "Error"))

-- The symbol is renamed, then the function replaced, then the file removed by someone else.
abbrev session : List Operation
session =
    rename_symbol (ok (some renaming)) all_written main_rs 1
    ∷ replace_body surroundings main_rs (record { line = 0; character = 3 }) (codes "fn g() {}") []
    ∷ outside []
    ∷ query main_rs 9
    ∷ []

session-InSync_example :
    InSync [] (after_all (λ p. some p) (λ p. some (codes "rs")) (λ u. some u) session workspace)
unfolding AllNotified IsNotified
session-InSync_example =
    session-InSync [] (λ p. some p) (λ p. some (codes "rs")) (λ u. some u) session workspace
      ((λ n. refl), (refl, (tt, (tt, tt)))) workspace-InSync
