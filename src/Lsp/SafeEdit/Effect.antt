-- ===== src/Lsp/SafeEdit/Effect.antt =====
-- What the edits by symbol leave in the files and in the server.
use mathlib.Core.Option
use aide_mcp.Base.{
  text_equal, nat_equal, some, ℕ, Option, Text, ◌++◌, ◌≡◌, refl, ◌∙◌, [], ◌∷◌, true, false, inl,
  inr, List, sym, ap, text_same, All, Option-cases, same_refl, arith, ◌≤◌,
}
use aide_mcp.Base.Map.{Map, get, get-insert}
use aide_mcp.Base.Result.{ok, Result}
use aide_mcp.Lsp.Documents.{ensure_current, changed}
use aide_mcp.Lsp.Documents.Mirror.{receive_all-append, ensure_current-IsCurrent, text_of}
use aide_mcp.Lsp.Workspace.{Workspace, write_through, push_change, written, EditError}
use aide_mcp.Lsp.Workspace.InSync.{InSync, Distinct-ensure_current, write_through-InSync}
use aide_mcp.Lsp.SafeEdit.{
  ensure, language_id_for, snapshot_published_diagnostics, diagnostics_of, apply_and_snapshot,
  Surroundings, edit_symbol, require_symbol_at, locate_symbol, nested, replace_symbol_body,
  as_edit_error, read_file, symbol_in,
}
use aide_mcp.Lsp.Client.{Diagnostic}
use aide_mcp.Lsp.SafeEdit.Report.{
  DiagnosticSnapshot, snapshots_of, SafeEditReport, build_safe_edit_report,
}
use aide_mcp.Lsp.Position.Splice.{Range, IsSplice, splice_range-IsSplice, splice_range}
use aide_mcp.Lsp.Position.{Position, position_to_byte_offset}
use aide_mcp.Lsp.Symbols.{Symbols, find_enclosing_symbol}

module _ (uri_of extension_of : Text → Option Text) (start : Map Text Text) where
  -- Where the file is there and has a URI, `ensure` opens or updates its document.
  pub ensure-InSync :
      (path u text : Text) (now : ℕ) (w : Workspace)
      → get path w.files ≡ some text
      → uri_of path ≡ some u
      → InSync start w
      → (w' : Workspace) × (ensure uri_of extension_of path now w ≡ (ok tt, w'))
        × InSync start w'
        × (w'.files ≡ w.files)
        × (Option.map text_of (get u w'.docs) ≡ some text)
  unfolding ensure
  ensure-InSync path u text now w there named s =
      let language = language_id_for (extension_of path) in
      let (server', c) =
        ensure_current-IsCurrent u language text now w.docs s.server s.distinct s.mirrors in
      (
        record w {
          docs = (ensure_current u language text now w.docs).0;
          sent = w.sent ++ (ensure_current u language text now w.docs).1;
        },
        rw (there, ensure) (rw named refl),
        record {
          server = server';
          legal = receive_all-append w.sent _ start s.server s.legal ∙ c.legal;
          mirrors = c.mirrors;
          distinct = Distinct-ensure_current u language text now w.docs s.distinct;
        },
        refl,
        c.current,
      )

  -- Paths that have URIs can be looked at.
  abbrev pub Named : List Text → Type 0
  Named ps = All (λ p. (u : Text) × (uri_of p ≡ some u)) ps

  snapshot-ok :
      (published : Map Text (List Diagnostic)) (ps : List Text)
      → Named ps
      → (ds : List DiagnosticSnapshot) × (snapshot_published_diagnostics uri_of extension_of
            published ps
          ≡ ok ds)
  unfolding snapshot_published_diagnostics
  snapshot-ok published [] n = ([], refl)
  snapshot-ok published (p ∷ ps) ((u, named), n) =
      let (ds, e) = snapshot-ok published ps n in
      (
        snapshots_of p (diagnostics_of (get u published)) ++ ds,
        rw (named, snapshot_published_diagnostics) (rw e refl),
      )

  -- What an edit leaves: the file with its new text, the other files as they were, and the server with
  -- the new text.
  pub record Edited (path u after : Text) (before w : Workspace) : Type 0 where
    pub file : get path w.files ≡ some after
    pub others : (p : Text) → text_same path p ≡ false → get p w.files ≡ get p before.files
    pub in_sync : InSync start w
    pub told : Option.map text_of (get u w.docs) ≡ some after

  write_through-Edited :
      (path u text after : Text) (now : ℕ) (w : Workspace)
      → InSync start w
      → Option.map text_of (get u w.docs) ≡ some text
      → (w' : Workspace) × (write_through (written true) path u after now w ≡ (ok tt, w'))
        × Edited path u after w w'
  unfolding write_through push_change
  write_through-Edited path u text after now w s open_there = elim (Option-cases (get u w.docs)) [
    | inl closed ↦ absurd (cc (sym (ap (Option.map text_of) closed) ∙ open_there))
    | inr (doc, there) ↦ (
      (write_through (written true) path u after now w).1,
      rw (there, push_change) refl,
      record {
        file =
            rw (there, push_change) (get-insert path path after w.files ∙ rw (same_refl path) refl);
        others =
            λ p apart. rw (there, push_change) (get-insert path p after w.files ∙ rw apart refl);
        in_sync = write_through-InSync start (written true) path u after now w refl s;
        told =
            rw (there, push_change)
              (ap (Option.map text_of) (get-insert u u (changed after now doc) w.docs)
                ∙ rw (same_refl u) refl);
      },
    )
  ]

  apply_and_snapshot-Edited :
      (e : Surroundings) (path u text after : Text) (related : List Text) (w : Workspace)
      → get path w.files ≡ some text
      → uri_of path ≡ some u
      → Named related
      → e.write ≡ written true
      → InSync start w
      → (report : SafeEditReport) × (w' : Workspace) × (apply_and_snapshot uri_of extension_of e
            path after related w
          ≡ (ok report, w'))
        × Edited path u after w w'
  unfolding apply_and_snapshot
  apply_and_snapshot-Edited e path u text after related w there named all_named wrote s =
      let (w₁, e₁, s₁, files₁, open₁) = ensure-InSync path u text e.now w there named s in
      let (before, e₂) = snapshot-ok e.published (path ∷ related) ((u, named), all_named) in
      let (now_there, e₃) = snapshot-ok e.settled (path ∷ related) ((u, named), all_named) in
      let (w₂, e₄, edit) = write_through-Edited path u text after e.later w₁ s₁ open₁ in
      (
        build_safe_edit_report path before now_there e.settle,
        w₂,
        rw (e₁, apply_and_snapshot) (rw e₂ (rw e₃ (rw named (rw wrote (rw e₄ refl))))),
        record {
          file = edit.file;
          others = λ p apart. edit.others p apart ∙ ap (get p) files₁;
          in_sync = edit.in_sync;
          told = edit.told;
        },
      )

  require_symbol_at-found :
      (e : Surroundings) (path u : Text) (at : Position) (syms : Symbols) (symbol : Range × Text)
      (w w₁ : Workspace)
      → ensure uri_of extension_of path e.now w ≡ (ok tt, w₁)
      → uri_of path ≡ some u
      → e.symbols ≡ ok (nested syms)
      → find_enclosing_symbol syms at ≡ some symbol
      → require_symbol_at uri_of extension_of e path at w ≡ (ok symbol, w₁)
  unfolding require_symbol_at locate_symbol symbol_in
  require_symbol_at-found e path u at syms symbol w w₁ current named answered found =
      rw (current, require_symbol_at) (rw named (rw answered (rw found refl)))

  edit_symbol_step :
      (change : Text → Range → Result EditError Text) (e : Surroundings) (path text after : Text)
      (at : Position) (symbol : Range × Text) (related : List Text) (w w₁ : Workspace)
      → require_symbol_at uri_of extension_of e path at w ≡ (ok symbol, w₁)
      → get path w₁.files ≡ some text
      → change text symbol.0 ≡ ok after
      → edit_symbol uri_of extension_of change e path at related w
        ≡ apply_and_snapshot uri_of extension_of e path after related w₁
  unfolding edit_symbol
  edit_symbol_step change e path text after at symbol related w w₁ found there computed =
      rw (found, edit_symbol) (rw (there, read_file) (rw computed refl))

  -- An edit by symbol, where the server knows a symbol at the position and the change of the text goes.
  edit_symbol-Edited :
      (change : Text → Range → Result EditError Text) (e : Surroundings) (path u text after : Text)
      (at : Position) (syms : Symbols) (symbol : Range × Text) (related : List Text) (w : Workspace)
      → get path w.files ≡ some text
      → uri_of path ≡ some u
      → Named related
      → e.write ≡ written true
      → e.symbols ≡ ok (nested syms)
      → find_enclosing_symbol syms at ≡ some symbol
      → change text symbol.0 ≡ ok after
      → InSync start w
      → (report : SafeEditReport) × (w' : Workspace) × (edit_symbol uri_of extension_of change e
            path at related w
          ≡ (ok report, w'))
        × Edited path u after w w'
  edit_symbol-Edited change e path u text after at syms symbol related w there named all_named wrote
        answered found computed s =
      let (w₁, e₁, s₁, files₁, open₁) = ensure-InSync path u text e.now w there named s in
      let there₁ : get path w₁.files ≡ some text = ap (get path) files₁ ∙ there in
      let (report, w₂, e₂, edit) =
        apply_and_snapshot-Edited e path u text after related w₁ there₁ named all_named wrote s₁ in
      let located = require_symbol_at-found e path u at syms symbol w w₁ e₁ named answered found in
      (
        report,
        w₂,
        edit_symbol_step change e path text after at symbol related w w₁ located there₁ computed
            ∙ e₂,
        record {
          file = edit.file;
          others = λ p apart. edit.others p apart ∙ ap (get p) files₁;
          in_sync = edit.in_sync;
          told = edit.told;
        },
      )

-- Where the server is in sync, the file and its URI and those of the related files are there, the server
-- answers a tree of symbols in which one owns the position, its range has offsets that are not crossed, and
-- the write and its notification go: replace_symbol_body reports success, the file then holds the text with what
-- stands between the two offsets of that symbol replaced by the new body, all other files are as before,
-- and the server is in sync and has the new text of the file.
pub replace_symbol_body-Edited :
    (uri_of extension_of : Text → Option Text) (start : Map Text Text) (e : Surroundings)
    (path u text new_body : Text) (at : Position) (syms : Symbols) (range : Range) (name : Text)
    (from to : ℕ) (related : List Text) (w : Workspace)
    → get path w.files ≡ some text
    → uri_of path ≡ some u
    → Named uri_of extension_of start related
    → e.write ≡ written true
    → e.symbols ≡ ok (nested syms)
    → find_enclosing_symbol syms at ≡ some (range, name)
    → position_to_byte_offset text range.start ≡ some from
    → position_to_byte_offset text range.end ≡ some to
    → from ≤ to
    → InSync start w
    → (report : SafeEditReport) × (w' : Workspace) × (after : Text) × (replace_symbol_body uri_of
          extension_of e path at new_body related w
        ≡ (ok report, w'))
      × Edited uri_of extension_of start path u after w w'
      × IsSplice text new_body from to after
unfolding replace_symbol_body
replace_symbol_body-Edited uri_of extension_of start e path u text new_body at syms range name from
      to related w there named all_named wrote answered found starts ends ordered s =
    elim (splice_range-IsSplice text new_body range from to starts ends) [
      | inl (crossed, x) ↦ absurd (omega (arith, crossed, ordered))
      | inr (after, spliced, splice) ↦
          let (report, w', done, edit) =
            edit_symbol-Edited uri_of extension_of start
              (λ before r. as_edit_error (splice_range before r new_body)) e path u text after at
              syms (range, name) related w there named all_named wrote answered found
              (ap as_edit_error spliced) s in
          (report, w', after, done, edit, splice)
    ]
