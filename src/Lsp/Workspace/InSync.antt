-- ===== src/Lsp/Workspace/InSync.antt =====
-- The server's copies of the open documents through every edit.
use aide_mcp.Base.{
  text_equal, nat_equal, none, some, true, ℕ, if◌then◌else◌, Option, Text, length, ◌≡◌, refl, ◌∙◌,
  Option-cases, inl, inr, Bool-cases, text_same, leb, [], ◌∷◌, List,
}
use aide_mcp.Base.Map.{Map, get, insert, Distinct, Distinct-insert, Distinct-remove}
use aide_mcp.Lsp.Documents.{
  Documents, OpenedDocument, changed, receive_all, ensure_current, make_room, opened, removed,
  max_open_docs, least_recent,
}
use aide_mcp.Lsp.Documents.Mirror.{Mirrors, Mirrors-insert, receive_all-append}
use aide_mcp.Lsp.Workspace.{
  Workspace, Write, written, torn, push_change, write_through, apply_edits_to_file, apply_each,
  apply_workspace_edit, Outcomes, RenameSummary, WorkspaceEdit, of_changes, of_document_changes,
}
use aide_mcp.Lsp.Edits.{TextEdit, apply_text_edits}
use aide_mcp.Base.Result.{Result-cases}

-- What has been sent is legal, and the server has the open documents with their texts.
pub record InSync (start : Map Text Text) (w : Workspace) : Type 0 where
  pub server : Map Text Text
  pub legal : receive_all w.sent start ≡ some server
  pub mirrors : Mirrors w.docs server
  pub distinct : Distinct w.docs

-- The notification is sent, if it comes to that.
abbrev pub Notifies : Write → Type 0
Notifies (written notified) = notified ≡ true
Notifies (torn left) = Unit

pub Distinct-ensure_current :
    (u language_id text : Text) (now : ℕ) (docs : Documents)
    → Distinct docs
    → Distinct (ensure_current u language_id text now docs).0
unfolding ensure_current make_room
Distinct-ensure_current u language_id text now docs d = elim (Option-cases (get u docs)) [
  | inr (e, there) ↦
      rw (there, ensure_current)
        (elim (Bool-cases (text_same e.text text)) [
          | inl same ↦ rw same (Distinct-insert u _ docs d)
          | inr other ↦ rw other (Distinct-insert u _ docs d)
        ])
  | inl gone ↦
      rw (gone, ensure_current)
        (Distinct-insert u (opened text now) _
          (room (if leb max_open_docs (length docs) then least_recent docs else none)))
]
  where
    room : (o : Option (Text × OpenedDocument)) → Distinct (removed o docs).0
    room none = d
    room (some p) = Distinct-remove p.0 docs d

module _ (start : Map Text Text) where
  push_change-InSync :
      (u after : Text) (now : ℕ) (w : Workspace)
      → InSync start w
      → InSync start (push_change u after now true w).1
  unfolding push_change receive_all
  push_change-InSync u after now w s = elim (Option-cases (get u w.docs)) [
    | inl closed ↦ rw (closed, push_change) s
    | inr (doc, there) ↦
        let there' : get u s.server ≡ some doc.text = s.mirrors u ∙ rw there refl in
        rw (there, push_change)
          (record {
            server = insert u after s.server;
            legal =
                receive_all-append w.sent _ start s.server s.legal ∙ rw (there', receive_all) refl;
            mirrors = Mirrors-insert u after (changed after now doc) w.docs s.server s.mirrors refl;
            distinct = Distinct-insert u (changed after now doc) w.docs s.distinct;
          })
  ]

  pub write_through-InSync :
      (o : Write) (path u after : Text) (now : ℕ) (w : Workspace)
      → Notifies o
      → InSync start w
      → InSync start (write_through o path u after now w).1
  unfolding write_through
  write_through-InSync (torn left) path u after now w n s = record {
    server = s.server;
    legal = s.legal;
    mirrors = s.mirrors;
    distinct = s.distinct;
  }
  write_through-InSync (written notified) path u after now w n s = rw n (
      push_change-InSync u after now (record w { files = insert path after w.files })
        (record { server = s.server; legal = s.legal; mirrors = s.mirrors; distinct = s.distinct }))

  apply_edits_to_file-InSync :
      (path_of : Text → Option Text) (o : Write × ℕ) (u : Text) (es : List TextEdit)
      (summary : RenameSummary) (w : Workspace)
      → Notifies o.0
      → InSync start w
      → InSync start (apply_edits_to_file path_of o u es summary w).1
  unfolding apply_edits_to_file
  apply_edits_to_file-InSync path_of o u es summary w n s = elim (Option-cases (path_of u)) [
    | inl e ↦ rw (e, apply_edits_to_file) s
    | inr (path, e) ↦ elim (Option-cases (get path w.files)) [
      | inl gone ↦ rw (e, apply_edits_to_file) (rw gone s)
      | inr (before, there) ↦ elim (Result-cases (apply_text_edits before es)) [
        | inl (after, done) ↦
            rw (e, apply_edits_to_file)
              (rw there (rw done (write_through-InSync o.0 path u after o.1 w n s)))
        | inr (x, failed) ↦ rw (e, apply_edits_to_file) (rw there (rw failed s))
      ]
    ]
  ]

  apply_each-InSync :
      (path_of : Text → Option Text) (o : Outcomes) (cs : List (Text × List TextEdit))
      (summary : RenameSummary) (w : Workspace)
      → ((n : ℕ) → Notifies (o n).0)
      → InSync start w
      → InSync start (apply_each path_of o cs summary w).1
  unfolding apply_each
  apply_each-InSync path_of o [] summary w n s = s
  apply_each-InSync path_of o (c ∷ cs) summary w n s =
      let k = length summary.files in
      let step = apply_edits_to_file-InSync path_of (o k) c.0 c.1 summary w (n k) s in
      elim (Result-cases (apply_edits_to_file path_of (o k) c.0 c.1 summary w).0) [
        | inl (summary', e) ↦ rw (e, apply_each) (apply_each-InSync path_of o cs summary' _ n step)
        | inr (x, e) ↦ rw (e, apply_each) step
      ]

-- If the server has the open documents, no document is recorded twice, and every notification that comes
-- up is sent, then whatever the edit and however the writes of its files go, also where the operation
-- fails on the way: the notifications are legal, and the server has the open documents afterwards.
pub apply_workspace_edit-InSync :
    (start : Map Text Text) (path_of : Text → Option Text) (o : Outcomes) (e : WorkspaceEdit)
    (w : Workspace)
    → ((n : ℕ) → Notifies (o n).0)
    → InSync start w
    → InSync start (apply_workspace_edit path_of o e w).1
unfolding apply_workspace_edit
apply_workspace_edit-InSync start path_of o e w n s =
    let none_yet : RenameSummary = record { files = []; total_edits = 0 } in
    let first = apply_each-InSync start path_of o (of_changes e.changes) none_yet w n s in
    elim (Result-cases (apply_each path_of o (of_changes e.changes) none_yet w).0) [
      | inl (summary, k) ↦
          rw (k, apply_workspace_edit)
            (apply_each-InSync start path_of o (of_document_changes e.document_changes) summary _ n
              first)
      | inr (x, k) ↦ rw (k, apply_workspace_edit) first
    ]
