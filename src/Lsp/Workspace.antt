-- ===== src/Lsp/Workspace.antt =====
-- `apply_workspace_edit` and `apply_edits_to_file` of crates/aide-lsp/src/ops.rs, and the write that all
-- edits share. The file system is a map from paths to texts. URIs become paths by a library.
pub mod InSync
use aide_mcp.Base.{
  text_equal, nat_equal, [], ◌∷◌, none, some, ℕ, if◌then◌else◌, List, Option, Bool, Text, ◌+◌, ◌++◌,
  length,
}
use aide_mcp.Base.Map.{Map, get, insert}
use aide_mcp.Base.Result.{Result, ok, err}
use aide_mcp.Lsp.Documents.{Documents, Notification, changed, did_change}
use aide_mcp.Lsp.Edits.{TextEdit, apply_text_edits}

-- What the operations change: the files, the open documents, and what the server is sent.
pub record Workspace : Type 0 where
  pub files : Map Text Text
  pub docs : Documents
  pub sent : List Notification

-- How writing the file goes, and what a failure leaves in it; then whether the notification is sent.
pub data Write : Type 0 where
  written : (notified : Bool) → Write
  torn : (left : Text) → Write

pub data EditError : Type 0 where
  io uri framing invalid_position panic no_symbol not_unique disabled : EditError

-- The new text, told to the server if the document is open.
unfoldable pub push_change :
    Text → Text → ℕ → Bool → Workspace → Result EditError (Unit {0}) × Workspace
push_change u after now notified w = elim (get u w.docs) [
  | none ↦ (ok tt, w)
  | some doc ↦ (
    if notified then ok tt else err framing,
    record w {
      docs = insert u (changed after now doc) w.docs;
      sent =
          if notified
          then w.sent ++ did_change u (changed after now doc).version after ∷ []
          else w.sent;
    },
  )
]

-- The stretch of `apply_and_snapshot` and of `apply_edits_to_file` under the lock of the documents.
unfoldable pub write_through :
    Write → Text → Text → Text → ℕ → Workspace → Result EditError (Unit {0}) × Workspace
unfolding push_change
write_through (torn left) path u after now w =
    (err io, record w { files = insert path left w.files })
write_through (written notified) path u after now w =
    push_change u after now notified (record w { files = insert path after w.files })

pub record FileChange : Type 0 where
  pub path : Text
  pub edit_count : ℕ

pub record RenameSummary : Type 0 where
  pub files : List FileChange
  pub total_edits : ℕ

abbrev pub listed : FileChange → ℕ → RenameSummary → RenameSummary
listed f n s = record { files = s.files ++ f ∷ []; total_edits = s.total_edits + n }

-- `lsp_types::OneOf<TextEdit, AnnotatedTextEdit>`
pub data AnyEdit : Type 0 where
  plain : TextEdit → AnyEdit
  annotated : (text_edit : TextEdit) (annotation_id : Text) → AnyEdit

pub record TextDocumentEdit : Type 0 where
  pub uri : Text
  pub edits : List AnyEdit

pub data Operation : Type 0 where
  edit : TextDocumentEdit → Operation
  -- a file that is created, renamed or deleted
  op : Operation

pub data DocumentChanges : Type 0 where
  edits : List TextDocumentEdit → DocumentChanges
  operations : List Operation → DocumentChanges

pub record WorkspaceEdit : Type 0 where
  pub changes : Option (List (Text × List TextEdit))
  pub document_changes : Option DocumentChanges

abbrev pub text_edits : List AnyEdit → List TextEdit
text_edits [] = []
text_edits (plain e ∷ es) = e ∷ text_edits es
text_edits (annotated e a ∷ es) = e ∷ text_edits es

abbrev pub of_documents : List TextDocumentEdit → List (Text × List TextEdit)
of_documents [] = []
of_documents (t ∷ ts) = (t.uri, text_edits t.edits) ∷ of_documents ts

abbrev pub of_operations : List Operation → List (Text × List TextEdit)
of_operations [] = []
of_operations (edit t ∷ ts) = (t.uri, text_edits t.edits) ∷ of_operations ts
of_operations (op ∷ ts) = of_operations ts

abbrev pub of_changes : Option (List (Text × List TextEdit)) → List (Text × List TextEdit)
of_changes none = []
of_changes (some cs) = cs

abbrev pub of_document_changes : Option DocumentChanges → List (Text × List TextEdit)
of_document_changes none = []
of_document_changes (some (edits ts)) = of_documents ts
of_document_changes (some (operations ts)) = of_operations ts

-- How the write of each file goes, and when its document is touched, by the number of files before it.
abbrev pub Outcomes : Type 0
Outcomes = ℕ → Write × ℕ

module _ (path_of : Text → Option Text) where
  unfoldable pub apply_edits_to_file :
      Write × ℕ
      → Text
      → List TextEdit
      → RenameSummary
      → Workspace
      → Result EditError RenameSummary × Workspace
  unfolding apply_text_edits write_through
  apply_edits_to_file o u es summary w = elim (path_of u) [
    | none ↦ (err uri, w)
    | some path ↦ elim (get path w.files) [
      | none ↦ (err io, w)
      | some before ↦ elim (apply_text_edits before es) [
        | err e ↦ (err panic, w)
        | ok after ↦
            let (r, w') = write_through o.0 path u after o.1 w in
            (
              elim r [
                | err e ↦ err e
                | ok done ↦
                    ok (listed (record { path = path; edit_count = length es }) (length es) summary)
              ],
              w',
            )
      ]
    ]
  ]

  -- The loops over the files, each with its `?`.
  unfoldable pub apply_each :
      Outcomes
      → List (Text × List TextEdit)
      → RenameSummary
      → Workspace
      → Result EditError RenameSummary × Workspace
  unfolding apply_edits_to_file
  apply_each o [] summary w = (ok summary, w)
  apply_each o (c ∷ cs) summary w =
      let (r, w') = apply_edits_to_file (o (length summary.files)) c.0 c.1 summary w in
      elim r [ err e ↦ (err e, w') | ok summary' ↦ apply_each o cs summary' w' ]

  unfoldable pub apply_workspace_edit :
      Outcomes → WorkspaceEdit → Workspace → Result EditError RenameSummary × Workspace
  unfolding apply_each
  apply_workspace_edit o e w =
      let first = apply_each o (of_changes e.changes) (record { files = []; total_edits = 0 }) w in
      elim first.0 [
        | err x ↦ (err x, first.1)
        | ok summary ↦ apply_each o (of_document_changes e.document_changes) summary first.1
      ]
