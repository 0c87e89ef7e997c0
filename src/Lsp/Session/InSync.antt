-- ===== src/Lsp/Session/InSync.antt =====
-- The server's copies of the open documents through a whole session.
use aide_mcp.Base.{text_equal, nat_equal, [], ◌∷◌, none, some, ℕ, List, Option, Text}
use aide_mcp.Base.Map.{Map}
use aide_mcp.Base.Result.{Result}
use aide_mcp.Lsp.CodeActions.{Server, list_code_actions}
use aide_mcp.Lsp.CodeActions.InSync.{apply_code_action-InSync}
use aide_mcp.Lsp.SafeEdit.{
  delete_symbol_range, ensure, insert_after_symbol, insert_before_symbol, replace_symbol_body,
}
use aide_mcp.Lsp.SafeEdit.Keeps.{bind-InSync, edit_symbol-keeps, ensure-keeps, safe_edit-keeps}
use aide_mcp.Lsp.Session.{
  Operation, after_all, after_operation, apply_answer, rename, query, edit_text, replace_body,
  insert_before, insert_after, delete_range, rename_symbol, list_actions, apply_action, outside,
}
use aide_mcp.Lsp.Workspace.{EditError, Outcomes, WorkspaceEdit, Workspace, apply_workspace_edit}
use aide_mcp.Lsp.Workspace.InSync.{InSync, Notifies, apply_workspace_edit-InSync}

-- Every notification that comes up in the call is sent.
unfoldable pub IsNotified : Operation → Type 0
IsNotified (query path now) = Unit
IsNotified (edit_text e path old_string new_string related) = Notifies e.write
IsNotified (replace_body e path at new_body related) = Notifies e.write
IsNotified (insert_before e path at content related) = Notifies e.write
IsNotified (insert_after e path at content related) = Notifies e.write
IsNotified (delete_range e path at related) = Notifies e.write
IsNotified (rename_symbol answer o path now) = (n : ℕ) → Notifies (o n).0
IsNotified (list_actions server path now) = Unit
IsNotified (apply_action server o path now selector) = (n : ℕ) → Notifies (o n).0
IsNotified (outside files) = Unit

unfoldable pub AllNotified : List Operation → Type 0
unfolding IsNotified
AllNotified [] = Unit
AllNotified (op ∷ ops) = IsNotified op × AllNotified ops

module _ (start : Map Text Text) (uri_of extension_of path_of : Text → Option Text) where
  rename-keeps :
      (answer : Result EditError (Option WorkspaceEdit)) (o : Outcomes) (path : Text) (now : ℕ)
      (w : Workspace)
      → ((n : ℕ) → Notifies (o n).0)
      → InSync start w
      → InSync start (rename uri_of extension_of path_of answer o path now w).1
  unfolding rename
  rename-keeps answer o path now w notified s =
      bind-InSync start uri_of extension_of (ensure uri_of extension_of path now w) _
        (ensure-keeps start uri_of extension_of path now w s)
        (λ done w₁ s₁.
          bind-InSync start uri_of extension_of (answer, w₁) _ s₁
            (λ edit w₂ s₂. applied edit w₂ s₂))
    where
      applied :
          (edit : Option WorkspaceEdit) (w : Workspace)
          → InSync start w
          → InSync start (apply_answer uri_of extension_of path_of o edit w).1
      applied none w s = s
      applied (some e) w s =
          bind-InSync start uri_of extension_of (apply_workspace_edit path_of o e w) _
            (apply_workspace_edit-InSync start path_of o e w notified s) (λ summary w₁ s₁. s₁)

  list_code_actions-keeps :
      (server : Server) (path : Text) (now : ℕ) (w : Workspace)
      → InSync start w
      → InSync start (list_code_actions uri_of extension_of path_of server path now w).1
  unfolding list_code_actions
  list_code_actions-keeps server path now w s =
      bind-InSync start uri_of extension_of (ensure uri_of extension_of path now w) _
        (ensure-keeps start uri_of extension_of path now w s)
        (λ done w₁ s₁.
          bind-InSync start uri_of extension_of (server.offered, w₁) _ s₁ (λ actions w₂ s₂. s₂))

  operation-InSync :
      (op : Operation) (w : Workspace)
      → IsNotified op
      → InSync start w
      → InSync start (after_operation uri_of extension_of path_of op w)
  unfolding after_operation IsNotified replace_symbol_body insert_before_symbol insert_after_symbol
      delete_symbol_range
  operation-InSync (query path now) w n s = ensure-keeps start uri_of extension_of path now w s
  operation-InSync (edit_text e path old_string new_string related) w n s =
      safe_edit-keeps start uri_of extension_of e path old_string new_string related w n s
  operation-InSync (replace_body e path at new_body related) w n s =
      edit_symbol-keeps start uri_of extension_of _ e path at related w n s
  operation-InSync (insert_before e path at content related) w n s =
      edit_symbol-keeps start uri_of extension_of _ e path at related w n s
  operation-InSync (insert_after e path at content related) w n s =
      edit_symbol-keeps start uri_of extension_of _ e path at related w n s
  operation-InSync (delete_range e path at related) w n s =
      edit_symbol-keeps start uri_of extension_of _ e path at related w n s
  operation-InSync (rename_symbol answer o path now) w n s = rename-keeps answer o path now w n s
  operation-InSync (list_actions server path now) w n s =
      list_code_actions-keeps server path now w s
  operation-InSync (apply_action server o path now selector) w n s =
      apply_code_action-InSync start uri_of extension_of path_of server o path now selector w n s
  operation-InSync (outside files) w n s = record {
    server = s.server;
    legal = s.legal;
    mirrors = s.mirrors;
    distinct = s.distinct;
  }

-- Whatever operations are called in whatever order, whether or not they succeed, and however the files
-- change between them: if the server has the open documents, none is recorded twice, and every
-- notification that comes up is sent, then all notifications are legal, and the server has the open
-- documents afterwards.
pub session-InSync :
    (start : Map Text Text) (uri_of extension_of path_of : Text → Option Text)
    (ops : List Operation) (w : Workspace)
    → AllNotified ops
    → InSync start w
    → InSync start (after_all uri_of extension_of path_of ops w)
unfolding after_all AllNotified
session-InSync start uri_of extension_of path_of [] w n s = s
session-InSync start uri_of extension_of path_of (op ∷ ops) w n s =
    session-InSync start uri_of extension_of path_of ops
      (after_operation uri_of extension_of path_of op w) n.1
      (operation-InSync start uri_of extension_of path_of op w n.0 s)
