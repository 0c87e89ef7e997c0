-- ===== src/Lsp/CodeActions/InSync.antt =====
-- The server's copies of the open documents through a code action.
use aide_mcp.Base.{text_equal, nat_equal, ℕ, Option, Text, none, some, inl, inr, Option-cases}
use aide_mcp.Base.Map.{Map}
use aide_mcp.Lsp.Workspace.{Workspace, Outcomes, WorkspaceEdit, apply_workspace_edit}
use aide_mcp.Lsp.Workspace.InSync.{InSync, Notifies, apply_workspace_edit-InSync}
use aide_mcp.Lsp.SafeEdit.{ensure}
use aide_mcp.Lsp.SafeEdit.Keeps.{bind-InSync, ensure-keeps}
use aide_mcp.Lsp.CodeActions.{
  command, code_action, perform, Server, apply_code_action, CodeAction, CodeActionOrCommand,
  CodeActionSelector, apply_picked, pick, optional_edit, run_command, optional_command, resolved_of,
}

module _ (start : Map Text Text) (uri_of extension_of path_of : Text → Option Text) (o : Outcomes)
    (notified : (n : ℕ) → Notifies (o n).0) where
  perform-InSync :
      (server : Server) (name : Text) (action_kind : Option Text) (a : CodeAction) (w : Workspace)
      → InSync start w
      → InSync start (perform uri_of extension_of path_of server o name action_kind a w).1
  unfolding perform
  perform-InSync server name action_kind a w s =
      bind-InSync start uri_of extension_of (optional_edit uri_of extension_of path_of o a.edit w) _
        (edited a.edit)
        (λ applied w₁ s₁.
          bind-InSync start uri_of extension_of (optional_command server a.command, w₁) _ s₁
            (λ ran w₂ s₂. s₂))
    where
      edited :
          (e : Option WorkspaceEdit)
          → InSync start (optional_edit uri_of extension_of path_of o e w).1
      edited none = s
      edited (some e) =
          bind-InSync start uri_of extension_of (apply_workspace_edit path_of o e w) _
            (apply_workspace_edit-InSync start path_of o e w notified s) (λ summary w₁ s₁. s₁)

  picked-InSync :
      (server : Server) (picked : Option CodeActionOrCommand) (w : Workspace)
      → InSync start w
      → InSync start (apply_picked uri_of extension_of path_of server o picked w).1
  picked-InSync server none w s = s
  picked-InSync server (some (command cmd)) w s =
      bind-InSync start uri_of extension_of (run_command server cmd, w) _ s (λ ran w₁ s₁. s₁)
  picked-InSync server (some (code_action a)) w s = elim (Option-cases a.disabled) [
    | inr (reason, e) ↦ rw (e, apply_picked) s
    | inl e ↦
        rw (e, apply_picked)
          (bind-InSync start uri_of extension_of (resolved_of server a, w) _ s
            (λ resolved w₁ s₁. perform-InSync server a.title a.kind resolved w₁ s₁))
  ]

-- Whatever the server offers, whichever action is picked, and whether or not the operation succeeds: if the
-- server has the open documents and every notification that comes up is sent, the notifications of apply_code_action are
-- legal, and the server has the open documents afterwards.
pub apply_code_action-InSync :
    (start : Map Text Text) (uri_of extension_of path_of : Text → Option Text) (server : Server)
    (o : Outcomes) (path : Text) (now : ℕ) (selector : CodeActionSelector) (w : Workspace)
    → ((n : ℕ) → Notifies (o n).0)
    → InSync start w
    → InSync start (apply_code_action uri_of extension_of path_of server o path now selector w).1
unfolding apply_code_action
apply_code_action-InSync start uri_of extension_of path_of server o path now selector w notified s =
    bind-InSync start uri_of extension_of (ensure uri_of extension_of path now w) _
      (ensure-keeps start uri_of extension_of path now w s)
      (λ done w₁ s₁.
        bind-InSync start uri_of extension_of (server.offered, w₁) _ s₁
          (λ actions w₂ s₂.
            picked-InSync start uri_of extension_of path_of o notified server
              (pick selector actions) w₂ s₂))
