-- ===== src/Lsp/Session.antt =====
-- The operations of crates/aide-lsp/src/ops.rs that open documents or write files, as one sequence on the
-- workspace of one language server. The files may change between the operations without the client.
pub mod InSync
use aide_mcp.Base.{text_equal, nat_equal, [], ◌∷◌, none, some, ℕ, List, Option, Text}
use aide_mcp.Base.Map.{Map}
use aide_mcp.Base.Result.{Result, ok}
use aide_mcp.Lsp.CodeActions.{CodeActionSelector, Server, apply_code_action, list_code_actions}
use aide_mcp.Lsp.Position.{Position}
use aide_mcp.Lsp.SafeEdit.{
  Surroundings, delete_symbol_range, ensure, insert_after_symbol, insert_before_symbol,
  replace_symbol_body, safe_edit, ◌>=>◌,
}
use aide_mcp.Lsp.Workspace.{
  EditError, Outcomes, RenameSummary, WorkspaceEdit, Workspace, apply_workspace_edit,
}

-- One call, with what it meets on its way: the answers of the server and how the writes go.
pub data Operation : Type 0 where
  -- A query such as `hover` or `references`, which makes the document current before it asks.
  query : (path : Text) (now : ℕ) → Operation
  edit_text :
      (e : Surroundings) (path old_string new_string : Text) (related : List Text) → Operation
  replace_body :
      (e : Surroundings) (path : Text) (at : Position) (new_body : Text) (related : List Text)
      → Operation
  insert_before :
      (e : Surroundings) (path : Text) (at : Position) (content : Text) (related : List Text)
      → Operation
  insert_after :
      (e : Surroundings) (path : Text) (at : Position) (content : Text) (related : List Text)
      → Operation
  delete_range : (e : Surroundings) (path : Text) (at : Position) (related : List Text) → Operation
  rename_symbol :
      (answer : Result EditError (Option WorkspaceEdit)) (o : Outcomes) (path : Text) (now : ℕ)
      → Operation
  list_actions : (server : Server) (path : Text) (now : ℕ) → Operation
  apply_action :
      (server : Server) (o : Outcomes) (path : Text) (now : ℕ) (selector : CodeActionSelector)
      → Operation
  -- Someone else writes, creates or removes files.
  outside : (files : Map Text Text) → Operation

module _ (uri_of extension_of path_of : Text → Option Text) where
  abbrev pub apply_answer :
      Outcomes
      → Option WorkspaceEdit
      → Workspace
      → Result EditError (Option RenameSummary) × Workspace
  apply_answer o none w = (ok none, w)
  apply_answer o (some e) w =
      apply_workspace_edit path_of o e w >=> λ summary w₁. (ok (some summary), w₁)

  unfoldable pub rename :
      Result EditError (Option WorkspaceEdit)
      → Outcomes
      → Text
      → ℕ
      → Workspace
      → Result EditError (Option RenameSummary) × Workspace
  unfolding ensure apply_workspace_edit
  rename answer o path now w = ensure uri_of extension_of path now w >=> λ done w₁.
      (answer, w₁) >=> λ edit w₂. apply_answer o edit w₂

  -- The workspace after one call, whether or not the call succeeds.
  unfoldable pub after_operation : Operation → Workspace → Workspace
  unfolding ensure safe_edit replace_symbol_body insert_before_symbol insert_after_symbol
      delete_symbol_range rename list_code_actions apply_code_action
  after_operation (query path now) w = (ensure uri_of extension_of path now w).1
  after_operation (edit_text e path old_string new_string related) w =
      (safe_edit uri_of extension_of e path old_string new_string related w).1
  after_operation (replace_body e path at new_body related) w =
      (replace_symbol_body uri_of extension_of e path at new_body related w).1
  after_operation (insert_before e path at content related) w =
      (insert_before_symbol uri_of extension_of e path at content related w).1
  after_operation (insert_after e path at content related) w =
      (insert_after_symbol uri_of extension_of e path at content related w).1
  after_operation (delete_range e path at related) w =
      (delete_symbol_range uri_of extension_of e path at related w).1
  after_operation (rename_symbol answer o path now) w = (rename answer o path now w).1
  after_operation (list_actions server path now) w =
      (list_code_actions uri_of extension_of path_of server path now w).1
  after_operation (apply_action server o path now selector) w =
      (apply_code_action uri_of extension_of path_of server o path now selector w).1
  after_operation (outside files) w = record w { files = files }

  unfoldable pub after_all : List Operation → Workspace → Workspace
  unfolding after_operation
  after_all [] w = w
  after_all (op ∷ ops) w = after_all ops (after_operation op w)
