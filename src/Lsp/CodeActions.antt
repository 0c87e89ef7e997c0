-- ===== src/Lsp/CodeActions.antt =====
-- The code actions of crates/aide-lsp/src/ops.rs: listing what a server offers, and applying one.
pub mod InSync
use aide_mcp.Base.{
  text_equal, nat_equal, [], ◌∷◌, none, some, true, false, ℕ, if◌then◌else◌, List, Option, Bool,
  Text, text_same, map,
}
use aide_mcp.Base.Result.{Result, ok, err}
use aide_mcp.Base.Strings.{contains, to_ascii_lowercase}
use aide_mcp.Lsp.SafeEdit.{ensure, ◌>=>◌}
use aide_mcp.Lsp.Workspace.{
  Workspace, EditError, RenameSummary, WorkspaceEdit, Outcomes, apply_workspace_edit,
}

pub record Command : Type 0 where
  pub title : Text
  pub command : Text

-- `lsp_types::CodeAction`, as far as it is read; `disabled` holds the reason.
pub record CodeAction : Type 0 where
  pub title : Text
  pub kind : Option Text
  pub disabled : Option Text
  pub is_preferred : Option Bool
  pub edit : Option WorkspaceEdit
  pub command : Option Command

pub data CodeActionOrCommand : Type 0 where
  command : Command → CodeActionOrCommand
  code_action : CodeAction → CodeActionOrCommand

pub record CodeActionInfo : Type 0 where
  pub title : Text
  pub kind : Option Text
  pub disabled : Bool
  pub disabled_reason : Option Text
  pub is_preferred : Bool

pub record CodeActionApplied : Type 0 where
  pub title : Text
  pub kind : Option Text
  pub applied_edit : Option RenameSummary
  pub ran_command : Option Text

pub data CodeActionSelector : Type 0 where
  title : Text → CodeActionSelector
  kind : Text → CodeActionSelector

abbrev pub is_given : Option Text → Bool
is_given none = false
is_given (some s) = true

abbrev pub or_false : Option Bool → Bool
or_false none = false
or_false (some b) = b

unfoldable pub info_from_action : CodeActionOrCommand → CodeActionInfo
info_from_action (command cmd) = record {
  title = cmd.title;
  kind = none;
  disabled = false;
  disabled_reason = none;
  is_preferred = false;
}
info_from_action (code_action a) = record {
  title = a.title;
  kind = a.kind;
  disabled = is_given a.disabled;
  disabled_reason = a.disabled;
  is_preferred = or_false a.is_preferred;
}

abbrev pub title_of : CodeActionOrCommand → Text
title_of (command cmd) = cmd.title
title_of (code_action a) = a.title

abbrev pub kind_of : CodeActionOrCommand → Option Text
kind_of (command cmd) = none
kind_of (code_action a) = a.kind

abbrev pub is_kind : Text → Option Text → Bool
is_kind k none = false
is_kind k (some l) = text_same l k

unfoldable pub matches : CodeActionSelector → CodeActionOrCommand → Bool
matches (title needle) action =
    contains (to_ascii_lowercase needle) (to_ascii_lowercase (title_of action))
matches (kind k) action = is_kind k (kind_of action)

unfoldable pub pick : CodeActionSelector → List CodeActionOrCommand → Option CodeActionOrCommand
unfolding matches
pick selector [] = none
pick selector (a ∷ actions) =
    let later = pick selector actions in if matches selector a then some a else later

-- What the server answers: the actions that it offers, the action that it makes of a lazy one, and
-- whether a command runs.
pub record Server : Type 0 where
  pub offered : Result EditError (List CodeActionOrCommand)
  pub resolve : CodeAction → Result EditError CodeAction
  pub execute : Command → Result EditError (Unit {0})

abbrev pub run_command : Server → Command → Result EditError Text
run_command server cmd = elim (server.execute cmd) [ ok done ↦ ok cmd.command | err e ↦ err e ]

-- A lazy action has neither an edit nor a command.
abbrev pub resolved_of : Server → CodeAction → Result EditError CodeAction
resolved_of server a = elim a.edit [
  | some e ↦ ok a
  | none ↦ elim a.command [ some c ↦ ok a | none ↦ server.resolve a ]
]

abbrev pub optional_command : Server → Option Command → Result EditError (Option Text)
optional_command server none = ok none
optional_command server (some cmd) = elim (run_command server cmd) [
  | ok ran ↦ ok (some ran)
  | err e ↦ err e
]

module _ (uri_of extension_of path_of : Text → Option Text) where
  abbrev pub optional_edit :
      Outcomes
      → Option WorkspaceEdit
      → Workspace
      → Result EditError (Option RenameSummary) × Workspace
  optional_edit o none w = (ok none, w)
  optional_edit o (some e) w =
      apply_workspace_edit path_of o e w >=> λ summary w₁. (ok (some summary), w₁)

  unfoldable pub list_code_actions :
      Server → Text → ℕ → Workspace → Result EditError (List CodeActionInfo) × Workspace
  unfolding ensure info_from_action
  list_code_actions server path now w = ensure uri_of extension_of path now w >=> λ done w₁.
      (server.offered, w₁) >=> λ actions w₂. (ok (map info_from_action actions), w₂)

  -- The edit of a resolved action, and after it its command.
  unfoldable pub perform :
      Server
      → Outcomes
      → Text
      → Option Text
      → CodeAction
      → Workspace
      → Result EditError (Option CodeActionApplied) × Workspace
  unfolding apply_workspace_edit
  perform server o name action_kind a w = optional_edit o a.edit w >=> λ applied w₁.
      (optional_command server a.command, w₁) >=> λ ran w₂. (
        ok (
            some (record {
              title = name;
              kind = action_kind;
              applied_edit = applied;
              ran_command = ran;
            })),
        w₂,
      )

  abbrev pub apply_picked :
      Server
      → Outcomes
      → Option CodeActionOrCommand
      → Workspace
      → Result EditError (Option CodeActionApplied) × Workspace
  apply_picked server o none w = (ok none, w)
  apply_picked server o (some (command cmd)) w = (run_command server cmd, w) >=> λ ran w₁. (
    ok (
        some
          (record { title = cmd.title; kind = none; applied_edit = none; ran_command = some ran })),
    w₁,
  )
  apply_picked server o (some (code_action a)) w = elim a.disabled [
    | some reason ↦ (err EditError.disabled, w)
    | none ↦
        (resolved_of server a, w) >=> λ resolved w₁. perform server o a.title a.kind resolved w₁
  ]

  unfoldable pub apply_code_action :
      Server
      → Outcomes
      → Text
      → ℕ
      → CodeActionSelector
      → Workspace
      → Result EditError (Option CodeActionApplied) × Workspace
  unfolding ensure pick perform
  apply_code_action server o path now selector w =
      ensure uri_of extension_of path now w >=> λ done w₁.
      (server.offered, w₁) >=> λ actions w₂. apply_picked server o (pick selector actions) w₂
