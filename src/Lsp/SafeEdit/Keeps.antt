-- ===== src/Lsp/SafeEdit/Keeps.antt =====
-- Every operation of SafeEdit keeps the server's copies right, failures included.
use aide_mcp.Base.{
  text_equal, nat_equal, ℕ, Option, Text, inl, inr, Option-cases, List, ◌==◌, Bool-cases, ◌∷◌,
}
use aide_mcp.Base.Map.{Map, get}
use aide_mcp.Base.Result.{Result, ok, err}
use aide_mcp.Lsp.Workspace.{Workspace, EditError, write_through}
use aide_mcp.Lsp.Workspace.InSync.{InSync, Notifies, write_through-InSync}
use aide_mcp.Lsp.SafeEdit.{
  ◌>=>◌, ensure, Surroundings, apply_and_snapshot, safe_edit, read_file,
  snapshot_published_diagnostics, or_uri_error, locate_symbol, edit_symbol, symbol_in,
  require_symbol_at, SymbolsResponse, nested, flat, absent,
}
use aide_mcp.Lsp.SafeEdit.Effect.{ensure-InSync}
use aide_mcp.Lsp.SafeEdit.Matches.{count_matches, replace_first}
use aide_mcp.Lsp.Position.{Position}
use aide_mcp.Lsp.Position.Splice.{Range}

module _ (start : Map Text Text) (uri_of extension_of : Text → Option Text) where
  -- A step that changes nothing but its result.
  pub bind-InSync :
      {A B : Type 0} (r : Result EditError A × Workspace)
      (f : A → Workspace → Result EditError B × Workspace)
      → InSync start r.1
      → ((a : A) (w : Workspace) → InSync start w → InSync start (f a w).1)
      → InSync start (r >=> f).1
  bind-InSync (ok a, w) f s k = k a w s
  bind-InSync (err e, w) f s k = s

  pub ensure-keeps :
      (path : Text) (now : ℕ) (w : Workspace)
      → InSync start w
      → InSync start (ensure uri_of extension_of path now w).1
  unfolding ensure
  ensure-keeps path now w s = elim (Option-cases (get path w.files)) [
    | inl gone ↦ rw (gone, ensure) s
    | inr (text, there) ↦ elim (Option-cases (uri_of path)) [
      | inl nameless ↦ rw (there, ensure) (rw nameless s)
      | inr (u, named) ↦
          let (w', e, s', files, current) =
            ensure-InSync uri_of extension_of start path u text now w there named s in
          rw e s'
    ]
  ]

  pub apply_and_snapshot-keeps :
      (e : Surroundings) (path after : Text) (related : List Text) (w : Workspace)
      → Notifies e.write
      → InSync start w
      → InSync start (apply_and_snapshot uri_of extension_of e path after related w).1
  unfolding apply_and_snapshot
  apply_and_snapshot-keeps e path after related w n s =
      bind-InSync (ensure uri_of extension_of path e.now w) _ (ensure-keeps path e.now w s)
        (λ done w₁ s₁.
          bind-InSync
            (snapshot_published_diagnostics uri_of extension_of e.published (path ∷ related), w₁) _
            s₁
            (λ before w₂ s₂.
              bind-InSync (or_uri_error (uri_of path), w₂) _ s₂
                (λ u w₃ s₃.
                  bind-InSync (write_through e.write path u after e.later w₃) _
                    (write_through-InSync start e.write path u after e.later w₃ n s₃)
                    (λ done' w₄ s₄.
                      bind-InSync
                        (
                          snapshot_published_diagnostics uri_of extension_of e.settled
                              (path ∷ related),
                          w₄,
                        )
                        _ s₄ (λ now_there w₅ s₅. s₅)))))

  read_file-keeps :
      (path : Text) (w : Workspace) → InSync start w → InSync start (read_file path w).1
  read_file-keeps path w s = elim (Option-cases (get path w.files)) [
    | inl gone ↦ rw (gone, read_file) s
    | inr (text, there) ↦ rw (there, read_file) s
  ]

  pub safe_edit-keeps :
      (e : Surroundings) (path old_string new_string : Text) (related : List Text) (w : Workspace)
      → Notifies e.write
      → InSync start w
      → InSync start (safe_edit uri_of extension_of e path old_string new_string related w).1
  unfolding safe_edit
  safe_edit-keeps e path old_string new_string related w n s =
      bind-InSync (ensure uri_of extension_of path e.now w) _ (ensure-keeps path e.now w s)
        (λ done w₁ s₁.
          bind-InSync (read_file path w₁) _ (read_file-keeps path w₁ s₁) (λ before w₂ s₂.
            elim (Bool-cases (count_matches old_string before == 1)) [
              | inl once ↦ rw once (
                  apply_and_snapshot-keeps e path (replace_first old_string new_string before)
                    related w₂ n s₂)
              | inr other ↦ rw other s₂
            ]))

  located-keeps :
      (e : Surroundings) (path : Text) (at : Position) (w : Workspace)
      → InSync start w
      → InSync start (locate_symbol uri_of extension_of e path at w).1
  unfolding locate_symbol symbol_in
  located-keeps e path at w s =
      bind-InSync (ensure uri_of extension_of path e.now w) _ (ensure-keeps path e.now w s)
        (λ done w₁ s₁.
          bind-InSync (or_uri_error (uri_of path), w₁) _ s₁
            (λ u w₂ s₂.
              bind-InSync (e.symbols, w₂) _ s₂ (λ response w₃ s₃. answered response w₃ s₃)))
    where
      answered :
          (response : SymbolsResponse) (w : Workspace)
          → InSync start w
          → InSync start (symbol_in response at w).1
      answered (nested syms) w s = s
      answered flat w s = s
      answered absent w s = s

  pub edit_symbol-keeps :
      (change : Text → Range → Result EditError Text) (e : Surroundings) (path : Text)
      (at : Position) (related : List Text) (w : Workspace)
      → Notifies e.write
      → InSync start w
      → InSync start (edit_symbol uri_of extension_of change e path at related w).1
  unfolding edit_symbol require_symbol_at
  edit_symbol-keeps change e path at related w n s =
      bind-InSync (require_symbol_at uri_of extension_of e path at w) _
        (bind-InSync (locate_symbol uri_of extension_of e path at w) _ (located-keeps e path at w s)
          (λ found w₁ s₁. s₁))
        (λ symbol w₁ s₁.
          bind-InSync (read_file path w₁) _ (read_file-keeps path w₁ s₁) (λ before w₂ s₂.
            bind-InSync (change before symbol.0, w₂) _ s₂
              (λ after w₃ s₃. apply_and_snapshot-keeps e path after related w₃ n s₃)))
