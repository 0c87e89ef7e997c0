-- ===== src/Server/Tests.antt =====
-- The theorems on the server at concrete inputs.
use aide_mcp.Base.{
  text_equal, nat_equal, [], ◌≡◌, refl, Text, codes, ◌≤◌, length, ◌∷◌, none, some, true, false, ℕ,
  ◌⊎◌,
}
use aide_mcp.Base.Map.{Distinct}
use aide_mcp.Base.Result.{ok, err}
use aide_mcp.Server.ScipCache.{
  World, Run, empty, scip_cache_cap, here, next, asks, looks, loads, finishes, ask, look, load,
  finish, tick, look_up,
}
use aide_mcp.Server.ScipCache.Bounded.{Run-bounded}
use aide_mcp.Scip.{Occurrence, Index}
use aide_mcp.Indexer.Store.{Store, last_ready}
use aide_mcp.Lsp.SafeEdit.{Surroundings, nested}
use aide_mcp.Lsp.Workspace.{Workspace, written}
use aide_mcp.Server.SafeDelete.{SafeDeleteSymbolArgs, safe_delete_symbol}
use aide_mcp.Server.ScipQueries.{scip_references_at, resolve_scip_path}
use aide_mcp.Base.Int.{pos}
use aide_mcp.Indexer.State.{ready, repo_key}
use aide_mcp.Server.SafeDelete.Checked.{IsChecked, safe_delete_symbol-IsChecked}
use aide_mcp.Lsp.Symbols.{nil}

abbrev scip_path : Text
scip_path = codes "/scip/a.scip"

-- The index file is there.
abbrev indexed : World
indexed = aide_mcp.Server.ScipCache.write scip_path (ok []) empty

-- Call 0 reads the file.
abbrev asking : World
asking = ask 0 scip_path indexed

abbrev looking : World
looking = look 0 scip_path 0 1 asking

abbrev reading : World
reading = load 0 scip_path 0 looking

abbrev cached : World
cached = finish 0 scip_path 0 [] 2 reading

cached-Run : Run empty cached
unfolding ask look load look_up
cached-Run =
    next
      (next
        (next
          (next (next here (aide_mcp.Server.ScipCache.writes scip_path (ok []) empty))
            (asks 0 scip_path indexed refl))
          (looks 0 scip_path 0 1 asking refl))
        (loads 0 scip_path 0 looking refl))
      (finishes 0 scip_path 0 [] 2 reading refl)

-- Call 1 asks for the time of the file, which is written again before the call looks into the cache: the
-- call returns what the file held when it began.
abbrev rewritten : World
rewritten =
    aide_mcp.Server.ScipCache.write scip_path (err (codes "torn")) (tick (ask 1 scip_path cached))

Run-bounded_example : Distinct cached.cache × (length cached.cache ≤ scip_cache_cap)
Run-bounded_example = Run-bounded cached-Run

abbrev at_line : Text → ℕ → ℕ → Occurrence
at_line name roles line = record {
  symbol = name;
  symbol_roles = roles;
  range = pos line ∷ pos 3 ∷ pos 4 ∷ [];
}

-- `f` from line 0 on, with a local `x` on line 1, and a use of `f` on line 9.
abbrev with_use : Index
with_use =
    record {
      relative_path = codes "main.rs";
      occurrences =
          at_line (codes "f") 1 0 ∷ at_line (codes "local x") 1 1 ∷ at_line (codes "f") 0 9 ∷ [];
      symbols = [];
    }
    ∷ []

abbrev root : Text
root = codes "/r/"

abbrev indexer_store : Store
indexer_store = record {
  repos =
      (
        root,
        record {
          last_sha = some (codes "a1");
          commits =
              (
                codes "a1",
                record {
                  state = ready;
                  enqueued_at_unix = 1;
                  indexed_at_unix = some 2;
                  index_path = some scip_path;
                },
              )
              ∷ [];
        },
      )
      ∷ [];
  pending_unlink = [];
  disk = record { file = none; tmp = none };
  retention_ready = 1;
}

abbrev surroundings : Surroundings
surroundings = record {
  published = [];
  settled = [];
  write = written true;
  symbols = ok (nested nil);
  now = 1;
  later = 2;
  settle = 1500;
}

abbrev workspace : Workspace
workspace = record { files = (codes "/r/main.rs", codes "fn f() {}") ∷ []; docs = []; sent = [] }

abbrev at_row : ℕ → SafeDeleteSymbolArgs
at_row line = record {
  file = codes "/r/main.rs";
  line = line;
  column = 3;
  related_files = [];
  force = false;
}

safe_delete_symbol-IsChecked_example :
    ((safe_delete_symbol
        (λ r p. some (codes "main.rs"))
        (λ p. ok with_use)
        (λ p. some p)
        (λ p. some (codes "rs"))
        true
        true
        surroundings
        root
        indexer_store
        (at_row 2)
        workspace).1
      ≡ workspace)
    ⊎ IsChecked (λ r p. some (codes "main.rs")) (λ p. ok with_use) root indexer_store (at_row 2)
safe_delete_symbol-IsChecked_example =
    safe_delete_symbol-IsChecked (λ r p. some (codes "main.rs")) (λ p. ok with_use) (λ p. some p)
      (λ p. some (codes "rs")) true true surroundings root indexer_store (at_row 2) workspace refl

-- On the line of `f` its use is found.
used :
    scip_references_at
      (λ r p. some (codes "main.rs"))
      (λ p. ok with_use)
      root
      (codes "/r/main.rs")
      0
      indexer_store
    ≡ ok (
        some (
          record {
            relative_path = codes "main.rs";
            range = pos 9 ∷ pos 3 ∷ pos 4 ∷ [];
            is_definition = false;
          }
          ∷ []))
unfolding scip_references_at resolve_scip_path last_ready repo_key
used = refl

-- In the body of `f`, the local `x` is asked about instead.
unused :
    scip_references_at
      (λ r p. some (codes "main.rs"))
      (λ p. ok with_use)
      root
      (codes "/r/main.rs")
      2
      indexer_store
    ≡ ok (some [])
unfolding scip_references_at resolve_scip_path last_ready repo_key
unused = refl
