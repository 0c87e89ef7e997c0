-- ===== src/Tests.antt =====
-- The theorems on framing, captured output, searches, queries and jobs at concrete inputs.
use mathlib.Core.Option
use aide_mcp.Base.{
  text_equal, [], ◌∷◌, none, some, true, false, ℕ, ◌≡◌, arith, refl, ◌++◌, List, Option, Text, ◌≤◌,
  codes, map, All, take, ltb, length, Bool, In,
}
use aide_mcp.Scip.{
  Document, defs_in_path, enclosing_definition_symbol_id, enclosing_defs_of_callers, project_map,
  Occurrence,
}
use aide_mcp.Proto.Framing.{read_message, write_message, print}
use aide_mcp.Exec.Capped.{Read, read_capped_tee, got, output, capped_prefix}
use aide_mcp.Search.Grep.{Call, GrepOptions, grep, matched, GrepHit, context, after}
use aide_mcp.Search.Grep.Caps.{all_matches, all_hits, grep_untruncated, grep_capped}
use aide_mcp.Search.Grep.Counts.{IsContext, matches}
use aide_mcp.Base.Int.{pos, ℤ}
use aide_mcp.Scip.Callers.{NoRepeats, key_of, IsCaller, IsCallSite}
use aide_mcp.Jobs.{new, Job, next_id, get_job, register}
use aide_mcp.Scip.Map.{symbols_at, defs_in_path-project_map}
use aide_mcp.Jobs.Ids.{IsFresh, register-next_id}
use aide_mcp.Base.Result.{ok, Result}
use aide_mcp.Scip.Enclosing.{IsNearest, enclosing-IsNearest, IsCandidate}
use aide_mcp.Proto.Framing.RoundTrip.{read-write}
use aide_mcp.Search.Ls.{LsOptions, Scope, list_files, compiled, SearchError, tracked}
use aide_mcp.Search.Ls.Sorted.{IsListing, list_files-IsListing}
use aide_mcp.Scip.Complete.{IsCovered, callers_exact}

read-write_example :
    read_message (λ s. some s) (write_message (codes "{}") ++ codes "rest")
    ≡ ok (codes "{}", codes "rest")
read-write_example =
    read-write (λ s. some s) (λ s h. refl) (codes "{}") (codes "rest") (omega arith)

abbrev stream : List Read
stream = got (codes "hello ") true ∷ got (codes "world") true ∷ got [] true ∷ []

capped_prefix_example :
    read_capped_tee (λ s. s) 8 stream none
    ≡ (take 8 (output stream), ltb 8 (length (output stream)))
capped_prefix_example = capped_prefix (λ s. s) 8 stream none

-- Two matches in each file.
abbrev calls : Text → List Call
calls rel = matched 1 (codes "a") ∷ context 2 (codes "b") (some after) ∷ matched 3 (codes "c") ∷ []

calls_sound : (rel : Text) → All IsContext (calls rel)
calls_sound rel = (tt, ((λ e. absurd (cc e)), (tt, tt)))

abbrev options : ℕ → GrepOptions
options n = record { max_results = n; max_results_per_file = 5 }

abbrev two_files : List Text
two_files = codes "x.rs" ∷ codes "y.rs" ∷ []

grep_capped_example :
    (all_matches (grep calls (options 3) two_files).hits
      ≡ (grep calls (options 3) two_files).total_matches)
    × ((grep calls (options 3) two_files).total_matches ≤ 3)
    × All (λ (h : GrepHit). matches h.lines ≤ 5) (grep calls (options 3) two_files).hits
grep_capped_example = grep_capped calls (options 3) two_files calls_sound

grep_untruncated_example :
    (grep calls (options 9) two_files).hits ≡ all_hits calls (options 9) two_files
unfolding grep
grep_untruncated_example = grep_untruncated calls (options 9) two_files calls_sound refl

-- `f` calls `g`, which stands above it.
abbrev doc : Document
doc = record {
  relative_path = codes "a.rs";
  occurrences =
      record { symbol = codes "g"; symbol_roles = 1; range = pos 0 ∷ [] }
      ∷ record { symbol = codes "f"; symbol_roles = 1; range = pos 3 ∷ [] }
      ∷ record { symbol = codes "g"; symbol_roles = 0; range = pos 4 ∷ [] }
      ∷ [];
  symbols =
      record { symbol = codes "f"; display_name = []; kind = codes "Function"; documentation = [] }
      ∷ [];
}

enclosing-IsNearest_example :
    (best : Option (ℤ × Text)) × (enclosing_definition_symbol_id doc (pos 4)
      ≡ Option.map (λ b. b.1) best)
    × IsNearest (pos 4) doc.occurrences best
enclosing-IsNearest_example = enclosing-IsNearest doc (pos 4)

callers_exact_example :
    let out = enclosing_defs_of_callers (doc ∷ []) (codes "g") in
    NoRepeats (map key_of out)
    × All (IsCaller (doc ∷ []) (codes "g")) out
    × ((d : Document) (occ def : Occurrence) (line start : ℤ)
        → In d (doc ∷ [])
        → In occ d.occurrences
        → IsCallSite (codes "g") occ line
        → In def d.occurrences
        → IsCandidate line def start
        → (id : Text) × ((s : ℤ) × IsNearest line d.occurrences (some (s, id)))
          × IsCovered d id out)
callers_exact_example = callers_exact (doc ∷ []) (codes "g") (refl, tt)

defs_in_path-project_map_example :
    defs_in_path (doc ∷ []) (codes "a.rs") ≡ symbols_at (codes "a.rs") (project_map (doc ∷ []) [])
defs_in_path-project_map_example = defs_in_path-project_map (doc ∷ []) (codes "a.rs") (refl, tt)

new-IsFresh : IsFresh new
unfolding new
new-IsFresh = record { handed_out = λ n h k. refl; bounded = omega arith }

abbrev first_job : Job
first_job = record {
  id = codes "job-1";
  pid = 4242;
  kind = codes "run_tests";
  executable = codes "cargo";
  args = codes "test" ∷ [];
  started_at_unix = 1;
}

register-next_id_example :
    (get_job (codes "job-1") new ≡ none)
    × IsFresh (register first_job (next_id new).1)
    × (get_job (codes "job-1") (register first_job (next_id new).1) ≡ some first_job)
unfolding new next_id print
register-next_id_example = register-next_id new first_job new-IsFresh (omega arith) refl

abbrev listing_options : LsOptions
listing_options = record { glob = none; max_results = some 2; include_hidden = false }

-- Three names, one of them twice.
abbrev walked : Scope → Bool → Result SearchError (List Text)
walked scope hidden = ok (codes "b" ∷ codes "c" ∷ codes "a" ∷ codes "b" ∷ [])

list_files-IsListing_example :
    (matcher : Option (Text → Bool)) × (files : List Text) × (compiled (λ p. none) none
      ≡ ok matcher)
    × (walked tracked false ≡ ok files)
    × IsListing matcher (some 2) files (codes "a" ∷ codes "b" ∷ [])
unfolding list_files
list_files-IsListing_example =
    list_files-IsListing (λ p. none) walked tracked listing_options (codes "a" ∷ codes "b" ∷ [])
      refl
