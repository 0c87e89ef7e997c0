-- ===== src/Search/Grep.antt =====
-- The loops of `grep` and `grep_at` in crates/aide-search/src/grep.rs, and their `CollectSink`. The
-- searcher is a library's: for each file a parameter says which calls of the sink a search makes, in
-- order, as long as the sink goes on; it stops at the first call that answers `false`.
pub mod Counts
pub mod Caps
use aide_mcp.Base.{
  text_equal, [], ◌∷◌, none, some, true, false, ℕ, if◌then◌else◌, ◌++◌, List, Option, Bool, Text,
  ◌+◌, ◌-◌, ◌==◌, leb, min, length,
}
use aide_mcp.Base.Strings.{carriage_return}

pub data LineKind : Type 0 where
  is_match before after : LineKind

pub record LineMatch : Type 0 where
  pub line : ℕ
  pub text : Text
  pub kind : LineKind

pub record GrepHit : Type 0 where
  pub path : Text
  pub lines : List LineMatch

pub record GrepOptions : Type 0 where
  pub max_results : ℕ
  pub max_results_per_file : ℕ

pub record GrepResult : Type 0 where
  pub hits : List GrepHit
  pub files_scanned : ℕ
  pub total_matches : ℕ
  pub truncated : Bool

-- A call of the sink: `matched`, or `context` with its kind, of which `none` is `Other`.
pub data Call : Type 0 where
  matched : (line : ℕ) (bytes : Text) → Call
  context : (line : ℕ) (bytes : Text) (kind : Option LineKind) → Call

pub record CollectSink : Type 0 where
  pub lines : List LineMatch
  pub match_count : ℕ
  pub per_file_cap : ℕ

-- `strip_suffix` of one byte
unfoldable pub strip_suffix : ℕ → Text → Option Text
strip_suffix b [] = none
strip_suffix b (c ∷ []) = if c == b then some [] else none
strip_suffix b (c ∷ d ∷ s) = elim (strip_suffix b (d ∷ s)) [ none ↦ none | some r ↦ some (c ∷ r) ]

abbrev pub unwrap_or : Option Text → Text → Text
unwrap_or none d = d
unwrap_or (some s) d = s

-- The lossy decoding is not modelled: a line is its bytes.
unfoldable pub strip_eol : Text → Text
unfolding strip_suffix
strip_eol bytes =
    unwrap_or (strip_suffix carriage_return (unwrap_or (strip_suffix b'\n' bytes) bytes))
      (unwrap_or (strip_suffix b'\n' bytes) bytes)

abbrev pub pushed : ℕ → Text → LineKind → CollectSink → CollectSink
pushed line bytes kind sink = record sink {
  lines = sink.lines ++ record { line = line; text = strip_eol bytes; kind = kind } ∷ [];
}

-- The search of a file.
unfoldable pub search_file : List Call → CollectSink → CollectSink
search_file [] sink = sink
search_file (matched line bytes ∷ cs) sink =
    let rest =
      search_file cs
        (record (pushed line bytes is_match sink) { match_count = sink.match_count + 1 }) in
    if leb sink.per_file_cap sink.match_count then sink else rest
search_file (context line bytes none ∷ cs) sink = search_file cs sink
search_file (context line bytes (some kind) ∷ cs) sink =
    search_file cs (pushed line bytes kind sink)

abbrev pub fresh : ℕ → CollectSink
fresh per_file = record { lines = []; match_count = 0; per_file_cap = per_file }

-- The state of the loop: `hits`, `total_matches` and `truncated`.
pub record Progress : Type 0 where
  pub hits : List GrepHit
  pub total_matches : ℕ
  pub truncated : Bool

-- `'files: for rel in &files`; a blob that cannot be found makes no call of the sink.
module _ (calls : Text → List Call) (options : GrepOptions) where
  unfoldable pub grep_files : List Text → Progress → Progress
  unfolding search_file
  grep_files [] p = p
  grep_files (rel ∷ files) p =
      let remaining = options.max_results - p.total_matches in
      let sink = search_file (calls rel) (fresh (min options.max_results_per_file remaining)) in
      let total = p.total_matches + sink.match_count in
      let hits = p.hits ++ record { path = rel; lines = sink.lines } ∷ [] in
      let skip = grep_files files p in
      let go_on = grep_files files (record p { hits = hits; total_matches = total }) in
      if remaining == 0 then record p { truncated = true } else elim sink.lines [
        | [] ↦ skip
        | _ ∷ _ ↦
            if leb options.max_results total
            then record { hits = hits; total_matches = total; truncated = true }
            else go_on
      ]

  unfoldable pub grep : List Text → GrepResult
  unfolding grep_files
  grep files =
      let p = grep_files files (record { hits = []; total_matches = 0; truncated = false }) in
      record {
        hits = p.hits;
        files_scanned = length files;
        total_matches = p.total_matches;
        truncated = p.truncated;
      }
