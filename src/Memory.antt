-- ===== src/Memory.antt =====
-- Memory files: `render`, `parse` and the operations of crates/aide-mcp/src/memory.rs on the files of a
-- directory. Files are read and written without failure; a memory's file is there or not.
pub mod RoundTrip
pub mod Directory
mod Tests
use aide_mcp.Base.{
  text_equal, [], ◌∷◌, none, some, false, ℕ, if◌then◌else◌, ◌++◌, List, Option, Bool, Text, ◌&&◌,
  codes, not, ◌==◌, any,
}
use aide_mcp.Base.Result.{Result, ok, err}
use aide_mcp.Base.Strings.{
  line_feed, trim, starts_with, trim_start, is_line_end, contains, strip_prefix, lines,
}
use aide_mcp.Base.Map.{Map, insert, get, remove}

pub record Memory : Type 0 where
  pub name : Text
  pub description : Option Text
  pub content : Text

pub data MemoryError : Type 0 where
  invalid_name not_found already_exists : MemoryError

abbrev backslash : ℕ
backslash = 92

abbrev pub is_valid_name : Text → Bool
is_valid_name [] = false
is_valid_name (c ∷ s) =
    not (c == b'.')
    && not (any (λ d. d == b'/') (c ∷ s))
    && not (any (λ d. d == backslash) (c ∷ s))
    && not (contains (codes "..") (c ∷ s))

unfoldable pub name_to_filename : Text → Result MemoryError Text
name_to_filename name = if is_valid_name name then ok (name ++ codes ".md") else err invalid_name

abbrev pub ends_with_newline : Text → Bool
ends_with_newline [] = false
ends_with_newline (c ∷ []) = c == line_feed
ends_with_newline (c ∷ d ∷ s) = ends_with_newline (d ∷ s)

abbrev pub starts_with_newline : Text → Bool
starts_with_newline [] = false
starts_with_newline (c ∷ s) = c == line_feed

-- What `render` writes behind the front matter.
unfoldable pub framed : Text → Text
framed content =
    (if starts_with_newline content then [] else line_feed ∷ [])
    ++ content
    ++ (if ends_with_newline content then [] else line_feed ∷ [])

abbrev pub description_line : Option Text → Text
description_line none = []
description_line (some d) = codes "description: " ++ d ++ line_feed ∷ []

unfoldable pub render : Text → Option Text → Text → Text
unfolding framed
render name description content =
    codes "---\n"
    ++ (codes "name: " ++ name ++ line_feed ∷ [])
    ++ description_line description
    ++ codes "---\n"
    ++ framed content

-- What stands before the first occurrence of `close`, and behind it.
unfoldable pub find_close : Text → Text → Option (Text × Text)
find_close close [] = elim (strip_prefix close []) [ none ↦ none | some r ↦ some ([], r) ]
find_close close (c ∷ s) =
    let rest = find_close close s in
    elim (strip_prefix close (c ∷ s)) [
      | some r ↦ some ([], r)
      | none ↦ elim rest [ none ↦ none | some (l, r) ↦ some (c ∷ l, r) ]
    ]

abbrev pub described : Text → Memory → Memory
described [] m = m
described (c ∷ s) m = record m { description = some (c ∷ s) }

-- The loop over the lines of the header.
unfoldable pub read_line : Text → Memory → Memory
read_line line m = elim (strip_prefix (codes "name:") line) [
  | some v ↦ record m { name = trim v }
  | none ↦ elim (strip_prefix (codes "description:") line) [
    | some v ↦ described (trim v) m
    | none ↦ m
  ]
]

unfoldable pub read_header : List Text → Memory → Memory
unfolding read_line
read_header [] m = m
read_header (l ∷ ls) m = read_header ls (read_line l m)

abbrev pub open_of : Text → Text
open_of raw = if starts_with (codes "---\r\n") raw then codes "---\r\n" else codes "---\n"

abbrev pub close_of : Text → Text
close_of raw = if starts_with (codes "---\r\n") raw then codes "\r\n---\r\n" else codes "\n---\n"

-- The memory of a file whose front matter ends as told.
unfoldable pub with_front : Text → Text → Option (Text × Text) → Memory
unfolding lines read_header
with_front default_name raw none = record {
  name = default_name;
  description = none;
  content = trim_start is_line_end raw;
}
with_front default_name raw (some p) =
    read_header (lines p.0)
      (record { name = default_name; description = none; content = trim_start is_line_end p.1 })

unfoldable pub parse : Text → Text → Memory
unfolding find_close with_front
parse default_name raw = elim (strip_prefix (open_of raw) raw) [
  | none ↦ with_front default_name raw none
  | some rest ↦ with_front default_name raw (find_close (close_of raw) rest)
]

-- The directory, by file names.
abbrev pub Files : Type 0
Files = Map Text Text

unfoldable pub write : Text → Option Text → Text → Files → Result MemoryError (Unit {0}) × Files
unfolding name_to_filename render
write name description content files = elim (name_to_filename name) [
  | err e ↦ (err e, files)
  | ok file ↦ (ok tt, insert file (render name description content) files)
]

unfoldable pub read : Text → Files → Result MemoryError Memory
unfolding name_to_filename parse
read name files = elim (name_to_filename name) [
  | err e ↦ err e
  | ok file ↦ elim (get file files) [ none ↦ err not_found | some raw ↦ ok (parse name raw) ]
]

unfoldable pub delete : Text → Files → Result MemoryError (Unit {0}) × Files
unfolding name_to_filename
delete name files = elim (name_to_filename name) [
  | err e ↦ (err e, files)
  | ok file ↦ elim (get file files) [
    | none ↦ (err not_found, files)
    | some raw ↦ (ok tt, remove file files)
  ]
]

-- The file as it is written again under its new name.
abbrev pub renamed : Text → Text → Text
renamed new_name raw =
    let parsed = parse new_name raw in render new_name parsed.description parsed.content

unfoldable pub rename : Text → Text → Files → Result MemoryError (Unit {0}) × Files
unfolding name_to_filename
rename old_name new_name files = elim (name_to_filename old_name) [
  | err e ↦ (err e, files)
  | ok old_file ↦ elim (name_to_filename new_name) [
    | err e ↦ (err e, files)
    | ok new_file ↦ elim (get old_file files) [
      | none ↦ (err not_found, files)
      | some raw ↦ elim (get new_file files) [
        | some other ↦ (err already_exists, files)
        | none ↦ (ok tt, insert new_file (renamed new_name raw) (remove old_file files))
      ]
    ]
  ]
]
