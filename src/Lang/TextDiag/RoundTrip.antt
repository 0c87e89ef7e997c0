-- ===== src/Lang/TextDiag/RoundTrip.antt =====
-- A line in the shape of gcc is parsed into what it says.
use aide_mcp.Base.{
  text_equal, [], ◌∷◌, some, false, Text, length, ◌==◌, ◌++◌, ◌≡◌, ◌<◌, arith, refl, ℕ, codes, ap,
  any, none, Option, Bool, ◌≤◌, ◌∙◌, ◌^◌, All-none, zero, suc, inl, List, In,
}
use aide_mcp.Base.Strings.{trim_start, split_once, is_whitespace}
use aide_mcp.Lang.TextDiag.{
  colon, split_file, space, level_of, diagnostic, parse_tail, parse_one, scan_exts, trim_here,
}
use aide_mcp.Proto.Framing.{print}
use aide_mcp.Lang.TextDiag.Parts.{
  IsPlain, IsTrimmed, take_number-print, trim-space, trim_here-plain,
}
use aide_mcp.Lang.TextDiag.Files.{scan-found}

-- The levels of gcc and javac, as they stand in a line, and what is made of them.
pub data Level : Type 0 where
  error fatal_error warning note : Level

abbrev pub word : Level → Text
word error = codes "error"
word fatal_error = codes "fatal error"
word warning = codes "warning"
word note = codes "note"

abbrev pub level_text : Level → Text
level_text error = codes "error"
level_text fatal_error = codes "error"
level_text warning = codes "warning"
level_text note = codes "note"

-- What stands behind the column is the level and the message.
level_of-level :
    (require_level : Bool) (level : Level) (message : Text)
    → IsTrimmed message
    → level_of require_level
        (word level ++ colon ∷ space ∷ message)
        (split_once colon (word level ++ colon ∷ space ∷ message))
      ≡ some (level_text level, message)
level_of-level require_level error message t = rw (trim-space message t) refl
level_of-level require_level fatal_error message t = rw (trim-space message t) refl
level_of-level require_level warning message t = rw (trim-space message t) refl
level_of-level require_level note message t = rw (trim-space message t) refl

trim_start-level :
    (level : Level) (rest : Text)
    → trim_start is_whitespace (space ∷ (word level ++ rest)) ≡ word level ++ rest
trim_start-level error rest = refl
trim_start-level fatal_error rest = refl
trim_start-level warning rest = refl
trim_start-level note rest = refl

diagnostic-some :
    (line file : Text) (line_no : ℕ) (column : Option ℕ) (level message : Text)
    → 1 ≤ length message
    → diagnostic line file line_no column level message
      ≡ some (record {
        level = level;
        code = none;
        message = message;
        file = some file;
        line_start = some line_no;
        line_end = none;
        column_start = column;
        column_end = none;
        enclosing_symbol = none;
        rendered = some line;
      })
diagnostic-some line file line_no column level [] l = absurd (omega (arith, l))
diagnostic-some line file line_no column level (c ∷ message) l = refl

parse_tail-level :
    (line file : Text) (require_level : Bool) (line_no col : ℕ) (level : Level) (message : Text)
    → IsTrimmed message
    → parse_tail line file require_level line_no
        (some col, space ∷ (word level ++ colon ∷ space ∷ message))
      ≡ diagnostic line file line_no (some col) (level_text level) message
parse_tail-level line file require_level line_no col level message t =
    rw (trim_start-level level (colon ∷ space ∷ message))
      (rw (level_of-level require_level level message t) (rw t.0 refl))

abbrev pub colon_line : Text → ℕ → ℕ → Level → Text → Text
colon_line file line_no col level message =
    file
    ++ colon
      ∷ (print line_no
          ++ colon ∷ (print col ++ colon ∷ space ∷ (word level ++ colon ∷ space ∷ message)))

-- `./` before a name, any number of times.
abbrev pub dotted : ℕ → Text → Text
dotted zero file = file
dotted (suc n) file = 46 ∷ 47 ∷ dotted n file

trim_here-dotted : (n : ℕ) (file : Text) → IsPlain file → trim_here (dotted n file) ≡ file
unfolding trim_here
trim_here-dotted zero file plain = trim_here-plain file plain
trim_here-dotted (suc n) file plain = trim_here-dotted n file plain

dotted-append : (n : ℕ) (stem ext : Text) → dotted n (stem ++ ext) ≡ dotted n stem ++ ext
dotted-append zero stem ext = refl
dotted-append (suc n) stem ext = ap (λ t. 46 ∷ 47 ∷ t) (dotted-append n stem ext)

none_dotted :
    (test : ℕ) (n : ℕ) (file : Text)
    → (test == 46) ≡ false
    → (test == 47) ≡ false
    → any (λ c. c == test) file ≡ false
    → any (λ c. c == test) (dotted n file) ≡ false
none_dotted test zero file a b h = h
none_dotted test (suc n) file a b h = ground (arith, a, b, none_dotted test n file a b h)

split_file-found :
    (n : ℕ) (stem ext rest : Text) (exts : List Text)
    → any (λ c. c == colon) (stem ++ ext) ≡ false
    → any (λ c. c == space) (stem ++ ext) ≡ false
    → IsPlain (stem ++ ext)
    → In ext exts
    → split_file (dotted n (stem ++ ext) ++ colon ∷ rest) exts ≡ some (stem ++ ext, colon ∷ rest)
unfolding split_file
split_file-found n stem ext rest exts no_colon no_space plain known =
    let file = dotted n (stem ++ ext) in
    let found : scan_exts exts (file ++ colon ∷ rest) none ≡ some (file, colon ∷ rest) =
      scan-found file rest
        (All-none (λ c. c == colon) file (none_dotted colon n (stem ++ ext) refl refl no_colon))
        (none_dotted space n (stem ++ ext) refl refl no_space) (dotted n stem) ext exts none
        (dotted-append n stem ext) known (inl refl) in
    rw (found, split_file) (rw (trim_here-dotted n (stem ++ ext) plain) refl)

-- Whatever other extensions are tried beside the one of the file, and whether or not a level is required: a
-- line that names a file with the extension, perhaps behind `./`, its line and its column as 32-bit
-- numbers, one of the words error, fatal error, warning and note, and a message without blanks around it, with
-- colons and a space between them, is parsed into the name without `./`, these numbers, the level, which is
-- error for a fatal error, and the message, where the name has no colon and no space.
pub parse_one-colon_line :
    (n : ℕ) (stem ext message : Text) (exts : List Text) (line_no col : ℕ) (level : Level)
    (require_level : Bool)
    → any (λ c. c == colon) (stem ++ ext) ≡ false
    → any (λ c. c == space) (stem ++ ext) ≡ false
    → IsPlain (stem ++ ext)
    → In ext exts
    → line_no < 2 ^ 32
    → col < 2 ^ 32
    → IsTrimmed message
    → parse_one (colon_line (dotted n (stem ++ ext)) line_no col level message) exts require_level
      ≡ some (record {
        level = level_text level;
        code = none;
        message = message;
        file = some (stem ++ ext);
        line_start = some line_no;
        line_end = none;
        column_start = some col;
        column_end = none;
        enclosing_symbol = none;
        rendered = some (colon_line (dotted n (stem ++ ext)) line_no col level message);
      })
unfolding parse_one
parse_one-colon_line n stem ext message exts line_no col level require_level no_colon no_space plain
      known line_small col_small t =
    let tail = word level ++ colon ∷ space ∷ message in
    let behind = print line_no ++ colon ∷ (print col ++ colon ∷ space ∷ tail) in
    let line = colon_line (dotted n (stem ++ ext)) line_no col level message in
    let found : split_file line exts ≡ some (stem ++ ext, colon ∷ behind) =
      split_file-found n stem ext behind exts no_colon no_space plain known in
    rw (found, parse_one)
      (rw (take_number-print line_no colon (print col ++ colon ∷ space ∷ tail) line_small refl) (
        rw (take_number-print col colon (space ∷ tail) col_small refl) (
          parse_tail-level line (stem ++ ext) require_level line_no col level message t
          ∙ diagnostic-some line (stem ++ ext) line_no (some col) (level_text level) message t.1)))
