-- ===== src/Proto/Framing.antt =====
-- `write_message` and `read_message` of crates/aide-proto/src/framing.rs on byte streams, with the parts
-- of the standard library that they use. `decode` stands for the UTF-8 decoding in `read_line`.
pub mod Decimal
pub mod RoundTrip
use aide_mcp.Base.{
  text_equal, [], ◌∷◌, none, some, zero, suc, ℕ, if◌then◌else◌, ◌++◌, Option, Bool, Text, ◌+◌, ◌-◌,
  ◌&&◌, codes, text_same, ◌/◌, ◌^◌, leb, ◌*◌, ◌==◌, length, ltb, ◌%◌, take, drop,
}
use aide_mcp.Base.Result.{Result, ok, err}
use aide_mcp.Base.Strings.{
  to_ascii_lowercase, split_once, trim_end, carriage_return, trim, is_line_end,
}

pub data FramingError : Type 0 where
  io eof bad_header no_content_length bad_content_length : FramingError

abbrev pub newline : ℕ
newline = 10

-- `Display` of a number; the first argument is fuel, of which `n + 1` is enough.
unfoldable pub print_from : ℕ → ℕ → Text
print_from zero n = []
print_from (suc f) n =
    let front = print_from f (n / 10) in
    if ltb n 10 then (48 + n) ∷ [] else front ++ (48 + n % 10) ∷ []

unfoldable pub print : ℕ → Text
unfolding print_from
print n = print_from (n + 1) n

-- The digits of a `usize`, on 64 bits.
abbrev pub usize_limit : ℕ
usize_limit = 2 ^ 64

abbrev pub is_digit : ℕ → Bool
is_digit c = leb 48 c && leb c 57

unfoldable pub parse_digits : ℕ → Text → Option ℕ
parse_digits n [] = some n
parse_digits n (c ∷ s) =
    let next = 10 * n + (c - 48) in
    let rest = parse_digits next s in
    if is_digit c then if ltb next usize_limit then rest else none else none

-- `str::parse::<usize>`
unfoldable pub parse_usize : Text → Option ℕ
unfolding parse_digits
parse_usize [] = none
parse_usize (c ∷ []) = parse_digits 0 (c ∷ [])
parse_usize (c ∷ d ∷ s) = if c == b'+' then parse_digits 0 (d ∷ s) else parse_digits 0 (c ∷ d ∷ s)

-- What the loop makes of a line: the blank line ends it.
pub data Header : Type 0 where
  blank : Header
  bad : FramingError → Header
  next : Option ℕ → Header

abbrev pub parsed : Option ℕ → Header
parsed none = bad bad_content_length
parsed (some n) = next (some n)

unfoldable pub named : Option ℕ → Text → Text → Header
unfolding parse_usize
named content_length name value =
    if text_same (to_ascii_lowercase name) (codes "content-length")
    then parsed (parse_usize (trim value))
    else next content_length

unfoldable pub trimmed_header : Option ℕ → Text → Header
unfolding named
trimmed_header content_length [] = blank
trimmed_header content_length (c ∷ s) = elim (split_once b':' (c ∷ s)) [
  | none ↦ bad bad_header
  | some (name, value) ↦ named content_length name value
]

unfoldable pub header : Option ℕ → Text → Header
unfolding trimmed_header
header content_length line = trimmed_header content_length (trim_end is_line_end line)

-- `read_exact`
unfoldable pub read_exact : ℕ → Text → Result FramingError (Text × Text)
read_exact n s = if leb n (length s) then ok (take n s, drop n s) else err io

unfoldable pub read_body : Option ℕ → Text → Result FramingError (Text × Text)
unfolding read_exact
read_body none s = err no_content_length
read_body (some n) s = read_exact n s

module _ (decode : Text → Option Text) where
  unfoldable pub header_of : Option ℕ → Text → Header
  unfolding header
  header_of content_length line = elim (decode line) [
    | none ↦ bad io
    | some l ↦ header content_length l
  ]

  -- The loop of `read_message`; `line` is what `read_line` has read of the current line.
  unfoldable pub read_headers : Text → Option ℕ → Text → Result FramingError (Text × Text)
  unfolding header_of read_body
  read_headers [] content_length [] = err eof
  read_headers (b ∷ bs) content_length [] = elim (header_of content_length (b ∷ bs)) [
    | blank ↦ read_body content_length []
    | bad e ↦ err e
    | next n ↦ err eof
  ]
  read_headers line content_length (c ∷ s) =
      let more = read_headers (line ++ c ∷ []) content_length s in
      let after = λ (n : Option ℕ). read_headers [] n s in
      if c == newline
      then elim (header_of content_length (line ++ c ∷ [])) [
        | blank ↦ read_body content_length s
        | bad e ↦ err e
        | next n ↦ after n
      ]
      else more

  -- The body of the message, and what is left of the stream.
  unfoldable pub read_message : Text → Result FramingError (Text × Text)
  unfolding read_headers
  read_message s = read_headers [] none s

unfoldable pub write_message : Text → Text
unfolding print
write_message bytes =
    codes "Content-Length: "
    ++ print (length bytes)
    ++ carriage_return ∷ newline ∷ carriage_return ∷ newline ∷ bytes
