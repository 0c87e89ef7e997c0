-- ===== src/Memory/RoundTrip.antt =====
-- A memory that is written is read back.
use aide_mcp.Base.{
  text_equal, [], ◌∷◌, none, some, false, ℕ, ◌≡◌, arith, refl, ◌++◌, Option, Text, ◌≤◌, codes, All,
  length, true, ap, ◌∙◌, ◌==◌, All-append, All-none, append-nil, append_assoc,
}
use aide_mcp.Memory.{
  find_close, read_line, Memory, described, read_header, description_line, framed, with_front,
  render,
}
use aide_mcp.Base.Strings.{
  is_line_end, line_feed, trim, carriage_return, trim_start, is_whitespace, cons_unless, trim_end,
  lines, cons_line,
}
use aide_mcp.Memory.{parse}

-- Text without a line end.
abbrev pub IsOneLine : Text → Type 0
IsOneLine s = All (λ c. is_line_end c ≡ false) s

not_line_feed :
    (c : ℕ)
    → is_line_end c ≡ false
    → ((line_feed == c) ≡ false) × ((c == line_feed) ≡ false) × ((c == carriage_return) ≡ false)
not_line_feed c h = ground (arith, h)

abbrev close : Text
close = codes "\n---\n"

-- Nothing of a line closes the front matter.
find_close-line :
    (s t l b : Text)
    → IsOneLine s
    → find_close close (line_feed ∷ t) ≡ some (l, b)
    → find_close close (s ++ line_feed ∷ t) ≡ some (s ++ l, b)
unfolding find_close
find_close-line [] t l b h e = e
find_close-line (c ∷ s) t l b (hc, h) e =
    rw ((not_line_feed c hc).0, find_close) (rw (find_close-line s t l b h e) refl)

lines-line :
    (s : Text) (d : ℕ) (t : Text) → IsOneLine s → lines (s ++ line_feed ∷ d ∷ t) ≡ s ∷ lines (d ∷ t)
unfolding lines
lines-line [] d t h = refl
lines-line (c ∷ []) d t (hc, h) = rw ((not_line_feed c hc).1, (not_line_feed c hc).2) refl
lines-line (c ∷ e ∷ s) d t (hc, h) =
    rw ((not_line_feed c hc).1, (not_line_feed c hc).2)
      (ap (cons_line c) (lines-line (e ∷ s) d t h))

lines_one : (s : Text) → IsOneLine s → 1 ≤ length s → lines s ≡ s ∷ []
unfolding lines
lines_one [] h l = absurd (omega arith)
lines_one (c ∷ []) (hc, h) l = ground (arith, hc)
lines_one (c ∷ d ∷ s) (hc, h) l =
    rw ((not_line_feed c hc).1, (not_line_feed c hc).2)
      (ap (cons_line c) (lines_one (d ∷ s) h (omega arith)))

trim_blank : (s : Text) → trim (b' ' ∷ s) ≡ trim s
trim_blank s = go (trim_end is_whitespace s)
  where
    go :
        (r : Text) → trim_start is_whitespace (cons_unless true b' ' r) ≡ trim_start is_whitespace r
    go [] = refl
    go (c ∷ r) = refl

-- What can be written as a name or a description.
pub record IsField (s : Text) : Type 0 where
  pub one_line : IsOneLine s
  pub trimmed : trim s ≡ s

name_line :
    (name : Text) (m : Memory)
    → IsField name
    → read_line (codes "name: " ++ name) m ≡ record m { name = name }
unfolding read_line
name_line name m f =
    ap (λ (v : Text). let n : Memory = record m { name = v } in n) (trim_blank name ∙ f.trimmed)

description_line_read :
    (c : ℕ) (d : Text) (m : Memory)
    → IsField (c ∷ d)
    → read_line (codes "description: " ++ c ∷ d) m ≡ record m { description = some (c ∷ d) }
unfolding read_line
description_line_read c d m f = ap (λ v. described v m) (trim_blank (c ∷ d) ∙ f.trimmed)

name-IsOneLine : (name : Text) → IsField name → IsOneLine (codes "name: " ++ name)
name-IsOneLine name f =
    All-append (λ c. is_line_end c ≡ false) (codes "name: ") name
      (All-none is_line_end (codes "name: ") refl) f.one_line

description-IsOneLine : (d : Text) → IsField d → IsOneLine (codes "description: " ++ d)
description-IsOneLine d f =
    All-append (λ c. is_line_end c ≡ false) (codes "description: ") d
      (All-none is_line_end (codes "description: ") refl) f.one_line

-- The text behind the opening line.
abbrev behind_open : Text → Option Text → Text → Text
behind_open name description content =
    (codes "name: " ++ name ++ line_feed ∷ [])
    ++ description_line description
    ++ codes "---\n"
    ++ framed content

-- The front matter, without the newline at its end.
abbrev front : Text → Option Text → Text
front name none = codes "name: " ++ name
front name (some d) = codes "name: " ++ name ++ line_feed ∷ (codes "description: " ++ d)

abbrev pub IsDescription : Option Text → Type 0
IsDescription none = Unit
IsDescription (some d) = IsField d × (1 ≤ length d)

one_more : Option (Text × Text) → Option (Text × Text)
one_more none = none
one_more (some (l, b)) = some (line_feed ∷ l, b)

find_front :
    (name : Text) (description : Option Text) (content : Text)
    → IsField name
    → IsDescription description
    → find_close close (behind_open name description content)
      ≡ some (front name description, framed content)
unfolding find_close one_more
find_front name none content f h =
    let line = codes "name: " ++ name in
    let shape : behind_open name none content
        ≡ line ++ line_feed ∷ (codes "---\n" ++ framed content) =
      ap (λ x. x ++ codes "---\n" ++ framed content) (append-nil (line ++ line_feed ∷ []))
      ∙ append_assoc (line ++ line_feed ∷ []) (codes "---\n") (framed content)
      ∙ append_assoc line (line_feed ∷ []) (codes "---\n" ++ framed content) in
    ap (find_close close) shape
    ∙ find_close-line line (codes "---\n" ++ framed content) [] (framed content)
        (name-IsOneLine name f) refl
    ∙ ap (λ l. some (l, framed content)) (append-nil line)
find_front name (some d) content f (g, long) =
    let line = codes "name: " ++ name in
    let second = codes "description: " ++ d in
    let tail = second ++ line_feed ∷ (codes "---\n" ++ framed content) in
    let shape : behind_open name (some d) content ≡ line ++ line_feed ∷ tail =
      append_assoc ((line ++ line_feed ∷ []) ++ (second ++ line_feed ∷ [])) (codes "---\n")
        (framed content)
      ∙ append_assoc (line ++ line_feed ∷ []) (second ++ line_feed ∷ [])
          (codes "---\n" ++ framed content)
      ∙ append_assoc line (line_feed ∷ [])
          ((second ++ line_feed ∷ []) ++ (codes "---\n" ++ framed content))
      ∙ ap (λ x. line ++ line_feed ∷ x)
          (append_assoc second (line_feed ∷ []) (codes "---\n" ++ framed content)) in
    let inner : find_close close tail ≡ some (second, framed content) =
      find_close-line second (codes "---\n" ++ framed content) [] (framed content)
        (description-IsOneLine d g) refl
      ∙ ap (λ l. some (l, framed content)) (append-nil second) in
    let outer : find_close close (line_feed ∷ tail) ≡ some (line_feed ∷ second, framed content) =
      ap one_more inner in
    ap (find_close close) shape
    ∙ find_close-line line tail (line_feed ∷ second) (framed content) (name-IsOneLine name f) outer

with_front-front :
    (default_name raw name : Text) (description : Option Text) (body : Text)
    → IsField name
    → IsDescription description
    → with_front default_name raw (some (front name description, body))
      ≡ record { name = name; description = description; content = trim_start is_line_end body }
unfolding with_front read_header
with_front-front default_name raw name none body f h =
    let m : Memory = record {
      name = default_name;
      description = none;
      content = trim_start is_line_end body;
    } in
    ap (λ ls. read_header ls m)
      (lines_one (codes "name: " ++ name) (name-IsOneLine name f) (omega arith))
    ∙ name_line name m f
with_front-front default_name raw name (some []) body f (g, long) = absurd (omega arith)
with_front-front default_name raw name (some (c ∷ d)) body f (g, long) =
    let m : Memory = record {
      name = default_name;
      description = none;
      content = trim_start is_line_end body;
    } in
    let second = codes "description: " ++ c ∷ d in
    ap (λ ls. read_header ls m)
      (lines-line (codes "name: " ++ name) b'd' (codes "escription: " ++ c ∷ d)
          (name-IsOneLine name f)
        ∙ ap (λ ls. (codes "name: " ++ name) ∷ ls)
            (lines_one second (description-IsOneLine (c ∷ d) g) (omega arith)))
    ∙ ap (read_line second) (name_line name m f)
    ∙ description_line_read c d (record m { name = name }) g

-- A memory that is written under a name and with a description that are single lines without blanks
-- around them, the description not empty, is parsed as what was written, but for the newlines at the
-- start of its content and one that is added at its end.
pub parse-render :
    (default_name name : Text) (description : Option Text) (content : Text)
    → IsField name
    → IsDescription description
    → parse default_name (render name description content) ≡ record {
      name = name;
      description = description;
      content = trim_start is_line_end (framed content);
    }
unfolding parse render
parse-render default_name name description content f h =
    ap (with_front default_name (render name description content))
      (find_front name description content f h)
    ∙ with_front-front default_name (render name description content) name description
        (framed content) f h
