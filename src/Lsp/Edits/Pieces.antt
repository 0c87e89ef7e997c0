-- ===== src/Lsp/Edits/Pieces.antt =====
-- The edits of a text that is cut into pieces, some of which are replaced.
use aide_mcp.Base.{
  text_equal, [], ◌∷◌, some, ◌++◌, List, Text, ◌≡◌, ap, ◌∙◌, sym, append_assoc, ap₂, false, arith,
  refl, ltb, Permutation,
}
use mathlib.Core.Path.{fun_ext}
use mathlib.Core.List.Permᴰ.{symm}
use aide_mcp.Base.Result.{ok, ◌>>=◌, bind-ok, bind_assoc}
use aide_mcp.Lsp.Position.{bytes, byte_offset, compute_line_offsets, drop_bytes}
use aide_mcp.Lsp.Position.Agree.{drop_bytes-bytes, bytes-append}
use aide_mcp.Lsp.Position.Splice.{joined, take_bytes-bytes}
use aide_mcp.Lsp.Edits.{
  TextEdit, apply_all, apply_one, replace_range, apply_text_edits, starts_before,
}
use aide_mcp.Lsp.Edits.Order.{Ascending, sort-Perm, sort_first, Ascending-Apart, first_starts}
use aide_mcp.Base.Sort.{sort_by}

-- A piece that is kept, the piece behind it that is replaced, and the edit that replaces it.
pub record Hunk : Type 0 where
  pub kept : Text
  pub old : Text
  pub edit : TextEdit

abbrev pub edits_of : List Hunk → List TextEdit
edits_of [] = []
edits_of (h ∷ hs) = h.edit ∷ edits_of hs

abbrev pub original : List Hunk → Text → Text
original [] tail = tail
original (h ∷ hs) tail = h.kept ++ (h.old ++ original hs tail)

abbrev pub edited : List Hunk → Text → Text
edited [] tail = tail
edited (h ∷ hs) tail = h.kept ++ (h.edit.new_text ++ edited hs tail)

module _ (text : Text) where
  -- The range of each edit stands for the two ends of the piece that it replaces.
  abbrev pub Located : Text → List Hunk → Type 0
  Located before [] = Unit
  Located before (h ∷ hs) =
      (byte_offset (compute_line_offsets text) text h.edit.range.start
        ≡ some (bytes (before ++ h.kept)))
      × (byte_offset (compute_line_offsets text) text h.edit.range.end
          ≡ some (bytes ((before ++ h.kept) ++ h.old)))
      × Located ((before ++ h.kept) ++ h.old) hs

  apply_all-append :
      (es : List TextEdit) (e : TextEdit) (out : Text)
      → apply_all text (es ++ (e ∷ [])) out ≡ (apply_all text es out >>= apply_one text e)
  unfolding apply_all
  apply_all-append [] e out = bind-ok (apply_one text e out)
  apply_all-append (x ∷ es) e out =
      ap (λ f. apply_one text x out >>= f) (fun_ext (λ o. apply_all-append es e o))
      ∙ bind_assoc (apply_one text x out) (apply_all text es) (apply_one text e)

replace-pieces :
    (before old new rest : Text)
    → replace_range (before ++ (old ++ rest)) (bytes before) (bytes (before ++ old)) new
      ≡ ok (before ++ new ++ rest)
unfolding replace_range
replace-pieces before old new rest = ap₂ (joined new) (take_bytes-bytes before (old ++ rest)) (
    ap (drop_bytes (bytes (before ++ old))) (sym (append_assoc before old rest))
    ∙ drop_bytes-bytes (before ++ old) rest)

-- One edit, applied to a text whose part behind it may have changed.
apply-piece :
    (text before old rest : Text) (e : TextEdit)
    → byte_offset (compute_line_offsets text) text e.range.start ≡ some (bytes before)
    → byte_offset (compute_line_offsets text) text e.range.end ≡ some (bytes (before ++ old))
    → apply_one text e (before ++ (old ++ rest)) ≡ ok (before ++ e.new_text ++ rest)
unfolding apply_one
apply-piece text before old rest e s t =
    let ordered : ltb (bytes (before ++ old)) (bytes before) ≡ false =
      ground (arith, bytes-append before old) in
    let inside : ltb (bytes (before ++ (old ++ rest))) (bytes (before ++ old)) ≡ false =
      ground (
        arith,
        bytes-append before old,
        bytes-append before (old ++ rest),
        bytes-append old rest,
      ) in
    rw (s, apply_one) (rw t (rw (ordered, inside) (replace-pieces before old e.new_text rest)))

apply-hunks :
    (text before : Text) (hs : List Hunk) (tail : Text)
    → Located text before hs
    → Ascending (edits_of hs)
    → apply_all text (sort_by starts_before (edits_of hs)) (before ++ original hs tail)
      ≡ ok (before ++ edited hs tail)
unfolding apply_all
apply-hunks text before [] tail l a = refl
apply-hunks text before (h ∷ hs) tail (s, t, l) (first, a) =
    let kept = before ++ h.kept in
    let split : before ++ original (h ∷ hs) tail ≡ (kept ++ h.old) ++ original hs tail =
      sym (append_assoc before h.kept (h.old ++ original hs tail))
      ∙ sym (append_assoc kept h.old (original hs tail)) in
    let later = apply-hunks text (kept ++ h.old) hs tail l a in
    rw (sort_first h.edit (edits_of hs) (first_starts h.edit (edits_of hs) first)) (
      apply_all-append text (sort_by starts_before (edits_of hs)) h.edit
        (before ++ original (h ∷ hs) tail)
      ∙ ap (λ o. apply_all text (sort_by starts_before (edits_of hs)) o >>= apply_one text h.edit)
          split
      ∙ ap (λ r. r >>= apply_one text h.edit) later
      ∙ ap (apply_one text h.edit) (append_assoc kept h.old (edited hs tail))
      ∙ apply-piece text kept h.old (edited hs tail) h.edit s t
      ∙ ap ok (
          append_assoc kept h.edit.new_text (edited hs tail)
          ∙ append_assoc before h.kept (h.edit.new_text ++ edited hs tail)))

-- For a text that is cut into pieces to keep and pieces to replace, with one edit for each piece to
-- replace whose range stands for the two ends of that piece, and whose starts ascend: in whatever order
-- the edits come, the result is the text with just those pieces replaced by the new texts.
pub apply_text_edits-pieces :
    (hs : List Hunk) (tail : Text) (edits : List TextEdit)
    → Located (original hs tail) [] hs
    → Ascending (edits_of hs)
    → Permutation edits (edits_of hs)
    → apply_text_edits (original hs tail) edits ≡ ok (edited hs tail)
unfolding apply_text_edits
apply_text_edits-pieces hs tail edits l a d =
    ap (λ es. apply_all (original hs tail) es (original hs tail))
      (sym (sort-Perm (symm d) (Ascending-Apart (edits_of hs) a)))
    ∙ apply-hunks (original hs tail) [] hs tail l a
