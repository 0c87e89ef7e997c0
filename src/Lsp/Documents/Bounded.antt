-- ===== src/Lsp/Documents/Bounded.antt =====
-- `ensure_document_current` of crates/aide-lsp/src/ops.rs keeps few documents open.
use aide_mcp.Base.{
  text_equal, [], ◌∷◌, some, arith, inl, inr, Option, Text, Bool-cases, text_same, none, ℕ, ◌≤◌,
  ◌≢◌, Option-cases, length, leb,
}
use aide_mcp.Lsp.Documents.{
  OpenedDocument, Documents, least_recent, make_room, ensure_current, earlier, max_open_docs,
  opened, changed,
}
use aide_mcp.Base.Map.{
  get, remove, Distinct, length-insert, length-insert_known, length-remove_known,
}
use aide_mcp.Lsp.Documents.Mirror.{least_recent-get}

least_recent-some : (m : Documents) → 1 ≤ length m → least_recent m ≢ none
unfolding least_recent
least_recent-some [] h e = absurd (omega arith)
least_recent-some (p ∷ m) h e = earlier_some p (least_recent m) e
  where
    earlier_some :
        (p : Text × OpenedDocument) (o : Option (Text × OpenedDocument)) → earlier p o ≢ none
    earlier_some p none e = absurd (cc e)
    earlier_some p (some q) e = ground (arith, e)

-- A call leaves at most 128 documents open if there were at most 128 before and none is recorded twice.
pub ensure_current-bounded :
    (uri language_id text : Text) (now : ℕ) (docs : Documents)
    → Distinct docs
    → length docs ≤ max_open_docs
    → length (ensure_current uri language_id text now docs).0 ≤ max_open_docs
unfolding ensure_current make_room
ensure_current-bounded uri language_id text now docs d few = elim (Option-cases (get uri docs)) [
  | inr (e, there) ↦
      rw (there, ensure_current)
        (elim (Bool-cases (text_same e.text text)) [
          | inl same ↦
              rw same
                (omega (arith, length-insert_known uri (record e { last_used = now }) docs e there))
          | inr differs ↦
              rw differs (omega (arith, length-insert_known uri (changed text now e) docs e there))
        ])
  | inl absent ↦
      rw (absent, ensure_current)
        (elim (Bool-cases (leb max_open_docs (length docs))) [
          | inr room ↦ rw room (ground (arith, length-insert uri (opened text now) docs, room))
          | inl none_left ↦ rw none_left (elim (Option-cases (least_recent docs)) [
            | inl empty ↦ absurd (least_recent-some docs (ground (arith, none_left)) empty)
            | inr (p, oldest) ↦ rw oldest (
                omega (
                  arith,
                  length-insert uri (opened text now) (remove p.0 docs),
                  length-remove_known p.0 docs p.1 (least_recent-get docs p d oldest),
                  few,
                ))
          ])
        ])
]
