-- ===== src/Lsp/Documents.antt =====
-- `ensure_document_current` of crates/aide-lsp/src/ops.rs: the documents kept open in a language server,
-- with `OpenedDocument` of crates/aide-lsp/src/client.rs. The file is read before the lock is taken, and
-- its text is an argument; from there on the lock is held, so that the rest of a call is one step. The
-- server is the notifications that it gets.
pub mod Bounded
pub mod Mirror
use mathlib.Core.Option
use aide_mcp.Base.{
  text_equal, [], ◌∷◌, none, some, ℕ, if◌then◌else◌, ◌++◌, List, Option, Text, ◌+◌, text_same, ltb,
  leb, ◌%◌, length, ◌^◌,
}
use aide_mcp.Base.Map.{Map, remove, get, insert}
use aide_mcp.Base.Result.{Result, err, ok}

pub record OpenedDocument : Type 0 where
  -- the bits of an `i32`
  pub version : ℕ
  pub text : Text
  pub last_used : ℕ

pub data Notification : Type 0 where
  did_open : (uri language_id : Text) (version : ℕ) (text : Text) → Notification
  did_change : (uri : Text) (version : ℕ) (text : Text) → Notification
  did_close : (uri : Text) → Notification

abbrev pub max_open_docs : ℕ
max_open_docs = 128

abbrev pub Documents : Type 0
Documents = Map Text OpenedDocument

-- `min_by_key`: of several minimal elements the first one.
abbrev pub earlier :
    Text × OpenedDocument → Option (Text × OpenedDocument) → Option (Text × OpenedDocument)
earlier p none = some p
earlier p (some q) = if ltb q.1.last_used p.1.last_used then some q else some p

unfoldable pub least_recent : Documents → Option (Text × OpenedDocument)
least_recent [] = none
least_recent (p ∷ m) = earlier p (least_recent m)

abbrev pub removed : Option (Text × OpenedDocument) → Documents → Documents × List Notification
removed none m = (m, [])
removed (some p) m = (remove p.0 m, did_close p.0 ∷ [])

-- The document to close, taken out, with the notification for it.
unfoldable pub make_room : Documents → Documents × List Notification
unfolding least_recent
make_room m = removed (if leb max_open_docs (length m) then least_recent m else none) m

abbrev pub opened : Text → ℕ → OpenedDocument
opened text now = record { version = 1; text = text; last_used = now }

abbrev pub changed : Text → ℕ → OpenedDocument → OpenedDocument
changed text now e = record { version = (e.version + 1) % 2 ^ 32; text = text; last_used = now }

-- The documents after the call, and what is sent in order. `text` is what the file holds now.
unfoldable pub ensure_current : Text → Text → Text → ℕ → Documents → Documents × List Notification
unfolding make_room
ensure_current uri language_id text now m = elim (get uri m) [
  | some e ↦ if text_same e.text text then (insert uri (record e { last_used = now }) m, []) else (
    insert uri (changed text now e) m,
    did_change uri (changed text now e).version text ∷ [],
  )
  | none ↦
      let (room, closed) = make_room m in
      (insert uri (opened text now) room, closed ++ did_open uri language_id 1 text ∷ [])
]

pub data DocumentError : Type 0 where
  io uri_error : DocumentError

-- With the file that cannot be read, and the path that has no URI.
unfoldable pub ensure_document_current :
    Option Text
    → Option Text
    → Text
    → ℕ
    → Documents
    → Result DocumentError (Unit {0}) × (Documents × List Notification)
unfolding ensure_current
ensure_document_current read uri language_id now m = elim read [
  | none ↦ (err io, (m, []))
  | some text ↦ elim uri [
    | none ↦ (err uri_error, (m, []))
    | some u ↦ (ok tt, ensure_current u language_id text now m)
  ]
]

-- What a server makes of a notification, by the protocol: a document is opened once, and it is changed
-- and closed only while it is open. `none` is a violation.
abbrev pub receive : Notification → Map Text Text → Option (Map Text Text)
receive (did_open uri language_id version text) m = elim (get uri m) [
  | none ↦ some (insert uri text m)
  | some old ↦ none
]
receive (did_change uri version text) m = elim (get uri m) [
  | none ↦ none
  | some old ↦ some (insert uri text m)
]
receive (did_close uri) m = elim (get uri m) [ none ↦ none | some old ↦ some (remove uri m) ]

unfoldable pub receive_all : List Notification → Map Text Text → Option (Map Text Text)
receive_all [] m = some m
receive_all (n ∷ ns) m = elim (receive n m) [ none ↦ none | some m' ↦ receive_all ns m' ]
