-- ===== src/Lsp/Client.antt =====
-- The language server client of crates/aide-lsp/src/client.rs: requests and the reader task that
-- dispatches what the server writes. A message is read from JSON by a library; here it is what the
-- client reads of it. The channel of a request has the request's id for its name.
pub mod Answers
pub mod Shutdown
use aide_mcp.Base.{
  text_equal, nat_equal, [], ◌∷◌, none, some, true, false, ℕ, if◌then◌else◌, List, Option, Bool,
  Text, codes, ◌+◌, ◌%◌, ◌^◌, text_same,
}
use aide_mcp.Base.Int.{ℤ}
use aide_mcp.Base.Map.{Map, get, remove, insert}
use aide_mcp.Base.Channels.{Pending, cancel_all}
use aide_mcp.Base.Result.{Result, ok, err}
use aide_mcp.Lsp.Documents.{Documents}
use aide_mcp.Lsp.Position.Splice.{Range}

-- `lsp_types::Diagnostic`, as far as it is read; `severity` is the name that its `Debug` prints.
pub record Diagnostic : Type 0 where
  pub range : Range
  pub severity : Option Text
  pub message : Text
  pub source : Option Text

-- What the member `error` of a message holds.
pub record ErrorObject : Type 0 where
  pub code : Option ℤ
  pub message : Option Text

-- `result` is the text of the JSON value. `published` is what the params of the message are as
-- `PublishDiagnosticsParams`, if they are such.
pub record Message : Type 0 where
  pub id : Option ℕ
  pub method : Option Text
  pub error : Option ErrorObject
  pub result : Option Text
  pub published : Option (Text × List Diagnostic)

pub data LspClientError : Type 0 where
  framing json cancelled timeout io : LspClientError
  uri_error : LspClientError
  lsp_error : (code : ℤ) (message : Text) → LspClientError

abbrev pub Answer : Type 0
Answer = Result LspClientError Text

pub record LspClient : Type 0 where
  -- the bits of an `AtomicI64`
  pub next_id : ℕ
  -- the requests whose senders are kept
  pub pending : Pending
  -- what ended the wait for each answer: what the reader or a failed wait made of it first
  pub answers : Map ℕ Answer
  pub diagnostics : Map Text (List Diagnostic)
  pub opened : Documents
  pub alive : Bool

-- `request` up to the wait: the id whose channel the caller waits on. `written` tells whether the message
-- is written.
unfoldable pub send_request : Bool → LspClient → Result LspClientError ℕ × LspClient
send_request written c =
    let sent = record c {
      next_id = (c.next_id + 1) % 2 ^ 64;
      pending = insert c.next_id tt c.pending;
    } in
    (if written then ok c.next_id else err framing, sent)

-- The time of the wait is over. Where the reader has just taken the sender, its answer is the one that
-- counts here, although the caller reports the end of its time.
unfoldable pub give_up : ℕ → LspClient → LspClient
give_up id c = elim (get id c.pending) [
  | none ↦ c
  | some u ↦ record c { pending = remove id c.pending; answers = insert id (err timeout) c.answers }
]

abbrev pub or_zero : Option ℤ → ℤ
or_zero none = ℤ.pos 0
or_zero (some n) = n

abbrev pub or_empty : Option Text → Text
or_empty none = []
or_empty (some s) = s

abbrev pub null : Text
null = codes "null"

abbrev pub or_null : Option Text → Text
or_null none = null
or_null (some v) = v

abbrev pub resolved : Message → Answer
resolved msg = elim msg.error [
  | some e ↦ err (lsp_error (or_zero e.code) (or_empty e.message))
  | none ↦ ok (or_null msg.result)
]

abbrev pub publish_diagnostics : Text
publish_diagnostics = codes "textDocument/publishDiagnostics"

abbrev pub publish :
    Bool → Option (Text × List Diagnostic) → Map Text (List Diagnostic) → Map Text (List Diagnostic)
publish false p m = m
publish true none m = m
publish true (some p) m = insert p.0 p.1 m

unfoldable pub dispatch : Message → LspClient → LspClient
dispatch msg c = elim msg.id [
  | some id ↦ elim (get id c.pending) [
    | none ↦ c
    | some u ↦ record c {
      pending = remove id c.pending;
      answers = insert id (resolved msg) c.answers;
    }
  ]
  | none ↦ record c {
    diagnostics =
        publish (text_same (or_empty msg.method) publish_diagnostics) msg.published c.diagnostics;
  }
]

-- What `read_message` gives in turn, with the message that a body is, if it is JSON.
pub data Read : Type 0 where
  body : Option Message → Read
  eof failure : Read

-- The reader task ends: the client is dead, and the senders are dropped.
unfoldable pub exit_reader : LspClient → LspClient
exit_reader c = record c {
  alive = false;
  pending = [];
  answers = cancel_all (err cancelled) c.pending c.answers;
}

-- The loop of the reader over what it reads, as long as it reads.
unfoldable pub read_loop : List Read → LspClient → LspClient
unfolding dispatch exit_reader
read_loop [] c = c
read_loop (body none ∷ rs) c = read_loop rs c
read_loop (body (some msg) ∷ rs) c = read_loop rs (dispatch msg c)
read_loop (eof ∷ rs) c = exit_reader c
read_loop (failure ∷ rs) c = exit_reader c

unfoldable pub diagnostics_for : Text → LspClient → List Diagnostic
diagnostics_for uri c = elim (get uri c.diagnostics) [ none ↦ [] | some ds ↦ ds ]
