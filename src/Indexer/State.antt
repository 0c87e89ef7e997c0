-- ===== src/Indexer/State.antt =====
-- The data of indexer/state.rs and of crates/aide-proto/src/ipc.rs, the key of a repository, and the
-- file that `flush` replaces. Timestamps come from `now_unix`, which is never negative.
use aide_mcp.Base.{
  ℕ, Bool, false, Option, none, some, List, [], ◌∷◌, ◌++◌, Text, ◌==◌, if◌then◌else◌,
}
use aide_mcp.Base.Map.{Map}
use aide_mcp.Base.Result.{Result, ok, err}

pub data IndexState : Type 0 where
  pending in_progress ready : IndexState
  failed : Text → IndexState

pub record CommitInfo : Type 0 where
  pub sha : Text
  pub state : IndexState
  pub enqueued_at_unix : ℕ
  pub indexed_at_unix : Option ℕ
  pub index_path : Option Text

pub data StateError : Type 0 where
  io json : StateError

pub data EnqueueOutcome : Type 0 where
  needs_indexing already_queued already_ready : EnqueueOutcome

pub record CommitEntry : Type 0 where
  pub state : IndexState
  pub enqueued_at_unix : ℕ
  pub indexed_at_unix : Option ℕ
  pub index_path : Option Text

pub record RepoState : Type 0 where
  pub last_sha : Option Text
  pub commits : Map Text CommitEntry

pub record IndexerState : Type 0 where
  pub repos : Map Text RepoState
  pub pending_unlink : List Text

abbrev pub to_info : CommitEntry → Text → CommitInfo
to_info e sha = record {
  sha = sha;
  state = e.state;
  enqueued_at_unix = e.enqueued_at_unix;
  indexed_at_unix = e.indexed_at_unix;
  index_path = e.index_path;
}

abbrev pub slash : ℕ
slash = b'/'

abbrev pub ends_with_slash : Text → Bool
ends_with_slash [] = false
ends_with_slash (c ∷ []) = c == slash
ends_with_slash (c ∷ d ∷ s) = ends_with_slash (d ∷ s)

unfoldable pub repo_key : Text → Text
repo_key root = if ends_with_slash root then root else root ++ slash ∷ []

-- The state file and the temporary file beside it, with the state that each holds.
pub record Disk : Type 0 where
  pub file : Option IndexerState
  pub tmp : Option IndexerState

-- How far `flush` comes: the environment decides.
pub data Io : Type 0 where
  done create_dir_fails to_json_fails write_fails rename_fails : Io

unfoldable pub flush : Io → IndexerState → Disk → Result StateError (Unit {0}) × Disk
flush create_dir_fails s d = (err io, d)
flush to_json_fails s d = (err json, d)
flush write_fails s d = (err io, record d { tmp = none })
flush rename_fails s d = (err io, record d { tmp = some s })
flush done s d = (ok tt, record { file = some s; tmp = none })
