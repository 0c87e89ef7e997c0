-- ===== src/Indexer/Store.antt =====
-- The methods of `Store` in indexer/state.rs. A method takes how its flush goes and the time.
pub mod Evict
pub mod Newest
pub mod Files
pub mod Invariant
pub mod Unlink
use mathlib.Core.Option
use aide_mcp.Base.{
  ℕ, Bool, true, false, Option, none, some, List, [], ◌∷◌, ◌++◌, Text, ltb, max, drop,
  if◌then◌else◌,
}
use aide_mcp.Base.Map.{Map, get, insert, remove, modify}
use aide_mcp.Base.Sort.{sort_by}
use aide_mcp.Base.Result.{Result, ok, err}
use aide_mcp.Indexer.State.{
  IndexState, pending, in_progress, ready, failed, CommitInfo, to_info, StateError, EnqueueOutcome,
  needs_indexing, already_queued, already_ready, CommitEntry, RepoState, IndexerState, repo_key,
  Disk, Io, flush,
}
use aide_mcp.Base.{text_equal}

pub record Store : Type 0 where
  pub repos : Map Text RepoState
  pub pending_unlink : List Text
  pub disk : Disk
  pub retention_ready : ℕ

abbrev pub Method : Type 0 → Type 0
Method A = Store → Result StateError A × Store

abbrev pub memory : Store → IndexerState
memory s = record { repos = s.repos; pending_unlink = s.pending_unlink }

abbrev pub empty_state : IndexerState
empty_state = record { repos = []; pending_unlink = [] }

-- `parsed` is what reading and parsing an existing state file gives.
unfoldable pub load : Option (Result StateError IndexerState) → ℕ → Result StateError Store
load parsed retention = elim parsed [
  | none ↦ ok (opened empty_state none)
  | some r ↦ elim r [ ok s ↦ ok (opened s (some s)) | err e ↦ err e ]
]
  where
    opened : IndexerState → Option IndexerState → Store
    opened s f = record {
      repos = s.repos;
      pending_unlink = s.pending_unlink;
      disk = record { file = f; tmp = none };
      retention_ready = max retention 1;
    }

-- `flush(&guard.state, &path)?; Ok(a)`
unfoldable pub flushed : {A : Type 0} → Io → A → Method A
unfolding flush
flushed fault a s =
    let (r, d) = flush fault (memory s) s.disk in
    (elim r [ ok u ↦ ok a | err e ↦ err e ], record s { disk = d })

abbrev pub new_repo : RepoState
new_repo = record { last_sha = none; commits = [] }

abbrev pub or_default : Option RepoState → RepoState
or_default none = new_repo
or_default (some r) = r

abbrev pub new_entry : ℕ → CommitEntry
new_entry now = record {
  state = pending;
  enqueued_at_unix = now;
  indexed_at_unix = none;
  index_path = none;
}

abbrev pub outcome_of : IndexState → EnqueueOutcome
outcome_of ready = already_ready
outcome_of pending = already_queued
outcome_of in_progress = already_queued
outcome_of (failed reason) = needs_indexing

abbrev pub retried : IndexState → ℕ → CommitEntry → CommitEntry
retried (failed reason) now e = record e { state = pending; enqueued_at_unix = now }
retried _ now e = e

-- The `if let Some(existing) = repo.commits.get_mut(sha)` of `enqueue_at`.
unfoldable pub enqueue_commit :
    Text → ℕ → Map Text CommitEntry → EnqueueOutcome × Map Text CommitEntry
enqueue_commit sha now m = elim (get sha m) [
  | some e ↦ (outcome_of e.state, modify sha (λ x. retried x.state now x) m)
  | none ↦ (needs_indexing, insert sha (new_entry now) m)
]

unfoldable pub enqueue_at : Io → Text → Text → ℕ → Method EnqueueOutcome
unfolding enqueue_commit flushed
enqueue_at fault root sha now s =
    let key = repo_key root in
    let repo = or_default (get key s.repos) in
    let (outcome, commits) = enqueue_commit sha now repo.commits in
    flushed fault outcome
      (record s { repos = insert key (record { last_sha = some sha; commits = commits }) s.repos })

abbrev pub on_commits : (Map Text CommitEntry → Map Text CommitEntry) → RepoState → RepoState
on_commits f r = record r { commits = f r.commits }

unfoldable pub mutate : Io → Text → Text → (CommitEntry → CommitEntry) → Method (Unit {0})
unfolding flushed
mutate fault root sha f s =
    flushed fault tt
      (record s { repos = modify (repo_key root) (on_commits (modify sha f)) s.repos })

unfoldable pub mark_in_progress : Io → Text → Text → Method (Unit {0})
unfolding mutate
mark_in_progress fault root sha = mutate fault root sha (λ e. record e { state = in_progress })

unfoldable pub mark_failed : Io → Text → Text → Text → Method (Unit {0})
unfolding mutate
mark_failed fault root sha reason =
    mutate fault root sha (λ e. record e { state = failed reason; indexed_at_unix = none })

abbrev pub is_ready : CommitEntry → Bool
is_ready e = elim e.state [ ready ↦ true | _ ↦ false ]

-- The entries that pass a test, with their keys and times.
abbrev pub keyed : (CommitEntry → Bool) → Map Text CommitEntry → List (Text × ℕ)
keyed p [] = []
keyed p ((sha, e) ∷ m) =
    let rest = keyed p m in if p e then (sha, e.enqueued_at_unix) ∷ rest else rest

-- `sort_by_key(|(_, ts)| Reverse(*ts))`
abbrev pub older : Text × ℕ → Text × ℕ → Bool
older p q = ltb p.1 q.1

abbrev pub optional : Option Text → List Text
optional none = []
optional (some p) = p ∷ []

abbrev pub freed : Option CommitEntry → List Text → List Text
freed none paths = paths
freed (some e) paths = optional e.index_path ++ paths

-- The loop over the commits to evict, with the paths that it pushes.
unfoldable pub evict : List (Text × ℕ) → Map Text CommitEntry → Map Text CommitEntry × List Text
evict [] m = (m, [])
evict (p ∷ ps) m = let (m', paths) = evict ps (remove p.0 m) in (m', freed (get p.0 m) paths)

abbrev pub made_ready : Text → ℕ → CommitEntry → CommitEntry
made_ready path now e = record e {
  state = ready;
  indexed_at_unix = some now;
  index_path = some path;
}

-- What `mark_ready_at` does to the commits of one repository.
unfoldable pub retain :
    ℕ → Text → Text → ℕ → Map Text CommitEntry → Map Text CommitEntry × List Text
unfolding evict
retain keep sha path now m =
    let marked = modify sha (made_ready path now) m in
    evict (drop keep (sort_by older (keyed is_ready marked))) marked

unfoldable pub mark_ready_at : Io → Text → Text → Text → ℕ → Method (List Text)
unfolding retain flushed
mark_ready_at fault root sha path now s = elim (get (repo_key root) s.repos) [
  | none ↦ flushed fault s.pending_unlink (record s { pending_unlink = [] })
  | some repo ↦
      let (commits, evicted) = retain s.retention_ready sha path now repo.commits in
      flushed fault s.pending_unlink (record s {
        repos = modify (repo_key root) (on_commits (λ m. commits)) s.repos;
        pending_unlink = evicted;
      })
]

abbrev pub or_else : Option Text → Option Text → Option Text
or_else (some a) b = some a
or_else none b = b

module _ (root : Text) (s : Store) where
  unfoldable pub status : Option Text → Option CommitInfo
  status target = elim (get (repo_key root) s.repos) [
    | none ↦ none
    | some repo ↦ elim (or_else target repo.last_sha) [
      | none ↦ none
      | some sha ↦ Option.map (λ e. to_info e sha) (get sha repo.commits)
    ]
  ]

  unfoldable pub last_known : Option CommitInfo
  last_known = elim (get (repo_key root) s.repos) [
    | none ↦ none
    | some repo ↦ elim repo.last_sha [
      | none ↦ none
      | some sha ↦ Option.map (λ e. to_info e sha) (get sha repo.commits)
    ]
  ]

abbrev pub indexed_or_zero : CommitEntry → ℕ
indexed_or_zero e = elim e.indexed_at_unix [ none ↦ 0 | some t ↦ t ]

-- `max_by_key`: of several maximal elements the last one.
-- The later of two candidates, the second on a tie.
abbrev pub later : Text × CommitEntry → Option (Text × CommitEntry) → Option (Text × CommitEntry)
later p none = some p
later p (some q) = if ltb (indexed_or_zero q.1) (indexed_or_zero p.1) then some p else some q

unfoldable pub latest : Map Text CommitEntry → Option (Text × CommitEntry)
latest [] = none
latest ((sha, e) ∷ m) = let rest = latest m in if is_ready e then later (sha, e) rest else rest

unfoldable pub last_ready : Text → Store → Option CommitInfo
unfolding latest
last_ready root s = elim (get (repo_key root) s.repos) [
  | none ↦ none
  | some repo ↦ Option.map (λ p. to_info p.1 p.0) (latest repo.commits)
]
