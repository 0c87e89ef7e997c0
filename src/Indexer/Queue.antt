-- ===== src/Indexer/Queue.antt =====
-- `Indexer` of indexer/mod.rs and the worker of indexer/worker.rs. The tasks share the store and the
-- channel. A task is a sequence of stretches, between which others may run: `enqueue_inner` stores the
-- commit, sends the job, and marks the commit as failed where the job is refused; the worker takes a job,
-- marks it, and finishes it. What stands between two stretches is part of the state.
pub mod Calls
pub mod Work
pub mod Sources
pub mod Ghosts
pub mod Steps
pub mod Runs
pub mod Start
use aide_mcp.Base.{
  text_equal, [], ◌∷◌, none, some, false, ℕ, suc, zero, if◌then◌else◌, ◌++◌, List, Option, Bool,
  Text, codes, text_same, leb, select, length, not,
}
use aide_mcp.Base.Result.{Result, ok, err}
use aide_mcp.Indexer.Store.{Store, mark_in_progress, mark_ready_at, enqueue_at, status, mark_failed}
use aide_mcp.Indexer.State.{
  StateError, Io, EnqueueOutcome, CommitInfo, needs_indexing, already_queued, already_ready,
}
use aide_mcp.Indexer.Recovery.{Job, take_recoverable_jobs}

pub data TrySendError : Type 0 where
  full is_closed : TrySendError

-- The worker waits for a job, has taken one that it has not marked, or builds one.
pub data Worker : Type 0 where
  free : Worker
  marking building : Job → Worker

pub record Indexer : Type 0 where
  pub store : Store
  pub channel : List Job
  pub closed : Bool
  pub worker : Worker
  -- the calls of `enqueue_inner` that have stored their commit and not sent its job
  pub sending : List Job
  -- the calls whose job was refused, and that have not marked its commit as failed
  pub refused : List (Job × TrySendError)
  -- the jobs that the resume task of `start` still has to send
  pub resume : List Job
  -- the index files on disk
  pub files : List Text

abbrev pub queue_cap : ℕ
queue_cap = 64

pub data Failure : Type 0 where
  state_error : StateError → Failure
  not_sent : TrySendError → Failure
  missing : Failure

-- `mpsc::Sender::try_send` on a channel with room for `queue_cap` messages.
unfoldable pub try_send : Job → Indexer → Result TrySendError Indexer
try_send job ix =
    if ix.closed
    then err is_closed
    else if leb queue_cap (length ix.channel)
    then err full
    else ok (record ix { channel = ix.channel ++ job ∷ [] })

abbrev pub reason_of : TrySendError → Text
reason_of full = codes "indexer queue full (64 jobs waiting) — retry later"
reason_of is_closed = codes "indexer worker channel closed"

abbrev pub call_of : EnqueueOutcome → Job → List Job → List Job
call_of needs_indexing job calls = job ∷ calls
call_of already_queued job calls = calls
call_of already_ready job calls = calls

abbrev pub calls_after : Result StateError EnqueueOutcome → Job → List Job → List Job
calls_after (err e) job calls = calls
calls_after (ok o) job calls = call_of o job calls

-- The first stretch of a call.
unfoldable pub store_commit : Io → Text → Text → ℕ → Indexer → Indexer
store_commit fault root sha now ix =
    let (r, s) = enqueue_at fault root sha now ix.store in
    record ix {
      store = s;
      sending = calls_after r (record { repo_root = root; sha = sha }) ix.sending;
    }

-- An element, and the others.
abbrev pub split_off {ℓ} : {A : Type ℓ} → A → Option (A × List A) → Option (A × List A)
split_off x none = none
split_off x (some (y, rest)) = some (y, x ∷ rest)

abbrev pub pick {ℓ} : {A : Type ℓ} → ℕ → List A → Option (A × List A)
pick n [] = none
pick zero (x ∷ xs) = some (x, xs)
pick (suc n) (x ∷ xs) = split_off x (pick n xs)

abbrev pub sent_or_refused : Job → Indexer → Result TrySendError Indexer → Indexer
sent_or_refused job ix (ok ix') = ix'
sent_or_refused job ix (err e) = record ix { refused = (job, e) ∷ ix.refused }

abbrev pub send_picked : Indexer → Option (Job × List Job) → Indexer
send_picked ix none = ix
send_picked ix (some (job, rest)) =
    let others = record ix { sending = rest } in sent_or_refused job others (try_send job others)

-- The second stretch, of one of the calls.
unfoldable pub send_job : ℕ → Indexer → Indexer
unfolding try_send
send_job n ix = send_picked ix (pick n ix.sending)

abbrev pub undo_picked :
    Io → Indexer → Option ((Job × TrySendError) × List (Job × TrySendError)) → Indexer
undo_picked fault ix none = ix
undo_picked fault ix (some ((job, e), rest)) = record ix {
  store = (mark_failed fault job.repo_root job.sha (reason_of e) ix.store).1;
  refused = rest;
}

-- The third stretch, of one of the calls whose job was refused.
unfoldable pub undo_call : Io → ℕ → Indexer → Indexer
undo_call fault n ix = undo_picked fault ix (pick n ix.refused)

-- The second and the third stretch of a call, with nothing between them, and its result.
unfoldable pub submit : Io → Text → Text → Indexer → Result Failure EnqueueOutcome × Indexer
unfolding try_send
submit fault root sha ix = elim (try_send (record { repo_root = root; sha = sha }) ix) [
  | ok ix' ↦ (ok needs_indexing, ix')
  | err e ↦
      let (r, s) = mark_failed fault root sha (reason_of e) ix.store in
      (elim r [ ok u ↦ err (not_sent e) | err x ↦ err (state_error x) ], record ix { store = s })
]

abbrev pub dispatched :
    Io → Text → Text → EnqueueOutcome → Indexer → Result Failure EnqueueOutcome × Indexer
dispatched fault root sha needs_indexing ix = submit fault root sha ix
dispatched fault root sha already_queued ix = (ok already_queued, ix)
dispatched fault root sha already_ready ix = (ok already_ready, ix)

-- A call with nothing between its stretches. The two flushes are that of `enqueue` and that of `mark_failed`.
unfoldable pub enqueue_inner :
    Io → Io → Text → Text → ℕ → Indexer → Result Failure EnqueueOutcome × Indexer
enqueue_inner fault fault' root sha now ix =
    let (r, s) = enqueue_at fault root sha now ix.store in
    let next = record ix { store = s } in
    elim r [ err e ↦ (err (state_error e), next) | ok o ↦ dispatched fault' root sha o next ]

unfoldable pub enqueue : Io → Io → Text → Text → ℕ → Indexer → Result Failure CommitInfo × Indexer
enqueue fault fault' root sha now ix =
    let (r, next) = enqueue_inner fault fault' root sha now ix in
    (
      elim r [
        | err e ↦ err e
        | ok o ↦ elim (status root next.store (some sha)) [
          | some info ↦ ok info
          | none ↦ err missing
        ]
      ],
      next,
    )

-- `resolved` is what `resolve_head` finds; errors are swallowed.
unfoldable pub enqueue_head : Io → Io → Option (Text × Text) → ℕ → Indexer → Indexer
enqueue_head fault fault' resolved now ix = elim resolved [
  | none ↦ ix
  | some (root, sha) ↦ (enqueue_inner fault fault' root sha now ix).1
]

-- `Indexer::start` on a loaded store: the worker and the resume task are spawned, and have not run.
unfoldable pub start : Store → List Text → Indexer
start s files = record {
  store = s;
  channel = [];
  closed = false;
  worker = free;
  sending = [];
  refused = [];
  resume = [];
  files = files;
}

-- The resume task begins. By then calls of `enqueue` and the worker may have run.
unfoldable pub recover : Io → Indexer → Indexer
recover fault ix =
    let (jobs, s) = take_recoverable_jobs fault queue_cap ix.store in
    record ix { store = s; resume = jobs }

-- A round of the resume task: `send` waits for room in the channel.
unfoldable pub resume_one : Indexer → Indexer
resume_one ix = elim ix.resume [
  | [] ↦ ix
  | job ∷ rest ↦
      if ix.closed
      then record ix { resume = rest }
      else if leb queue_cap (length ix.channel)
      then ix
      else record ix { resume = rest; channel = ix.channel ++ job ∷ [] }
]

abbrev pub received : Indexer → Worker → List Job → Indexer
received ix free (job ∷ rest) = record ix { channel = rest; worker = marking job }
received ix free [] = ix
received ix (marking job) jobs = ix
received ix (building job) jobs = ix

-- The worker, when it is free, takes a job.
unfoldable pub take_job : Indexer → Indexer
take_job ix = received ix ix.worker ix.channel

abbrev pub worker_after : Job → Result StateError (Unit {0}) → Worker
worker_after job (ok u) = building job
worker_after job (err e) = free

abbrev pub marked : Io → Indexer → Worker → Indexer
marked fault ix (marking job) =
    let (r, s) = mark_in_progress fault job.repo_root job.sha ix.store in
    record ix { store = s; worker = worker_after job r }
marked fault ix free = ix
marked fault ix (building job) = ix

-- The worker marks its job; it gives the job up if the mark cannot be flushed.
unfoldable pub mark_job : Io → Indexer → Indexer
mark_job fault ix = marked fault ix ix.worker

abbrev pub delete_all : List Text → List Text → List Text
delete_all [] files = files
delete_all (p ∷ ps) files = delete_all ps (select (λ q. not (text_same q p)) files)

abbrev pub files_after : Result StateError (List Text) → List Text → List Text
files_after (ok old) files = delete_all old files
files_after (err e) files = files

abbrev pub finished : Io → Text → Result Text (Unit {0}) → ℕ → Indexer → Worker → Indexer
finished fault path built now ix free = ix
finished fault path built now ix (marking job) = ix
finished fault path (ok u) now ix (building job) =
    let (r, s) = mark_ready_at fault job.repo_root job.sha path now ix.store in
    record ix { store = s; worker = free; files = files_after r (path ∷ ix.files) }
finished fault path (err reason) now ix (building job) = record ix {
  store = (mark_failed fault job.repo_root job.sha reason ix.store).1;
  worker = free;
}

-- The worker's job is built: `built` tells how, and `path` is its `index_file_path`.
unfoldable pub finish_job : Io → Text → Result Text (Unit {0}) → ℕ → Indexer → Indexer
finish_job fault path built now ix = finished fault path built now ix ix.worker
