-- ===== src/Indexer/Tests.antt =====
-- The theorems on the indexer at concrete states.
use mathlib.Core.Bool.{false≢true}
use aide_mcp.Indexer.State.{repo_key}
use aide_mcp.Indexer.Store.{mark_in_progress, evict, flushed}
use aide_mcp.Base.{
  text_equal, [], ◌∷◌, none, some, true, false, ℕ, ◌≡◌, arith, refl, inl, inr, List, Text, ◌≤◌, ◌⊎◌,
  codes, Bool-cases, text_same, length, subst, text_same_iff, In,
}
use aide_mcp.Indexer.State.{
  CommitEntry, RepoState, ready, done, write_fails, in_progress, already_queued,
}
use aide_mcp.Base.Map.{Map, get}
use aide_mcp.Indexer.Store.{Store, mark_ready_at, new_entry, retain, made_ready}
use aide_mcp.Indexer.Store.Invariant.{IsTidy, IsValid}
use aide_mcp.Indexer.Store.Evict.{ready_count, retain_bound}
use aide_mcp.Indexer.Store.Unlink.{Tracked, mark_ready_conserves}
use aide_mcp.Indexer.Queue.Start.{IsCanonical, idle-all_done, recover-NoGhosts, failed_flush_ghost}
use aide_mcp.Indexer.Queue.Ghosts.{NoGhosts}
use aide_mcp.Indexer.Queue.{
  start, Indexer, enqueue_inner, take_job, recover, store_commit, send_job, resume_one, mark_job,
  finish_job,
}
use aide_mcp.Indexer.Recovery.{unfinished, take_recoverable_jobs, At, HasFailed, recovery_complete}
use aide_mcp.Indexer.Store.Newest.{retain_newest}
use aide_mcp.Base.Result.{ok}
use aide_mcp.Indexer.Queue.Runs.{
  Run, Run-NoGhosts, here, next, stores, sends, resumes, takes, marks, finishes,
}

abbrev root : Text
root = codes "/r"

abbrev key : Text
key = codes "/r/"

abbrev sha_a : Text
sha_a = codes "a"

abbrev sha_b : Text
sha_b = codes "b"

abbrev path_a : Text
path_a = codes "a.scip"

abbrev path_b : Text
path_b = codes "b.scip"

abbrev ready_entry : ℕ → Text → CommitEntry
ready_entry t path = record {
  state = ready;
  enqueued_at_unix = t;
  indexed_at_unix = some t;
  index_path = some path;
}

-- One commit is ready, the next one is being indexed.
abbrev two_commits : Map Text CommitEntry
two_commits =
    (sha_a, ready_entry 1 path_a) ∷ (sha_b, record (new_entry 2) { state = in_progress }) ∷ []

abbrev repo_with : Map Text CommitEntry → RepoState
repo_with m = record { last_sha = some sha_b; commits = m }

abbrev store_with : List Text → Map Text CommitEntry → Store
store_with stash m = record {
  repos = (key, repo_with m) ∷ [];
  pending_unlink = stash;
  disk = record { file = none; tmp = none };
  retention_ready = 1;
}

abbrev two : Store
two = store_with [] two_commits

only_repo :
    (P : RepoState → Type 0) (stash : List Text) (m : Map Text CommitEntry)
    → P (repo_with m)
    → (k : Text) (r : RepoState) → get k (store_with stash m).repos ≡ some r
    → P r
only_repo P stash m p k r h = elim (Bool-cases (text_same key k)) [
  | inl hit ↦ let same : repo_with m ≡ r = cc (rw hit at h) in subst P same p
  | inr miss ↦ absurd (cc (rw miss at h))
]

two-IsTidy : IsTidy 1 two_commits
two-IsTidy = record { distinct = (refl, (refl, tt)); bounded = omega arith }

two-IsValid : IsValid two
two-IsValid = record {
  tidy = only_repo (λ (r : RepoState). IsTidy 1 r.commits) [] two_commits two-IsTidy;
}

retain_bound_example : ready_count (retain 1 sha_b path_b 3 two_commits).0 ≤ 1
retain_bound_example = retain_bound 1 sha_b path_b 3 two_commits

retain_newest_example : 1 ≤ 2
unfolding retain evict
retain_newest_example =
    retain_newest 1 sha_b path_b 3 two_commits sha_a sha_b (ready_entry 1 path_a)
      (record (ready_entry 2 path_b) { indexed_at_unix = some 3 }) (refl, (refl, tt)) refl gone kept
      refl
  where
    gone : get sha_a (retain 1 sha_b path_b 3 two_commits).0 ≡ none
    gone = refl

    kept :
        get sha_b (retain 1 sha_b path_b 3 two_commits).0
        ≡ some (record (ready_entry 2 path_b) { indexed_at_unix = some 3 })
    kept = refl

mark_ready_conserves_example :
    Tracked key sha_a path_a (mark_ready_at done root sha_b path_b 3 two).1
    ⊎ In path_a (mark_ready_at done root sha_b path_b 3 two).1.pending_unlink
unfolding repo_key
mark_ready_conserves_example =
    mark_ready_conserves done root sha_b path_b 3 two key sha_a path_a
      (inr (λ e. false≢true ((text_same_iff sha_a sha_b).1 e)))
      (repo_with two_commits, refl, ready_entry 1 path_a, refl, refl)

-- The index of the first commit is evicted and stashed.
abbrev evicted : Store
evicted = (mark_ready_at done root sha_b path_b 3 two).1

recovery_complete_example :
    (length (take_recoverable_jobs done 64 two).0 ≤ 64)
    × ((k sha : Text)
        → At k sha (λ e. unfinished e ≡ true) two.repos
        → In (record { repo_root = k; sha = sha }) (take_recoverable_jobs done 64 two).0
          ⊎ At k sha HasFailed (take_recoverable_jobs done 64 two).1.repos)
recovery_complete_example = recovery_complete done 64 two

two-IsCanonical : IsCanonical two
unfolding repo_key
two-IsCanonical = record {
  keys = λ k r h. elim (Bool-cases (text_same key k)) [
    | inl hit ↦ rw (← (text_same_iff key k).0 hit) refl
    | inr miss ↦ absurd (cc (rw miss at h))
  ];
}

recover-NoGhosts_example : NoGhosts (recover write_fails (start two []))
unfolding start
recover-NoGhosts_example = recover-NoGhosts write_fails (start two []) refl two-IsCanonical

abbrev recovered : Indexer
recovered = recover write_fails (start two [])

-- A call stores its commit, the worker takes nothing yet, the call sends its job, the worker takes it.
abbrev stored : Indexer
stored = store_commit done root (codes "c") 5 recovered

abbrev sent : Indexer
sent = send_job 0 (take_job stored)

abbrev received : Indexer
received = take_job sent

received-Run : Run recovered received
received-Run =
    next
      (next (next (next here (stores root (codes "c") 5 recovered)) (takes stored))
        (sends 0 (take_job stored)))
      (takes sent)

Run-NoGhosts_example : NoGhosts received
Run-NoGhosts_example =
    Run-NoGhosts {a = recovered} {b = received} recover-NoGhosts_example received-Run

-- One commit that is waited for is in the state file; its job is sent, taken, marked and finished.
abbrev one_pending : Store
one_pending = store_with [] ((sha_a, new_entry 1) ∷ [])

one_pending-IsCanonical : IsCanonical one_pending
unfolding repo_key
one_pending-IsCanonical = record {
  keys = λ k r h. elim (Bool-cases (text_same key k)) [
    | inl hit ↦ rw (← (text_same_iff key k).0 hit) refl
    | inr miss ↦ absurd (cc (rw miss at h))
  ];
}

abbrev resumed : Indexer
resumed = recover done (start one_pending [])

abbrev taken : Indexer
taken = take_job (resume_one resumed)

abbrev ended : Indexer
ended = finish_job done path_a (ok tt) 3 (mark_job done taken)

ended-Run : Run resumed ended
ended-Run =
    next (next (next (next here (resumes resumed)) (takes (resume_one resumed))) (marks taken))
      (finishes path_a (ok tt) 3 (mark_job done taken))

idle-all_done_example :
    unfinished (made_ready path_a 3 (record (new_entry 1) { state = in_progress })) ≡ false
unfolding start recover take_recoverable_jobs flushed repo_key resume_one take_job mark_job
    finish_job mark_in_progress mark_ready_at
idle-all_done_example =
    idle-all_done resumed ended key sha_a
      (made_ready path_a 3 (record (new_entry 1) { state = in_progress }))
      (recover-NoGhosts done (start one_pending []) refl one_pending-IsCanonical) ended-Run refl
      refl refl refl refl
      (
        repo_with
            ((sha_a, made_ready path_a 3 (record (new_entry 1) { state = in_progress })) ∷ []),
        refl,
        refl,
      )

abbrev empty : Indexer
empty = start (record two { repos = [] }) []

failed_flush_ghost_example :
    ((enqueue_inner write_fails done root sha_a 1 empty).1.channel ≡ empty.channel)
    × ((enqueue_inner done done root sha_a 2
          (enqueue_inner write_fails done root sha_a 1 empty).1).0
        ≡ ok already_queued)
    × ((enqueue_inner done done root sha_a 2
          (enqueue_inner write_fails done root sha_a 1 empty).1).1.channel
        ≡ empty.channel)
unfolding start take_recoverable_jobs flushed repo_key
failed_flush_ghost_example =
    failed_flush_ghost write_fails root sha_a 1 2 empty (λ e. absurd (cc e)) refl
