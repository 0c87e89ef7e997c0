-- ===== src/Indexer/Queue/Runs.antt =====
-- Runs of the indexer: the stretches of calls of enqueue, of the resume task and of the worker, in any
-- order.
use aide_mcp.Base.{text_equal, ◌∷◌, ℕ, Text, ◌≡◌, refl, subst}
use aide_mcp.Base.Result.{Result, ok, err}
use aide_mcp.Indexer.Recovery.{Job}
use aide_mcp.Indexer.Store.{Store, enqueue_at, enqueue_commit, or_default}
use aide_mcp.Base.Map.{get}
use aide_mcp.Indexer.Queue.{
  Indexer, TrySendError, call_of, dispatched, enqueue_inner, finish_job, mark_job, resume_one,
  send_job, store_commit, submit, take_job, try_send, undo_call,
}
use aide_mcp.Indexer.Queue.Calls.{send_job-NoGhosts, store_commit-NoGhosts, undo_call-NoGhosts}
use aide_mcp.Indexer.Queue.Ghosts.{NoGhosts}
use aide_mcp.Indexer.Queue.Steps.{mark_job-NoGhosts, resume_one-NoGhosts, take_job-NoGhosts}
use aide_mcp.Indexer.Queue.Work.{finish_job-NoGhosts}
use aide_mcp.Indexer.State.{
  done, EnqueueOutcome, needs_indexing, already_queued, already_ready, repo_key,
}

-- What the tasks of a server do, in any order, while every flush succeeds. A call of enqueue stores its
-- commit, sends its job, and undoes the commit if the job was refused; other steps may come between.
pub data Step : Indexer → Indexer → Type 0 where
  stores : (root sha : Text) (now : ℕ) (ix : Indexer) → Step ix (store_commit done root sha now ix)
  sends : (n : ℕ) (ix : Indexer) → Step ix (send_job n ix)
  undoes : (n : ℕ) (ix : Indexer) → Step ix (undo_call done n ix)
  resumes : (ix : Indexer) → Step ix (resume_one ix)
  takes : (ix : Indexer) → Step ix (take_job ix)
  marks : (ix : Indexer) → Step ix (mark_job done ix)
  finishes :
      (path : Text) (built : Result Text (Unit {0})) (now : ℕ) (ix : Indexer)
      → Step ix (finish_job done path built now ix)

pub data Run (ix : Indexer) : Indexer → Type 0 where
  here : Run ix ix
  next : {a b : Indexer} → Run ix a → Step a b → Run ix b

Step-NoGhosts : {a b : Indexer} → Step a b → NoGhosts a → NoGhosts b
Step-NoGhosts (stores root sha now ix) g = store_commit-NoGhosts root sha now ix g
Step-NoGhosts (sends n ix) g = send_job-NoGhosts n ix g
Step-NoGhosts (undoes n ix) g = undo_call-NoGhosts n ix g
Step-NoGhosts (resumes ix) g = resume_one-NoGhosts ix g
Step-NoGhosts (takes ix) g = take_job-NoGhosts ix g
Step-NoGhosts (marks ix) g = mark_job-NoGhosts ix g
Step-NoGhosts (finishes path built now ix) g = finish_job-NoGhosts path built now ix g

-- From a state with no ghosts, whatever the order of the stretches, if their flushes succeed: every
-- pending commit has a job with a call of enqueue that is under way, in the channel, with the resume task
-- or with the worker, and every commit in progress has one there or is being built.
pub Run-NoGhosts : {a b : Indexer} → NoGhosts a → Run a b → NoGhosts b
Run-NoGhosts g here = g
Run-NoGhosts g (next r st) = Step-NoGhosts st (Run-NoGhosts g r)

-- A call whose commit is stored, up to its end.
dispatched-Run :
    (root sha : Text) (o : EnqueueOutcome) (ix : Indexer) (s : Store)
    → Run ix (record ix {
      store = s;
      sending = call_of o (record { repo_root = root; sha = sha }) ix.sending;
    })
    → Run ix (dispatched done root sha o (record ix { store = s })).1
unfolding submit send_job undo_call
dispatched-Run root sha already_queued ix s r = r
dispatched-Run root sha already_ready ix s r = r
dispatched-Run root sha needs_indexing ix s r = go (try_send job stored) refl
  where
    job : Job
    job = record { repo_root = root; sha = sha }

    stored : Indexer
    stored = record ix { store = s }

    called : Indexer
    called = record ix { store = s; sending = job ∷ ix.sending }

    go :
        (t : Result TrySendError Indexer)
        → try_send job stored ≡ t
        → Run ix (submit done root sha stored).1
    go (ok sent) e =
        let after : send_job 0 called ≡ sent = rw (e, send_job) refl in
        rw (e, submit) (subst (Run ix) after (next r (sends 0 called)))
    go (err why) e =
        let refused : Indexer = record stored { refused = (job, why) ∷ ix.refused } in
        let after : send_job 0 called ≡ refused = rw (e, send_job) refl in
        rw (e, submit) (next (subst (Run ix) after (next r (sends 0 called))) (undoes 0 refused))

-- A call of `enqueue_inner` with nothing between its stretches is a run of these.
enqueue_inner-Run :
    (root sha : Text) (now : ℕ) (ix : Indexer) → Run ix (enqueue_inner done done root sha now ix).1
unfolding enqueue_inner enqueue_at store_commit
enqueue_inner-Run root sha now ix =
    dispatched-Run root sha
      (enqueue_commit sha now (or_default (get (repo_key root) ix.store.repos)).commits).0 ix
      (enqueue_at done root sha now ix.store).1 (next here (stores root sha now ix))
