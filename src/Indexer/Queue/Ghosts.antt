-- ===== src/Indexer/Queue/Ghosts.antt =====
-- The queue loses no commit: what waits to be indexed has a job on its way, and what is being indexed is
-- the worker's job or has one on its way, while every flush succeeds and the worker lives.
use aide_mcp.Base.{
  text_equal, [], ◌∷◌, false, ◌≡◌, inl, inr, List, Text, ◌⊎◌, map, sym, ap, In, ◌∙◌, subst,
}
use aide_mcp.Indexer.Recovery.{Job}
use aide_mcp.Indexer.Queue.{Indexer, TrySendError, Worker, free, marking, building}
use aide_mcp.Indexer.State.{IndexState, CommitEntry, repo_key, pending, failed, in_progress, ready}
use aide_mcp.Indexer.Store.{Store}
use aide_mcp.Indexer.Queue.Sources.{Entry, Other, not_other}

-- The job that the worker has not marked, and the job that it builds.
abbrev pub to_mark : Worker → List Job
to_mark free = []
to_mark (marking j) = j ∷ []
to_mark (building j) = []

abbrev pub in_work : Worker → List Job
in_work free = []
in_work (marking j) = []
in_work (building j) = j ∷ []

abbrev pub jobs_of : List (Job × TrySendError) → List Job
jobs_of = map (λ (p : Job × TrySendError). p.0)

-- A call of enqueue, the resume task, the channel or the worker has the job.
abbrev pub IsWaiting : Job → Indexer → Type 0
IsWaiting j ix =
    In j (to_mark ix.worker)
    ⊎ (In j ix.channel ⊎ (In j ix.resume ⊎ (In j ix.sending ⊎ In j (jobs_of ix.refused))))

abbrev pub IsFor : Text → Text → Job → Type 0
IsFor key sha j = (repo_key j.repo_root ≡ key) × (j.sha ≡ sha)

abbrev pub Waits : Text → Text → Indexer → IndexState → Type 0
Waits key sha ix pending = (j : Job) × IsWaiting j ix × IsFor key sha j
Waits key sha ix in_progress =
    (j : Job) × (In j (in_work ix.worker) ⊎ IsWaiting j ix) × IsFor key sha j
Waits key sha ix ready = Unit
Waits key sha ix (failed reason) = Unit

pub record NoGhosts (ix : Indexer) : Type 0 where
  pub is_open : ix.closed ≡ false
  pub waits :
      (key sha : Text) (e : CommitEntry) → Entry key sha e ix.store.repos → Waits key sha ix e.state

-- What has a job for the commit in one state has it in the other.
pub Waits-mono :
    (key sha : Text) (a b : Indexer) (s : IndexState)
    → ((j : Job) → IsFor key sha j → IsWaiting j a → IsWaiting j b)
    → ((j : Job)
        → IsFor key sha j
        → In j (in_work a.worker)
        → In j (in_work b.worker) ⊎ IsWaiting j b)
    → Waits key sha a s
    → Waits key sha b s
Waits-mono key sha a b pending c d (j, h, f) = (j, c j f h, f)
Waits-mono key sha a b in_progress c d (j, inr h, f) = (j, inr (c j f h), f)
Waits-mono key sha a b in_progress c d (j, inl h, f) = (j, d j f h, f)
Waits-mono key sha a b ready c d w = tt
Waits-mono key sha a b (failed reason) c d w = tt

-- A step that leaves the store and moves jobs.
pub moved-NoGhosts :
    (a b : Indexer)
    → b.store ≡ a.store
    → b.closed ≡ a.closed
    → ((j : Job) → IsWaiting j a → IsWaiting j b)
    → ((j : Job) → In j (in_work a.worker) → In j (in_work b.worker) ⊎ IsWaiting j b)
    → NoGhosts a
    → NoGhosts b
moved-NoGhosts a b same alive c d g = record {
  is_open = alive ∙ g.is_open;
  waits = λ key sha e there.
      Waits-mono key sha a b e.state (λ j f. c j) (λ j f. d j)
        (g.waits key sha e (subst (λ (s : Store). Entry key sha e s.repos) same there));
}

-- A job for another commit is not this one.
pub elsewhere :
    {A : Type 0} (key sha : Text) (job j : Job)
    → Other (repo_key job.repo_root) job.sha key sha
    → IsFor key sha j
    → j ≡ job
    → A
elsewhere key sha job j apart (p, q) e = absurd (
    not_other (repo_key job.repo_root) job.sha key sha
      (ap (λ (x : Job). repo_key x.repo_root) (sym e) ∙ p) (ap (λ (x : Job). x.sha) (sym e) ∙ q)
      apart)

-- Where a job waits, case by case.
pub places :
    {A : Type 0} (j : Job) (ix : Indexer)
    → (In j (to_mark ix.worker) → A)
    → (In j ix.channel → A)
    → (In j ix.resume → A)
    → (In j ix.sending → A)
    → (In j (jobs_of ix.refused) → A)
    → IsWaiting j ix
    → A
places j ix a b c d e (inl h) = a h
places j ix a b c d e (inr (inl h)) = b h
places j ix a b c d e (inr (inr (inl h))) = c h
places j ix a b c d e (inr (inr (inr (inl h)))) = d h
places j ix a b c d e (inr (inr (inr (inr h)))) = e h
