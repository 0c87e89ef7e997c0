-- ===== src/Indexer/Queue/Work.antt =====
-- The end of the worker's job keeps the queue free of ghosts.
use aide_mcp.Base.{text_equal, ◌∷◌, ◌≡◌, inl, inr, List, Text, sym, ℕ, subst, refl, none, ◌⊎◌, In}
use aide_mcp.Base.Result.{Result, ok, err}
use aide_mcp.Indexer.Recovery.{Job}
use aide_mcp.Indexer.Queue.{
  Indexer, Worker, building, finish_job, finished, free, marking, files_after,
}
use aide_mcp.Indexer.Queue.Ghosts.{NoGhosts, Waits, Waits-mono, elsewhere, in_work, places, to_mark}
use aide_mcp.Indexer.Queue.Sources.{Entry, Other, modify_entry, ready_entry}
use aide_mcp.Indexer.State.{CommitEntry, IndexState, done, failed, repo_key}
use aide_mcp.Indexer.Store.{Store, mark_failed, mark_ready_at, mutate}

-- The worker without its job, over a store in which the commit of the job is done.
idled-NoGhosts :
    (job : Job) (s : Store) (files : List Text) (ix : Indexer)
    → ix.worker ≡ building job
    → ((key k : Text) (e : CommitEntry)
        → Entry key k e s.repos
        → ((IndexState.ready ≡ e.state) ⊎ ((r : Text) × (failed r ≡ e.state)))
          ⊎ (Other (repo_key job.repo_root) job.sha key k × Entry key k e ix.store.repos))
    → NoGhosts ix
    → NoGhosts (record ix { store = s; worker = free; files = files })
idled-NoGhosts job s files ix busy source g = record {
  is_open = g.is_open;
  waits = λ key k e there. elim (source key k e there) [
    | inl (inl fine) ↦ subst (Waits key k after) fine tt
    | inl (inr (r, bad)) ↦ subst (Waits key k after) bad tt
    | inr (apart, old) ↦
        Waits-mono key k ix after e.state
          (λ j f.
            places j ix (λ h. absurd (subst (λ w. In j (to_mark w)) busy h)) (λ h. inr (inl h))
              (λ h. inr (inr (inl h))) (λ h. inr (inr (inr (inl h))))
              (λ h. inr (inr (inr (inr h)))))
          (λ j f h. elim (subst (λ w. In j (in_work w)) busy h) [
            | inl same ↦ elsewhere key k job j apart f same
            | inr none_there ↦ absurd none_there
          ])
          (g.waits key k e old)
  ];
}
  where
    after : Indexer
    after = record ix { store = s; worker = free; files = files }

finished-NoGhosts :
    (path : Text) (built : Result Text (Unit {0})) (now : ℕ) (ix : Indexer) (w : Worker)
    → ix.worker ≡ w
    → NoGhosts ix
    → NoGhosts (finished done path built now ix w)
unfolding mark_failed mutate
finished-NoGhosts path built now ix free a g = g
finished-NoGhosts path built now ix (marking job) a g = g
finished-NoGhosts path (ok u) now ix (building job) a g =
    let (r, s) = mark_ready_at done job.repo_root job.sha path now ix.store in
    idled-NoGhosts job s (files_after r (path ∷ ix.files)) ix a
      (λ key k e there.
        elim (ready_entry done job.repo_root job.sha path now ix.store key k e there) [
          | inl (p, q, fine) ↦ inl (inl (sym fine))
          | inr old ↦ inr old
        ])
      g
finished-NoGhosts path (err reason) now ix (building job) a g =
    idled-NoGhosts job (mark_failed done job.repo_root job.sha reason ix.store).1 ix.files ix a
      (λ key k e there.
        elim (modify_entry (repo_key job.repo_root) job.sha
          (λ x. record x { state = failed reason; indexed_at_unix = none })
          (λ x. x.state ≡ failed reason) (λ x. refl) key k e ix.store.repos there) [
            | inl (p, q, bad) ↦ inl (inr (reason, sym bad))
            | inr old ↦ inr old
          ])
      g

pub finish_job-NoGhosts :
    (path : Text) (built : Result Text (Unit {0})) (now : ℕ) (ix : Indexer)
    → NoGhosts ix
    → NoGhosts (finish_job done path built now ix)
unfolding finish_job
finish_job-NoGhosts path built now ix g = finished-NoGhosts path built now ix ix.worker refl g
