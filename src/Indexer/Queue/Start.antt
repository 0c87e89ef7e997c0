-- ===== src/Indexer/Queue/Start.antt =====
-- The start of the indexer leaves no ghosts, an idle indexer has finished every commit, and what a
-- failing flush does to this.
use mathlib.Core.Bool.{false≢true}
use aide_mcp.Base.{
  text_equal, [], ◌∷◌, none, some, true, false, ℕ, ◌≡◌, refl, inl, inr, List, Text, ◌⊎◌, ap, subst,
  ◌≢◌, sym, ◌∙◌, Option, drop, same_refl, In,
}
use aide_mcp.Indexer.Recovery.{
  Job, unfinished_state, unfinished, repos_of_recovery, recovery_complete, fail_all, HasFailed,
  fail_one, dropped_reason, older_job, all_unfinished,
}
use aide_mcp.Indexer.Store.{Store, enqueue_at, enqueue_commit, new_entry, or_default, outcome_of}
use aide_mcp.Indexer.Queue.{Indexer, free, recover, queue_cap, enqueue_inner, dispatched}
use aide_mcp.Base.Map.{Map, get, get-insert}
use aide_mcp.Indexer.State.{
  RepoState, IndexState, Io, CommitEntry, repo_key, failed, pending, in_progress, ready, done,
  already_queued, create_dir_fails,
}
use aide_mcp.Indexer.Queue.Sources.{Entry, modify_entry}
use aide_mcp.Indexer.Queue.Ghosts.{NoGhosts, Waits, IsWaiting, places, to_mark, in_work, jobs_of}
use aide_mcp.Indexer.Queue.Runs.{Run, Run-NoGhosts}
use aide_mcp.Base.Result.{ok}
use aide_mcp.Base.Sort.{sort_by}

HasFailed-or_old :
    (ps : List (Job × ℕ)) (m : Map Text RepoState) (key sha : Text) (e : CommitEntry)
    → Entry key sha e (fail_all ps m)
    → HasFailed e ⊎ Entry key sha e m
HasFailed-or_old [] m key sha e h = inr h
HasFailed-or_old (p ∷ ps) m key sha e h = elim (HasFailed-or_old ps (fail_one p.0 m) key sha e h) [
  | inl bad ↦ inl bad
  | inr h' ↦
      elim (modify_entry p.0.repo_root p.0.sha (λ x. record x { state = failed dropped_reason })
        HasFailed (λ x. refl) key sha e m h') [
          | inl (a, b, bad) ↦ inl bad
          | inr (apart, old) ↦ inr old
        ]
]

Entry-unique :
    (key sha : Text) (d e : CommitEntry) (m : Map Text RepoState)
    → Entry key sha d m
    → Entry key sha e m
    → d ≡ e
Entry-unique key sha d e m (q, a, b) (r, c, f) =
    let same : q ≡ r = cc (sym a ∙ c) in
    cc (sym b ∙ ap (λ (x : RepoState). get sha x.commits) same ∙ f)

-- The keys of the state file have their trailing slash.
pub record IsCanonical (s : Store) : Type 0 where
  pub keys : (key : Text) (r : RepoState) → get key s.repos ≡ some r → repo_key key ≡ key

started-Waits :
    (ix : Indexer) (key sha : Text) (s : IndexState)
    → (unfinished_state s ≡ true
        → (j : Job) × In j ix.resume × (repo_key j.repo_root ≡ key) × (j.sha ≡ sha))
    → Waits key sha ix s
started-Waits ix key sha pending h = let (j, m, p, q) = h refl in (j, inr (inr (inl m)), (p, q))
started-Waits ix key sha in_progress h =
    let (j, m, p, q) = h refl in (j, inr (inr (inr (inl m))), (p, q))
started-Waits ix key sha ready h = tt
started-Waits ix key sha (failed reason) h = tt

-- However the flush goes, and whatever calls ran before: once the resume task has begun there are no
-- ghosts, if the keys of the state are canonical and the channel is open.
pub recover-NoGhosts :
    (fault : Io) (ix : Indexer)
    → ix.closed ≡ false
    → IsCanonical ix.store
    → NoGhosts (recover fault ix)
unfolding recover
recover-NoGhosts fault ix open_channel c = record {
  is_open = open_channel;
  waits = λ key sha e there. started-Waits (recover fault ix) key sha e.state (λ u.
      let there' = subst (Entry key sha e) (repos_of_recovery fault queue_cap ix.store) there in
      elim (HasFailed-or_old (drop queue_cap (sort_by older_job (all_unfinished ix.store.repos)))
        ix.store.repos key sha e there') [
          | inl bad ↦ absurd (cc (u, ap unfinished_state bad))
          | inr (r, known, g) ↦
              elim ((recovery_complete fault queue_cap ix.store).1 key sha (r, known, e, g, u)) [
                | inl listed ↦
                    (record { repo_root = key; sha = sha }, listed, c.keys key r known, refl)
                | inr (r', known', e', g', bad) ↦ absurd (
                    false≢true (
                      sym (ap unfinished_state bad)
                      ∙ ap (λ (x : CommitEntry). unfinished_state x.state)
                          (Entry-unique key sha e' e _ (r', known', g') there)
                      ∙ u))
              ]
        ]);
}

-- After any run of stretches whose flushes succeed, from a state without ghosts: when no call is under way,
-- nothing is left to send or to take, and the worker has no job, every commit is ready or has failed.
pub idle-all_done :
    (a ix : Indexer) (key sha : Text) (e : CommitEntry)
    → NoGhosts a
    → Run a ix
    → ix.sending ≡ []
    → ix.refused ≡ []
    → ix.channel ≡ []
    → ix.resume ≡ []
    → ix.worker ≡ free
    → Entry key sha e ix.store.repos
    → unfinished e ≡ false
idle-all_done a ix key sha e g r no_call no_refusal no_channel no_resume no_job there =
    done_state e.state ((Run-NoGhosts g r).waits key sha e there)
  where
    nowhere : (j : Job) → IsWaiting j ix → ⊥
    nowhere j =
        places j ix (subst (λ w. In j (to_mark w)) no_job) (subst (In j) no_channel)
          (subst (In j) no_resume) (subst (In j) no_call)
          (subst (λ ps. In j (jobs_of ps)) no_refusal)

    done_state : (s : IndexState) → Waits key sha ix s → unfinished_state s ≡ false
    done_state pending (j, m, f) = absurd (nowhere j m)
    done_state in_progress (j, inr m, f) = absurd (nowhere j m)
    done_state in_progress (j, inl m, f) = absurd (subst (λ w. In j (in_work w)) no_job m)
    done_state ready w = refl
    done_state (failed reason) w = refl

stored_only :
    (fault : Io) (root sha : Text) (now : ℕ) (ix : Indexer)
    → fault ≢ done
    → (enqueue_inner fault done root sha now ix).1
      ≡ record ix { store = (enqueue_at fault root sha now ix.store).1 }
unfolding enqueue_inner enqueue_at
stored_only done root sha now ix bad = absurd (bad refl)
stored_only create_dir_fails root sha now ix bad = refl
stored_only _ root sha now ix bad = refl

-- A commit of an unknown repository is pending after `enqueue`, however its flush goes.
pending_after :
    (fault : Io) (root sha : Text) (now : ℕ) (s : Store)
    → get (repo_key root) s.repos ≡ none
    → Entry (repo_key root) sha (new_entry now) (enqueue_at fault root sha now s).1.repos
unfolding enqueue_at
pending_after fault root sha now s unknown =
    let made = λ (o : Option RepoState).
      let r : RepoState = record {
        last_sha = some sha;
        commits = (enqueue_commit sha now (or_default o).commits).1;
      } in
      r in
    (
      made (get (repo_key root) s.repos),
      get-insert (repo_key root) (repo_key root) (made (get (repo_key root) s.repos)) s.repos
          ∙ rw (same_refl (repo_key root)) refl,
      ap (λ o. get sha (made o).commits) unknown ∙ rw (same_refl sha) refl,
    )

-- A pending commit is not sent again.
not_sent_again :
    (root sha : Text) (now : ℕ) (e : CommitEntry) (ix : Indexer)
    → Entry (repo_key root) sha e ix.store.repos
    → e.state ≡ pending
    → ((enqueue_inner done done root sha now ix).0 ≡ ok already_queued)
      × ((enqueue_inner done done root sha now ix).1.channel ≡ ix.channel)
unfolding enqueue_inner enqueue_at enqueue_commit
not_sent_again root sha now e ix (r, known, g) waiting =
    let outcome : (enqueue_commit sha now
          (or_default (get (repo_key root) ix.store.repos)).commits).0
        ≡ already_queued =
      ap (λ o. (enqueue_commit sha now (or_default o).commits).0) known
      ∙ rw (g, enqueue_commit) (ap outcome_of waiting) in
    (
      ap
          (λ o.
            (dispatched done root sha o
              (record ix { store = (enqueue_at done root sha now ix.store).1 })).0)
          outcome,
      ap
          (λ o.
            (dispatched done root sha o
              (record ix { store = (enqueue_at done root sha now ix.store).1 })).1.channel)
          outcome,
    )

-- A failing flush of `enqueue` makes a ghost, in a repository that is not known yet: no job is sent, and
-- still the next call for the commit, with flushes that succeed, answers that it is queued already and
-- sends no job either.
pub failed_flush_ghost :
    (fault : Io) (root sha : Text) (now later : ℕ) (ix : Indexer)
    → fault ≢ done
    → get (repo_key root) ix.store.repos ≡ none
    → ((enqueue_inner fault done root sha now ix).1.channel ≡ ix.channel)
      × ((enqueue_inner done done root sha later (enqueue_inner fault done root sha now ix).1).0
          ≡ ok already_queued)
      × ((enqueue_inner done done root sha later
            (enqueue_inner fault done root sha now ix).1).1.channel
          ≡ ix.channel)
failed_flush_ghost fault root sha now later ix bad unknown =
    let only = stored_only fault root sha now ix bad in
    let (again, quiet) =
      not_sent_again root sha later (new_entry now)
        (record ix { store = (enqueue_at fault root sha now ix.store).1 })
        (pending_after fault root sha now ix.store unknown) refl in
    (ap (λ (x : Indexer). x.channel) only, rw only again, rw only quiet)
