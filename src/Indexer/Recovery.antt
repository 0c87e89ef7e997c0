-- ===== src/Indexer/Recovery.antt =====
-- `Store::take_recoverable_jobs` of indexer/state.rs: the jobs that a start of the server retries.
use aide_mcp.Base.{
  text_equal, [], ◌∷◌, some, true, false, suc, ℕ, ◌≡◌, refl, ◌++◌, inl, inr, List, Bool, Text,
  codes, ap, ◌∙◌, Bool-cases, text_same, map, ltb, length, In, subst, drop, same_refl, take, arith,
  ◌≤◌, ◌⊎◌, sym, text_same_iff, length-take, In-append_left, In-append, In-append_right,
  take-append-drop,
}
use aide_mcp.Indexer.State.{
  CommitEntry, RepoState, Io, failed, pending, in_progress, IndexState, ready,
}
use aide_mcp.Base.Map.{Map, modify, get, get-modify}
use aide_mcp.Indexer.Store.{flushed, keyed, Store, on_commits}
use aide_mcp.Base.Sort.{sort_by, IsOrder, In-sort_by}
use aide_mcp.Indexer.Store.Newest.{In-keyed}

-- `Job` of indexer/worker.rs.
pub record Job : Type 0 where
  pub repo_root : Text
  pub sha : Text

abbrev pub unfinished_state : IndexState → Bool
unfinished_state pending = true
unfinished_state in_progress = true
unfinished_state ready = false
unfinished_state (failed reason) = false

abbrev pub unfinished : CommitEntry → Bool
unfinished e = unfinished_state e.state

abbrev job_of : Text → Text × ℕ → Job × ℕ
job_of root p = (record { repo_root = root; sha = p.0 }, p.1)

abbrev pub all_unfinished : Map Text RepoState → List (Job × ℕ)
all_unfinished [] = []
all_unfinished ((root, r) ∷ m) = map (job_of root) (keyed unfinished r.commits) ++ all_unfinished m

abbrev pub older_job : Job × ℕ → Job × ℕ → Bool
older_job p q = ltb p.1 q.1

abbrev pub dropped_reason : Text
dropped_reason = codes "dropped by recovery cap — re-enqueue to retry"

abbrev pub fail_one : Job → Map Text RepoState → Map Text RepoState
fail_one j =
    modify j.repo_root (on_commits (modify j.sha (λ e. record e { state = failed dropped_reason })))

-- The loop over the overflow.
abbrev pub fail_all : List (Job × ℕ) → Map Text RepoState → Map Text RepoState
fail_all [] m = m
fail_all (p ∷ ps) m = fail_all ps (fail_one p.0 m)

abbrev jobs_of : List (Job × ℕ) → List Job
jobs_of = map (λ p. p.0)

-- A failing flush is only logged.
unfoldable pub take_recoverable_jobs : Io → ℕ → Store → List Job × Store
unfolding flushed
take_recoverable_jobs fault limit s =
    let sorted = sort_by older_job (all_unfinished s.repos) in
    let overflow = drop limit sorted in
    let s' = record s { repos = fail_all overflow s.repos } in
    (jobs_of (take limit sorted), elim overflow [ [] ↦ s' | _ ∷ _ ↦ (flushed fault tt s').1 ])

length-jobs_of : (ps : List (Job × ℕ)) → length (jobs_of ps) ≡ length ps
length-jobs_of [] = refl
length-jobs_of (p ∷ ps) = ap suc (length-jobs_of ps)

In-jobs_of : (p : Job × ℕ) (ps : List (Job × ℕ)) → In p ps → In p.0 (jobs_of ps)
In-jobs_of p [] h = absurd h
In-jobs_of p (q ∷ ps) (inl e) = inl (ap (λ (x : Job × ℕ). x.0) e)
In-jobs_of p (q ∷ ps) (inr h) = inr (In-jobs_of p ps h)

-- A condition on the commit `sha` of the repository with key `key`.
abbrev pub At : Text → Text → (CommitEntry → Type 0) → Map Text RepoState → Type 0
At key sha P m =
    (r : RepoState) × (get key m ≡ some r) × (e : CommitEntry) × (get sha r.commits ≡ some e) × P e

abbrev pub HasFailed : CommitEntry → Type 0
HasFailed e = e.state ≡ failed dropped_reason

module _ (key sha : Text) (P : CommitEntry → Type 0) where
  -- A change of one commit carries a condition over that it keeps.
  pub At-modify :
      (root k : Text) (f : CommitEntry → CommitEntry) (m : Map Text RepoState)
      → ((e : CommitEntry) → P e → P (f e))
      → At key sha P m
      → At key sha P (modify root (on_commits (modify k f)) m)
  At-modify root k f m keep (r, there, e, g, p) = elim (Bool-cases (text_same root key)) [
    | inr apart ↦ (r, get-modify root key _ m ∙ rw apart there, e, g, p)
    | inl same ↦
        let at : get key (modify root (on_commits (modify k f)) m)
            ≡ some (on_commits (modify k f) r) =
          get-modify root key (on_commits (modify k f)) m ∙ rw (same, there) refl in
        elim (Bool-cases (text_same k sha)) [
          | inr other ↦
              (on_commits (modify k f) r, at, e, get-modify k sha f r.commits ∙ rw other g, p)
          | inl hit ↦ (
            on_commits (modify k f) r,
            at,
            f e,
            get-modify k sha f r.commits ∙ rw (hit, g) refl,
            keep e p,
          )
        ]
  ]

fail_one_fails :
    (j : Job) (m : Map Text RepoState)
    → At j.repo_root j.sha (λ e. Unit) m
    → At j.repo_root j.sha HasFailed (fail_one j m)
fail_one_fails j m (r, there, e, g, _) =
    let f = λ (x : CommitEntry). record x { state = failed dropped_reason } in
    (
      on_commits (modify j.sha f) r,
      get-modify j.repo_root j.repo_root (on_commits (modify j.sha f)) m
          ∙ rw (same_refl j.repo_root, there) refl,
      f e,
      get-modify j.sha j.sha f r.commits ∙ rw (same_refl j.sha, g) refl,
      refl,
    )

fail_all_keeps :
    (j : Job) (ps : List (Job × ℕ)) (m : Map Text RepoState)
    → At j.repo_root j.sha HasFailed m
    → At j.repo_root j.sha HasFailed (fail_all ps m)
fail_all_keeps j [] m h = h
fail_all_keeps j (p ∷ ps) m h = fail_all_keeps j ps (fail_one p.0 m) (
    At-modify j.repo_root j.sha HasFailed p.0.repo_root p.0.sha
      (λ e. record e { state = failed dropped_reason }) m (λ e q. refl) h)

fail_all_fails :
    (p : Job × ℕ) (ps : List (Job × ℕ)) (m : Map Text RepoState)
    → In p ps
    → At p.0.repo_root p.0.sha (λ e. Unit) m
    → At p.0.repo_root p.0.sha HasFailed (fail_all ps m)
fail_all_fails p [] m h a = absurd h
fail_all_fails p (q ∷ ps) m (inl e) a =
    let same : p.0 ≡ q.0 = ap (λ (x : Job × ℕ). x.0) e in
    fail_all_keeps p.0 ps (fail_one q.0 m)
      (subst (λ j. At p.0.repo_root p.0.sha HasFailed (fail_one j m)) same (fail_one_fails p.0 m a))
fail_all_fails p (q ∷ ps) m (inr h) a = fail_all_fails p ps (fail_one q.0 m) h (
    At-modify p.0.repo_root p.0.sha (λ e. Unit) q.0.repo_root q.0.sha
      (λ e. record e { state = failed dropped_reason }) m (λ e u. tt) a)

older_job_order : IsOrder older_job
older_job_order = record {
  asym = λ x y h. ground (arith, h);
  chain = λ x y z h k. ground (arith, h, k);
}

In-map : {A B : Type 0} (f : A → B) (a : A) (xs : List A) → In a xs → In (f a) (map f xs)
In-map f a [] h = absurd h
In-map f a (x ∷ xs) (inl e) = inl (ap f e)
In-map f a (x ∷ xs) (inr h) = inr (In-map f a xs h)

-- Every unfinished commit is among the candidates.
all_unfinished_complete :
    (key sha : Text) (m : Map Text RepoState) (r : RepoState) (e : CommitEntry)
    → get key m ≡ some r
    → get sha r.commits ≡ some e
    → unfinished e ≡ true
    → In (record { repo_root = key; sha = sha }, e.enqueued_at_unix) (all_unfinished m)
all_unfinished_complete key sha [] r e there g u = absurd (cc there)
all_unfinished_complete key sha ((root, q) ∷ m) r e there g u =
    elim (Bool-cases (text_same root key)) [
      | inl same ↦
          let here : q ≡ r = ground (arith, there, same) in
          let at : root ≡ key = (text_same_iff root key).0 same in
          In-append_left _ (map (job_of root) (keyed unfinished q.commits)) (all_unfinished m) (
            subst
              (λ (k : Text).
                In (record { repo_root = key; sha = sha }, e.enqueued_at_unix)
                  (map (job_of k) (keyed unfinished q.commits)))
              (sym at)
              (In-map (job_of key) (sha, e.enqueued_at_unix) (keyed unfinished q.commits)
                (In-keyed sha unfinished q.commits e
                  (ap (λ (x : RepoState). get sha x.commits) here ∙ g) u)))
      | inr apart ↦
          In-append_right _ (map (job_of root) (keyed unfinished q.commits)) (all_unfinished m)
            (all_unfinished_complete key sha m r e (ground (arith, there, apart)) g u)
    ]

pub repos_of_recovery :
    (fault : Io) (limit : ℕ) (s : Store)
    → (take_recoverable_jobs fault limit s).1.repos
      ≡ fail_all (drop limit (sort_by older_job (all_unfinished s.repos))) s.repos
unfolding take_recoverable_jobs
repos_of_recovery fault limit s = go (drop limit (sort_by older_job (all_unfinished s.repos)))
  where
    go :
        (o : List (Job × ℕ))
        → (let s' : Store = record s { repos = fail_all o s.repos } in
            let t : Store = elim o [ [] ↦ s' | _ ∷ _ ↦ (flushed fault tt s').1 ] in t.repos)
          ≡ fail_all o s.repos
    go [] = refl
    go (p ∷ ps) = refl

-- The start retries at most `limit` jobs, and leaves no commit behind that waits for a job which
-- nobody sends: each unfinished commit is retried, or it is marked as failed.
pub recovery_complete :
    (fault : Io) (limit : ℕ) (s : Store)
    → (length (take_recoverable_jobs fault limit s).0 ≤ limit)
      × ((key sha : Text)
          → At key sha (λ e. unfinished e ≡ true) s.repos
          → In (record { repo_root = key; sha = sha }) (take_recoverable_jobs fault limit s).0
            ⊎ At key sha HasFailed (take_recoverable_jobs fault limit s).1.repos)
unfolding take_recoverable_jobs
recovery_complete fault limit s =
    let sorted = sort_by older_job (all_unfinished s.repos) in
    (
      omega (arith, length-jobs_of (take limit sorted), length-take limit sorted),
      λ key sha (r, there, e, g, u).
          let job = λ (n : ℕ). let j : Job × ℕ = (record { repo_root = key; sha = sha }, n) in j in
          let p = job e.enqueued_at_unix in
          let listed : In p sorted =
            In-sort_by older_job p (all_unfinished s.repos)
              (all_unfinished_complete key sha s.repos r e there g u) in
          elim (In-append p (take limit sorted) (drop limit sorted)
            (rw (take-append-drop limit sorted) listed)) [
              | inl front ↦ inl (In-jobs_of p (take limit sorted) front)
              | inr back ↦ inr (
                  subst (At key sha HasFailed) (sym (repos_of_recovery fault limit s))
                    (fail_all_fails p (drop limit sorted) s.repos back (r, there, e, g, tt)))
            ],
    )
