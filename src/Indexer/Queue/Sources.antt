-- ===== src/Indexer/Queue/Sources.antt =====
-- Where a commit of the store after a method comes from.
use mathlib.Core.Bool.{false≢true}
use aide_mcp.Base.{
  text_equal, some, ℕ, ◌≡◌, arith, refl, inl, inr, Text, ◌⊎◌, sym, ap, ◌∙◌, Bool-cases, text_same,
  Option-cases, text_same_iff, subst, drop, false,
}
use aide_mcp.Indexer.State.{
  CommitEntry, EnqueueOutcome, pending, RepoState, needs_indexing, IndexState, failed, ready,
  in_progress, Io, done, repo_key,
}
use aide_mcp.Indexer.Store.{
  enqueue_commit, retried, outcome_of, on_commits, new_entry, or_default, enqueue_at, retain,
  mark_ready_at, Store, made_ready, older, keyed, is_ready,
}
use aide_mcp.Base.Map.{Map, get, modify, modify_source, insert, get-insert}
use aide_mcp.Base.Result.{ok}
use aide_mcp.Base.Sort.{sort_by}
use aide_mcp.Indexer.Store.Unlink.{repos_unknown, repos_after}
use aide_mcp.Indexer.Store.Evict.{get-evict}

-- The commit `sha` of the repository with key `key` is `e`.
abbrev pub Entry : Text → Text → CommitEntry → Map Text RepoState → Type 0
Entry key sha e m = (r : RepoState) × (get key m ≡ some r) × (get sha r.commits ≡ some e)

-- The commit is the one that the method names, and satisfies `P`; or it is an old one.
abbrev pub From :
    Text → Text → (CommitEntry → Type 0) → Text → Text → CommitEntry → Map Text RepoState → Type 0
From root k P key sha e m = ((root ≡ key) × (k ≡ sha) × P e) ⊎ Entry key sha e m

-- Another commit than `k` of the repository with key `root`.
abbrev pub Other : Text → Text → Text → Text → Type 0
Other root k key sha = (text_same root key ≡ false) ⊎ (text_same k sha ≡ false)

pub not_other : (root k key sha : Text) → root ≡ key → k ≡ sha → Other root k key sha → ⊥
not_other root k key sha p q (inl miss) = false≢true (sym miss ∙ (text_same_iff root key).1 p)
not_other root k key sha p q (inr miss) = false≢true (sym miss ∙ (text_same_iff k sha).1 q)

module _ (root k : Text) (f : CommitEntry → CommitEntry) (P : CommitEntry → Type 0)
    (made : (e : CommitEntry) → P (f e)) where
  commits_source :
      (sha : Text) (m : Map Text CommitEntry) (e : CommitEntry)
      → get sha (modify k f m) ≡ some e
      → ((k ≡ sha) × P e) ⊎ ((text_same k sha ≡ false) × (get sha m ≡ some e))
  commits_source sha m e h =
      let (x, there, q) = modify_source k sha f m e h in
      elim (Bool-cases (text_same k sha)) [
        | inl hit ↦
            let is_new : f x ≡ e = ground (arith, q, hit) in
            inl ((text_same_iff k sha).0 hit, subst P is_new (made x))
        | inr miss ↦ inr (miss, ground (arith, there, q, miss))
      ]

  -- A change of one commit.
  pub modify_entry :
      (key sha : Text) (e : CommitEntry) (m : Map Text RepoState)
      → Entry key sha e (modify root (on_commits (modify k f)) m)
      → ((root ≡ key) × (k ≡ sha) × P e) ⊎ (Other root k key sha × Entry key sha e m)
  modify_entry key sha e m (r, there, g) =
      let (q, before, same) = modify_source root key (on_commits (modify k f)) m r there in
      elim (Bool-cases (text_same root key)) [
        | inr apart ↦
            let kept : q ≡ r = ground (arith, same, apart) in
            inr (inl apart, (q, before, ap (λ (x : RepoState). get sha x.commits) kept ∙ g))
        | inl hit ↦
            let changed : on_commits (modify k f) q ≡ r = ground (arith, same, hit) in
            elim (commits_source sha q.commits e
              (ap (λ (x : RepoState). get sha x.commits) changed ∙ g)) [
                | inl (at, p) ↦ inl ((text_same_iff root key).0 hit, at, p)
                | inr (miss, old) ↦ inr (inr miss, (q, before, old))
              ]
      ]

abbrev pub IsNew : EnqueueOutcome → CommitEntry → Type 0
IsNew o e = (e.state ≡ pending) × (o ≡ needs_indexing)

retried_kept :
    (now : ℕ) (x : CommitEntry)
    → (retried x.state now x ≡ x) ⊎ IsNew (outcome_of x.state) (retried x.state now x)
retried_kept now x = go x.state
  where
    go : (s : IndexState) → (retried s now x ≡ x) ⊎ IsNew (outcome_of s) (retried s now x)
    go ready = inl refl
    go pending = inl refl
    go in_progress = inl refl
    go (failed reason) = inr (refl, refl)

enqueue_commit_source :
    (k sha : Text) (now : ℕ) (m : Map Text CommitEntry) (e : CommitEntry)
    → get sha (enqueue_commit k now m).1 ≡ some e
    → ((k ≡ sha) × IsNew (enqueue_commit k now m).0 e) ⊎ (get sha m ≡ some e)
unfolding enqueue_commit
enqueue_commit_source k sha now m e h = elim (Option-cases (get k m)) [
  | inl absent ↦
      let h' : get sha (insert k (new_entry now) m) ≡ some e = rw (absent, enqueue_commit) at h in
      elim (Bool-cases (text_same k sha)) [
        | inl hit ↦
            let is_new : new_entry now ≡ e =
              ground (arith, h', get-insert k sha (new_entry now) m, hit) in
            inl (
              (text_same_iff k sha).0 hit,
              subst (IsNew (enqueue_commit k now m).0) is_new
                  (refl, rw (absent, enqueue_commit) refl),
            )
        | inr miss ↦ inr (ground (arith, h', get-insert k sha (new_entry now) m, miss))
      ]
  | inr (x, known) ↦
      let f = λ (y : CommitEntry). retried y.state now y in
      let h' : get sha (modify k f m) ≡ some e = rw (known, enqueue_commit) at h in
      let (y, there, q) = modify_source k sha f m e h' in
      elim (Bool-cases (text_same k sha)) [
        | inr miss ↦ inr (ground (arith, there, q, miss))
        | inl hit ↦
            let at : k ≡ sha = (text_same_iff k sha).0 hit in
            let changed : f y ≡ e = ground (arith, q, hit) in
            let same : x ≡ y = cc (sym known ∙ ap (λ s. get s m) at ∙ there) in
            elim (retried_kept now y) [
              | inl kept ↦ inr (there ∙ ap some (sym kept ∙ changed))
              | inr (p, o) ↦ inl (
                at,
                subst (IsNew (enqueue_commit k now m).0) changed (
                  p,
                  rw (known, enqueue_commit)
                      (ap (λ (z : CommitEntry). outcome_of z.state) same ∙ o),
                ),
              )
            ]
      ]
]

or_default_source :
    (key sha : Text) (m : Map Text RepoState) (e : CommitEntry)
    → get sha (or_default (get key m)).commits ≡ some e
    → Entry key sha e m
or_default_source key sha m e h = elim (Option-cases (get key m)) [
  | inl absent ↦ absurd (ground (arith, ap (λ o. get sha (or_default o).commits) absent, h))
  | inr (r, there) ↦ (r, there, sym (ap (λ o. get sha (or_default o).commits) there) ∙ h)
]

-- Enqueueing adds a pending commit, and says so, or changes no commit.
pub enqueue_entry :
    (root k : Text) (now : ℕ) (s : Store) (key sha : Text) (e : CommitEntry)
    → Entry key sha e (enqueue_at done root k now s).1.repos
    → (o : EnqueueOutcome) × ((enqueue_at done root k now s).0 ≡ ok o)
      × From (repo_key root) k (IsNew o) key sha e s.repos
unfolding enqueue_at
enqueue_entry root k now s key sha e (r, there, g) =
    let repo = or_default (get (repo_key root) s.repos) in
    let made : RepoState = record {
      last_sha = some k;
      commits = (enqueue_commit k now repo.commits).1;
    } in
    (
      (enqueue_commit k now repo.commits).0,
      refl,
      elim (Bool-cases (text_same (repo_key root) key)) [
        | inr apart ↦
            inr (r, ground (arith, there, get-insert (repo_key root) key made s.repos, apart), g)
        | inl hit ↦
            let at : repo_key root ≡ key = (text_same_iff (repo_key root) key).0 hit in
            let is_made : made ≡ r =
              ground (arith, there, get-insert (repo_key root) key made s.repos, hit) in
            elim (enqueue_commit_source k sha now repo.commits e
              (ap (λ (x : RepoState). get sha x.commits) is_made ∙ g)) [
                | inl (same, fresh) ↦ inl (at, same, fresh)
                | inr old ↦ inr (
                    subst (λ x. Entry x sha e s.repos) at
                      (or_default_source (repo_key root) sha s.repos e old))
              ]
      ],
    )

abbrev pub IsDone : CommitEntry → Type 0
IsDone e = e.state ≡ ready

retain_source :
    (keep : ℕ) (k sha path : Text) (now : ℕ) (m : Map Text CommitEntry) (e : CommitEntry)
    → get sha (retain keep k path now m).0 ≡ some e
    → ((k ≡ sha) × IsDone e) ⊎ ((text_same k sha ≡ false) × (get sha m ≡ some e))
unfolding retain
retain_source keep k sha path now m e h =
    let marked = modify k (made_ready path now) m in
    let gone = drop keep (sort_by older (keyed is_ready marked)) in
    commits_source k k (made_ready path now) IsDone (λ x. refl) sha m e
      (ground (arith, h, get-evict sha gone marked))

-- Marking a commit as ready changes no other commit, but for those that it takes out.
pub ready_entry :
    (fault : Io) (root k path : Text) (now : ℕ) (s : Store) (key sha : Text) (e : CommitEntry)
    → Entry key sha e (mark_ready_at fault root k path now s).1.repos
    → ((repo_key root ≡ key) × (k ≡ sha) × IsDone e)
      ⊎ (Other (repo_key root) k key sha × Entry key sha e s.repos)
unfolding mark_ready_at
ready_entry fault root k path now s key sha e (r, there, g) =
    elim (Option-cases (get (repo_key root) s.repos)) [
      | inl absent ↦
          let old = ap (get key) (sym (repos_unknown fault root k path now s absent)) ∙ there in
          inr (inl (ground (arith, text_same_iff (repo_key root) key, absent, old)), (r, old, g))
      | inr (q, known) ↦
          let f = λ (m : Map Text CommitEntry). (retain s.retention_ready k path now q.commits).0 in
          let (x, before, same) =
            modify_source (repo_key root) key (on_commits f) s.repos r
              (ap (get key) (sym (repos_after fault root k path now s q known)) ∙ there) in
          elim (Bool-cases (text_same (repo_key root) key)) [
            | inr apart ↦
                let kept : x ≡ r = ground (arith, same, apart) in
                inr (inl apart, (x, before, ap (λ (y : RepoState). get sha y.commits) kept ∙ g))
            | inl hit ↦
                let at : repo_key root ≡ key = (text_same_iff (repo_key root) key).0 hit in
                let changed : on_commits f x ≡ r = ground (arith, same, hit) in
                elim (retain_source s.retention_ready k sha path now q.commits e
                  (ap (λ (y : RepoState). get sha y.commits) changed ∙ g)) [
                    | inl (h, d) ↦ inl (at, h, d)
                    | inr (miss, old) ↦
                        inr (inr miss, (q, ap (λ y. get y s.repos) (sym at) ∙ known, old))
                  ]
          ]
    ]
