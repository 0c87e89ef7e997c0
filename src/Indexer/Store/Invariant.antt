-- ===== src/Indexer/Store/Invariant.antt =====
-- The invariant of the store, kept by every method and every way its flush may go.
use aide_mcp.Base.{
  text_equal, [], ◌∷◌, none, some, true, ℕ, ◌≡◌, arith, refl, inl, inr, List, Option, Text, ◌≤◌,
  Bool-cases, text_same, Option-cases, subst, drop, text_same_iff,
}
use aide_mcp.Indexer.State.{CommitEntry, RepoState, Io, repo_key}
use aide_mcp.Base.Map.{
  Map, Distinct, Distinct-modify, get, modify, insert, Distinct-insert, remove, Distinct-remove,
  get-insert, modify_source,
}
use aide_mcp.Indexer.Store.{
  enqueue_commit, evict, retain, Store, is_ready, or_default, retried, made_ready, new_entry,
  on_commits, enqueue_at, mutate, mark_in_progress, mark_failed, mark_ready_at, older, keyed,
}
use aide_mcp.Indexer.Store.Evict.{ready_count, retain_bound}
use aide_mcp.Base.Sort.{sort_by}

-- A change that makes no commit ready adds no ready commit.
ready_count-modify :
    (k : Text) (f : CommitEntry → CommitEntry) (m : Map Text CommitEntry)
    → ((e : CommitEntry) → is_ready (f e) ≡ true → is_ready e ≡ true)
    → ready_count (modify k f m) ≤ ready_count m
ready_count-modify k f [] h = omega arith
ready_count-modify k f ((j, e) ∷ m) h = ground (arith, ready_count-modify k f m h, h e)

ready_count-insert :
    (k : Text) (now : ℕ) (m : Map Text CommitEntry)
    → ready_count (insert k (new_entry now) m) ≤ ready_count m
ready_count-insert k now [] = omega arith
ready_count-insert k now ((j, e) ∷ m) = ground (arith, ready_count-insert k now m)

is_ready-retried :
    (now : ℕ) (e : CommitEntry) → is_ready (retried e.state now e) ≡ true → is_ready e ≡ true
is_ready-retried now e h = ground (arith, h)

pub record IsTidy (keep : ℕ) (m : Map Text CommitEntry) : Type 0 where
  pub distinct : Distinct m
  pub bounded : ready_count m ≤ keep

IsTidy-modify :
    (keep : ℕ) (k : Text) (f : CommitEntry → CommitEntry) (m : Map Text CommitEntry)
    → ((e : CommitEntry) → is_ready (f e) ≡ true → is_ready e ≡ true)
    → IsTidy keep m
    → IsTidy keep (modify k f m)
IsTidy-modify keep k f m h t = record {
  distinct = Distinct-modify k f m t.distinct;
  bounded = omega (arith, ready_count-modify k f m h, t.bounded);
}

IsTidy-enqueue :
    (keep : ℕ) (sha : Text) (now : ℕ) (m : Map Text CommitEntry)
    → IsTidy keep m
    → IsTidy keep (enqueue_commit sha now m).1
unfolding enqueue_commit
IsTidy-enqueue keep sha now m t = elim (Option-cases (get sha m)) [
  | inl e ↦
      rw (e, enqueue_commit)
        (record {
          distinct = Distinct-insert sha (new_entry now) m t.distinct;
          bounded = omega (arith, ready_count-insert sha now m, t.bounded);
        })
  | inr (x, e) ↦
      rw (e, enqueue_commit)
        (IsTidy-modify keep sha (λ y. retried y.state now y) m (is_ready-retried now) t)
]

Distinct-evict :
    (ps : List (Text × ℕ)) (m : Map Text CommitEntry) → Distinct m → Distinct (evict ps m).0
unfolding evict
Distinct-evict [] m d = d
Distinct-evict (p ∷ ps) m d = Distinct-evict ps (remove p.0 m) (Distinct-remove p.0 m d)

IsTidy-retain :
    (keep : ℕ) (sha path : Text) (now : ℕ) (m : Map Text CommitEntry)
    → IsTidy keep m
    → IsTidy keep (retain keep sha path now m).0
unfolding retain
IsTidy-retain keep sha path now m t = record {
  distinct =
      Distinct-evict
        (drop keep (sort_by older (keyed is_ready (modify sha (made_ready path now) m))))
        (modify sha (made_ready path now) m)
        (Distinct-modify sha (made_ready path now) m t.distinct);
  bounded = retain_bound keep sha path now m;
}

IsTidy-empty : (keep : ℕ) → IsTidy keep []
IsTidy-empty keep = record { distinct = tt; bounded = omega arith }

-- In each repository no commit stands twice, and at most `retention_ready` commits are ready.
pub record IsValid (s : Store) : Type 0 where
  pub tidy :
      (key : Text) (r : RepoState) → get key s.repos ≡ some r → IsTidy s.retention_ready r.commits

IsTidy-or_default :
    (keep : ℕ) (o : Option RepoState)
    → ((r : RepoState) → o ≡ some r → IsTidy keep r.commits)
    → IsTidy keep (or_default o).commits
IsTidy-or_default keep none h = IsTidy-empty keep
IsTidy-or_default keep (some r) h = h r refl

-- What a method that changes one repository keeps.
insert-IsTidy :
    (s : Store) (key : Text) (r : RepoState)
    → IsValid s
    → IsTidy s.retention_ready r.commits
    → (j : Text) (q : RepoState) → get j (insert key r s.repos) ≡ some q
    → IsTidy s.retention_ready q.commits
insert-IsTidy s key r v t j q h = elim (Bool-cases (text_same key j)) [
  | inl e ↦
      let same : r ≡ q = ground (arith, h, get-insert key j r s.repos, e) in
      subst (λ (x : RepoState). IsTidy s.retention_ready x.commits) same t
  | inr e ↦ v.tidy j q (ground (arith, h, get-insert key j r s.repos, e))
]

modify-IsTidy :
    (s : Store) (key : Text) (f : Map Text CommitEntry → Map Text CommitEntry)
    → IsValid s
    → ((r : RepoState) → get key s.repos ≡ some r → IsTidy s.retention_ready (f r.commits))
    → (j : Text) (q : RepoState) → get j (modify key (on_commits f) s.repos) ≡ some q
    → IsTidy s.retention_ready q.commits
modify-IsTidy s key f v t j q h =
    let (r, there, e) = modify_source key j (on_commits f) s.repos q h in
    elim (Bool-cases (text_same key j)) [
      | inl same ↦
          let at_key : get key s.repos ≡ some r = rw ((text_same_iff key j).0 same) there in
          let changed : on_commits f r ≡ q = ground (arith, e, same) in
          subst (λ (x : RepoState). IsTidy s.retention_ready x.commits) changed (t r at_key)
      | inr other ↦
          let kept : r ≡ q = ground (arith, e, other) in
          subst (λ (x : RepoState). IsTidy s.retention_ready x.commits) kept (v.tidy j r there)
    ]

-- `enqueue` keeps a store well formed, however its flush goes.
pub enqueue_at-IsValid :
    (fault : Io) (root sha : Text) (now : ℕ) (s : Store)
    → IsValid s
    → IsValid (enqueue_at fault root sha now s).1
unfolding enqueue_at
enqueue_at-IsValid fault root sha now s v =
    let repo = or_default (get (repo_key root) s.repos) in
    record {
      tidy =
          insert-IsTidy s (repo_key root)
            (record { last_sha = some sha; commits = (enqueue_commit sha now repo.commits).1 }) v
            (IsTidy-enqueue s.retention_ready sha now repo.commits (
              IsTidy-or_default s.retention_ready (get (repo_key root) s.repos)
                (v.tidy (repo_key root))));
    }

mutate-IsValid :
    (fault : Io) (root sha : Text) (f : CommitEntry → CommitEntry) (s : Store)
    → ((e : CommitEntry) → is_ready (f e) ≡ true → is_ready e ≡ true)
    → IsValid s
    → IsValid (mutate fault root sha f s).1
unfolding mutate
mutate-IsValid fault root sha f s h v = record {
  tidy = modify-IsTidy s (repo_key root) (modify sha f) v (λ r at_key.
      IsTidy-modify s.retention_ready sha f r.commits h (v.tidy (repo_key root) r at_key));
}

pub mark_in_progress-IsValid :
    (fault : Io) (root sha : Text) (s : Store)
    → IsValid s
    → IsValid (mark_in_progress fault root sha s).1
unfolding mark_in_progress
mark_in_progress-IsValid fault root sha s v =
    mutate-IsValid fault root sha _ s (λ e h. ground (arith, h)) v

pub mark_failed-IsValid :
    (fault : Io) (root sha reason : Text) (s : Store)
    → IsValid s
    → IsValid (mark_failed fault root sha reason s).1
unfolding mark_failed
mark_failed-IsValid fault root sha reason s v =
    mutate-IsValid fault root sha _ s (λ e h. ground (arith, h)) v

-- `mark_ready` keeps a store well formed, however its flush goes: no commit of a repository stands
-- twice, and at most `retention_ready` of its commits are ready.
pub mark_ready_at-IsValid :
    (fault : Io) (root sha path : Text) (now : ℕ) (s : Store)
    → IsValid s
    → IsValid (mark_ready_at fault root sha path now s).1
unfolding mark_ready_at
mark_ready_at-IsValid fault root sha path now s v =
    elim (Option-cases (get (repo_key root) s.repos)) [
      | inl e ↦ rw (e, mark_ready_at) (record { tidy = v.tidy })
      | inr (r, e) ↦
          rw (e, mark_ready_at)
            (record {
              tidy =
                  modify-IsTidy s (repo_key root)
                    (λ m. (retain s.retention_ready sha path now r.commits).0) v
                    (λ q at_key.
                      IsTidy-retain s.retention_ready sha path now r.commits
                        (v.tidy (repo_key root) r e));
            })
    ]
