-- ===== src/Indexer/Store/Unlink.antt =====
-- The grace period of `mark_ready`: an evicted index file is stashed for one round before its path is
-- handed out for deletion.
use aide_mcp.Base.{
  text_equal, none, some, ℕ, ◌≡◌, arith, refl, inl, inr, Text, ◌⊎◌, ◌≢◌, sym, ap, ◌∙◌, Bool-cases,
  text_same, In, Option-cases, text_same_iff, same_refl, drop, subst, [], ◌≤◌, ◌∷◌, ◌+◌, drop_all,
  List,
}
use aide_mcp.Indexer.Store.{
  Store, mark_ready_at, retain, on_commits, made_ready, older, keyed, is_ready, evict, status,
}
use aide_mcp.Indexer.State.{Io, RepoState, repo_key, CommitEntry, done, to_info}
use aide_mcp.Base.Map.{get, modify, get-modify, Map, Distinct, remove, remove_absent}
use aide_mcp.Indexer.Store.Files.{Source, evict_conserves, evicted-Source}
use aide_mcp.Base.Sort.{sort_by, length-sort_by}
use aide_mcp.Base.Result.{ok}
use aide_mcp.Indexer.Store.Evict.{ready_count}
use aide_mcp.Indexer.Store.Invariant.{IsValid}

-- The commit `sha` of the repository with key `key` has its index at `p`.
abbrev pub Tracked : Text → Text → Text → Store → Type 0
Tracked key sha p s =
    (r : RepoState) × (get key s.repos ≡ some r)
    × (e : CommitEntry) × (get sha r.commits ≡ some e)
    × (e.index_path ≡ some p)

module _ (fault : Io) (root sha path : Text) (now : ℕ) (s : Store) where
  abbrev after_ready : Store
  after_ready = (mark_ready_at fault root sha path now s).1

  pub repos_after :
      (r : RepoState)
      → get (repo_key root) s.repos ≡ some r
      → after_ready.repos
        ≡ modify
            (repo_key root)
            (on_commits (λ m. (retain s.retention_ready sha path now r.commits).0))
            s.repos
  unfolding mark_ready_at
  repos_after r e = rw (e, mark_ready_at, after_ready) refl

  stash_after :
      (r : RepoState)
      → get (repo_key root) s.repos ≡ some r
      → after_ready.pending_unlink ≡ (retain s.retention_ready sha path now r.commits).1
  unfolding mark_ready_at
  stash_after r e = rw (e, mark_ready_at, after_ready) refl

  pub repos_unknown : get (repo_key root) s.repos ≡ none → after_ready.repos ≡ s.repos
  unfolding mark_ready_at
  repos_unknown e = rw (e, mark_ready_at, after_ready) refl

  stash_unknown : get (repo_key root) s.repos ≡ none → after_ready.pending_unlink ≡ []
  unfolding mark_ready_at
  stash_unknown e = rw (e, mark_ready_at, after_ready) refl

  -- Another repository is left alone.
  elsewhere : (key : Text) → repo_key root ≢ key → get key after_ready.repos ≡ get key s.repos
  elsewhere key other = elim (Option-cases (get (repo_key root) s.repos)) [
    | inl e ↦ rw (repos_unknown e) refl
    | inr (r, e) ↦
        ap (get key) (repos_after r e)
        ∙ ground (
          arith,
          other,
          text_same_iff (repo_key root) key,
          get-modify (repo_key root) key
              (on_commits (λ m. (retain s.retention_ready sha path now r.commits).0)) s.repos,
        )
  ]

  in_repo :
      (r : RepoState)
      → get (repo_key root) s.repos ≡ some r
      → get (repo_key root) after_ready.repos
        ≡ some (record r { commits = (retain s.retention_ready sha path now r.commits).0 })
  in_repo r e =
      ap (get (repo_key root)) (repos_after r e)
      ∙ get-modify (repo_key root) (repo_key root)
          (on_commits (λ m. (retain s.retention_ready sha path now r.commits).0)) s.repos
      ∙ rw (same_refl (repo_key root), e) refl

  -- `mark_ready` loses no index file, however its flush goes: the file of any other commit is still the
  -- file of that commit, or its path is stashed.
  pub mark_ready_conserves :
      (key k p : Text)
      → (key ≢ repo_key root) ⊎ (k ≢ sha)
      → Tracked key k p s
      → Tracked key k p after_ready ⊎ In p after_ready.pending_unlink
  unfolding retain
  mark_ready_conserves key k p other (r, there, e, g, own) =
      elim (Bool-cases (text_same (repo_key root) key)) [
        | inr apart ↦
            let ne : repo_key root ≢ key =
              λ q. ground (arith, text_same_iff (repo_key root) key, apart, q) in
            inl (r, elsewhere key ne ∙ there, e, g, own)
        | inl same ↦
            let at : repo_key root ≡ key = (text_same_iff (repo_key root) key).0 same in
            let here : get (repo_key root) s.repos ≡ some r = ap (λ x. get x s.repos) at ∙ there in
            let kept : get k (modify sha (made_ready path now) r.commits) ≡ some e = ground (
              arith,
              other,
              at,
              text_same_iff sha k,
              g,
              get-modify sha k (made_ready path now) r.commits,
            ) in
            elim (evict_conserves
              (drop s.retention_ready
                (sort_by older (keyed is_ready (modify sha (made_ready path now) r.commits))))
              (modify sha (made_ready path now) r.commits) k p e kept own) [
                | inl stays ↦ inl (
                  record r { commits = (retain s.retention_ready sha path now r.commits).0 },
                  subst
                      (λ x.
                        get x after_ready.repos
                        ≡ some (record r {
                          commits = (retain s.retention_ready sha path now r.commits).0;
                        }))
                      at (in_repo r here),
                  e,
                  stays,
                  own,
                )
                | inr out ↦ inr (subst (In p) (sym (stash_after r here)) out)
              ]
      ]

  -- What is stashed was the file of a commit that this call took out of the repository.
  pub stash-Source :
      (p : Text)
      → In p after_ready.pending_unlink
      → (r : RepoState) × (get (repo_key root) s.repos ≡ some r)
        × Source p
            (modify sha (made_ready path now) r.commits)
            (retain s.retention_ready sha path now r.commits).0
  unfolding retain mark_ready_at
  stash-Source p h = elim (Option-cases (get (repo_key root) s.repos)) [
    | inl e ↦ absurd (subst (In p) (stash_unknown e) h)
    | inr (r, e) ↦ (
      r,
      e,
      evicted-Source
          (drop s.retention_ready
            (sort_by older (keyed is_ready (modify sha (made_ready path now) r.commits))))
          (modify sha (made_ready path now) r.commits) p (subst (In p) (stash_after r e) h),
    )
  ]

-- A successful `mark_ready` hands out exactly the paths stashed by the round before.
pub released :
    (root sha path : Text) (now : ℕ) (s : Store)
    → (mark_ready_at done root sha path now s).0 ≡ ok s.pending_unlink
unfolding mark_ready_at
released root sha path now s = elim (Option-cases (get (repo_key root) s.repos)) [
  | inl e ↦ rw (e, mark_ready_at) refl
  | inr (r, e) ↦ rw (e, mark_ready_at) refl
]

one_more :
    (sha path : Text) (now : ℕ) (m : Map Text CommitEntry)
    → Distinct m
    → ready_count (modify sha (made_ready path now) m) ≤ ready_count (remove sha m) + 1
one_more sha path now [] d = omega arith
one_more sha path now ((j, e) ∷ m) (fresh, d) = elim (Bool-cases (text_same j sha)) [
  | inl s ↦
      let absent : remove sha m ≡ m =
        remove_absent sha m (subst (λ x. get x m ≡ none) ((text_same_iff j sha).0 s) fresh) in
      rw (s, absent) (omega arith)
  | inr s ↦ ground (arith, one_more sha path now m d, s)
]

-- With no other ready commit nothing is evicted.
alone :
    (keep : ℕ) (sha path : Text) (now : ℕ) (m : Map Text CommitEntry)
    → Distinct m
    → 1 ≤ keep
    → ready_count (remove sha m) ≡ 0
    → (retain keep sha path now m).0 ≡ modify sha (made_ready path now) m
unfolding retain evict
alone keep sha path now m d k none_else =
    let marked = modify sha (made_ready path now) m in
    rw
      (drop_all keep (sort_by older (keyed is_ready marked)) (
        omega (
          arith,
          length-sort_by older (keyed is_ready marked),
          one_more sha path now m d,
          none_else,
        )))
      refl

pub status_at :
    (root sha : Text) (s : Store) (r : RepoState) (e : CommitEntry)
    → get (repo_key root) s.repos ≡ some r
    → get sha r.commits ≡ some e
    → status root s (some sha) ≡ some (to_info e sha)
unfolding status
status_at root sha s r e there g = rw (there, status) (rw g refl)

-- An index file may be handed out for deletion by the very call that makes it current: in a well-formed
-- store that keeps at least one ready commit, if the path of a commit that is indexed again still stands
-- in the stash, and no other commit of the repository is ready, then a call whose flush succeeds returns
-- the path, and the commit is ready with that path.
pub released_while_ready :
    (root sha path : Text) (now : ℕ) (s : Store) (r : RepoState) (e : CommitEntry)
    → IsValid s
    → 1 ≤ s.retention_ready
    → get (repo_key root) s.repos ≡ some r
    → get sha r.commits ≡ some e
    → ready_count (remove sha r.commits) ≡ 0
    → In path s.pending_unlink
    → (out : List Text) × ((mark_ready_at done root sha path now s).0 ≡ ok out)
      × In path out
      × (status root (mark_ready_at done root sha path now s).1 (some sha)
          ≡ some (to_info (made_ready path now e) sha))
released_while_ready root sha path now s r e v k there g none_else stashed =
    let kept = retain s.retention_ready sha path now r.commits in
    let survives : get sha kept.0 ≡ some (made_ready path now e) =
      ap (get sha) (
        alone s.retention_ready sha path now r.commits (v.tidy (repo_key root) r there).distinct k
          none_else)
      ∙ get-modify sha sha (made_ready path now) r.commits
      ∙ rw (same_refl sha, g) refl in
    (
      s.pending_unlink,
      released root sha path now s,
      stashed,
      status_at root sha (mark_ready_at done root sha path now s).1 (record r { commits = kept.0 })
          (made_ready path now e) (in_repo done root sha path now s r there) survives,
    )
