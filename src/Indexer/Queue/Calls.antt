-- ===== src/Indexer/Queue/Calls.antt =====
-- The stretches of a call of `enqueue_inner` keep the queue free of ghosts.
use aide_mcp.Base.{
  text_equal, [], ◌∷◌, none, some, false, ◌≡◌, refl, ◌++◌, inl, inr, List, Option, Text, ◌⊎◌, ℕ,
  suc, zero, sym, ap, In, ◌∙◌, subst, Bool-cases, leb, length, In-append_left, In-append_right,
}
use aide_mcp.Base.Result.{Result, ok, err}
use aide_mcp.Base.Map.{get}
use aide_mcp.Indexer.Recovery.{Job}
use aide_mcp.Indexer.Queue.{
  Indexer, TrySendError, call_of, pick, split_off, queue_cap, send_job, send_picked, store_commit,
  try_send, undo_call, undo_picked, reason_of, full,
}
use aide_mcp.Indexer.Queue.Ghosts.{
  IsWaiting, NoGhosts, Waits, Waits-mono, elsewhere, jobs_of, moved-NoGhosts, places,
}
use aide_mcp.Indexer.Queue.Sources.{Entry, From, IsNew, enqueue_entry, modify_entry}
use aide_mcp.Indexer.State.{
  CommitEntry, EnqueueOutcome, already_queued, already_ready, done, failed, needs_indexing,
  repo_key, StateError,
}
use aide_mcp.Indexer.Store.{Store, enqueue_at, enqueue_commit, mark_failed, mutate, or_default}

module _ {A : Type 0} where
  split_off-some :
      (z x y : A) (o : Option (A × List A)) (rest xs : List A)
      → split_off z o ≡ some (x, rest)
      → ((v : A) (r : List A) → o ≡ some (v, r) → In y xs → (y ≡ v) ⊎ In y r)
      → In y (z ∷ xs)
      → (y ≡ x) ⊎ In y rest
  split_off-some z x y none rest xs h later m = absurd (cc h)
  split_off-some z x y (some (v, r)) rest xs h later (inl e) =
      let left : z ∷ r ≡ rest = cc h in inr (subst (In y) left (inl e))
  split_off-some z x y (some (v, r)) rest xs h later (inr m) = elim (later v r refl m) [
    | inl e ↦ let first : v ≡ x = cc h in inl (e ∙ first)
    | inr i ↦ let left : z ∷ r ≡ rest = cc h in inr (subst (In y) left (inr i))
  ]

  -- What stands in a list is what is picked from it or stands in the rest.
  pub picked_or_rest :
      (n : ℕ) (xs rest : List A) (x y : A)
      → pick n xs ≡ some (x, rest)
      → In y xs
      → (y ≡ x) ⊎ In y rest
  picked_or_rest n [] rest x y h m = absurd m
  picked_or_rest zero (z ∷ xs) rest x y h (inl e) = let first : z ≡ x = cc h in inl (e ∙ first)
  picked_or_rest zero (z ∷ xs) rest x y h (inr m) =
      let left : xs ≡ rest = cc h in inr (subst (In y) left m)
  picked_or_rest (suc n) (z ∷ xs) rest x y h m =
      split_off-some z x y (pick n xs) rest xs h (λ v r e i. picked_or_rest n xs r v y e i) m

-- The store after `enqueue` under the jobs before it.
stored-NoGhosts :
    (root sha : Text) (o : EnqueueOutcome) (ix : Indexer) (s : Store)
    → NoGhosts ix
    → ((key k : Text) (e : CommitEntry)
        → Entry key k e s.repos
        → From (repo_key root) sha (IsNew o) key k e ix.store.repos)
    → NoGhosts (record ix {
      store = s;
      sending = call_of o (record { repo_root = root; sha = sha }) ix.sending;
    })
stored-NoGhosts root sha o ix s g source = record {
  is_open = g.is_open;
  waits = λ key k e there. elim (source key k e there) [
    | inl (p, q, (waiting, outcome)) ↦ subst (Waits key k after) (sym waiting) (
      job,
      inr (
          inr
            (inr (inl (subst (λ x. In job (call_of x job ix.sending)) (sym outcome) (inl refl))))),
      (p, q),
    )
    | inr old ↦
        Waits-mono key k ix after e.state (λ j f. wider j) (λ j f h. inl h) (g.waits key k e old)
  ];
}
  where
    job : Job
    job = record { repo_root = root; sha = sha }

    after : Indexer
    after = record ix { store = s; sending = call_of o job ix.sending }

    in_sending : (x : EnqueueOutcome) (j : Job) → In j ix.sending → In j (call_of x job ix.sending)
    in_sending needs_indexing j h = inr h
    in_sending already_queued j h = h
    in_sending already_ready j h = h

    wider : (j : Job) → IsWaiting j ix → IsWaiting j after
    wider j =
        places j ix inl (λ h. inr (inl h)) (λ h. inr (inr (inl h)))
          (λ h. inr (inr (inr (inl (in_sending o j h))))) (λ h. inr (inr (inr (inr h))))

ok_inj : {A : Type 0} (a b : A) → ◌≡◌ {A = Result StateError A} (ok a) (ok b) → a ≡ b
ok_inj a b h = cc h

pub store_commit-NoGhosts :
    (root sha : Text) (now : ℕ) (ix : Indexer)
    → NoGhosts ix
    → NoGhosts (store_commit done root sha now ix)
unfolding store_commit enqueue_at
store_commit-NoGhosts root sha now ix g =
    let o = (enqueue_commit sha now (or_default (get (repo_key root) ix.store.repos)).commits).0 in
    stored-NoGhosts root sha o ix (enqueue_at done root sha now ix.store).1 g λ key k e there.
      let (o', same, origin) = enqueue_entry root sha now ix.store key k e there in
      subst (λ x. From (repo_key root) sha (IsNew x) key k e ix.store.repos)
        (sym (ok_inj o o' same)) origin

-- Sending a job: it stands in the channel, or it is refused because the channel is full.
module _ (job : Job) (ix : Indexer) where
  abbrev sent : Indexer
  sent = record ix { channel = ix.channel ++ job ∷ [] }

  try_send_cases : ix.closed ≡ false → (try_send job ix ≡ ok sent) ⊎ (try_send job ix ≡ err full)
  unfolding try_send
  try_send_cases alive = elim (Bool-cases (leb queue_cap (length ix.channel))) [
    | inl at_cap ↦ inr (simp (alive, at_cap))
    | inr room ↦ inl (simp (alive, room))
  ]

picked-NoGhosts :
    (n : ℕ) (job : Job) (rest : List Job) (ix : Indexer)
    → pick n ix.sending ≡ some (job, rest)
    → NoGhosts ix
    → NoGhosts (send_picked ix (some (job, rest)))
picked-NoGhosts n job rest ix e g =
    let others = record ix { sending = rest } in
    elim (try_send_cases job others g.is_open) [
      | inl into ↦ rw into (
          moved-NoGhosts ix (sent job others) refl refl
            (λ j.
              places j ix inl (λ h. inr (inl (In-append_left j ix.channel (job ∷ []) h)))
                (λ h. inr (inr (inl h)))
                (λ h. elim (picked_or_rest n ix.sending rest job j e h) [
                  | inl same ↦ inr (inl (In-append_right j ix.channel (job ∷ []) (inl same)))
                  | inr later ↦ inr (inr (inr (inl later)))
                ])
                (λ h. inr (inr (inr (inr h)))))
            (λ j h. inl h) g)
      | inr refusal ↦ rw refusal (
          moved-NoGhosts ix (record others { refused = (job, full) ∷ ix.refused }) refl refl
            (λ j.
              places j ix inl (λ h. inr (inl h)) (λ h. inr (inr (inl h)))
                (λ h. elim (picked_or_rest n ix.sending rest job j e h) [
                  | inl same ↦ inr (inr (inr (inr (inl same))))
                  | inr later ↦ inr (inr (inr (inl later)))
                ])
                (λ h. inr (inr (inr (inr (inr h))))))
            (λ j h. inl h) g)
    ]

pub send_job-NoGhosts : (n : ℕ) (ix : Indexer) → NoGhosts ix → NoGhosts (send_job n ix)
unfolding send_job
send_job-NoGhosts n ix g = go (pick n ix.sending) refl
  where
    go : (o : Option (Job × List Job)) → pick n ix.sending ≡ o → NoGhosts (send_picked ix o)
    go none e = g
    go (some (job, rest)) e = picked-NoGhosts n job rest ix e g

In-map : (ps : List (Job × TrySendError)) (p : Job × TrySendError) → In p ps → In p.0 (jobs_of ps)
In-map [] p h = absurd h
In-map (q ∷ ps) p (inl e) = inl (ap (λ (x : Job × TrySendError). x.0) e)
In-map (q ∷ ps) p (inr h) = inr (In-map ps p h)

In-of_map :
    (ps : List (Job × TrySendError)) (j : Job)
    → In j (jobs_of ps)
    → (p : Job × TrySendError) × In p ps × (j ≡ p.0)
In-of_map [] j h = absurd h
In-of_map (q ∷ ps) j (inl e) = (q, inl refl, e)
In-of_map (q ∷ ps) j (inr h) = let (p, m, same) = In-of_map ps j h in (p, inr m, same)

In-jobs_of :
    (n : ℕ) (job : Job) (why : TrySendError) (rest ps : List (Job × TrySendError)) (j : Job)
    → pick n ps ≡ some ((job, why), rest)
    → In j (jobs_of ps)
    → (j ≡ job) ⊎ In j (jobs_of rest)
In-jobs_of n job why rest ps j e h =
    let (p, m, same) = In-of_map ps j h in
    elim (picked_or_rest n ps rest (job, why) p e m) [
      | inl first ↦ inl (same ∙ ap (λ (x : Job × TrySendError). x.0) first)
      | inr later ↦ inr (subst (λ x. In x (jobs_of rest)) (sym same) (In-map rest p later))
    ]

undone-NoGhosts :
    (n : ℕ) (job : Job) (why : TrySendError) (rest : List (Job × TrySendError)) (ix : Indexer)
    → pick n ix.refused ≡ some ((job, why), rest)
    → NoGhosts ix
    → NoGhosts (undo_picked done ix (some ((job, why), rest)))
unfolding mark_failed mutate
undone-NoGhosts n job why rest ix e g = record {
  is_open = g.is_open;
  waits = λ key sha entry there.
      elim (modify_entry (repo_key job.repo_root) job.sha
        (λ x. record x { state = failed (reason_of why); indexed_at_unix = none })
        (λ x. x.state ≡ failed (reason_of why)) (λ x. refl) key sha entry ix.store.repos there) [
          | inl (p, q, bad) ↦ subst (Waits key sha after) (sym bad) tt
          | inr (apart, old) ↦
              Waits-mono key sha ix after entry.state
                (λ j f.
                  places j ix inl (λ h. inr (inl h)) (λ h. inr (inr (inl h)))
                    (λ h. inr (inr (inr (inl h))))
                    (λ h. elim (In-jobs_of n job why rest ix.refused j e h) [
                      | inl same ↦ elsewhere key sha job j apart f same
                      | inr later ↦ inr (inr (inr (inr later)))
                    ]))
                (λ j f h. inl h) (g.waits key sha entry old)
        ];
}
  where
    after : Indexer
    after = undo_picked done ix (some ((job, why), rest))

pub undo_call-NoGhosts : (n : ℕ) (ix : Indexer) → NoGhosts ix → NoGhosts (undo_call done n ix)
unfolding undo_call
undo_call-NoGhosts n ix g = go (pick n ix.refused) refl
  where
    go :
        (o : Option ((Job × TrySendError) × List (Job × TrySendError)))
        → pick n ix.refused ≡ o
        → NoGhosts (undo_picked done ix o)
    go none e = g
    go (some ((job, why), rest)) e = undone-NoGhosts n job why rest ix e g
