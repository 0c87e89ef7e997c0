-- ===== src/Indexer/Queue/Steps.antt =====
-- The steps of the resume task and of the worker keep the queue free of ghosts.
use aide_mcp.Base.{
  text_equal, ◌∷◌, ◌≡◌, inl, inr, List, sym, subst, [], ◌++◌, refl, Bool-cases, List-cases, leb,
  length, In, In-append_left, In-append_right,
}
use aide_mcp.Indexer.Recovery.{Job}
use aide_mcp.Indexer.Queue.{
  Indexer, Worker, building, free, mark_job, marked, marking, queue_cap, received, resume_one,
  take_job,
}
use aide_mcp.Indexer.Queue.Ghosts.{
  NoGhosts, Waits, Waits-mono, elsewhere, in_work, moved-NoGhosts, places, to_mark,
}
use aide_mcp.Indexer.Queue.Sources.{modify_entry}
use aide_mcp.Indexer.State.{done, in_progress, repo_key}
use aide_mcp.Indexer.Store.{mark_in_progress, mutate}

-- The resume task moves a job into the channel.
pub resume_one-NoGhosts : (ix : Indexer) → NoGhosts ix → NoGhosts (resume_one ix)
unfolding resume_one
resume_one-NoGhosts ix g = elim (List-cases ix.resume) [
  | inl empty ↦
      let stays : resume_one ix ≡ ix = simp (empty, resume_one) in subst NoGhosts (sym stays) g
  | inr (job, rest, more) ↦
      let moved : Indexer = record ix { resume = rest; channel = ix.channel ++ job ∷ [] } in
      elim (Bool-cases (leb queue_cap (length ix.channel))) [
        | inl at_cap ↦
            let stays : resume_one ix ≡ ix = simp (more, g.is_open, at_cap, resume_one) in
            subst NoGhosts (sym stays) g
        | inr room ↦
            let moves : resume_one ix ≡ moved = simp (more, g.is_open, room, resume_one) in
            subst NoGhosts (sym moves) (
              moved-NoGhosts ix moved refl refl
                (λ j.
                  places j ix inl (λ h. inr (inl (In-append_left j ix.channel (job ∷ []) h)))
                    (λ h. elim (subst (In j) more h) [
                      | inl same ↦ inr (inl (In-append_right j ix.channel (job ∷ []) (inl same)))
                      | inr later ↦ inr (inr (inl later))
                    ])
                    (λ h. inr (inr (inr (inl h)))) (λ h. inr (inr (inr (inr h)))))
                (λ j h. inl h) g)
      ]
]

taken-NoGhosts :
    (ix : Indexer) (w : Worker) (jobs : List Job)
    → ix.worker ≡ w
    → ix.channel ≡ jobs
    → NoGhosts ix
    → NoGhosts (received ix w jobs)
taken-NoGhosts ix free [] a b g = g
taken-NoGhosts ix (marking job) jobs a b g = g
taken-NoGhosts ix (building job) jobs a b g = g
taken-NoGhosts ix free (job ∷ rest) a b g =
    moved-NoGhosts ix (record ix { channel = rest; worker = marking job }) refl refl
      (λ j.
        places j ix (λ h. absurd (subst (λ w. In j (to_mark w)) a h))
          (λ h. elim (subst (In j) b h) [ inl same ↦ inl (inl same) | inr later ↦ inr (inl later) ])
          (λ h. inr (inr (inl h))) (λ h. inr (inr (inr (inl h)))) (λ h. inr (inr (inr (inr h)))))
      (λ j h. absurd (subst (λ w. In j (in_work w)) a h)) g

pub take_job-NoGhosts : (ix : Indexer) → NoGhosts ix → NoGhosts (take_job ix)
unfolding take_job
take_job-NoGhosts ix g = taken-NoGhosts ix ix.worker ix.channel refl refl g

marked-NoGhosts :
    (ix : Indexer) (w : Worker) → ix.worker ≡ w → NoGhosts ix → NoGhosts (marked done ix w)
unfolding mark_in_progress mutate
marked-NoGhosts ix free a g = g
marked-NoGhosts ix (building job) a g = g
marked-NoGhosts ix (marking job) a g = record {
  is_open = g.is_open;
  waits = λ key k e there.
      elim (modify_entry (repo_key job.repo_root) job.sha (λ x. record x { state = in_progress })
        (λ x. x.state ≡ in_progress) (λ x. refl) key k e ix.store.repos there) [
          | inl (p, q, now_built) ↦
              subst (Waits key k after) (sym now_built) (job, inl (inl refl), (p, q))
          | inr (apart, old) ↦
              Waits-mono key k ix after e.state
                (λ j f.
                  places j ix
                    (λ h. elim (subst (λ w. In j (to_mark w)) a h) [
                      | inl same ↦ elsewhere key k job j apart f same
                      | inr none_there ↦ absurd none_there
                    ])
                    (λ h. inr (inl h)) (λ h. inr (inr (inl h))) (λ h. inr (inr (inr (inl h))))
                    (λ h. inr (inr (inr (inr h)))))
                (λ j f h. absurd (subst (λ w. In j (in_work w)) a h)) (g.waits key k e old)
        ];
}
  where
    after : Indexer
    after = marked done ix (marking job)

pub mark_job-NoGhosts : (ix : Indexer) → NoGhosts ix → NoGhosts (mark_job done ix)
unfolding mark_job
mark_job-NoGhosts ix g = marked-NoGhosts ix ix.worker refl g
