-- ===== src/Jobs/Ids.antt =====
-- No id is handed out twice, so that no job replaces another in the registry.
use aide_mcp.Base.{
  text_equal, none, some, false, ℕ, ◌≡◌, arith, refl, inl, inr, Text, ◌≤◌, ◌<◌, ◌+◌, sym, ap, ◌∙◌,
  Bool-cases, text_same, drop, text_same_iff, same_refl,
}
use aide_mcp.Proto.Framing.{usize_limit, print, parse_usize}
use aide_mcp.Jobs.{Registry, next_id, deregister, id_of, register, get_job, Job}
use aide_mcp.Base.Map.{get, get-remove, get-insert}
use aide_mcp.Proto.Framing.Decimal.{parse-print}

id_of-injective : (m n : ℕ) → m < usize_limit → n < usize_limit → id_of m ≡ id_of n → m ≡ n
id_of-injective m n a b e =
    let same : print m ≡ print n = ap (drop 4) e in
    cc (sym (parse-print m a) ∙ ap parse_usize same ∙ parse-print n b)

-- Every registered id was handed out before.
pub record IsFresh (r : Registry) : Type 0 where
  pub handed_out : (n : ℕ) → r.counter ≤ n → n < usize_limit → get (id_of n) r.jobs ≡ none
  pub bounded : r.counter < usize_limit

-- Where no id from the counter on is taken and the counter does not wrap, a job that is registered under
-- the next id replaces no job, it is found under that id, and no id from the new counter on is taken.
pub register-next_id :
    (r : Registry) (job : Job)
    → IsFresh r
    → r.counter + 1 < usize_limit
    → job.id ≡ (next_id r).0
    → (get_job job.id r ≡ none)
      × IsFresh (register job (next_id r).1)
      × (get_job job.id (register job (next_id r).1) ≡ some job)
unfolding next_id register get_job
register-next_id r job f small same = (
  ap (λ (i : Text). get i r.jobs) same ∙ f.handed_out r.counter (omega arith) f.bounded,
  record {
    handed_out = λ n above within.
        let next : r.counter + 1 ≤ n = omega (arith, above, small) in
        let apart : text_same job.id (id_of n) ≡ false =
          elim (Bool-cases (text_same job.id (id_of n))) [
            | inr e ↦ e
            | inl e ↦
                let hit = (text_same_iff job.id (id_of n)).0 e in
                absurd (
                  omega
                    (arith, next, id_of-injective r.counter n f.bounded within (sym same ∙ hit)))
          ] in
        get-insert job.id (id_of n) job r.jobs
        ∙ rw apart (f.handed_out n (omega (arith, next)) within);
    bounded = omega (arith, small);
  },
  get-insert job.id job.id job r.jobs ∙ rw (same_refl job.id) refl,
)

-- Taking a job out frees no id for later.
pub deregister-IsFresh : (r : Registry) (id : Text) → IsFresh r → IsFresh (deregister id r)
unfolding deregister
deregister-IsFresh r id f = record {
  handed_out =
      λ n above within. ground (arith, get-remove id (id_of n) r.jobs, f.handed_out n above within);
  bounded = f.bounded;
}
