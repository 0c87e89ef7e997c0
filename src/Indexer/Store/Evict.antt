-- ===== src/Indexer/Store/Evict.antt =====
-- The retention loop of `mark_ready_at`: how many ready commits it leaves, which, and where the
-- paths of the others go.
use aide_mcp.Base.{
  ℕ, ◌≡◌, refl, Bool, true, false, not, none, List, [], ◌∷◌, Text, select, arith, if◌then◌else◌,
  text_equal, text_same, text_same_iff, ap, sym, All, length, ◌∙◌, same_refl, drop, ◌≤◌, All-weaken,
  take, ◌++◌, take-append-drop, select-append, select-none, length-append, length-select,
  length-take-le,
}
use aide_mcp.Base.Map.{Map, get, remove, get-remove, modify}
use aide_mcp.Indexer.State.{CommitEntry}
use aide_mcp.Indexer.Store.{keyed, evict, retain, is_ready, made_ready, older}
use aide_mcp.Base.Sort.{sort_by, length-select-sort_by}

unfoldable pub has_key : Text → List (Text × ℕ) → Bool
has_key k [] = false
has_key k (p ∷ ps) = if text_same p.0 k then true else has_key k ps

-- A commit is gone exactly if the loop visits its key.
pub get-evict :
    (k : Text) (ps : List (Text × ℕ)) (m : Map Text CommitEntry)
    → get k (evict ps m).0 ≡ (if has_key k ps then none else get k m)
unfolding evict has_key
get-evict k [] m = refl
get-evict k (p ∷ ps) m = ground (arith, get-evict k ps (remove p.0 m), get-remove p.0 k m)

keyed-remove :
    (k : Text) (p : CommitEntry → Bool) (m : Map Text CommitEntry)
    → keyed p (remove k m) ≡ select (λ q. not (text_same q.0 k)) (keyed p m)
keyed-remove k p [] = refl
keyed-remove k p ((j, e) ∷ m) = ground (arith, keyed-remove k p m)

select-select :
    (p : Text × ℕ) (ps xs : List (Text × ℕ))
    → select (λ q. not (has_key q.0 ps)) (select (λ q. not (text_same q.0 p.0)) xs)
      ≡ select (λ q. not (has_key q.0 (p ∷ ps))) xs
unfolding has_key
select-select p ps [] = refl
select-select p ps (x ∷ xs) =
    ground (arith, select-select p ps xs, text_same_iff p.0 x.0, text_same_iff x.0 p.0)

select_all : (xs : List (Text × ℕ)) → select (λ q. not (has_key q.0 [])) xs ≡ xs
unfolding has_key
select_all [] = refl
select_all (x ∷ xs) = ap (λ r. x ∷ r) (select_all xs)

-- The loop keeps the entries whose keys it does not visit.
keyed-evict :
    (t : CommitEntry → Bool) (ps : List (Text × ℕ)) (m : Map Text CommitEntry)
    → keyed t (evict ps m).0 ≡ select (λ q. not (has_key q.0 ps)) (keyed t m)
unfolding evict
keyed-evict t [] m = sym (select_all (keyed t m))
keyed-evict t (p ∷ ps) m =
    keyed-evict t ps (remove p.0 m)
    ∙ ap (select (λ q. not (has_key q.0 ps))) (keyed-remove p.0 t m)
    ∙ select-select p ps (keyed t m)

has_key_self : (ps : List (Text × ℕ)) → All (λ q. not (has_key q.0 ps) ≡ false) ps
unfolding has_key
has_key_self [] = tt
has_key_self (p ∷ ps) = (
  rw (same_refl p.0) refl,
  All-weaken (λ q. not (has_key q.0 ps) ≡ false) _ ps (λ q h. ground (arith, h)) (has_key_self ps),
)

-- Of a list, at most `n` elements are not among those behind the first `n`.
kept_bound :
    (n : ℕ) (xs : List (Text × ℕ)) → length (select (λ q. not (has_key q.0 (drop n xs))) xs) ≤ n
kept_bound n xs =
    let f = λ (q : Text × ℕ). not (has_key q.0 (drop n xs)) in
    let e : select f xs ≡ select f (take n xs) ++ select f (drop n xs) =
      ap (select f) (sym (take-append-drop n xs)) ∙ select-append f (take n xs) (drop n xs) in
    omega (
      arith,
      ap (length {0}) e,
      ap (length {0}) (select-none f (drop n xs) (has_key_self (drop n xs))),
      length-append (select f (take n xs)) (select f (drop n xs)),
      length-select f (take n xs),
      length-take-le n xs,
    )

abbrev pub ready_count : Map Text CommitEntry → ℕ
ready_count m = length (keyed is_ready m)

-- After `mark_ready` at most `keep` commits of the repository are ready.
pub retain_bound :
    (keep : ℕ) (sha path : Text) (now : ℕ) (m : Map Text CommitEntry)
    → ready_count (retain keep sha path now m).0 ≤ keep
unfolding retain
retain_bound keep sha path now m =
    let marked = modify sha (made_ready path now) m in
    let sorted = sort_by older (keyed is_ready marked) in
    let f = λ (q : Text × ℕ). not (has_key q.0 (drop keep sorted)) in
    omega (
      arith,
      ap (length {0}) (keyed-evict is_ready (drop keep sorted) marked),
      length-select-sort_by older f (keyed is_ready marked),
      kept_bound keep sorted,
    )
