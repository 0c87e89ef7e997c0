-- ===== src/Indexer/Store/Newest.antt =====
-- Which ready commits the retention loop keeps: the most recently enqueued.
use aide_mcp.Base.{
  text_equal, Text, ℕ, Bool, List, arith, In, ◌≡◌, take, some, ◌∷◌, ◌≢◌, ◌⊎◌, true, Bool-cases,
  none, drop, text_same, In-append, take-append-drop, ◌≤◌, inl, text_same_iff, ap, inr, sym, false,
  [], refl, ltb,
}
use aide_mcp.Base.Sort.{
  IsOrder, sort_by, In-of_sort_by, In-drop, In-sort_by, sorted_split, sort_by-IsSorted,
}
use aide_mcp.Indexer.State.{CommitEntry}
use aide_mcp.Indexer.Store.Evict.{has_key, get-evict}
use aide_mcp.Indexer.Store.{retain, older, keyed, made_ready, is_ready}
use aide_mcp.Base.Map.{Map, get, Distinct, modify, Distinct-modify}

older_order : IsOrder older
older_order = record {
  asym = λ x y h. ground (arith, h);
  chain = λ x y z h k. ground (arith, h, k);
}

-- A ready commit is among the candidates, with its time.
pub In-keyed :
    (k : Text) (t : CommitEntry → Bool) (m : Map Text CommitEntry) (e : CommitEntry)
    → get k m ≡ some e
    → t e ≡ true
    → In (k, e.enqueued_at_unix) (keyed t m)
In-keyed k t [] e h r = absurd (cc h)
In-keyed k t ((j, f) ∷ m) e h r = elim (Bool-cases (text_same j k)) [
  | inl s ↦
      let same_entry : f ≡ e = ground (arith, h, s) in
      let same_key : j ≡ k = (text_same_iff j k).0 s in rw (same_entry, same_key, r) (inl refl)
  | inr s ↦
      let later_one : In (k, e.enqueued_at_unix) (keyed t m) =
        In-keyed k t m e (ground (arith, h, s)) r in
      elim (Bool-cases (t f)) [ inl u ↦ rw u (inr later_one) | inr u ↦ rw u later_one ]
]

keyed-head :
    (t : CommitEntry → Bool) (j : Text) (f : CommitEntry) (m : Map Text CommitEntry) (q : Text × ℕ)
    → In q (keyed t ((j, f) ∷ m))
    → (q ≡ (j, f.enqueued_at_unix)) ⊎ In q (keyed t m)
keyed-head t j f m q h = elim (Bool-cases (t f)) [ inl u ↦ rw u at h | inr u ↦ inr (rw u at h) ]

In-keyed-get :
    (t : CommitEntry → Bool) (q : Text × ℕ) (m : Map Text CommitEntry)
    → In q (keyed t m)
    → get q.0 m ≢ none
In-keyed-get t q [] h = absurd h
In-keyed-get t q ((j, f) ∷ m) h = elim (keyed-head t j f m q h) [
  | inl e ↦ ground (arith, text_same_iff j q.0, ap (λ (x : Text × ℕ). x.0) e)
  | inr r ↦ ground (arith, In-keyed-get t q m r)
]

-- With distinct keys a candidate carries the time of its commit.
keyed-time :
    (t : CommitEntry → Bool) (q : Text × ℕ) (m : Map Text CommitEntry) (e : CommitEntry)
    → Distinct m
    → In q (keyed t m)
    → get q.0 m ≡ some e
    → q.1 ≡ e.enqueued_at_unix
keyed-time t q [] e d h g = absurd h
keyed-time t q ((j, f) ∷ m) e d h g = elim (keyed-head t j f m q h) [
  | inl u ↦
      ground
        (arith, text_same_iff j q.0, ap (λ (x : Text × ℕ). x.0) u, ap (λ (x : Text × ℕ). x.1) u, g)
  | inr r ↦ elim (Bool-cases (text_same j q.0)) [
    | inl s ↦
        let k : j ≡ q.0 = (text_same_iff j q.0).0 s in absurd (In-keyed-get t q m r (rw (← k) d.0))
    | inr s ↦ keyed-time t q m e d.1 r (ground (arith, g, s))
  ]
]

has_key-In : (k : Text) (ps : List (Text × ℕ)) → has_key k ps ≡ true → (n : ℕ) × In (k, n) ps
unfolding has_key
has_key-In k [] h = absurd (cc h)
has_key-In k ((j, n) ∷ ps) h = elim (Bool-cases (text_same j k)) [
  | inl s ↦ (n, inl (ap (λ x. (x, n)) (sym ((text_same_iff j k).0 s))))
  | inr s ↦ let (i, r) = has_key-In k ps (ground (arith, h, s)) in (i, inr r)
]

In-has_key : (q : Text × ℕ) (ps : List (Text × ℕ)) → In q ps → has_key q.0 ps ≡ true
unfolding has_key
In-has_key q [] h = absurd h
In-has_key q (p ∷ ps) (inl e) = ground (arith, text_same_iff p.0 q.0, ap (λ (x : Text × ℕ). x.0) e)
In-has_key q (p ∷ ps) (inr h) = ground (arith, In-has_key q ps h)

In-take_or_drop :
    (n : ℕ) (q : Text × ℕ) (xs : List (Text × ℕ)) → In q xs → In q (take n xs) ⊎ In q (drop n xs)
In-take_or_drop n q xs h = In-append q (take n xs) (drop n xs) (rw (take-append-drop n xs) h)

-- With distinct commits, a commit that `mark_ready` drops was enqueued no later than any ready commit
-- that it keeps.
pub retain_newest :
    (keep : ℕ) (sha path : Text) (now : ℕ) (m : Map Text CommitEntry) (j k : Text)
    (dropped kept : CommitEntry)
    → Distinct m
    → get j (modify sha (made_ready path now) m) ≡ some dropped
    → get j (retain keep sha path now m).0 ≡ none
    → get k (retain keep sha path now m).0 ≡ some kept
    → is_ready kept ≡ true
    → dropped.enqueued_at_unix ≤ kept.enqueued_at_unix
unfolding retain
retain_newest keep sha path now m j k dropped kept d gj lost gk r =
    let marked = modify sha (made_ready path now) m in
    let sorted = sort_by older (keyed is_ready marked) in
    let tail = drop keep sorted in
    let dm : Distinct marked = Distinct-modify sha (made_ready path now) m d in
    let hit : has_key j tail ≡ true = ground (arith, get-evict j tail marked, lost, gj) in
    let miss : has_key k tail ≡ false = ground (arith, get-evict k tail marked, gk) in
    let found : get k marked ≡ some kept = ground (arith, get-evict k tail marked, gk, miss) in
    let (n, inside) = has_key-In j tail hit in
    let candidate : In (j, n) (keyed is_ready marked) =
      In-of_sort_by older (j, n) (keyed is_ready marked) (In-drop keep (j, n) sorted inside) in
    let stamp : n ≡ dropped.enqueued_at_unix =
      keyed-time is_ready (j, n) marked dropped dm candidate gj in
    let own : In (k, kept.enqueued_at_unix) sorted =
      In-sort_by older _ (keyed is_ready marked) (In-keyed k is_ready marked kept found r) in
    elim (In-take_or_drop keep (k, kept.enqueued_at_unix) sorted own) [
      | inl front ↦
          let ordered : ltb kept.enqueued_at_unix n ≡ false =
            sorted_split older (k, kept.enqueued_at_unix) keep (j, n) sorted
              (sort_by-IsSorted older older_order (keyed is_ready marked)) front inside in
          ground (arith, stamp, ordered)
      | inr back ↦ ground (arith, In-has_key (k, kept.enqueued_at_unix) tail back, miss)
    ]
