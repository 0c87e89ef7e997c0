-- ===== src/Server/ScipCache/Bounded.antt =====
-- The cache of `cached_scip_load` holds few indexes.
use aide_mcp.Base.{
  text_equal, nat_equal, none, some, ℕ, Option, Text, ◌≡◌, [], ◌∷◌, false, arith, refl, inl, inr,
  ◌≤◌, ◌≢◌, sym, Bool-cases, text_same, length, Option-cases, leb, ◌==◌, same_refl, ltb,
  text_same_iff, subst,
}
use aide_mcp.Server.ScipCache.{
  World, ScipCache, ScipCacheEntry, look_up, hit_of, store, oldest, earlier, load, finish, Step,
  Run, empty, scip_cache_cap, asks, looks, ticks, ask, look, loads, finishes, writes, deletes, here,
  next,
}
use aide_mcp.Base.Map.{
  Distinct, get, Distinct-insert, length-insert, length-insert_known, Distinct-remove, remove,
  length-remove_known,
}
use aide_mcp.Scip.{Index}

abbrev IsBounded : ScipCache → Type 0
IsBounded cache = Distinct cache × (length cache ≤ scip_cache_cap)

oldest-get :
    (cache : ScipCache) (p : Text × ScipCacheEntry)
    → Distinct cache
    → oldest cache ≡ some p
    → get p.0 cache ≡ some p.1
unfolding oldest
oldest-get [] p d h = absurd (cc h)
oldest-get ((path, e) ∷ cache) p d h = elim (Option-cases (oldest cache)) [
  | inl last ↦
      let is_first : p ≡ (path, e) = ground (arith, h, last) in
      rw is_first (rw (same_refl path) refl)
  | inr (q, found) ↦ elim (Bool-cases (ltb q.1.last_used e.last_used)) [
    | inl less ↦
        let is_other : p ≡ q = ground (arith, h, found, less) in
        let there = oldest-get cache q d.1 found in
        let apart : text_same path q.0 ≡ false =
          ground (arith, text_same_iff path q.0, d.0, there) in
        subst (λ (x : Text × ScipCacheEntry). get x.0 ((path, e) ∷ cache) ≡ some x.1) (sym is_other)
          (rw apart there)
    | inr more ↦
        let is_first : p ≡ (path, e) = ground (arith, h, found, more) in
        rw is_first (rw (same_refl path) refl)
  ]
]

oldest-some : (cache : ScipCache) → 1 ≤ length cache → oldest cache ≢ none
unfolding oldest
oldest-some [] h e = absurd (omega arith)
oldest-some (p ∷ cache) h e = some_earlier p (oldest cache) e
  where
    some_earlier :
        (p : Text × ScipCacheEntry) (o : Option (Text × ScipCacheEntry)) → earlier p o ≢ none
    some_earlier p none e = absurd (cc e)
    some_earlier p (some q) e = ground (arith, e)

store-IsBounded :
    (path : Text) (mtime now : ℕ) (index : Index) (cache : ScipCache)
    → IsBounded cache
    → IsBounded (store path mtime now index cache)
unfolding store
store-IsBounded path mtime now index cache (d, few) =
    let entry : ScipCacheEntry = record { mtime = mtime; last_used = now; index = index } in
    elim (Bool-cases (leb scip_cache_cap (length cache))) [
      | inr room ↦
          rw room (
            Distinct-insert path entry cache d,
            ground (arith, length-insert path entry cache, room),
          )
      | inl full ↦ rw full (elim (Option-cases (oldest cache)) [
        | inl empty ↦ absurd (oldest-some cache (ground (arith, full)) empty)
        | inr (p, found) ↦ rw found (
          Distinct-insert path entry _ (Distinct-remove p.0 cache d),
          omega (
            arith,
            length-insert path entry (remove p.0 cache),
            length-remove_known p.0 cache p.1 (oldest-get cache p d found),
            few,
          ),
        )
      ])
    ]

look_up-IsBounded :
    (path : Text) (mtime now : ℕ) (cache : ScipCache)
    → IsBounded cache
    → IsBounded (look_up path mtime now cache).1
unfolding look_up
look_up-IsBounded path mtime now cache (d, few) = hit (get path cache) refl
  where
    hit :
        (o : Option ScipCacheEntry)
        → get path cache ≡ o
        → IsBounded (hit_of path mtime now cache o).1
    hit none there = (d, few)
    hit (some entry) there = elim (Bool-cases (entry.mtime == mtime)) [
      | inr changed ↦ rw changed (d, few)
      | inl same ↦
          let touched = record entry { last_used = now } in
          rw same (
            Distinct-insert path touched cache d,
            omega (arith, length-insert_known path touched cache entry there, few),
          )
    ]

Step-IsBounded : {a b : World} → Step a b → IsBounded a.cache → IsBounded b.cache
unfolding ask look load finish
Step-IsBounded (asks k path s free) v = v
Step-IsBounded (looks k path mtime now s there) v = look_up-IsBounded path mtime now s.cache v
Step-IsBounded (loads k path mtime s there) v = v
Step-IsBounded (finishes k path mtime index now s there) v =
    store-IsBounded path mtime now index s.cache v
Step-IsBounded (writes path content s) v = v
Step-IsBounded (deletes path s) v = v
Step-IsBounded (ticks s) v = v

-- Over every run of calls of `cached_scip_load` and changes of the files, also where calls overlap: the
-- cache never holds more than 8 indexes, and none twice.
pub Run-bounded : {s : World} → Run empty s → Distinct s.cache × (length s.cache ≤ scip_cache_cap)
Run-bounded here = (tt, omega arith)
Run-bounded (next r s) = Step-IsBounded s (Run-bounded r)
