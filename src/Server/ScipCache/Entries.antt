-- ===== src/Server/ScipCache/Entries.antt =====
-- Where the entries of the cache and the calls under way come from.
use aide_mcp.Base.{
  text_equal, nat_equal, none, some, ℕ, Option, Text, ◌≡◌, arith, if◌then◌else◌, leb, length, ◌⊎◌,
  refl, inl, inr, Bool-cases, text_same, text_same_iff, ◌==◌,
}
use aide_mcp.Base.Map.{get, insert, get-insert, remove, get-remove}
use aide_mcp.Scip.{Index}
use aide_mcp.Server.ScipCache.{
  World, Task, ScipCache, ScipCacheEntry, hit_of, look_up, store, without, oldest,
}

pub inserted :
    (k j : ℕ) (t u : Task) (s : World)
    → get j (insert k t s.tasks) ≡ some u
    → (u ≡ t) ⊎ (get j s.tasks ≡ some u)
inserted k j t u s h = ground (arith, get-insert k j t s.tasks, h)

-- An entry after the first stretch was there before, at most with another time of use.
touched_source :
    (path other : Text) (now : ℕ) (cache : ScipCache) (entry e : ScipCacheEntry)
    → get path cache ≡ some entry
    → get other (insert path (record entry { last_used = now }) cache) ≡ some e
    → (old : ScipCacheEntry) × (get other cache ≡ some old)
      × (old.mtime ≡ e.mtime)
      × (old.index ≡ e.index)
touched_source path other now cache entry e there h = elim (Bool-cases (text_same path other)) [
  | inl same ↦ (
    entry,
    ground (arith, text_same_iff path other, same, there),
    ground (arith, get-insert path other (record entry { last_used = now }) cache, same, h),
    ground (arith, get-insert path other (record entry { last_used = now }) cache, same, h),
  )
  | inr differs ↦ (
    e,
    ground (arith, get-insert path other (record entry { last_used = now }) cache, differs, h),
    refl,
    refl,
  )
]

pub look_up-source :
    (path other : Text) (mtime now : ℕ) (cache : ScipCache) (e : ScipCacheEntry)
    → get other (look_up path mtime now cache).1 ≡ some e
    → (old : ScipCacheEntry) × (get other cache ≡ some old)
      × (old.mtime ≡ e.mtime)
      × (old.index ≡ e.index)
unfolding look_up
look_up-source path other mtime now cache e h = found (get path cache) refl h
  where
    found :
        (o : Option ScipCacheEntry)
        → get path cache ≡ o
        → get other (hit_of path mtime now cache o).1 ≡ some e
        → (old : ScipCacheEntry) × (get other cache ≡ some old)
          × (old.mtime ≡ e.mtime)
          × (old.index ≡ e.index)
    found none there g = (e, g, refl, refl)
    found (some entry) there g = elim (Bool-cases (entry.mtime == mtime)) [
      | inr changed ↦ (e, rw changed at g, refl, refl)
      | inl same ↦ touched_source path other now cache entry e there (rw same at g)
    ]

pub stored :
    (path other : Text) (mtime now : ℕ) (index : Index) (cache : ScipCache) (e : ScipCacheEntry)
    → get other (store path mtime now index cache) ≡ some e
    → ((path ≡ other) × (e ≡ record { mtime = mtime; last_used = now; index = index }))
      ⊎ (get other cache ≡ some e)
unfolding store
stored path other mtime now index cache e h =
    room (if leb 8 (length cache) then oldest cache else none) h
  where
    room :
        (o : Option (Text × ScipCacheEntry))
        → get other (
            insert path
              (record { mtime = mtime; last_used = now; index = index })
              (without o cache))
          ≡ some e
        → ((path ≡ other) × (e ≡ record { mtime = mtime; last_used = now; index = index }))
          ⊎ (get other cache ≡ some e)
    room none g = ground (
      arith,
      get-insert path other (record { mtime = mtime; last_used = now; index = index }) cache,
      text_same_iff path other,
      g,
    )
    room (some p) g = ground (
      arith,
      get-insert path other (record { mtime = mtime; last_used = now; index = index })
          (remove p.0 cache),
      text_same_iff path other,
      get-remove p.0 other cache,
      g,
    )
