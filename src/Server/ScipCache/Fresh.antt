-- ===== src/Server/ScipCache/Fresh.antt =====
-- The cache of `cached_scip_load` is right for the files, if a file that is written again at the same time
-- gets the same content.
use aide_mcp.Base.{
  text_equal, nat_equal, none, some, ℕ, Option, Text, ◌≡◌, refl, inl, inr, sym, ◌∙◌, ap, arith,
}
use aide_mcp.Base.Map.{get, insert}
use aide_mcp.Base.Result.{Result, ok, err}
use aide_mcp.Scip.{Index}
use aide_mcp.Server.ScipCache.{
  World, File, Task, asked, loading, loaded, returned, ScipCache, ScipCacheEntry, look_up,
  looked_up, store, ask, asked_of, look, load, load_of, finish, Step, Run, asks, looks, loads,
  finishes, writes, deletes, ticks, here, next, empty,
}
use aide_mcp.Server.ScipCache.Entries.{inserted, look_up-source, stored}
use aide_mcp.Server.ScipCache.Files.{
  IsVersion, IsNotAfter, IsFreshTask, IsFresh, write-IsFresh, delete-IsFresh, tick-IsFresh,
}

module _ (content_of : Text → ℕ → Result Text Index) where
  -- A call goes on to a stretch that is fresh, and the cache has only fresh entries.
  moved :
      (s : World) (k : ℕ) (t : Task) (cache : ScipCache)
      → IsFresh content_of s
      → ((path : Text) (e : ScipCacheEntry)
          → get path cache ≡ some e
          → IsVersion content_of s path e.mtime e.index)
      → IsFreshTask content_of s t
      → IsFresh content_of (record s { cache = cache; tasks = insert k t s.tasks })
  moved s k t cache v c f = record {
    dated = v.dated;
    cached = c;
    tasks = λ j u h. elim (inserted k j t u s h) [
      | inl same ↦ same_world u (rw same f)
      | inr other ↦ same_world u (v.tasks j u other)
    ];
  }
    where
      same_world :
          (u : Task)
          → IsFreshTask content_of s u
          → IsFreshTask content_of (record s { cache = cache; tasks = insert k t s.tasks }) u
      same_world (asked path mtime) g = g
      same_world (loading path mtime) g = g
      same_world (loaded path mtime index) g = g
      same_world (returned r) g = tt

  ask-IsFresh :
      (k : ℕ) (path : Text) (s : World) → IsFresh content_of s → IsFresh content_of (ask k path s)
  unfolding ask
  ask-IsFresh k path s v =
      moved s k (asked_of path (get path s.disk)) s.cache v v.cached (found (get path s.disk) refl)
    where
      found : (o : Option File) → get path s.disk ≡ o → IsFreshTask content_of s (asked_of path o)
      found none there = tt
      found (some file) there = (
        (v.dated path file there).0,
        λ other h. let same : file ≡ other = cc (sym there ∙ h) in rw same (omega arith),
      )

  look-IsFresh :
      (k : ℕ) (path : Text) (mtime now : ℕ) (s : World)
      → IsNotAfter content_of s path mtime
      → IsFresh content_of s
      → IsFresh content_of (look k path mtime now s)
  unfolding look
  look-IsFresh k path mtime now s older v =
      moved s k _ (look_up path mtime now s.cache).1 v
        (λ other e h.
          let (old, before, times, indices) = look_up-source path other mtime now s.cache e h in
          rw (sym times, sym indices) (v.cached other old before))
        (found (look_up path mtime now s.cache).0)
    where
      found : (o : Option Index) → IsFreshTask content_of s (looked_up path mtime o)
      found none = older
      found (some index) = tt

  load-IsFresh :
      (k : ℕ) (path : Text) (mtime : ℕ) (s : World)
      → IsNotAfter content_of s path mtime
      → IsFresh content_of s
      → IsFresh content_of (load k path mtime s)
  unfolding load
  load-IsFresh k path mtime s (older, old) v =
      moved s k (load_of path mtime (get path s.disk)) s.cache v v.cached
        (read (get path s.disk) refl)
    where
      content :
          (file : File) (r : Result Text Index)
          → file.content ≡ r
          → get path s.disk ≡ some file
          → IsFreshTask content_of s
              (elim r [ ok index ↦ loaded path mtime index | err e ↦ returned (err e) ])
      content file (err e) c there = tt
      content file (ok index) c there =
          let (dated, stamped) = v.dated path file there in
          (
            (older, old),
            (
              λ now.
                  let below = old file there in
                  let exact : file.mtime ≡ mtime = omega arith in
                  ap (content_of path) (sym exact) ∙ sym stamped ∙ c,
              λ other h times.
                  let same : file ≡ other = cc (sym there ∙ h) in
                  ap (λ (f : File). f.content) (sym same) ∙ c,
            ),
          )

      read :
          (o : Option File) → get path s.disk ≡ o → IsFreshTask content_of s (load_of path mtime o)
      read none there = tt
      read (some file) there = content file file.content refl there

  finish-IsFresh :
      (k : ℕ) (path : Text) (mtime : ℕ) (index : Index) (now : ℕ) (s : World)
      → IsVersion content_of s path mtime index
      → IsFresh content_of s
      → IsFresh content_of (finish k path mtime index now s)
  unfolding finish
  finish-IsFresh k path mtime index now s version v =
      moved s k (returned (ok index)) (store path mtime now index s.cache) v
        (λ other e h. elim (stored path other mtime now index s.cache e h) [
          | inr before ↦ v.cached other e before
          | inl (same, new) ↦ rw (new, sym same) version
        ])
        tt

  -- Whatever is written to a file at one time is the same.
  abbrev pub IsStampedStep : {a b : World} → Step a b → Type 0
  IsStampedStep (asks k path s free) = Unit
  IsStampedStep (looks k path mtime now s there) = Unit
  IsStampedStep (loads k path mtime s there) = Unit
  IsStampedStep (finishes k path mtime index now s there) = Unit
  IsStampedStep (writes path content s) = content ≡ content_of path s.clock
  IsStampedStep (deletes path s) = Unit
  IsStampedStep (ticks s) = Unit

  abbrev pub IsStamped : {a b : World} → Run a b → Type 0
  IsStamped here = Unit
  IsStamped (next r st) = IsStamped r × IsStampedStep st

  Step-IsFresh :
      {a b : World} (st : Step a b) → IsStampedStep st → IsFresh content_of a → IsFresh content_of b
  Step-IsFresh (asks k path s free) i v = ask-IsFresh k path s v
  Step-IsFresh (looks k path mtime now s there) i v =
      look-IsFresh k path mtime now s (v.tasks k _ there) v
  Step-IsFresh (loads k path mtime s there) i v = load-IsFresh k path mtime s (v.tasks k _ there) v
  Step-IsFresh (finishes k path mtime index now s there) i v =
      finish-IsFresh k path mtime index now s (v.tasks k _ there) v
  Step-IsFresh (writes path content s) i v = write-IsFresh content_of path content s i v
  Step-IsFresh (deletes path s) i v = delete-IsFresh content_of path s v
  Step-IsFresh (ticks s) i v = tick-IsFresh content_of s v

  pub Run-IsFresh :
      {a b : World} (r : Run a b) → IsStamped r → IsFresh content_of a → IsFresh content_of b
  Run-IsFresh here i v = v
  Run-IsFresh (next r st) i v = Step-IsFresh st i.1 (Run-IsFresh r i.0 v)

  pub empty-IsFresh : IsFresh content_of empty
  empty-IsFresh = record {
    dated = λ path file h. absurd (cc h);
    cached = λ path e h. absurd (cc h);
    tasks = λ k t h. absurd (cc h);
  }
