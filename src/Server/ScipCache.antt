-- ===== src/Server/ScipCache.antt =====
-- `cached_scip_load` of crates/aide-mcp/src/server.rs. The lock is not held while an index is read and
-- decoded, nor while its metadata are, so that a call has four stretches, between which other calls run
-- and files change. What
-- reading a file gives stands in the file, since the decoding is that of the crate `scip`.
pub mod Bounded
pub mod Entries
pub mod Files
pub mod Fresh
pub mod Moments
use aide_mcp.Base.{
  text_equal, nat_equal, [], ◌∷◌, none, some, ℕ, if◌then◌else◌, Option, Text, ltb, leb, length,
  ◌==◌, ◌≡◌, ◌+◌,
}
use aide_mcp.Base.Map.{Map, remove, get, insert}
use aide_mcp.Base.Result.{Result, err, ok}
use aide_mcp.Scip.{Index}

pub record ScipCacheEntry : Type 0 where
  pub mtime : ℕ
  pub last_used : ℕ
  pub index : Index

abbrev pub ScipCache : Type 0
ScipCache = Map Text ScipCacheEntry

abbrev pub scip_cache_cap : ℕ
scip_cache_cap = 8

-- `min_by_key`: of several minimal elements the first one.
abbrev pub earlier :
    Text × ScipCacheEntry → Option (Text × ScipCacheEntry) → Option (Text × ScipCacheEntry)
earlier p none = some p
earlier p (some q) = if ltb q.1.last_used p.1.last_used then some q else some p

unfoldable pub oldest : ScipCache → Option (Text × ScipCacheEntry)
oldest [] = none
oldest (p ∷ cache) = earlier p (oldest cache)

abbrev pub hit_of : Text → ℕ → ℕ → ScipCache → Option ScipCacheEntry → Option Index × ScipCache
hit_of path mtime now cache none = (none, cache)
hit_of path mtime now cache (some entry) =
    if entry.mtime == mtime
    then (some entry.index, insert path (record entry { last_used = now }) cache)
    else (none, cache)

-- The stretch under the first lock.
unfoldable pub look_up : Text → ℕ → ℕ → ScipCache → Option Index × ScipCache
look_up path mtime now cache = hit_of path mtime now cache (get path cache)

abbrev pub without : Option (Text × ScipCacheEntry) → ScipCache → ScipCache
without none cache = cache
without (some p) cache = remove p.0 cache

-- The stretch under the second lock.
unfoldable pub store : Text → ℕ → ℕ → Index → ScipCache → ScipCache
unfolding oldest
store path mtime now index cache =
    insert path (record { mtime = mtime; last_used = now; index = index })
      (without (if leb scip_cache_cap (length cache) then oldest cache else none) cache)

pub record File : Type 0 where
  pub mtime : ℕ
  pub content : Result Text Index

-- A call of `cached_scip_load` between its stretches.
pub data Task : Type 0 where
  -- waits for the lock, with the time that the file had
  asked : (path : Text) (mtime : ℕ) → Task
  loading : (path : Text) (mtime : ℕ) → Task
  loaded : (path : Text) (mtime : ℕ) (index : Index) → Task
  returned : Result Text Index → Task

-- `clock` is that of the file system. It may stand still between writes, which then get the same time.
pub record World : Type 0 where
  pub disk : Map Text File
  pub clock : ℕ
  pub cache : ScipCache
  pub tasks : Map ℕ Task

abbrev pub looked_up : Text → ℕ → Option Index → Task
looked_up path mtime none = loading path mtime
looked_up path mtime (some index) = returned (ok index)

abbrev pub asked_of : Text → Option File → Task
asked_of path none = returned (err path)
asked_of path (some file) = asked path file.mtime

-- Call `k` begins: `metadata`.
unfoldable pub ask : ℕ → Text → World → World
ask k path s = record s { tasks = insert k (asked_of path (get path s.disk)) s.tasks }

-- Call `k` has the lock for the first time.
unfoldable pub look : ℕ → Text → ℕ → ℕ → World → World
unfolding look_up
look k path mtime now s =
    let found = look_up path mtime now s.cache in
    record s { cache = found.1; tasks = insert k (looked_up path mtime found.0) s.tasks }

abbrev pub load_of : Text → ℕ → Option File → Task
load_of path mtime none = returned (err path)
load_of path mtime (some file) = elim file.content [
  | ok index ↦ loaded path mtime index
  | err e ↦ returned (err e)
]

-- `aide_scip::load`, on the file that is there now.
unfoldable pub load : ℕ → Text → ℕ → World → World
load k path mtime s = record s { tasks = insert k (load_of path mtime (get path s.disk)) s.tasks }

unfoldable pub finish : ℕ → Text → ℕ → Index → ℕ → World → World
unfolding store
finish k path mtime index now s = record s {
  cache = store path mtime now index s.cache;
  tasks = insert k (returned (ok index)) s.tasks;
}

-- What the call would return if there were no cache.
abbrev pub uncached : Text → World → Result Text Index
uncached path s = elim (get path s.disk) [ none ↦ err path | some file ↦ file.content ]

abbrev pub write : Text → Result Text Index → World → World
write path content s = record s {
  disk = insert path (record { mtime = s.clock; content = content }) s.disk;
}

abbrev pub tick : World → World
tick s = record s { clock = s.clock + 1 }

abbrev pub delete : Text → World → World
delete path s = record s { disk = remove path s.disk }

pub data Step : World → World → Type 0 where
  asks : (k : ℕ) (path : Text) (s : World) → get k s.tasks ≡ none → Step s (ask k path s)
  looks :
      (k : ℕ) (path : Text) (mtime now : ℕ) (s : World)
      → get k s.tasks ≡ some (asked path mtime)
      → Step s (look k path mtime now s)
  loads :
      (k : ℕ) (path : Text) (mtime : ℕ) (s : World)
      → get k s.tasks ≡ some (loading path mtime)
      → Step s (load k path mtime s)
  finishes :
      (k : ℕ) (path : Text) (mtime : ℕ) (index : Index) (now : ℕ) (s : World)
      → get k s.tasks ≡ some (loaded path mtime index)
      → Step s (finish k path mtime index now s)
  writes : (path : Text) (content : Result Text Index) (s : World) → Step s (write path content s)
  deletes : (path : Text) (s : World) → Step s (delete path s)
  ticks : (s : World) → Step s (tick s)

pub data Run (a : World) : World → Type 0 where
  here : Run a a
  next : {b c : World} → Run a b → Step b c → Run a c

abbrev pub empty : World
empty = record { disk = []; clock = 0; cache = []; tasks = [] }
