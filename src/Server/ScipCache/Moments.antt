-- ===== src/Server/ScipCache/Moments.antt =====
-- A call of `cached_scip_load` returns what reading the file at some moment of the call would give.
use aide_mcp.Base.{text_equal, nat_equal, some, ℕ, Text, ◌≡◌}
use aide_mcp.Base.Map.{get}
use aide_mcp.Base.Result.{Result, ok}
use aide_mcp.Scip.{Index}
use aide_mcp.Server.ScipCache.{
  World, File, Task, asked, loading, loaded, returned, ScipCacheEntry, Run, uncached,
}

-- Between `a` and `b` there is a moment at which the call would return `r` without the cache.
abbrev pub IsSeen : World → World → Text → Result Text Index → Type 0
IsSeen a b path r = (s : World) × Run a s × Run s b × (uncached path s ≡ r)

-- Call `k` for `path` begins in the world `a`.
module _ (a : World) (k : ℕ) (path : Text) where
  -- The call finds this time of its file.
  abbrev HasTime : ℕ → Type 0
  HasTime mtime = (file : File) × (get path a.disk ≡ some file) × (file.mtime ≡ mtime)

  abbrev IsOwn : World → Task → Type 0
  IsOwn s (asked other mtime) = (path ≡ other) × HasTime mtime
  IsOwn s (loading other mtime) = (path ≡ other) × HasTime mtime
  IsOwn s (loaded other mtime index) = (path ≡ other) × HasTime mtime
  IsOwn s (returned r) = IsSeen a s path r

  abbrev IsSeenTask : World → Task → Type 0
  IsSeenTask s (asked other mtime) = Unit
  IsSeenTask s (loading other mtime) = Unit
  IsSeenTask s (loaded other mtime index) =
      path ≡ other → HasTime mtime → IsSeen a s path (ok index)
  IsSeenTask s (returned r) = Unit

  -- What the call may find is what the file held since the call began.
  record IsDuring (s : World) : Type 0 where
    reached : Run a s
    entries :
        (e : ScipCacheEntry)
        → get path s.cache ≡ some e
        → HasTime e.mtime
        → IsSeen a s path (ok e.index)
    seen : (j : ℕ) (t : Task) → get j s.tasks ≡ some t → IsSeenTask s t
    own : (t : Task) × (get k s.tasks ≡ some t) × IsOwn s t
