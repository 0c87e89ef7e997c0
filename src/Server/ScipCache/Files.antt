-- ===== src/Server/ScipCache/Files.antt =====
-- When an entry is right for its file, and that changes of the files keep it so, if a file that is written
-- again at the same time gets the same content.
use aide_mcp.Base.{
  text_equal, nat_equal, some, ℕ, Text, ◌≡◌, ◌≤◌, ◌∙◌, ap, sym, arith, inl, inr, text_same_iff,
  refl, ◌⊎◌,
}
use aide_mcp.Base.Map.{get, get-insert, get-remove}
use aide_mcp.Base.Result.{ok, Result}
use aide_mcp.Scip.{Index}
use aide_mcp.Server.ScipCache.{
  World, File, Task, asked, loading, loaded, returned, write, delete, tick, ScipCacheEntry,
}

module _ (content_of : Text → ℕ → Result Text Index) where
  -- No file is older than the time, and one that has the time has the index.
  abbrev pub IsNotAfter : World → Text → ℕ → Type 0
  IsNotAfter s path mtime =
      (mtime ≤ s.clock) × ((file : File) → get path s.disk ≡ some file → mtime ≤ file.mtime)

  abbrev pub IsVersion : World → Text → ℕ → Index → Type 0
  IsVersion s path mtime index =
      IsNotAfter s path mtime
      × ((s.clock ≡ mtime → content_of path mtime ≡ ok index)
          × ((file : File)
              → get path s.disk ≡ some file
              → file.mtime ≡ mtime
              → file.content ≡ ok index))

  abbrev pub IsFreshTask : World → Task → Type 0
  IsFreshTask s (asked path mtime) = IsNotAfter s path mtime
  IsFreshTask s (loading path mtime) = IsNotAfter s path mtime
  IsFreshTask s (loaded path mtime index) = IsVersion s path mtime index
  IsFreshTask s (returned r) = Unit

  pub record IsFresh (s : World) : Type 0 where
    pub dated :
        (path : Text) (file : File)
        → get path s.disk ≡ some file
        → (file.mtime ≤ s.clock) × (file.content ≡ content_of path file.mtime)
    pub cached :
        (path : Text) (e : ScipCacheEntry)
        → get path s.cache ≡ some e
        → IsVersion s path e.mtime e.index
    pub tasks : (k : ℕ) (t : Task) → get k s.tasks ≡ some t → IsFreshTask s t

  -- A change of the world that keeps all versions right, and what is on the disk.
  pub changed-IsFresh :
      (a b : World)
      → b.cache ≡ a.cache
      → b.tasks ≡ a.tasks
      → ((path : Text) (mtime : ℕ) → IsNotAfter a path mtime → IsNotAfter b path mtime)
      → ((path : Text) (mtime : ℕ) (index : Index)
          → IsVersion a path mtime index
          → IsVersion b path mtime index)
      → ((path : Text) (file : File)
          → get path b.disk ≡ some file
          → (file.mtime ≤ b.clock) × (file.content ≡ content_of path file.mtime))
      → IsFresh a
      → IsFresh b
  changed-IsFresh a b same_cache same_tasks times versions disk v = record {
    dated = disk;
    cached = λ path e h.
        versions path e.mtime e.index (v.cached path e (ap (get path) (sym same_cache) ∙ h));
    tasks = λ k t h. task t (v.tasks k t (ap (get k) (sym same_tasks) ∙ h));
  }
    where
      task : (t : Task) → IsFreshTask a t → IsFreshTask b t
      task (asked path mtime) older = times path mtime older
      task (loading path mtime) older = times path mtime older
      task (loaded path mtime index) version = versions path mtime index version
      task (returned r) done = tt

  -- The file after a write is the new one or was there before.
  written :
      (path other : Text) (content : Result Text Index) (s : World) (file : File)
      → get other (write path content s).disk ≡ some file
      → ((path ≡ other) × (file ≡ record { mtime = s.clock; content = content }))
        ⊎ (get other s.disk ≡ some file)
  written path other content s file h = ground (
    arith,
    get-insert path other (record { mtime = s.clock; content = content }) s.disk,
    text_same_iff path other,
    h,
  )

  write-IsNotAfter :
      (path other : Text) (content : Result Text Index) (mtime : ℕ) (s : World)
      → IsNotAfter s other mtime
      → IsNotAfter (write path content s) other mtime
  write-IsNotAfter path other content mtime s (older, old) = (
    older,
    λ file h. elim (written path other content s file h) [
      | inl (same, new) ↦ rw new older
      | inr before ↦ old file before
    ],
  )

  pub write-IsFresh :
      (path : Text) (content : Result Text Index) (s : World)
      → content ≡ content_of path s.clock
      → IsFresh s
      → IsFresh (write path content s)
  write-IsFresh path content s stamped v =
      changed-IsFresh s (write path content s) refl refl
        (λ other mtime h. write-IsNotAfter path other content mtime s h)
        (λ other mtime index (older, (at_clock, agrees)). (
          write-IsNotAfter path other content mtime s older,
          (
            at_clock,
            λ file h times. elim (written path other content s file h) [
              | inl (same, new) ↦
                  let now : s.clock ≡ mtime = ap (λ (f : File). f.mtime) (sym new) ∙ times in
                  ap (λ (f : File). f.content) new
                  ∙ stamped
                  ∙ ap (λ p. content_of p s.clock) same
                  ∙ ap (content_of other) now
                  ∙ at_clock now
              | inr before ↦ agrees file before times
            ],
          ),
        ))
        (λ other file h. elim (written path other content s file h) [
          | inl (same, new) ↦ rw new (omega arith, stamped ∙ ap (λ p. content_of p s.clock) same)
          | inr before ↦ v.dated other file before
        ])
        v

  left :
      (path other : Text) (s : World) (file : File)
      → get other (delete path s).disk ≡ some file
      → get other s.disk ≡ some file
  left path other s file h = ground (arith, get-remove path other s.disk, h)

  pub delete-IsFresh : (path : Text) (s : World) → IsFresh s → IsFresh (delete path s)
  delete-IsFresh path s v =
      changed-IsFresh s (delete path s) refl refl
        (λ other mtime (older, old). (older, λ file h. old file (left path other s file h)))
        (λ other mtime index ((older, old), (at_clock, agrees)). (
          (older, λ file h. old file (left path other s file h)),
          (at_clock, λ file h. agrees file (left path other s file h)),
        ))
        (λ other file h. v.dated other file (left path other s file h)) v

  pub tick-IsFresh : (s : World) → IsFresh s → IsFresh (tick s)
  tick-IsFresh s v =
      changed-IsFresh s (tick s) refl refl (λ path mtime (older, old). (omega arith, old))
        (λ path mtime index ((older, old), (at_clock, agrees)).
          ((omega arith, old), (λ now. absurd (omega arith), agrees)))
        (λ path file h. let (older, content) = v.dated path file h in (omega arith, content)) v
