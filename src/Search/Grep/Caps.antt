-- ===== src/Search/Grep/Caps.antt =====
-- The caps of a search: on the matches of a file and on all matches.
use mathlib.Core.Bool.{false≢true}
use aide_mcp.Base.{
  text_equal, [], ◌∷◌, none, some, true, false, ℕ, ◌≡◌, arith, refl, ◌++◌, inl, inr, List, Bool,
  Text, ◌≤◌, ◌<◌, ◌+◌, ◌-◌, ap, ◌∙◌, Bool-cases, All, min, All-append, ◌==◌, List-cases, leb, sym,
  append-nil, subst, append_assoc,
}
use aide_mcp.Search.Grep.{
  LineMatch, Call, GrepHit, GrepOptions, matched, Progress, grep_files, context, fresh, search_file,
  grep,
}
use aide_mcp.Search.Grep.Counts.{
  IsContext, IsCounted, matches, per_file_cap-search_file, search_file-IsCounted,
}

-- The matches of all hits.
abbrev pub all_matches : List GrepHit → ℕ
all_matches [] = 0
all_matches (h ∷ hs) = matches h.lines + all_matches hs

all_matches-append :
    (hs ks : List GrepHit) → all_matches (hs ++ ks) ≡ all_matches hs + all_matches ks
all_matches-append [] ks = omega arith
all_matches-append (h ∷ hs) ks = omega (arith, all_matches-append hs ks)

-- A search that ends with fewer matches than the smaller of two caps is the same under either.
search_file-cap :
    (cs : List Call) (ls : List LineMatch) (n c d : ℕ)
    → c ≤ d
    → (search_file cs (record { lines = ls; match_count = n; per_file_cap = c })).match_count < c
    → ((search_file cs (record { lines = ls; match_count = n; per_file_cap = d })).lines
        ≡ (search_file cs (record { lines = ls; match_count = n; per_file_cap = c })).lines)
unfolding search_file
search_file-cap [] ls n c d le h = refl
search_file-cap (matched line bytes ∷ cs) ls n c d le h = elim (Bool-cases (leb c n)) [
  | inl full ↦ absurd (ground (arith, h, full))
  | inr room ↦
      let room' : leb d n ≡ false = ground (arith, room) in
      rw (room, room') (search_file-cap cs _ (n + 1) c d le (rw room at h))
]
search_file-cap (context line bytes none ∷ cs) ls n c d le h = search_file-cap cs ls n c d le h
search_file-cap (context line bytes (some kind) ∷ cs) ls n c d le h =
    search_file-cap cs _ n c d le h

-- With matches to spare, the smaller of two caps is as good as the first.
same_lines :
    (cs : List Call) (per_file left : ℕ)
    → (search_file cs (fresh (min per_file left))).match_count < left
    → (search_file cs (fresh per_file)).lines ≡ (search_file cs (fresh (min per_file left))).lines
same_lines cs per_file left h = elim (Bool-cases (leb per_file left)) [
  | inl small ↦
      let is_first : per_file ≡ min per_file left = ground (arith, small) in
      ap (λ c. (search_file cs (fresh c)).lines) is_first
  | inr big ↦
      let is_second : min per_file left ≡ left = ground (arith, big) in
      search_file-cap cs [] 0 (min per_file left) per_file (omega arith) (
        subst (λ c. (search_file cs (fresh (min per_file left))).match_count < c) (sym is_second) h)
]

module _ (calls : Text → List Call) (options : GrepOptions) where
  -- What holds between two files.
  pub record IsWithin (p : Progress) : Type 0 where
    pub total : all_matches p.hits ≡ p.total_matches
    pub bounded : p.total_matches ≤ options.max_results
    pub per_file : All (λ (h : GrepHit). matches h.lines ≤ options.max_results_per_file) p.hits

  grep_files-IsWithin :
      (files : List Text) (p : Progress)
      → ((rel : Text) → All IsContext (calls rel))
      → IsWithin p
      → IsWithin (grep_files calls options files p)
  unfolding grep_files
  grep_files-IsWithin [] p c w = w
  grep_files-IsWithin (rel ∷ files) p c w =
      let left = min options.max_results_per_file (options.max_results - p.total_matches) in
      let start : IsCounted (fresh left) = record { counted = refl; bounded = omega arith } in
      let counted = search_file-IsCounted (calls rel) (fresh left) (c rel) start in
      let sink = search_file (calls rel) (fresh left) in
      let hit : GrepHit = record { path = rel; lines = sink.lines } in
      let size : sink.match_count ≤ left =
        omega (arith, counted.bounded, per_file_cap-search_file (calls rel) (fresh left)) in
      let wider = λ (t : Bool).
        let q : IsWithin (record {
          hits = p.hits ++ hit ∷ [];
          total_matches = p.total_matches + sink.match_count;
          truncated = t;
        }) =
          record {
            total = omega (arith, all_matches-append p.hits (hit ∷ []), w.total, counted.counted);
            bounded = omega (arith, size, w.bounded);
            per_file =
                All-append _ p.hits (hit ∷ []) w.per_file
                  (omega (arith, size, counted.counted), tt);
          } in
        q in
      elim (Bool-cases (options.max_results - p.total_matches == 0)) [
        | inl stop ↦
            rw stop (record { total = w.total; bounded = w.bounded; per_file = w.per_file })
        | inr more ↦ rw more (elim (List-cases sink.lines) [
          | inl empty ↦ rw empty (grep_files-IsWithin files p c w)
          | inr (l, ls, e) ↦
              rw e
                (elim (Bool-cases (leb options.max_results (p.total_matches + sink.match_count))) [
                  | inl stop ↦ rw stop (wider true)
                  | inr further ↦ rw further (grep_files-IsWithin files _ c (wider p.truncated))
                ])
        ])
      ]

  abbrev pub hit_of : Text → List LineMatch → List GrepHit
  hit_of rel [] = []
  hit_of rel (l ∷ ls) = record { path = rel; lines = l ∷ ls } ∷ []

  -- The hits with no cap on all matches.
  abbrev pub all_hits : List Text → List GrepHit
  all_hits [] = []
  all_hits (rel ∷ files) =
      hit_of rel (search_file (calls rel) (fresh options.max_results_per_file)).lines
      ++ all_hits files

  grep_files-all_hits :
      (files : List Text) (p : Progress)
      → ((rel : Text) → All IsContext (calls rel))
      → (grep_files calls options files p).truncated ≡ false
      → (grep_files calls options files p).hits ≡ p.hits ++ all_hits files
  unfolding grep_files
  grep_files-all_hits [] p c h = sym (append-nil p.hits)
  grep_files-all_hits (rel ∷ files) p c h =
      let remaining = options.max_results - p.total_matches in
      let left = min options.max_results_per_file remaining in
      let start : IsCounted (fresh left) = record { counted = refl; bounded = omega arith } in
      let sink = search_file (calls rel) (fresh left) in
      let counted = search_file-IsCounted (calls rel) (fresh left) (c rel) start in
      elim (Bool-cases (remaining == 0)) [
        | inl stop ↦ absurd (false≢true (sym (rw stop at h)))
        | inr more ↦ rw more (elim (List-cases sink.lines) [
          | inl empty ↦
              let none_counted : sink.match_count ≡ 0 =
                omega (arith, counted.counted, ap matches empty) in
              let same =
                same_lines (calls rel) options.max_results_per_file remaining
                  (ground (arith, none_counted, more)) in
              let no_hit : all_hits files ≡ all_hits (rel ∷ files) =
                ap (λ ls. hit_of rel ls ++ all_hits files) (sym (same ∙ empty)) in
              rw empty (
                grep_files-all_hits files p c (rw (more, empty) at h)
                ∙ ap (λ hs. p.hits ++ hs) no_hit)
          | inr (l, ls, e) ↦
              rw e
                (elim (Bool-cases (leb options.max_results (p.total_matches + sink.match_count))) [
                  | inl stop ↦ absurd (false≢true (sym (rw (more, e, stop) at h)))
                  | inr further ↦
                      let same =
                        same_lines (calls rel) options.max_results_per_file remaining
                          (ground (arith, further)) in
                      let hit = λ (ks : List LineMatch).
                        let g : GrepHit = record { path = rel; lines = ks } in g in
                      let one_hit : hit sink.lines ∷ all_hits files ≡ all_hits (rel ∷ files) =
                        ap (λ ks. hit ks ∷ all_hits files) e
                        ∙ ap (λ ks. hit_of rel ks ++ all_hits files) (sym (same ∙ e)) in
                      rw further (
                        grep_files-all_hits files _ c (rw (more, e, further) at h)
                        ∙ append_assoc p.hits (hit sink.lines ∷ []) (all_hits files)
                        ∙ ap (λ hs. p.hits ++ hs) one_hit)
                ])
        ])
      ]

  -- A search reports at most `max_results` matches, at most `max_results_per_file` in each file, and
  -- counts them right, if the searcher reports no context line as a match.
  pub grep_capped :
      (files : List Text)
      → ((rel : Text) → All IsContext (calls rel))
      → (all_matches (grep calls options files).hits ≡ (grep calls options files).total_matches)
        × ((grep calls options files).total_matches ≤ options.max_results)
        × All
            (λ (h : GrepHit). matches h.lines ≤ options.max_results_per_file)
            (grep calls options files).hits
  unfolding grep
  grep_capped files c =
      let w =
        grep_files-IsWithin files (record { hits = []; total_matches = 0; truncated = false }) c
          (record { total = refl; bounded = omega arith; per_file = tt }) in
      (w.total, w.bounded, w.per_file)

  -- A search that is not marked as truncated has the hits of the search with no cap on all matches, if
  -- the searcher reports no context line as a match.
  pub grep_untruncated :
      (files : List Text)
      → ((rel : Text) → All IsContext (calls rel))
      → (grep calls options files).truncated ≡ false
      → (grep calls options files).hits ≡ all_hits files
  unfolding grep
  grep_untruncated files c h =
      grep_files-all_hits files (record { hits = []; total_matches = 0; truncated = false }) c h
