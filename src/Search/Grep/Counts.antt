-- ===== src/Search/Grep/Counts.antt =====
-- The matches of one file: the sink counts them right and respects its cap.
use aide_mcp.Base.{
  text_equal, [], ◌∷◌, none, some, true, false, ℕ, ◌≡◌, arith, refl, ◌++◌, inl, inr, List, Bool,
  ◌≤◌, ◌+◌, ◌≢◌, ap, ◌∙◌, Bool-cases, All, length, select, select-append, length-append, leb,
}
use aide_mcp.Search.Grep.{
  LineMatch, Call, CollectSink, matched, is_match, context, search_file, strip_eol, before, after,
}

abbrev pub is_match_line : LineMatch → Bool
is_match_line l = elim l.kind [ is_match ↦ true | _ ↦ false ]

-- The matches among the lines of a hit.
abbrev pub matches : List LineMatch → ℕ
matches ls = length (select is_match_line ls)

-- Calls with context of the kinds that there are: a match is reported as such.
abbrev pub IsContext : Call → Type 0
IsContext (matched line bytes) = Unit
IsContext (context line bytes kind) = kind ≢ some is_match

-- The sink's count is the number of its matches, and the cap holds it.
pub record IsCounted (sink : CollectSink) : Type 0 where
  pub counted : matches sink.lines ≡ sink.match_count
  pub bounded : sink.match_count ≤ sink.per_file_cap

matches-append : (xs ys : List LineMatch) → matches (xs ++ ys) ≡ matches xs + matches ys
matches-append xs ys =
    ap length (select-append is_match_line xs ys)
    ∙ length-append (select is_match_line xs) (select is_match_line ys)

pub per_file_cap-search_file :
    (cs : List Call) (sink : CollectSink) → (search_file cs sink).per_file_cap ≡ sink.per_file_cap
unfolding search_file
per_file_cap-search_file [] sink = refl
per_file_cap-search_file (matched line bytes ∷ cs) sink =
    elim (Bool-cases (leb sink.per_file_cap sink.match_count)) [
      | inl full ↦ rw full refl
      | inr room ↦ rw room (per_file_cap-search_file cs _)
    ]
per_file_cap-search_file (context line bytes none ∷ cs) sink = per_file_cap-search_file cs sink
per_file_cap-search_file (context line bytes (some kind) ∷ cs) sink = per_file_cap-search_file cs _

pub search_file-IsCounted :
    (cs : List Call) (sink : CollectSink)
    → All IsContext cs
    → IsCounted sink
    → IsCounted (search_file cs sink)
unfolding search_file
search_file-IsCounted [] sink c h = h
search_file-IsCounted (matched line bytes ∷ cs) sink (_, c) h =
    elim (Bool-cases (leb sink.per_file_cap sink.match_count)) [
      | inl full ↦ rw full h
      | inr room ↦ rw room (
          search_file-IsCounted cs _ c (record {
            counted = omega (
              arith,
              matches-append sink.lines
                  (record { line = line; text = strip_eol bytes; kind = is_match } ∷ []),
              h.counted,
            );
            bounded = ground (arith, room);
          }))
    ]
search_file-IsCounted (context line bytes none ∷ cs) sink (_, c) h =
    search_file-IsCounted cs sink c h
search_file-IsCounted (context line bytes (some is_match) ∷ cs) sink (bad, c) h = absurd (bad refl)
search_file-IsCounted (context line bytes (some before) ∷ cs) sink (_, c) h =
    search_file-IsCounted cs _ c (record {
      counted = omega (
        arith,
        matches-append sink.lines
            (record { line = line; text = strip_eol bytes; kind = before } ∷ []),
        h.counted,
      );
      bounded = h.bounded;
    })
search_file-IsCounted (context line bytes (some after) ∷ cs) sink (_, c) h =
    search_file-IsCounted cs _ c (record {
      counted = omega (
        arith,
        matches-append sink.lines
            (record { line = line; text = strip_eol bytes; kind = after } ∷ []),
        h.counted,
      );
      bounded = h.bounded;
    })
