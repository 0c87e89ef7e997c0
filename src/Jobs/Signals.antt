-- ===== src/Jobs/Signals.antt =====
-- What `Signal::parse` accepts.
use aide_mcp.Base.{text_equal, some, true, ◌≡◌, refl, inl, inr, Text, Bool-cases, All, subst}
use aide_mcp.Jobs.{parse, Signal, parse_lower, one_of, spellings, term, kill, int, hup, quit}
use aide_mcp.Base.Strings.{to_ascii_lowercase, trim}

-- Every spelling of a signal is read as that signal: the name, the name with its prefix, the number.
pub parse-spellings : (s : Signal) → All (λ t. parse t ≡ some s) (spellings s)
unfolding parse
parse-spellings term = (refl, (refl, (refl, tt)))
parse-spellings kill = (refl, (refl, (refl, tt)))
parse-spellings int = (refl, (refl, (refl, tt)))
parse-spellings hup = (refl, (refl, (refl, tt)))
parse-spellings quit = (refl, (refl, (refl, tt)))

-- Nothing else is accepted: what is read as a signal is one of its spellings, up to case and blanks
-- around it.
pub spellings-parse :
    (raw : Text) (s : Signal)
    → parse raw ≡ some s
    → one_of (to_ascii_lowercase (trim raw)) (spellings s) ≡ true
unfolding parse parse_lower
spellings-parse raw s h = go (to_ascii_lowercase (trim raw)) h
  where
    go : (t : Text) → parse_lower t ≡ some s → one_of t (spellings s) ≡ true
    go t h = elim (Bool-cases (one_of t (spellings term))) [
      | inl e ↦ read_as term e (cc (rw e at h))
      | inr a ↦ elim (Bool-cases (one_of t (spellings kill))) [
        | inl e ↦ read_as kill e (cc (rw (a, e) at h))
        | inr b ↦ elim (Bool-cases (one_of t (spellings int))) [
          | inl e ↦ read_as int e (cc (rw (a, b, e) at h))
          | inr c ↦ elim (Bool-cases (one_of t (spellings hup))) [
            | inl e ↦ read_as hup e (cc (rw (a, b, c, e) at h))
            | inr d ↦ elim (Bool-cases (one_of t (spellings quit))) [
              | inl e ↦ read_as quit e (cc (rw (a, b, c, d, e) at h))
              | inr e ↦ absurd (cc (rw (a, b, c, d, e) at h))
            ]
          ]
        ]
      ]
    ]
      where
        read_as :
            (q : Signal) → one_of t (spellings q) ≡ true → q ≡ s → one_of t (spellings s) ≡ true
        read_as q e same = subst (λ x. one_of t (spellings x) ≡ true) same e
