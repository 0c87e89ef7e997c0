-- ===== src/Lsp/Symbols/Owner.antt =====
-- The symbol that is found is the innermost one at the position.
use aide_mcp.Base.{
  text_equal, Text, true, false, Option, none, some, ◌≡◌, refl, inl, inr, ◌⊎◌, Bool-cases, arith,
}
use aide_mcp.Lsp.Position.{Position, IsBefore}
use aide_mcp.Lsp.Position.Splice.{Range}
use aide_mcp.Lsp.Symbols.{
  Symbol, Symbols, symbol, absent, listed, nil, cons, is_at, find_enclosing_symbol, find_below,
  or_this, position_in_range, after_start,
}

abbrev pub range_of : Symbol → Range
range_of (symbol name range selection_range children) = range

abbrev pub name_of : Symbol → Text
name_of (symbol name range selection_range children) = name

abbrev pub below : Symbol → Symbols
below (symbol name range selection_range absent) = nil
below (symbol name range selection_range (listed syms)) = syms

-- Both ends belong to a range.
abbrev pub InRange : Position → Range → Type 0
InRange p r = (IsBefore p r.start → ⊥) × (IsBefore r.end p → ⊥)

-- A symbol is at the positions of its range and of its selection range.
abbrev pub IsAt : Position → Symbol → Type 0
IsAt p (symbol name range selection_range children) = InRange p range ⊎ InRange p selection_range

position_in_range-InRange :
    (p : Position) (r : Range)
    → ((position_in_range p r ≡ true) × InRange p r)
      ⊎ ((position_in_range p r ≡ false) × (InRange p r → ⊥))
unfolding position_in_range
position_in_range-InRange p r = elim (Bool-cases (position_in_range p r)) [
  | inl e ↦ inl (e, ((λ b. ground (arith, e, b)), (λ b. ground (arith, e, b))))
  | inr e ↦ inr (e, λ i. outside i (Bool-cases (after_start p r)) e)
]
  where
    outside :
        InRange p r
        → (after_start p r ≡ true) ⊎ (after_start p r ≡ false)
        → position_in_range p r ≡ false
        → ⊥
    outside i (inl a) e = i.1 (ground (arith, a, e))
    outside i (inr a) e = i.0 (ground (arith, a))

is_at-IsAt :
    (p : Position) (s : Symbol)
    → ((is_at p s ≡ true) × IsAt p s) ⊎ ((is_at p s ≡ false) × (IsAt p s → ⊥))
unfolding is_at
is_at-IsAt p (symbol name range selection_range children) =
    elim (position_in_range-InRange p range) [
      | inl (e, i) ↦ inl (rw (e, is_at) refl, inl i)
      | inr (e, n) ↦ elim (position_in_range-InRange p selection_range) [
        | inl (e', i) ↦ inl (rw (e, is_at) (rw e' refl), inr i)
        | inr (e', n') ↦
            inr (rw (e, is_at) (rw e' refl), λ h. elim h [ inl i ↦ n i | inr i ↦ n' i ])
      ]
    ]

at_true : (p : Position) (s : Symbol) → IsAt p s → is_at p s ≡ true
at_true p s i = elim (is_at-IsAt p s) [ inl (e, a) ↦ e | inr (e, n) ↦ absurd (n i) ]

at_false : (p : Position) (s : Symbol) → (IsAt p s → ⊥) → is_at p s ≡ false
at_false p s n = elim (is_at-IsAt p s) [ inl (e, a) ↦ absurd (n a) | inr (e, k) ↦ e ]

abbrev pub NoneAt : Position → Symbols → Type 0
NoneAt p nil = Unit
NoneAt p (cons s rest) = (IsAt p s → ⊥) × NoneAt p rest

-- A symbol that is reached through symbols at the position, with none at the position below it.
pub data Owns (p : Position) (t : Symbol) : Symbols → Type 0 where
  here : (rest : Symbols) → IsAt p t → NoneAt p (below t) → Owns p t (cons t rest)
  inside : (s : Symbol) (rest : Symbols) → IsAt p s → Owns p t (below s) → Owns p t (cons s rest)
  beside : (s : Symbol) (rest : Symbols) → Owns p t rest → Owns p t (cons s rest)

-- Of the symbols beside each other at most one is at the position, on each level.
pub data IsNested (p : Position) : Symbols → Type 0 where
  none_left : IsNested p nil
  passes :
      (s : Symbol) (rest : Symbols) → (IsAt p s → ⊥) → IsNested p rest → IsNested p (cons s rest)
  alone :
      (s : Symbol) (rest : Symbols)
      → IsNested p (below s)
      → NoneAt p rest
      → IsNested p (cons s rest)

or_this-none : (s : Symbol) → or_this s none ≡ some (range_of s, name_of s)
or_this-none (symbol name range selection_range children) = refl

or_this-some : (s : Symbol) (d : Range × Text) → or_this s (some d) ≡ some d
or_this-some (symbol name range selection_range children) d = refl

-- Nothing is found and no symbol is at the position, or an innermost symbol is found.
abbrev pub Found : Position → Symbols → Option (Range × Text) → Type 0
Found p syms r =
    ((r ≡ none) × NoneAt p syms)
    ⊎ ((t : Symbol) × (r ≡ some (range_of t, name_of t)) × Owns p t syms)

mutual
  unfolding find_enclosing_symbol

  find_symbols : (p : Position) (syms : Symbols) → Found p syms (find_enclosing_symbol syms p)
  find_symbols p nil = inl (refl, tt)
  find_symbols p (cons s rest) = elim (is_at-IsAt p s) [
    | inl (yes_at, at) ↦ elim (find_children p s) [
      | inl (e, n) ↦ inr (s, rw yes_at (rw e (or_this-none s)), here rest at n)
      | inr (t, e, o) ↦ inr (t, rw yes_at (rw e (or_this-some s _)), inside s rest at o)
    ]
    | inr (not_at, away) ↦ elim (find_symbols p rest) [
      | inl (e, n) ↦ inl (rw not_at e, (away, n))
      | inr (t, e, o) ↦ inr (t, rw not_at e, beside s rest o)
    ]
  ]

  find_children : (p : Position) (s : Symbol) → Found p (below s) (find_below s p)
  find_children p (symbol name range selection_range absent) = inl (refl, tt)
  find_children p (symbol name range selection_range (listed syms)) = find_symbols p syms

-- Either no symbol of the list is at the position and nothing is found, or the range and the name that
-- are found are those of a symbol that is at the position, reached through symbols at the position, and
-- none of whose children is at the position.
pub find_enclosing_symbol-Found :
    (p : Position) (syms : Symbols) → Found p syms (find_enclosing_symbol syms p)
find_enclosing_symbol-Found p syms = find_symbols p syms

module _ (p : Position) where
  find_none : (syms : Symbols) → NoneAt p syms → find_enclosing_symbol syms p ≡ none
  unfolding find_enclosing_symbol
  find_none nil n = refl
  find_none (cons s rest) (away, n) = rw (at_false p s away) (find_none rest n)

  -- What is found under a symbol is what is found among its children.
  find_below-below : (s : Symbol) → find_below s p ≡ find_enclosing_symbol (below s) p
  unfolding find_enclosing_symbol
  find_below-below (symbol name range selection_range absent) = refl
  find_below-below (symbol name range selection_range (listed syms)) = refl

  NoneAt-Owns : (t : Symbol) (syms : Symbols) → NoneAt p syms → Owns p t syms → ⊥
  NoneAt-Owns t nil n o = elim o [ ]
  NoneAt-Owns t (cons _ rest) n (here _ at inner) = n.0 at
  NoneAt-Owns t (cons s rest) n (inside _ _ at o) = n.0 at
  NoneAt-Owns t (cons s rest) n (beside _ _ o) = NoneAt-Owns t rest n.1 o

  find-Owns :
      (t : Symbol) (syms : Symbols)
      → Owns p t syms
      → IsNested p syms
      → find_enclosing_symbol syms p ≡ some (range_of t, name_of t)
  unfolding find_enclosing_symbol
  find-Owns t _ (here rest at inner) w =
      rw (at_true p t at)
        (rw (find_below-below t) (rw (find_none (below t) inner) (or_this-none t)))
  find-Owns t _ (inside s rest at o) (alone _ _ w n) =
      rw (at_true p s at)
        (rw (find_below-below s) (rw (find-Owns t (below s) o w) (or_this-some s _)))
  find-Owns t _ (inside s rest at o) (passes _ _ away w) = absurd (away at)
  find-Owns t _ (beside s rest o) (passes _ _ away w) =
      rw (at_false p s away) (find-Owns t rest o w)
  find-Owns t _ (beside s rest o) (alone _ _ w n) = absurd (NoneAt-Owns t rest n o)

-- Where on each level at most one symbol is at the position, every innermost symbol at the position is
-- the one whose range and name are found.
pub find_enclosing_symbol-owner :
    (p : Position) (t : Symbol) (syms : Symbols)
    → IsNested p syms
    → Owns p t syms
    → find_enclosing_symbol syms p ≡ some (range_of t, name_of t)
find_enclosing_symbol-owner p t syms w o = find-Owns p t syms o w
