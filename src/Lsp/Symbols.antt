-- ===== src/Lsp/Symbols.antt =====
-- `find_enclosing_symbol` and `position_in_range` of crates/aide-lsp/src/ops.rs: which symbol of a
-- document owns a position. The tree of symbols is what the server answers.
pub mod Owner
use aide_mcp.Base.{
  text_equal, Text, Bool, Option, none, some, if◌then◌else◌, ltb, leb, ◌==◌, ◌&&◌, ◌||◌,
}
use aide_mcp.Lsp.Position.{Position}
use aide_mcp.Lsp.Position.Splice.{Range}

-- `lsp_types::DocumentSymbol`, as far as it is read; `children` is an optional list.
mutual
  pub data Symbol : Type 0 where
    symbol : (name : Text) (range selection_range : Range) (children : Children) → Symbol

  pub data Children : Type 0 where
    absent : Children
    listed : Symbols → Children

  pub data Symbols : Type 0 where
    nil : Symbols
    cons : Symbol → Symbols → Symbols

abbrev pub after_start : Position → Range → Bool
after_start p r =
    ltb r.start.line p.line || ((p.line == r.start.line) && leb r.start.character p.character)

abbrev pub before_end : Position → Range → Bool
before_end p r =
    ltb p.line r.end.line || ((p.line == r.end.line) && leb p.character r.end.character)

unfoldable pub position_in_range : Position → Range → Bool
position_in_range p r = after_start p r && before_end p r

-- The symbols that the loop does not pass over.
unfoldable pub is_at : Position → Symbol → Bool
unfolding position_in_range
is_at p (symbol name range selection_range children) =
    position_in_range p range || position_in_range p selection_range

abbrev pub or_this : Symbol → Option (Range × Text) → Option (Range × Text)
or_this (symbol name range selection_range children) (some deeper) = some deeper
or_this (symbol name range selection_range children) none = some (range, name)

unfoldable mutual
  unfolding is_at

  pub find_enclosing_symbol : Symbols → Position → Option (Range × Text)
  find_enclosing_symbol nil p = none
  find_enclosing_symbol (cons s rest) p =
      let deeper = find_below s p in
      let later = find_enclosing_symbol rest p in if is_at p s then or_this s deeper else later

  pub find_below : Symbol → Position → Option (Range × Text)
  find_below (symbol name range selection_range children) p = find_in children p

  pub find_in : Children → Position → Option (Range × Text)
  find_in absent p = none
  find_in (listed syms) p = find_enclosing_symbol syms p
