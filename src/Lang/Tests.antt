-- ===== src/Lang/Tests.antt =====
-- The theorems on the language plugins at concrete paths and lines.
use aide_mcp.Base.{
  text_equal, [], ◌∷◌, none, some, true, ◌≡◌, arith, refl, codes, inl, inr, List, Text,
}
use aide_mcp.Lang.TextDiag.{parse_one}
use aide_mcp.Lang.TextDiag.RoundTrip.{fatal_error, colon_line, parse_one-colon_line}

abbrev cpp_exts : List Text
cpp_exts =
    codes ".c"
    ∷ codes ".cc"
    ∷ codes ".cpp"
    ∷ codes ".cxx"
    ∷ codes ".h"
    ∷ codes ".hh"
    ∷ codes ".hpp"
    ∷ codes ".hxx"
    ∷ []

abbrev fatal_line : Text
fatal_line = colon_line (codes "./src/util.cpp") 3 14 fatal_error (codes "no such file")

parse_one-colon_line_example :
    parse_one fatal_line cpp_exts true
    ≡ some (record {
      level = codes "error";
      code = none;
      message = codes "no such file";
      file = some (codes "src/util.cpp");
      line_start = some 3;
      line_end = none;
      column_start = some 14;
      column_end = none;
      enclosing_symbol = none;
      rendered = some fatal_line;
    })
parse_one-colon_line_example =
    parse_one-colon_line 1 (codes "src/util") (codes ".cpp") (codes "no such file") cpp_exts 3 14
      fatal_error true refl refl refl (inr (inr (inl refl))) (omega arith) (omega arith)
      (refl, omega arith)
