-- ===== src/Memory/Tests.antt =====
-- The theorems on memory files at a concrete directory.
use aide_mcp.Memory.{rename, Files, already_exists, renamed}
use aide_mcp.Base.{
  text_equal, [], ◌∷◌, none, some, false, ◌≡◌, refl, ◌++◌, Text, ◌⊎◌, ◌≢◌, codes, text_same,
}
use aide_mcp.Base.Result.{ok, err}
use aide_mcp.Base.Map.{get}
use aide_mcp.Memory.Directory.{rename_moves}

abbrev one_file : Files
one_file = (codes "a.md", codes "text") ∷ []

rename_moves_example :
    ((get (codes "b" ++ codes ".md") one_file ≢ none)
      × (rename (codes "a") (codes "b") one_file ≡ (err already_exists, one_file)))
    ⊎ (((rename (codes "a") (codes "b") one_file).0 ≡ ok tt)
        × (get (codes "a" ++ codes ".md") (rename (codes "a") (codes "b") one_file).1 ≡ none)
        × (get (codes "b" ++ codes ".md") (rename (codes "a") (codes "b") one_file).1
            ≡ some (renamed (codes "b") (codes "text")))
        × ((file : Text)
            → text_same (codes "a" ++ codes ".md") file ≡ false
            → text_same (codes "b" ++ codes ".md") file ≡ false
            → get file (rename (codes "a") (codes "b") one_file).1 ≡ get file one_file))
rename_moves_example = rename_moves (codes "a") (codes "b") (codes "text") one_file refl refl refl
