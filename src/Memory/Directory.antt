-- ===== src/Memory/Directory.antt =====
-- The operations on memories change the files that they name and no others.
use aide_mcp.Memory.{rename, name_to_filename, Files, is_valid_name, already_exists, renamed}
use aide_mcp.Base.{
  text_equal, none, some, true, false, ◌≡◌, arith, refl, ◌++◌, inl, inr, Text, ◌⊎◌, ◌≢◌, codes, sym,
  ap, ◌∙◌, text_same, Option-cases, same_refl, text_same_iff,
}
use aide_mcp.Base.Result.{ok, err}
use aide_mcp.Base.Map.{get, get-insert, insert, remove, get-remove}

filename :
    (name : Text) → is_valid_name name ≡ true → name_to_filename name ≡ ok (name ++ codes ".md")
unfolding name_to_filename
filename name valid = rw valid refl

-- A rename onto a free name takes the old file away, writes the new one, and leaves every other file; a
-- rename onto a name that is taken changes nothing.
pub rename_moves :
    (old_name new_name raw : Text) (files : Files)
    → is_valid_name old_name ≡ true
    → is_valid_name new_name ≡ true
    → get (old_name ++ codes ".md") files ≡ some raw
    → ((get (new_name ++ codes ".md") files ≢ none)
        × (rename old_name new_name files ≡ (err already_exists, files)))
      ⊎ (((rename old_name new_name files).0 ≡ ok tt)
          × (get (old_name ++ codes ".md") (rename old_name new_name files).1 ≡ none)
          × (get (new_name ++ codes ".md") (rename old_name new_name files).1
              ≡ some (renamed new_name raw))
          × ((file : Text)
              → text_same (old_name ++ codes ".md") file ≡ false
              → text_same (new_name ++ codes ".md") file ≡ false
              → get file (rename old_name new_name files).1 ≡ get file files))
unfolding rename
rename_moves old_name new_name raw files valid valid' there =
    let old_file = old_name ++ codes ".md" in
    let new_file = new_name ++ codes ".md" in
    elim (Option-cases (get new_file files)) [
      | inr (other, taken) ↦ inl (
        (λ e. absurd (cc (sym taken ∙ e))),
        rw (filename old_name valid, rename)
            (rw (filename new_name valid') (rw there (rw taken refl))),
      )
      | inl absent ↦
          let moved = insert new_file (renamed new_name raw) (remove old_file files) in
          let result : rename old_name new_name files ≡ (ok tt, moved) =
            rw (filename old_name valid, rename)
              (rw (filename new_name valid') (rw there (rw absent refl))) in
          let apart : text_same new_file old_file ≡ false =
            ground (arith, text_same_iff new_file old_file, there, absent) in
          inr (
            ap (λ p. p.0) result,
            ap (λ p. get old_file p.1) result
                ∙ get-insert new_file old_file (renamed new_name raw) (remove old_file files)
                ∙ rw apart (get-remove old_file old_file files ∙ rw (same_refl old_file) refl),
            ap (λ p. get new_file p.1) result
                ∙ get-insert new_file new_file (renamed new_name raw) (remove old_file files)
                ∙ rw (same_refl new_file) refl,
            λ file not_old not_new.
                ap (λ p. get file p.1) result
                ∙ get-insert new_file file (renamed new_name raw) (remove old_file files)
                ∙ rw not_new (get-remove old_file file files ∙ rw not_old refl),
          )
    ]
