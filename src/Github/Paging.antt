-- ===== src/Github/Paging.antt =====
-- The loop that follows the pages of an answer ends.
use aide_mcp.Base.{
  text_equal, some, false, ℕ, List, Option, Bool, Text, length, take, ◌++◌, ◌+◌, ◌≤◌, ◌≡◌, ◌⊎◌, [],
  ◌∷◌, none, true, zero, suc, arith, refl, inl, inr, ◌<◌, ◌-◌, sym, ap, ◌∙◌, Bool-cases, leb,
  leb→le, Option-cases, length-append,
}
use aide_mcp.Base.Result.{Result, ok, err}
use aide_mcp.Github.{
  transport, api_error, Fetched, page, parse_link_next, GithubError, get_paged, failed, broken,
}

module _ {A : Type 0} (fetch : ℕ → Text → Bool → Fetched A) where
  -- A page that names a next one has an item.
  abbrev pub IsFilling : Type 0
  IsFilling =
      (n : ℕ) (url : Text) (is_first : Bool) (items : List A) (link : Option Text) (next : Text)
      → fetch n url is_first ≡ page items link
      → parse_link_next link ≡ some next
      → 1 ≤ length items

  -- All that has been collected when the pages run out or the limit is reached, from a request on with
  -- `out` collected before.
  pub data Collected (limit : ℕ) : ℕ → Text → Bool → List A → List A → Type 0 where
    last :
        (n : ℕ) (url : Text) (is_first : Bool) (out items : List A) (link : Option Text)
        → fetch n url is_first ≡ page items link
        → (parse_link_next link ≡ none) ⊎ (limit ≤ length (out ++ items))
        → Collected limit n url is_first out (out ++ items)
    more :
        (n : ℕ) (url : Text) (is_first : Bool) (out items total : List A) (link : Option Text)
        (next : Text)
        → fetch n url is_first ≡ page items link
        → length (out ++ items) < limit
        → parse_link_next link ≡ some next
        → Collected limit (n + 1) next false (out ++ items) total
        → Collected limit n url is_first out total

  -- The loop has ended: with an error, or with what was collected, up to the limit.
  abbrev pub Ended : ℕ → ℕ → Text → Bool → List A → Option (Result GithubError (List A)) → Type 0
  Ended limit n url is_first out r =
      ((e : GithubError) × (r ≡ some (err e)))
      ⊎ ((total : List A) × Collected limit n url is_first out total
          × (r ≡ some (ok (take limit total))))

take_short : {A : Type 0} (n : ℕ) (xs : List A) → length xs ≤ n → take n xs ≡ xs
take_short zero [] h = refl
take_short zero (x ∷ xs) h = absurd (omega arith)
take_short (suc n) [] h = refl
take_short (suc n) (x ∷ xs) h = ap (λ r. x ∷ r) (take_short n xs (omega arith))

module _ {A : Type 0} (fetch : ℕ → Text → Bool → Fetched A) (summarize : Text → Option Text)
    (filling : IsFilling fetch) where
  -- Each request but the last one makes what is collected longer.
  loop_ends :
      (fuel limit n : ℕ) (url : Text) (is_first : Bool) (out : List A)
      → limit - length out < fuel
      → Ended fetch limit n url is_first out
          (get_paged fetch summarize fuel limit n url is_first out)
  unfolding get_paged
  loop_ends zero limit n url is_first out h = absurd (omega (arith, h))
  loop_ends (suc fuel) limit n url is_first out h =
      go (λ next out' enough. loop_ends fuel limit (n + 1) next false out' enough)
        (fetch n url is_first) refl
    where
      go :
          ((next : Text) (out' : List A)
            → limit - length out' < fuel
            → Ended fetch limit
                (n + 1)
                next
                false
                out'
                (get_paged fetch summarize fuel limit (n + 1) next false out'))
          → (f : Fetched A) → fetch n url is_first ≡ f
          → Ended fetch limit n url is_first out
              (get_paged fetch summarize (suc fuel) limit n url is_first out)
      go again broken e = inl (transport, rw (e, get_paged) refl)
      go again (failed x) e = inl (api_error summarize x, rw (e, get_paged) refl)
      go again (page items link) e = elim (Bool-cases (leb limit (length (out ++ items)))) [
        | inl full ↦ inr (
          out ++ items,
          last n url is_first out items link e (inr (leb→le _ _ full)),
          rw (e, get_paged) (rw full refl),
        )
        | inr less ↦ elim (Option-cases (parse_link_next link)) [
          | inl over ↦ inr (
            out ++ items,
            last n url is_first out items link e (inl over),
            rw (e, get_paged)
                (rw less (
                  rw over (
                    ap (λ r. some (ok r))
                      (sym (take_short limit (out ++ items) (ground (arith, less))))))),
          )
          | inr (next, there) ↦
              let some_item = filling n url is_first items link next e there in
              let shorter : length (out ++ items) < limit = ground (arith, less) in
              let enough : limit - length (out ++ items) < fuel =
                omega (arith, h, some_item, shorter, length-append out items) in
              let same : get_paged fetch summarize (suc fuel) limit n url is_first out
                  ≡ get_paged fetch summarize fuel limit (n + 1) next false (out ++ items) =
                rw (e, get_paged) (rw less (rw there refl)) in
              elim (again next (out ++ items) enough) [
                | inl (x, p) ↦ inl (x, same ∙ p)
                | inr (total, c, p) ↦ inr (
                  total,
                  more n url is_first out items total link next e shorter there c,
                  same ∙ p,
                )
              ]
        ]
      ]

-- If every page that names a next one has an item, the loop ends after at most one request more than the
-- limit: with an error, or with the items of the pages in their order, cut to the limit, where the pages
-- are followed until there is no next one or the limit is reached.
pub get_paged-ends :
    {A : Type 0} (fetch : ℕ → Text → Bool → Fetched A) (summarize : Text → Option Text) (limit : ℕ)
    (first_url : Text)
    → IsFilling fetch
    → Ended fetch limit 0 first_url true []
        (get_paged fetch summarize (limit + 1) limit 0 first_url true [])
get_paged-ends fetch summarize limit first_url filling =
    loop_ends fetch summarize filling (limit + 1) limit 0 first_url true [] (omega arith)
