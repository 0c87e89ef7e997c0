-- ===== src/Github/Tests.antt =====
-- The theorem on pages at a concrete answer.
use aide_mcp.Base.{[], ◌∷◌, none, some, true, zero, suc, ℕ, arith, Text, codes, Bool, ◌+◌}
use aide_mcp.Github.{Fetched, page, get_paged}
use aide_mcp.Github.Paging.{IsFilling, Ended, get_paged-ends}

-- Two pages, of which the first names the second.
abbrev two_pages : ℕ → Text → Bool → Fetched ℕ
two_pages zero url is_first = page (1 ∷ 2 ∷ []) (some (codes "<u2>; rel=\"next\""))
two_pages (suc n) url is_first = page (3 ∷ []) none

two_pages-IsFilling : IsFilling two_pages
two_pages-IsFilling zero url is_first items link next e h = ground (arith, e)
two_pages-IsFilling (suc n) url is_first items link next e h = ground (arith, e)

get_paged-ends_example :
    Ended two_pages 2 0
      (codes "u1")
      true
      []
      (get_paged two_pages (λ s. none) (2 + 1) 2 0 (codes "u1") true [])
get_paged-ends_example = get_paged-ends two_pages (λ s. none) 2 (codes "u1") two_pages-IsFilling
