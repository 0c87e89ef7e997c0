-- ===== src/Github.antt =====
-- crates/aide-github: what client.rs makes of responses, and the name of a repository in repo.rs. The
-- requests go through a library; a response is what the client reads of it.
pub mod Paging
mod Tests
use aide_mcp.Base.{
  text_equal, [], ◌∷◌, none, some, true, false, zero, suc, ℕ, if◌then◌else◌, List, Option, Bool,
  Text, codes, text_same, length, take, leb, ◌==◌, ◌++◌, ◌||◌, ◌&&◌, any, ◌+◌,
}
use aide_mcp.Base.Result.{Result, ok, err}
use aide_mcp.Base.Strings.{contains, split_once, trim, trim_start, trim_end, strip_prefix}

pub data GithubError : Type 0 where
  transport : GithubError
  api : (status : ℕ) (body : Text) → GithubError
  rate_limited : (retry_after_secs : Option ℕ) → GithubError

-- A response that is no success: the status, the headers that are read, and the body.
pub record Failure : Type 0 where
  pub status : ℕ
  pub retry_after : Option ℕ
  pub remaining : Option Text
  pub body : Text

abbrev pub is_zero_left : Option Text → Bool
is_zero_left none = false
is_zero_left (some s) = text_same s (codes "0")

abbrev pub is_some : Option ℕ → Bool
is_some none = false
is_some (some n) = true

abbrev pub or_body : Text → Option Text → Text
or_body body none = body
or_body body (some s) = s

-- `summarize` is `summarize_validation`, which reads JSON.
unfoldable pub api_error : (Text → Option Text) → Failure → GithubError
api_error summarize f =
    if f.status == 429 || ((f.status == 403) && (is_zero_left f.remaining || is_some f.retry_after))
    then rate_limited f.retry_after
    else api f.status (if f.status == 422 then or_body f.body (summarize f.body) else f.body)

-- `str::split` at a character.
abbrev pub cons_part : ℕ → List Text → List Text
cons_part c [] = (c ∷ []) ∷ []
cons_part c (p ∷ ps) = (c ∷ p) ∷ ps

abbrev pub split : ℕ → Text → List Text
split b [] = [] ∷ []
split b (c ∷ s) = let rest = split b s in if c == b then [] ∷ rest else cons_part c rest

abbrev pub target_of : Text → Text
target_of url_part = trim_end (λ c. c == b'>') (trim_start (λ c. c == b'<') (trim url_part))

abbrev pub next_of : Option (Text × Text) → Option Text
next_of none = none
next_of (some (url_part, params)) =
    if contains (codes "rel=\"next\"") params then some (target_of url_part) else none

abbrev pub first_next : List Text → Option Text
first_next [] = none
first_next (part ∷ parts) =
    let later = first_next parts in
    elim (next_of (split_once b';' part)) [ none ↦ later | some u ↦ some u ]

-- The header, if there is one that is text.
unfoldable pub parse_link_next : Option Text → Option Text
parse_link_next none = none
parse_link_next (some link) = first_next (split b',' link)

-- `parse_scopes_header`
abbrev pub non_blank : List Text → List Text
non_blank [] = []
non_blank (t ∷ ts) = let rest = non_blank ts in elim (trim t) [ [] ↦ rest | c ∷ s ↦ (c ∷ s) ∷ rest ]

unfoldable pub parse_scopes_header : Option Text → List Text
parse_scopes_header none = []
parse_scopes_header (some s) = non_blank (split b',' s)

-- What a request comes to: a failure to send or to read JSON, a response that is no success, or the
-- items of a page with the header for the next one.
pub data Fetched (A : Type 0) : Type 0 where
  broken : Fetched A
  failed : Failure → Fetched A
  page : (items : List A) (link : Option Text) → Fetched A

module _ {A : Type 0} where
  -- The body of the loop and the loop on fuel, which is none where it runs out. `fetch` is told how many requests there
  -- were before, the URL, and whether the query goes with it, which is the first time only.
  unfoldable pub get_paged :
      (fetch : ℕ → Text → Bool → Fetched A)
      → (Text → Option Text)
      → ℕ
      → ℕ
      → ℕ
      → Text
      → Bool
      → List A
      → Option (Result GithubError (List A))
  unfolding parse_link_next api_error
  get_paged fetch summarize zero limit n url is_first out = none
  get_paged fetch summarize (suc fuel) limit n url is_first out = elim (fetch n url is_first) [
    | broken ↦ some (err transport)
    | failed f ↦ some (err (api_error summarize f))
    | page items link ↦
        if leb limit (length (out ++ items))
        then some (ok (take limit (out ++ items)))
        else elim (parse_link_next link) [
          | none ↦ some (ok (out ++ items))
          | some next ↦ get_paged fetch summarize fuel limit (n + 1) next false (out ++ items)
        ]
  ]

pub record RepoSlug : Type 0 where
  pub owner : Text
  pub repo : Text

abbrev pub or_else : Option Text → Option Text → Option Text
or_else none o = o
or_else (some s) o = some s

abbrev pub reversed : Text → Text → Text
reversed [] out = out
reversed (c ∷ s) out = reversed s (c ∷ out)

-- The reversed text without the reversed suffix `.git`, however often it stands there.
abbrev pub without_git : Text → Text
without_git (a ∷ b ∷ c ∷ d ∷ s) =
    let rest = without_git s in
    if text_same (d ∷ c ∷ b ∷ a ∷ []) (codes ".git") then rest else a ∷ b ∷ c ∷ d ∷ s
without_git s = s

-- `trim_end_matches(".git")`
abbrev pub trim_git : Text → Text
trim_git s = reversed (without_git (reversed s [])) []

abbrev pub slug_of : Option (Text × Text) → Option RepoSlug
slug_of none = none
slug_of (some (owner, repo)) =
    if text_same owner [] || (text_same repo [] || any (λ c. c == b'/') repo)
    then none
    else some (record { owner = owner; repo = repo })

abbrev pub behind_host : Text → Option Text
behind_host trimmed = or_else (strip_prefix (codes "git@github.com:") trimmed) (
    or_else (strip_prefix (codes "https://github.com/") trimmed) (
      or_else (strip_prefix (codes "http://github.com/") trimmed)
        (strip_prefix (codes "ssh://git@github.com/") trimmed)))

unfoldable pub parse_github_slug : Text → Option RepoSlug
parse_github_slug url = elim (behind_host (trim url)) [
  | none ↦ none
  | some rest ↦ slug_of (split_once b'/' (trim_git (trim_end (λ c. c == b'/') rest)))
]
