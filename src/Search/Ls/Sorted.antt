-- ===== src/Search/Ls/Sorted.antt =====
-- A listing is sorted, holds no file twice, and loses no file but to its cap.
use aide_mcp.Base.{
  text_equal, [], ◌∷◌, none, some, true, false, zero, suc, ℕ, ◌≡◌, arith, refl, inl, inr, List,
  Option, Bool, Text, ◌≤◌, ◌⊎◌, sym, ap, ◌∙◌, Bool-cases, text_same, All, take, In, length,
  All-take, text_same_iff, select, All-weaken, In-select, length-take-le, subst,
}
use aide_mcp.Search.Ls.{
  truncated, less, dedup_from, dedup, finish, list_files, behind, matches_glob, Scope, SearchError,
  LsOptions, compiled,
}
use aide_mcp.Base.Sort.{IsOrder, IsSorted, sort_by, sort_by-IsSorted, In-of_sort_by, In-sort_by}
use aide_mcp.Base.Result.{Result, ok, err}

less_asym : (s t : Text) → less s t ≡ true → less t s ≡ false
less_asym [] [] h = refl
less_asym [] (d ∷ t) h = refl
less_asym (c ∷ s) [] h = absurd (cc h)
less_asym (c ∷ s) (d ∷ t) h = ground (arith, h, less_asym s t)

less_trans : (s t u : Text) → less s t ≡ true → less t u ≡ true → less s u ≡ true
less_trans [] [] u h k = k
less_trans [] (d ∷ t) [] h k = k
less_trans [] (d ∷ t) (e ∷ u) h k = refl
less_trans (c ∷ s) [] u h k = absurd (cc h)
less_trans (c ∷ s) (d ∷ t) [] h k = absurd (cc k)
less_trans (c ∷ s) (d ∷ t) (e ∷ u) h k = ground (arith, h, k, less_trans s t u)

less_total : (s t : Text) → less s t ≡ false → text_same t s ≡ false → less t s ≡ true
less_total [] [] h n = absurd (cc n)
less_total [] (d ∷ t) h n = absurd (cc h)
less_total (c ∷ s) [] h n = refl
less_total (c ∷ s) (d ∷ t) h n = ground (arith, h, n, less_total s t)

less_chain : (s t u : Text) → less t s ≡ false → less u t ≡ false → less u s ≡ false
less_chain [] t [] h k = refl
less_chain [] t (e ∷ u) h k = refl
less_chain (c ∷ s) [] u h k = absurd (cc h)
less_chain (c ∷ s) (d ∷ t) [] h k = absurd (cc k)
less_chain (c ∷ s) (d ∷ t) (e ∷ u) h k = ground (arith, h, k, less_chain s t u)

behind_order : IsOrder behind
behind_order = record { asym = λ x y. less_asym y x; chain = less_chain }

-- Each file stands strictly before all later ones.
abbrev pub IsAscending : List Text → Type 0
IsAscending [] = Unit
IsAscending (x ∷ xs) = All (λ y. less x y ≡ true) xs × IsAscending xs

dedup_from-IsAscending :
    (x : Text) (ys : List Text) → IsSorted behind (x ∷ ys) → IsAscending (x ∷ dedup_from x ys)
unfolding dedup_from
dedup_from-IsAscending x [] h = (tt, tt)
dedup_from-IsAscending x (y ∷ ys) ((xy, hx), (hy, s)) = elim (Bool-cases (text_same x y)) [
  | inl same ↦ rw same (dedup_from-IsAscending x ys (hx, s))
  | inr other ↦
      let (above, ascending) = dedup_from-IsAscending y ys (hy, s) in
      let step : less x y ≡ true = less_total y x xy other in
      rw other (
        (
          step,
          All-weaken (λ z. less y z ≡ true) (λ z. less x z ≡ true) (dedup_from y ys)
              (λ z h. less_trans x y z step h) above,
        ),
        (above, ascending),
      )
]

dedup-IsAscending : (xs : List Text) → IsSorted behind xs → IsAscending (dedup xs)
unfolding dedup
dedup-IsAscending [] h = tt
dedup-IsAscending (x ∷ xs) h = dedup_from-IsAscending x xs h

take-IsAscending : (n : ℕ) (xs : List Text) → IsAscending xs → IsAscending (take n xs)
take-IsAscending zero xs h = tt
take-IsAscending (suc n) [] h = tt
take-IsAscending (suc n) (x ∷ xs) (a, h) =
    (All-take (λ y. less x y ≡ true) n xs a, take-IsAscending n xs h)

In-dedup_from : (f x : Text) (ys : List Text) → In f ys → (f ≡ x) ⊎ In f (dedup_from x ys)
unfolding dedup_from
In-dedup_from f x [] h = absurd h
In-dedup_from f x (y ∷ ys) h = elim (Bool-cases (text_same x y)) [
  | inl same ↦ rw same (elim h [
    | inl e ↦ inl (e ∙ sym ((text_same_iff x y).0 same))
    | inr r ↦ In-dedup_from f x ys r
  ])
  | inr other ↦ rw other (inr (elim h [ inl e ↦ inl e | inr r ↦ In-dedup_from f y ys r ]))
]

In-dedup : (f : Text) (xs : List Text) → In f xs → In f (dedup xs)
unfolding dedup
In-dedup f [] h = h
In-dedup f (x ∷ xs) (inl e) = inl e
In-dedup f (x ∷ xs) (inr h) = In-dedup_from f x xs h

In-of_dedup_from : (f x : Text) (ys : List Text) → In f (dedup_from x ys) → In f ys
unfolding dedup_from
In-of_dedup_from f x [] h = h
In-of_dedup_from f x (y ∷ ys) h = elim (Bool-cases (text_same x y)) [
  | inl same ↦ inr (In-of_dedup_from f x ys (rw same at h))
  | inr other ↦ elim (rw other at h) [ inl e ↦ inl e | inr r ↦ inr (In-of_dedup_from f y ys r) ]
]

In-of_dedup : (f : Text) (xs : List Text) → In f (dedup xs) → In f xs
unfolding dedup
In-of_dedup f [] h = h
In-of_dedup f (x ∷ xs) (inl e) = inl e
In-of_dedup f (x ∷ xs) (inr h) = inr (In-of_dedup_from f x xs h)

In-take : (f : Text) (n : ℕ) (xs : List Text) → In f (take n xs) → In f xs
In-take f zero xs h = absurd h
In-take f (suc n) [] h = h
In-take f (suc n) (x ∷ xs) (inl e) = inl e
In-take f (suc n) (x ∷ xs) (inr h) = inr (In-take f n xs h)

In-select_pass :
    (f : Text) (p : Text → Bool) (xs : List Text) → In f xs → p f ≡ true → In f (select p xs)
In-select_pass f p [] h t = h
In-select_pass f p (x ∷ xs) (inl e) t = let pass : p x ≡ true = ap p (sym e) ∙ t in rw pass (inl e)
In-select_pass f p (x ∷ xs) (inr h) t = elim (Bool-cases (p x)) [
  | inl pass ↦ rw pass (inr (In-select_pass f p xs h t))
  | inr miss ↦ rw miss (In-select_pass f p xs h t)
]

selected : (f : Text) (p : Text → Bool) (xs : List Text) → In f (select p xs) → p f ≡ true
selected f p [] h = absurd h
selected f p (x ∷ xs) h = elim (Bool-cases (p x)) [
  | inl pass ↦ elim (rw pass at h) [ inl e ↦ ap p e ∙ pass | inr r ↦ selected f p xs r ]
  | inr miss ↦ selected f p xs (rw miss at h)
]

-- What a listing of `files` is to be.
pub record IsListing (matcher : Option (Text → Bool)) (cap_of : Option ℕ) (files out : List Text)
    : Type 0 where
  pub ascending : IsAscending out
  pub bounded : (n : ℕ) → cap_of ≡ some n → length out ≤ n
  pub sound : (f : Text) → In f out → In f files × (matches_glob matcher f ≡ true)
  pub complete : (f : Text) → cap_of ≡ none → In f files → matches_glob matcher f ≡ true → In f out

finish-IsListing :
    (matcher : Option (Text → Bool)) (max_results : Option ℕ) (files : List Text)
    → IsListing matcher max_results files (finish matcher max_results files)
unfolding finish
finish-IsListing matcher max_results files = go max_results
  where
    chosen : List Text
    chosen = select (matches_glob matcher) files

    listed : List Text
    listed = dedup (sort_by behind chosen)

    whole : IsAscending listed
    whole = dedup-IsAscending (sort_by behind chosen) (sort_by-IsSorted behind behind_order chosen)

    inside : (f : Text) → In f listed → In f files × (matches_glob matcher f ≡ true)
    inside f h =
        let m = In-of_sort_by behind f chosen (In-of_dedup f (sort_by behind chosen) h) in
        (In-select f (matches_glob matcher) files m, selected f (matches_glob matcher) files m)

    go : (o : Option ℕ) → IsListing matcher o files (truncated o listed)
    go none = record {
      ascending = whole;
      bounded = λ n e. absurd (cc e);
      sound = inside;
      complete = λ f e h t.
          In-dedup f (sort_by behind chosen)
            (In-sort_by behind f chosen (In-select_pass f (matches_glob matcher) files h t));
    }
    go (some n) = record {
      ascending = take-IsAscending n listed whole;
      bounded = λ m e. let same : n ≡ m = cc e in omega (arith, same, length-take-le n listed);
      sound = λ f h. inside f (In-take f n listed h);
      complete = λ f e h t. absurd (cc e);
    }

-- A listing that succeeds is sorted without repeats and within its cap, each file in it belongs to the
-- scope and matches the glob, and without a cap every such file is in it.
pub list_files-IsListing :
    (build : Text → Option (Text → Bool)) (files_of : Scope → Bool → Result SearchError (List Text))
    (scope : Scope) (options : LsOptions) (out : List Text)
    → list_files build files_of scope options ≡ ok out
    → (matcher : Option (Text → Bool)) × (files : List Text) × (compiled build options.glob
        ≡ ok matcher)
      × (files_of scope options.include_hidden ≡ ok files)
      × IsListing matcher options.max_results files out
unfolding list_files
list_files-IsListing build files_of scope options out h =
    go (compiled build options.glob) (files_of scope options.include_hidden) refl refl h
  where
    go :
        (c : Result SearchError (Option (Text → Bool))) (l : Result SearchError (List Text))
        → compiled build options.glob ≡ c
        → files_of scope options.include_hidden ≡ l
        → (elim c [
          | err e ↦ err e
          | ok matcher ↦ elim l [
            | err e ↦ err e
            | ok files ↦ ok (finish matcher options.max_results files)
          ]
        ])
          ≡ ok out
        → (matcher : Option (Text → Bool)) × (files : List Text) × (compiled build options.glob
            ≡ ok matcher)
          × (files_of scope options.include_hidden ≡ ok files)
          × IsListing matcher options.max_results files out
    go (err e) l p q h = absurd (cc h)
    go (ok m) (err e) p q h = absurd (cc h)
    go (ok m) (ok files) p q h =
        let same : finish m options.max_results files ≡ out = cc h in
        (
          m,
          files,
          p,
          q,
          subst (IsListing m options.max_results files) same
              (finish-IsListing m options.max_results files),
        )
