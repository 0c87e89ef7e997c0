-- ===== src/Exec/Capped.antt =====
-- `read_capped_tee` of crates/aide-mcp/src/exec.rs: a child's output, of which memory keeps a prefix
-- and the log file everything. A stream is what successive calls of `read` give; its end stands for
-- `Ok(0)`. A `got` chunk carries whether the write of the chunk to the log succeeds.
use aide_mcp.Base.{
  text_equal, [], ◌∷◌, none, some, true, false, zero, suc, ℕ, ◌≡◌, arith, refl, if◌then◌else◌, ◌++◌,
  inl, inr, List, Option, Bool, Text, ◌≤◌, ◌-◌, ◌||◌, sym, ap, ◌∙◌, Bool-cases, ltb, take, length,
  subst, append-nil, min, append_assoc, ap₂, length-take, length-append,
}

pub data Read : Type 0 where
  got : Text → Bool → Read
  fails : Read

pub record Output : Type 0 where
  pub kept : Text
  pub truncated : Bool
  -- what the log file holds while it is still written to
  pub tee : Option Text

-- The test `buf.len() < limit` and its two branches.
unfoldable pub keep_chunk : ℕ → Text → Output → Output
keep_chunk limit chunk o =
    if ltb (length o.kept) limit
    then record o {
      kept = o.kept ++ take (min (length chunk) (limit - length o.kept)) chunk;
      truncated = o.truncated || ltb (min (length chunk) (limit - length o.kept)) (length chunk);
    }
    else record o { truncated = true }

unfoldable pub tee_chunk : Bool → Text → Option Text → Option Text
tee_chunk written chunk none = none
tee_chunk written chunk (some f) = if written then some (f ++ chunk) else none

unfoldable pub read_loop : ℕ → List Read → Output → Output
unfolding keep_chunk tee_chunk
read_loop limit [] o = o
read_loop limit (fails ∷ rs) o = o
read_loop limit (got [] written ∷ rs) o = o
read_loop limit (got (b ∷ bs) written ∷ rs) o =
    let o' = keep_chunk limit (b ∷ bs) o in
    read_loop limit rs (record o' { tee = tee_chunk written (b ∷ bs) o.tee })

-- `lossy` is `String::from_utf8_lossy`.
unfoldable pub read_capped_tee : (Text → Text) → ℕ → List Read → Option Text → Text × Bool
unfolding read_loop
read_capped_tee lossy limit rs tee =
    let o = read_loop limit rs (record { kept = []; truncated = false; tee = tee }) in
    (lossy o.kept, o.truncated)

-- All the bytes of a stream, up to its end or its first error.
abbrev pub output : List Read → Text
output [] = []
output (fails ∷ rs) = []
output (got [] written ∷ rs) = []
output (got (b ∷ bs) written ∷ rs) = (b ∷ bs) ++ output rs

-- Every write to the log succeeds.
abbrev pub AllWritten : List Read → Type 0
AllWritten [] = Unit
AllWritten (fails ∷ rs) = Unit
AllWritten (got bs written ∷ rs) = (written ≡ true) × AllWritten rs

-- What is kept of `seen` after all of it has been read.
abbrev pub Keeps : ℕ → Text → Output → Type 0
Keeps limit seen o = (o.kept ≡ take limit seen) × (o.truncated ≡ ltb limit (length seen))

take-append {ℓ} :
    {A : Type ℓ} (n : ℕ) (xs ys : List A) → take n xs ++ take (n - length xs) ys ≡ take n (xs ++ ys)
take-append zero xs ys = rw none_left refl
  where
    none_left : 0 - length xs ≡ 0
    none_left = omega arith
take-append (suc n) [] ys = let whole : suc n - 0 ≡ suc n = omega arith in ap (λ k. take k ys) whole
take-append (suc n) (x ∷ xs) ys =
    let one_less : suc n - suc (length xs) ≡ n - length xs = omega arith in
    ap (λ k. x ∷ take n xs ++ take k ys) one_less ∙ ap (λ r. x ∷ r) (take-append n xs ys)

take-nil {ℓ} : {A : Type ℓ} (n : ℕ) → take {A = A} n [] ≡ []
take-nil zero = refl
take-nil (suc n) = refl

take-min {ℓ} : {A : Type ℓ} (n : ℕ) (xs : List A) → take (min (length xs) n) xs ≡ take n xs
take-min n [] = take-nil (min 0 n) ∙ sym (take-nil n)
take-min zero (x ∷ xs) =
    let none_left : min (length (x ∷ xs)) 0 ≡ 0 = omega arith in ap (λ k. take k (x ∷ xs)) none_left
take-min (suc n) (x ∷ xs) =
    let down : min (length (x ∷ xs)) (suc n) ≡ suc (min (length xs) n) = omega arith in
    ap (λ k. take k (x ∷ xs)) down ∙ ap (λ r. x ∷ r) (take-min n xs)

take_zero-append {ℓ} :
    {A : Type ℓ} (n : ℕ) (xs ys : List A) → n ≤ length xs → take n xs ≡ take n (xs ++ ys)
take_zero-append zero xs ys h = refl
take_zero-append (suc n) [] ys h = absurd (omega arith)
take_zero-append (suc n) (x ∷ xs) ys h = ap (λ r. x ∷ r) (take_zero-append n xs ys (omega arith))

keep_chunk-Keeps :
    (limit : ℕ) (chunk seen : Text) (o : Output)
    → Keeps limit seen o
    → 1 ≤ length chunk
    → Keeps limit (seen ++ chunk) (keep_chunk limit chunk o)
unfolding keep_chunk
keep_chunk-Keeps limit chunk seen o (k, t) full =
    let size : length o.kept ≡ min limit (length seen) = ap length k ∙ length-take limit seen in
    elim (Bool-cases (ltb (length o.kept) limit)) [
      | inl room ↦
          let whole : o.kept ≡ seen = k ∙ take_short limit seen (ground (arith, room, size)) in
          rw room (
            ap (λ r. o.kept ++ r) (take-min (limit - length o.kept) chunk)
                ∙ ap (λ s. s ++ take (limit - length o.kept) chunk) k
                ∙ ap (λ s. take limit seen ++ take (limit - length s) chunk) whole
                ∙ take-append limit seen chunk,
            ground (arith, t, size, length-append seen chunk, room),
          )
      | inr no_room ↦ rw no_room (
        k ∙ take_zero-append limit seen chunk (ground (arith, no_room, size)),
        ground (arith, size, length-append seen chunk, no_room, full),
      )
    ]
  where
    take_short : (n : ℕ) (xs : Text) → length xs ≤ n → take n xs ≡ xs
    take_short zero [] h = refl
    take_short zero (x ∷ xs) h = absurd (omega arith)
    take_short (suc n) [] h = refl
    take_short (suc n) (x ∷ xs) h = ap (λ r. x ∷ r) (take_short n xs (omega arith))

read_loop-Keeps :
    (limit : ℕ) (rs : List Read) (seen : Text) (o : Output)
    → Keeps limit seen o
    → Keeps limit (seen ++ output rs) (read_loop limit rs o)
unfolding read_loop
read_loop-Keeps limit [] seen o h = subst (λ s. Keeps limit s o) (sym (append-nil seen)) h
read_loop-Keeps limit (fails ∷ rs) seen o h = subst (λ s. Keeps limit s o) (sym (append-nil seen)) h
read_loop-Keeps limit (got [] w ∷ rs) seen o h =
    subst (λ s. Keeps limit s o) (sym (append-nil seen)) h
read_loop-Keeps limit (got (b ∷ bs) w ∷ rs) seen o h =
    let o' = keep_chunk limit (b ∷ bs) o in
    let next : Output = record o' { tee = tee_chunk w (b ∷ bs) o.tee } in
    subst (λ s. Keeps limit s (read_loop limit rs next)) (append_assoc seen (b ∷ bs) (output rs))
      (read_loop-Keeps limit rs (seen ++ b ∷ bs) next
        (keep_chunk-Keeps limit (b ∷ bs) seen o h (omega arith)))

-- However the output comes in chunks, what is returned is its first `limit` bytes, and the flag says
-- whether more came.
pub capped_prefix :
    (lossy : Text → Text) (limit : ℕ) (rs : List Read) (tee : Option Text)
    → read_capped_tee lossy limit rs tee
      ≡ (lossy (take limit (output rs)), ltb limit (length (output rs)))
unfolding read_capped_tee
capped_prefix lossy limit rs tee =
    let start : Keeps limit [] (record { kept = []; truncated = false; tee = tee }) =
      (sym (take-nil limit), ground arith) in
    let (k, t) =
      read_loop-Keeps limit rs [] (record { kept = []; truncated = false; tee = tee }) start in
    ap₂ (λ a b. (lossy a, b)) k t

-- The log file that is open at the start holds the whole output in the end, also what memory throws
-- away, if every write to it succeeds.
pub logged_all :
    (limit : ℕ) (rs : List Read) (o : Output) (f : Text)
    → AllWritten rs
    → o.tee ≡ some f
    → (read_loop limit rs o).tee ≡ some (f ++ output rs)
unfolding read_loop tee_chunk
logged_all limit [] o f w h = h ∙ ap some (sym (append-nil f))
logged_all limit (fails ∷ rs) o f w h = h ∙ ap some (sym (append-nil f))
logged_all limit (got [] x ∷ rs) o f w h = h ∙ ap some (sym (append-nil f))
logged_all limit (got (b ∷ bs) x ∷ rs) o f (written, w) h =
    let o' = keep_chunk limit (b ∷ bs) o in
    logged_all limit rs (record o' { tee = tee_chunk x (b ∷ bs) o.tee }) (f ++ b ∷ bs) w
      (ap (tee_chunk x (b ∷ bs)) h ∙ ap (λ y. tee_chunk y (b ∷ bs) (some f)) written)
    ∙ ap some (append_assoc f (b ∷ bs) (output rs))
