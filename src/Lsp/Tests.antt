-- ===== src/Lsp/Tests.antt =====
-- The theorems on positions, documents and the pool at concrete inputs.
use aide_mcp.Base.{
  text_equal, pair_equal, [], ◌∷◌, none, some, ℕ, ◌≡◌, arith, refl, inl, inr, Option, Text, ◌≤◌,
  ◌<◌, ◌⊎◌, codes, ap, Bool-cases, text_same, length, In, subst, ◌+◌, ◌↔◌,
}
use aide_mcp.Lsp.Position.{
  Position, position_to_byte_offset, skip_lines, byte_offset, compute_line_offsets,
}
use aide_mcp.Lsp.Position.Splice.{Range, splice_range, invalid_pos, IsSplice, splice_range-IsSplice}
use aide_mcp.Lsp.Documents.{Documents, opened, ensure_current, max_open_docs}
use aide_mcp.Lsp.Documents.Mirror.{Mirrors, IsCurrent, ensure_current-IsCurrent}
use aide_mcp.Lsp.Documents.Bounded.{ensure_current-bounded}
use aide_mcp.Base.Map.{Map, get}
use aide_mcp.Lsp.Pool.{Key, Entry, take_idle, take_idle_exact}
use aide_mcp.Base.Result.{err, ok}
use aide_mcp.Lsp.Position.Agree.{OnLine, past_end_of_line, width, byte_offset-position}

-- "aé\n😀b"
abbrev sample : Text
sample = 97 ∷ 233 ∷ 10 ∷ 128512 ∷ 98 ∷ []

abbrev at_b : Position
at_b = record { line = 1; character = 2 }

both_at_b :
    (position_to_byte_offset sample at_b ≡ some 8)
    × (byte_offset (compute_line_offsets sample) sample at_b ≡ some 8)
unfolding position_to_byte_offset byte_offset compute_line_offsets
both_at_b = (refl, refl)

rest_of : Option (ℕ × Text) → Text
rest_of none = []
rest_of (some p) = p.1

byte_offset-position_example :
    byte_offset (compute_line_offsets sample) sample at_b ≡ position_to_byte_offset sample at_b
unfolding skip_lines rest_of
byte_offset-position_example = byte_offset-position sample at_b on_line
  where
    on_line : OnLine sample at_b
    on_line start rest h =
        let same : 128512 ∷ 98 ∷ [] ≡ rest = ap rest_of h in
        subst (λ r. 2 ≤ width r) same (omega arith)

-- Column 9 of the first line of the sample.
past_end_of_line_example :
    (n : ℕ) × (m : ℕ) × (position_to_byte_offset sample (record { line = 0; character = 9 })
      ≡ some n)
    × (byte_offset (compute_line_offsets sample) sample (record { line = 0; character = 9 })
        ≡ some m)
    × (n < m)
unfolding skip_lines
past_end_of_line_example =
    past_end_of_line sample (record { line = 0; character = 9 }) 0 sample (4, 128512 ∷ 98 ∷ []) refl
      refl (omega arith)

abbrev first_word : Range
first_word = record {
  start = record { line = 0; character = 0 };
  end = record { line = 0; character = 2 };
}

splice_range-IsSplice_example :
    ((3 < 0) × (splice_range sample first_word (codes "xy") ≡ err invalid_pos))
    ⊎ ((out : Text) × (splice_range sample first_word (codes "xy") ≡ ok out)
        × IsSplice sample (codes "xy") 0 3 out)
unfolding position_to_byte_offset
splice_range-IsSplice_example = splice_range-IsSplice sample (codes "xy") first_word 0 3 refl refl

abbrev main_rs : Text
main_rs = codes "file:///main.rs"

abbrev one_open : Documents
one_open = (main_rs, opened (codes "old") 1) ∷ []

mirrored : Mirrors one_open ((main_rs, codes "old") ∷ [])
mirrored u = elim (Bool-cases (text_same main_rs u)) [
  | inl hit ↦ rw hit refl
  | inr miss ↦ rw miss refl
]

ensure_current-IsCurrent_example :
    (server' : Map Text Text) × IsCurrent main_rs
      (codes "new")
      (ensure_current main_rs (codes "rust") (codes "new") 2 one_open).0
      ((main_rs, codes "old") ∷ [])
      server'
      (ensure_current main_rs (codes "rust") (codes "new") 2 one_open).1
ensure_current-IsCurrent_example =
    ensure_current-IsCurrent main_rs (codes "rust") (codes "new") 2 one_open
      ((main_rs, codes "old") ∷ []) (refl, tt) mirrored

ensure_current-bounded_example :
    length (ensure_current (codes "u") (codes "rust") (codes "new") 2 one_open).0 ≤ max_open_docs
ensure_current-bounded_example =
    ensure_current-bounded (codes "u") (codes "rust") (codes "new") 2 one_open (refl, tt)
      (omega arith)

abbrev rust_root : Key
rust_root = (codes "rust", codes "/r")

abbrev pooled : Map Key Entry
pooled =
    (rust_root, record { client = 7; last_used = 100 })
    ∷ ((codes "go", codes "/src"), record { client = 8; last_used = 125 })
    ∷ []

take_idle_exact_example :
    ((key : Key) (e : Entry)
      → (get key (take_idle 10 130 pooled).1 ≡ some e)
        ↔ ((get key pooled ≡ some e) × (130 ≤ e.last_used + 10)))
    × ((c : ℕ)
        → In c (take_idle 10 130 pooled).0 ↔ (
            (key : Key) × (e : Entry) × (get key pooled ≡ some e)
            × (e.last_used + 10 < 130)
            × (e.client ≡ c)))
take_idle_exact_example = take_idle_exact 10 130 pooled (refl, (refl, tt))
