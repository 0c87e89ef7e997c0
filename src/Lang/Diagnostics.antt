-- ===== src/Lang/Diagnostics.antt =====
-- `Diagnostic` of crates/aide-proto/src/diagnostic.rs, and how
-- crates/aide-lang/src/languages/rust.rs makes one of a message of cargo. A line of the output is read from JSON
-- by a library; here it is what is read of it.
use aide_mcp.Base.{
  text_equal, [], ◌∷◌, none, some, ℕ, if◌then◌else◌, List, Option, Bool, Text, codes, text_same,
}
use aide_mcp.Base.Strings.{lines}

pub record Diagnostic : Type 0 where
  pub level : Text
  pub code : Option Text
  pub message : Text
  pub file : Option Text
  pub line_start : Option ℕ
  pub line_end : Option ℕ
  pub column_start : Option ℕ
  pub column_end : Option ℕ
  pub enclosing_symbol : Option Text
  pub rendered : Option Text

pub record CargoSpan : Type 0 where
  pub file_name : Text
  pub is_primary : Bool
  pub line_start : ℕ
  pub line_end : ℕ
  pub column_start : ℕ
  pub column_end : ℕ

pub record CargoMessageBody : Type 0 where
  pub level : Text
  pub message : Text
  pub code : Option Text
  pub rendered : Option Text
  pub spans : List CargoSpan

pub record CargoMessage : Type 0 where
  pub reason : Text
  pub message : Option CargoMessageBody

-- The first primary span.
abbrev pub primary_of : List CargoSpan → Option CargoSpan
primary_of [] = none
primary_of (s ∷ ss) = if s.is_primary then some s else primary_of ss

abbrev pub non_empty : Option Text → Option Text
non_empty none = none
non_empty (some []) = none
non_empty (some (c ∷ s)) = some (c ∷ s)

abbrev pub span_field {ℓ} : {A : Type ℓ} → (CargoSpan → A) → Option CargoSpan → Option A
span_field f none = none
span_field f (some s) = some (f s)

unfoldable pub diagnostic_from_cargo_message : CargoMessageBody → Diagnostic
diagnostic_from_cargo_message msg =
    let primary = primary_of msg.spans in
    record {
      level = msg.level;
      code = non_empty msg.code;
      message = msg.message;
      file = span_field (λ s. s.file_name) primary;
      line_start = span_field (λ s. s.line_start) primary;
      line_end = span_field (λ s. s.line_end) primary;
      column_start = span_field (λ s. s.column_start) primary;
      column_end = span_field (λ s. s.column_end) primary;
      enclosing_symbol = none;
      rendered = msg.rendered;
    }

abbrev pub of_message : Option CargoMessageBody → List Diagnostic → List Diagnostic
of_message none rest = rest
of_message (some b) rest = diagnostic_from_cargo_message b ∷ rest

-- The messages of the compiler among the lines that are read.
abbrev pub compiler_messages : (Text → Option CargoMessage) → List Text → List Diagnostic
compiler_messages read [] = []
compiler_messages read (l ∷ ls) =
    let rest = compiler_messages read ls in
    elim (read l) [
      | none ↦ rest
      | some m ↦
          if text_same m.reason (codes "compiler-message") then of_message m.message rest else rest
    ]

unfoldable pub parse_cargo_json_messages : (Text → Option CargoMessage) → Text → List Diagnostic
unfolding lines diagnostic_from_cargo_message
parse_cargo_json_messages read stdout = compiler_messages read (lines stdout)
