-- ===== src/Lsp/SafeEdit/Report/Exact.antt =====
-- What stands in the report of an edit.
use aide_mcp.Base.{
  text_equal, text_same_iff, nat_equal, ℕ, false, List, Text, select, not, codes, ◌≡◌, arith, refl,
  In, In-select_iff, All, All-none, any-none, ◌↔◌, true, inl, inr, sym, ◌∙◌, Bool-cases, All-weaken,
}
use aide_mcp.Lsp.SafeEdit.Report.{
  DiagnosticSnapshot, build_safe_edit_report, same_key, contains_key, is_severity, appeared,
}

-- What tells diagnostics apart.
abbrev pub SameKey : DiagnosticSnapshot → DiagnosticSnapshot → Type 0
SameKey a b =
    (a.file ≡ b.file)
    × ((a.line ≡ b.line)
        × ((a.col ≡ b.col) × ((a.severity ≡ b.severity) × (a.message ≡ b.message))))

same_key_iff : (a b : DiagnosticSnapshot) → (same_key a b ≡ true) ↔ SameKey a b
same_key_iff a b = ground (
  arith,
  text_same_iff a.file b.file,
  text_same_iff a.severity b.severity,
  text_same_iff a.message b.message,
)

-- No diagnostic of the list has the key of `d`.
abbrev pub IsUnknownTo : List DiagnosticSnapshot → DiagnosticSnapshot → Type 0
IsUnknownTo ds d = All (λ b. SameKey d b → ⊥) ds

different : (d b : DiagnosticSnapshot) → same_key d b ≡ false → SameKey d b → ⊥
different d b h k = absurd (cc (sym h ∙ (same_key_iff d b).1 k))

unlike : (d b : DiagnosticSnapshot) → (SameKey d b → ⊥) → same_key d b ≡ false
unlike d b n = elim (Bool-cases (same_key d b)) [
  | inl e ↦ absurd (n ((same_key_iff d b).0 e))
  | inr e ↦ e
]

In-appeared :
    (before after : List DiagnosticSnapshot) (d : DiagnosticSnapshot)
    → In d (appeared before after) ↔ (In d after × IsUnknownTo before d)
In-appeared before after d =
    let (to, from) = In-select_iff (λ x. not (contains_key before x)) d after in
    (
      λ h.
          let (there, p) = to h in
          (
            there,
            All-weaken _ _ before (different d) (All-none (same_key d) before (ground (arith, p))),
          ),
      λ h.
          from (h.0, rw (any-none (same_key d) before (All-weaken _ _ before (unlike d) h.1)) refl),
    )

In-appeared_with :
    (s : Text) (before after : List DiagnosticSnapshot) (d : DiagnosticSnapshot)
    → In d (select (is_severity s) (appeared before after))
      ↔ (In d after × ((d.severity ≡ s) × IsUnknownTo before d))
In-appeared_with s before after d =
    let (to, from) = In-select_iff (is_severity s) d (appeared before after) in
    let (to', from') = In-appeared before after d in
    (
      λ h.
          let (there, p) = to h in
          let (first, unknown) = to' there in (first, ((text_same_iff d.severity s).0 p, unknown)),
      λ h. from (from' (h.0, h.1.1), (text_same_iff d.severity s).1 h.1.0),
    )

-- A diagnostic is reported as a new error exactly if it stands among those after the edit with the severity
-- Error and none before the edit has its key, as a new warning likewise, and as resolved exactly if it
-- stands among those before the edit and none after the edit has its key.
pub build_safe_edit_report_lem :
    (path : Text) (before after : List DiagnosticSnapshot) (settle : ℕ) (d : DiagnosticSnapshot)
    → let r = build_safe_edit_report path before after settle in
      (In d r.new_errors ↔ (In d after × ((d.severity ≡ codes "Error") × IsUnknownTo before d)))
      × (In d r.new_warnings
          ↔ (In d after × ((d.severity ≡ codes "Warning") × IsUnknownTo before d)))
      × (In d r.resolved ↔ (In d before × IsUnknownTo after d))
unfolding build_safe_edit_report
build_safe_edit_report_lem path before after settle d = (
  In-appeared_with (codes "Error") before after d,
  In-appeared_with (codes "Warning") before after d,
  In-appeared after before d,
)
