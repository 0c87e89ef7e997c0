-- ===== src/Base/Channels.antt =====
-- Requests that wait on channels for their answers: a number from which on no request has been sent, the
-- requests whose senders are kept, and what the channels have got.
use Prim.Native.Nat.{ℕ, ◌+◌, ◌≤◌, ◌<◌}
use mathlib.Core.Path.{◌≡◌, refl, sym, ◌∙◌}
use mathlib.Core.Logic.{◌≢◌, ◌⊎◌, inl, inr}
use mathlib.Core.Bool.{false}
use mathlib.Core.List.{[], ◌∷◌}
use mathlib.Core.Option.{Option, none, some}
use native.Mathlib.Omega.{arith}
use aide_mcp.Base.Tests.{Bool-cases, ◌==◌, ==_iff}
use aide_mcp.Base.Equality.{nat_equal}
use aide_mcp.Base.Map.{Map, get, insert, remove, get-insert, get-remove}

pub some-none : {A : Type 0} (a : A) (o : Option A) → o ≡ some a → o ≢ none
some-none a o h e = absurd (cc (sym h ∙ e))

abbrev pub Pending : Type 0
Pending = Map ℕ (Unit {0})

module _ {A : Type 0} where
  -- From `next` on no request has been sent.
  pub record IsTracked (next : ℕ) (pending : Pending) (answers : Map ℕ A) : Type 0 where
    -- no request is lost
    pub served :
        (seq : ℕ) → 1 ≤ seq → seq < next → (get seq pending ≢ none) ⊎ (get seq answers ≢ none)
    -- what waits has no answer yet
    pub waiting : (seq : ℕ) → get seq pending ≢ none → get seq answers ≡ none
    -- numbers to come are free
    pub free : (seq : ℕ) → next ≤ seq → (get seq pending ≡ none) × (get seq answers ≡ none)

  -- An answer that a channel has got stays.
  abbrev pub Keeps : Map ℕ A → Map ℕ A → Type 0
  Keeps before after = (seq : ℕ) (a : A) → get seq before ≡ some a → get seq after ≡ some a

  -- The senders are dropped: each channel that waits gets `dropped`.
  abbrev pub cancel_all : A → Pending → Map ℕ A → Map ℕ A
  cancel_all dropped [] answers = answers
  cancel_all dropped ((seq, u) ∷ m) answers = insert seq dropped (cancel_all dropped m answers)

  pub send-IsTracked :
      (next : ℕ) (pending : Pending) (answers : Map ℕ A)
      → IsTracked next pending answers
      → IsTracked (next + 1) (insert next tt pending) answers
  send-IsTracked next pending answers v = record {
    served = λ seq low high. elim (Bool-cases (seq == next)) [
      | inl e ↦ inl (λ h. ground (arith, e, h, get-insert next seq tt pending))
      | inr e ↦ elim (v.served seq low (ground (arith, e, high))) [
        | inl w ↦ inl (λ h. w (ground (arith, e, h, get-insert next seq tt pending)))
        | inr a ↦ inr a
      ]
    ];
    waiting = λ seq w. elim (Bool-cases (seq == next)) [
      | inl e ↦ (v.free seq (ground (arith, e))).1
      | inr e ↦ v.waiting seq (λ h. w (ground (arith, e, h, get-insert next seq tt pending)))
    ];
    free = λ seq high.
        let before = v.free seq (omega (arith, high)) in
        let apart : (next == seq) ≡ false = ground (arith, high) in
        (get-insert next seq tt pending ∙ rw apart before.0, before.1);
  }

  pub answer-IsTracked :
      (next : ℕ) (pending : Pending) (answers : Map ℕ A) (n : ℕ) (a : A)
      → get n pending ≢ none
      → IsTracked next pending answers
      → IsTracked next (remove n pending) (insert n a answers) × Keeps answers (insert n a answers)
  answer-IsTracked next pending answers n a there v = (
    record {
      served = λ seq low high. elim (Bool-cases (n == seq)) [
        | inl hit ↦ inr (some-none a _ (get-insert n seq a answers ∙ rw hit refl))
        | inr miss ↦ elim (v.served seq low high) [
          | inl w ↦ inl (λ h. w (ground (arith, miss, h, get-remove n seq pending)))
          | inr b ↦ inr (λ h. b (ground (arith, miss, h, get-insert n seq a answers)))
        ]
      ];
      waiting = λ seq w. elim (Bool-cases (n == seq)) [
        | inl hit ↦ absurd (w (get-remove n seq pending ∙ rw hit refl))
        | inr miss ↦
            get-insert n seq a answers
            ∙ rw miss (v.waiting seq (λ h. w (get-remove n seq pending ∙ rw miss h)))
      ];
      free = λ seq high.
          let (p, q) = v.free seq high in
          let apart : (n == seq) ≡ false = ground (arith, ==_iff n seq, there, p) in
          (get-remove n seq pending ∙ rw apart p, get-insert n seq a answers ∙ rw apart q);
    },
    λ seq b h. elim (Bool-cases (n == seq)) [
      | inl hit ↦ absurd (ground (arith, hit, h, v.waiting n there, ==_iff n seq))
      | inr miss ↦ get-insert n seq a answers ∙ rw miss h
    ],
  )

  get-cancel_all :
      (seq : ℕ) (dropped : A) (m : Pending) (answers : Map ℕ A)
      → ((get seq m ≡ none) × (get seq (cancel_all dropped m answers) ≡ get seq answers))
        ⊎ ((get seq m ≢ none) × (get seq (cancel_all dropped m answers) ≡ some dropped))
  get-cancel_all seq dropped [] answers = inl (refl, refl)
  get-cancel_all seq dropped ((n, u) ∷ m) answers =
      let at = get-insert n seq dropped (cancel_all dropped m answers) in
      elim (Bool-cases (n == seq)) [
        | inl hit ↦ inr (some-none u _ (rw hit refl), at ∙ rw hit refl)
        | inr miss ↦ elim (get-cancel_all seq dropped m answers) [
          | inl (p, q) ↦ inl (rw miss p, at ∙ rw miss q)
          | inr (p, q) ↦ inr (rw miss p, at ∙ rw miss q)
        ]
      ]

  pub cancel-IsTracked :
      (next : ℕ) (pending : Pending) (answers : Map ℕ A) (dropped : A)
      → IsTracked next pending answers
      → IsTracked next [] (cancel_all dropped pending answers)
        × Keeps answers (cancel_all dropped pending answers)
  cancel-IsTracked next pending answers dropped v = (
    record {
      served = λ seq low high. elim (get-cancel_all seq dropped pending answers) [
        | inl (p, q) ↦
            inr (λ h. elim (v.served seq low high) [ inl w ↦ w p | inr a ↦ a (sym q ∙ h) ])
        | inr (p, q) ↦ inr (some-none dropped _ q)
      ];
      waiting = λ seq w. absurd (w refl);
      free = λ seq high. elim (get-cancel_all seq dropped pending answers) [
        | inl (p, q) ↦ (refl, q ∙ (v.free seq high).1)
        | inr (p, q) ↦ absurd (p (v.free seq high).0)
      ];
    },
    λ seq a h. elim (get-cancel_all seq dropped pending answers) [
      | inl (p, q) ↦ q ∙ h
      | inr (p, q) ↦ absurd (some-none a _ h (v.waiting seq p))
    ],
  )
