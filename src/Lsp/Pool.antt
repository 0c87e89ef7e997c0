-- ===== src/Lsp/Pool.antt =====
-- `LspPool` of crates/aide-lsp/src/pool.rs. The lock is not held while a server is spawned: the two
-- stretches of `get_or_spawn` are two steps, between which other calls run. A client is a number, and
-- what the operating system says of its process is a parameter.
use aide_mcp.Base.{
  pair_equal, text_equal, [], ◌∷◌, none, some, true, false, ℕ, ◌≡◌, arith, if◌then◌else◌, inl, inr,
  List, Option, Bool, Text, ◌⊎◌, ◌-◌, sym, ap, ◌∙◌, Bool-cases, ltb, Option-cases, In, same_refl,
  refl, ◌≤◌, ◌<◌, ◌+◌, ◌↔◌, subst,
}
use aide_mcp.Base.Map.{Map, get, Distinct, modify, remove, get-modify, insert}
use aide_mcp.Base.Result.{Result, err, ok}

-- The language and the root.
abbrev pub Key : Type 0
Key = Text × Text

pub record Entry : Type 0 where
  pub client : ℕ
  pub last_used : ℕ

pub data LspPoolError : Type 0 where
  server_missing spawn_failed : LspPoolError

-- What the first stretch comes to.
pub data Found : Type 0 where
  cached : ℕ → Found
  missing : Found

-- The first stretch: the cached client if it lives, and its corpse is dropped if not.
unfoldable pub look_up : (ℕ → Bool) → Key → ℕ → Map Key Entry → Found × Map Key Entry
look_up is_alive key now clients = elim (get key clients) [
  | none ↦ (missing, clients)
  | some e ↦
      if is_alive e.client
      then (cached e.client, modify key (λ x. record x { last_used = now }) clients)
      else (missing, remove key clients)
]

-- The second stretch, with what `server_binary.exists()` and `LspClient::spawn` give.
unfoldable pub spawn_client :
    Bool → Option ℕ → Key → ℕ → Map Key Entry → Result LspPoolError ℕ × Map Key Entry
spawn_client exists spawned key now clients =
    if exists
    then elim spawned [
      | none ↦ (err spawn_failed, clients)
      | some c ↦ (ok c, insert key (record { client = c; last_used = now }) clients)
    ]
    else (err server_missing, clients)

abbrev pub is_idle : ℕ → ℕ → Entry → Bool
is_idle ttl now e = ltb ttl (now - e.last_used)

-- The clients that are given out for shutdown, and the entries that stay.
unfoldable pub take_idle : ℕ → ℕ → Map Key Entry → List ℕ × Map Key Entry
take_idle ttl now [] = ([], [])
take_idle ttl now ((key, e) ∷ m) =
    let (evicted, kept) = take_idle ttl now m in
    if is_idle ttl now e then (e.client ∷ evicted, kept) else (evicted, (key, e) ∷ kept)

-- A client that a look hands out is alive, and it stays cached, as used just now.
pub look_up-alive :
    (is_alive : ℕ → Bool) (key : Key) (now : ℕ) (clients : Map Key Entry) (c : ℕ)
    → (look_up is_alive key now clients).0 ≡ cached c
    → (is_alive c ≡ true)
      × (get key (look_up is_alive key now clients).1
          ≡ some (record { client = c; last_used = now }))
unfolding look_up
look_up-alive is_alive key now clients c h = elim (Option-cases (get key clients)) [
  | inl e ↦ absurd (cc (rw (e, look_up) at h))
  | inr (x, e) ↦ elim (Bool-cases (is_alive x.client)) [
    | inr dead ↦ absurd (ground (arith, rw (e, look_up) at h, dead))
    | inl alive ↦
        let same : x.client ≡ c = ground (arith, rw (e, look_up) at h, alive) in
        (
          ap is_alive (sym same) ∙ alive,
          rw (e, look_up)
              (rw alive (
                get-modify key key _ clients
                ∙ rw (same_refl key, e)
                    (ap
                      (λ (n : ℕ). let y : Entry = record { client = n; last_used = now } in some y)
                      same))),
        )
  ]
]

take_idle-absent :
    (ttl now : ℕ) (m : Map Key Entry) (key : Key)
    → get key m ≡ none
    → get key (take_idle ttl now m).1 ≡ none
unfolding take_idle
take_idle-absent ttl now [] key h = refl
take_idle-absent ttl now ((k, x) ∷ m) key h = elim (Bool-cases (pair_equal.same k key)) [
  | inl hit ↦ absurd (cc (rw hit at h))
  | inr miss ↦
      let rest = take_idle-absent ttl now m key (rw miss at h) in
      elim (Bool-cases (is_idle ttl now x)) [
        | inl idle ↦ rw idle rest
        | inr busy ↦ rw busy (rw miss rest)
      ]
]

-- In a pool with distinct keys, an entry that has not been idle for longer than the time stays, and the
-- client of any other entry is handed out and its key is gone.
take_idle_complete :
    (ttl now : ℕ) (m : Map Key Entry) (key : Key) (e : Entry)
    → Distinct m
    → get key m ≡ some e
    → ((is_idle ttl now e ≡ false) × (get key (take_idle ttl now m).1 ≡ some e))
      ⊎ ((is_idle ttl now e ≡ true)
          × In e.client (take_idle ttl now m).0
          × (get key (take_idle ttl now m).1 ≡ none))
unfolding take_idle
take_idle_complete ttl now [] key e d h = absurd (cc h)
take_idle_complete ttl now ((k, x) ∷ m) key e (fresh, d) h =
    elim (Bool-cases (pair_equal.same k key)) [
      | inl hit ↦
          let same : x ≡ e = cc (rw hit at h) in
          let gone : get key (take_idle ttl now m).1 ≡ none =
            take_idle-absent ttl now m key (rw (← (pair_equal.same_iff k key).0 hit) fresh) in
          elim (Bool-cases (is_idle ttl now x)) [
            | inl idle ↦ inr (
              ap (is_idle ttl now) (sym same) ∙ idle,
              rw idle (inl (ap (λ (y : Entry). y.client) (sym same))),
              rw idle gone,
            )
            | inr busy ↦
                inl (ap (is_idle ttl now) (sym same) ∙ busy, rw busy (rw hit (ap some same)))
          ]
      | inr miss ↦
          let rest = take_idle_complete ttl now m key e d (rw miss at h) in
          elim (Bool-cases (is_idle ttl now x)) [
            | inl idle ↦ rw idle (elim rest [
              | inl (b, kept) ↦ inl (b, kept)
              | inr (i, out, gone) ↦ inr (i, inr out, gone)
            ])
            | inr busy ↦ rw busy (rw miss rest)
          ]
    ]

-- Whom a client that is given out belongs to.
abbrev IsOwned : ℕ → ℕ → Map Key Entry → ℕ → Type 0
IsOwned ttl now m c =
    (key : Key) × (e : Entry) × (get key m ≡ some e) × (is_idle ttl now e ≡ true) × (e.client ≡ c)

IsOwned-later :
    (ttl now : ℕ) (k : Key) (x : Entry) (m : Map Key Entry) (c : ℕ)
    → get k m ≡ none
    → IsOwned ttl now m c
    → IsOwned ttl now ((k, x) ∷ m) c
IsOwned-later ttl now k x m c fresh (key, e, there, idle, same) = (
  key,
  e,
  elim (Bool-cases (pair_equal.same k key)) [
    | inl hit ↦ absurd (
        let absent : get key m ≡ none =
          subst (λ x. get x m ≡ none) ((pair_equal.same_iff k key).0 hit) fresh in
        cc (sym absent ∙ there))
    | inr miss ↦ rw miss there
  ],
  idle,
  same,
)

take_idle_source :
    (ttl now : ℕ) (m : Map Key Entry) (c : ℕ)
    → Distinct m
    → In c (take_idle ttl now m).0
    → IsOwned ttl now m c
unfolding take_idle
take_idle_source ttl now [] c d h = absurd h
take_idle_source ttl now ((k, x) ∷ m) c (fresh, d) h =
    let later : In c (take_idle ttl now m).0 → IsOwned ttl now ((k, x) ∷ m) c =
      λ i. IsOwned-later ttl now k x m c fresh (take_idle_source ttl now m c d i) in
    elim (Bool-cases (is_idle ttl now x)) [
      | inr busy ↦ later (rw busy at h)
      | inl idle ↦ elim (rw idle at h) [
        | inl first ↦ (k, x, rw (same_refl k) refl, idle, sym first)
        | inr rest ↦ later rest
      ]
    ]

-- In a pool with distinct keys: an entry stays just if it was there and was used within the time, and a
-- client is handed out just if it belongs to an entry that was used longer ago.
pub take_idle_exact :
    (ttl now : ℕ) (m : Map Key Entry)
    → Distinct m
    → ((key : Key) (e : Entry)
        → (get key (take_idle ttl now m).1 ≡ some e)
          ↔ ((get key m ≡ some e) × (now ≤ e.last_used + ttl)))
      × ((c : ℕ)
          → In c (take_idle ttl now m).0 ↔ (
              (key : Key) × (e : Entry) × (get key m ≡ some e)
              × (e.last_used + ttl < now)
              × (e.client ≡ c)))
take_idle_exact ttl now m d = (λ key e. (kept key e, keeps key e), λ c. (taken c, takes c))
  where
    kept :
        (key : Key) (e : Entry)
        → get key (take_idle ttl now m).1 ≡ some e
        → (get key m ≡ some e) × (now ≤ e.last_used + ttl)
    kept key e h = elim (Option-cases (get key m)) [
      | inl gone ↦ absurd (cc (sym (take_idle-absent ttl now m key gone) ∙ h))
      | inr (x, there) ↦ elim (take_idle_complete ttl now m key x d there) [
        | inl (busy, stays) ↦
            let same : x ≡ e = cc (sym stays ∙ h) in
            (there ∙ ap some same, rw (← same) (ground (arith, busy)))
        | inr (idle, out, gone) ↦ absurd (cc (sym gone ∙ h))
      ]
    ]

    keeps :
        (key : Key) (e : Entry)
        → (get key m ≡ some e) × (now ≤ e.last_used + ttl)
        → get key (take_idle ttl now m).1 ≡ some e
    keeps key e (there, used) = elim (take_idle_complete ttl now m key e d there) [
      | inl (busy, stays) ↦ stays
      | inr (idle, out, gone) ↦ absurd (ground (arith, idle, used))
    ]

    taken :
        (c : ℕ)
        → In c (take_idle ttl now m).0
        → (key : Key) × (e : Entry) × (get key m ≡ some e)
          × (e.last_used + ttl < now)
          × (e.client ≡ c)
    taken c h =
        let (key, e, there, idle, same) = take_idle_source ttl now m c d h in
        (key, e, there, ground (arith, idle), same)

    takes :
        (c : ℕ)
        → (key : Key) × (e : Entry) × (get key m ≡ some e)
          × (e.last_used + ttl < now)
          × (e.client ≡ c)
        → In c (take_idle ttl now m).0
    takes c (key, e, there, old, same) = elim (take_idle_complete ttl now m key e d there) [
      | inl (busy, stays) ↦ absurd (ground (arith, busy, old))
      | inr (idle, out, gone) ↦ subst (λ x. In x (take_idle ttl now m).0) same out
    ]
