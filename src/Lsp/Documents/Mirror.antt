-- ===== src/Lsp/Documents/Mirror.antt =====
-- The server holds the documents that the client believes to be open.
use mathlib.Core.Option
use aide_mcp.Base.{
  text_equal, [], ◌∷◌, some, false, ◌≡◌, arith, refl, inl, inr, List, Option, Text, Bool-cases,
  text_same, none, ℕ, if◌then◌else◌, ◌++◌, ap, ◌∙◌, text_same_iff, Option-cases, length, same_refl,
  leb, ltb, sym, subst,
}
use aide_mcp.Lsp.Documents.{
  OpenedDocument, Documents, least_recent, Notification, receive_all, receive, make_room,
  ensure_current, did_open, did_close, did_change, max_open_docs, opened, removed, changed,
}
use aide_mcp.Base.Map.{Map, get, insert, remove, Distinct, get-insert, get-remove}

abbrev pub text_of : OpenedDocument → Text
text_of e = e.text

-- The server has the same documents open, with the same texts.
abbrev pub Mirrors : Documents → Map Text Text → Type 0
Mirrors docs server = (u : Text) → get u server ≡ Option.map text_of (get u docs)

pub Mirrors-insert :
    (uri text : Text) (e : OpenedDocument) (docs : Documents) (server : Map Text Text)
    → Mirrors docs server
    → e.text ≡ text
    → Mirrors (insert uri e docs) (insert uri text server)
Mirrors-insert uri text e docs server h q u =
    ground (arith, get-insert uri u text server, get-insert uri u e docs, h u, q)

Mirrors-touch :
    (uri : Text) (d e : OpenedDocument) (docs : Documents) (server : Map Text Text)
    → Mirrors docs server
    → get uri docs ≡ some d
    → e.text ≡ d.text
    → Mirrors (insert uri e docs) server
Mirrors-touch uri d e docs server h g q u =
    ground (arith, get-insert uri u e docs, h u, g, q, text_same_iff uri u)

Mirrors-remove :
    (uri : Text) (docs : Documents) (server : Map Text Text)
    → Mirrors docs server
    → Mirrors (remove uri docs) (remove uri server)
Mirrors-remove uri docs server h u =
    ground (arith, get-remove uri u server, get-remove uri u docs, h u)

pub least_recent-get :
    (m : Documents) (p : Text × OpenedDocument)
    → Distinct m
    → least_recent m ≡ some p
    → get p.0 m ≡ some p.1
unfolding least_recent
least_recent-get [] p d h = absurd (cc h)
least_recent-get ((u, e) ∷ m) p d h = elim (Option-cases (least_recent m)) [
  | inl empty ↦
      let is_first : p ≡ (u, e) = ground (arith, h, empty) in rw is_first (rw (same_refl u) refl)
  | inr (q, found) ↦ elim (Bool-cases (ltb q.1.last_used e.last_used)) [
    | inl less ↦
        let is_other : p ≡ q = ground (arith, h, found, less) in
        let there = least_recent-get m q d.1 found in
        let apart : text_same u q.0 ≡ false = ground (arith, text_same_iff u q.0, d.0, there) in
        subst (λ (x : Text × OpenedDocument). get x.0 ((u, e) ∷ m) ≡ some x.1) (sym is_other)
          (rw apart there)
    | inr more ↦
        let is_first : p ≡ (u, e) = ground (arith, h, found, more) in
        rw is_first (rw (same_refl u) refl)
  ]
]

-- What a call sends is legal, and after it the server mirrors the documents again.
pub record IsCurrent (uri text : Text) (docs : Documents) (server server' : Map Text Text)
    (sent : List Notification) : Type 0 where
  pub legal : receive_all sent server ≡ some server'
  pub mirrors : Mirrors docs server'
  pub current : Option.map text_of (get uri docs) ≡ some text

-- A document that is not open is opened.
opens :
    (uri language_id text : Text) (now : ℕ) (docs : Documents) (server : Map Text Text)
    → Mirrors docs server
    → get uri docs ≡ none
    → (server' : Map Text Text) × (receive_all (did_open uri language_id 1 text ∷ []) server
        ≡ some server')
      × Mirrors (insert uri (opened text now) docs) server'
unfolding receive_all
opens uri language_id text now docs server h absent = (
  insert uri text server,
  ground (arith, h uri, absent),
  Mirrors-insert uri text (opened text now) docs server h refl,
)

-- A document that is open is closed.
closes :
    (p : Text × OpenedDocument) (docs : Documents) (server : Map Text Text)
    → Mirrors docs server
    → get p.0 docs ≡ some p.1
    → receive (did_close p.0) server ≡ some (remove p.0 server)
closes p docs server h there = ground (arith, h p.0, there)

pub receive_all-append :
    (ns ks : List Notification) (m m' : Map Text Text)
    → receive_all ns m ≡ some m'
    → receive_all (ns ++ ks) m ≡ receive_all ks m'
unfolding receive_all
receive_all-append [] ks m m' h = ap (receive_all ks) (cc h)
receive_all-append (n ∷ ns) ks m m' h = elim (Option-cases (receive n m)) [
  | inl e ↦ absurd (ground (arith, h, e))
  | inr (next, e) ↦
      rw (e, receive_all) (receive_all-append ns ks next m' (rw (e, receive_all) at h))
]

-- Room is made for one document, by closing one if there is need.
make_room-legal :
    (docs : Documents) (server : Map Text Text)
    → Distinct docs
    → Mirrors docs server
    → (server' : Map Text Text) × (receive_all (make_room docs).1 server ≡ some server')
      × Mirrors (make_room docs).0 server'
      × ((u : Text) → get u docs ≡ none → get u (make_room docs).0 ≡ none)
unfolding make_room receive_all
make_room-legal docs server d h =
    go (if leb max_open_docs (length docs) then least_recent docs else none)
      (λ p e. least_recent-get docs p d (chosen p e))
  where
    chosen :
        (p : Text × OpenedDocument)
        → (if leb max_open_docs (length docs) then least_recent docs else none) ≡ some p
        → least_recent docs ≡ some p
    chosen p e = ground (arith, e)

    go :
        (o : Option (Text × OpenedDocument))
        → ((p : Text × OpenedDocument) → o ≡ some p → get p.0 docs ≡ some p.1)
        → (server' : Map Text Text) × (receive_all (removed o docs).1 server ≡ some server')
          × Mirrors (removed o docs).0 server'
          × ((u : Text) → get u docs ≡ none → get u (removed o docs).0 ≡ none)
    go none there = (server, refl, h, λ u absent. absent)
    go (some p) there = (
      remove p.0 server,
      rw (closes p docs server h (there p refl), receive_all) refl,
      Mirrors-remove p.0 docs server h,
      λ u absent. ground (arith, get-remove p.0 u docs, absent),
    )

-- If no document is recorded twice and the server holds the documents that are recorded, then after a call every notification
-- that it sent was legal for the server, the server holds the documents recorded now, and the requested
-- one has the text of the file.
pub ensure_current-IsCurrent :
    (uri language_id text : Text) (now : ℕ) (docs : Documents) (server : Map Text Text)
    → Distinct docs
    → Mirrors docs server
    → (server' : Map Text Text) × IsCurrent uri text
        (ensure_current uri language_id text now docs).0
        server
        server'
        (ensure_current uri language_id text now docs).1
unfolding ensure_current receive_all
ensure_current-IsCurrent uri language_id text now docs server d h =
    elim (Option-cases (get uri docs)) [
      | inr (e, there) ↦
          rw (there, ensure_current)
            (elim (Bool-cases (text_same e.text text)) [
              | inl same ↦
                  let touched : OpenedDocument = record e { last_used = now } in
                  rw same (
                    server,
                    record {
                      legal = nothing_sent;
                      mirrors = Mirrors-touch uri e touched docs server h there refl;
                      current = ground (
                        arith,
                        get-insert uri uri touched docs,
                        same_refl uri,
                        (text_same_iff e.text text).0 same,
                      );
                    },
                  )
              | inr differs ↦ rw differs (
                insert uri text server,
                record {
                  legal = change_legal e (changed text now e).version there;
                  mirrors = Mirrors-insert uri text (changed text now e) docs server h refl;
                  current =
                      ground (arith, get-insert uri uri (changed text now e) docs, same_refl uri);
                },
              )
            ])
      | inl absent ↦
          let (mid, closed, kept, still) = make_room-legal docs server d h in
          let (server', opened_there, m) =
            opens uri language_id text now (make_room docs).0 mid kept (still uri absent) in
          rw (absent, ensure_current)
            (
              server',
              record {
                legal = receive_all-append (make_room docs).1 _ server mid closed ∙ opened_there;
                mirrors = m;
                current =
                    ground (
                      arith,
                      get-insert uri uri (opened text now) (make_room docs).0,
                      same_refl uri,
                    );
              },
            )
    ]
  where
    nothing_sent : receive_all [] server ≡ some server
    nothing_sent = refl

    change_legal :
        (e : OpenedDocument) (v : ℕ)
        → get uri docs ≡ some e
        → receive_all (did_change uri v text ∷ []) server ≡ some (insert uri text server)
    change_legal e v there = ground (arith, h uri, there)
