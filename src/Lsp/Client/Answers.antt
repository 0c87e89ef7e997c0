-- ===== src/Lsp/Client/Answers.antt =====
-- Every request to a language server is answered once, over every interleaving of its requests, the
-- reader and the ends of waits.
use aide_mcp.Base.{
  text_equal, nat_equal, none, some, ℕ, ◌≡◌, refl, inl, inr, Bool, ◌<◌, ◌+◌, ◌^◌, Option-cases, ◌%◌,
  ◌∙◌, same_refl, sym, subst,
}
use native.Mathlib.Nat.{mod-eq_of_lt}
use aide_mcp.Base.Map.{get, get-insert, insert, remove, get-remove}
use aide_mcp.Base.Result.{ok, err}
use aide_mcp.Base.Channels.{
  IsTracked, Keeps, send-IsTracked, answer-IsTracked, cancel-IsTracked, some-none,
}
use aide_mcp.Lsp.Client.{
  LspClient, Message, send_request, give_up, dispatch, exit_reader, resolved, cancelled, timeout,
  null,
}

-- The ids below `next_id` have been sent.
abbrev pub IsValid : LspClient → Type 0
IsValid c = IsTracked c.next_id c.pending c.answers

abbrev pub KeepsAnswers : LspClient → LspClient → Type 0
KeepsAnswers c d = Keeps c.answers d.answers

pub data Step : LspClient → LspClient → Type 0 where
  sends :
      (written : Bool) (c : LspClient) → c.next_id + 1 < 2 ^ 64 → Step c (send_request written c).1
  gives_up : (id : ℕ) (c : LspClient) → Step c (give_up id c)
  dispatches : (msg : Message) (c : LspClient) → Step c (dispatch msg c)
  exits : (c : LspClient) → Step c (exit_reader c)

pub data Run (c : LspClient) : LspClient → Type 0 where
  here : Run c c
  next : {a b : LspClient} → Run c a → Step a b → Run c b

send_request-IsValid :
    (written : Bool) (c : LspClient)
    → c.next_id + 1 < 2 ^ 64
    → IsValid c
    → IsValid (send_request written c).1
unfolding send_request
send_request-IsValid written c small v =
    let exact : (c.next_id + 1) % 2 ^ 64 ≡ c.next_id + 1 = mod-eq_of_lt small in
    rw exact (send-IsTracked c.next_id c.pending c.answers v)

give_up-IsValid :
    (id : ℕ) (c : LspClient) → IsValid c → IsValid (give_up id c) × KeepsAnswers c (give_up id c)
unfolding give_up
give_up-IsValid id c v = elim (Option-cases (get id c.pending)) [
  | inl gone ↦ rw (gone, give_up) (v, λ seq a h. h)
  | inr (u, there) ↦
      rw (there, give_up)
        (answer-IsTracked c.next_id c.pending c.answers id (err timeout) (some-none u _ there) v)
]

dispatch-IsValid :
    (msg : Message) (c : LspClient)
    → IsValid c
    → IsValid (dispatch msg c) × KeepsAnswers c (dispatch msg c)
unfolding dispatch
dispatch-IsValid msg c v = elim (Option-cases msg.id) [
  | inl e ↦ rw (e, dispatch) (v, λ seq a h. h)
  | inr (n, e) ↦ elim (Option-cases (get n c.pending)) [
    | inl gone ↦ rw (e, dispatch) (rw gone (v, λ seq a h. h))
    | inr (u, there) ↦
        rw (e, dispatch)
          (rw there (
            answer-IsTracked c.next_id c.pending c.answers n (resolved msg) (some-none u _ there)
              v))
  ]
]

exit_reader-IsValid :
    (c : LspClient) → IsValid c → IsValid (exit_reader c) × KeepsAnswers c (exit_reader c)
unfolding exit_reader
exit_reader-IsValid c v = cancel-IsTracked c.next_id c.pending c.answers (err cancelled) v

Step-IsValid : {c d : LspClient} → Step c d → IsValid c → IsValid d × KeepsAnswers c d
unfolding send_request
Step-IsValid (sends written c small) v = (send_request-IsValid written c small v, λ seq a h. h)
Step-IsValid (gives_up id c) v = give_up-IsValid id c v
Step-IsValid (dispatches msg c) v = dispatch-IsValid msg c v
Step-IsValid (exits c) v = exit_reader-IsValid c v

-- From a valid client, over every run of requests, messages of the server, ends of waits and the end of
-- the reader, while the ids do not wrap: no request that was sent is lost, since it waits or has got an
-- answer, nothing waits that has an answer, and an answer that was given is never replaced.
pub Run-requests-IsValid : {c d : LspClient} → IsValid c → Run c d → IsValid d × KeepsAnswers c d
Run-requests-IsValid v here = (v, λ seq a h. h)
Run-requests-IsValid v (next r st) =
    let (v', keeps) = Run-requests-IsValid v r in
    let (v'', keeps') = Step-IsValid st v' in (v'', λ seq a h. keeps' seq a (keeps seq a h))

-- A message for a request that waits, and one for a request that does not.
dispatch-waiting :
    (msg : Message) (c : LspClient) (id : ℕ)
    → msg.id ≡ some id
    → get id c.pending ≡ some tt
    → dispatch msg c
      ≡ record c { pending = remove id c.pending; answers = insert id (resolved msg) c.answers }
unfolding dispatch
dispatch-waiting msg c id e there = rw (e, dispatch) (rw there refl)

dispatch-unknown :
    (msg : Message) (c : LspClient) (id : ℕ)
    → msg.id ≡ some id
    → get id c.pending ≡ none
    → dispatch msg c ≡ c
unfolding dispatch
dispatch-unknown msg c id e gone = rw (e, dispatch) (rw gone refl)

-- A message without an error and a result, as a request of the server is, that bears the id of a request
-- which has just been sent: the caller gets the answer null, and the response that comes after it is lost,
-- whatever it holds.
pub server_request-answers :
    (c : LspClient) (written : Bool) (request response : Message)
    → request.id ≡ some c.next_id
    → response.id ≡ some c.next_id
    → request.error ≡ none
    → request.result ≡ none
    → let asked = dispatch request (send_request written c).1 in
      (get c.next_id asked.answers ≡ some (ok null)) × (dispatch response asked ≡ asked)
unfolding send_request
server_request-answers c written request response e e' no_error no_result =
    let id = c.next_id in
    let sent : LspClient = (send_request written c).1 in
    let asked : LspClient = record sent {
      pending = remove id sent.pending;
      answers = insert id (resolved request) c.answers;
    } in
    let waits : get id sent.pending ≡ some tt =
      get-insert id id tt c.pending ∙ rw (same_refl id) refl in
    let gone : get id asked.pending ≡ none =
      get-remove id id sent.pending ∙ rw (same_refl id) refl in
    let after : dispatch request sent ≡ asked = dispatch-waiting request sent id e waits in
    let null_answer : get id asked.answers ≡ some (ok null) =
      get-insert id id (resolved request) c.answers
      ∙ rw (same_refl id) (rw (no_error, resolved) (rw no_result refl)) in
    subst (λ (x : LspClient). (get id x.answers ≡ some (ok null)) × (dispatch response x ≡ x))
      (sym after) (null_answer, dispatch-unknown response asked id e' gone)
