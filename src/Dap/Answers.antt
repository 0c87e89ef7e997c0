-- ===== src/Dap/Answers.antt =====
-- Every request is answered once: its channel waits, or it has got the one answer that it keeps.
use aide_mcp.Base.{
  text_equal, nat_equal, none, ℕ, ◌≡◌, refl, inl, inr, Bool, ◌≤◌, ◌<◌, ◌+◌, ◌≢◌, ◌^◌, Option-cases,
  ◌%◌,
}
use aide_mcp.Dap.{
  DapClient, request_rx, handle_response, close, Response, cancelled, EventState, answer_of,
}
use native.Mathlib.Nat.{mod-eq_of_lt}
use aide_mcp.Base.Map.{get}
use aide_mcp.Base.Channels.{
  IsTracked, Keeps, send-IsTracked, answer-IsTracked, cancel-IsTracked, some-none,
}

-- The numbers below `next_seq` have been sent.
abbrev pub IsValid : DapClient → Type 0
IsValid c = IsTracked c.next_seq c.pending c.answers

abbrev pub KeepsAnswers : DapClient → DapClient → Type 0
KeepsAnswers c d = Keeps c.answers d.answers

pub data Step : DapClient → DapClient → Type 0 where
  requests :
      (written : Bool) (c : DapClient) → c.next_seq + 1 < 2 ^ 64 → Step c (request_rx written c).1
  responds : (r : Response) (c : DapClient) → Step c (handle_response r c)
  closes : (c : DapClient) → Step c (close c)
  changes : (s : EventState) (c : DapClient) → Step c (record c { state = s })

pub data Run (c : DapClient) : DapClient → Type 0 where
  here : Run c c
  next : {a b : DapClient} → Run c a → Step a b → Run c b

request_rx-IsValid :
    (written : Bool) (c : DapClient)
    → c.next_seq + 1 < 2 ^ 64
    → IsValid c
    → IsValid (request_rx written c).1
unfolding request_rx
request_rx-IsValid written c small v =
    let exact : (c.next_seq + 1) % 2 ^ 64 ≡ c.next_seq + 1 = mod-eq_of_lt small in
    rw exact (send-IsTracked c.next_seq c.pending c.answers v)

handle_response-IsValid :
    (r : Response) (c : DapClient)
    → IsValid c
    → IsValid (handle_response r c) × KeepsAnswers c (handle_response r c)
unfolding handle_response
handle_response-IsValid r c v = elim (Option-cases r.request_seq) [
  | inl e ↦ rw (e, handle_response) (v, λ seq a h. h)
  | inr (n, e) ↦ elim (Option-cases (get n c.pending)) [
    | inl gone ↦ rw (e, handle_response) (rw gone (v, λ seq a h. h))
    | inr (u, there) ↦
        rw (e, handle_response)
          (rw there (
            answer-IsTracked c.next_seq c.pending c.answers n (answer_of r) (some-none u _ there)
              v))
  ]
]

close-IsValid : (c : DapClient) → IsValid c → IsValid (close c) × KeepsAnswers c (close c)
unfolding close
close-IsValid c v = cancel-IsTracked c.next_seq c.pending c.answers cancelled v

Step-IsValid : {c d : DapClient} → Step c d → IsValid c → IsValid d × KeepsAnswers c d
unfolding request_rx
Step-IsValid (requests written c small) v = (request_rx-IsValid written c small v, λ seq a h. h)
Step-IsValid (responds r c) v = handle_response-IsValid r c v
Step-IsValid (closes c) v = close-IsValid c v
Step-IsValid (changes s c) v = (v, λ seq a h. h)

-- From a valid client, over every run of requests, responses, events and the end of the reader, while the numbers do not
-- wrap: no request that was sent is lost, since it waits or has got an answer, nothing waits that has an
-- answer, and an answer that was given is never replaced.
pub Run-IsValid : {c d : DapClient} → IsValid c → Run c d → IsValid d × KeepsAnswers c d
Run-IsValid v here = (v, λ seq a h. h)
Run-IsValid v (next r st) =
    let (v', keeps) = Run-IsValid v r in
    let (v'', keeps') = Step-IsValid st v' in (v'', λ seq a h. keeps' seq a (keeps seq a h))

-- After the end of the reader of a valid client, every request that was sent has got an answer.
pub close-answered :
    (c : DapClient) (seq : ℕ)
    → IsValid c
    → 1 ≤ seq
    → seq < c.next_seq
    → get seq (close c).answers ≢ none
unfolding close
close-answered c seq v low high = elim ((close-IsValid c v).0.served seq low high) [
  | inl w ↦ absurd (w refl)
  | inr a ↦ a
]
