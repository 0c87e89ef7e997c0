-- ===== src/Lsp/ClientTests.antt =====
-- The theorems on the language server client and on symbols at concrete inputs.
use aide_mcp.Base.{text_equal, nat_equal, [], none, some, true, ℕ, ◌≡◌, arith, refl, codes, inl}
use aide_mcp.Base.Map.{get}
use aide_mcp.Base.Result.{ok}
use aide_mcp.Lsp.Client.{LspClient, Message, send_request, dispatch, null}
use aide_mcp.Lsp.Client.Answers.{
  IsValid, KeepsAnswers, Run, here, next, sends, dispatches, Run-requests-IsValid,
  server_request-answers,
}
use aide_mcp.Lsp.Position.{Position}
use aide_mcp.Lsp.Position.Splice.{Range}
use aide_mcp.Lsp.Symbols.{Symbol, Symbols, symbol, absent, listed, nil, cons, find_enclosing_symbol}
use aide_mcp.Lsp.Symbols.Owner.{
  inside, alone, none_left, find_enclosing_symbol-owner, Owns, InRange,
}

abbrev fresh_client : LspClient
fresh_client = record {
  next_id = 1;
  pending = [];
  answers = [];
  diagnostics = [];
  opened = [];
  alive = true;
}

fresh-IsValid : IsValid fresh_client
fresh-IsValid = record {
  served = λ seq low high. absurd (omega (arith, low, high));
  waiting = λ seq w. absurd (w refl);
  free = λ seq high. (refl, refl);
}

unfoldable sent : LspClient
unfolding send_request
sent = (send_request true fresh_client).1

-- A request of the server, with an id of its own.
abbrev configuration : Message
configuration = record {
  id = some 1;
  method = some (codes "workspace/configuration");
  error = none;
  result = none;
  published = none;
}

unfoldable confused : LspClient
unfolding sent dispatch
confused = dispatch configuration sent

one_round : Run fresh_client confused
unfolding confused sent
one_round = next (next here (sends true fresh_client (omega arith))) (dispatches configuration sent)

Run-requests-IsValid_example : IsValid confused × KeepsAnswers fresh_client confused
Run-requests-IsValid_example = Run-requests-IsValid fresh-IsValid one_round

abbrev answered : Message
answered = record configuration { result = some (codes "[]") }

server_request-answers_example :
    let asked = dispatch configuration (send_request true fresh_client).1 in
    (get 1 asked.answers ≡ some (ok null)) × (dispatch answered asked ≡ asked)
server_request-answers_example =
    server_request-answers fresh_client true configuration answered refl refl refl refl

abbrev span : ℕ → ℕ → Range
span first_line last_line = record {
  start = record { line = first_line; character = 0 };
  end = record { line = last_line; character = 0 };
}

abbrev method : Symbol
method = symbol (codes "run") (span 2 4) (span 2 2) absent

abbrev outline : Symbols
outline = cons (symbol (codes "Job") (span 1 9) (span 1 1) (listed (cons method nil))) nil

abbrev in_method : Position
in_method = record { line = 3; character = 4 }

in_span : InRange in_method (span 1 9) × InRange in_method (span 2 4)
in_span = (
  ((λ b. ground (arith, b)), (λ b. ground (arith, b))),
  ((λ b. ground (arith, b)), (λ b. ground (arith, b))),
)

find_enclosing_symbol-owner_example :
    find_enclosing_symbol outline in_method ≡ some (span 2 4, codes "run")
find_enclosing_symbol-owner_example =
    find_enclosing_symbol-owner in_method method outline
      (alone _ nil (alone method nil none_left tt) tt)
      (inside _ nil (inl in_span.0) (Owns.here nil (inl in_span.1) tt))
