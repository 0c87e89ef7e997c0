-- ===== src/Dap/Tests.antt =====
-- The theorems on the debug adapter client at concrete runs.
use aide_mcp.Base.{text_equal, nat_equal, [], none, some, true, false, arith, refl, codes}
use aide_mcp.Dap.{DapClient, request_rx, handle_response}
use aide_mcp.Dap.Answers.{IsValid, Run, next, KeepsAnswers, Run-IsValid, here, requests, responds}

abbrev fresh_client : DapClient
fresh_client = record {
  next_seq = 1;
  pending = [];
  answers = [];
  state = record { stopped = none; initialized = false; terminated = false };
  closed = false;
}

fresh-IsValid : IsValid fresh_client
fresh-IsValid = record {
  served = λ seq low high. absurd (omega (arith, low, high));
  waiting = λ seq w. refl;
  free = λ seq high. (refl, refl);
}

abbrev sent : DapClient
sent = (request_rx true fresh_client).1

abbrev answered : DapClient
answered =
    handle_response
      (record {
        request_seq = some 1;
        command = codes "next";
        success = true;
        message = [];
        body = none;
      })
      sent

one_round : Run fresh_client answered
one_round = next (next here (requests true fresh_client (omega arith))) (
    responds
      (record {
        request_seq = some 1;
        command = codes "next";
        success = true;
        message = [];
        body = none;
      })
      sent)

Run-IsValid_example : IsValid answered × KeepsAnswers fresh_client answered
Run-IsValid_example = Run-IsValid fresh-IsValid one_round

sent-IsValid : IsValid sent
sent-IsValid = (Run-IsValid fresh-IsValid (next here (requests true fresh_client (omega arith)))).0
