-- ===== src/Dap.antt =====
-- The debug adapter client of crates/aide-dap/src/client.rs: its requests, the reader task, and the
-- state that events set. A message is read from JSON by a library; here it is what the client reads of
-- it. The channel of a request has the request's number for its name.
pub mod Answers
mod Tests
use aide_mcp.Base.{
  text_equal, nat_equal, [], ◌∷◌, none, some, true, ℕ, if◌then◌else◌, List, Option, Bool, Text, ◌+◌,
  codes, ◌%◌, ◌^◌,
}
use aide_mcp.Base.Int.{ℤ}
use aide_mcp.Base.Map.{Map, get, remove, insert}
use aide_mcp.Base.Channels.{Pending, cancel_all}
use aide_mcp.Base.Result.{Result, ok, err}

pub record StoppedInfo : Type 0 where
  pub thread_id : Option ℤ
  pub reason : Text
  pub description : Option Text
  pub text : Option Text
  pub all_threads_stopped : Bool
  pub hit_breakpoint_ids : List ℤ

pub record EventState : Type 0 where
  pub stopped : Option StoppedInfo
  pub initialized : Bool
  pub terminated : Bool

-- The events that are told apart; `stopped_event` carries its parsed body, if it has one.
pub data Event : Type 0 where
  initialized_event continued_event exited_event terminated_event other_event : Event
  stopped_event : Option StoppedInfo → Event

pub data Answer : Type 0 where
  body : Option Text → Answer
  dap_error : (command message : Text) → Answer
  cancelled : Answer

pub record Response : Type 0 where
  pub request_seq : Option ℕ
  pub command : Text
  pub success : Bool
  pub message : Text
  pub body : Option Text

pub record DapClient : Type 0 where
  -- the bits of an `AtomicI64`
  pub next_seq : ℕ
  -- the requests whose senders are kept
  pub pending : Pending
  -- what the channels have got
  pub answers : Map ℕ Answer
  pub state : EventState
  pub closed : Bool

pub data DapClientError : Type 0 where
  framing json cancelled_wait timed_out : DapClientError

-- `request_rx`: the number of the request, whose channel the caller waits on. `written` tells whether
-- the message is written.
unfoldable pub request_rx : Bool → DapClient → Result DapClientError ℕ × DapClient
request_rx written c =
    let sent = record c {
      next_seq = (c.next_seq + 1) % 2 ^ 64;
      pending = insert c.next_seq tt c.pending;
    } in
    (if written then ok c.next_seq else err framing, sent)

abbrev pub or_reported : Text → Text
or_reported [] = codes "adapter reported failure"
or_reported (c ∷ s) = c ∷ s

abbrev pub answer_of : Response → Answer
answer_of r = if r.success then body r.body else dap_error r.command (or_reported r.message)

unfoldable pub handle_response : Response → DapClient → DapClient
handle_response r c = elim r.request_seq [
  | none ↦ c
  | some seq ↦ elim (get seq c.pending) [
    | none ↦ c
    | some u ↦ record c {
      pending = remove seq c.pending;
      answers = insert seq (answer_of r) c.answers;
    }
  ]
]

unfoldable pub handle_event : Event → EventState → EventState
handle_event initialized_event s = record s { initialized = true }
handle_event (stopped_event none) s = s
handle_event (stopped_event (some info)) s = record s { stopped = some info }
handle_event continued_event s = record s { stopped = none }
handle_event exited_event s = record s { terminated = true; stopped = none }
handle_event terminated_event s = record s { terminated = true; stopped = none }
handle_event other_event s = s

-- The reader task ends: the senders are dropped.
unfoldable pub close : DapClient → DapClient
close c = record c {
  closed = true;
  pending = [];
  answers = cancel_all cancelled c.pending c.answers;
}

-- What `continue`, `next` and the steps do once their response has come.
unfoldable pub resumed : EventState → EventState
resumed s = record s { stopped = none }

-- One look of the loop in `wait_for_stopped`: `none` is to wait.
unfoldable pub look_stopped : EventState → Option (Result DapClientError StoppedInfo)
look_stopped s = elim s.stopped [
  | some info ↦ some (ok info)
  | none ↦ if s.terminated then some (err cancelled_wait) else none
]

-- The loop, over the states that it finds in turn until its time is over.
unfoldable pub wait_for_stopped : List EventState → Result DapClientError StoppedInfo
unfolding look_stopped
wait_for_stopped [] = err timed_out
wait_for_stopped (s ∷ ss) = elim (look_stopped s) [ some r ↦ r | none ↦ wait_for_stopped ss ]

-- A look of the loop in `wait_for_initialized`, with whether the client is closed.
unfoldable pub look_initialized : EventState → Bool → Option (Result DapClientError (Unit {0}))
look_initialized s is_closed =
    if s.initialized then some (ok tt) else if is_closed then some (err cancelled_wait) else none

unfoldable pub wait_for_initialized : List (EventState × Bool) → Result DapClientError (Unit {0})
unfolding look_initialized
wait_for_initialized [] = err timed_out
wait_for_initialized (p ∷ ps) = elim (look_initialized p.0 p.1) [
  | some r ↦ r
  | none ↦ wait_for_initialized ps
]
