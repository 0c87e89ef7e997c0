-- ===== src/Jobs.antt =====
-- `Registry` and `Signal` of crates/aide-mcp/src/jobs.rs.
pub mod Ids
pub mod Signals
use aide_mcp.Base.{
  text_equal, [], ◌∷◌, none, some, ℕ, if◌then◌else◌, ◌++◌, List, Option, Bool, Text, ◌+◌, codes,
  text_same, ◌%◌, ltb, any, ◌^◌,
}
use aide_mcp.Base.Map.{Map, insert, remove, get}
use aide_mcp.Proto.Framing.{print}
use aide_mcp.Base.Sort.{sort_by}
use aide_mcp.Base.Result.{Result, err, ok}
use aide_mcp.Base.Strings.{to_ascii_lowercase, trim}

pub record Job : Type 0 where
  pub id : Text
  -- a `u32`
  pub pid : ℕ
  pub kind : Text
  pub executable : Text
  pub args : List Text
  pub started_at_unix : ℕ

pub record Registry : Type 0 where
  pub jobs : Map Text Job
  -- an `AtomicU64`
  pub counter : ℕ

unfoldable pub new : Registry
new = record { jobs = []; counter = 1 }

abbrev pub id_of : ℕ → Text
id_of n = codes "job-" ++ print n

unfoldable pub next_id : Registry → Text × Registry
next_id r = (id_of r.counter, record r { counter = (r.counter + 1) % 2 ^ 64 })

unfoldable pub register : Job → Registry → Registry
register job r = record r { jobs = insert job.id job r.jobs }

unfoldable pub deregister : Text → Registry → Registry
deregister id r = record r { jobs = remove id r.jobs }

abbrev pub started_first : Job → Job → Bool
started_first a b = ltb b.started_at_unix a.started_at_unix

abbrev pub values : Map Text Job → List Job
values [] = []
values ((id, job) ∷ m) = job ∷ values m

unfoldable pub list : Registry → List Job
list r = sort_by started_first (values r.jobs)

unfoldable pub get_job : Text → Registry → Option Job
get_job id r = get id r.jobs

pub data Signal : Type 0 where
  term kill int hup quit : Signal

abbrev pub as_str : Signal → Text
as_str term = codes "term"
as_str kill = codes "kill"
as_str int = codes "int"
as_str hup = codes "hup"
as_str quit = codes "quit"

-- The number of the signal that `From<Signal>` picks, by POSIX.
abbrev pub number : Signal → ℕ
number term = 15
number kill = 9
number int = 2
number hup = 1
number quit = 3

abbrev pub one_of : Text → List Text → Bool
one_of s ts = any (text_same s) ts

-- The patterns of the `match` in `Signal::parse`.
abbrev pub spellings : Signal → List Text
spellings term = codes "term" ∷ codes "sigterm" ∷ codes "15" ∷ []
spellings kill = codes "kill" ∷ codes "sigkill" ∷ codes "9" ∷ []
spellings int = codes "int" ∷ codes "sigint" ∷ codes "2" ∷ []
spellings hup = codes "hup" ∷ codes "sighup" ∷ codes "1" ∷ []
spellings quit = codes "quit" ∷ codes "sigquit" ∷ codes "3" ∷ []

unfoldable pub parse_lower : Text → Option Signal
parse_lower s =
    if one_of s (spellings term)
    then some term
    else if one_of s (spellings kill)
    then some kill
    else if one_of s (spellings int)
    then some int
    else if one_of s (spellings hup)
    then some hup
    else if one_of s (spellings quit)
    then some quit
    else none

unfoldable pub parse : Text → Option Signal
unfolding parse_lower
parse raw = parse_lower (to_ascii_lowercase (trim raw))

pub record SignalResult : Type 0 where
  pub id : Text
  pub pid : ℕ
  pub signal : Text

pub data SignalError : Type 0 where
  no_such_job : SignalError
  bad_pid : ℕ → SignalError
  errno : ℕ → SignalError

-- `kill(2)` is the environment's: it tells the error number for a process and a signal, if any.
unfoldable pub signal_job :
    (ℕ → Signal → Option ℕ) → Text → Signal → Registry → Result SignalError SignalResult
unfolding get_job
signal_job kill_process id s r = elim (get_job id r) [
  | none ↦ err no_such_job
  | some job ↦
      if ltb job.pid (2 ^ 31)
      then elim (kill_process job.pid s) [
        | some e ↦ err (errno e)
        | none ↦ ok (record { id = job.id; pid = job.pid; signal = as_str s })
      ]
      else err (bad_pid job.pid)
]
