-- ===== src/Server/Queue.antt =====
-- `TSQueue<OFSRequest>` of source/server/server.hpp, and the threads of `OFSServer` that share it: the
-- accepting thread, the workers of `workerLoop`, and `stop`.
--
-- A step is what one thread does under the lock of the queue, or between two such points. A worker
-- that waits on the condition variable stands in `popping`: it goes on when the queue is not empty.
pub mod Order
pub mod Stop
use omni_file_system.Prelude.{
  ℕ, ◌≡◌, Bool, true, false, Option, none, some, List, [], ◌∷◌, ◌++◌, get_elem?, set,
}
use omni_file_system.Server.{OfsRequest}

-- `push`
abbrev pub push : OfsRequest → List OfsRequest → List OfsRequest
push item q = q ++ (item ∷ [])

-- `pop`: `none` is a thread that waits.
abbrev pub pop : List OfsRequest → Option (OfsRequest × List OfsRequest)
pop [] = none
pop (item ∷ q) = some (item, q)

pub data Worker : Type 0 where
  -- Before the test of `running`.
  testing : Worker
  -- In `op_queue.pop`.
  popping : Worker
  -- In `handleRequest`.
  handling : OfsRequest → Worker
  -- Out of `workerLoop`.
  ended : Worker

pub record Pool : Type 0 where
  pub running : Bool
  pub accepting : Bool
  pub queue : List OfsRequest
  pub workers : List Worker

abbrev pub move : ℕ → Worker → Pool → Pool
move i w p = record p { workers = set p.workers i w }

-- What a step does to the outside: a request is pushed, a request is taken, or neither.
pub data Label : Type 0 where
  pushed : OfsRequest → Label
  popped : OfsRequest → Label
  silent : Label

pub data Step : Pool → Label → Pool → Type 0 where
  -- `acceptLoop` pushes a request.
  arrive :
      (p : Pool) (req : OfsRequest)
      → p.accepting ≡ true
      → Step p (pushed req) (record p { queue = push req p.queue })
  -- `while(running)` of `acceptLoop`.
  accept_end : (p : Pool) → p.running ≡ false → Step p silent (record p { accepting = false })
  -- `while(running)` of `workerLoop`.
  enter :
      (p : Pool) (i : ℕ)
      → p.running ≡ true
      → get_elem? p.workers i ≡ some testing
      → Step p silent (move i popping p)
  leave :
      (p : Pool) (i : ℕ)
      → p.running ≡ false
      → get_elem? p.workers i ≡ some testing
      → Step p silent (move i ended p)
  take :
      (p : Pool) (i : ℕ) (req : OfsRequest) (q : List OfsRequest)
      → get_elem? p.workers i ≡ some popping
      → pop p.queue ≡ some (req, q)
      → Step p (popped req) (record p { queue = q; workers = set p.workers i (handling req) })
  -- The end of `handleRequest`.
  finish :
      (p : Pool) (i : ℕ) (req : OfsRequest)
      → get_elem? p.workers i ≡ some (handling req)
      → Step p silent (move i testing p)
  -- `running = false` of `stop`.
  halt : (p : Pool) → Step p silent (record p { running = false })

abbrev pub arrivals : Label → List OfsRequest → List OfsRequest
arrivals (pushed req) rest = req ∷ rest
arrivals _ rest = rest

abbrev pub departures : Label → List OfsRequest → List OfsRequest
departures (popped req) rest = req ∷ rest
departures _ rest = rest

-- The requests that arrive and the requests that are taken, in the order of the steps.
pub data Run : Pool → List OfsRequest → List OfsRequest → Pool → Type 0 where
  rest : (p : Pool) → Run p [] [] p
  then_run :
      {p q r : Pool} {came went : List OfsRequest} (l : Label)
      → Step p l q
      → Run q came went r
      → Run p (arrivals l came) (departures l went) r

-- The pool after `start`.
abbrev pub started : Pool
started = record {
  running = true;
  accepting = true;
  queue = [];
  workers = testing ∷ testing ∷ testing ∷ testing ∷ [];
}
