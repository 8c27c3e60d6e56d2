-- ===== src/Server/Queue/Order.antt =====
-- The queue keeps the order of arrival.
use mathlib.Core.List.{append-nil, append_assoc}
use omni_file_system.Prelude.{◌≡◌, refl, ap, ◌∙◌, some, List, [], ◌∷◌, ◌++◌}
use omni_file_system.Server.{OfsRequest}
use omni_file_system.Server.Queue.{
  Pool, Label, Step, arrive, accept_end, enter, leave, take, finish, halt, Run, rest, then_run,
  arrivals, departures, pop,
}

pop-front :
    (q : List OfsRequest) (req : OfsRequest) (left : List OfsRequest)
    → pop q ≡ some (req, left)
    → q ≡ req ∷ left
pop-front [] req left e = cc
pop-front (x ∷ q) req left e = cc

step_order :
    {p q : Pool} {l : Label}
    → Step p l q
    → (came went : List OfsRequest) (end : List OfsRequest) → went ++ end ≡ q.queue ++ came
    → departures l went ++ end ≡ p.queue ++ arrivals l came
step_order (arrive p req a) came went end e = e ∙ rw append_assoc refl
step_order (accept_end p s) came went end e = e
step_order (enter p i s w) came went end e = e
step_order (leave p i s w) came went end e = e
step_order (take p i req q w h) came went end e =
    rw (pop-front p.queue req q h) (ap (λ t. req ∷ t) e)
step_order (finish p i req w) came went end e = e
step_order (halt p) came went end e = e

-- In every sequence of steps of the accepting thread, the workers and `stop`: the requests taken
-- by the workers followed by those still queued are the requests queued at the start followed by
-- those that arrived, in order.
pub Run-order :
    {p q : Pool} {came went : List OfsRequest}
    → Run p came went q
    → went ++ q.queue ≡ p.queue ++ came
Run-order (rest p) = rw append-nil refl
Run-order {q = end} (then_run {came = came} {went = went} l s r) =
    step_order s came went end.queue (Run-order r)
