-- ===== src/Server/Queue/Stop.antt =====
-- `stop` while a worker waits on an empty queue.
use omni_file_system.Prelude.{
  ℕ, ◌≡◌, refl, false, some, List, [], get_elem?, get_elem?-set_ne, ◌∙◌, ◌≢◌, set, ◌∷◌, zero, suc,
}
use omni_file_system.Prelude.Preds.{All}
use omni_file_system.Server.{OfsRequest}
use omni_file_system.Server.Queue.{
  Pool, Worker, Label, Step, arrive, accept_end, enter, leave, take, finish, halt, Run, rest,
  then_run, popping, testing, handling, ended,
}

-- Worker `i` waits for a request that nobody can push.
pub record IsStuck (i : ℕ) (p : Pool) : Type 0 where
  pub halted : p.running ≡ false
  pub unfed : p.accepting ≡ false
  pub drained : p.queue ≡ []
  pub waits : get_elem? p.workers i ≡ some popping

module _ (i : ℕ) where
  others :
      (ws : List Worker) (j : ℕ) (v w : Worker)
      → get_elem? ws i ≡ some popping
      → get_elem? ws j ≡ some w
      → ¬ (w ≡ popping)
      → get_elem? (set ws j v) i ≡ some popping
  others ws j v w h k ne =
      let apart : j ≢ i = λ e. let k' = (rw e at k) in ne cc in get_elem?-set_ne ws v apart ∙ h

  step-IsStuck : {p q : Pool} {l : Label} → Step p l q → IsStuck i p → IsStuck i q
  step-IsStuck (arrive p req a) s = absurd (let h = s.unfed in cc)
  step-IsStuck (accept_end p h) s = record {
    halted = s.halted;
    unfed = refl;
    drained = s.drained;
    waits = s.waits;
  }
  step-IsStuck (enter p j h w) s = absurd (let k = s.halted in cc)
  step-IsStuck (leave p j h w) s = record {
    halted = s.halted;
    unfed = s.unfed;
    drained = s.drained;
    waits = others p.workers j ended testing s.waits w (λ e. cc);
  }
  step-IsStuck (take p j req q w h) s = absurd (let k = (rw s.drained at h) in cc)
  step-IsStuck (finish p j req w) s = record {
    halted = s.halted;
    unfed = s.unfed;
    drained = s.drained;
    waits = others p.workers j testing (handling req) s.waits w (λ e. cc);
  }
  step-IsStuck (halt p) s = record {
    halted = refl;
    unfed = s.unfed;
    drained = s.drained;
    waits = s.waits;
  }

  pub Run-IsStuck :
      {p q : Pool} {came went : List OfsRequest} → Run p came went q → IsStuck i p → IsStuck i q
  Run-IsStuck (rest p) s = s
  Run-IsStuck (then_run l st r) s = Run-IsStuck r (step-IsStuck st s)

all_ended-none :
    (ws : List Worker) (i : ℕ) → All (λ w. w ≡ ended) ws → get_elem? ws i ≡ some popping → ⊥
all_ended-none [] i a e = cc
all_ended-none (w ∷ ws) zero a e = let h = a.0 in cc
all_ended-none (w ∷ ws) (suc i) a e = all_ended-none ws i a.1 e

-- When `running` is false, the accepting thread has ended, the queue is empty and a worker waits
-- in `pop`, then in no later state have all workers ended, whatever the threads do: `stop` waits
-- for ever.
pub stop_never_ends :
    (i : ℕ) (p q : Pool) (came went : List OfsRequest)
    → IsStuck i p
    → Run p came went q
    → ¬ (All (λ w. w ≡ ended) q.workers)
stop_never_ends i p q came went s r a =
    let t = Run-IsStuck i r s in all_ended-none q.workers i a t.waits
