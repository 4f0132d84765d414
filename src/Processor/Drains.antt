-- ===== src/Processor/Drains.antt =====
-- The goroutines of a processor as a step relation: they run one after another, in an order that
-- nothing determines.
use fileprocessor.Base.{◌≡◌, ◌⊎◌, inl, inr, none, some, List, [], ◌∷◌, ◌++◌}
use fileprocessor.Processor.{Processor, Host}
use fileprocessor.Processor.Run.{Job, Result}
use fileprocessor.Processor.Jobs.{run_job}

-- The state and the goroutines that have been started and have not run.
pub record System (W : Type 0) : Type 0 where
  pub world : W
  pub pending : List Job

-- The goroutines that a call of `ProcessFile` leaves.
unfoldable pub add_job : {W E : Type 0} → List Job → Result W E → System W
add_job pending (inl err, w) = record { world = w; pending = pending }
add_job pending (inr (response, none), w) = record { world = w; pending = pending }
add_job pending (inr (response, some j), w) = record { world = w; pending = pending ++ j ∷ [] }

abbrev pub IsWaiting : Job → List Job → Type 0
IsWaiting j [] = ⊥
IsWaiting j (k ∷ jobs) = (k ≡ j) ⊎ IsWaiting j jobs

abbrev pub HasRun : {W : Type 0} → Job → List (Job × W) → Type 0
HasRun j [] = ⊥
HasRun j ((k, w) ∷ trace) = (k ≡ j) ⊎ HasRun j trace

module _ {W E V T : Type 0} (host : Host W E T) (p : Processor W E V) where
  -- One of the goroutines runs.
  pub data Step : System W → System W → Type 0 where
    run_one :
        (w : W) (front : List Job) (j : Job) (back : List Job)
        → Step
            (record { world = w; pending = front ++ j ∷ back })
            (record { world = run_job host p j w; pending = front ++ back })

  -- Whatever runs next, as long as anything is to run, none is left in the end.
  pub data Drains : System W → Type 0 where
    drained : (w : W) → Drains (record { world = w; pending = [] })
    drains :
        (s next : System W) → Step s next → ((s' : System W) → Step s s' → Drains s') → Drains s

  -- Some of the goroutines run, one after another: each with the state it ran in.
  pub data Run : System W → List (Job × W) → System W → Type 0 where
    ended : (s : System W) → Run s [] s
    goes_on :
        (w : W) (front : List Job) (j : Job) (back : List Job) (trace : List (Job × W))
        (last : System W)
        → Run (record { world = run_job host p j w; pending = front ++ back }) trace last
        → Run (record { world = w; pending = front ++ j ∷ back }) ((j, w) ∷ trace) last
