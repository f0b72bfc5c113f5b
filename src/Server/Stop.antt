-- ===== src/Server/Stop.antt =====
-- src/server.rs: `ServerHandle::stop`, from what it does up to `close_sessions` to its end. What it
-- does between two awaits is one step.
use vcmp_rs.Base.{ℕ, ◌≡◌, ◌≢◌, refl, ap, ◌∙◌, List, [], ◌∷◌, Option, Bool, true, false, map}
use vcmp_rs.Base.Ids.{is_among}
use vcmp_rs.Resources.{ResourceBudget}
use vcmp_rs.Server.Closing.{Closing, waits, awaits, Endpoints, resume_close}
use vcmp_rs.Server.Listener.{Listener, bind, Wake, stop_changed, joined, wakes, stop_listening}
use vcmp_rs.Server.Stopping.{wait_over, past_deadline, Spares, waits-End}

-- Where `stop` awaits: `close_sessions`, which has no deadline, the connections for as long as the
-- deadline lets it, or those that it has aborted.
pub data Stop : Type 0 where
  closing : Closing → Stop
  waiting aborting stopped : Stop

-- What `stop` works on: the endpoints of its server and the listener.
abbrev pub Running : Type 0
Running = Endpoints × Listener

-- The wait of `stop` with its deadline, with whether that is over and whether the deadline has
-- passed.
unfoldable pub after_wait : Bool → Bool → Option ℕ → Running → Stop × Running
unfolding past_deadline
after_wait true expired caller x = (stopped, x)
after_wait false true caller (v, l) = (aborting, (v, (past_deadline caller l).1))
after_wait false false caller x = (waiting, x)

-- The wait for what was aborted.
unfoldable pub after_abort : Bool → Running → Stop × Running
after_abort true x = (stopped, x)
after_abort false x = (aborting, x)

-- One step of `stop`, which the task `caller` may call from a hook, with what each session's
-- `closed()` has come to and whether the deadline has passed.
unfoldable pub resume_stop : Option ℕ → (ℕ → ℕ → Bool) → Bool → Stop × Running → Stop × Running
unfolding resume_close wait_over after_wait after_abort
resume_stop caller finished expired (closing (awaits []), x) = (waiting, x)
resume_stop caller finished expired (closing c, (v, l)) =
    let (c', v') = resume_close finished c v in (closing c', (v', l))
resume_stop caller finished expired (waiting, (v, l)) =
    after_wait (wait_over caller l) expired caller (v, l)
resume_stop caller finished expired (aborting, (v, l)) = after_abort (wait_over caller l) (v, l)
resume_stop caller finished expired (stopped, x) = (stopped, x)

-- The accept task runs while `stop` waits.
unfoldable pub while_wakes : List Wake → Stop × Running → Stop × Running
unfolding wakes
while_wakes ws (c, (v, l)) = (c, (v, wakes ws l))

-- `stop` from the return of `close_sessions`: it waits, the deadline passes, and the accept task
-- takes its turns.
unfoldable pub stop_from : Option ℕ → (ℕ → ℕ → Bool) → List Wake → Running → Stop × Running
unfolding resume_stop while_wakes
stop_from caller finished ws x = resume_stop caller finished true (
    while_wakes ws (
      resume_stop caller finished true (resume_stop caller finished true (closing (awaits []), x))))

-- A call that has aborted is over with what it aborted; one that had nothing to wait for is over.
ends_by :
    (caller : Option ℕ) (finished : ℕ → ℕ → Bool) (ws : List Wake) (v : Endpoints) (l : Listener)
    → wait_over caller (wakes ws (past_deadline caller l).1) ≡ true
    → (b : Bool)
    → (resume_stop caller finished true (while_wakes ws (after_wait b true caller (v, l)))).0
      ≡ stopped
unfolding resume_stop while_wakes after_wait
ends_by caller finished ws v l h true = refl
ends_by caller finished ws v l h false =
    ap (λ b. (after_abort b (v, wakes ws (past_deadline caller l).1)).0) h ∙ over
  where
    over : (after_abort true (v, wakes ws (past_deadline caller l).1)).0 ≡ stopped
    over = unfold after_abort in refl

still_closing :
    (caller : Option ℕ) (finished : ℕ → ℕ → Bool) (v : Endpoints) (l : Listener) (c : Closing)
    → c ≢ awaits []
    → (resume_stop caller finished true (closing c, (v, l))).0
      ≡ closing (resume_close finished c v).0
unfolding resume_stop
still_closing caller finished v l (waits n k) h = refl
still_closing caller finished v l (awaits []) h = absurd (h refl)
still_closing caller finished v l (awaits (x ∷ rest)) h = refl

-- `ServerHandle::stop` ends if its `close_sessions` returns: from then on, however the accept task
-- ran before and after the call, it ends once the deadline has passed, the task has taken its turn
-- for the stop, and what was aborted is joined. A hook that calls it is not aborted by it. Until
-- `close_sessions` returns, no deadline ends it.
pub stop-Ends :
    (budget : ResourceBudget) (before after : List Wake) (caller : Option ℕ) (js : List ℕ)
    (v : Endpoints) (finished : ℕ → ℕ → Bool)
    → ((id : ℕ)
        → is_among id
            (past_deadline caller (wakes after (stop_listening (wakes before (bind budget))))).0
          ≡ true
        → is_among id js ≡ true)
    → ((stop_from caller finished
          (stop_changed ∷ map joined js)
          (v, wakes after (stop_listening (wakes before (bind budget))))).0
        ≡ stopped)
      × Spares caller
          (past_deadline caller (wakes after (stop_listening (wakes before (bind budget))))).0
      × ((c : Closing)
          → c ≢ awaits []
          → (resume_stop caller finished true
              (closing c, (v, wakes after (stop_listening (wakes before (bind budget)))))).0
            ≡ closing (resume_close finished c v).0)
unfolding stop_from
stop-Ends budget before after caller js v finished covered =
    let l : Listener = wakes after (stop_listening (wakes before (bind budget))) in
    let (over, spared) = waits-End budget before after caller js covered in
    (from_waiting l over, spared, λ c h. still_closing caller finished v l c h)
  where
    ws : List Wake
    ws = stop_changed ∷ map joined js

    from_waiting :
        (l : Listener)
        → wait_over caller (wakes ws (past_deadline caller l).1) ≡ true
        → (stop_from caller finished ws (v, l)).0 ≡ stopped
    from_waiting l over =
        unfold resume_stop in ends_by caller finished ws v l over (wait_over caller l)
