-- ===== src/Client/Examples.antt =====
-- src/client.rs: the theorems on the client at concrete runs.
use vcmp_rs.Base.{
  ℕ, zero, suc, ◌+◌, ◌*◌, ◌/◌, ◌≤◌, ◌<◌, ◌≡◌, refl, List, [], ◌∷◌, none, some, false, Result, ok,
  Text, codes, text_eq, min, max, ◌⊎◌, length, ◌++◌,
}
use vcmp_rs.Error.{VcmpError}
use vcmp_rs.Resources.{ResourceBudget, new_budget, default_limits}
use vcmp_rs.Ws.Transport.{BoundsAlike, websocket_config, spawn_session}
use vcmp_rs.Client.Backoff.{Floats, exponential, fixed, delay, base_delay, jittered}
use vcmp_rs.Client.Builder.{
  ClientBuilder, builder, Setting, bounds_message, adds_header, set_all, set, generates_headers,
  builder-BoundsAlike,
}
use vcmp_rs.Client.Connect.{
  connect, Settled, connect-Settled, put_headers, put_header, checked, prepare, generated,
  from_websocket,
}
use vcmp_rs.Client.{VcmpClient, notify, serving, ended, Task, build, start, stop, session}
use vcmp_rs.Client.Running.{
  Move, starts, turns, established, session_closed, run, move, turn, turn_old, is_told, Event,
}
use vcmp_rs.Client.Invariant.{core}
use vcmp_rs.Client.WellFormed.{WellFormed}
use vcmp_rs.Client.Moves.{run-WellFormed}
use vcmp_rs.Client.Lifecycle.{turn_old-core, told-Ends, weight, turn_all}
use vcmp_rs.Client.Transitions.{Transition, view}
use vcmp_rs.Client.View.{move-Transition, stop-Lasts}
use vcmp_rs.Client.Leaks.{Kept, run-Kept}
use vcmp_rs.Client.Requests.{get_list, without_name, plain_http, plain_http-HttpLaws}
use vcmp_rs.Client.Headers.{last_value, replaced_by, values_of, Gives, prepare-replaces}

-- Halves for floating-point numbers: `n` stands for `n / 2`. Durations are their own seconds.
power : ℕ → ℕ → ℕ
power a zero = 2
power a (suc n) = a * power a n / 2

abbrev halves : Floats ℕ
halves = record {
  of_nat = λ n. 2 * n;
  half = 1;
  millionths = λ r. 2 * r / 1000000;
  add = λ a b. a + b;
  mul = λ a b. a * b / 2;
  halve = λ a. a / 2;
  powi = power;
  max_of = λ a b. max a b;
  min_of = λ a b. min a b;
  as_secs = λ d. 2 * d;
  from_secs = λ a. some (a / 2);
  scale = λ d a. some (d * a / 2);
}

-- A fixed delay, and the third doubling with its jitter.
delay-fixed : delay halves (fixed halves 4) 5 2 ≡ some 4
unfolding delay base_delay jittered fixed power
delay-fixed = refl

delay-jittered : delay halves (exponential halves 4 60) 500000 3 ≡ some 16
unfolding delay base_delay jittered exponential power
delay-jittered = refl

abbrev run_and_stopped : List Move
run_and_stopped = starts ∷ turns established ∷ []

abbrev budget : ResourceBudget
budget = new_budget default_limits

abbrev connected_client : VcmpClient
connected_client = run run_and_stopped (build 60 budget)

connected_once : session connected_client ≡ some 0
unfolding session run move build start
connected_once = refl

connected_client-WellFormed : WellFormed connected_client
connected_client-WellFormed = run-WellFormed run_and_stopped 60 budget

run-WellFormed_example : WellFormed (run run_and_stopped (build 60 budget))
run-WellFormed_example = run-WellFormed run_and_stopped 60 budget

run-Kept_example : Kept (run run_and_stopped (build 60 budget))
run-Kept_example = run-Kept run_and_stopped 60 budget

move-Transition_example :
    Transition
      (turns session_closed)
      (view connected_client)
      (view (move (turns session_closed) connected_client))
move-Transition_example =
    move-Transition (turns session_closed) connected_client connected_client-WellFormed

stop-Lasts_example :
    ((run (turns established ∷ []) (stop connected_client)).inner.running ≡ false)
    × (session (run (turns established ∷ []) (stop connected_client)) ≡ none)
    × ((run (turns established ∷ []) (stop connected_client)).inner.connected ≡ false)
stop-Lasts_example =
    stop-Lasts (turns established ∷ []) connected_client connected_client-WellFormed (tt, tt)

-- A second start, after which the first task still has its session.
abbrev restarted : VcmpClient
restarted = run (starts ∷ turns established ∷ starts ∷ []) (build 60 budget)

turn_old-core_example :
    (core (turn_old 0 session_closed restarted).inner ≡ core restarted.inner)
    × ((turn_old 0 session_closed restarted).task ≡ restarted.task)
turn_old-core_example =
    turn_old-core 0 session_closed restarted
      (run-WellFormed (starts ∷ turns established ∷ starts ∷ []) 60 budget)

abbrev told_task : Task
told_task = record {
  generation = 1;
  told = notify;
  aborted = false;
  attempt = 0;
  phase = serving 0;
}

told-Ends_example :
    ((e : Event)
      → ((turn e (stop connected_client).inner told_task).1.phase ≡ serving 0)
        ⊎ (weight (turn e (stop connected_client).inner told_task).1.phase < 3))
    × (3 ≤ 6)
    × ((es : List Event) × (length es ≤ 3)
        × ((turn_all es ((stop connected_client).inner, told_task)).1.phase ≡ ended))
unfolding is_told
told-Ends_example = told-Ends (stop connected_client).inner told_task refl

abbrev plain_builder : ClientBuilder ℕ Text
plain_builder = builder halves (codes "ws://localhost:2000/drivers/kerong")

abbrev settings : List (Setting ℕ Text)
settings = bounds_message 4096 ∷ adds_header (codes "authorization") (codes "token") ∷ []

builder-BoundsAlike_example :
    BoundsAlike
      (websocket_config (set_all settings plain_builder).transport)
      (spawn_session {V = ℕ} {H = ℕ} 7 [] (set_all settings plain_builder).transport)
builder-BoundsAlike_example =
    builder-BoundsAlike ℕ halves (codes "ws://localhost:2000/drivers/kerong") settings 7 []

abbrev no_factory : Text → Result (List (Text × Text)) (VcmpError ℕ)
no_factory t = ok []

connect-Settled_example :
    Settled budget (connect {V = ℕ} {H = ℕ} plain_http no_factory 7 [] plain_builder budget)
connect-Settled_example = connect-Settled plain_http no_factory 7 [] plain_builder budget

-- A factory that gives a fresh token, over a builder that has an old one.
abbrev fresh_token : Text → Result (List (Text × Text)) (VcmpError ℕ)
fresh_token t = ok ((codes "authorization", codes "new") ∷ [])

abbrev token_builder : ClientBuilder ℕ Text
token_builder =
    set_all
      (adds_header (codes "authorization") (codes "old") ∷ generates_headers (codes "token") ∷ [])
      plain_builder

abbrev sent_headers : List (Text × Text)
sent_headers = (codes "authorization", codes "new") ∷ []

prepared : prepare plain_http fresh_token token_builder ≡ ok sent_headers
unfolding prepare from_websocket generated put_headers put_header checked without_name text_eq
    set_all set builder
prepared = refl

prepare-replaces_example :
    (q : List (Text × Text)) × (hs : List (Text × Text)) × (plain_http.into_request
        token_builder.url
      ≡ ok q)
    × Gives fresh_token token_builder.headers_per_attempt hs
    × (get_list (codes "authorization") sent_headers
        ≡ replaced_by (last_value plain_http (codes "authorization") hs) (
            get_list (codes "authorization") q
            ++ values_of plain_http (codes "authorization") token_builder.headers))
prepare-replaces_example =
    prepare-replaces plain_http plain_http-HttpLaws fresh_token token_builder sent_headers
      (codes "authorization") prepared
