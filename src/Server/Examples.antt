-- ===== src/Server/Examples.antt =====
-- src/server.rs: the theorem on path patterns at a concrete path.
use vcmp_rs.Base.{ok}
use vcmp_rs.Server.Listener.{wake, admitted_to}
use vcmp_rs.Resources.{charge}
use vcmp_rs.Server.Stopping.{past_deadline, Spares}
use vcmp_rs.Server.Stop.{closing, stopped, stop_from, resume_stop, stop-Ends}
use vcmp_rs.Server.Extraction.{
  Web, Parts, http_11, Extracts, from_request_parts, from_request_parts-Extracts,
}
use vcmp_rs.Base.{
  ◌↔◌, ℕ, ◌≡◌, refl, List, [], ◌∷◌, some, true, none, false, codes, Text, ◌⊎◌, ◌≢◌, arith,
}
use vcmp_rs.Base.Ids.{is_among, without}
use vcmp_rs.Resources.{new_budget, default_limits, reserve, admitted}
use vcmp_rs.Server.Endpoint.{
  Endpoint, new_endpoint, Move, accepts, upgrades, attends, upgraded, run, move, accept, on_upgrade,
  attend_at, attend, upgrade, serve, start_session, end_upgrade, begin_upgrade, pend, admit,
}
use vcmp_rs.Server.Closing.{
  Closing, waits, awaits, Act, resumes, acts, act, resume_close, collect_sessions, pairs, Cleared,
  close_sessions-Cleared,
}
use vcmp_rs.Server.Moves.{Registered, run-Registered}
use vcmp_rs.Server.Awaiting.{Collected, close_sessions-Collected}
use vcmp_rs.Server.{finished_except}
use vcmp_rs.Server.Listener.{
  Listener, bind, wakes, stop_listening, incoming, stop_changed, joined, Wake,
  stop_listening-Drains,
}
use vcmp_rs.Server.Routing.{route, route-First, MatchesAt, NoneBefore, Misses}
use vcmp_rs.Server.{parse_pattern, PathPattern, literal, param, matches}
use vcmp_rs.Server.Segments.{Segments}
use vcmp_rs.Server.Paths.{Matches, matches_iff}

abbrev drivers : PathPattern
drivers = record {
  source = codes "/drivers/{driver}";
  segments = literal (codes "drivers") ∷ param (codes "driver") ∷ [];
}

matches_iff_example :
    (matches drivers (codes "/drivers/kerong") ≡ some ((codes "driver", codes "kerong") ∷ [])) ↔ (
      (segments : List Text) × Segments (codes "/drivers/kerong") segments
      × Matches drivers.segments segments [] ((codes "driver", codes "kerong") ∷ []))
matches_iff_example =
    matches_iff drivers (codes "/drivers/kerong") ((codes "driver", codes "kerong") ∷ [])

abbrev fresh_drivers : Endpoint
fresh_drivers = new_endpoint (parse_pattern (codes "/drivers/{driver}")) (new_budget default_limits)

-- A connection is accepted and another upgraded.
abbrev opened : List Move
opened = accepts ∷ upgrades ∷ attends 0 upgraded ∷ []

run-Registered_example : Registered (
    run opened
      (new_endpoint (parse_pattern (codes "/drivers/{driver}")) (new_budget default_limits)))
run-Registered_example =
    run-Registered opened (parse_pattern (codes "/drivers/{driver}")) (new_budget default_limits)

-- Two such endpoints, and a call that waits for neither of them.
abbrev both_opened : ℕ → Endpoint
both_opened k =
    run opened
      (new_endpoint (parse_pattern (codes "/drivers/{driver}")) (new_budget default_limits))

abbrev three_steps : List Act
three_steps = resumes (λ k s. true) ∷ resumes (λ k s. true) ∷ resumes (λ k s. true) ∷ []

past_waits : (acts three_steps (waits 2 0, both_opened)).0 ≡ awaits (collect_sessions 2 both_opened)
unfolding acts act resume_close run move accept on_upgrade attend_at attend upgrade serve
    start_session end_upgrade begin_upgrade pend admit new_endpoint reserve admitted new_budget
    without
past_waits = refl

close_sessions-Cleared_example : Cleared 1 three_steps (waits 2 0, both_opened)
close_sessions-Cleared_example =
    close_sessions-Cleared 2 1 both_opened three_steps (collect_sessions 2 both_opened)
      (λ j.
        run-Registered opened (parse_pattern (codes "/drivers/{driver}"))
          (new_budget default_limits))
      (omega arith) past_waits

-- Four more steps, one for each session of the two.
abbrev seven_steps : List Act
seven_steps =
    resumes (λ k s. true)
    ∷ resumes (λ k s. true)
    ∷ resumes (λ k s. true)
    ∷ resumes (λ k s. true)
    ∷ three_steps

returned : (acts seven_steps (waits 2 0, both_opened)).0 ≡ awaits []
unfolding acts act resume_close run move accept on_upgrade attend_at attend upgrade serve
    start_session end_upgrade begin_upgrade pend admit new_endpoint reserve admitted new_budget
    without collect_sessions pairs
returned = refl

close_sessions-Collected_example : Collected 2 seven_steps (waits 2 0, both_opened)
close_sessions-Collected_example = close_sessions-Collected 2 both_opened seven_steps returned

two_sessions : (run opened fresh_drivers).inner.sessions ≡ 1 ∷ 0 ∷ []
unfolding run move accept on_upgrade attend_at attend upgrade serve start_session end_upgrade
    begin_upgrade new_endpoint reserve admitted new_budget without
two_sessions = refl

route-First_example :
    ((route (fresh_drivers ∷ fresh_drivers ∷ []) (codes "/drivers/kerong") ≡ none)
      × Misses (fresh_drivers ∷ fresh_drivers ∷ []) (codes "/drivers/kerong"))
    ⊎ ((i : ℕ) × (params : List (Text × Text)) × (route
            (fresh_drivers ∷ fresh_drivers ∷ [])
            (codes "/drivers/kerong")
          ≡ some (i, params))
        × MatchesAt i (fresh_drivers ∷ fresh_drivers ∷ []) (codes "/drivers/kerong") params
        × NoneBefore i (fresh_drivers ∷ fresh_drivers ∷ []) (codes "/drivers/kerong"))
route-First_example = route-First (fresh_drivers ∷ fresh_drivers ∷ []) (codes "/drivers/kerong")

-- Two connections, then the stop, then one of them ends and a third one comes.
abbrev two_accepted : Listener
two_accepted = wakes (incoming ∷ incoming ∷ []) (bind (new_budget default_limits))

abbrev ending : List Wake
ending = stop_changed ∷ joined 0 ∷ incoming ∷ []

stop_listening-Drains_example :
    ((id : ℕ)
      → is_among id (wakes ending (stop_listening two_accepted)).connections.tasks ≡ true
      → is_among id two_accepted.connections.tasks ≡ true)
    × ((finished_except 1 (wakes ending (stop_listening two_accepted)).connections ≡ true) ↔ (
        ((wakes ending (stop_listening two_accepted)).connections.accepting ≡ false)
        × ((id : ℕ)
            → is_among id (wakes ending (stop_listening two_accepted)).connections.tasks ≡ true
            → id ≡ 1)))
stop_listening-Drains_example = stop_listening-Drains two_accepted ending 1

one_left :
    (id : ℕ)
    → is_among id
        (past_deadline (some 0) (
          wakes [] (
            stop_listening
              (wakes (incoming ∷ incoming ∷ []) (bind (new_budget default_limits)))))).0
      ≡ true
    → is_among id (1 ∷ []) ≡ true
unfolding past_deadline wakes wake stop_listening bind admitted_to reserve admitted new_budget
    charge without is_among
one_left id h = h

-- A hook of the first connection stops the server, and the second is aborted past the deadline.
stop-Ends_example :
    ((stop_from
        (some 0)
        (λ k s. true)
        (stop_changed ∷ joined 1 ∷ [])
        (
          both_opened,
          wakes [] (
              stop_listening (wakes (incoming ∷ incoming ∷ []) (bind (new_budget default_limits)))),
        )).0
      ≡ stopped)
    × Spares
        (some 0)
        (past_deadline (some 0) (
          wakes [] (
            stop_listening
              (wakes (incoming ∷ incoming ∷ []) (bind (new_budget default_limits)))))).0
    × ((c : Closing)
        → c ≢ awaits []
        → (resume_stop
            (some 0)
            (λ k s. true)
            true
            (
              closing c,
              (
                both_opened,
                wakes [] (
                    stop_listening
                      (wakes (incoming ∷ incoming ∷ []) (bind (new_budget default_limits)))),
              ),
            )).0
          ≡ closing (resume_close (λ k s. true) c both_opened).0)
stop-Ends_example =
    stop-Ends (new_budget default_limits) (incoming ∷ incoming ∷ []) [] (some 0) (1 ∷ [])
      both_opened (λ k s. true) one_left

-- A request over a web whose values are numbers and texts.
abbrev some_web : Web ℕ ℕ ℕ
some_web = record {
  into_response = λ status text. status;
  create_response = λ request. ok 101;
  with_empty_body = λ s. s;
  path_params = λ parts. ok ((codes "driver", codes "kerong") ∷ []);
  path_of = λ uri. uri;
  header_text = λ h. h;
}

abbrev some_parts : Parts ℕ
some_parts = record {
  method = codes "GET";
  version = http_11;
  uri = codes "/drivers/kerong";
  headers = [];
  original_uri = none;
  peer_addr = none;
  on_upgrade = some 7;
}

from_request_parts-Extracts_example :
    Extracts some_web some_parts (from_request_parts some_web some_parts)
from_request_parts-Extracts_example = from_request_parts-Extracts some_web some_parts
