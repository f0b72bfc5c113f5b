-- ===== src/Session/Timers.antt =====
-- src/session.rs: the timers of the heartbeat and the slots that hold their handles.
use vcmp_rs.Base.{
  ℕ, ◌+◌, ◌<◌, ◌≡◌, refl, sym, ap, ◌∙◌, subst, List, [], ◌∷◌, Option, none, some, Bool, true, false,
  ◌&&◌, ◌||◌, ◌==◌, ◌⊎◌, inl, inr, arith, both-ways,
}
use vcmp_rs.Session.{
  Session, HeartbeatState, Timer, TimerKind, watchdog, echo, spawn_timer, without_timer, abort_slot,
  incremented,
}
use vcmp_rs.Session.Heartbeats.{
  set_awaiting, arm_watchdog, arm_echo, disarm_watchdog, accept_heartbeat,
}

unfoldable pub is_kind : Bool → TimerKind → Bool
is_kind true watchdog = true
is_kind false (echo interval) = true
is_kind _ _ = false

-- The timer of a slot is still running, as a watchdog or as an echo.
unfoldable pub runs : Bool → Option ℕ → List Timer → Bool
unfolding is_kind
runs w none ts = false
runs w (some h) [] = false
runs w (some h) (t ∷ ts) = (t.handle == h && is_kind w t.kind) || runs w (some h) ts

-- The heartbeat has not begun, or the session expects a heartbeat and its watchdog is running, or
-- it does not expect one and the echo that sends the next one is running.
abbrev pub Rhythm : HeartbeatState → List Timer → Type 0
Rhythm h ts =
    ((h.awaiting ≡ true) × (h.watchdog_slot ≡ none) × (h.echo_slot ≡ none))
    ⊎ ((h.awaiting ≡ true) × (runs true h.watchdog_slot ts ≡ true))
    ⊎ ((h.awaiting ≡ false) × (runs false h.echo_slot ts ≡ true))

abbrev pub Below : Option ℕ → ℕ → Type 0
Below none n = Unit
Below (some h) n = h < n

abbrev pub Apart : Option ℕ → Option ℕ → Type 0
Apart (some h) (some k) = (h == k) ≡ false
Apart _ _ = Unit

-- The slots hold handles that were given out, and not the same one.
abbrev pub Slots : HeartbeatState → ℕ → Type 0
Slots h n = Below h.watchdog_slot n × Below h.echo_slot n × Apart h.watchdog_slot h.echo_slot

still_runs :
    (w : Bool) (g h : ℕ) (ts : List Timer)
    → (g == h) ≡ false
    → runs w (some h) ts ≡ true
    → runs w (some h) (without_timer g ts) ≡ true
unfolding runs
still_runs w g h [] n r = r
still_runs w g h (t ∷ ts) n r = let ih = still_runs w g h ts n in ground arith

Below-suc : (o : Option ℕ) (n : ℕ) → Below o n → Below o (n + 1)
Below-suc none n b = tt
Below-suc (some h) n b = omega arith

Apart-new : (o : Option ℕ) (n : ℕ) → Below o n → Apart (some n) o
Apart-new none n b = tt
Apart-new (some h) n b = ground arith

Apart-sym : (o p : Option ℕ) → Apart o p → Apart p o
Apart-sym none none a = tt
Apart-sym none (some k) a = tt
Apart-sym (some h) none a = tt
Apart-sym (some h) (some k) a = ground arith

abbrev after_abort : Option ℕ → List Timer → List Timer
after_abort none ts = ts
after_abort (some g) ts = without_timer g ts

runs-after_abort :
    (w : Bool) (o p : Option ℕ) (ts : List Timer)
    → Apart o p
    → runs w p ts ≡ true
    → runs w p (after_abort o ts) ≡ true
runs-after_abort w none p ts a r = r
runs-after_abort w (some g) none ts a r = absurd (unfold runs in both-ways r refl)
runs-after_abort w (some g) (some h) ts a r = still_runs w g h ts a r

new_runs :
    (w : Bool) (n sleep : ℕ) (k : TimerKind) (ts : List Timer) (o : Option ℕ)
    → is_kind w k ≡ true
    → Below o n
    → runs w (some n) (after_abort o (record { handle = n; sleep = sleep; kind = k } ∷ ts)) ≡ true
unfolding runs
new_runs w n sleep k ts o e b =
    runs-after_abort w o (some n) (record { handle = n; sleep = sleep; kind = k } ∷ ts)
      (Apart-sym (some n) o (Apart-new o n b)) (ground arith)

old_runs :
    (w : Bool) (n sleep : ℕ) (k : TimerKind) (ts : List Timer) (o p : Option ℕ)
    → Apart o p
    → runs w p ts ≡ true
    → runs w p (after_abort o (record { handle = n; sleep = sleep; kind = k } ∷ ts)) ≡ true
unfolding runs
old_runs w n sleep k ts o none a r = absurd (both-ways r refl)
old_runs w n sleep k ts o (some h) a r =
    runs-after_abort w o (some h) (record { handle = n; sleep = sleep; kind = k } ∷ ts) a
      (ground arith)

-- What is to hold of the heartbeat's state, the timers and the next handle.
abbrev pub Predicate : Type 1
Predicate = HeartbeatState → List Timer → ℕ → Type 0

abbrev pub Placed : Predicate
Placed h ts n = Slots h n

abbrev pub Beating : Predicate
Beating h ts n = Slots h n × Rhythm h ts

module _ {V H : Type 0} where
  abbrev pub Has : Predicate → Session V H → Type 0
  Has Q s = Q s.heartbeat s.timers s.next_timer

  -- While the session is open.
  abbrev pub Within : Predicate → Session V H → Type 0
  Within Q s = s.open_ ≡ true → Has Q s

  pub aborted :
      (o : Option ℕ) (s : Session V H)
      → abort_slot o s ≡ record s { timers = after_abort o s.timers }
  aborted none s = refl
  aborted (some h) s = refl

  pub arm_watchdog-Beating :
      (sleep : ℕ) (s : Session V H)
      → Has Placed s
      → (s.heartbeat.awaiting ≡ true)
        ⊎ ((s.heartbeat.awaiting ≡ false) × (runs false s.heartbeat.echo_slot s.timers ≡ true))
      → Has Beating (arm_watchdog sleep s)
  unfolding arm_watchdog is_kind
  arm_watchdog-Beating sleep s (b, c, a) x =
      let h : HeartbeatState = s.heartbeat in
      let n : ℕ = s.next_timer in
      let t : Session V H = record (spawn_timer sleep watchdog s) {
        heartbeat = record h { watchdog_slot = some n };
      } in
      subst (Has Beating) (sym (aborted h.watchdog_slot t)) (
        (ground arith, Below-suc h.echo_slot n c, Apart-new h.echo_slot n c),
        elim x [
          | inl e ↦ inr (inl (e, new_runs true n sleep watchdog s.timers h.watchdog_slot refl b))
          | inr (e, r) ↦
              inr
                (inr (e, old_runs false n sleep watchdog s.timers h.watchdog_slot h.echo_slot a r))
        ],
      )

  arm_echo-Beating :
      (interval : ℕ) (s : Session V H)
      → s.heartbeat.awaiting ≡ false
      → s.heartbeat.watchdog_slot ≡ none
      → Below s.heartbeat.echo_slot s.next_timer
      → Has Beating (arm_echo interval s)
  unfolding arm_echo is_kind
  arm_echo-Beating interval s e w b =
      let h : HeartbeatState = s.heartbeat in
      let n : ℕ = s.next_timer in
      let t : Session V H = record (spawn_timer interval (echo interval) s) {
        heartbeat = record h { echo_slot = some n };
      } in
      subst (Has Beating) (sym (aborted h.echo_slot t)) (
        (
          subst (λ o. Below o (n + 1)) (sym w) tt,
          ground arith,
          subst (λ o. Apart o (some n)) (sym w) tt,
        ),
        inr (inr (e, new_runs false n interval (echo interval) s.timers h.echo_slot refl b)),
      )

  pub accept_heartbeat-open_ :
      (interval : ℕ) (s : Session V H) → (accept_heartbeat interval s).open_ ≡ s.open_
  unfolding accept_heartbeat disarm_watchdog set_awaiting arm_echo
  accept_heartbeat-open_ interval s =
      ap (λ t. t.open_) (aborted _ _) ∙ ap (λ t. t.open_) (aborted s.heartbeat.watchdog_slot _)

  pub accept_heartbeat-Beating :
      (interval : ℕ) (s : Session V H)
      → Below s.heartbeat.echo_slot s.next_timer
      → Has Beating (accept_heartbeat interval s)
  unfolding accept_heartbeat disarm_watchdog set_awaiting
  accept_heartbeat-Beating interval s b =
      let s1 : Session V H = record (set_awaiting false s) {
        heartbeats_received = incremented s.heartbeats_received;
      } in
      let s2 : Session V H = record s1 {
        heartbeat = record (s1.heartbeat) { watchdog_slot = none };
      } in
      let same = aborted s.heartbeat.watchdog_slot s2 in
      arm_echo-Beating interval (disarm_watchdog s1) (ap (λ t. t.heartbeat.awaiting) same)
        (ap (λ t. t.heartbeat.watchdog_slot) same)
        (subst (λ t. Below t.heartbeat.echo_slot t.next_timer) (sym same) b)
