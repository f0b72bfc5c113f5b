-- ===== src/Client/Transitions.antt =====
-- src/client.rs: the abstract client, and the turns of the connection task as its transitions.
use vcmp_rs.Base.{
  pick, ℕ, ◌≡◌, sym, ap, ap₂, subst, Option, none, some, Bool, true, false, both-ways,
}
use vcmp_rs.Client.{
  Phase, connecting, hooking, serving, closing, parting, sleeping, Task, ClientInner, VcmpClient,
  session,
}
use vcmp_rs.Client.Running.{
  is_told, at, rest, part, depart, Event, established, session_closed, turn, Move, starts, stops,
  waits, turns,
}
use vcmp_rs.Client.Reactions.{Cases, turn-cases, depart-cases, greet-cases, establish-cases}
use vcmp_rs.Client.Invariant.{session_at, core, Serves, told_false}

pub data View : Type 0 where
  off seeking : View
  online : ℕ → View

abbrev pub showing : Option ℕ → View
showing none = seeking
showing (some id) = online id

abbrev pub view_of : Bool → Option ℕ → View
view_of false session = off
view_of true session = showing session

abbrev pub view : VcmpClient → View
view c = view_of c.inner.running c.inner.session

-- A move of the callers that changes whether the client runs.
abbrev pub Switches : Move → Type 0
Switches starts = Unit
Switches stops = Unit
Switches waits = Unit
Switches _ = ⊥

-- What each move may do to the view.
pub data Transition : Move → View → View → Type 0 where
  stays : {m : Move} {v : View} → (Switches m → ⊥) → Transition m v v
  begins : {v : View} → Transition starts v seeking
  halts : {v : View} → Transition stops v off
  halts_waiting : {v : View} → Transition waits v off
  opens : {id : ℕ} → Transition (turns established) seeking (online id)
  loses : {id : ℕ} → Transition (turns session_closed) (online id) seeking

pub core-view : (c d : VcmpClient) → core d.inner ≡ core c.inner → view d ≡ view c
core-view c d e = ap₂ view_of (ap (λ k. k.0) e) (ap (λ k. k.3) e)

lost_at : {e : Event} (id : ℕ) → e ≡ session_closed → Transition (turns e) (online id) seeking
lost_at id z = subst (λ e. Transition (turns e) (online id) seeking) (sym z) loses

-- A turn of the task of a running client, by what the phases before and after show.
pub turn-Transition :
    (e : Event) (c : ClientInner) (t : Task)
    → Serves c t
    → Transition
        (turns e)
        (showing (session_at t.phase))
        (showing (session_at (turn e c t).1.phase))
unfolding at part
turn-Transition e c t h = turn-cases cases
  where
    Next : ClientInner × Task → Type 0
    Next r = Transition (turns e) (showing (session_at t.phase)) (showing (session_at r.1.phase))

    still : {v : View} → Transition (turns e) v v
    still = stays (λ x. x)

    from :
        {v : View} (phase : Phase)
        → t.phase ≡ phase
        → Transition (turns e) (showing (session_at phase)) v
        → Transition (turns e) (showing (session_at t.phase)) v
    from {v} phase q s = subst (λ k. Transition (turns e) (showing (session_at k)) v) (sym q) s

    rests :
        {v : View}
        → Transition (turns e) v seeking
        → Transition (turns e) v (showing (session_at (rest t).phase))
    rests {v} s =
        pick {A = Task} (λ u. Transition (turns e) v (showing (session_at u.phase)))
          (is_told t.told) (λ _. s) (λ _. s)

    departs :
        (id : ℕ)
        → Transition (turns e) (showing (session_at t.phase)) seeking
        → Next (depart id c t)
    departs id s = depart-cases Next id c t (λ b. rests s) (λ b p. s)

    joins :
        e ≡ established
        → t.phase ≡ connecting
        → Transition (turns e) (showing (session_at t.phase)) (online c.next)
    joins z q =
        from connecting q (subst (λ k. Transition (turns k) seeking (online c.next)) (sym z) opens)

    cases : Cases e c t Next
    cases = record {
      idle = still;
      establishes = λ z q.
          establish-cases Next c t (λ _. from connecting q still)
            (λ a ids. greet-cases Next _ _ _ (λ b. joins z q) (λ b. joins z q) (λ b p. joins z q));
      fails = λ q. rests (from connecting q still);
      quits = λ z k. absurd (told_false h k);
      hook_over = λ id p q. from (hooking id p) q still;
      hook_stopped = λ id p q k. absurd (told_false h k);
      lost = λ id z q. departs id (from (serving id) q (lost_at id z));
      stops_serving = λ id q k. absurd (told_false h k);
      closed = λ id z q. departs id (from (closing id) q (lost_at id z));
      parted = λ id p q. rests (from (parting id p) q still);
      woken = λ k q. from (sleeping k) q still;
      drops = λ k. absurd (both-ways k h.kept);
    }
