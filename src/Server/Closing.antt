-- ===== src/Server/Closing.antt =====
-- src/server.rs: `VcmpServer::close_sessions`, over the endpoints that the server has when it is
-- called. What it does between two awaits is one step, and the endpoints move in between.
use vcmp_rs.Base.{
  ℕ, ◌+◌, ◌≤◌, ◌<◌, ◌≡◌, refl, sym, ap, subst, ◌∙◌, inl, inr, List, [], ◌∷◌, ◌++◌, Bool, true,
  false, zero, suc, ◌==◌, ltb, if◌then◌else◌, Bool-cases, ==_iff, arith, pick,
}
use vcmp_rs.Base.Ids.{is_among}
use vcmp_rs.Server.Endpoint.{EndpointInner, Endpoint, Move, closes, move}
use vcmp_rs.Server.Effects.{all_waits}
use vcmp_rs.Server.Moves.{Registered, move-Registered, none_open}
use vcmp_rs.Server.Keeping.{Keeps, Keeps-refl, Keeps-trans, move-Keeps}

-- The endpoints of a server by their place in its list.
abbrev pub Endpoints : Type 0
Endpoints = ℕ → Endpoint

-- Where `close_sessions` awaits: the upgrades of an endpoint, of so many endpoints, or the
-- `closed()` of the first of the sessions that are left, by endpoint and number.
pub data Closing : Type 0 where
  waits : ℕ → ℕ → Closing
  awaits : List (ℕ × ℕ) → Closing

unfoldable pub pairs : ℕ → List ℕ → List (ℕ × ℕ)
pairs k [] = []
pairs k (s ∷ rest) = (k, s) ∷ pairs k rest

-- `endpoints.iter().flat_map(Endpoint::sessions)`.
unfoldable pub collect_sessions : ℕ → Endpoints → List (ℕ × ℕ)
unfolding pairs
collect_sessions zero v = []
collect_sessions (suc n) v = collect_sessions n v ++ pairs n (v n).inner.sessions

-- The closing of all of them.
unfoldable pub close_collected : ℕ → Endpoints → Endpoints
unfolding move
close_collected n v k = if ltb k n then move closes (v k) else v k

-- One step of `close_sessions`, with what each session's `closed()` has come to.
unfoldable pub resume_close : (ℕ → ℕ → Bool) → Closing → Endpoints → Closing × Endpoints
unfolding collect_sessions close_collected
resume_close finished (waits n k) v =
    if ltb k n
    then (if (v k).inner.pending_upgrades == 0 then (waits n (k + 1), v) else (waits n k, v))
    else (awaits (collect_sessions n v), close_collected n v)
resume_close finished (awaits []) v = (awaits [], v)
resume_close finished (awaits ((k, s) ∷ rest)) v =
    if finished k s then (awaits rest, v) else (awaits ((k, s) ∷ rest), v)

-- A step of `close_sessions`, or a move of an endpoint.
pub data Act : Type 0 where
  resumes : (ℕ → ℕ → Bool) → Act
  moves : ℕ → Move → Act

unfoldable pub move_at : ℕ → Move → Endpoints → Endpoints
unfolding move
move_at k m v j = if j == k then move m (v j) else v j

unfoldable pub act : Act → Closing × Endpoints → Closing × Endpoints
unfolding resume_close move_at
act (resumes finished) (c, v) = resume_close finished c v
act (moves k m) (c, v) = (c, move_at k m v)

unfoldable pub acts : List Act → Closing × Endpoints → Closing × Endpoints
unfolding act
acts [] x = x
acts (a ∷ rest) x = acts rest (act a x)

AllRegistered : Endpoints → Type 0
AllRegistered v = (k : ℕ) → Registered (v k)

pending_at :
    (v : Endpoints)
    → AllRegistered v
    → (j : ℕ) → (v j).inner.pending_upgrades ≡ all_waits (v j).tasks
unfolding AllRegistered
pending_at v h j = (h j).pending

move_at-Registered :
    (k : ℕ) (m : Move) (v : Endpoints) → AllRegistered v → AllRegistered (move_at k m v)
unfolding move_at AllRegistered
move_at-Registered k m v h j =
    pick Registered (j == k) (λ _. move-Registered m (v j) (h j)) (λ _. h j)

close_collected-Registered :
    (n : ℕ) (v : Endpoints) → AllRegistered v → AllRegistered (close_collected n v)
unfolding close_collected AllRegistered
close_collected-Registered n v h j =
    pick Registered (ltb j n) (λ _. move-Registered closes (v j) (h j)) (λ _. h j)

-- Closed sessions stay closed at every endpoint.
AllKeep : Endpoints → Endpoints → Type 0
AllKeep v after = (k : ℕ) → Keeps (v k).inner (after k).inner

move_at-Keep : (k : ℕ) (m : Move) (v : Endpoints) → AllKeep v (move_at k m v)
unfolding move_at AllKeep
move_at-Keep k m v j =
    pick (λ (c : Endpoint). Keeps (v j).inner c.inner) (j == k) (λ _. move-Keeps m (v j))
      (λ _. Keeps-refl (v j).inner)

close_collected-Keep : (n : ℕ) (v : Endpoints) → AllKeep v (close_collected n v)
unfolding close_collected AllKeep
close_collected-Keep n v j =
    pick (λ (c : Endpoint). Keeps (v j).inner c.inner) (ltb j n) (λ _. move-Keeps closes (v j))
      (λ _. Keeps-refl (v j).inner)

same-Keep : (v : Endpoints) → AllKeep v v
unfolding AllKeep
same-Keep v k = Keeps-refl (v k).inner

resume_close-Keep :
    (finished : ℕ → ℕ → Bool) (c : Closing) (v : Endpoints)
    → AllKeep v (resume_close finished c v).1
unfolding resume_close
resume_close-Keep finished (waits n k) v =
    pick (λ (q : Closing × Endpoints). AllKeep v q.1) (ltb k n)
      (λ _.
        pick (λ (q : Closing × Endpoints). AllKeep v q.1) ((v k).inner.pending_upgrades == 0)
          (λ _. same-Keep v) (λ _. same-Keep v))
      (λ _. close_collected-Keep n v)
resume_close-Keep finished (awaits []) v = same-Keep v
resume_close-Keep finished (awaits ((k, s) ∷ rest)) v =
    pick (λ (q : Closing × Endpoints). AllKeep v q.1) (finished k s) (λ _. same-Keep v)
      (λ _. same-Keep v)

acts-Keep : (run : List Act) (c : Closing) (v : Endpoints) → AllKeep v (acts run (c, v)).1
unfolding acts act AllKeep
acts-Keep [] c v k = Keeps-refl (v k).inner
acts-Keep (resumes finished ∷ run) c v k =
    let (c', v') = resume_close finished c v in
    Keeps-trans (v k).inner (v' k).inner _ (resume_close-Keep finished c v k)
      (acts-Keep run c' v' k)
acts-Keep (moves j m ∷ run) c v k =
    Keeps-trans (v k).inner (move_at j m v k).inner _ (move_at-Keep j m v k)
      (acts-Keep run c (move_at j m v) k)

-- No session that an endpoint had started so far is open at it in the end.
abbrev pub NoneLeft : EndpointInner → EndpointInner → Type 0
NoneLeft e after = (s : ℕ) → s < e.next → is_among s after.open_ ≡ false

later-NoneLeft : (a b c : EndpointInner) → Keeps a b → NoneLeft b c → NoneLeft a c
later-NoneLeft a b c h n s l = n s (omega (arith, h.later))

pub waits-ne-awaits : (n k : ℕ) (ids : List (ℕ × ℕ)) → waits n k ≡ awaits ids → ⊥
waits-ne-awaits n k ids h = cc

-- The closing, and what comes after it.
collected-NoneLeft :
    (n k : ℕ) (v : Endpoints) (run : List Act) (ids : List (ℕ × ℕ))
    → AllRegistered v
    → k < n
    → NoneLeft (v k).inner ((acts run (awaits ids, close_collected n v)).1 k).inner
unfolding AllRegistered AllKeep
collected-NoneLeft n k v run ids h l s b =
    (acts-Keep run (awaits ids) (close_collected n v) k).still s
      (omega (arith, (close_collected-Keep n v k).later)) closed
  where
    closed : is_among s (close_collected n v k).inner.open_ ≡ false
    closed =
        let within : ltb k n ≡ true = ground arith in
        unfold close_collected in rw within (none_open (v k) (h k) s)

-- The three outcomes of a step while upgrades are awaited.
pub passes :
    (finished : ℕ → ℕ → Bool) (n j : ℕ) (v : Endpoints)
    → ltb j n ≡ true
    → ((v j).inner.pending_upgrades == 0) ≡ true
    → resume_close finished (waits n j) v ≡ (waits n (j + 1), v)
unfolding resume_close
passes finished n j v a b = rw (a, b)

pub still_waits :
    (finished : ℕ → ℕ → Bool) (n j : ℕ) (v : Endpoints)
    → ltb j n ≡ true
    → ((v j).inner.pending_upgrades == 0) ≡ false
    → resume_close finished (waits n j) v ≡ (waits n j, v)
unfolding resume_close
still_waits finished n j v a b = rw (a, b)

pub collects :
    (finished : ℕ → ℕ → Bool) (n j : ℕ) (v : Endpoints)
    → ltb j n ≡ false
    → resume_close finished (waits n j) v ≡ (awaits (collect_sessions n v), close_collected n v)
unfolding resume_close
collects finished n j v a = rw a

ends-NoneLeft :
    (n j k : ℕ) (v : Endpoints) (run : List Act) (ids : List (ℕ × ℕ))
    → AllRegistered v
    → k < n
    → (acts run (waits n j, v)).0 ≡ awaits ids
    → NoneLeft (v k).inner ((acts run (waits n j, v)).1 k).inner
unfolding acts act
ends-NoneLeft n j k v [] ids h l e = absurd (waits-ne-awaits n j ids e)
ends-NoneLeft n j k v (moves i m ∷ run) ids h l e =
    later-NoneLeft (v k).inner (move_at i m v k).inner
      ((acts run (waits n j, move_at i m v)).1 k).inner (unfold AllKeep in move_at-Keep i m v k)
      (ends-NoneLeft n j k (move_at i m v) run ids (move_at-Registered i m v h) l e)
ends-NoneLeft n j k v (resumes finished ∷ run) ids h l e = elim (Bool-cases (ltb j n)) [
  | inr a ↦
      subst Goal (sym (collects finished n j v a))
        (λ _. collected-NoneLeft n k v run (collect_sessions n v) h l) e
  | inl a ↦ elim (Bool-cases ((v j).inner.pending_upgrades == 0)) [
    | inl b ↦
        subst Goal (sym (passes finished n j v a b)) (ends-NoneLeft n (j + 1) k v run ids h l) e
    | inr b ↦
        subst Goal (sym (still_waits finished n j v a b)) (ends-NoneLeft n j k v run ids h l) e
  ]
]
  where
    Goal : Closing × Endpoints → Type 0
    Goal x = (acts run x).0 ≡ awaits ids → NoneLeft (v k).inner ((acts run x).1 k).inner

-- At some moment of the call, the endpoint has no upgrade under way, and none of the sessions that
-- it has started until then is open in the end.
abbrev pub Cleared : ℕ → List Act → Closing × Endpoints → Type 0
Cleared k run x =
    (before : List Act) × (after : List Act) × (run ≡ before ++ after)
    × (all_waits ((acts before x).1 k).tasks ≡ 0)
    × NoneLeft ((acts before x).1 k).inner ((acts run x).1 k).inner

Cleared-step :
    (k : ℕ) (a : Act) (run : List Act) (x : Closing × Endpoints)
    → Cleared k run (act a x)
    → Cleared k (a ∷ run) x
unfolding acts
Cleared-step k a run x (before, after, e, w, n) = (a ∷ before, after, ap (λ l. a ∷ l) e, w, n)

-- The wait for this endpoint is still to come.
waits-Cleared :
    (n j k : ℕ) (v : Endpoints) (run : List Act) (ids : List (ℕ × ℕ))
    → AllRegistered v
    → j ≤ k
    → k < n
    → (acts run (waits n j, v)).0 ≡ awaits ids
    → Cleared k run (waits n j, v)
unfolding acts act
waits-Cleared n j k v [] ids h i l e = absurd (waits-ne-awaits n j ids e)
waits-Cleared n j k v (moves p m ∷ run) ids h i l e =
    Cleared-step k (moves p m) run (waits n j, v)
      (waits-Cleared n j k (move_at p m v) run ids (move_at-Registered p m v h) i l e)
waits-Cleared n j k v (resumes finished ∷ run) ids h i l e =
    elim (Bool-cases ((v j).inner.pending_upgrades == 0)) [
      | inr b ↦
          Cleared-step k (resumes finished) run (waits n j, v)
            (subst Goal (sym (still_waits finished n j v within b))
              (waits-Cleared n j k v run ids h i l) e)
      | inl b ↦ elim (Bool-cases (j == k)) [
        | inr c ↦
            Cleared-step k (resumes finished) run (waits n j, v)
              (subst Goal (sym (passes finished n j v within b))
                (waits-Cleared n (j + 1) k v run ids h (ground (arith, c)) l) e)
        | inl c ↦ now ((==_iff j k).0 c) ((==_iff _ 0).0 b)
      ]
    ]
  where
    within : ltb j n ≡ true
    within = ground arith

    Goal : Closing × Endpoints → Type 0
    Goal x = (acts run x).0 ≡ awaits ids → Cleared k run x

    now :
        j ≡ k → (v j).inner.pending_upgrades ≡ 0 → Cleared k (resumes finished ∷ run) (waits n j, v)
    now c b = (
      [],
      resumes finished ∷ run,
      refl,
      subst (λ i. all_waits (v i).tasks ≡ 0) c (sym (pending_at v h j) ∙ b),
      ends-NoneLeft n j k v (resumes finished ∷ run) ids h l e,
    )

-- However the endpoints move while `close_sessions` runs over the first n of them, once it is past
-- its waits for upgrades and has closed what it collected, there was for each of these endpoints a
-- moment of the call at which no upgrade was under way at it, and no session that it had started
-- until that moment is open.
pub close_sessions-Cleared :
    (n k : ℕ) (v : Endpoints) (run : List Act) (ids : List (ℕ × ℕ))
    → ((j : ℕ) → Registered (v j))
    → k < n
    → (acts run (waits n 0, v)).0 ≡ awaits ids
    → Cleared k run (waits n 0, v)
unfolding AllRegistered
close_sessions-Cleared n k v run ids h l e = waits-Cleared n 0 k v run ids h (omega arith) l e
