-- ===== src/Server/Awaiting.antt =====
-- src/server.rs: the last loop of `VcmpServer::close_sessions`, which awaits the sessions.
use vcmp_rs.Base.{
  ℕ, ◌+◌, ◌≤◌, ◌<◌, ◌≡◌, refl, sym, ap, subst, ◌⊎◌, inl, inr, List, [], ◌∷◌, ◌++◌, Bool, true,
  false, zero, suc, ◌==◌, ltb, Bool-cases, both-ways, ==_iff, arith,
}
use vcmp_rs.Base.Ids.{is_among}
use vcmp_rs.Server.Closing.{
  Endpoints, Closing, waits, awaits, pairs, collect_sessions, close_collected, resume_close, Act,
  resumes, moves, move_at, act, acts, passes, still_waits, collects, waits-ne-awaits,
}

-- In some step of the run, the `closed()` of this session has resolved.
abbrev pub ClosedIn : ℕ → ℕ → List Act → Type 0
ClosedIn k s [] = ⊥
ClosedIn k s (resumes finished ∷ run) = (finished k s ≡ true) ⊎ ClosedIn k s run
ClosedIn k s (moves j m ∷ run) = ClosedIn k s run

-- The session is in the list.
abbrev Listed : ℕ → ℕ → List (ℕ × ℕ) → Type 0
Listed k s [] = ⊥
Listed k s ((j, t) ∷ rest) = ((j ≡ k) × (t ≡ s)) ⊎ Listed k s rest

Listed-front : (k s : ℕ) (xs ys : List (ℕ × ℕ)) → Listed k s xs → Listed k s (xs ++ ys)
Listed-front k s [] ys h = absurd h
Listed-front k s ((j, t) ∷ xs) ys (inl h) = inl h
Listed-front k s ((j, t) ∷ xs) ys (inr h) = inr (Listed-front k s xs ys h)

Listed-back : (k s : ℕ) (xs ys : List (ℕ × ℕ)) → Listed k s ys → Listed k s (xs ++ ys)
Listed-back k s [] ys h = h
Listed-back k s ((j, t) ∷ xs) ys h = inr (Listed-back k s xs ys h)

pairs-Listed : (k s : ℕ) (ids : List ℕ) → is_among s ids ≡ true → Listed k s (pairs k ids)
unfolding pairs is_among
pairs-Listed k s [] h = absurd (both-ways h refl)
pairs-Listed k s (id ∷ ids) h = elim (Bool-cases (id == s)) [
  | inl e ↦ inl (refl, (==_iff id s).0 e)
  | inr e ↦ inr (pairs-Listed k s ids (ground arith))
]

-- Every session that is registered at one of the endpoints is collected.
collect_sessions-Listed :
    (n k s : ℕ) (v : Endpoints)
    → k < n
    → is_among s (v k).inner.sessions ≡ true
    → Listed k s (collect_sessions n v)
unfolding collect_sessions
collect_sessions-Listed zero k s v l h = absurd (omega arith)
collect_sessions-Listed (suc n) k s v l h = elim (Bool-cases (k == n)) [
  | inl e ↦
      let same : k ≡ n = (==_iff k n).0 e in
      Listed-back k s (collect_sessions n v) _ (
        subst (λ j. Listed k s (pairs j (v j).inner.sessions)) same
          (pairs-Listed k s (v k).inner.sessions h))
  | inr e ↦
      Listed-front k s (collect_sessions n v) _
        (collect_sessions-Listed n k s v (ground (arith, e)) h)
]

-- The steps of the last loop.
next_closed :
    (finished : ℕ → ℕ → Bool) (j t : ℕ) (rest : List (ℕ × ℕ)) (v : Endpoints)
    → finished j t ≡ true
    → resume_close finished (awaits ((j, t) ∷ rest)) v ≡ (awaits rest, v)
unfolding resume_close
next_closed finished j t rest v h = rw h

still_open :
    (finished : ℕ → ℕ → Bool) (j t : ℕ) (rest : List (ℕ × ℕ)) (v : Endpoints)
    → finished j t ≡ false
    → resume_close finished (awaits ((j, t) ∷ rest)) v ≡ (awaits ((j, t) ∷ rest), v)
unfolding resume_close
still_open finished j t rest v h = rw h

left-ne-none : (x : ℕ × ℕ) (rest : List (ℕ × ℕ)) → awaits (x ∷ rest) ≡ awaits [] → ⊥
left-ne-none x rest h = cc

-- Once nothing is awaited any more, each session that was has closed.
awaits-ClosedIn :
    (k s : ℕ) (ids : List (ℕ × ℕ)) (v : Endpoints) (run : List Act)
    → (acts run (awaits ids, v)).0 ≡ awaits []
    → Listed k s ids
    → ClosedIn k s run
unfolding acts act
awaits-ClosedIn k s [] v run e h = absurd h
awaits-ClosedIn k s (x ∷ ids) v [] e h = absurd (left-ne-none x ids e)
awaits-ClosedIn k s ids v (moves i m ∷ run) e h = awaits-ClosedIn k s ids (move_at i m v) run e h
awaits-ClosedIn k s ((j, t) ∷ ids) v (resumes finished ∷ run) e h =
    elim (Bool-cases (finished j t)) [
      | inl b ↦
          subst Goal (sym (next_closed finished j t ids v b))
            (closed b (λ r g. awaits-ClosedIn k s ids v run g r) h) e
      | inr b ↦
          subst Goal (sym (still_open finished j t ids v b))
            (λ g. inr (awaits-ClosedIn k s ((j, t) ∷ ids) v run g h)) e
    ]
  where
    Goal : Closing × Endpoints → Type 0
    Goal x = (acts run x).0 ≡ awaits [] → ClosedIn k s (resumes finished ∷ run)

    closed :
        finished j t ≡ true
        → (Listed k s ids → (acts run (awaits ids, v)).0 ≡ awaits [] → ClosedIn k s run)
        → Listed k s ((j, t) ∷ ids)
        → Goal (awaits ids, v)
    closed b later (inl (f, g)) =
        λ _. inl (subst (λ i. finished i s ≡ true) f (subst (λ u. finished j u ≡ true) g b))
    closed b later (inr r) = λ g. inr (later r g)

-- The step of the run that collects the sessions, past the waits for all n endpoints; each session
-- that is registered at one of them then has closed since.
abbrev pub Collected : ℕ → List Act → Closing × Endpoints → Type 0
Collected n run x =
    (before : List Act) × (finished : ℕ → ℕ → Bool) × (after : List Act) × (j : ℕ) × (run
      ≡ before ++ (resumes finished ∷ after))
    × (n ≤ j)
    × ((acts before x).0 ≡ waits n j)
    × ((k s : ℕ)
        → k < n
        → is_among s ((acts before x).1 k).inner.sessions ≡ true
        → ClosedIn k s after)

Collected-step :
    (n : ℕ) (a : Act) (run : List Act) (x : Closing × Endpoints)
    → Collected n run (act a x)
    → Collected n (a ∷ run) x
unfolding acts
Collected-step n a run x (before, finished, after, j, e, l, p, c) =
    (a ∷ before, finished, after, j, ap (λ r. a ∷ r) e, l, p, c)

waits-Collected :
    (n j : ℕ) (v : Endpoints) (run : List Act)
    → (acts run (waits n j, v)).0 ≡ awaits []
    → Collected n run (waits n j, v)
unfolding acts act
waits-Collected n j v [] e = absurd (waits-ne-awaits n j [] e)
waits-Collected n j v (moves i m ∷ run) e =
    Collected-step n (moves i m) run (waits n j, v) (waits-Collected n j (move_at i m v) run e)
waits-Collected n j v (resumes finished ∷ run) e = elim (Bool-cases (ltb j n)) [
  | inr a ↦ subst Now (sym (collects finished n j v a)) (now a) e
  | inl a ↦ elim (Bool-cases ((v j).inner.pending_upgrades == 0)) [
    | inl b ↦
        Collected-step n (resumes finished) run (waits n j, v)
          (subst Later (sym (passes finished n j v a b)) (waits-Collected n (j + 1) v run) e)
    | inr b ↦
        Collected-step n (resumes finished) run (waits n j, v)
          (subst Later (sym (still_waits finished n j v a b)) (waits-Collected n j v run) e)
  ]
]
  where
    Later : Closing × Endpoints → Type 0
    Later x = (acts run x).0 ≡ awaits [] → Collected n run x

    Now : Closing × Endpoints → Type 0
    Now x = (acts run x).0 ≡ awaits [] → Collected n (resumes finished ∷ run) (waits n j, v)

    now : ltb j n ≡ false → Now (awaits (collect_sessions n v), close_collected n v)
    now a g = (
      [],
      finished,
      run,
      j,
      refl,
      ground arith,
      refl,
      λ k s l h.
          awaits-ClosedIn k s (collect_sessions n v) (close_collected n v) run g
            (collect_sessions-Listed n k s v l h),
    )

-- Once `close_sessions` over the first n endpoints returns, however they moved meanwhile, there was
-- a step of it, past its waits for the upgrades of all n, since which `closed()` has resolved for
-- every session that was registered at one of them then.
pub close_sessions-Collected :
    (n : ℕ) (v : Endpoints) (run : List Act)
    → (acts run (waits n 0, v)).0 ≡ awaits []
    → Collected n run (waits n 0, v)
close_sessions-Collected n v run e = waits-Collected n 0 v run e
