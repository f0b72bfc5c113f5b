-- ===== src/Session/Admissions.antt =====
-- src/session.rs: what admissions and dropped permits do to the account of a session.
use vcmp_rs.Base.{
  ℕ, ◌+◌, ◌≡◌, refl, inl, inr, List, [], ◌∷◌, some, Result, ok, err, Text, arith, subst, subst₂,
  Option-cases,
}
use vcmp_rs.Base.Assoc.{get, insert, remove}
use vcmp_rs.Error.{VcmpError}
use vcmp_rs.Resources.{ResourceBudget, Resource, Permit, reserve}
use vcmp_rs.Resources.Balance.{Balance, count, weight}
use vcmp_rs.Resources.Ledger.{
  charge-Balance, release-Balance, overloaded-Balance, reserve_ok, reserve_err,
}
use vcmp_rs.Session.{
  Session, Permits, Outgoing, PendingEntry, Answer, dropped, HandlerTask, Writer, idle, writing,
  stopped, reserve_both, reserve_local, reserve_global, release_both,
}
use vcmp_rs.Session.Sending.{take_pending, insert_pending, settle, settle_found}
use vcmp_rs.Session.Driving.{release_queue, release_writing, release_tasks, fail_pending}
use vcmp_rs.Session.Weights.{
  weigh_pending, weigh_queue, weigh_writer, weigh_held, weigh_tasks, weigh_session,
  weigh_pending-remove, weigh_pending-absent, weigh_pending-insert, weigh_pending-replace,
}

-- What the local permit of a pair counts and weighs for a resource.
abbrev pub counts : Resource → Permits → ℕ
counts r p = count r p.local.resource

abbrev pub weighs : Resource → Permits → ℕ
weighs r p = weight r p.local.resource p.local.bytes

module _ {V H : Type 0} where
  -- The local budget's counters for a resource are the sums over the permits of the session, and
  -- the ones that a method under way holds.
  abbrev pub Accounted : Resource → List Permits → Session V H → Type 0
  Accounted r held s =
      Balance s.local (weigh_session (counts r) s + weigh_held (counts r) held)
        (weigh_session (weighs r) s + weigh_held (weighs r) held) r

-- What is held after an admission that may have failed.
abbrev pub granted : {V : Type 0} → Result Permits (VcmpError V) → List Permits → List Permits
granted (ok p) held = p ∷ held
granted (err e) held = held

pub recount :
    {r : Resource} (b : ResourceBudget) {c d v x : ℕ}
    → c ≡ d
    → v ≡ x
    → Balance b c v r
    → Balance b d x r
recount {r} b e f a = subst₂ (λ c v. Balance b c v r) e f a

module _ {V H : Type 0} (r : Resource) where
  release_both-Balance :
      (p : Permits) (s : Session V H) (c v : ℕ)
      → Balance s.local (counts r p + c) (weighs r p + v) r
      → Balance (release_both p s).local c v r
  unfolding release_both
  release_both-Balance p s c v a = release-Balance s.local r p.local c v a

  pub releases-Accounted :
      (held : List Permits) (s : Session V H) (p : Permits)
      → Accounted r (p ∷ held) s
      → Accounted r held (release_both p s)
  unfolding release_both
  releases-Accounted held s p a =
      release-Balance s.local r p.local _ _ (recount s.local (omega arith) (omega arith) a)

  pub release_queue-Balance :
      (os : List Outgoing) (s : Session V H) (c v : ℕ)
      → Balance s.local (weigh_queue (counts r) os + c) (weigh_queue (weighs r) os + v) r
      → Balance (release_queue os s).local c v r
  unfolding release_queue
  release_queue-Balance [] s c v a = recount s.local (omega arith) (omega arith) a
  release_queue-Balance (o ∷ os) s c v a =
      release_queue-Balance os (release_both o.permits s) c v
        (release_both-Balance o.permits s _ _ (recount s.local (omega arith) (omega arith) a))

  pub release_tasks-Balance :
      (ts : List (HandlerTask V H)) (s : Session V H) (c v : ℕ)
      → Balance s.local (weigh_tasks (counts r) ts + c) (weigh_tasks (weighs r) ts + v) r
      → Balance (release_tasks ts s).local c v r
  unfolding release_tasks
  release_tasks-Balance [] s c v a = recount s.local (omega arith) (omega arith) a
  release_tasks-Balance (t ∷ ts) s c v a =
      release_tasks-Balance ts (release_both t.permits s) c v
        (release_both-Balance t.permits s _ _ (recount s.local (omega arith) (omega arith) a))

  pub fail_pending-Balance :
      (m : List (Text × PendingEntry)) (s : Session V H) (c v : ℕ)
      → Balance s.local (weigh_pending (counts r) m + c) (weigh_pending (weighs r) m + v) r
      → Balance (fail_pending m s).local c v r
  unfolding fail_pending
  fail_pending-Balance [] s c v a = recount s.local (omega arith) (omega arith) a
  fail_pending-Balance ((id, e) ∷ m) s c v a =
      fail_pending-Balance m _ c v
        (release_both-Balance e.permits s _ _ (recount s.local (omega arith) (omega arith) a))

  pub release_writing-Balance :
      (x : Writer) (s : Session V H) (c v : ℕ)
      → Balance s.local (weigh_writer (counts r) x + c) (weigh_writer (weighs r) x + v) r
      → Balance (release_writing x s).local c v r
  unfolding release_writing
  release_writing-Balance idle s c v a = recount s.local (omega arith) (omega arith) a
  release_writing-Balance (writing p) s c v a = release_both-Balance p s c v a
  release_writing-Balance stopped s c v a = recount s.local (omega arith) (omega arith) a

  settle_found-Accounted :
      (held : List Permits) (s : Session V H) (e : PendingEntry) (a : Answer V)
      → Accounted r (e.permits ∷ held) s
      → Accounted r held (settle_found (some e) a s)
  unfolding settle_found settle release_both
  settle_found-Accounted held s e a h = releases-Accounted held s e.permits h

  pub takes-Accounted :
      (held : List Permits) (s : Session V H) (id : Text) (a : Answer V)
      → Accounted r held s
      → Accounted r held (take_pending id a s)
  unfolding take_pending settle_found
  takes-Accounted held s id a h = elim (Option-cases (get id s.pending)) [
    | inl e ↦
        rw (e, take_pending)
          (recount s.local (omega (arith, weigh_pending-absent (counts r) id s.pending e))
            (omega (arith, weigh_pending-absent (weighs r) id s.pending e)) h)
    | inr (d, e) ↦
        rw (e, take_pending)
          (settle_found-Accounted held (record s { pending = remove id s.pending }) d a
            (recount s.local (omega (arith, weigh_pending-remove (counts r) id s.pending d e))
              (omega (arith, weigh_pending-remove (weighs r) id s.pending d e)) h))
  ]

  pub inserts-Accounted :
      (held : List Permits) (s : Session V H) (id : Text) (waiter : ℕ) (p : Permits)
      → Accounted r (p ∷ held) s
      → Accounted r held (insert_pending id (record { waiter = waiter; permits = p }) s)
  unfolding insert_pending settle_found
  inserts-Accounted held s id waiter p h =
      let entry : PendingEntry = record { waiter = waiter; permits = p } in
      elim (Option-cases (get id s.pending)) [
        | inl e ↦
            rw (e, insert_pending)
              (recount s.local (omega (arith, weigh_pending-insert (counts r) id s.pending entry e))
                (omega (arith, weigh_pending-insert (weighs r) id s.pending entry e)) h)
        | inr (d, e) ↦
            rw (e, insert_pending)
              (settle_found-Accounted held (record s { pending = insert id entry s.pending }) d
                dropped
                (recount s.local
                  (omega (arith, weigh_pending-replace (counts r) id s.pending entry d e))
                  (omega (arith, weigh_pending-replace (weighs r) id s.pending entry d e)) h))
      ]

  -- The second admission: if it fails, the first permit is dropped again.
  reserve_global-Accounted :
      (held : List Permits) (s : Session V H) (p : Permit)
      (q : Result Permit (VcmpError V) × ResourceBudget)
      → Balance s.local
          (count r p.resource + (weigh_session (counts r) s + weigh_held (counts r) held))
          (weight r p.resource p.bytes + (weigh_session (weighs r) s + weigh_held (weighs r) held))
          r
      → Accounted r (granted (reserve_global p q s).0 held) (reserve_global p q s).1
  unfolding reserve_global
  reserve_global-Accounted held s p (ok g, b) a = recount s.local (omega arith) (omega arith) a
  reserve_global-Accounted held s p (err e, b) a = release-Balance s.local r p _ _ a

  reserve_local-Accounted :
      (held : List Permits) (s : Session V H) (k : Resource) (n : ℕ)
      (q : Result Permit (VcmpError V)) (b : ResourceBudget)
      → reserve s.local k n ≡ (q, b)
      → Accounted r held s
      → Accounted r (granted (reserve_local k n (q, b) s).0 held) (reserve_local k n (q, b) s).1
  unfolding reserve_local
  reserve_local-Accounted held s k n (ok p) b e a =
      let (fits, same, charged) = reserve_ok s.local k n p b e in
      reserve_global-Accounted held (record s { local = b }) p (reserve s.budget k n)
        (subst₂
          (λ c p.
            Balance c
              (count r p.resource + (weigh_session (counts r) s + weigh_held (counts r) held))
              (weight r p.resource p.bytes
                + (weigh_session (weighs r) s + weigh_held (weighs r) held))
              r)
          charged same (charge-Balance s.local r k n _ _ fits a))
  reserve_local-Accounted held s k n (err x) b e a =
      let (full, marked) = reserve_err s.local k n x b e in
      subst
        (λ c.
          Balance c (weigh_session (counts r) s + weigh_held (counts r) held)
            (weigh_session (weighs r) s + weigh_held (weighs r) held) r)
        marked (overloaded-Balance s.local _ _ r a)

  pub reserve_both-Accounted :
      (held : List Permits) (s : Session V H) (k : Resource) (n : ℕ)
      → Accounted r held s
      → Accounted r (granted (reserve_both k n s).0 held) (reserve_both k n s).1
  unfolding reserve_both
  reserve_both-Accounted held s k n a =
      reserve_local-Accounted held s k n (reserve s.local k n).0 (reserve s.local k n).1 refl a
