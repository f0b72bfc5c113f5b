-- ===== src/Session/Waiters.antt =====
-- src/session.rs: waiters among the pending requests and the answers.
use vcmp_rs.Base.{
  ℕ, ◌≡◌, inl, inr, List, [], ◌∷◌, none, some, true, false, Text, arith, ap, sym, ◌∙◌, Bool-cases,
  text_eq, text_eq_iff, ◌==◌,
}
use vcmp_rs.Base.Assoc.{get}
use vcmp_rs.Session.{PendingEntry, Answer}
use vcmp_rs.Session.Sending.{answer_for}

module _ {V : Type 0} (w : ℕ) where
  -- Something was put into the waiter's channel, or its sender was dropped.
  abbrev pub Answered : List (ℕ × Answer V) → Type 0
  Answered xs = (a : Answer V) × (answer_for w xs ≡ some a)

  pub Answered-cons :
      (v : ℕ) (a : Answer V) (xs : List (ℕ × Answer V)) → Answered xs → Answered ((v, a) ∷ xs)
  unfolding answer_for
  Answered-cons v a xs (b, h) = elim (Bool-cases (v == w)) [
    | inl e ↦ (a, rw e)
    | inr e ↦ (b, rw e h)
  ]

  pub Answered-here :
      (v : ℕ) (a : Answer V) (xs : List (ℕ × Answer V)) → v ≡ w → Answered ((v, a) ∷ xs)
  unfolding answer_for
  Answered-here v a xs e = (a, ground arith)

-- The waiter of a pending request.
abbrev pub Pending : ℕ → List (Text × PendingEntry) → Type 0
Pending w m = (id : Text) × (e : PendingEntry) × (get id m ≡ some e) × (e.waiter ≡ w)

pub get-here :
    (id j : Text) (d : PendingEntry) (m : List (Text × PendingEntry))
    → text_eq id j ≡ true
    → get j ((id, d) ∷ m) ≡ some d
unfolding get
get-here id j d m t = rw t

pub get-there :
    (id j : Text) (d : PendingEntry) (m : List (Text × PendingEntry))
    → text_eq id j ≡ false
    → get j ((id, d) ∷ m) ≡ get j m
unfolding get
get-there id j d m t = rw t

pub waiter_of : {d e : PendingEntry} → some d ≡ some e → d.waiter ≡ e.waiter
waiter_of h = ap (λ o. elim o [ none ↦ 0 | some x ↦ x.waiter ]) h

pub same_waiter :
    (id j : Text) (m : List (Text × PendingEntry)) (d e : PendingEntry)
    → text_eq id j ≡ true
    → get id m ≡ some d
    → get j m ≡ some e
    → d.waiter ≡ e.waiter
same_waiter id j m d e t g h =
    let same : id ≡ j = (text_eq_iff id j).0 t in waiter_of (sym g ∙ ap (λ k. get k m) same ∙ h)

pub nothing-pending :
    (j : Text) (m : List (Text × PendingEntry)) (e : PendingEntry) → m ≡ [] → get j m ≡ some e → ⊥
unfolding get
nothing-pending j [] e h g = ground arith
nothing-pending j (x ∷ m) e h g = cc
