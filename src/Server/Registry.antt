-- ===== src/Server/Registry.antt =====
-- src/server.rs: the sessions that an endpoint has registered, and the tasks that serve them.
use vcmp_rs.Base.{
  ℕ, zero, suc, ◌+◌, ◌≡◌, refl, inl, inr, List, [], ◌∷◌, Bool, true, false, ◌||◌, Bool-cases,
  both-ways, arith,
}
use vcmp_rs.Base.Ids.{is_among}
use vcmp_rs.Server.Endpoint.{EndpointInner, Serving, Event, attend_at}
use vcmp_rs.Server.Effects.{serves, any_serves, waits, all_waits, attend-Effect}

or_right : (a b : Bool) → (a || b) ≡ true → a ≡ false → b ≡ true
or_right false b h k = h
or_right true b h k = absurd (both-ways refl k)

pub or_intro : (a b : Bool) → b ≡ true → (a || b) ≡ true
or_intro false b h = h
or_intro true b h = refl

among_rest :
    {P : Type 0} (s : ℕ) (t : Serving) (ts us : List Serving)
    → (P → any_serves s (t ∷ ts) ≡ true)
    → ((P → any_serves s ts ≡ true) → any_serves s us ≡ true)
    → any_serves s (t ∷ us) ≡ true
among_rest s t ts us k b = elim (Bool-cases (serves s t)) [
  | inl g ↦ ground (arith, g)
  | inr f ↦
      or_intro (serves s t) (any_serves s us)
        (b (λ a. or_right (serves s t) (any_serves s ts) (k a) f))
]

pub attend_at-Effect :
    (n : ℕ) (ev : Event) (ts : List Serving) (e : EndpointInner)
    → ((s : ℕ)
        → is_among s (attend_at n ev ts e).0.open_ ≡ true
        → (is_among s e.open_ ≡ true → is_among s e.sessions ≡ true)
        → is_among s (attend_at n ev ts e).0.sessions ≡ true)
      × ((s : ℕ)
          → is_among s (attend_at n ev ts e).0.sessions ≡ true
          → (is_among s e.sessions ≡ true → any_serves s ts ≡ true)
          → any_serves s (attend_at n ev ts e).1 ≡ true)
      × ((m : ℕ)
          → e.pending_upgrades ≡ all_waits ts + m
          → (attend_at n ev ts e).0.pending_upgrades ≡ all_waits (attend_at n ev ts e).1 + m)
unfolding attend_at
attend_at-Effect n ev [] e = (λ s h k. k h, λ s h k. k h, λ m h. h)
attend_at-Effect zero ev (t ∷ ts) e =
    let x = attend-Effect ev t e in
    (
      x.registered,
      λ s h k. elim (x.served s h) [ inl g ↦ ground arith | inr (a, b) ↦ ground (arith, k a) ],
      λ m h. omega (arith, x.counted (all_waits ts + m) (omega arith)),
    )
attend_at-Effect (suc n) ev (t ∷ ts) e =
    let (a, b, c) = attend_at-Effect n ev ts e in
    (
      a,
      λ s h k. among_rest s t ts (attend_at n ev ts e).1 k (b s h),
      λ m h. omega (arith, c (waits t + m) (omega arith)),
    )
