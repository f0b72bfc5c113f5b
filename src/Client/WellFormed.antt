-- ===== src/Client/WellFormed.antt =====
-- src/client.rs: the invariant of a client, over the turns of its tasks.
use vcmp_rs.Base.{
  ℕ, zero, suc, ◌≤◌, ◌<◌, ◌≡◌, refl, sym, ◌∙◌, ap, subst, inl, inr, List, [], ◌∷◌, Option, none,
  some, Bool, true, false, All, arith, Bool-cases, both-ways,
}
use vcmp_rs.Client.{Task, ClientInner, VcmpClient}
use vcmp_rs.Client.Running.{Event, turn, turn_task, turn_among, turn_old}
use vcmp_rs.Client.Invariant.{core, turn-same, turn-Away, Serves, turn-Shows, Shows}

-- The kept task is of the present generation, and serves the client as long as that runs.
abbrev pub Fits : ClientInner → Option Task → Type 0
Fits i none = i.running ≡ false
Fits i (some t) = (t.generation ≡ i.generation) × (i.running ≡ true → Serves i t)

-- A waiter's task is not that of a running client.
abbrev pub Waits : ClientInner → ℕ → Type 0
Waits i g = (g ≤ i.generation) × (i.running ≡ true → g < i.generation)

abbrev pub Replaced : ClientInner → Task → Type 0
Replaced i t = t.generation < i.generation

pub record WellFormed (c : VcmpClient) : Type 0 where
  pub sender : c.inner.stop ≡ c.inner.running
  pub when_off : c.inner.running ≡ false → (c.inner.session ≡ none) × (c.inner.connected ≡ false)
  pub present : Fits c.inner c.task
  pub replaced : All (Replaced c.inner) c.old
  pub waited : All (Waits c.inner) c.waiters

pub Serves-core : {i j : ClientInner} {t : Task} → core j ≡ core i → Serves i t → Serves j t
Serves-core e h = record {
  runs = ap (λ k. k.0) e ∙ h.runs;
  own = h.own ∙ sym (ap (λ k. k.1) e);
  untold = h.untold;
  kept = h.kept;
  lives = h.lives;
  shows = ap (λ k. k.3) e ∙ h.shows;
  gate = ap (λ k. k.4) e ∙ h.gate;
}

abbrev bounds : ClientInner → Bool × ℕ × Bool
bounds i = (i.running, i.generation, i.stop)

module _ (i j : ClientInner) where
  pub Fits-core : (o : Option Task) → core j ≡ core i → Fits i o → Fits j o
  Fits-core none e h = ap (λ k. k.0) e ∙ h
  Fits-core (some t) e h =
      (h.0 ∙ sym (ap (λ k. k.1) e), λ r. Serves-core e (h.1 (sym (ap (λ k. k.0) e) ∙ r)))

  pub Replaced-bounds :
      (ts : List Task) → i.generation ≤ j.generation → All (Replaced i) ts → All (Replaced j) ts
  Replaced-bounds [] e h = tt
  Replaced-bounds (t ∷ ts) e (h, hs) = (omega arith, Replaced-bounds ts e hs)

  Waits-bounds : (gs : List ℕ) → bounds j ≡ bounds i → All (Waits i) gs → All (Waits j) gs
  Waits-bounds [] e h = tt
  Waits-bounds (g ∷ gs) e (h, hs) =
      (subst (λ k. (g ≤ k.1) × (k.0 ≡ true → g < k.1)) (sym e) h, Waits-bounds gs e hs)

  pub Waits-later :
      (gs : List ℕ) → i.generation < j.generation → All (Waits i) gs → All (Waits j) gs
  Waits-later [] e h = tt
  Waits-later (g ∷ gs) e ((h, k), hs) = ((omega arith, λ _. omega arith), Waits-later gs e hs)

  pub Waits-stopped :
      (gs : List ℕ)
      → j.running ≡ false
      → j.generation ≡ i.generation
      → All (Waits i) gs
      → All (Waits j) gs
  Waits-stopped [] r e h = tt
  Waits-stopped (g ∷ gs) r e ((h, k), hs) =
      ((omega arith, λ q. absurd (both-ways q r)), Waits-stopped gs r e hs)

-- A new state within the same bounds, with what shows of it.
pub WellFormed-with :
    {c : VcmpClient} (j : ClientInner) (o : Option Task)
    → bounds j ≡ bounds c.inner
    → (j.running ≡ false → (j.session ≡ none) × (j.connected ≡ false))
    → Fits j o
    → WellFormed c
    → WellFormed (record c { inner = j; task = o })
WellFormed-with {c} j o e off fits h = record {
  sender = ap (λ k. k.2) e ∙ h.sender ∙ sym (ap (λ k. k.0) e);
  when_off = off;
  present = fits;
  replaced = Replaced-bounds c.inner j c.old (omega (arith, ap (λ k. k.1) e)) h.replaced;
  waited = Waits-bounds c.inner j c.waiters e h.waited;
}

-- The invariant goes by the core of the state.
pub WellFormed-core :
    {c : VcmpClient} (j : ClientInner)
    → core j ≡ core c.inner
    → WellFormed c
    → WellFormed (record c { inner = j })
WellFormed-core {c} j e h =
    WellFormed-with {c = c} j c.task (ap (λ k. (k.0, k.1, k.2)) e)
      (subst (λ k. k.0 ≡ false → (k.3 ≡ none) × (k.4 ≡ false)) (sym e) h.when_off)
      (Fits-core c.inner j c.task e h.present) h

-- A turn of the kept task.
Shows-Serves :
    {i : ClientInner} {t : Task} (e : Event)
    → Serves i t
    → Shows i (turn e i t)
    → Serves (turn e i t).0 (turn e i t).1
unfolding Shows
Shows-Serves {i} {t} e h (k, l) =
    let same = turn-same e i t in
    record {
      runs = ap (λ k. k.0) k ∙ h.runs;
      own = ap (λ k. k.0) same ∙ h.own ∙ sym (ap (λ k. k.1) k);
      untold = ap (λ k. k.1) same ∙ h.untold;
      kept = ap (λ k. k.2) same ∙ h.kept;
      lives = l;
      shows = ap (λ k. k.3) k;
      gate = ap (λ k. k.4) k;
    }

Shows-bounds : (i : ClientInner) (r : ClientInner × Task) → Shows i r → bounds r.0 ≡ bounds i
unfolding Shows
Shows-bounds i r (k, l) = ap (λ k. (k.0, k.1, k.2)) k

turns-WellFormed :
    (e : Event) (c : VcmpClient) (t : Task)
    → c.task ≡ some t
    → WellFormed c
    → WellFormed (record c { inner = (turn e c.inner t).0; task = some (turn e c.inner t).1 })
turns-WellFormed e c t q h = elim (Bool-cases c.inner.running) [
  | inl r ↦
      let serves = fits.1 r in
      let shows = turn-Shows e c.inner t serves in
      let after = Shows-Serves e serves shows in
      WellFormed-with {c = c} (turn e c.inner t).0 (some (turn e c.inner t).1)
        (Shows-bounds _ _ shows) (λ k. absurd (both-ways after.runs k)) (after.own, λ _. after) h
  | inr r ↦
      let still = turn-Away e c.inner t (inr (r, (h.when_off r).0, (h.when_off r).1)) in
      WellFormed-with {c = c} (turn e c.inner t).0 (some (turn e c.inner t).1)
        (ap (λ k. (k.0, k.1, k.2)) still)
        (subst (λ k. k.0 ≡ false → (k.3 ≡ none) × (k.4 ≡ false)) (sym still) h.when_off)
        (
          ap (λ k. k.0) (turn-same e c.inner t) ∙ fits.0 ∙ sym (ap (λ k. k.1) still),
          λ k. absurd (both-ways k (ap (λ k. k.0) still ∙ r)),
        )
        h
]
  where
    fits : Fits c.inner (some t)
    fits = subst (Fits c.inner) q h.present

module _ (e : Event) where
  pub turn_task-WellFormed : (c : VcmpClient) → WellFormed c → WellFormed (turn_task e c)
  unfolding turn_task
  turn_task-WellFormed c h = go c.task refl
    where
      go :
          (o : Option Task)
          → c.task ≡ o
          → WellFormed (elim o [
            | none ↦ c
            | some t ↦ record c { inner = (turn e c.inner t).0; task = some (turn e c.inner t).1 }
          ])
      go none q = h
      go (some t) q = turns-WellFormed e c t q h

  -- A turn of a replaced task changes none of what the client goes by.
  pub turn_among-core :
      (n : ℕ) (ts : List Task) (i : ClientInner)
      → All (Replaced i) ts
      → core (turn_among n e ts i).0 ≡ core i
  unfolding turn_among
  turn_among-core n [] i h = refl
  turn_among-core zero (t ∷ ts) i (h, hs) = turn-Away e i t (inl (λ q. omega arith))
  turn_among-core (suc n) (t ∷ ts) i (h, hs) = turn_among-core n ts i hs

  turn_among-Replaced :
      (n : ℕ) (ts : List Task) (i j : ClientInner)
      → All (Replaced j) ts
      → All (Replaced j) (turn_among n e ts i).1
  unfolding turn_among
  turn_among-Replaced n [] i j h = tt
  turn_among-Replaced zero (t ∷ ts) i j (h, hs) =
      (omega (arith, h, ap (λ k. k.0) (turn-same e i t)), hs)
  turn_among-Replaced (suc n) (t ∷ ts) i j (h, hs) = (h, turn_among-Replaced n ts i j hs)

  pub turn_old-WellFormed : (n : ℕ) (c : VcmpClient) → WellFormed c → WellFormed (turn_old n e c)
  unfolding turn_old
  turn_old-WellFormed n c h =
      let k =
        WellFormed-core {c = c} (turn_among n e c.old c.inner).0
          (turn_among-core n c.old c.inner h.replaced) h in
      record {
        sender = k.sender;
        when_off = k.when_off;
        present = k.present;
        replaced = turn_among-Replaced n c.old c.inner (turn_among n e c.old c.inner).0 k.replaced;
        waited = k.waited;
      }
