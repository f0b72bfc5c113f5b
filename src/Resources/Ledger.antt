-- ===== src/Resources/Ledger.antt =====
-- The usage of a budget, beside the permits that are out.
use vcmp_rs.Base.{
  ℕ, ◌+◌, ◌≤◌, ◌≡◌, refl, ◌↔◌, inl, inr, List, [], ◌∷◌, ◌++◌, true, false, arith, ap, sym, subst,
  subst₂, ◌∙◌, Bool-cases, ok_injective, ok-ne-err, err-ne-ok, ok, err, is_ok,
}
use vcmp_rs.Error.{VcmpError}
use vcmp_rs.Resources.{
  ResourceLimits, ResourceSnapshot, ResourceBudget, Resource, connection, Permit, new_budget,
  admitted, charge, overloaded, reserve, release,
}
use vcmp_rs.Resources.Balance.{
  column, volume, cap, room, count, weight, count_out, bytes_out, Balance, Accounts, charge-column,
  charge-volume, discharge-column, discharge-volume, admitted-fits, mid, count_out-mid,
  bytes_out-mid,
}

-- One operation on a budget, with the permits that are out before and after it.
pub data Step (V : Type 0)
    : ResourceBudget → List Permit → ResourceBudget → List Permit → Type 0 where
  admits :
      {b b' : ResourceBudget} {out : List Permit} {p : Permit} (s : Resource) (n : ℕ)
      → reserve {V = V} b s n ≡ (ok p, b')
      → Step V b out b' (p ∷ out)
  rejects :
      {b b' : ResourceBudget} {out : List Permit} {e : VcmpError V} (s : Resource) (n : ℕ)
      → reserve {V = V} b s n ≡ (err e, b')
      → Step V b out b' out
  drops :
      {b : ResourceBudget} (before : List Permit) (p : Permit) (after : List Permit)
      → Step V b (mid before p after) (release p b) (before ++ after)

pub data Reach (V : Type 0) (l : ResourceLimits) : ResourceBudget → List Permit → Type 0 where
  fresh : Reach V l (new_budget l) []
  next :
      {b c : ResourceBudget} {out rest : List Permit}
      → Reach V l b out
      → Step V b out c rest
      → Reach V l c rest

module _ {V : Type 0} (b : ResourceBudget) (s : Resource) (n : ℕ) where
  pub reserve_ok :
      (p : Permit) (b' : ResourceBudget)
      → reserve {V = V} b s n ≡ (ok p, b')
      → (admitted b.limits b.usage s n ≡ true)
        × (record { resource = s; bytes = n } ≡ p)
        × (record b { usage = charge b.usage s n } ≡ b')
  unfolding reserve
  reserve_ok p b' e = elim (Bool-cases (admitted b.limits b.usage s n)) [
    | inl h ↦ (
      h,
      let f = rw (h, reserve) at e in ok_injective (ap (λ t. t.0) f),
      ap (λ t. t.1) (rw (h, reserve) at e),
    )
    | inr h ↦ absurd (err-ne-ok (ap (λ t. t.0) (rw (h, reserve) at e)))
  ]

  pub reserve_err :
      (e : VcmpError V) (b' : ResourceBudget)
      → reserve {V = V} b s n ≡ (err e, b')
      → (admitted b.limits b.usage s n ≡ false) × (record b { usage = overloaded b.usage } ≡ b')
  unfolding reserve
  reserve_err e b' f = elim (Bool-cases (admitted b.limits b.usage s n)) [
    | inl h ↦ absurd (ok-ne-err (ap (λ t. t.0) (rw (h, reserve) at f)))
    | inr h ↦ (h, ap (λ t. t.1) (rw (h, reserve) at f))
  ]

-- Whether a reservation succeeds is what the first match says.
admitted-is_ok :
    (V : Type 0) (b : ResourceBudget) (s : Resource) (n : ℕ)
    → admitted b.limits b.usage s n ≡ is_ok (reserve {V = V} b s n).0
unfolding reserve
admitted-is_ok V b s n = elim (Bool-cases (admitted b.limits b.usage s n)) [
  | inl h ↦ rw h
  | inr h ↦ rw h
]

admitted_iff :
    (l : ResourceLimits) (u : ResourceSnapshot) (s : Resource) (n : ℕ)
    → volume u s ≤ room l s
    → (admitted l u s n ≡ true
        → (column u s + 1 ≤ cap l s) × (volume u s + weight s s n ≤ room l s))
      × (column u s + 1 ≤ cap l s → volume u s + weight s s n ≤ room l s → admitted l u s n ≡ true)
unfolding admitted
admitted_iff l u connection n h = ground arith
admitted_iff l u _ n h = ground arith

module _ (b : ResourceBudget) (r : Resource) where
  pub charge-Balance :
      (s : Resource) (n c v : ℕ)
      → admitted b.limits b.usage s n ≡ true
      → Balance b c v r
      → Balance (record b { usage = charge b.usage s n }) (count r s + c) (weight r s n + v) r
  charge-Balance s n c v h a =
      let (fits, fill) = admitted-fits b.limits b.usage r s n h a.capped a.roomy in
      record {
        counted = omega (arith, charge-column b.usage r s n, a.counted);
        weighed = omega (arith, charge-volume b.usage r s n, a.weighed);
        capped = omega (arith, charge-column b.usage r s n);
        roomy = omega (arith, charge-volume b.usage r s n);
      }

  pub release-Balance :
      (p : Permit) (c v : ℕ)
      → Balance b (count r p.resource + c) (weight r p.resource p.bytes + v) r
      → Balance (release p b) c v r
  unfolding release
  release-Balance p c v a =
      let d = discharge-column b.usage r p.resource p.bytes in
      let w = discharge-volume b.usage r p.resource p.bytes in
      record {
        counted = omega (arith, d, a.counted);
        weighed = omega (arith, w, a.weighed);
        capped = omega (arith, d, a.capped);
        roomy = omega (arith, w, a.roomy);
      }

overloaded-column : (u : ResourceSnapshot) (r : Resource) → column (overloaded u) r ≡ column u r
overloaded-column u connection = refl
overloaded-column u _ = refl

overloaded-volume : (u : ResourceSnapshot) (r : Resource) → volume (overloaded u) r ≡ volume u r
overloaded-volume u connection = refl
overloaded-volume u _ = refl

pub overloaded-Balance :
    (b : ResourceBudget) (c v : ℕ) (r : Resource)
    → Balance b c v r
    → Balance (record b { usage = overloaded b.usage }) c v r
overloaded-Balance b c v r a = record {
  counted = overloaded-column b.usage r ∙ a.counted;
  weighed = overloaded-volume b.usage r ∙ a.weighed;
  capped = rw (overloaded-column b.usage r) a.capped;
  roomy = rw (overloaded-volume b.usage r) a.roomy;
}

pub new-Balance : (l : ResourceLimits) (r : Resource) → Balance (new_budget l) 0 0 r
unfolding new_budget
new-Balance l connection = omega arith
new-Balance l _ = omega arith

module _ {V : Type 0} where
  Step-Accounts :
      {b c : ResourceBudget} {out rest : List Permit} (r : Resource)
      → Step V b out c rest
      → Accounts b out r
      → Accounts c rest r
  Step-Accounts r (admits {b} {b'} {out} {p} s n e) a =
      let (h, same, moved) = reserve_ok b s n p b' e in
      subst₂ (λ c q. Accounts c (q ∷ out) r) moved same (charge-Balance b r s n _ _ h a)
  Step-Accounts r (rejects {b} {b'} {out} {e} s n h) a =
      subst (λ c. Accounts c out r) (reserve_err b s n e b' h).1 (overloaded-Balance b _ _ r a)
  Step-Accounts r (drops {b} before p after) a = release-Balance b r p _ _ (
      subst₂ (λ c v. Balance b c v r) (count_out-mid r before p after)
        (bytes_out-mid r before p after) a)

  -- Whatever is reserved and dropped, in any order: the usage of every resource is the sum over the
  -- permits that are out, and never passes its limits.
  pub Reach-Accounts :
      {l : ResourceLimits} {b : ResourceBudget} {out : List Permit} (r : Resource)
      → Reach V l b out
      → Accounts b out r
  Reach-Accounts {l} r fresh = new-Balance l r
  Reach-Accounts r (next h s) = Step-Accounts r s (Reach-Accounts r h)

  -- Dropping a permit that is out gives back exactly what it took: no counter falls below zero.
  pub drop_exact :
      {l : ResourceLimits} {b : ResourceBudget} (before : List Permit) (p : Permit)
      (after : List Permit) (r : Resource)
      → Reach V l b (mid before p after)
      → (column (release p b).usage r + count r p.resource ≡ column b.usage r)
        × (volume (release p b).usage r + weight r p.resource p.bytes ≡ volume b.usage r)
  unfolding release
  drop_exact {l} {b} before p after r h =
      let a = Reach-Accounts r h in
      let d = discharge-column b.usage r p.resource p.bytes in
      let w = discharge-volume b.usage r p.resource p.bytes in
      (
        omega (arith, d, a.counted, count_out-mid r before p after),
        omega (arith, w, a.weighed, bytes_out-mid r before p after),
      )

  -- A reservation is admitted exactly if the limits still hold with it counted in.
  pub reserve_iff :
      {l : ResourceLimits} {b : ResourceBudget} {out : List Permit} (s : Resource) (n : ℕ)
      → Reach V l b out
      → (is_ok (reserve {V = V} b s n).0 ≡ true) ↔ (
          (count_out s out + 1 ≤ cap b.limits s)
          × (bytes_out s out + weight s s n ≤ room b.limits s))
  reserve_iff {l} {b} {out} s n h =
      let a = Reach-Accounts s h in
      let (there, back) = admitted_iff b.limits b.usage s n a.roomy in
      (
        λ e.
            let (p, q) = there (admitted-is_ok V b s n ∙ e) in
            (omega (arith, a.counted), omega (arith, a.weighed)),
        λ (p, q).
            sym (admitted-is_ok V b s n)
            ∙ back (omega (arith, a.counted)) (omega (arith, a.weighed)),
      )
