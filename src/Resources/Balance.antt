-- ===== src/Resources/Balance.antt =====
-- src/resources.rs: the counters of a budget against the permits that are out.
use vcmp_rs.Base.{ℕ, ◌+◌, ◌-◌, ◌≤◌, ◌≡◌, refl, List, [], ◌∷◌, ◌++◌, true, arith}
use vcmp_rs.Resources.{
  ResourceLimits, ResourceSnapshot, ResourceBudget, Resource, connection, request, data_frame,
  control, handler, Permit, admitted, charge, discharge,
}

-- The columns of the account, the permits and the bytes out for a resource, and their limits.
abbrev pub column : ResourceSnapshot → Resource → ℕ
column u connection = u.connections
column u request = u.pending_requests
column u data_frame = u.queued_messages
column u control = u.control_messages
column u handler = u.handler_tasks

abbrev pub volume : ResourceSnapshot → Resource → ℕ
volume u connection = 0
volume u request = 0
volume u data_frame = u.queued_bytes
volume u control = u.control_bytes
volume u handler = u.handler_bytes

abbrev pub cap : ResourceLimits → Resource → ℕ
cap l connection = l.connections
cap l request = l.pending_requests
cap l data_frame = l.queued_messages
cap l control = l.control_messages
cap l handler = l.handler_tasks

abbrev pub room : ResourceLimits → Resource → ℕ
room l connection = 0
room l request = 0
room l data_frame = l.queued_bytes
room l control = l.control_bytes
room l handler = l.handler_bytes

-- What one permit adds to each column.
abbrev pub count : Resource → Resource → ℕ
count connection connection = 1
count request request = 1
count data_frame data_frame = 1
count control control = 1
count handler handler = 1
count _ _ = 0

abbrev pub weight : Resource → Resource → ℕ → ℕ
weight data_frame data_frame n = n
weight control control n = n
weight handler handler n = n
weight _ _ n = 0

abbrev pub count_out : Resource → List Permit → ℕ
count_out r [] = 0
count_out r (p ∷ ps) = count r p.resource + count_out r ps

abbrev pub bytes_out : Resource → List Permit → ℕ
bytes_out r [] = 0
bytes_out r (p ∷ ps) = weight r p.resource p.bytes + bytes_out r ps

-- The account of a resource holds so many permits and so many bytes, within the limits.
pub record Balance (b : ResourceBudget) (permits bytes : ℕ) (r : Resource) : Type 0 where
  pub counted : column b.usage r ≡ permits
  pub weighed : volume b.usage r ≡ bytes
  pub capped : column b.usage r ≤ cap b.limits r
  pub roomy : volume b.usage r ≤ room b.limits r

-- The account agrees with the permits that are out.
abbrev pub Accounts : ResourceBudget → List Permit → Resource → Type 0
Accounts b out r = Balance b (count_out r out) (bytes_out r out) r

pub charge-column :
    (u : ResourceSnapshot) (r s : Resource) (n : ℕ)
    → column (charge u s n) r ≡ column u r + count r s
unfolding charge
charge-column u connection connection n = ground arith
charge-column u _ _ n = ground arith

pub charge-volume :
    (u : ResourceSnapshot) (r s : Resource) (n : ℕ)
    → volume (charge u s n) r ≡ volume u r + weight r s n
unfolding charge
charge-volume u connection connection n = ground arith
charge-volume u _ _ n = ground arith

pub discharge-column :
    (u : ResourceSnapshot) (r : Resource) (s : Resource) (n : ℕ)
    → column (discharge u (record { resource = s; bytes = n })) r ≡ column u r - count r s
unfolding discharge
discharge-column u connection connection n = ground arith
discharge-column u _ _ n = ground arith

pub discharge-volume :
    (u : ResourceSnapshot) (r : Resource) (s : Resource) (n : ℕ)
    → volume (discharge u (record { resource = s; bytes = n })) r ≡ volume u r - weight r s n
unfolding discharge
discharge-volume u connection connection n = ground arith
discharge-volume u _ _ n = ground arith

-- An admission leaves room for what it charges.
pub admitted-fits :
    (l : ResourceLimits) (u : ResourceSnapshot) (r s : Resource) (n : ℕ)
    → admitted l u s n ≡ true
    → column u r ≤ cap l r
    → volume u r ≤ room l r
    → (column u r + count r s ≤ cap l r) × (volume u r + weight r s n ≤ room l r)
unfolding admitted
admitted-fits l u connection connection n h p q = ground arith
admitted-fits l u _ _ n h p q = ground arith

-- The permits that are out, with one of them taken away.
abbrev pub mid : List Permit → Permit → List Permit → List Permit
mid before p after = before ++ p ∷ after

pub count_out-mid :
    (r : Resource) (before : List Permit) (p : Permit) (after : List Permit)
    → count_out r (mid before p after) ≡ count r p.resource + count_out r (before ++ after)
count_out-mid r [] p after = refl
count_out-mid r (q ∷ before) p after = omega (arith, count_out-mid r before p after)

pub bytes_out-mid :
    (r : Resource) (before : List Permit) (p : Permit) (after : List Permit)
    → bytes_out r (mid before p after) ≡ weight r p.resource p.bytes + bytes_out r (before ++ after)
bytes_out-mid r [] p after = refl
bytes_out-mid r (q ∷ before) p after = omega (arith, bytes_out-mid r before p after)
