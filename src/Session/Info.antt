-- ===== src/Session/Info.antt =====
-- src/session.rs: how a session was established, and the spawning of a session with its options.
use vcmp_rs.Base.{
  ℕ, ◌+◌, ◌≡◌, List, [], ◌∷◌, Option, none, some, Bool, true, false, ◌&&◌, Result, ok, err, leb,
  if◌then◌else◌, Text, text_eq,
}
use vcmp_rs.Base.Assoc.{get}
use vcmp_rs.Error.{VcmpError}
use vcmp_rs.Resources.{ResourceBudget, Permit, connection, reserve}
use vcmp_rs.Session.{
  Session, SessionLimits, Arrival, default_session_limits, spawn_admitted, incremented,
}

pub record ConnectInfo : Type 0 where
  pub path : Text
  pub params : List (Text × Text)
  pub headers : List (Text × Text)
  pub remote_addr : Option Text

-- `u8::to_ascii_lowercase`, and `eq_ignore_ascii_case` on texts.
unfoldable pub lower : ℕ → ℕ
lower b = if leb b'A' b && leb b b'Z' then b + 32 else b

unfoldable pub lowered : Text → Text
lowered [] = []
lowered (b ∷ s) = lower b ∷ lowered s

unfoldable pub eq_ignore_ascii_case : Text → Text → Bool
unfolding lowered
eq_ignore_ascii_case s t = text_eq (lowered s) (lowered t)

-- `ConnectInfo::param`.
unfoldable pub param : Text → ConnectInfo → Option Text
param name info = get name info.params

-- The `find` of `ConnectInfo::header`.
unfoldable pub find_header : Text → List (Text × Text) → Option Text
find_header name [] = none
find_header name ((n, v) ∷ rest) =
    if eq_ignore_ascii_case n name then some v else find_header name rest

-- `ConnectInfo::header`.
unfoldable pub header : Text → ConnectInfo → Option Text
unfolding find_header
header name info = find_header name info.headers

pub record SessionOptions (H : Type 0) : Type 0 where
  pub handlers : List (Text × H)
  pub connect_info : Option ConnectInfo
  pub limits : SessionLimits
  pub budget : ResourceBudget

-- `SessionOptions::new`, with the budget that `Default` makes.
unfoldable pub new_options : {H : Type 0} → List (Text × H) → ResourceBudget → SessionOptions H
new_options handlers budget = record {
  handlers = handlers;
  connect_info = none;
  limits = default_session_limits;
  budget = budget;
}

-- A handle on a session, with the arrival of the message that its handler got it for, and the
-- permit that the session's task holds.
pub record Handle (V H : Type 0) : Type 0 where
  pub inner : Session V H
  pub connect_info : Option ConnectInfo
  pub arrival : Option Arrival
  pub connection : Permit

module _ {V H : Type 0} where
  -- `spawn_admitted` with the id that `NEXT_SESSION_ID` gives, and its next value.
  unfoldable pub spawn_handle : ℕ → SessionOptions H → Permit → ResourceBudget → Handle V H × ℕ
  spawn_handle next options p budget = (
    record {
      inner = spawn_admitted next options.handlers options.limits budget;
      connect_info = options.connect_info;
      arrival = none;
      connection = p;
    },
    incremented next,
  )

  unfoldable pub spawn_reserved :
      ℕ
      → SessionOptions H
      → Result Permit (VcmpError V) × ResourceBudget
      → Result (Handle V H) (VcmpError V) × ℕ × ResourceBudget
  unfolding spawn_handle
  spawn_reserved next options (err e, budget) = (err e, next, budget)
  spawn_reserved next options (ok p, budget) =
      let (h, next') = spawn_handle next options p budget in (ok h, next', budget)

  -- `try_spawn`.
  unfoldable pub try_spawn :
      ℕ → SessionOptions H → Result (Handle V H) (VcmpError V) × ℕ × ResourceBudget
  unfolding spawn_reserved
  try_spawn next options = spawn_reserved next options (reserve options.budget connection 0)

  -- The getters of a handle.
  unfoldable pub session_id : Handle V H → ℕ
  session_id h = h.inner.id

  unfoldable pub is_open : Handle V H → Bool
  is_open h = h.inner.open_

  -- `PartialEq for Session`: the same session, which its id tells.
  abbrev pub SameSession : Handle V H → Handle V H → Type 0
  SameSession h k = h.inner.id ≡ k.inner.id

  -- `Session::arrival` on the handle that a handler gets: a clone with the arrival set.
  unfoldable pub handler_handle : Arrival → Handle V H → Handle V H
  handler_handle arrival h = record h { arrival = some arrival }

-- `Session::closed`: the values of the flag that the waiter sees, the first when it subscribes, and
-- then one for each change; it resolves at the first that is set. None while it waits.
unfoldable pub closed_at : List Bool → Option ℕ
closed_at [] = none
closed_at (true ∷ seen) = some 0
closed_at (false ∷ seen) = elim (closed_at seen) [ none ↦ none | some n ↦ some (n + 1) ]
