-- ===== src/Client/Sending.antt =====
-- src/client.rs: sending on the current session, and the waits for the connected signal.
use vcmp_rs.Base.{
  ℕ, ◌+◌, List, [], ◌∷◌, Option, none, some, Bool, true, false, Result, ◌>>=◌, if◌then◌else◌,
}
use vcmp_rs.Error.{VcmpError}
use vcmp_rs.Client.{VcmpClient, current_session}

-- `send`, `send_as` and `send_value`: what the session's method of that name gives, on the current
-- session if there is one.
unfoldable pub send_on :
    {V A : Type 0} → VcmpClient → (ℕ → Result A (VcmpError V)) → Result A (VcmpError V)
unfolding current_session
send_on c send = current_session c >>= send

unfoldable pub is_signal : Bool → Bool → Bool
is_signal true true = true
is_signal false false = true
is_signal _ _ = false

-- `wait_connection_state`: the states of the client when the waiter looks at the signal, first when
-- it subscribes and then after changes; the place of the one at which it resolves.
unfoldable pub wait_connection_state : Bool → List VcmpClient → Option ℕ
unfolding is_signal
wait_connection_state connected [] = none
wait_connection_state connected (c ∷ cs) =
    let rest = wait_connection_state connected cs in
    if is_signal c.inner.connected connected
    then some 0
    else elim rest [ none ↦ none | some n ↦ some (n + 1) ]

unfoldable pub wait_connected : List VcmpClient → Option ℕ
unfolding wait_connection_state
wait_connected seen = wait_connection_state true seen

unfoldable pub wait_disconnected : List VcmpClient → Option ℕ
unfolding wait_connection_state
wait_disconnected seen = wait_connection_state false seen
