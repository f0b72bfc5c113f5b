-- ===== src/Resources.antt =====
-- src/resources.rs: admission limits, the usage that permits account for, and their release.
-- A budget is one value of the state; the mutex makes each operation on it atomic.
pub mod Balance
pub mod Ledger
mod Examples
use vcmp_rs.Base.{
  ℕ, ◌+◌, ◌*◌, ◌-◌, ◌^◌, ◌≡◌, Bool, ◌&&◌, Result, ok, err, min, ltb, leb, if◌then◌else◌,
}
use vcmp_rs.Error.{VcmpError, transport_overloaded}

pub record ResourceLimits : Type 0 where
  pub connections : ℕ
  pub queued_messages : ℕ
  pub queued_bytes : ℕ
  pub control_messages : ℕ
  pub control_bytes : ℕ
  pub pending_requests : ℕ
  pub handler_tasks : ℕ
  pub handler_bytes : ℕ

-- `ResourceLimits::default`.
abbrev pub default_limits : ResourceLimits
default_limits = record {
  connections = 128;
  queued_messages = 1024;
  queued_bytes = 16 * 2 ^ 20;
  control_messages = 1024;
  control_bytes = 8 * 2 ^ 20;
  pending_requests = 1024;
  handler_tasks = 256;
  handler_bytes = 16 * 2 ^ 20;
}

pub record ResourceSnapshot : Type 0 where
  pub connections : ℕ
  pub queued_messages : ℕ
  pub queued_bytes : ℕ
  pub control_messages : ℕ
  pub control_bytes : ℕ
  pub pending_requests : ℕ
  pub handler_tasks : ℕ
  pub handler_bytes : ℕ
  pub overloads : ℕ

abbrev pub no_usage : ResourceSnapshot
no_usage = record {
  connections = 0;
  queued_messages = 0;
  queued_bytes = 0;
  control_messages = 0;
  control_bytes = 0;
  pending_requests = 0;
  handler_tasks = 0;
  handler_bytes = 0;
  overloads = 0;
}

pub record ResourceBudget : Type 0 where
  pub limits : ResourceLimits
  pub usage : ResourceSnapshot

pub data Resource : Type 0 where
  connection request data_frame control handler : Resource

-- A permit belongs to the budget that it is kept beside.
pub record Permit : Type 0 where
  pub resource : Resource
  pub bytes : ℕ

-- `ResourceBudget::new`.
unfoldable pub new_budget : ResourceLimits → ResourceBudget
new_budget limits = record { limits = limits; usage = no_usage }

unfoldable pub snapshot : ResourceBudget → ResourceSnapshot
snapshot b = b.usage

-- The first match of `reserve`. `-` stops at 0, as `saturating_sub` does.
unfoldable pub admitted : ResourceLimits → ResourceSnapshot → Resource → ℕ → Bool
admitted l u connection bytes = ltb u.connections l.connections
admitted l u request bytes = ltb u.pending_requests l.pending_requests
admitted l u data_frame bytes =
    ltb u.queued_messages l.queued_messages && leb bytes (l.queued_bytes - u.queued_bytes)
admitted l u control bytes =
    ltb u.control_messages l.control_messages && leb bytes (l.control_bytes - u.control_bytes)
admitted l u handler bytes =
    ltb u.handler_tasks l.handler_tasks && leb bytes (l.handler_bytes - u.handler_bytes)

-- The second match of `reserve`. A `usize` sum; see Ledger for why it does not wrap.
unfoldable pub charge : ResourceSnapshot → Resource → ℕ → ResourceSnapshot
charge u connection bytes = record u { connections = u.connections + 1 }
charge u request bytes = record u { pending_requests = u.pending_requests + 1 }
charge u data_frame bytes = record u {
  queued_messages = u.queued_messages + 1;
  queued_bytes = u.queued_bytes + bytes;
}
charge u control bytes = record u {
  control_messages = u.control_messages + 1;
  control_bytes = u.control_bytes + bytes;
}
charge u handler bytes = record u {
  handler_tasks = u.handler_tasks + 1;
  handler_bytes = u.handler_bytes + bytes;
}

-- `saturating_add(1)` on a u64.
abbrev pub overloaded : ResourceSnapshot → ResourceSnapshot
overloaded u = record u { overloads = min (u.overloads + 1) (2 ^ 64 - 1) }

-- `ResourceBudget::reserve`.
unfoldable pub reserve :
    {V : Type 0} → ResourceBudget → Resource → ℕ → Result Permit (VcmpError V) × ResourceBudget
reserve b resource bytes =
    if admitted b.limits b.usage resource bytes
    then (
      ok (record { resource = resource; bytes = bytes }),
      record b { usage = charge b.usage resource bytes },
    )
    else (err transport_overloaded, record b { usage = overloaded b.usage })

-- The match of `Drop for Permit`. A subtraction that ran below 0 would wrap or panic; see Ledger.
unfoldable pub discharge : ResourceSnapshot → Permit → ResourceSnapshot
discharge u p = elim p.resource [
  | connection ↦ record u { connections = u.connections - 1 }
  | request ↦ record u { pending_requests = u.pending_requests - 1 }
  | data_frame ↦ record u {
    queued_messages = u.queued_messages - 1;
    queued_bytes = u.queued_bytes - p.bytes;
  }
  | control ↦ record u {
    control_messages = u.control_messages - 1;
    control_bytes = u.control_bytes - p.bytes;
  }
  | handler ↦ record u {
    handler_tasks = u.handler_tasks - 1;
    handler_bytes = u.handler_bytes - p.bytes;
  }
]

-- `Drop for Permit`.
unfoldable pub release : Permit → ResourceBudget → ResourceBudget
release p b = record b { usage = discharge b.usage p }
