-- ===== src/Server/PendingAuth.antt =====
-- server/src/ws.ts: the slots of connections that have not authenticated. A request is a number;
-- the marks that the source writes on it are its entry in `reservations`.
pub mod Exact
use misaka_network.Common.{
  Bool, Option, String, [], false, if◌then◌else◌, leb, nat_keys, none, not, some, string_keys, true,
  ℕ, ◌+◌, ◌-◌,
}
use misaka_network.Common.Dict
use misaka_network.Common.Dict.{Dict}

pub record Reservation : Type 0 where
  pub ip : String
  pub released : Bool
  pub leased : Bool

pub record Pending : Type 0 where
  pub global : ℕ
  pub by_ip : Dict String ℕ
  pub sockets : Dict ℕ Bool
  pub reservations : Dict ℕ Reservation

abbrev pub none_pending : Pending
none_pending = record { global = 0; by_ip = []; sockets = []; reservations = [] }

pub data Admission : Type 0 where
  welcome_in pending_auth_full pending_auth_ip_full : Admission

abbrev pub or_zero : Option ℕ → ℕ
or_zero none = 0
or_zero (some n) = n

abbrev pub at_ip : Pending → String → ℕ
at_ip p ip = or_zero (Dict.get p.by_ip ip)

unfoldable pub check_pending_auth_admission : ℕ → ℕ → Pending → ℕ → String → Pending × Admission
check_pending_auth_admission max_pending max_per_ip p req ip =
    if leb max_pending p.global
    then (p, pending_auth_full)
    else if leb max_per_ip (at_ip p ip)
    then (p, pending_auth_ip_full)
    else (
      record p {
        global = p.global + 1;
        by_ip = Dict.put p.by_ip ip (at_ip p ip + 1);
        reservations =
            Dict.put p.reservations req (record { ip = ip; released = false; leased = true });
      },
      welcome_in,
    )

-- (pendingAuthByIp.get(ip) ?? 1) - 1
abbrev less_one : Option ℕ → ℕ
less_one none = 0
less_one (some n) = n - 1

unfoldable pub lower : Dict String ℕ → String → Dict String ℕ
lower by_ip ip =
    let n = less_one (Dict.get by_ip ip) in
    if leb n 0 then Dict.remove by_ip ip else Dict.put by_ip ip n

abbrev pub spend : Reservation → Reservation
spend r = record r { released = true; leased = false }

-- The slot of a reservation that is not released yet.
unfoldable pub free_slot : Pending → ℕ → Reservation → Pending
unfolding lower
free_slot p req r = record p {
  global = p.global - 1;
  by_ip = lower p.by_ip r.ip;
  reservations = Dict.put p.reservations req (spend r);
}

abbrev pub holds_socket : Pending → Option ℕ → Bool
holds_socket p none = true
holds_socket p (some ws) = Dict.has p.sockets ws

abbrev pub drop_socket : Pending → Option ℕ → Pending
drop_socket p none = p
drop_socket p (some ws) = record p { sockets = Dict.remove p.sockets ws }

abbrev pub unlease : Reservation → Reservation
unlease r = record r { leased = false }

-- By the lease timer without a socket, or by the connection with its own.
unfoldable pub release_pending_auth : Pending → ℕ → Reservation → Option ℕ → Pending
unfolding free_slot
release_pending_auth p req r ws =
    if r.released
    then p
    else if not (holds_socket p ws)
    then record p { reservations = Dict.put p.reservations req (unlease r) }
    else free_slot (drop_socket p ws) req r

unfoldable pub claim_pending_auth_socket : Pending → ℕ → ℕ → Reservation → Pending
claim_pending_auth_socket p ws req r = record p {
  sockets = Dict.put p.sockets ws true;
  reservations = Dict.put p.reservations req (unlease r);
}
