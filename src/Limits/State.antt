-- ===== src/Limits/State.antt =====
-- The limits, the guards that they hand out, and the operations on them (`ConnectionLimits`,
-- `RateWindow`, `ConnectionGuard` and `UserSessionGuard` in crates/cq-transport/src/limits.rs). `now`
-- is the clock's reading in milliseconds; addresses are any type with an equality test.
use cqserver.Prelude.{
  ℕ, ◌+◌, ◌-◌, ◌%◌, ◌^◌, ◌/◌, String, Bool, true, false, Option, none, some, [], not, Eq, ltb, leb,
  nat_eq, if◌then◌else◌, Assoc, insert, Result, ok, err, string_eq,
}
use cqserver.Limits.Tally.{tally, lower}

pub data RejectReason : Type 0 where
  max_connections max_connections_per_ip accept_rate max_sessions_per_user : RejectReason

unfoldable pub as_str : RejectReason → String
as_str max_connections = "max_connections"
as_str max_connections_per_ip = "max_connections_per_ip"
as_str accept_rate = "accept_rate_per_sec"
as_str max_sessions_per_user = "max_sessions_per_user"

pub record LimitsConfig : Type 0 where
  pub connections_max : ℕ
  pub per_ip_max : ℕ
  pub accept_rate_per_sec : ℕ
  pub per_user_max : ℕ

abbrev pub default_limits : LimitsConfig
default_limits = record {
  connections_max = 10000;
  per_ip_max = 0;
  accept_rate_per_sec = 0;
  per_user_max = 0;
}

pub record RateWindow : Type 0 where
  pub window_start_ms : ℕ
  pub count : ℕ

-- One accept under a limit of so many a second, and whether it is admitted.
unfoldable pub try_admit : ℕ → ℕ → RateWindow → RateWindow × Bool
try_admit now limit w =
    let rolled =
      if leb 1000 (now - w.window_start_ms)
      then record { window_start_ms = now; count = 0 }
      else w in
    (record rolled { count = (rolled.count + 1) % 2 ^ 64 }, ltb rolled.count limit)

-- The number of permits of the semaphore; zero stands for `usize::MAX >> 4`.
unfoldable pub permits_of : ℕ → ℕ
permits_of n = if nat_eq n 0 then (2 ^ 64 - 1) / 16 else n

-- A session's guard releases the shared count, unless the cap was off when it was made.
pub record UserSessionGuard : Type 0 where
  pub user : String
  pub shared : Bool

pub record ConnectionLimits (Ip : Type 0) : Type 0 where
  pub config : LimitsConfig
  pub permits : ℕ
  pub per_ip : Assoc Ip ℕ
  pub accept_window : RateWindow
  pub per_user : Assoc String ℕ

-- Holds a permit, and counts for its address where that is limited.
pub record ConnectionGuard (Ip : Type 0) : Type 0 where
  pub ip : Option Ip

module _ {Ip : Type 0} where
  unfoldable pub new_limits : ℕ → LimitsConfig → ConnectionLimits Ip
  new_limits now config = record {
    config = config;
    permits = permits_of config.connections_max;
    per_ip = [];
    accept_window = record { window_start_ms = now; count = 0 };
    per_user = [];
  }

  -- The first check of `try_accept`.
  unfoldable pub check_rate : ℕ → ConnectionLimits Ip → ConnectionLimits Ip × Bool
  check_rate now l =
      if ltb 0 l.config.accept_rate_per_sec
      then (let (w, admitted) = try_admit now l.config.accept_rate_per_sec l.accept_window in
          (record l { accept_window = w }, admitted))
      else (l, true)

  unfoldable pub try_register_user_session :
      String → ConnectionLimits Ip → ConnectionLimits Ip × Result UserSessionGuard RejectReason
  try_register_user_session user l =
      if nat_eq l.config.per_user_max 0
      then (l, ok (record { user = user; shared = false }))
      else (let n = tally user l.per_user in
          if leb l.config.per_user_max n
          then (record l { per_user = insert user n l.per_user }, err max_sessions_per_user)
          else (
            record l { per_user = insert user (n + 1) l.per_user },
            ok (record { user = user; shared = true }),
          ))

  unfoldable pub drop_session : UserSessionGuard → ConnectionLimits Ip → ConnectionLimits Ip
  drop_session g l = if g.shared then record l { per_user = lower g.user l.per_user } else l

  unfoldable pub sessions_for_user : String → ConnectionLimits Ip → ℕ
  sessions_for_user user l = tally user l.per_user

  module _ ⦃addresses : Eq Ip⦄ where
    unfoldable pub connections_for_ip : Ip → ConnectionLimits Ip → ℕ
    connections_for_ip ip l = tally ip l.per_ip

    -- The last check of `try_accept`, with the permit in hand; a refusal returns it.
    unfoldable pub check_ip :
        Ip → ConnectionLimits Ip → ConnectionLimits Ip × Result (ConnectionGuard Ip) RejectReason
    check_ip ip l =
        if ltb 0 l.config.per_ip_max
        then (let n = tally ip l.per_ip in
            if leb l.config.per_ip_max n
            then (
              record l { permits = l.permits + 1; per_ip = insert ip n l.per_ip },
              err max_connections_per_ip,
            )
            else (record l { per_ip = insert ip (n + 1) l.per_ip }, ok (record { ip = some ip })))
        else (l, ok (record { ip = none }))

    unfoldable pub try_accept :
        ℕ
        → Ip
        → ConnectionLimits Ip
        → ConnectionLimits Ip × Result (ConnectionGuard Ip) RejectReason
    unfolding check_rate check_ip
    try_accept now ip l =
        let (l', admitted) = check_rate now l in
        if not admitted
        then (l', err accept_rate)
        else (if nat_eq l'.permits 0
            then (l', err max_connections)
            else check_ip ip (record l' { permits = l'.permits - 1 }))

    unfoldable pub drop_connection : ConnectionGuard Ip → ConnectionLimits Ip → ConnectionLimits Ip
    drop_connection g l = record l {
      permits = l.permits + 1;
      per_ip = elim g.ip [ none ↦ l.per_ip | some ip ↦ lower ip l.per_ip ];
    }
