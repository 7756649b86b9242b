-- ===== src/Limits/Tests.antt =====
-- Runs of the admission limits, and the theorems about them at these.
use cqserver.Prelude.{
  ℕ, ◌+◌, ◌≡◌, refl, arith, List, [], ◌∷◌, ◌++◌, string_eq, number_eq, length, min, replicate,
  lookup, insert, remove,
}
use cqserver.Limits.Tally.{tally, lower}
use cqserver.Limits.State.{
  LimitsConfig, RateWindow, ConnectionLimits, permits_of, new_limits, try_admit, try_accept,
  check_rate, check_ip, drop_connection, try_register_user_session, drop_session,
}
use cqserver.Limits.Server.{
  Call, accept, close, logon, logoff, serve, serve_all, new_server, Balanced, serve_all-Balanced,
}
use cqserver.Limits.Refusals.{SameBudget, release, try_accept-SameBudget}
use cqserver.Limits.Rate.{admitted, admitted_lem, admitted_twice}

abbrev tight : LimitsConfig
tight = record { connections_max = 3; per_ip_max = 2; accept_rate_per_sec = 5; per_user_max = 1 }

abbrev busy_day : List (Call ℕ)
busy_day =
    accept 10 7
    ∷ accept 11 7
    ∷ accept 12 7
    ∷ logon "u"
    ∷ logon "u"
    ∷ accept 13 8
    ∷ close 0
    ∷ logoff 0
    ∷ accept 14 9
    ∷ []

serve_all-Balanced_example : Balanced (serve_all busy_day (new_server 5 tight))
serve_all-Balanced_example = serve_all-Balanced 5 tight busy_day

busy_day_runs : length (serve_all busy_day (new_server 5 tight)).connections ≡ 3
unfolding serve_all serve try_accept check_rate try_admit check_ip drop_connection tally lower
    lookup insert remove new_limits permits_of try_register_user_session drop_session
busy_day_runs = refl

abbrev one_permit : ConnectionLimits ℕ
one_permit = record {
  config = tight;
  permits = 1;
  per_ip = (7, 2) ∷ [];
  accept_window = record { window_start_ms = 0; count = 2 };
  per_user = [];
}

try_accept-SameBudget_example :
    SameBudget one_permit (release (try_accept 10 7 one_permit))
    × ((release (try_accept 10 7 one_permit)).accept_window
        ≡ (check_rate 10 one_permit).0.accept_window)
try_accept-SameBudget_example = try_accept-SameBudget 10 7 one_permit

abbrev fresh_window : RateWindow
fresh_window = record { window_start_ms = 100; count = 1 }

admitted_example :
    ((admitted 3 (100 ∷ 200 ∷ 1099 ∷ []) fresh_window).1 ≡ min 3 2)
    × ((admitted 3 (100 ∷ 200 ∷ 1099 ∷ []) fresh_window).0.count ≡ 1 + 3)
    × ((admitted 3 (100 ∷ 200 ∷ 1099 ∷ []) fresh_window).0.window_start_ms ≡ 100)
admitted_example =
    admitted_lem 3 (100 ∷ 200 ∷ 1099 ∷ []) fresh_window
      (omega arith, (omega arith, (omega arith, tt))) (omega arith)

admitted_twice_example :
    (admitted 2
      (replicate 2 1099 ++ replicate 2 1100)
      (record { window_start_ms = 100; count = 0 })).1
    ≡ 4
admitted_twice_example = admitted_twice 2 100 (omega arith)
