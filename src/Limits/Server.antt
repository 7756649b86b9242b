-- ===== src/Limits/Server.antt =====
-- A server that admits connections and sessions and lets them go, in any order: who is alive, and the
-- books over the whole run (crates/cq-transport/src/limits.rs).
use cqserver.Prelude.{
  ℕ, String, none, some, List, [], ◌∷◌, Option-cases, inl, inr, Eq, get_elem?, remove_at,
}
use cqserver.Limits.State.{
  ConnectionLimits, ConnectionGuard, UserSessionGuard, LimitsConfig, new_limits, try_accept,
  drop_connection, try_register_user_session, drop_session,
}
use cqserver.Limits.Accounts.{
  hold, Accounts, new_limits-Accounts, try_accept-Accounts, drop_connection-Accounts,
  try_register-Accounts, drop_session-Accounts,
}

-- The limits, and the guards that are held: a guard is dropped once, in any order.
pub record Server (Ip : Type 0) : Type 0 where
  pub limits : ConnectionLimits Ip
  pub connections : List (ConnectionGuard Ip)
  pub sessions : List UserSessionGuard

pub data Call (Ip : Type 0) : Type 0 where
  accept : ℕ → Ip → Call Ip
  close : ℕ → Call Ip
  logon : String → Call Ip
  logoff : ℕ → Call Ip

module _ {Ip : Type 0} ⦃addresses : Eq Ip⦄ where
  unfoldable pub serve : Call Ip → Server Ip → Server Ip
  serve (accept now ip) s =
      let (l, r) = try_accept now ip s.limits in
      record s { limits = l; connections = hold r s.connections }
  serve (close i) s = elim (get_elem? s.connections i) [
    | none ↦ s
    | some g ↦ record s {
      limits = drop_connection g s.limits;
      connections = remove_at i s.connections;
    }
  ]
  serve (logon user) s =
      let (l, r) = try_register_user_session user s.limits in
      record s { limits = l; sessions = hold r s.sessions }
  serve (logoff i) s = elim (get_elem? s.sessions i) [
    | none ↦ s
    | some g ↦ record s { limits = drop_session g s.limits; sessions = remove_at i s.sessions }
  ]

  unfoldable pub serve_all : List (Call Ip) → Server Ip → Server Ip
  serve_all [] s = s
  serve_all (c ∷ cs) s = serve_all cs (serve c s)

  -- A server before its first connection.
  abbrev pub new_server : ℕ → LimitsConfig → Server Ip
  new_server now config = record { limits = new_limits now config; connections = []; sessions = [] }

  abbrev pub Balanced : Server Ip → Type 0
  Balanced s = Accounts 0 s.limits s.connections s.sessions

  serve-Balanced : (c : Call Ip) (s : Server Ip) → Balanced s → Balanced (serve c s)
  unfolding serve
  serve-Balanced (accept now ip) s a =
      try_accept-Accounts now ip s.limits s.connections s.sessions a
  serve-Balanced (close i) s a = elim (Option-cases (get_elem? s.connections i)) [
    | inl e ↦ rw (e, serve) a
    | inr (g, e) ↦
        rw (e, serve) (drop_connection-Accounts s.limits s.connections s.sessions i g e a)
  ]
  serve-Balanced (logon user) s a = try_register-Accounts s.limits s.connections s.sessions user a
  serve-Balanced (logoff i) s a = elim (Option-cases (get_elem? s.sessions i)) [
    | inl e ↦ rw (e, serve) a
    | inr (g, e) ↦ rw (e, serve) (drop_session-Accounts s.limits s.connections s.sessions i g e a)
  ]

  run-Balanced : (cs : List (Call Ip)) (s : Server Ip) → Balanced s → Balanced (serve_all cs s)
  unfolding serve_all
  run-Balanced [] s a = a
  run-Balanced (c ∷ cs) s a = run-Balanced cs (serve c s) (serve-Balanced c s a)

  -- After any sequence of accepts, closes, logons and logoffs, the permits that are left and the
  -- connections alive add up to the configured number; the count of every address and of every user
  -- is the number of its living guards, which respects the cap unless the cap is zero; and no count
  -- of zero is kept.
  pub serve_all-Balanced :
      (now : ℕ) (config : LimitsConfig) (cs : List (Call Ip))
      → Balanced (serve_all cs (new_server now config))
  serve_all-Balanced now config cs =
      run-Balanced cs (new_server now config) (new_limits-Accounts now config)
