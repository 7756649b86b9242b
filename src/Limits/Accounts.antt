-- ===== src/Limits/Accounts.antt =====
-- The books of the admission limits: what the permits and the counters say, against the guards that
-- are alive (crates/cq-transport/src/limits.rs).
use cqserver.Prelude.{
  ℕ, zero, suc, ◌+◌, ◌-◌, ◌≡◌, refl, String, Bool, false, none, some, List, [], ◌∷◌, arith,
  Bool-cases, Option-cases, inl, inr, Eq, ◌==◌, ltb, leb, nat_eq, if◌then◌else◌, Result, ok, err,
  string_eq, length, get_elem?, remove_at,
}
use cqserver.Limits.Tally.{tally}
use cqserver.Limits.Books.{
  Books, empty-Books, skip-Books, take-Books, refuse-Books, drop_skipped-Books, drop-Books,
}
use cqserver.Limits.State.{
  ConnectionLimits, ConnectionGuard, UserSessionGuard, LimitsConfig, RejectReason, permits_of,
  new_limits, check_rate, check_ip, try_accept, drop_connection, try_register_user_session,
  drop_session,
}

-- Whether a session's guard counts for the user.
abbrev pub is_of_user : String → UserSessionGuard → Bool
is_of_user user g = if g.shared then g.user == user else false

-- The guards that are alive after an attempt to take one.
abbrev pub hold : {G : Type 0} → Result G RejectReason → List G → List G
hold (ok g) gs = g ∷ gs
hold (err e) gs = gs

length-remove_at :
    {A : Type 0} (i : ℕ) (xs : List A) (x : A)
    → get_elem? xs i ≡ some x
    → length xs ≡ 1 + length (remove_at i xs)
length-remove_at i [] x e = cc
length-remove_at zero (y ∷ xs) x e = omega arith
length-remove_at (suc i) (y ∷ xs) x e = omega (arith, length-remove_at i xs x e)

module _ {Ip : Type 0} ⦃addresses : Eq Ip⦄ where
  -- Whether a connection's guard counts for the address.
  abbrev pub is_of_ip : Ip → ConnectionGuard Ip → Bool
  is_of_ip ip g = elim g.ip [ none ↦ false | some i ↦ i == ip ]

  -- The books balance, with so many permits taken that no guard holds.
  pub record Accounts (in_hand : ℕ) (l : ConnectionLimits Ip)
      (connections : List (ConnectionGuard Ip)) (sessions : List UserSessionGuard) : Type 0 where
    pub total : l.permits + in_hand + length connections ≡ permits_of l.config.connections_max
    pub ips : Books is_of_ip l.config.per_ip_max l.per_ip connections
    pub users : Books is_of_user l.config.per_user_max l.per_user sessions

  pub new_limits-Accounts :
      (now : ℕ) (config : LimitsConfig) → Accounts 0 (new_limits now config) [] []
  unfolding new_limits
  new_limits-Accounts now config = record {
    total = omega arith;
    ips = empty-Books is_of_ip config.per_ip_max;
    users = empty-Books is_of_user config.per_user_max;
  }

  module _ (l : ConnectionLimits Ip) (cs : List (ConnectionGuard Ip))
      (ss : List UserSessionGuard) where
    check_rate-Accounts : (now : ℕ) → Accounts 0 l cs ss → Accounts 0 (check_rate now l).0 cs ss
    unfolding check_rate
    check_rate-Accounts now a = elim (Bool-cases (ltb 0 l.config.accept_rate_per_sec)) [
      | inl on ↦ rw on (record { total = a.total; ips = a.ips; users = a.users })
      | inr off ↦ rw off a
    ]

    check_ip-Accounts :
        (ip : Ip) → Accounts 1 l cs ss → Accounts 0 (check_ip ip l).0 (hold (check_ip ip l).1 cs) ss
    unfolding check_ip
    check_ip-Accounts ip a = elim (Bool-cases (ltb 0 l.config.per_ip_max)) [
      | inr off ↦ rw off (record {
        total = omega (arith, a.total);
        ips = skip-Books is_of_ip l.config.per_ip_max l.per_ip cs a.ips _ (λ k. refl);
        users = a.users;
      })
      | inl on ↦ elim (Bool-cases (leb l.config.per_ip_max (tally ip l.per_ip))) [
        | inl full ↦
            rw (on, check_ip, full)
              (record {
                total = omega (arith, a.total);
                ips =
                    refuse-Books is_of_ip l.config.per_ip_max l.per_ip cs a.ips ip
                      (ground (arith, on)) (ground (arith, full));
                users = a.users;
              })
        | inr room ↦
            rw (on, check_ip, room)
              (record {
                total = omega (arith, a.total);
                ips =
                    take-Books is_of_ip l.config.per_ip_max l.per_ip cs a.ips ip _ (λ j. refl)
                      (ground (arith, room));
                users = a.users;
              })
      ]
    ]

    pub drop_connection-Accounts :
        (i : ℕ) (g : ConnectionGuard Ip)
        → get_elem? cs i ≡ some g
        → Accounts 0 l cs ss
        → Accounts 0 (drop_connection g l) (remove_at i cs) ss
    unfolding drop_connection
    drop_connection-Accounts i g at a =
        let total : l.permits + 1 + 0 + length (remove_at i cs)
            ≡ permits_of l.config.connections_max =
          omega (arith, a.total, length-remove_at i cs g at) in
        let limit = l.config.per_ip_max in
        elim (Option-cases g.ip) [
          | inl e ↦
              let nobody : (k : Ip) → is_of_ip k g ≡ false = λ k. rw e refl in
              rw e (record {
                total = total;
                ips = drop_skipped-Books is_of_ip limit l.per_ip cs a.ips i g at nobody;
                users = a.users;
              })
          | inr (ip, e) ↦
              let owner : (k : Ip) → is_of_ip k g ≡ (ip == k) = λ k. rw e refl in
              rw e (record {
                total = total;
                ips = drop-Books is_of_ip limit l.per_ip cs a.ips i g at ip owner;
                users = a.users;
              })
        ]

    pub try_register-Accounts :
        (user : String)
        → Accounts 0 l cs ss
        → Accounts 0
            (try_register_user_session user l).0
            cs
            (hold (try_register_user_session user l).1 ss)
    unfolding try_register_user_session
    try_register-Accounts user a =
        let limit = l.config.per_user_max in
        elim (Bool-cases (nat_eq limit 0)) [
          | inl off ↦ rw off (record {
            total = a.total;
            ips = a.ips;
            users = skip-Books is_of_user limit l.per_user ss a.users _ (λ k. refl);
          })
          | inr on ↦ elim (Bool-cases (leb limit (tally user l.per_user))) [
            | inl full ↦
                rw (on, try_register_user_session, full)
                  (record {
                    total = a.total;
                    ips = a.ips;
                    users =
                        refuse-Books is_of_user limit l.per_user ss a.users user
                          (ground (arith, on)) (ground (arith, full));
                  })
            | inr room ↦
                rw (on, try_register_user_session, room)
                  (record {
                    total = a.total;
                    ips = a.ips;
                    users =
                        take-Books is_of_user limit l.per_user ss a.users user _ (λ j. refl)
                          (ground (arith, room));
                  })
          ]
        ]

    pub drop_session-Accounts :
        (i : ℕ) (g : UserSessionGuard)
        → get_elem? ss i ≡ some g
        → Accounts 0 l cs ss
        → Accounts 0 (drop_session g l) cs (remove_at i ss)
    unfolding drop_session
    drop_session-Accounts i g at a =
        let limit = l.config.per_user_max in
        elim (Bool-cases g.shared) [
          | inl e ↦
              let owner : (k : String) → is_of_user k g ≡ (g.user == k) = λ k. rw e refl in
              rw e (record {
                total = a.total;
                ips = a.ips;
                users = drop-Books is_of_user limit l.per_user ss a.users i g at g.user owner;
              })
          | inr e ↦
              let nobody : (k : String) → is_of_user k g ≡ false = λ k. rw e refl in
              rw e (record {
                total = a.total;
                ips = a.ips;
                users = drop_skipped-Books is_of_user limit l.per_user ss a.users i g at nobody;
              })
        ]

  pub try_accept-Accounts :
      (now : ℕ) (ip : Ip) (l : ConnectionLimits Ip) (cs : List (ConnectionGuard Ip))
      (ss : List UserSessionGuard)
      → Accounts 0 l cs ss
      → Accounts 0 (try_accept now ip l).0 (hold (try_accept now ip l).1 cs) ss
  unfolding try_accept
  try_accept-Accounts now ip l cs ss a =
      let l' = (check_rate now l).0 in
      let a' = check_rate-Accounts l cs ss now a in
      elim (Bool-cases (check_rate now l).1) [
        | inr slow ↦ rw slow a'
        | inl admitted ↦ elim (Bool-cases (nat_eq l'.permits 0)) [
          | inl full ↦ rw (admitted, try_accept, full) a'
          | inr room ↦
              let l'' = record l' { permits = l'.permits - 1 } in
              rw (admitted, try_accept, room)
                (check_ip-Accounts l'' cs ss ip (record {
                  total = ground (arith, room, a'.total);
                  ips = a'.ips;
                  users = a'.users;
                }))
        ]
      ]
