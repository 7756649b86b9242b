-- ===== src/Limits/Refusals.antt =====
-- What a refused connection costs, and that a connection gives back what it took
-- (crates/cq-transport/src/limits.rs).
use cqserver.Prelude.{
  ℕ, ◌+◌, ◌-◌, ◌≡◌, refl, ◌∙◌, arith, Bool-cases, inl, inr, Eq, ltb, leb, nat_eq, Result, ok, err,
  insert,
}
use cqserver.Limits.Tally.{tally, tally-insert, tally-lower, tally-same}
use cqserver.Limits.State.{
  ConnectionLimits, ConnectionGuard, RejectReason, check_rate, check_ip, try_accept,
  drop_connection, connections_for_ip,
}

module _ {Ip : Type 0} ⦃addresses : Eq Ip⦄ where
  -- The same permits and the same counts.
  pub record SameBudget (l l' : ConnectionLimits Ip) : Type 0 where
    pub permits : l'.permits ≡ l.permits
    pub by_ip : (ip : Ip) → connections_for_ip ip l' ≡ connections_for_ip ip l
    pub by_user : l'.per_user ≡ l.per_user

  check_rate-SameBudget : (now : ℕ) (l : ConnectionLimits Ip) → SameBudget l (check_rate now l).0
  unfolding check_rate connections_for_ip
  check_rate-SameBudget now l = elim (Bool-cases (ltb 0 l.config.accept_rate_per_sec)) [
    | inl on ↦ rw on (record { permits = refl; by_ip = λ ip. refl; by_user = refl })
    | inr off ↦ rw off (record { permits = refl; by_ip = λ ip. refl; by_user = refl })
  ]

  -- A guard that was taken is dropped again; a refusal leaves nothing to drop.
  abbrev pub release :
      ConnectionLimits Ip × Result (ConnectionGuard Ip) RejectReason → ConnectionLimits Ip
  release (l, ok g) = drop_connection g l
  release (l, err why) = l

  check_ip-SameBudget :
      (ip : Ip) (l : ConnectionLimits Ip)
      → SameBudget (record l { permits = l.permits + 1 }) (release (check_ip ip l))
  unfolding check_ip drop_connection connections_for_ip
  check_ip-SameBudget ip l =
      let n = tally ip l.per_ip in
      elim (Bool-cases (ltb 0 l.config.per_ip_max)) [
        | inr off ↦ rw off (record { permits = refl; by_ip = λ j. refl; by_user = refl })
        | inl on ↦ elim (Bool-cases (leb l.config.per_ip_max n)) [
          | inl full ↦
              rw (on, check_ip, full)
                (record {
                  permits = refl;
                  by_ip =
                      λ j. ground (arith, tally-insert ip j n l.per_ip, tally-same ip j l.per_ip);
                  by_user = refl;
                })
          | inr room ↦
              rw (on, check_ip, room)
                (record {
                  permits = refl;
                  by_ip = λ j. ground (
                    arith,
                    tally-lower ip j (insert ip (n + 1) l.per_ip),
                    tally-insert ip j (n + 1) l.per_ip,
                    tally-same ip j l.per_ip,
                  );
                  by_user = refl;
                })
        ]
      ]

  accepted-SameBudget :
      (now : ℕ) (ip : Ip) (l : ConnectionLimits Ip) → SameBudget l (release (try_accept now ip l))
  unfolding try_accept connections_for_ip
  accepted-SameBudget now ip l =
      let l' = (check_rate now l).0 in
      let rated = check_rate-SameBudget now l in
      elim (Bool-cases (check_rate now l).1) [
        | inr slow ↦ rw slow rated
        | inl admitted ↦ elim (Bool-cases (nat_eq l'.permits 0)) [
          | inl full ↦ rw (admitted, try_accept, full) rated
          | inr room ↦
              let same = check_ip-SameBudget ip (record l' { permits = l'.permits - 1 }) in
              rw (admitted, try_accept, room)
                (record {
                  permits = ground (arith, room, same.permits, rated.permits);
                  by_ip = λ j. same.by_ip j ∙ rated.by_ip j;
                  by_user = same.by_user ∙ rated.by_user;
                })
        ]
      ]

  check_ip-window :
      (ip : Ip) (l : ConnectionLimits Ip)
      → (release (check_ip ip l)).accept_window ≡ l.accept_window
  unfolding check_ip drop_connection
  check_ip-window ip l = ground arith

  -- A connection that is refused, for whatever reason, costs nothing but its place in the
  -- accept-rate window, and one that is accepted gives back what else it took when it closes: the
  -- permits and the counts are as before the attempt, and the window is as the rate check, which comes
  -- first, leaves it.
  pub try_accept-SameBudget :
      (now : ℕ) (ip : Ip) (l : ConnectionLimits Ip)
      → SameBudget l (release (try_accept now ip l))
        × ((release (try_accept now ip l)).accept_window ≡ (check_rate now l).0.accept_window)
  unfolding try_accept
  try_accept-SameBudget now ip l =
      let l' = (check_rate now l).0 in
      (
        accepted-SameBudget now ip l,
        ground (arith, check_ip-window ip (record l' { permits = l'.permits - 1 })),
      )
