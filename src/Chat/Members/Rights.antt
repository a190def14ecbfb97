-- ===== src/Chat/Members/Rights.antt =====
-- No action on the members gives anyone more than the one who acts has.
use onion_network.Base.{
  ℕ, ◌≤◌, ◌≡◌, none, some, Bool, true, ◌==◌, ==_iff, Bool-cases, ◌⊎◌, inl, inr, arith,
}
use mathlib.Core.Path.{subst}
use onion_network.Chat.Members.{
  Permissions, contains, meet, Member, Proof, limited, charge_sender, add_member, kick_member,
  update_member,
}
use onion_network.Codec.Sum.{ok}
use onion_network.Chat.Members.Database.{Store}
use onion_network.Chat.Members.Actions.{
  Acted, sent, added, left, kicked, updated, charged, advanced, charge_sender-Acted,
  add_member-Acted, kick_member-Acted, update_member-Acted,
}

-- `m` may do no more than `top`: its rank is not better, it has no other permission, and it waits
-- as long after an action.
pub record Within (top m : Member) : Type 0 where
  pub below : top.rank ≤ m.rank
  pub subset : contains top.permissions m.permissions ≡ true
  pub slower : top.action_cooldown_ms ≤ m.action_cooldown_ms

meet-contains : (top p q : Permissions) → contains top p ≡ true → contains top (meet q p) ≡ true
meet-contains top p q h = ground arith

-- What a member writes for another is within what it has itself.
pub limited-Within : (top m asked : Member) → Within top m → Within top (limited m asked)
unfolding limited
limited-Within top m asked w = record {
  below = omega (arith, w.below);
  subset = meet-contains top.permissions m.permissions asked.permissions w.subset;
  slower = omega (arith, w.slower);
}

module _ (S : Store Member) (verify : Proof → Bool) (hash : ℕ → ℕ) where
  pub put_cases :
      (k j : ℕ) (v : Member) (db : S.Db) {m : Member}
      → S.get j (S.put k v db) ≡ some m
      → ((k ≡ j) × (v ≡ m)) ⊎ (S.get j db ≡ some m)
  put_cases k j v db e = elim (Bool-cases (k == j)) [
    | inl same ↦
        let key : k ≡ j = (==_iff k j).0 same in
        let there : S.get k (S.put k v db) ≡ some v = S.get-put k v db in
        inl (key, let found = rw (← key, there) at e in cc)
    | inr apart ↦ inr (rw (← S.get-put_other k j v db (λ at. ground arith)) e)
  ]

  pub del_cases :
      (k j : ℕ) (db : S.Db) {m : Member} → S.get j (S.del k db) ≡ some m → S.get j db ≡ some m
  del_cases k j db e = elim (Bool-cases (k == j)) [
    | inl same ↦
        let at : k ≡ j = (==_iff k j).0 same in
        let gone : S.get k (S.del k db) ≡ none = S.get-del k db in
        absurd (let e' = rw (← at, gone) at e in ground arith)
    | inr apart ↦ rw (← S.get-del_other k j db (λ at. ground arith)) e
  ]

  -- Every member is within `top`.
  abbrev pub IsWithin : Member → S.Db → Type 0
  IsWithin top db = (id : ℕ) (m : Member) → S.get id db ≡ some m → Within top m

  put-IsWithin :
      (top v : Member) (k : ℕ) (db : S.Db)
      → Within top v
      → IsWithin top db
      → IsWithin top (S.put k v db)
  put-IsWithin top v k db w all id m e = elim (put_cases k id v db e) [
    | inl (at, is) ↦ subst (Within top) is w
    | inr old ↦ all id m old
  ]

  del-IsWithin : (top : Member) (k : ℕ) (db : S.Db) → IsWithin top db → IsWithin top (S.del k db)
  del-IsWithin top k db all id m e = all id m (del_cases k id db e)

  charged-IsWithin :
      (top m : Member) (now : ℕ) (by : Proof) (db : S.Db)
      → Within top m
      → IsWithin top db
      → IsWithin top (S.put (hash by.pk) (charged now by m) db)
  charged-IsWithin top m now by db w all =
      put-IsWithin top (charged now by m) (hash by.pk) db
        (record { below = w.below; subset = w.subset; slower = w.slower }) all

  advanced-IsWithin :
      (top m : Member) (by : Proof) (db : S.Db)
      → Within top m
      → IsWithin top db
      → IsWithin top (S.put (hash by.pk) (advanced by m) db)
  advanced-IsWithin top m by db w all =
      put-IsWithin top (advanced by m) (hash by.pk) db
        (record { below = w.below; subset = w.subset; slower = w.slower }) all

  Acted-IsWithin :
      (top : Member) (by : Proof) (db : S.Db) {db' : S.Db}
      → Acted S verify hash by db db'
      → IsWithin top db
      → IsWithin top db'
  Acted-IsWithin top by db (sent now m s may) all =
      charged-IsWithin top m now by db (all _ m s.found) all
  Acted-IsWithin top by db (added now m id asked s may absent) all =
      put-IsWithin top (limited m asked) id _ (limited-Within top m asked (all _ m s.found))
        (charged-IsWithin top m now by db (all _ m s.found) all)
  Acted-IsWithin top by db (left m s) all =
      del-IsWithin top (hash by.pk) _ (advanced-IsWithin top m by db (all _ m s.found) all)
  Acted-IsWithin top by db (kicked now m id victim s may present lower) all =
      del-IsWithin top id _ (charged-IsWithin top m now by db (all _ m s.found) all)
  Acted-IsWithin top by db (updated m id old asked s present lower) all =
      put-IsWithin top (limited m asked) id _ (limited-Within top m asked (all _ m s.found))
        (advanced-IsWithin top m by db (all _ m s.found) all)

  -- The databases that requests lead to; one that ends in an error leaves the database as it is.
  pub data Reaches (db : S.Db) : S.Db → Type 0 where
    here : Reaches db db
    sends :
        {mid : S.Db} (now : ℕ) (by : Proof) {db' : S.Db}
        → Reaches db mid
        → charge_sender S verify hash now by mid ≡ ok db'
        → Reaches db db'
    adds :
        {mid : S.Db} (now : ℕ) (by : Proof) (id : ℕ) (asked : Member) {db' : S.Db}
        → Reaches db mid
        → add_member S verify hash now by id asked mid ≡ ok db'
        → Reaches db db'
    kicks :
        {mid : S.Db} (now : ℕ) (by : Proof) (id : ℕ) {db' : S.Db}
        → Reaches db mid
        → kick_member S verify hash now by id mid ≡ ok db'
        → Reaches db db'
    updates :
        {mid : S.Db} (by : Proof) (id : ℕ) (asked : Member) {db' : S.Db}
        → Reaches db mid
        → update_member S verify hash by id asked mid ≡ ok db'
        → Reaches db db'

  Reaches-IsWithin :
      (top : Member) {db db' : S.Db} → IsWithin top db → Reaches db db' → IsWithin top db'
  Reaches-IsWithin top all here = all
  Reaches-IsWithin top all (sends {mid} now by r e) =
      Acted-IsWithin top by mid (charge_sender-Acted S verify hash now by mid e)
        (Reaches-IsWithin top all r)
  Reaches-IsWithin top all (adds {mid} now by id asked r e) =
      Acted-IsWithin top by mid (add_member-Acted S verify hash now by id asked mid e)
        (Reaches-IsWithin top all r)
  Reaches-IsWithin top all (kicks {mid} now by id r e) =
      Acted-IsWithin top by mid (kick_member-Acted S verify hash now by id mid e)
        (Reaches-IsWithin top all r)
  Reaches-IsWithin top all (updates {mid} by id asked r e) =
      Acted-IsWithin top by mid (update_member-Acted S verify hash by id asked mid e)
        (Reaches-IsWithin top all r)

  -- Where every member of a chat is within `top`, so is every member after any sequence of
  -- successful sends, additions, kicks and updates, whatever the requests ask for.
  pub Reaches-Within :
      (top : Member) (db db' : S.Db)
      → IsWithin top db
      → Reaches db db'
      → (id : ℕ) (m : Member) → S.get id db' ≡ some m
      → Within top m
  Reaches-Within top db db' all reaches = Reaches-IsWithin top all reaches
