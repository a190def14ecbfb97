-- ===== src/Storage/Guards.antt =====
-- storage/satelite/src/storage.rs: which requests a satelite grants.
use onion_network.Base.{
  ℕ, zero, suc, ◌+◌, ◌-◌, ◌%◌, ◌^◌, ◌<◌, ◌≤◌, ◌≡◌, refl, ◌∙◌, Bool, true, false, none, some, List,
  [], ◌∷◌, set, get_elem?, ltb, if◌then◌else◌, Bool-cases, le→ltb, lt→ltb, ==_refl, inl, inr, ◌⊎◌,
  arith,
}
use onion_network.Chat.Members.{advance_to}
use onion_network.Codec.Sum.{SocketAddr}
use onion_network.Chat.Members.Database.{Store}
use onion_network.Storage.Nodes.{
  NodeProfile, NodeProfiles, Returned, returned, write, find_profile, gc_of, addr_of, gc_cooldown,
  next_nonce, request_gc, update_addr,
}
use onion_network.Storage.Files.{save, load, delete}

pub get_elem?-set :
    {A : Type 0} (xs : List A) (i : ℕ) (old new : A)
    → get_elem? xs i ≡ some old
    → get_elem? (set xs i new) i ≡ some new
get_elem?-set [] i old new found = absurd (ground arith)
get_elem?-set (x ∷ xs) zero old new found = refl
get_elem?-set (x ∷ xs) (suc i) old new found = get_elem?-set xs i old new found

pub find_profile-found :
    {A : Type 0} (identity id : ℕ) (p : NodeProfiles) (profile : NodeProfile) (missing : Returned A)
    (f : ℕ → NodeProfile → Returned A)
    → p.identity_to_id identity ≡ some id
    → get_elem? p.records id ≡ some profile
    → find_profile identity p missing f ≡ f id profile
find_profile-found identity id p profile missing f found there =
    rw (find_profile, found, there) refl

-- The record that a granted request for garbage collection leaves.
abbrev collected : ℕ → NodeProfile → NodeProfile
collected now profile = record profile { last_requested_gc = now; nonce = next_nonce profile.nonce }

-- A request for garbage collection with the next nonce is granted where the last one is at least
-- an hour ago. On the state that it leaves, every request of the node within the next hour is
-- refused and changes nothing, whatever nonce it has.
pub request_gc-waits :
    (p : NodeProfiles) (profile : NodeProfile) (identity id now later nonce : ℕ)
    → p.identity_to_id identity ≡ some id
    → get_elem? p.records id ≡ some profile
    → profile.last_requested_gc + gc_cooldown ≤ now
    → now ≤ later
    → later < now + gc_cooldown
    → later < 2 ^ 64
    → let after = write id (collected now profile) p in
      (request_gc now identity (next_nonce profile.nonce) p ≡ returned (some id, after))
      × (request_gc later identity nonce after ≡ returned (none, after))
unfolding request_gc gc_of
request_gc-waits p profile identity id now later nonce found there ago order soon fits = (
  find_profile-found identity id p profile _ _ found there ∙ granted,
  find_profile-found identity id (write id (collected now profile) p) (collected now profile) _ _
        found (get_elem?-set p.records id profile (collected now profile) there)
      ∙ refused,
)
  where
    old : ltb ((now + 2 ^ 64 - profile.last_requested_gc) % 2 ^ 64) gc_cooldown ≡ false
    old = le→ltb _ gc_cooldown (omega (arith, ago, order, fits))

    new : ltb ((later + 2 ^ 64 - now) % 2 ^ 64) gc_cooldown ≡ true
    new = lt→ltb _ gc_cooldown (omega (arith, order, soon, fits))

    granted :
        gc_of now (next_nonce profile.nonce) p id profile
        ≡ returned (some id, write id (collected now profile) p)
    granted = rw (gc_of, old, ==_refl (next_nonce profile.nonce)) refl

    refused :
        gc_of later nonce (write id (collected now profile) p) id (collected now profile)
        ≡ returned (none, write id (collected now profile) p)
    refused = rw (gc_of, new) refl

-- The answer to a change of address is the opposite of what the nonce allows: with a new nonce it
-- is refused, the nonce is used up and the address stays; with a nonce that was used already it
-- is granted and the address is changed.
pub update_addr-inverted :
    (p : NodeProfiles) (profile : NodeProfile) (identity id nonce : ℕ) (addr : SocketAddr)
    → p.identity_to_id identity ≡ some id
    → get_elem? p.records id ≡ some profile
    → ((profile.nonce < nonce)
        × (update_addr identity nonce addr p
            ≡ returned (false, write id (record profile { nonce = nonce }) p)))
      ⊎ ((nonce ≤ profile.nonce)
          × (update_addr identity nonce addr p
              ≡ returned (
                true,
                write id (record profile { nonce = next_nonce profile.nonce; addr = addr }) p,
              )))
unfolding update_addr addr_of advance_to
update_addr-inverted p profile identity id nonce addr found there =
    elim (Bool-cases (ltb profile.nonce nonce)) [
      | inl newer ↦
          inl
            (ground arith, find_profile-found identity id p profile _ _ found there ∙ rw newer refl)
      | inr older ↦
          inr
            (ground arith, find_profile-found identity id p profile _ _ found there ∙ rw older refl)
    ]

-- A key that is not there is saved with its value, and a second save of the key changes nothing.
-- What is loaded is the first value, and a deletion whose guard that value does not pass changes
-- nothing, while one whose guard it passes takes the key out.
pub save-load-delete :
    {V : Type 0} (S : Store V) (k : ℕ) (first second : V) (guard : V → Bool) (db : S.Db)
    → S.get k db ≡ none
    → let saved = S.put k first db in
      (save S k first db ≡ (true, saved))
      × (save S k second saved ≡ (false, saved))
      × (load S k saved ≡ some first)
      × (delete S k guard saved ≡ (if guard first then (true, S.del k saved) else (false, saved)))
      × (load S k (S.del k saved) ≡ none)
unfolding save delete
save-load-delete S k first second guard db empty = (
  rw (save, empty) refl,
  rw (save, S.get-put k first db) refl,
  S.get-put k first db,
  rw (delete, S.get-put k first db) refl,
  S.get-del k (S.put k first db),
)
