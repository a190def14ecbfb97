-- ===== src/Chat/Members/Inversion.antt =====
-- What must have held where the steps of an action succeed.
use onion_network.Base.{ℕ, ◌+◌, ◌%◌, ◌^◌, ◌<◌, ◌≡◌, refl, Option, none, some, Bool, true, arith}
use onion_network.Codec.Sum.{Result, ok, err}
use onion_network.Chat.Errors.{ChatError, ◌>>=◌, ensure, context}
use onion_network.Chat.Members.{
  Permissions, contains, Member, Proof, allocate_action, advance_to, advance_nonce, settle,
  begin_action,
}
use onion_network.Chat.Members.Database.{Store}

pub bind_ok {ℓ} :
    {A B : Type 0} {C : Type ℓ} (r : Result A ChatError) (f : A → Result B ChatError) {b : B}
    → (r >>= f) ≡ ok b
    → ((a : A) → r ≡ ok a → f a ≡ ok b → C)
    → C
bind_ok (ok a) f e k = k a refl e
bind_ok (err x) f e k = absurd (ground arith)

pub ensure_ok : (b : Bool) (x : ChatError) {u : Unit {0}} → ensure b x ≡ ok u → b ≡ true
ensure_ok b x e = ground arith

pub context_ok : {A : Type 0} (o : Option A) {a : A} → context o ≡ ok a → o ≡ some a
context_ok (some a) e = cc
context_ok none e = ground arith

advance_nonce_ok : (old to : ℕ) {n : ℕ} → advance_nonce old to ≡ ok n → (old < to) × (n ≡ to)
unfolding advance_nonce advance_to
advance_nonce_ok old to e = ground arith

-- The member of the proof before the action, and after its nonce is advanced.
pub record Began (S : Store Member) (verify : Proof → Bool) (hash : ℕ → ℕ) (by : Proof) (db : S.Db)
    (m : Member) : Type 0 where
  pub old : Member
  pub verified : verify by ≡ true
  pub found : S.get (hash by.pk) db ≡ some old
  pub newer : old.action < by.nonce
  pub advanced : m ≡ record old { action = by.nonce }

module _ (S : Store Member) (verify : Proof → Bool) (hash : ℕ → ℕ) where
  pub began :
      (by : Proof) (db : S.Db) {m : Member}
      → begin_action S verify hash by db ≡ ok m
      → Began S verify hash by db m
  unfolding begin_action
  began by db e = bind_ok (ensure (verify by) _) _ e (λ u v e1.
      bind_ok (context (S.get (hash by.pk) db)) _ e1 (λ old f e2.
        bind_ok (advance_nonce old.action by.nonce) _ e2 (λ n a e3.
          let (newer, at) = advance_nonce_ok old.action by.nonce a in
          record {
            old = old;
            verified = ensure_ok (verify by) _ v;
            found = context_ok _ f;
            newer = newer;
            advanced = cc;
          })))

-- A member that was charged for its action.
pub settle_ok :
    (now : ℕ) (p : Permissions) (m : Member) {c : Member}
    → settle (allocate_action now p m) ≡ ok c
    → (m.frozen_until < now)
      × (contains m.permissions p ≡ true)
      × (c ≡ record m { frozen_until = (now + m.action_cooldown_ms) % 2 ^ 64 })
unfolding allocate_action
settle_ok now p m e = ground arith
