-- ===== src/Storage/Spent.antt =====
-- storage/node/src/storage.rs: which uses of bandwidth a node keeps, and what it does once one of
-- them is spent.
use mathlib.Core.Path.{subst}
use onion_network.Base.{
  ℕ, ◌+◌, ◌%◌, ◌^◌, ◌-◌, ◌<◌, ◌≡◌, ◌≢◌, refl, Bool, true, false, Option, none, some, ◌∷◌, leb, ◌==◌,
  if◌then◌else◌, Bool-cases, inl, inr, arith,
}
use onion_network.Base.Opt.{◌>>=◌, then_some}
use onion_network.Codec.Sum.{Result, ok, err}
use onion_network.Storage.Bandwidths.{
  ClientError, invalid_nonce, already_registered, ProofOf, BandwidthContext, BandwidthUse,
  CompactBandwidthUse, Bandwidths, new_bandwidths, is_exhaused, ensure_that, store, fresh_use,
  register, used, finish, update_allocation, checked_sub, non_zero,
}

abbrev IsLeft : Option (ProofOf BandwidthUse) → Type 0
IsLeft none = Unit {0}
IsLeft (some p) = is_exhaused p.context ≡ false

-- No use that is kept is spent.
abbrev IsOpen : Bandwidths → Type 0
IsOpen b = (id : ℕ) → IsLeft (b.bandwidths id)

store-IsOpen :
    (id : ℕ) (p : ProofOf BandwidthUse) (b : Bandwidths)
    → is_exhaused p.context ≡ false
    → IsOpen b
    → IsOpen (store id p b)
store-IsOpen id p b fresh all j = elim (Bool-cases (id == j)) [
  | inl same ↦ rw same fresh
  | inr other ↦ rw other (all j)
]

finish-IsOpen :
    (id : ℕ) (p : ProofOf BandwidthUse) (b : Bandwidths) → IsOpen b → IsOpen (finish id p b)
finish-IsOpen id p b all = elim (Bool-cases (is_exhaused p.context)) [
  | inl spent ↦ rw spent all
  | inr left ↦ rw left (store-IsOpen id p b left all)
]

-- The state that a call returns, where it returns one.
abbrev AreOpen : Result Bandwidths ClientError → Type 0
AreOpen (ok b) = IsOpen b
AreOpen (err e) = Unit {0}

ensure_that-AreOpen :
    (c : Bool) (e : ClientError) (r : Result Bandwidths ClientError)
    → (c ≡ true → AreOpen r)
    → AreOpen (ensure_that c e r)
ensure_that-AreOpen true e r h = h refl
ensure_that-AreOpen false e r h = tt

abbrev SomeOpen : Option (ℕ × Bandwidths) → Type 0
SomeOpen none = Unit {0}
SomeOpen (some (n, b)) = IsOpen b

bind-SomeOpen :
    {A : Type 0} (o : Option A) (f : A → Option (ℕ × Bandwidths))
    → ((a : A) → SomeOpen (f a))
    → SomeOpen (o >>= f)
bind-SomeOpen none f h = tt
bind-SomeOpen (some a) f h = h a

then_some-SomeOpen : (c : Bool) (n : ℕ) (b : Bandwidths) → IsOpen b → SomeOpen (then_some c (n, b))
then_some-SomeOpen true n b h = h
then_some-SomeOpen false n b h = tt

module _ (check : ProofOf BandwidthContext → Bool) (verify : ProofOf BandwidthUse → Bool) where
  -- The states of a node that starts empty.
  pub data Reaches : Bandwidths → Type 0 where
    start : Reaches new_bandwidths
    registers :
        (issuer : ℕ) (allocation : ProofOf BandwidthContext) (b after : Bandwidths)
        → Reaches b
        → register check issuer allocation b ≡ ok after
        → Reaches after
    updates :
        (issuer n : ℕ) (buse : CompactBandwidthUse) (b after : Bandwidths)
        → Reaches b
        → update_allocation verify issuer buse b ≡ some (n, after)
        → Reaches after

  register-AreOpen :
      (issuer : ℕ) (allocation : ProofOf BandwidthContext) (b : Bandwidths)
      → IsOpen b
      → AreOpen (register check issuer allocation b)
  unfolding register
  register-AreOpen issuer allocation b all = elim (Bool-cases ((allocation.context).amount == 0)) [
    | inl zero_amount ↦ rw zero_amount tt
    | inr amount ↦ elim (Bool-cases ((allocation.context).issuer == (allocation.context).dest)) [
      | inl own ↦ elim (Bool-cases (check allocation)) [
        | inl checked ↦
            rw (amount, own, checked)
              (go (b.bandwidths (allocation.context).issuer) (not_spent amount))
        | inr bad ↦ rw (amount, own, bad) tt
      ]
      | inr other ↦ rw (amount, other) tt
    ]
  ]
    where
      not_spent :
          ((allocation.context).amount == 0) ≡ false
          → is_exhaused (fresh_use issuer allocation).context ≡ false
      not_spent h = ground arith

      go :
          (found : Option (ProofOf BandwidthUse))
          → is_exhaused (fresh_use issuer allocation).context ≡ false
          → AreOpen (elim found as (λ x. Result Bandwidths ClientError) [
            | none ↦ ok (store (allocation.context).issuer (fresh_use issuer allocation) b)
            | some o ↦
                let expected_nonce = (((o.context).proof).nonce + 1) % 2 ^ 64 in
                if is_exhaused o.context
                then ensure_that
                    (expected_nonce == allocation.nonce)
                    (invalid_nonce expected_nonce)
                    (ok (store (allocation.context).issuer (fresh_use issuer allocation) b))
                else err already_registered
          ])
      go none left =
          store-IsOpen (allocation.context).issuer (fresh_use issuer allocation) b left all
      go (some o) left = elim (Bool-cases (is_exhaused o.context)) [
        | inl spent ↦ rw spent (
            ensure_that-AreOpen ((((o.context).proof).nonce + 1) % 2 ^ 64 == allocation.nonce)
              (invalid_nonce ((((o.context).proof).nonce + 1) % 2 ^ 64))
              (ok (store (allocation.context).issuer (fresh_use issuer allocation) b))
              (λ next.
                store-IsOpen (allocation.context).issuer (fresh_use issuer allocation) b left all))
        | inr open_ ↦ rw open_ tt
      ]

  update_allocation-SomeOpen :
      (issuer : ℕ) (buse : CompactBandwidthUse) (b : Bandwidths)
      → IsOpen b
      → SomeOpen (update_allocation verify issuer buse b)
  unfolding update_allocation
  update_allocation-SomeOpen issuer buse b all = bind-SomeOpen (b.bandwidths issuer) _ λ p.
      bind-SomeOpen (checked_sub buse.amount (p.context).amount) _ λ difference.
        bind-SomeOpen (non_zero difference) _ λ allowance.
          then_some-SomeOpen (verify (used buse p)) allowance (finish issuer (used buse p) b)
            (finish-IsOpen issuer (used buse p) b all)

  Reaches-IsOpen : (b : Bandwidths) → Reaches b → IsOpen b
  Reaches-IsOpen b start = λ id. tt
  Reaches-IsOpen b (registers issuer allocation before after reached e) =
      subst AreOpen e (register-AreOpen issuer allocation before (Reaches-IsOpen before reached))
  Reaches-IsOpen b (updates issuer n buse before after reached e) =
      subst SomeOpen e
        (update_allocation-SomeOpen issuer buse before (Reaches-IsOpen before reached))

  -- In every state of a node that starts empty, an allocation that passes the checks is refused
  -- as already registered where its issuer has one, whatever nonce it has.
  pub Reaches-register :
      (issuer : ℕ) (allocation : ProofOf BandwidthContext) (b : Bandwidths)
      (p : ProofOf BandwidthUse)
      → Reaches b
      → b.bandwidths (allocation.context).issuer ≡ some p
      → (allocation.context).amount ≢ 0
      → (allocation.context).issuer ≡ (allocation.context).dest
      → check allocation ≡ true
      → register check issuer allocation b ≡ err already_registered
  unfolding register
  Reaches-register issuer allocation b p reached found some_amount own checked =
      rw (nonzero, self, checked, found, left) refl
    where
      nonzero : ((allocation.context).amount == 0) ≡ false
      nonzero = ground arith

      self : ((allocation.context).issuer == (allocation.context).dest) ≡ true
      self = ground arith

      left : is_exhaused p.context ≡ false
      left = subst IsLeft found (Reaches-IsOpen b reached (allocation.context).issuer)

  -- A use that spends the whole allocation does not change what is kept: the same use is granted
  -- again, with the same allowance, and is entered once more as finished.
  pub update_allocation-again :
      (issuer : ℕ) (buse : CompactBandwidthUse) (b : Bandwidths) (p : ProofOf BandwidthUse)
      → b.bandwidths issuer ≡ some p
      → (p.context).amount < buse.amount
      → buse.amount ≡ (((p.context).proof).context).amount
      → verify (used buse p) ≡ true
      → let once = record b { finished_bandwidths = used buse p ∷ b.finished_bandwidths } in
        let twice = record b {
          finished_bandwidths = used buse p ∷ used buse p ∷ b.finished_bandwidths;
        } in
        let granted = buse.amount - (p.context).amount in
        (update_allocation verify issuer buse b ≡ some (granted, once))
        × (update_allocation verify issuer buse once ≡ some (granted, twice))
  unfolding update_allocation
  update_allocation-again issuer buse b p found more whole checked =
      rw (found, enough, some_left, checked, spent) (refl, refl)
    where
      enough : leb (p.context).amount buse.amount ≡ true
      enough = ground arith

      some_left : (buse.amount - (p.context).amount == 0) ≡ false
      some_left = ground arith

      spent : (buse.amount == (((p.context).proof).context).amount) ≡ true
      spent = ground arith
