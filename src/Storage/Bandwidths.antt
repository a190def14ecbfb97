-- ===== src/Storage/Bandwidths.antt =====
-- storage/node/src/storage.rs: `Bandwidths`, and the types of storage/spec/src/lib.rs that it
-- keeps. A hash map is a function into `Option`; the checks of signatures are parameters.
use onion_network.Base.{
  ℕ, ◌+◌, ◌-◌, ◌%◌, ◌^◌, Bool, true, false, not, Option, none, some, List, [], ◌∷◌, leb, ◌==◌,
  if◌then◌else◌,
}
use onion_network.Base.Opt.{◌>>=◌, then_some}
use onion_network.Codec.Sum.{Result, ok, err}

pub data ClientError : Type 0 where
  not_enought_nodes : ClientError
  internal_error : ClientError
  not_allowed : ClientError
  already_registered : ClientError
  invalid_proof : ClientError
  you_won_the_lottery : ClientError
  not_found : ClientError
  invalid_nonce : ℕ → ClientError
  not_registered : ClientError
  channel_closed : ClientError
  timeout : ClientError
  invalid_response : ClientError

-- `Proof` of crypto/crypto/src/proof.rs with its context.
pub record ProofOf (A : Type 0) : Type 0 where
  pub pk : ℕ
  pub nonce : ℕ
  pub signature : ℕ
  pub context : A

pub record BandwidthContext : Type 0 where
  pub dest : ℕ
  pub issuer : ℕ
  pub amount : ℕ

pub record BandwidthUse : Type 0 where
  pub proof : ProofOf BandwidthContext
  pub amount : ℕ

pub record CompactBandwidthUse : Type 0 where
  pub signature : ℕ
  pub amount : ℕ

pub record Bandwidths : Type 0 where
  pub bandwidths : ℕ → Option (ProofOf BandwidthUse)
  pub finished_bandwidths : List (ProofOf BandwidthUse)

abbrev pub is_exhaused : BandwidthUse → Bool
is_exhaused spent = spent.amount == ((spent.proof).context).amount

abbrev pub new_bandwidths : Bandwidths
new_bandwidths = record { bandwidths = λ id. none; finished_bandwidths = [] }

abbrev pub ensure_that :
    {A : Type 0} → Bool → ClientError → Result A ClientError → Result A ClientError
ensure_that true e r = r
ensure_that false e r = err e

abbrev pub store : ℕ → ProofOf BandwidthUse → Bandwidths → Bandwidths
store id p b = record b { bandwidths = λ j. if id == j then some p else b.bandwidths j }

abbrev pub checked_sub : ℕ → ℕ → Option ℕ
checked_sub a b = then_some (leb b a) (a - b)

abbrev pub non_zero : ℕ → Option ℕ
non_zero a = then_some (not (a == 0)) a

abbrev pub fresh_use : ℕ → ProofOf BandwidthContext → ProofOf BandwidthUse
fresh_use issuer allocation = record {
  pk = issuer;
  nonce = 0;
  signature = allocation.signature;
  context = record { proof = allocation; amount = 0 };
}

module _ (verify : ProofOf BandwidthContext → Bool) where
  -- An error leaves the state as it was.
  unfoldable pub register :
      ℕ → ProofOf BandwidthContext → Bandwidths → Result Bandwidths ClientError
  register issuer allocation b =
      let context = allocation.context in
      let poof = fresh_use issuer allocation in
      ensure_that (not (context.amount == 0)) invalid_proof (
        ensure_that (context.issuer == context.dest) invalid_proof (
          ensure_that (verify allocation) invalid_proof (elim (b.bandwidths context.issuer) [
            | none ↦ ok (store context.issuer poof b)
            | some o ↦
                let expected_nonce = (((o.context).proof).nonce + 1) % 2 ^ 64 in
                if is_exhaused o.context
                then ensure_that (expected_nonce == allocation.nonce) (invalid_nonce expected_nonce)
                    (ok (store context.issuer poof b))
                else err already_registered
          ])))

abbrev pub used : CompactBandwidthUse → ProofOf BandwidthUse → ProofOf BandwidthUse
used buse old = record old {
  signature = buse.signature;
  context = record (old.context) { amount = buse.amount };
}

abbrev pub finish : ℕ → ProofOf BandwidthUse → Bandwidths → Bandwidths
finish issuer new_bandwidth b =
    if is_exhaused new_bandwidth.context
    then record b { finished_bandwidths = new_bandwidth ∷ b.finished_bandwidths }
    else store issuer new_bandwidth b

module _ (verify : ProofOf BandwidthUse → Bool) where
  -- Where there is no result, the state is as it was.
  unfoldable pub update_allocation : ℕ → CompactBandwidthUse → Bandwidths → Option (ℕ × Bandwidths)
  update_allocation issuer buse b = do
    bandwidth ← b.bandwidths issuer
    difference ← checked_sub buse.amount (bandwidth.context).amount
    allowance ← non_zero difference
    then_some (verify (used buse bandwidth)) (allowance, finish issuer (used buse bandwidth) b)
