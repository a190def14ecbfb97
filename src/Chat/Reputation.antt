-- ===== src/Chat/Reputation.antt =====
-- chat/server/src/reputation.rs: the ratings of the nodes. A map is a function into `Option`, and a
-- signed severity is its sign and its size.
use onion_network.Base.{
  ℕ, ◌+◌, ◌-◌, ◌/◌, ◌^◌, ◌<◌, ◌≤◌, ◌≡◌, refl, min, Option, none, some, Bool, false, List, ◌∷◌, ltb,
  ltb→le, lt→ltb, ◌==◌, Bool-cases, ◌⊎◌, inl, inr, arith, if◌then◌else◌,
}

pub data Severity : Type 0 where
  up : ℕ → Severity
  down : ℕ → Severity

abbrev pub vote_down_trashold : ℕ
vote_down_trashold = 1000

pub record Rep : Type 0 where
  pub ratings : ℕ → Option ℕ
  pub to_punish : List ℕ

-- `u64::saturating_add_signed`
abbrev pub saturating_add_signed : ℕ → Severity → ℕ
saturating_add_signed r (up n) = min (r + n) (2 ^ 64 - 1)
saturating_add_signed r (down n) = r - n

abbrev or_default : Option ℕ → ℕ
or_default none = 0
or_default (some r) = r

abbrev pub set_rating : ℕ → ℕ → (ℕ → Option ℕ) → ℕ → Option ℕ
set_rating id r ratings j = if id == j then some r else ratings j

unfoldable pub rate : ℕ → Severity → Rep → Rep
rate id severity rep =
    let rat = saturating_add_signed (or_default (rep.ratings id)) severity in
    if ltb vote_down_trashold rat
    then record { ratings = set_rating id 0 rep.ratings; to_punish = id ∷ rep.to_punish }
    else record rep { ratings = set_rating id rat rep.ratings }

abbrev is_some_and : (ℕ → Bool) → Option ℕ → Bool
is_some_and p none = false
is_some_and p (some r) = p r

unfoldable pub vote_rep : ℕ → ℕ → Rep → Rep
unfolding rate
vote_rep source target rep =
    if is_some_and (λ r. ltb (vote_down_trashold / 2) r) (rep.ratings source)
    then rep
    else if is_some_and (λ r. ltb r (vote_down_trashold / 2)) (rep.ratings target)
    then rep
    else rate target (up 100) rep

-- No rating is above the threshold.
abbrev pub IsBounded : Rep → Type 0
IsBounded rep = (id r : ℕ) → rep.ratings id ≡ some r → r ≤ vote_down_trashold

set_rating-bounded :
    (ratings : ℕ → Option ℕ) (target new : ℕ)
    → new ≤ vote_down_trashold
    → ((id r : ℕ) → ratings id ≡ some r → r ≤ vote_down_trashold)
    → (id r : ℕ) → set_rating target new ratings id ≡ some r
    → r ≤ vote_down_trashold
set_rating-bounded ratings target new h all id r e = elim (Bool-cases (target == id)) [
  | inl same ↦ let at = rw same at e in ground arith
  | inr other ↦ all id r (rw other at e)
]

rate-IsBounded :
    (rep : Rep) (target : ℕ) (severity : Severity)
    → IsBounded rep
    → IsBounded (rate target severity rep)
unfolding rate
rate-IsBounded rep target severity all =
    elim (Bool-cases
      (ltb vote_down_trashold (saturating_add_signed (or_default (rep.ratings target)) severity))) [
        | inl over ↦ rw over (set_rating-bounded rep.ratings target 0 (omega arith) all)
        | inr within ↦ rw within (set_rating-bounded rep.ratings target _ (ltb→le _ _ within) all)
      ]

vote_rep-IsBounded :
    (rep : Rep) (source target : ℕ) → IsBounded rep → IsBounded (vote_rep source target rep)
unfolding vote_rep
vote_rep-IsBounded rep source target all =
    elim (Bool-cases (is_some_and (λ r. ltb (vote_down_trashold / 2) r) (rep.ratings source))) [
      | inl distrusted ↦ rw distrusted all
      | inr heard ↦
          elim (Bool-cases
            (is_some_and (λ r. ltb r (vote_down_trashold / 2)) (rep.ratings target))) [
              | inl good ↦ rw (heard, good) all
              | inr bad ↦ rw (heard, bad) (rate-IsBounded rep target (up 100) all)
            ]
    ]

-- Where no rating is above the threshold, none is after a node is rated or votes.
pub rate-vote_rep-IsBounded :
    (rep : Rep) (severity : Severity) (source target : ℕ)
    → IsBounded rep
    → (id r : ℕ)
    → ((rate target severity rep).ratings id ≡ some r)
      ⊎ ((vote_rep source target rep).ratings id ≡ some r)
    → r ≤ vote_down_trashold
rate-vote_rep-IsBounded rep severity source target all id r (inl e) =
    rate-IsBounded rep target severity all id r e
rate-vote_rep-IsBounded rep severity source target all id r (inr e) =
    vote_rep-IsBounded rep source target all id r e

-- A vote of a node whose rating is above half of the threshold changes nothing, and neither does a
-- vote on a node that has a rating below that half.
pub vote_rep-ignored :
    (rep : Rep) (source target : ℕ)
    → ((r : ℕ) × (rep.ratings source ≡ some r) × (vote_down_trashold / 2 < r))
      ⊎ ((r : ℕ) × (rep.ratings target ≡ some r) × (r < vote_down_trashold / 2))
    → vote_rep source target rep ≡ rep
unfolding vote_rep
vote_rep-ignored rep source target (inl (r, at, bad)) = rw (at, lt→ltb _ _ bad) refl
vote_rep-ignored rep source target (inr (r, at, good)) =
    elim (Bool-cases (is_some_and (λ r. ltb (vote_down_trashold / 2) r) (rep.ratings source))) [
      | inl distrusted ↦ rw distrusted refl
      | inr heard ↦ rw (heard, at, lt→ltb _ _ good) refl
    ]
