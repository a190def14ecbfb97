-- ===== src/Chat/Consensus/Answers.antt =====
-- chat/server/src/api.rs: what `Repl::call` answers, and when it starts a recovery.
use onion_network.Base.{
  ℕ, zero, suc, ◌/◌, ◌<◌, ◌≤◌, ◌≡◌, ◌≢◌, ◌↔◌, ◌⊎◌, refl, sym, ap, ◌∙◌, Bool, true, false, Option,
  none, some, List, [], ◌∷◌, ◌++◌, length, All, ltb, ◌==◌, ==_refl, if◌then◌else◌, Bool-cases, inl,
  inr, arith,
}
use mathlib.Core.Path.{subst}
use onion_network.Codec.Sum.{Result, ok, err}
use onion_network.Chat.Errors.{ChatError, ongoing_recovery, no_majority}
use onion_network.Chat.Equality.{
  same_answer, is_limited, same_answer_refl, same_answer-equal, same_answer-equal_right,
}
use mathlib.Core.Option.{some-injective}
use onion_network.Chat.Blocks.{replication_factor}
use onion_network.Chat.Reputation.{Rep}
use onion_network.Chat.Consensus.{
  Recoveries, start_recovery, has_item, same_peers, retain_others, Tally, tally_round, tally_loop,
  tally, is_sent_directly, decide, repl_call,
}
use onion_network.Chat.Consensus.Majority.{
  agreeing, IsSharp, length-same_peers, tally_loop-agreeing, tally_loop-picks,
}

-- A decision on the responses is an answer that more than half of five nodes give, counting those
-- that are the same as it, or one of the two errors; and where so many nodes give an answer that
-- is not a wait, it is that answer.
abbrev pub IsDecision :
    {O : Type 0} → (O → O → Bool) → Result O ChatError → List (ℕ × Result O ChatError) → Type 0
IsDecision {O = O} same_ok answer resps =
    ((2 < agreeing (same_answer same_ok) answer resps)
      ⊎ ((answer ≡ err ongoing_recovery) ⊎ (answer ≡ err no_majority)))
    × ((a : Result O ChatError)
        → (is_limited a ≡ true) ⊎ ((agreeing (same_answer same_ok) a resps ≤ 2) ⊎ (answer ≡ a)))

module _ {O : Type 0} (same_ok : O → O → Bool)
    (same_ok_iff : (a b : O) → (same_ok a b ≡ true) ↔ (a ≡ b)) (local topic : ℕ)
    (us : Result O ChatError) (others : List (ℕ × Result O ChatError)) (rep : Rep)
    (recoveries : Recoveries) where
  abbrev same : Result O ChatError → Result O ChatError → Bool
  same = same_answer same_ok

  itself : (a : Result O ChatError) → same a a ≡ true
  itself = same_answer_refl same_ok same_ok_iff

  limited-IsSharp : (a : Result O ChatError) → is_limited a ≡ false → IsSharp same itself a
  limited-IsSharp a other b = (
    same_answer-equal same_ok same_ok_iff a b other,
    same_answer-equal_right same_ok same_ok_iff a b other,
  )

  abbrev responses : List (ℕ × Result O ChatError)
  responses = (local, us) ∷ others

  abbrev end : Tally same
  end = tally same local topic responses rep recoveries

  errs :
      (recovering : Bool)
      → (decide {O = O} recovering none ≡ err ongoing_recovery)
        ⊎ (decide {O = O} recovering none ≡ err no_majority)
  errs true = inl refl
  errs false = inr refl

  -- An answer with a majority is picked, unless it is a wait.
  picked_majority :
      (pick : Option (Result O ChatError))
      → end.pick ≡ pick
      → length others ≤ 4
      → (a : Result O ChatError) → is_limited a ≡ false
      → 2 < agreeing same a responses
      → pick ≡ some a
  picked_majority pick e group a other most =
      sym e
      ∙ tally_loop-picks same itself local topic (length responses) responses _ a
          (limited-IsSharp a other) (omega (arith, group)) (omega arith) most

  decide-IsDecision :
      length others ≤ 4 → IsDecision same_ok (decide end.recovering end.pick) responses
  decide-IsDecision group = go end.pick refl
    where
      each :
          (pick : Option (Result O ChatError))
          → end.pick ≡ pick
          → (answer : Result O ChatError) → ((a : Result O ChatError) → pick ≡ some a → answer ≡ a)
          → (a : Result O ChatError)
          → (is_limited a ≡ true) ⊎ ((agreeing same a responses ≤ 2) ⊎ (answer ≡ a))
      each pick e answer same_pick a = elim (Bool-cases (is_limited a)) [
        | inl limited ↦ inl limited
        | inr other ↦ elim (Bool-cases (ltb 2 (agreeing same a responses))) [
          | inr few ↦ inr (inl (ground (arith, few)))
          | inl most ↦
              inr (inr (same_pick a (picked_majority pick e group a other (ground (arith, most)))))
        ]
      ]

      clash : (answer a : Result O ChatError) → none ≡ some a → answer ≡ a
      clash answer a f = cc

      go :
          (pick : Option (Result O ChatError))
          → end.pick ≡ pick
          → IsDecision same_ok (decide end.recovering end.pick) responses
      go none e =
          subst (λ o. IsDecision same_ok (decide end.recovering o) responses) (sym e)
            (inr (errs end.recovering), each none e _ (clash _))
      go (some b) e =
          subst (λ o. IsDecision same_ok (decide end.recovering o) responses) (sym e)
            (
              inl (
                  most (
                    tally_loop-agreeing same itself local topic (length responses) responses _ b
                      e)),
              each (some b) e b (λ a f. some-injective _ _ f),
            )
        where
          most : (none ≡ some b) ⊎ (2 < agreeing same b responses) → 2 < agreeing same b responses
          most (inl f) = cc
          most (inr m) = m

  repl_call-decides :
      is_sent_directly us ≡ false
      → repl_call same_ok local topic us (ok others) rep recoveries
        ≡ (decide end.recovering end.pick, end.rep, end.recoveries)
  unfolding repl_call
  repl_call-decides kept = rw (repl_call, kept) refl

  -- For answers whose values are compared exactly, and at most five nodes: what `Repl::call` answers
  -- is an answer that, of five nodes, more than half give or give one that is the same as it, where
  -- waits up to three seconds apart are the same; or it is the error that a recovery goes on or that
  -- there is no majority. Where more than half of five give an answer that is not a wait, it is that
  -- answer. A mail that this node handed to its reader is left out.
  pub repl_call-IsDecision :
      is_sent_directly us ≡ false
      → length others ≤ 4
      → IsDecision same_ok
          ((repl_call same_ok local topic us (ok others) rep recoveries).0)
          ((local, us) ∷ others)
  repl_call-IsDecision kept group =
      subst (λ r. IsDecision same_ok (r.0) responses) (sym (repl_call-decides kept))
        (decide-IsDecision group)

  -- After the round of this node's own answer the recoveries stay as they are.
  same_peers-elsewhere :
      (base : Result O ChatError) (resps : List (ℕ × Result O ChatError))
      → All (λ r. r.0 ≢ local) resps
      → has_item local (same_peers same base resps) ≡ false
  same_peers-elsewhere base [] apart = refl
  same_peers-elsewhere base ((p, other) ∷ resps) (first, apart) =
      elim (Bool-cases (same base other)) [
        | inl e ↦
            rw e (any_last (same_peers same base resps) (same_peers-elsewhere base resps apart))
        | inr e ↦ rw e (same_peers-elsewhere base resps apart)
      ]
    where
      any_last :
          (peers : List ℕ)
          → has_item local peers ≡ false
          → has_item local (peers ++ (p ∷ [])) ≡ false
      any_last [] e = ground (arith, first)
      any_last (q ∷ peers) e = elim (Bool-cases (q == local)) [
        | inl here ↦ absurd (let at = rw here at e in ground (arith, at))
        | inr there ↦ rw there (any_last peers (let at = rw there at e in at))
      ]

  retain_others-elsewhere :
      (base : Result O ChatError) (resps : List (ℕ × Result O ChatError))
      → All (λ r. r.0 ≢ local) resps
      → All (λ r. r.0 ≢ local) (retain_others same base resps)
  retain_others-elsewhere base [] apart = tt
  retain_others-elsewhere base ((p, other) ∷ resps) (first, apart) =
      elim (Bool-cases (same base other)) [
        | inl e ↦ rw e (retain_others-elsewhere base resps apart)
        | inr e ↦ rw e (first, retain_others-elsewhere base resps apart)
      ]

  tally_round-elsewhere :
      (peer : ℕ) (base : Result O ChatError) (resps : List (ℕ × Result O ChatError))
      (t : Tally same)
      → All (λ r. r.0 ≢ local) ((peer, base) ∷ resps)
      → (tally_round same local topic peer base resps t).recoveries ≡ t.recoveries
  unfolding tally_round
  tally_round-elsewhere peer base resps t (first, apart) =
      elim (Bool-cases
        (ltb (replication_factor / 2) (length (peer ∷ same_peers same base resps)))) [
          | inl most ↦ rw (tally_round, most) refl
          | inr few ↦ rw (tally_round, few, absent) refl
        ]
    where
      absent : has_item local (peer ∷ same_peers same base resps) ≡ false
      absent = rw (same_peers-elsewhere base resps apart) (ground (arith, first))

  tally_loop-elsewhere :
      (fuel : ℕ) (resps : List (ℕ × Result O ChatError)) (t : Tally same)
      → All (λ r. r.0 ≢ local) resps
      → (tally_loop same fuel local topic resps t).recoveries ≡ t.recoveries
  unfolding tally_loop
  tally_loop-elsewhere zero resps t apart = refl
  tally_loop-elsewhere (suc fuel) [] t apart = refl
  tally_loop-elsewhere (suc fuel) ((peer, base) ∷ resps) t (first, apart) =
      tally_loop-elsewhere fuel (retain_others same base resps)
        (tally_round same local topic peer base resps t) (retain_others-elsewhere base resps apart)
      ∙ tally_round-elsewhere peer base resps t (first, apart)

  own-tally_round :
      (t : Tally same)
      → (tally_round same local topic local us others t).recoveries ≡ (
          if ltb 2 (agreeing same us ((local, us) ∷ others))
          then t.recoveries
          else (start_recovery topic t.recoveries).1)
  unfolding tally_round
  own-tally_round t =
      by_length
      ∙ ap (λ n. if ltb 2 n then t.recoveries else (start_recovery topic t.recoveries).1) counted
    where
      own : ℕ
      own = suc (length (same_peers same us others))

      counted : own ≡ agreeing same us ((local, us) ∷ others)
      counted = rw (itself us) (omega (arith, length-same_peers same itself us others))

      by_length :
          (tally_round same local topic local us others t).recoveries
          ≡ (if ltb 2 own then t.recoveries else (start_recovery topic t.recoveries).1)
      by_length = elim (Bool-cases (ltb 2 own)) [
        | inl most ↦ rw (tally_round, most) refl
        | inr few ↦ rw (tally_round, few, ==_refl local) refl
      ]

  -- A node starts the recovery of a topic exactly where at most two of the answers, its own among
  -- them, are the same as its own, where waits up to three seconds apart are the same; given that
  -- the other responses are those of other nodes.
  pub repl_call-recovers :
      is_sent_directly us ≡ false
      → All (λ r. r.0 ≢ local) others
      → (repl_call same_ok local topic us (ok others) rep recoveries).2 ≡ (
          if ltb 2 (agreeing same us ((local, us) ∷ others))
          then recoveries
          else (start_recovery topic recoveries).1)
  unfolding tally_loop
  repl_call-recovers kept apart =
      ap (λ r. r.2) (repl_call-decides kept)
      ∙ tally_loop-elsewhere (length others) (retain_others same us others) _
          (retain_others-elsewhere us others apart)
      ∙ own_round
    where
      begin : Tally same
      begin = record { recovering = false; pick = none; rep = rep; recoveries = recoveries }

      own_round : (tally_round same local topic local us others begin).recoveries ≡ (
          if ltb 2 (agreeing same us ((local, us) ∷ others))
          then recoveries
          else (start_recovery topic recoveries).1)
      own_round = own-tally_round begin
