-- ===== src/Chat/Consensus/Majority.antt =====
-- chat/server/src/api.rs: `Repl::call` answers what most of the nodes of a chat answer.
use onion_network.Base.{
  ℕ, zero, suc, ◌+◌, ◌/◌, ◌<◌, ◌≤◌, ◌≡◌, ◌≢◌, ◌⊎◌, refl, sym, ap, ◌∙◌, Bool, true, false, some,
  List, [], ◌∷◌, length, length-append, ltb, if◌then◌else◌, Bool-cases, inl, inr, arith,
}
use mathlib.Core.Path.{subst}
use mathlib.Core.Option.{some-injective}
use onion_network.Chat.Blocks.{replication_factor}
use onion_network.Chat.Consensus.{
  has_item, outvoted, same_peers, retain_others, Tally, tally_round, tally_loop,
}

module _ {A : Type 0} (same : A → A → Bool) where
  -- How many responses are the same as an answer.
  abbrev pub agreeing : A → List (ℕ × A) → ℕ
  agreeing base [] = 0
  agreeing base ((p, other) ∷ resps) = (if same base other then 1 else 0) + agreeing base resps

module _ {A : Type 0} (same : A → A → Bool) (itself : (a : A) → same a a ≡ true) where
  pub length-same_peers :
      (base : A) (resps : List (ℕ × A))
      → length (same_peers same base resps) ≡ agreeing same base resps
  length-same_peers base [] = refl
  length-same_peers base ((p, other) ∷ resps) = elim (Bool-cases (same base other)) [
    | inl e ↦ rw e (
        omega (
          arith,
          length-same_peers base resps,
          length-append (same_peers same base resps) (p ∷ []),
        ))
    | inr e ↦ rw e (omega (arith, length-same_peers base resps))
  ]

  length-retain_others :
      (base : A) (resps : List (ℕ × A))
      → length (retain_others same base resps) + agreeing same base resps ≡ length resps
  length-retain_others base [] = omega arith
  length-retain_others base ((p, other) ∷ resps) = elim (Bool-cases (same base other)) [
    | inl e ↦ rw e (omega (arith, length-retain_others base resps))
    | inr e ↦ rw e (omega (arith, length-retain_others base resps))
  ]

  agreeing-least : (base : A) (resps : List (ℕ × A)) → agreeing same base resps ≤ length resps
  agreeing-least base resps = omega (arith, length-retain_others base resps)

  agreeing-retain_others_least :
      (b base : A) (resps : List (ℕ × A))
      → agreeing same base (retain_others same b resps) ≤ agreeing same base resps
  agreeing-retain_others_least b base [] = omega arith
  agreeing-retain_others_least b base ((p, other) ∷ resps) = elim (Bool-cases (same b other)) [
    | inl e ↦ rw e (omega (arith, agreeing-retain_others_least b base resps))
    | inr e ↦ rw e (omega (arith, agreeing-retain_others_least b base resps))
  ]

  -- No other answer is the same as this one.
  abbrev pub IsSharp : A → Type 0
  IsSharp base = (b : A) → (same base b ≡ true → base ≡ b) × (same b base ≡ true → base ≡ b)

  not_both :
      (b base other : A) → IsSharp base → b ≢ base → same b other ≡ true → same base other ≡ false
  not_both b base other sharp apart e = elim (Bool-cases (same base other)) [
    | inl also ↦ absurd (apart (sym ((sharp b).1 (ap (same b) ((sharp other).0 also) ∙ e))))
    | inr no_more ↦ no_more
  ]

  agreeing-retain_others :
      (b base : A) (resps : List (ℕ × A))
      → IsSharp base
      → b ≢ base
      → agreeing same base (retain_others same b resps) ≡ agreeing same base resps
  agreeing-retain_others b base [] sharp apart = refl
  agreeing-retain_others b base ((p, other) ∷ resps) sharp apart =
      elim (Bool-cases (same b other)) [
        | inl e ↦
            rw (e, not_both b base other sharp apart e)
              (omega (arith, agreeing-retain_others b base resps sharp apart))
        | inr e ↦ rw e (omega (arith, agreeing-retain_others b base resps sharp apart))
      ]

  module _ (local topic : ℕ) where
    outvoted-pick :
        (others : List ℕ) (t : Tally same) → (outvoted same local topic others t).pick ≡ t.pick
    outvoted-pick others t = elim (Bool-cases (has_item local others)) [
      | inl e ↦ rw e refl
      | inr e ↦ rw e refl
    ]

    -- What a round picks.
    round-picks :
        (peer : ℕ) (base : A) (resps : List (ℕ × A)) (t : Tally same)
        → 2 < suc (agreeing same base resps)
        → (tally_round same local topic peer base resps t).pick ≡ some base
    unfolding tally_round
    round-picks peer base resps t most = rw (tally_round, majority) refl
      where
        majority : ltb (replication_factor / 2) (suc (length (same_peers same base resps))) ≡ true
        majority = ground (arith, most, length-same_peers base resps)

    round-passes :
        (peer : ℕ) (base : A) (resps : List (ℕ × A)) (t : Tally same)
        → suc (agreeing same base resps) ≤ 2
        → (tally_round same local topic peer base resps t).pick ≡ t.pick
    unfolding tally_round
    round-passes peer base resps t few =
        rw (tally_round, minority) (outvoted-pick (peer ∷ same_peers same base resps) t)
      where
        minority : ltb (replication_factor / 2) (suc (length (same_peers same base resps))) ≡ false
        minority = ground (arith, few, length-same_peers base resps)

    -- What is picked is what was, or has a majority.
    pub tally_loop-agreeing :
        (fuel : ℕ) (resps : List (ℕ × A)) (t : Tally same) (base : A)
        → (tally_loop same fuel local topic resps t).pick ≡ some base
        → (t.pick ≡ some base) ⊎ (2 < agreeing same base resps)
    unfolding tally_loop
    tally_loop-agreeing zero resps t base e = inl e
    tally_loop-agreeing (suc fuel) [] t base e = inl e
    tally_loop-agreeing (suc fuel) ((peer, b) ∷ resps) t base e = from (
        tally_loop-agreeing fuel (retain_others same b resps)
          (tally_round same local topic peer b resps t) base e)
      where
        rounds :
            (tally_round same local topic peer b resps t).pick ≡ some base
            → (t.pick ≡ some base) ⊎ (2 < agreeing same base ((peer, b) ∷ resps))
        rounds now = elim (Bool-cases (ltb 2 (suc (agreeing same b resps)))) [
          | inl most ↦
              let same_answer : b ≡ base =
                some-injective _ _
                  (sym (round-picks peer b resps t (ground (arith, most))) ∙ now) in
              inr (
                subst (λ a. 2 < agreeing same a ((peer, b) ∷ resps)) same_answer
                  (rw (itself b) (ground (arith, most))))
          | inr few ↦ inl (sym (round-passes peer b resps t (ground (arith, few))) ∙ now)
        ]

        from :
            ((tally_round same local topic peer b resps t).pick ≡ some base)
              ⊎ (2 < agreeing same base (retain_others same b resps))
            → (t.pick ≡ some base) ⊎ (2 < agreeing same base ((peer, b) ∷ resps))
        from (inl now) = rounds now
        from (inr later) = inr (omega (arith, later, agreeing-retain_others_least b base resps))

    -- Where two responses are left, nothing else is picked.
    tally_loop-stays :
        (fuel : ℕ) (resps : List (ℕ × A)) (t : Tally same)
        → length resps ≤ 2
        → (tally_loop same fuel local topic resps t).pick ≡ t.pick
    unfolding tally_loop
    tally_loop-stays zero resps t few = refl
    tally_loop-stays (suc fuel) [] t few = refl
    tally_loop-stays (suc fuel) ((peer, b) ∷ resps) t few =
        tally_loop-stays fuel (retain_others same b resps)
          (tally_round same local topic peer b resps t)
          (omega (arith, few, length-retain_others b resps))
        ∙ round-passes peer b resps t (omega (arith, few, agreeing-least b resps))

    pub tally_loop-picks :
        (fuel : ℕ) (resps : List (ℕ × A)) (t : Tally same) (base : A)
        → IsSharp base
        → length resps ≤ 5
        → length resps ≤ fuel
        → 2 < agreeing same base resps
        → (tally_loop same fuel local topic resps t).pick ≡ some base
    unfolding tally_loop
    tally_loop-picks zero resps t base sharp group enough most =
        absurd (omega (arith, enough, most, agreeing-least base resps))
    tally_loop-picks (suc fuel) [] t base sharp group enough most = absurd (omega (arith, most))
    tally_loop-picks (suc fuel) ((peer, b) ∷ resps) t base sharp group enough most =
        elim (Bool-cases (same base b)) [
          | inl e ↦
              let most_here : 2 < suc (agreeing same b resps) =
                subst (λ a. 2 < suc (agreeing same a resps)) ((sharp b).0 e)
                  (let at = rw e at most in omega (arith, at)) in
              tally_loop-stays fuel (retain_others same b resps)
                (tally_round same local topic peer b resps t)
                (omega (arith, group, most_here, length-retain_others b resps))
              ∙ round-picks peer b resps t most_here
              ∙ ap some (sym ((sharp b).0 e))
          | inr e ↦
              tally_loop-picks fuel (retain_others same b resps)
                (tally_round same local topic peer b resps t) base sharp
                (omega (arith, group, length-retain_others b resps))
                (omega (arith, enough, length-retain_others b resps))
                (let at = rw e at most in
                  omega (arith, at, agreeing-retain_others b base resps sharp (apart e)))
        ]
      where
        apart : same base b ≡ false → b ≢ base
        apart e f =
            absurd (let both = sym e ∙ ap (same base) f ∙ itself base in ground (arith, both))
