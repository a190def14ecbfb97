-- ===== src/Chat/Blocks/Votes.antt =====
-- A node votes once on a block, and a block is accepted by a majority only.
use onion_network.Base.{
  ℕ, ◌+◌, ◌/◌, ◌<◌, ◌≤◌, ◌≡◌, refl, ◌∙◌, Option, none, some, Bool, true, false, not, List, [], ◌∷◌,
  ◌++◌, length, ltb, ltb→lt, leb, ◌==◌, ==_refl, le→ltb, Bool-cases, Option-cases, lt→leb, ◌⊎◌, inl,
  inr, arith, if◌then◌else◌,
}
use mathlib.Core.Path.{ap, subst}
use onion_network.Codec.Sum.{Result, ok, err}
use onion_network.Chat.Errors.{ChatError, already_voted}
use onion_network.Chat.Blocks.{
  replication_factor, absent, BlockProposal, fresh, take_proposal, try_resolve, Handle, entry,
  insert, contains_id, accept_block, bit, settle_vote, vote,
}

entry-insert :
    (hash : ℕ) (p d : BlockProposal) (m : List (ℕ × BlockProposal))
    → entry hash d (insert hash p m) ≡ p
entry-insert hash p d [] = rw (==_refl hash) refl
entry-insert hash p d (e ∷ m) = elim (Bool-cases (hash == e.0)) [
  | inl same ↦ rw (same, same) refl
  | inr other ↦ rw (other, other) (entry-insert hash p d m)
]

insert-insert :
    (hash : ℕ) (p : BlockProposal) (m : List (ℕ × BlockProposal))
    → insert hash p (insert hash p m) ≡ insert hash p m
insert-insert hash p [] = rw (==_refl hash) refl
insert-insert hash p (e ∷ m) = elim (Bool-cases (hash == e.0)) [
  | inl same ↦ rw (same, same) refl
  | inr other ↦ rw (other, other) (ap (λ r. e ∷ r) (insert-insert hash p m))
]

contains_id-append : (id : ℕ) (xs : List ℕ) → contains_id id (xs ++ (id ∷ [])) ≡ true
contains_id-append id [] = rw (==_refl id) refl
contains_id-append id (x ∷ xs) = elim (Bool-cases (id == x)) [
  | inl same ↦ rw same refl
  | inr other ↦ rw other (contains_id-append id xs)
]

-- The proposal with the vote.
abbrev pub counted : ℕ → Bool → BlockProposal → BlockProposal
counted origin agrees p = record {
  number = p.number;
  yes = p.yes + bit agrees;
  no = p.no + bit (not agrees);
  proposal = p.proposal;
  votes = p.votes ++ (origin ∷ []);
}

-- No decision, a rejection, or the proposed block with a majority for it.
data Decision (p : BlockProposal)
    : BlockProposal × Option (Option (Result ℕ (List ℕ))) → Type 0 where
  undecided : Decision p (p, none)
  rejected : replication_factor / 2 < p.no → Decision p (p, some none)
  accepted :
      (block : Result ℕ (List ℕ))
      → replication_factor / 2 < p.yes
      → take_proposal p.proposal ≡ some block
      → Decision p (record p { proposal = absent }, some (some block))

no_majority-Decision :
    (p : BlockProposal)
    → Decision p (p, if ltb (replication_factor / 2) p.no then some none else none)
no_majority-Decision p = elim (Bool-cases (ltb (replication_factor / 2) p.no)) [
  | inl most ↦ rw most (rejected (ltb→lt _ _ most))
  | inr few ↦ rw few undecided
]

try_resolve-Decision : (p : BlockProposal) → Decision p (try_resolve p)
unfolding try_resolve
try_resolve-Decision p = elim (Bool-cases (ltb (replication_factor / 2) p.yes)) [
  | inl most ↦ elim (Option-cases (take_proposal p.proposal)) [
    | inl none_there ↦ rw (most, none_there) (no_majority-Decision p)
    | inr (block, there) ↦ rw (most, there) (accepted block (ltb→lt _ _ most) there)
  ]
  | inr few ↦ rw few (no_majority-Decision p)
]

some_injective : {A : Type 0} {a b : A} → some a ≡ some b → a ≡ b
some_injective e = cc

-- What a vote does to the root and the file.
abbrev pub Outcome : ℕ → ℕ → BlockProposal → Handle → Handle × Result (Unit {0}) ChatError → Type 0
Outcome bn hash p h (h', res) =
    ((h'.root ≡ h.root) × (h'.blocks ≡ h.blocks))
    ⊎ ((block : Result ℕ (List ℕ)) × (q : BlockProposal) × (replication_factor / 2 < p.yes)
        × (take_proposal p.proposal ≡ some block)
        × ((h', res) ≡ accept_block hash bn block (record h { voting = insert hash q h.voting })))

settle_vote-Outcome :
    (bn hash : ℕ) (p : BlockProposal) (h : Handle)
    {d : BlockProposal × Option (Option (Result ℕ (List ℕ)))}
    → Decision p d
    → Outcome bn hash p h (settle_vote bn hash d h)
unfolding settle_vote
settle_vote-Outcome bn hash p h undecided = inl (refl, refl)
settle_vote-Outcome bn hash p h (rejected most) = inl (refl, refl)
settle_vote-Outcome bn hash p h (accepted block most there) =
    inr (block, record p { proposal = absent }, most, there, refl)

settle_few :
    (bn hash : ℕ) (p : BlockProposal) (h : Handle)
    → p.yes ≤ replication_factor / 2
    → settle_vote bn hash (try_resolve p) h ≡ (record h { voting = insert hash p h.voting }, ok tt)
unfolding settle_vote try_resolve
settle_few bn hash p h few = elim (Bool-cases (ltb (replication_factor / 2) p.no)) [
  | inl most ↦ rw (le→ltb (replication_factor / 2) p.yes few, most) refl
  | inr less ↦ rw (le→ltb (replication_factor / 2) p.yes few, less) refl
]

vote_again :
    (origin bn hash : ℕ) (h : Handle) (p : BlockProposal) (m : List (ℕ × BlockProposal))
    → h.voting ≡ insert hash p m
    → p.number ≡ bn
    → contains_id origin p.votes ≡ true
    → (agrees : Bool) → vote origin bn hash agrees h ≡ some (h, err already_voted)
unfolding vote
vote_again origin bn hash h p m e number voted agrees =
    let stands : entry hash (fresh bn) h.voting ≡ p = rw e (entry-insert hash p (fresh bn) m) in
    let same : (p.number == bn) ≡ true = rw number (==_refl bn) in
    let put : insert hash p h.voting ≡ h.voting = rw e (insert-insert hash p m) in
    rw (stands, same, voted, put, vote) refl

module _ (origin bn hash : ℕ) (agrees : Bool) (h : Handle) where
  abbrev found : BlockProposal
  found = entry hash (fresh bn) h.voting

  abbrev opened : Handle
  opened = record h { voting = insert hash found h.voting }

  vote_counts :
      found.number ≡ bn
      → contains_id origin found.votes ≡ false
      → length found.votes < replication_factor
      → vote origin bn hash agrees h
        ≡ some (settle_vote bn hash (try_resolve (counted origin agrees found)) opened)
  unfolding vote
  vote_counts number new room =
      let same : (found.number == bn) ≡ true = rw number (==_refl bn) in
      rw (same, new, lt→leb _ _ room, vote)

  by_some :
      {d d' : Handle × Result (Unit {0}) ChatError}
      → some d ≡ some d'
      → Outcome bn hash (counted origin agrees found) opened d
      → Outcome bn hash (counted origin agrees found) opened d'
  by_some e o =
      let same = some_injective e in
      subst (Outcome bn hash (counted origin agrees found) opened) same o

  -- Unless the vote panics, it leaves the root and the file as they are, or more than half of
  -- the replicas agree with this vote counted, the proposal has a block, and what is left is
  -- what accepting that block leaves.
  pub vote-accepts :
      (h' : Handle) (res : Result (Unit {0}) ChatError)
      → vote origin bn hash agrees h ≡ some (h', res)
      → Outcome bn hash (counted origin agrees found) opened (h', res)
  unfolding vote
  vote-accepts h' res e = elim (Bool-cases (found.number == bn)) [
    | inr other ↦ (let at = rw (other, vote) at e in by_some at (inl (refl, refl)))
    | inl same ↦ elim (Bool-cases (contains_id origin found.votes)) [
      | inl again ↦ (let at = rw (same, again, vote) at e in by_some at (inl (refl, refl)))
      | inr new ↦ elim (Bool-cases (leb replication_factor (length found.votes))) [
        | inl full ↦ (let at = rw (same, new, full, vote) at e in absurd (ground arith))
        | inr room ↦
            (let at = rw (same, new, room, vote) at e in
              by_some at (
                settle_vote-Outcome bn hash (counted origin agrees found) opened
                  (try_resolve-Decision (counted origin agrees found))))
      ]
    ]
  ]

  -- A vote on a matching number by a node that has not voted, with fewer than four votes so far and
  -- without a majority for the block, is counted, and neither root nor file change; a
  -- second vote of the node on the block, for or against, is an error and changes nothing.
  pub vote-once :
      found.number ≡ bn
      → contains_id origin found.votes ≡ false
      → length found.votes < replication_factor
      → found.yes + bit agrees ≤ replication_factor / 2
      → (h' : Handle) × (vote origin bn hash agrees h ≡ some (h', ok tt))
        × (h'.root ≡ h.root)
        × (h'.blocks ≡ h.blocks)
        × (entry hash (fresh bn) h'.voting ≡ counted origin agrees found)
        × ((agrees' : Bool) → vote origin bn hash agrees' h' ≡ some (h', err already_voted))
  vote-once number new room few =
      let h' = record opened { voting = insert hash (counted origin agrees found) opened.voting } in
      let stands = entry-insert hash (counted origin agrees found) (fresh bn) opened.voting in
      (
        h',
        (vote_counts number new room
            ∙ ap some (settle_few bn hash (counted origin agrees found) opened few)),
        refl,
        refl,
        stands,
        vote_again origin bn hash h' (counted origin agrees found) opened.voting refl number
            (contains_id-append origin found.votes),
      )
