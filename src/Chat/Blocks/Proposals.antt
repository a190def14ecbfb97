-- ===== src/Chat/Blocks/Proposals.antt =====
-- chat/server/src/storage/chat.rs: the proposal of a block by another node, and the choice of the
-- node that proposes.
use onion_network.Base.{
  ℕ, ◌+◌, ◌-◌, ◌/◌, ◌%◌, Option, none, some, not, List, [], ◌∷◌, length, get_elem?, filter, ltb,
  ◌==◌, if◌then◌else◌,
}
use onion_network.Base.Opt.{◌>>=◌}
use onion_network.Codec.Sum.{Result, ok, err}
use onion_network.Chat.Errors.{
  ChatError, already_voted, wrong_block_number, wrong_proposer, block_unexpected_messages,
  outdated_block_number,
}
use onion_network.Chat.Messages.{unpack_messages}
use onion_network.Chat.Blocks.{
  block_size, Root, absent, local, remote, BlockProposal, fresh, try_resolve, Handle, entry, insert,
  remove, contains_id, contains_message, read_buffer, distinct, accept_block,
}

module _ (hash : List ℕ → ℕ) (xor : ℕ → ℕ → ℕ) where
  -- `sort_unstable_by_key`, by the distance of the member to the selector
  unfoldable pub sorted_insert : ℕ → ℕ → List ℕ → List ℕ
  sorted_insert selector m [] = m ∷ []
  sorted_insert selector m (x ∷ xs) =
      let rest = sorted_insert selector m xs in
      if ltb (xor x selector) (xor m selector) then x ∷ rest else m ∷ x ∷ xs

  unfoldable pub sort_by_distance : ℕ → List ℕ → List ℕ
  sort_by_distance selector [] = []
  sort_by_distance selector (m ∷ ms) = sorted_insert selector m (sort_by_distance selector ms)

  unfoldable pub select_finalizer : ℕ → List ℕ → ℕ → Option ℕ
  unfolding sort_by_distance
  select_finalizer selector members block_len =
      if length members == 0
      then none
      else get_elem? (sort_by_distance selector members) (block_len / block_size % length members)

  -- The checks of `proposal_low` behind the choice of the proposer: the block keeps its place in
  -- the proposal also where they fail.
  unfoldable pub check_block :
      ℕ → List ℕ → BlockProposal → Root → List ℕ → Result (Unit {0}) ChatError
  check_block number block p root blocks =
      if not (p.number == number) then err wrong_block_number else elim (read_buffer root blocks) [
        | err e ↦ err e
        | ok parts ↦
            let proposed = distinct (unpack_messages block) in
            let present = filter (contains_message proposed) (unpack_messages parts.1) in
            if length present == length proposed then ok tt else err block_unexpected_messages
      ]

  unfoldable pub proposal_low :
      ℕ
      → List ℕ
      → ℕ
      → List ℕ
      → BlockProposal
      → Root
      → List ℕ
      → Option (BlockProposal × Result (Unit {0}) ChatError)
  unfolding select_finalizer
  proposal_low origin group number block p root blocks = elim p.proposal [
    | local _ ↦ some (p, err already_voted)
    | remote _ ↦ some (p, err already_voted)
    | absent ↦ if contains_id origin p.votes then some (p, err already_voted) else do
      selected ← select_finalizer root.latest_block group (length block + block_size - 1)
      if not (selected == origin)
          then some (p, err wrong_proposer)
          else some (record p { proposal = remote block }, check_block number block p root blocks)
  ]

  -- What `proposal` does with the decision; a rejected proposal goes.
  unfoldable pub settle_proposal :
      ℕ
      → ℕ
      → BlockProposal × Option (Option (Result ℕ (List ℕ)))
      → Handle
      → Handle × Result (Unit {0}) ChatError
  unfolding accept_block
  settle_proposal number base_hash (p, none) h =
      (record h { voting = insert base_hash p h.voting }, ok tt)
  settle_proposal number base_hash (p, some none) h =
      (record h { voting = remove base_hash h.voting }, ok tt)
  settle_proposal number base_hash (p, some (some block)) h =
      accept_block base_hash number block (record h { voting = insert base_hash p h.voting })

  -- The count behind `proposal_low`: one vote before it, one for its result.
  abbrev count_result : BlockProposal → Result (Unit {0}) ChatError → BlockProposal
  count_result p (ok _) = record p { yes = p.yes + 1 }
  count_result p (err _) = record p { no = p.no + 1 }

  -- The result holds the error of `proposal_low`, if there was one.
  unfoldable pub proposal :
      ℕ
      → List ℕ
      → ℕ
      → List ℕ
      → Handle
      → Option (Handle × Result (Result (Unit {0}) ChatError) ChatError)
  unfolding proposal_low settle_proposal
  proposal origin group number block h =
      let base_hash = hash block in
      let p = entry base_hash (fresh number) h.voting in
      if ltb number (h.root).number then some (h, err outdated_block_number) else do
        (q, res) ←
            proposal_low origin group number block (record p { yes = p.yes + 1 }) h.root h.blocks
        some (answer res (settle_proposal number base_hash (try_resolve (count_result q res)) h))
    where
      answer :
          Result (Unit {0}) ChatError
          → Handle × Result (Unit {0}) ChatError
          → Handle × Result (Result (Unit {0}) ChatError) ChatError
      answer res (h', ok _) = (h', ok res)
      answer res (h', err e) = (h', err e)
