-- ===== src/Chat/Blocks.antt =====
-- chat/server/src/storage/chat.rs: the blocks of a chat and the votes on them.
-- The file of the blocks is the list of its bytes, and a write to it does not fail. A hash is a
-- number, the hash function of blocks and the exclusive or of hashes are parameters. Counts and
-- lengths stay below 2 ^ 63. `none` is a panic.
pub mod Accept
pub mod Votes
pub mod Send
pub mod Sent
pub mod Fetch
pub mod Proposals
pub mod Finalizer
use onion_network.Base.{
  ℕ, zero, suc, ◌+◌, ◌-◌, ◌*◌, ◌/◌, ◌%◌, Option, none, some, Bool, true, false, not, List, [], ◌∷◌,
  ◌++◌, length, get_elem?, take, drop, filter, ltb, leb, ◌==◌, if◌then◌else◌,
}
use onion_network.Base.Opt.{◌>>=◌}
use onion_network.Codec.Sum.{Result, ok, err}
use onion_network.Chat.Errors.{
  ChatError, io, already_voted, wrong_block_number, wrong_proposer, block_unexpected_messages,
  outdated_block_number,
}
use onion_network.Chat.Messages.{wrapping_sub, unpack_messages, retain_messages}

abbrev pub block_size : ℕ
block_size = 1024 * 16

abbrev pub replication_factor : ℕ
replication_factor = 4

pub record Root : Type 0 where
  pub number : ℕ
  pub buffer_len : ℕ
  pub checkpoint : ℕ
  pub latest_block : ℕ

pub data Proposal : Type 0 where
  absent : Proposal
  local : ℕ → Proposal
  remote : List ℕ → Proposal

-- `Proposal::take` leaves `absent`; what it returns is a size or the bytes of a block.
abbrev pub take_proposal : Proposal → Option (Result ℕ (List ℕ))
take_proposal absent = none
take_proposal (local size) = some (ok size)
take_proposal (remote bytes) = some (err bytes)

pub record BlockProposal : Type 0 where
  pub number : ℕ
  pub yes : ℕ
  pub no : ℕ
  pub proposal : Proposal
  pub votes : List ℕ

-- A new proposal with `..Default::default()`.
abbrev pub fresh : ℕ → BlockProposal
fresh number = record { number = number; yes = 0; no = 0; proposal = absent; votes = [] }

-- `try_resolve`: the proposal that it leaves, and the decision.
unfoldable pub try_resolve : BlockProposal → BlockProposal × Option (Option (Result ℕ (List ℕ)))
try_resolve p =
    let rejected = if ltb (replication_factor / 2) p.no then some none else none in
    if ltb (replication_factor / 2) p.yes
    then elim (take_proposal p.proposal) [
      | some block ↦ (record p { proposal = absent }, some (some block))
      | none ↦ (p, rejected)
    ]
    else (p, rejected)

pub record Handle : Type 0 where
  pub root : Root
  pub blocks : List ℕ
  pub voting : List (ℕ × BlockProposal)

-- The map of the votes: `entry`, with what stands there or the default, and `insert`.
abbrev pub entry : ℕ → BlockProposal → List (ℕ × BlockProposal) → BlockProposal
entry hash default [] = default
entry hash default ((h, p) ∷ m) = let rest = entry hash default m in if hash == h then p else rest

abbrev pub insert : ℕ → BlockProposal → List (ℕ × BlockProposal) → List (ℕ × BlockProposal)
insert hash p [] = (hash, p) ∷ []
insert hash p ((h, q) ∷ m) =
    let rest = insert hash p m in if hash == h then (h, p) ∷ m else (h, q) ∷ rest

abbrev pub remove : ℕ → List (ℕ × BlockProposal) → List (ℕ × BlockProposal)
remove hash m = filter (λ e. not (hash == e.0)) m

abbrev pub contains_id : ℕ → List ℕ → Bool
contains_id id [] = false
contains_id id (x ∷ xs) = let rest = contains_id id xs in if id == x then true else rest

abbrev pub same_bytes : List ℕ → List ℕ → Bool
same_bytes [] [] = true
same_bytes (x ∷ xs) (y ∷ ys) = let rest = same_bytes xs ys in if x == y then rest else false
same_bytes _ _ = false

-- A set of messages as the list it is collected from.
abbrev pub contains_message : List (List ℕ) → List ℕ → Bool
contains_message [] m = false
contains_message (x ∷ xs) m =
    let rest = contains_message xs m in if same_bytes m x then true else rest

-- The bytes of the file in front of the buffer, and the buffer; `InvalidInput` where the file is
-- shorter than the root says.
unfoldable pub read_buffer : Root → List ℕ → Result (List ℕ × List ℕ) ChatError
read_buffer root blocks =
    let start = length blocks - root.buffer_len in
    if ltb (length blocks) root.buffer_len
    then err (io 11)
    else ok (take start blocks, drop start blocks)

-- The messages of a set, once each.
abbrev pub distinct : List (List ℕ) → List (List ℕ)
distinct [] = []
distinct (x ∷ xs) = let rest = distinct xs in if contains_message rest x then rest else x ∷ rest

-- What the iterator has not removed; the loop of `retain_messages` ends on every buffer.
unfoldable pub retain_messages_in_vec : (List ℕ → Bool) → List ℕ → List ℕ
retain_messages_in_vec predicate buffer = elim (retain_messages predicate buffer) [
  | some kept ↦ kept
  | none ↦ buffer
]

unfoldable pub accept_local : ℕ → Root → Handle → Handle
accept_local size root h = record h {
  root = record root { buffer_len = wrapping_sub root.buffer_len size };
}

unfoldable pub accept_remote : List ℕ → Root → Handle → Handle × Result (Unit {0}) ChatError
accept_remote bytes root h = elim (read_buffer root h.blocks) [
  | err e ↦ (h, err e)
  | ok parts ↦
      let lookup = unpack_messages bytes in
      let kept = retain_messages_in_vec (λ m. not (contains_message lookup m)) parts.1 in
      (
        record h {
          root = record root { buffer_len = length kept };
          blocks = parts.0 ++ (bytes ++ kept);
        },
        ok tt,
      )
]

unfoldable pub accept_block :
    ℕ → ℕ → Result ℕ (List ℕ) → Handle → Handle × Result (Unit {0}) ChatError
accept_block hash number block h =
    let root = record (h.root) { number = number; latest_block = hash } in
    let h' = record h { voting = filter (λ e. leb number (e.1).number) h.voting } in
    elim block [
      | ok size ↦ (accept_local size root h', ok tt)
      | err bytes ↦ accept_remote bytes root h'
    ]

abbrev bit : Bool → ℕ
bit b = if b then 1 else 0

-- What `vote` does with the decision; a rejected proposal stays.
unfoldable pub settle_vote :
    ℕ
    → ℕ
    → BlockProposal × Option (Option (Result ℕ (List ℕ)))
    → Handle
    → Handle × Result (Unit {0}) ChatError
settle_vote bn hash (p, none) h = (record h { voting = insert hash p h.voting }, ok tt)
settle_vote bn hash (p, some none) h = (record h { voting = insert hash p h.voting }, ok tt)
settle_vote bn hash (p, some (some block)) h =
    accept_block hash bn block (record h { voting = insert hash p h.voting })

unfoldable pub vote : ℕ → ℕ → ℕ → Bool → Handle → Option (Handle × Result (Unit {0}) ChatError)
unfolding settle_vote try_resolve
vote origin bn hash agrees h =
    let p = entry hash (fresh bn) h.voting in
    let opened = record h { voting = insert hash p h.voting } in
    let counted : BlockProposal = record {
      number = p.number;
      yes = p.yes + bit agrees;
      no = p.no + bit (not agrees);
      proposal = p.proposal;
      votes = p.votes ++ (origin ∷ []);
    } in
    if not (p.number == bn)
    then some (opened, err wrong_block_number)
    else if contains_id origin p.votes
    then some (opened, err already_voted)
    else if leb replication_factor (length p.votes)
    then none
    else some (settle_vote bn hash (try_resolve counted) opened)
