-- ===== src/Chat/BlockExamples.antt =====
-- The theorems of the blocks of a chat at concrete values: a file of two messages.
use onion_network.Base.{
  ℕ, ◌+◌, ◌-◌, ◌≤◌, ◌≡◌, refl, some, Bool, true, not, List, [], ◌∷◌, ◌++◌, length, drop, filter,
  All, replicate, length-replicate, arith,
}
use onion_network.Codec.Sum.{Result, ok, err}
use onion_network.Chat.Errors.{ChatError, already_voted}
use onion_network.Chat.Messages.{unpack_messages}
use onion_network.Chat.Blocks.{
  Root, absent, remote, BlockProposal, fresh, try_resolve, Handle, entry, contains_message,
  accept_block, settle_vote, vote,
}
use mathlib.Core.List.Permᴰ.{swap}
use onion_network.Chat.Blocks.Finalizer.{select_finalizer-Permᴰ}
use onion_network.Chat.Blocks.Proposals.{select_finalizer}
use onion_network.Chat.Blocks.Accept.{accept_block-remote, accept_block-local}
use onion_network.Chat.Blocks.Votes.{counted, Outcome, vote-accepts, vote-once}
use onion_network.Chat.Blocks.Send.{File, append_message, compact, write_message}
use onion_network.Chat.Blocks.Sent.{
  buffer_of, record_bytes, write_message-unpack_messages, compact-loses,
}

abbrev two : List ℕ
two = 7 ∷ 0 ∷ 1 ∷ 8 ∷ 0 ∷ 1 ∷ []

abbrev block : List ℕ
block = 7 ∷ 0 ∷ 1 ∷ []

abbrev root : Root
root = record { number = 3; buffer_len = 6; checkpoint = 0; latest_block = 0 }

abbrev proposed : BlockProposal
proposed = record { number = 3; yes = 2; no = 0; proposal = remote block; votes = 21 ∷ [] }

abbrev handle : Handle
handle = record { root = root; blocks = two; voting = (55, proposed) ∷ [] }

accept_block-remote_example :
    (kept : List ℕ) × (h' : Handle) × (accept_block 55 4 (err block) handle ≡ (h', ok tt))
    × (h'.blocks ≡ [] ++ (block ++ kept))
    × (unpack_messages kept
        ≡ filter (λ m. not (contains_message (unpack_messages block) m)) (unpack_messages two))
    × (h'.root ≡ record root { buffer_len = length kept; number = 4; latest_block = 55 })
    × All (λ e. 4 ≤ (e.1).number) h'.voting
accept_block-remote_example = accept_block-remote 55 4 block handle (omega arith) (omega arith)

accept_block-local_example :
    (h' : Handle) × (accept_block 55 4 (ok 3) handle ≡ (h', ok tt))
    × (h'.blocks ≡ two)
    × (drop (length h'.blocks - (h'.root).buffer_len) h'.blocks ≡ 8 ∷ 0 ∷ 1 ∷ [])
    × ((h'.root).number ≡ 4)
    × ((h'.root).latest_block ≡ 55)
    × All (λ e. 4 ≤ (e.1).number) h'.voting
accept_block-local_example =
    accept_block-local 55 4 3 handle (omega arith) (omega arith) (omega arith)

-- The third vote for the block.
abbrev resolved : Handle
resolved = record handle {
  voting = (55, record proposed { yes = 3; proposal = absent; votes = 21 ∷ 22 ∷ [] }) ∷ [];
}

abbrev accepted : Handle × Result (Unit {0}) ChatError
accepted = accept_block 55 3 (err block) resolved

votes : vote 22 3 55 true handle ≡ some (accepted.0, accepted.1)
unfolding vote settle_vote try_resolve accept_block
votes = refl

vote-accepts_example : Outcome 3 55 (counted 22 true proposed) handle (accepted.0, accepted.1)
vote-accepts_example = vote-accepts 22 3 55 true handle accepted.0 accepted.1 votes

vote-once_example :
    (h' : Handle) × (vote 22 3 56 true handle ≡ some (h', ok tt))
    × (h'.root ≡ root)
    × (h'.blocks ≡ two)
    × (entry 56 (fresh 3) h'.voting ≡ counted 22 true (fresh 3))
    × ((agrees' : Bool) → vote 22 3 56 agrees' h' ≡ some (h', err already_voted))
vote-once_example = vote-once 22 3 56 true handle refl refl (omega arith) (omega arith)

abbrev file : File
file = record { root = root; blocks = two; discarded_bytes = 0 }

write_message-unpack_messages_example :
    (f' : File) × (write_message (5 ∷ []) file ≡ (f', ok 6))
    × (f'.blocks ≡ two ++ record_bytes (5 ∷ []) file)
    × (unpack_messages (buffer_of f') ≡ (5 ∷ []) ∷ unpack_messages two)
write_message-unpack_messages_example =
    write_message-unpack_messages (5 ∷ []) file (omega arith) (omega arith) (omega arith)
      (omega arith) (omega arith) (omega arith)

-- More than eight blocks of bytes.
abbrev long : File
long = record {
  root = record { number = 3; buffer_len = 0; checkpoint = 0; latest_block = 0 };
  blocks = replicate 131073 0;
  discarded_bytes = 0;
}

long_length : length long.blocks ≡ 131073
long_length = length-replicate {A = ℕ} 131073 0

compact-loses_example :
    (f' : File) × (compact (length long.blocks) (append_message (5 ∷ []) long) ≡ ok f')
    × (f'.blocks ≡ drop 0 long.blocks)
    × ((f'.root).buffer_len ≡ 3)
compact-loses_example =
    compact-loses (5 ∷ []) long (omega arith) (omega (arith, long_length))
      (omega (arith, long_length))

select_finalizer-Permᴰ_example :
    select_finalizer length ◌+◌ 9 (3 ∷ 1 ∷ 2 ∷ []) 100
    ≡ select_finalizer length ◌+◌ 9 (1 ∷ 3 ∷ 2 ∷ []) 100
select_finalizer-Permᴰ_example =
    select_finalizer-Permᴰ length ◌+◌ 9 100 (3 ∷ 1 ∷ 2 ∷ []) (1 ∷ 3 ∷ 2 ∷ [])
      (λ a b same. omega (arith, same)) (swap refl refl)
