-- ===== src/Chat/Consensus.antt =====
-- chat/server/src/api.rs: `Repl`, by which the answer to a request is the one that most of the
-- nodes of a chat give, `Restore`, and `start_recovery` of chat/server/src/main.rs. The head of a
-- list of responses is the last one, which `pop` takes.
use onion_network.Base.{
  ℕ, zero, suc, ◌/◌, Bool, true, false, ◌&&◌, not, Option, none, some, List, [], ◌∷◌, ◌++◌, any,
  filter, length, ltb, leb, ◌==◌, if◌then◌else◌,
}
use onion_network.Codec.Sum.{Result, ok, err}
use onion_network.Chat.Errors.{
  ChatError, sent_directly, ongoing_recovery, no_majority, no_replicator,
}
use onion_network.Chat.Equality.{same_answer}
use onion_network.Chat.Blocks.{replication_factor}
use onion_network.Chat.Reputation.{Rep, Severity, up, down, rate}
pub mod Majority
pub mod Answers

-- `ongoing_recovery`, and the recoveries that run in tasks of their own.
pub record Recoveries : Type 0 where
  pub ongoing : List ℕ
  pub spawned : List ℕ

abbrev pub has_item : ℕ → List ℕ → Bool
has_item x xs = any (λ y. y == x) xs

abbrev pub remove_topic : ℕ → List ℕ → List ℕ
remove_topic x xs = filter (λ y. not (y == x)) xs

-- The topic is taken out of the set as soon as the task is spawned.
unfoldable pub start_recovery : ℕ → Recoveries → Bool × Recoveries
start_recovery topic r = if has_item topic r.ongoing then (false, r) else (
  true,
  record { ongoing = remove_topic topic (topic ∷ r.ongoing); spawned = topic ∷ r.spawned },
)

-- `same` is the equality of the answers.
module _ {A : Type 0} (same : A → A → Bool) where
  -- The nodes that gave the same answer, in the order of the responses, and the other responses.
  abbrev pub same_peers : A → List (ℕ × A) → List ℕ
  same_peers base [] = []
  same_peers base ((p, other) ∷ resps) =
      let others = same_peers base resps in if same base other then others ++ (p ∷ []) else others

  abbrev pub retain_others : A → List (ℕ × A) → List (ℕ × A)
  retain_others base resps = filter (λ r. not (same base (r.1))) resps

  abbrev pub rate_all : List ℕ → Severity → Rep → Rep
  rate_all [] severity rep = rep
  rate_all (p ∷ peers) severity rep = rate_all peers severity (rate p severity rep)

  pub record Tally : Type 0 where
    pub recovering : Bool
    pub pick : Option A
    pub rep : Rep
    pub recoveries : Recoveries

  -- The two ways in which a round of the loop ends.
  abbrev picked : A → List ℕ → Tally → Tally
  picked base others t = record t { pick = some base; rep = rate_all others (down 1) t.rep }

  abbrev pub outvoted : ℕ → ℕ → List ℕ → Tally → Tally
  outvoted local topic others t =
      let started = start_recovery topic t.recoveries in
      let rated = record t { rep = rate_all others (up 10) t.rep } in
      if has_item local others
      then record rated { recovering = started.0; recoveries = started.1 }
      else rated

  unfoldable pub tally_round : ℕ → ℕ → ℕ → A → List (ℕ × A) → Tally → Tally
  tally_round local topic peer base resps t =
      let others = peer ∷ same_peers base resps in
      if ltb (replication_factor / 2) (length others)
      then picked base others t
      else outvoted local topic others t

  unfoldable pub tally_loop : ℕ → ℕ → ℕ → List (ℕ × A) → Tally → Tally
  tally_loop zero local topic resps t = t
  tally_loop (suc fuel) local topic [] t = t
  tally_loop (suc fuel) local topic ((peer, base) ∷ resps) t =
      tally_loop fuel local topic (retain_others base resps)
        (tally_round local topic peer base resps t)

  -- Each round takes a response, so their number is enough.
  abbrev pub tally : ℕ → ℕ → List (ℕ × A) → Rep → Recoveries → Tally
  tally local topic resps rep recoveries =
      tally_loop (length resps) local topic resps
        (record { recovering = false; pick = none; rep = rep; recoveries = recoveries })

module _ {O : Type 0} where
  abbrev pub is_sent_directly : Result O ChatError → Bool
  is_sent_directly (ok o) = false
  is_sent_directly (err sent_directly) = true
  is_sent_directly (err e) = false

  abbrev pub decide : Bool → Option (Result O ChatError) → Result O ChatError
  decide recovering (some answer) = answer
  decide true none = err ongoing_recovery
  decide false none = err no_majority

module _ {O : Type 0} (same_ok : O → O → Bool) where
  -- `Repl::call`, for the answer of this node and the responses of the others, or the error that
  -- asking them gave.
  unfoldable pub repl_call :
      ℕ
      → ℕ
      → Result O ChatError
      → Result (List (ℕ × Result O ChatError)) ChatError
      → Rep
      → Recoveries
      → Result O ChatError × Rep × Recoveries
  repl_call local topic us (err e) rep recoveries =
      if is_sent_directly us then (us, rep, recoveries) else (err e, rep, recoveries)
  repl_call local topic us (ok others) rep recoveries =
      let t = tally (same_answer same_ok) local topic ((local, us) ∷ others) rep recoveries in
      if is_sent_directly us
      then (us, rep, recoveries)
      else (decide t.recovering t.pick, t.rep, t.recoveries)

-- `Restore::call`
unfoldable pub restore_call :
    {O : Type 0} → Bool → ℕ → Result O ChatError → Recoveries → Result O ChatError × Recoveries
restore_call should_recover topic answer recoveries =
    if should_recover
    then (err ongoing_recovery, (start_recovery topic recoveries).1)
    else (answer, recoveries)
