-- ===== src/Chat/Members/Combine.antt =====
-- chat/spec/src/chat.rs: `Member::combine`, the member that the answers of the replicas agree on. A
-- sort, and then a choice by the key, depends on the keys only, so the lists are those of the keys.
use onion_network.Base.{
  ℕ, suc, ◌/◌, ◌%◌, max, Option, none, some, List, [], ◌∷◌, map, length, get_elem?, ltb, ◌==◌,
  if◌then◌else◌,
}
use onion_network.Base.Opt.{◌>>=◌}
use onion_network.Chat.Members.{Member}
use onion_network.Chat.Members.PermissionText.{bits}

-- `sort_by_cached_key` of the keys
unfoldable pub insert_key : ℕ → List ℕ → List ℕ
insert_key k [] = k ∷ []
insert_key k (j ∷ js) = let rest = insert_key k js in if ltb j k then j ∷ rest else k ∷ j ∷ js

unfoldable pub sort_keys : List ℕ → List ℕ
unfolding insert_key
sort_keys [] = []
sort_keys (k ∷ ks) = insert_key k (sort_keys ks)

-- `chunk_by`: each key with the length of its chunk.
unfoldable pub chunks : List ℕ → List (ℕ × ℕ)
chunks [] = []
chunks (k ∷ ks) = push_chunk k (chunks ks)
  where
    push_chunk : ℕ → List (ℕ × ℕ) → List (ℕ × ℕ)
    push_chunk k [] = (k, 1) ∷ []
    push_chunk k ((j, n) ∷ cs) = if k == j then (j, suc n) ∷ cs else (k, 1) ∷ (j, n) ∷ cs

-- `max_by_key` takes the last of the longest chunks.
unfoldable pub longest : List (ℕ × ℕ) → Option (ℕ × ℕ)
longest [] = none
longest (c ∷ cs) = elim (longest cs) [
  | none ↦ some c
  | some d ↦ if ltb d.1 c.1 then some c else some d
]

unfoldable pub most_common : List ℕ → Option ℕ
unfolding sort_keys chunks longest
most_common keys = do chunk ← longest (chunks (sort_keys keys)); some chunk.0

unfoldable pub median : List ℕ → Option ℕ
unfolding sort_keys
median keys = get_elem? (sort_keys keys) (length keys / 2)

abbrev max_key : List ℕ → ℕ
max_key [] = 0
max_key (k ∷ ks) = max k (max_key ks)

-- The permissions are ordered by their bits; `none` is the panic on no members.
unfoldable pub combine : List Member → Option Member
unfolding most_common median
combine list = do
  flags ← most_common (map (λ m. bits m.permissions) list)
  rank ← most_common (map (λ m. m.rank) list)
  cooldown ← most_common (map (λ m. m.action_cooldown_ms) list)
  frozen ← median (map (λ m. m.frozen_until) list)
  some (record {
    action = max_key (map (λ m. m.action) list);
    permissions = record {
      send = flags % 2 == 1;
      invite = flags / 2 % 2 == 1;
      kick = flags / 4 % 2 == 1;
    };
    rank = rank;
    action_cooldown_ms = cooldown;
    frozen_until = frozen;
  })
