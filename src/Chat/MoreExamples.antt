-- ===== src/Chat/MoreExamples.antt =====
-- The theorems of recovered members and of topics at concrete values.
use onion_network.Base.{ℕ, ◌≡◌, refl, some, none, true, List, [], ◌∷◌, length, arith}
use onion_network.Codec.Sum.{ok}
use onion_network.Codec.Text.{is_utf8}
use onion_network.Chat.Topics.{chat, compress, decompress, decompress-compress}
use onion_network.Chat.Members.{best, worst, Member}
use onion_network.Chat.Members.Recovery.{lookup, recover_members, recover_members-lookup}
use onion_network.Chat.Examples.{S, verified, same}

abbrev chat_data : List (ℕ × Member)
chat_data = (1, best) ∷ (2, worst) ∷ []

recover_members-lookup_example :
    (db' : S.Db) × (recover_members S verified same chat_data (λ _. none) ≡ ok db')
    × ((id : ℕ) → S.get id db' ≡ lookup id chat_data)
recover_members-lookup_example =
    recover_members-lookup S verified same chat_data (λ _. none) (refl, (refl, tt))

abc_is_text : is_utf8 (97 ∷ 98 ∷ 99 ∷ []) ≡ true
unfolding is_utf8
abc_is_text = refl

-- "abc"
decompress-compress_example :
    (bytes : List ℕ) × (compress (chat (97 ∷ 98 ∷ 99 ∷ [])) ≡ some bytes)
    × (length bytes ≡ 32)
    × (decompress bytes ≡ chat (97 ∷ 98 ∷ 99 ∷ []))
decompress-compress_example = decompress-compress (97 ∷ 98 ∷ 99 ∷ []) (omega arith) abc_is_text
