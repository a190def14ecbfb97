-- ===== src/Chat/Members/Recovery.antt =====
-- chat/server/src/storage/chat.rs: `recover_members`, which writes the members that a majority of
-- the replicas agree on. The map of them is the list of its entries.
use onion_network.Base.{
  ℕ, ◌≡◌, ◌≢◌, refl, ◌∙◌, Option, none, some, Bool, List, [], ◌∷◌, ◌==◌, ==_iff, Bool-cases, inl,
  inr, arith, if◌then◌else◌,
}
use onion_network.Codec.Sum.{Result, ok}
use onion_network.Chat.Errors.{ChatError, ◌>>=◌, context}
use onion_network.Chat.Members.{Member, Proof, put_new}
use onion_network.Chat.Members.Database.{Store}

abbrev pub lookup : ℕ → List (ℕ × Member) → Option Member
lookup id [] = none
lookup id ((k, m) ∷ data_left) = let rest = lookup id data_left in if k == id then some m else rest

abbrev or_else : Option Member → Option Member → Option Member
or_else (some m) d = some m
or_else none d = d

-- No identity stands twice.
abbrev pub IsMap : List (ℕ × Member) → Type 0
IsMap [] = Unit
IsMap ((k, m) ∷ rest) = (lookup k rest ≡ none) × IsMap rest

module _ (S : Store Member) (verify : Proof → Bool) (hash : ℕ → ℕ) where
  unfoldable pub put_all : List (ℕ × Member) → S.Db → Result S.Db ChatError
  put_all [] db = ok db
  put_all ((id, member) ∷ rest) db =
      context (put_new S verify hash id member db) >>= λ db'. put_all rest db'

  unfoldable pub recover_members : List (ℕ × Member) → S.Db → Result S.Db ChatError
  unfolding put_all
  recover_members chat_data db = put_all chat_data (S.clear db)

  -- The identities that are not in the database yet.
  abbrev AreNew : List (ℕ × Member) → S.Db → Type 0
  AreNew [] db = Unit
  AreNew ((k, m) ∷ rest) db = (S.get k db ≡ none) × AreNew rest db

  AreNew-put :
      (rest : List (ℕ × Member)) (k : ℕ) (m : Member) (db : S.Db)
      → lookup k rest ≡ none
      → AreNew rest db
      → AreNew rest (S.put k m db)
  AreNew-put [] k m db h a = tt
  AreNew-put ((j, n) ∷ rest) k m db h (a, more) = elim (Bool-cases (j == k)) [
    | inl same ↦ absurd (let at = rw same at h in ground arith)
    | inr other ↦
        let apart : k ≢ j = (λ e. ground arith) in
        (S.get-put_other k j m db apart ∙ a, AreNew-put rest k m db (rw other at h) more)
  ]

  AreNew-clear : (rest : List (ℕ × Member)) (db : S.Db) → AreNew rest (S.clear db)
  AreNew-clear [] db = tt
  AreNew-clear ((k, m) ∷ rest) db = (S.get-clear k db, AreNew-clear rest db)

  put_new_there :
      (id : ℕ) (m : Member) (db : S.Db)
      → S.get id db ≡ none
      → put_new S verify hash id m db ≡ some (S.put id m db)
  unfolding put_new
  put_new_there id m db e = rw (e, put_new)

  put_all_step :
      (k : ℕ) (m : Member) (rest : List (ℕ × Member)) (db db' : S.Db)
      → lookup k rest ≡ none
      → ((id : ℕ) → S.get id db' ≡ or_else (lookup id rest) (S.get id (S.put k m db)))
      → (id : ℕ) → S.get id db' ≡ or_else (lookup id ((k, m) ∷ rest)) (S.get id db)
  put_all_step k m rest db db' once at id = elim (Bool-cases (k == id)) [
    | inl same ↦
        let key : k ≡ id = (==_iff _ _).0 same in
        let there : S.get id (S.put k m db) ≡ some m = rw (← key) (S.get-put k m db) in
        let absent : lookup id rest ≡ none = rw (← key) once in
        rw same (at id ∙ rw (absent, there) refl)
    | inr other ↦
        let apart : k ≢ id = (λ e. ground arith) in
        rw other (at id ∙ rw (S.get-put_other k id m db apart) refl)
  ]

  put_all_lem :
      (rest : List (ℕ × Member)) (db : S.Db)
      → IsMap rest
      → AreNew rest db
      → (db' : S.Db) × (put_all rest db ≡ ok db')
        × ((id : ℕ) → S.get id db' ≡ or_else (lookup id rest) (S.get id db))
  unfolding put_all
  put_all_lem [] db h a = (db, refl, λ id. refl)
  put_all_lem ((k, m) ∷ rest) db (once, h) (new, a) =
      let (db', e, at) = put_all_lem rest (S.put k m db) h (AreNew-put rest k m db once a) in
      (db', rw (put_new_there k m db new) e, put_all_step k m rest db db' once at)

  or_else-none : (o : Option Member) → or_else o none ≡ o
  or_else-none none = refl
  or_else-none (some m) = refl

  -- Of a map, in which no identity stands twice, the recovery writes exactly the members: the database
  -- then gives for every identity what the map has, whatever it held before.
  pub recover_members-lookup :
      (chat_data : List (ℕ × Member)) (db : S.Db)
      → IsMap chat_data
      → (db' : S.Db) × (recover_members chat_data db ≡ ok db')
        × ((id : ℕ) → S.get id db' ≡ lookup id chat_data)
  unfolding recover_members
  recover_members-lookup chat_data db h =
      let (db', e, at) = put_all_lem chat_data (S.clear db) h (AreNew-clear chat_data db) in
      (db', e, λ id. at id ∙ rw (S.get-clear id db) (or_else-none (lookup id chat_data)))
