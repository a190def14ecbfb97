-- ===== src/Chat/Members/Database.antt =====
-- The key-value database that the chat's members stand in: lmdb, with its documented behaviour.
use onion_network.Base.{ℕ, Option, none, some, ◌≡◌, ◌≢◌}

-- A state of the database within a write transaction.
pub record Store (V : Type 0) : Type 1 where
  pub Db : Type 0
  pub get : ℕ → Db → Option V
  pub put : ℕ → V → Db → Db
  pub del : ℕ → Db → Db
  pub clear : Db → Db
  pub get-put : (k : ℕ) (v : V) (db : Db) → get k (put k v db) ≡ some v
  pub get-put_other : (k j : ℕ) (v : V) (db : Db) → k ≢ j → get j (put k v db) ≡ get j db
  pub get-del : (k : ℕ) (db : Db) → get k (del k db) ≡ none
  pub get-del_other : (k j : ℕ) (db : Db) → k ≢ j → get j (del k db) ≡ get j db
  pub get-clear : (k : ℕ) (db : Db) → get k (clear db) ≡ none
