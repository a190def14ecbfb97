-- ===== src/Dht/Examples.antt =====
-- The theorems of the routing table on a table of two routes.
use onion_network.Base.{ℕ, ◌≡◌, some, List, [], ◌∷◌, arith}
use onion_network.Dht.RoutingTable.{Route, insert, get}
use onion_network.Dht.RoutingTable.Laws.{IsSorted, get-insert}

abbrev route : ℕ → ℕ → Route ℕ
route id addr = record { id = id; addr = addr }

abbrev table : List (Route ℕ)
table = route 3 30 ∷ route 8 80 ∷ []

table-IsSorted : IsSorted table
table-IsSorted = ((omega arith, tt), (tt, tt))

get-insert_example :
    (get 5 (insert (route 5 50) table) ≡ some 50) × IsSorted (insert (route 5 50) table)
get-insert_example = get-insert 5 (route 5 50) table table-IsSorted
