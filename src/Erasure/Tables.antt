-- ===== src/Erasure/Tables.antt =====
-- storage/berkleamp-welch/build.rs: the tables of the field, as the build computes them.
use Prim.Native.Nat.{bit_xor}
use onion_network.Base.{
  ℕ, zero, suc, ◌+◌, ◌-◌, ◌*◌, List, [], ◌∷◌, map, replicate, set, leb, ◌==◌, ◌||◌, if◌then◌else◌,
}

abbrev pub field_size : ℕ
field_size = 256

abbrev pub generating_polynomial : ℕ
generating_polynomial = 29

abbrev pub exp_table_size : ℕ
exp_table_size = 510

-- The numbers of a loop: so many from the first one.
abbrev pub range : ℕ → ℕ → List ℕ
range first zero = []
range first (suc n) = first ∷ range (suc first) n

-- An index that is in range, as the indices of the tables are.
abbrev pub lookup : List ℕ → ℕ → ℕ
lookup [] i = 0
lookup (x ∷ xs) zero = x
lookup (x ∷ xs) (suc i) = lookup xs i

abbrev pub row : List (List ℕ) → ℕ → List ℕ
row [] i = []
row (x ∷ xs) zero = x
row (x ∷ xs) (suc i) = row xs i

abbrev pub next_power : ℕ → ℕ → ℕ
next_power polynomial b =
    if leb field_size (2 * b) then bit_xor (2 * b - field_size) polynomial else 2 * b

abbrev pub log_loop : ℕ → List ℕ → ℕ → List ℕ → List ℕ
log_loop polynomial [] b result = result
log_loop polynomial (log ∷ logs) b result =
    log_loop polynomial logs (next_power polynomial b) (set result b log)

unfoldable pub gen_log_table : ℕ → List ℕ
gen_log_table polynomial = log_loop polynomial (range 0 (field_size - 1)) 1 (replicate field_size 0)

abbrev pub exp_loop : List ℕ → List ℕ → List ℕ → List ℕ
exp_loop log_table [] result = result
exp_loop log_table (i ∷ is) result =
    let log = lookup log_table i in
    exp_loop log_table is (set (set result log i) (log + field_size - 1) i)

unfoldable pub gen_exp_table : List ℕ → List ℕ
gen_exp_table log_table = exp_loop log_table (range 1 (field_size - 1)) (replicate exp_table_size 0)

abbrev pub multiply : List ℕ → List ℕ → ℕ → ℕ → ℕ
multiply log_table exp_table a b =
    if (a == 0) || (b == 0) then 0 else lookup exp_table (lookup log_table a + lookup log_table b)

unfoldable pub gen_mul_table : List ℕ → List ℕ → List (List ℕ)
gen_mul_table log_table exp_table =
    map (λ a. map (λ b. multiply log_table exp_table a b) (range 0 field_size)) (range 0 field_size)

abbrev pub inv_loop : List ℕ → List ℕ → List ℕ → List ℕ → List ℕ
inv_loop log_table exp_table [] result = result
inv_loop log_table exp_table (i ∷ is) result =
    inv_loop log_table exp_table is
      (set result i (lookup exp_table (field_size - lookup log_table i - 1)))

unfoldable pub gen_inv_table : List ℕ → List ℕ → List ℕ
gen_inv_table log_table exp_table =
    inv_loop log_table exp_table (range 1 (field_size - 1)) (replicate field_size 0)

-- `write_tables`
unfoldable pub log_table : List ℕ
log_table = gen_log_table generating_polynomial

unfoldable pub exp_table : List ℕ
exp_table = gen_exp_table log_table

unfoldable pub inv_table : List ℕ
inv_table = gen_inv_table log_table exp_table

unfoldable pub mul_table : List (List ℕ)
mul_table = gen_mul_table log_table exp_table
