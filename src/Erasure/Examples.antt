-- ===== src/Erasure/Examples.antt =====
-- The theorems on the field at concrete bytes.
use onion_network.Base.{suc, refl, ◌^◌, ◌*◌, ◌%◌, ◌<◌, ◌≡◌, none, some, arith}
use onion_network.Erasure.Tables.{lookup, log_table, exp_table, gen_log_table, gen_exp_table}
use onion_network.Erasure.Galois.{mul, div, exp, reduce}
use onion_network.Erasure.Field.{mul_monoid}
use onion_network.Erasure.Powers.{div-mul, exp-mul}

mul_monoid_example :
    (mul (mul 3 7) 200 ≡ mul 3 (mul 7 200))
    × (mul 3 7 ≡ mul 7 3)
    × (mul 1 3 ≡ 3)
    × (mul 0 3 ≡ 0)
    × (mul 3 7 < 256)
mul_monoid_example = mul_monoid 3 7 200 (omega arith) (omega arith) (omega arith)

div-mul_example : (div (mul 90 17) 17 ≡ some 90) × (div 90 0 ≡ none)
div-mul_example = div-mul 90 17 (omega arith) (omega arith) (omega arith)

exp-mul_example :
    (exp 5 0 ≡ 1)
    × (exp 5 (suc 9) ≡ mul 5 (exp 5 9))
    × (reduce (lookup log_table 5 * 9) (lookup log_table 5 * 9) ≡ (lookup log_table 5 * 9) % 255)
    × (exp 5 9 < 256)
exp-mul_example = exp-mul 5 9 (omega arith) (omega arith)

-- An exponent with which the product wraps around.
exp_wraps : exp 4 (2 ^ 63) ≡ 1
unfolding exp reduce exp_table gen_exp_table log_table gen_log_table
exp_wraps = refl
