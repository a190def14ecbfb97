-- ===== src/Ratchet/Chain.antt =====
-- crypto/double-ratchet/src/lib.rs: the chains of keys, and the primitives of third-party crates
-- that they and the ratchet call. Secrets, keys, hashes and ciphertexts are numbers.
use Prim.Native.Nat.{bit_xor}
use onion_network.Base.{ℕ, ◌+◌, ◌-◌, ◌%◌, ◌^◌, ◌≡◌, Option, some}

-- The info strings of the key derivation.
pub data Info : Type 0 where
  sub_chain : Info
  root_chain : Info

-- `hkdf` takes the salt and the input key, and returns the two halves of the 64 bytes that it
-- expands. `public_of` and `dh` are X25519, `kyber_public` is the public half of the pair that a
-- seed generates, `encapsulate` takes a public key and randomness and returns the ciphertext and
-- its secret, and `decapsulate` takes the ciphertext and the seed of the secret half.
pub record Primitives : Type 0 where
  pub hkdf : ℕ → ℕ → Info → ℕ × ℕ
  pub hash : ℕ → ℕ
  pub public_of : ℕ → ℕ
  pub dh : ℕ → ℕ → ℕ
  pub kyber_public : ℕ → ℕ
  pub encapsulate : ℕ → ℕ → ℕ × ℕ
  pub decapsulate : ℕ → ℕ → Option ℕ

-- What the ratchet relies on: both ends of a key agreement get the same secret.
pub record Agreement (prim : Primitives) : Type 0 where
  pub dh_comm : (a b : ℕ) → prim.dh a (prim.public_of b) ≡ prim.dh b (prim.public_of a)
  pub decapsulate-encapsulate :
      (seed randomness : ℕ)
      → let sealed = prim.encapsulate (prim.kyber_public seed) randomness in
        prim.decapsulate (sealed.0) seed ≡ some (sealed.1)

abbrev pub u32_max : ℕ
u32_max = 2 ^ 32 - 1

abbrev pub sub_constant : ℕ
sub_constant = 0

pub record Chain : Type 0 where
  pub step : ℕ
  pub root : ℕ

abbrev pub from_secret : ℕ → Chain
from_secret secret = record { step = 0; root = secret }

abbrev pub new_init : ℕ → Chain
new_init secret = record { step = 1; root = secret }

abbrev pub new_guarding : ℕ → Chain
new_guarding secret = record { step = u32_max; root = secret }

abbrev pub xor : ℕ → ℕ → ℕ
xor a b = bit_xor a b

module _ (prim : Primitives) where
  -- The key that is derived, and the root that replaces the old one.
  abbrev pub kdf_sc : ℕ → ℕ × ℕ
  kdf_sc root = let out = prim.hkdf root sub_constant sub_chain in (out.1, out.0)

  abbrev pub kdf_rk : ℕ → ℕ → ℕ × ℕ
  kdf_rk root input = let out = prim.hkdf root input root_chain in (out.1, out.0)

  abbrev pub next_sc : Chain → ℕ × Chain
  next_sc chain =
      let key = kdf_sc chain.root in
      (key.0, record { step = (chain.step + 1) % 2 ^ 32; root = key.1 })

  abbrev pub next_rk : ℕ → Chain → ℕ × Chain
  next_rk ratchet_input chain =
      let key = kdf_rk chain.root ratchet_input in
      (key.0, record { step = (chain.step + 1) % 2 ^ 32; root = key.1 })
