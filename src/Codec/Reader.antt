-- ===== src/Codec/Reader.antt =====
-- utils/codec/src/lib.rs: the `Decode` trait. A decoder reads from the front of the buffer, and its
-- caller sees the buffer that it leaves, also where it fails.
use onion_network.Base.{ℕ, List, Option, none, some}

abbrev pub Decode {ℓ} : Type ℓ → Type ℓ
Decode A = List ℕ → Option A × List ℕ

abbrev pub pure {ℓ} : {A : Type ℓ} → A → Decode A
pure a b = (some a, b)

abbrev pub fail {ℓ} : {A : Type ℓ} → Decode A
fail b = (none, b)

-- The rest of a function after `?`.
abbrev pub continue {ℓ κ} :
    {A : Type ℓ} {B : Type κ} → Option A × List ℕ → (A → Decode B) → Option B × List ℕ
continue (some a, b) f = f a b
continue (none, b) f = (none, b)

infixl 5 ◌>>=◌
abbrev pub ◌>>=◌ {ℓ κ} : {A : Type ℓ} {B : Type κ} → Decode A → (A → Decode B) → Decode B
◌>>=◌ m f b = continue (m b) f
