-- ===== src/Quarantine/Xor.antt =====
-- `_xor_bytes` of backend/engines/scanning/quarantine_manager.py.
use Prim.Native.Nat.{bit_xor}
use graduationp.Prelude.{ℕ, zero, suc, ◌+◌, ◌%◌, List, [], ◌∷◌, ◌≡◌, refl, length, ap}
use graduationp.Quarantine.Bits.{xor_cancel}

-- `key[i]`
unfoldable pub byte_at : List ℕ → ℕ → ℕ
byte_at [] i = 0
byte_at (k ∷ key) zero = k
byte_at (k ∷ key) (suc i) = byte_at key i

-- the bytes from position `i` on
unfoldable pub xor_from : ℕ → List ℕ → List ℕ → List ℕ
xor_from i [] key = []
xor_from i (b ∷ bytes) key = bit_xor b (byte_at key (i % length key)) ∷ xor_from (i + 1) bytes key

-- The key is never empty where the source calls this: it has XOR_KEY_LENGTH bytes.
unfoldable pub xor_bytes : List ℕ → List ℕ → List ℕ
unfolding xor_from byte_at
xor_bytes bytes key = xor_from 0 bytes key

xor_from_twice : (i : ℕ) (bytes key : List ℕ) → xor_from i (xor_from i bytes key) key ≡ bytes
unfolding xor_from
xor_from_twice i [] key = refl
xor_from_twice i (b ∷ bytes) key =
    rw (xor_cancel b (byte_at key (i % length key)), xor_from_twice (i + 1) bytes key)

-- The transformation with the same key undoes itself, for contents and keys of every length.
pub xor_bytes_twice : (bytes key : List ℕ) → xor_bytes (xor_bytes bytes key) key ≡ bytes
unfolding xor_bytes
xor_bytes_twice bytes key = xor_from_twice 0 bytes key

length-xor_from : (i : ℕ) (bytes key : List ℕ) → length (xor_from i bytes key) ≡ length bytes
unfolding xor_from
length-xor_from i [] key = refl
length-xor_from i (b ∷ bytes) key = ap suc (length-xor_from (i + 1) bytes key)

length-xor_bytes : (bytes key : List ℕ) → length (xor_bytes bytes key) ≡ length bytes
unfolding xor_bytes
length-xor_bytes bytes key = length-xor_from 0 bytes key
