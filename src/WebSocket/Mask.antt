-- ===== src/WebSocket/Mask.antt =====
-- `do_mask` and `websocket_mask_union` of tamer/websocket.tcc, on a machine that stores the low byte
-- of a word first.
use tamer.Prelude.{ℕ, zero, suc, ◌+◌, ◌*◌, ◌/◌, ◌%◌, ◌^◌, List, [], ◌∷◌, ◌++◌, bit_and}
use Prim.Native.Nat.{bit_xor}
pub mod Laws

-- `c` of the union
pub record Mask : Type 0 where
  pub c0 : ℕ
  pub c1 : ℕ
  pub c2 : ℕ
  pub c3 : ℕ

-- `memcpy(&z, &x[i], 4)`
abbrev pub load : ℕ → ℕ → ℕ → ℕ → ℕ
load a b c d = a + 256 * (b + 256 * (c + 256 * d))

-- `memcpy(&x[i], &z, 4)`
abbrev pub store_bytes : ℕ → List ℕ
store_bytes z = (z % 256) ∷ (z / 256 % 256) ∷ (z / 65536 % 256) ∷ (z / 16777216 % 256) ∷ []

-- `u` of the union
abbrev pub word : Mask → ℕ
word mask = load mask.c0 mask.c1 mask.c2 mask.c3

-- `mask.c[k]`
abbrev pub byte_at : Mask → ℕ → ℕ
byte_at mask zero = mask.c0
byte_at mask (suc zero) = mask.c1
byte_at mask (suc (suc zero)) = mask.c2
byte_at mask (suc (suc (suc k))) = mask.c3

-- The second loop, from index `i` on.
unfoldable pub mask_bytes : Mask → ℕ → List ℕ → List ℕ
mask_bytes mask i [] = []
mask_bytes mask i (x ∷ xs) = bit_xor x (byte_at mask (bit_and i 3)) ∷ mask_bytes mask (i + 1) xs

-- The first loop, from index `i` on, and the second behind it.
unfoldable pub mask_words : Mask → ℕ → List ℕ → List ℕ
mask_words mask i (a ∷ b ∷ c ∷ d ∷ xs) =
    store_bytes (bit_xor (load a b c d) (word mask)) ++ mask_words mask (i + 4) xs
mask_words mask i xs = mask_bytes mask i xs

unfoldable pub do_mask : List ℕ → Mask → List ℕ
do_mask xs mask = mask_words mask 0 xs
