-- ===== src/Spot/Fnv1a.antt =====
-- include/binapi/fnv1a.hpp: the 32-bit FNV-1a hash, and `switch` on it.
use Prim.Native.Nat.{bit_xor}
use binapi.Prelude.{
  ℕ, zero, suc, ◌+◌, ◌-◌, ◌*◌, ◌%◌, ◌^◌, List, [], ◌∷◌, Option, none, some, ltb, ◌==◌,
  if◌then◌else◌,
}
use binapi.Prelude.Text.{Bytes}

-- The bytes before the terminating zero.
unfoldable pub ct_strlen : Bytes → ℕ
ct_strlen [] = 0
ct_strlen (c ∷ s) = let rest = ct_strlen s in if c == 0 then 0 else suc rest

-- `static_cast<std::uint32_t>(*s)` of a signed `char`, given as its byte.
unfoldable pub char_to_u32 : ℕ → ℕ
char_to_u32 c = if ltb c 128 then c else 2 ^ 32 - 256 + c

-- One round: the product is a 64-bit one, and the cast back keeps its low half.
unfoldable pub fnv1a_round : ℕ → ℕ → ℕ
unfolding char_to_u32
fnv1a_round seed c = bit_xor seed (char_to_u32 c) * 16777619 % 2 ^ 64 % 2 ^ 32

unfoldable pub fnv1a_loop : ℕ → Bytes → ℕ → ℕ
unfolding fnv1a_round
fnv1a_loop seed s zero = seed
fnv1a_loop seed [] (suc len) = seed
fnv1a_loop seed (c ∷ s) (suc len) = fnv1a_loop (fnv1a_round seed c) s len

unfoldable pub fnv1a : Bytes → ℕ
unfolding ct_strlen fnv1a_loop
fnv1a s = fnv1a_loop 2166136261 s (ct_strlen s)

-- `switch (hash)` with its cases; `none` is to fall out of it.
unfoldable pub switch {ℓ} : {A : Type ℓ} → ℕ → List (ℕ × A) → Option A
switch hash [] = none
switch hash (c ∷ cases) = let rest = switch hash cases in if hash == c.0 then some c.1 else rest
