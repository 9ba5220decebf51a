-- ===== src/Fapi/Query/Encoding.antt =====
-- The texts of a query, read back by decoders that are written from RFC 3986 and not from the code.
use binapi.Prelude.{
  ℕ, ◌+◌, ◌-◌, ◌*◌, ◌/◌, ◌%◌, ◌<◌, ◌≡◌, ◌∙◌, inl, inr, refl, ap, Bool, true, false, ◌&&◌, [], ◌∷◌,
  ◌++◌, Option, none, some, ltb, leb, ◌==◌, if◌then◌else◌, get_or, arith, Bool-cases, ltb→lt,
}
use binapi.Prelude.Text.{Bytes}
use binapi.Fapi.Query.{hex, to_hex, upper_hex, is_unreserved, encode_char, percent_encode}

-- The value of a hexadecimal digit of either case.
unfoldable pub digit_value : ℕ → Option ℕ
digit_value c =
    if leb b'0' c && leb c b'9'
    then some (c - b'0')
    else if leb b'A' c && leb c b'F'
    then some (c - b'A' + 10)
    else if leb b'a' c && leb c b'f'
    then some (c - b'a' + 10)
    else none

-- Where a decoder stands: outside an escape, behind its %, behind its first digit.
pub data Escape : Type 0 where
  outside opened : Escape
  half : ℕ → Escape

abbrev pub with_digit : Option ℕ → (ℕ → Option Bytes) → Option Bytes
with_digit none f = none
with_digit (some d) f = f d

abbrev pub prepend : ℕ → Option Bytes → Option Bytes
prepend c none = none
prepend c (some s) = some (c ∷ s)

unfoldable pub decode_from : Escape → Bytes → Option Bytes
decode_from outside [] = some []
decode_from opened [] = none
decode_from (half h) [] = none
decode_from outside (c ∷ s) =
    if c == b'%' then decode_from opened s else prepend c (decode_from outside s)
decode_from opened (c ∷ s) = with_digit (digit_value c) (λ h. decode_from (half h) s)
decode_from (half h) (c ∷ s) =
    with_digit (digit_value c) (λ l. prepend (16 * h + l) (decode_from outside s))

upper-digit : (d : ℕ) → d < 16 → digit_value (get_or upper_hex d 0) ≡ some d
unfolding digit_value
upper-digit d h = ground arith

lower-digit : (d : ℕ) → d < 16 → digit_value (get_or hex d 0) ≡ some d
unfolding digit_value
lower-digit d h = ground arith

decode-escape :
    (h l : ℕ) (t : Bytes)
    → h < 16
    → l < 16
    → decode_from outside (b'%' ∷ get_or upper_hex h 0 ∷ get_or upper_hex l 0 ∷ t)
      ≡ prepend (16 * h + l) (decode_from outside t)
unfolding decode_from
decode-escape h l t p q =
    ap
      (λ o. with_digit o (λ a.
        with_digit (digit_value (get_or upper_hex l 0))
          (λ b. prepend (16 * a + b) (decode_from outside t))))
      (upper-digit h p)
    ∙ ap (λ o. with_digit o (λ b. prepend (16 * h + b) (decode_from outside t))) (upper-digit l q)

decode-plain :
    (ch : ℕ) (t : Bytes)
    → (ch == b'%') ≡ false
    → decode_from outside (ch ∷ t) ≡ prepend ch (decode_from outside t)
unfolding decode_from
decode-plain ch t e = rw e refl

decode-encode_char :
    (ch : ℕ) (t : Bytes)
    → ch < 256
    → decode_from outside (encode_char ch ++ t) ≡ prepend ch (decode_from outside t)
decode-encode_char ch t h = elim (Bool-cases (is_unreserved ch)) [
  | inl e ↦ rw e (decode-plain ch t (ground (arith, e)))
  | inr e ↦ rw e (
      decode-escape (ch / 16) (ch % 16) t (omega arith) (omega arith)
      ∙ ap (λ c. prepend c (decode_from outside t)) {x = 16 * (ch / 16) + ch % 16} {y = ch}
          (omega arith))
]

abbrev pub all_bytes : Bytes → Bool
all_bytes [] = true
all_bytes (c ∷ s) = ltb c 256 && all_bytes s

pub decode-encode :
    (s : Bytes) → all_bytes s ≡ true → decode_from outside (percent_encode s) ≡ some s
unfolding decode_from percent_encode
decode-encode [] h = refl
decode-encode (c ∷ s) h =
    decode-encode_char c (percent_encode s) (ground (arith, h))
    ∙ ap (prepend c) (decode-encode s (ground (arith, h)))

-- The bytes of a text of hexadecimal digits.
unfoldable pub from_hex : Bytes → Option Bytes
from_hex [] = some []
from_hex (h ∷ []) = none
from_hex (h ∷ l ∷ s) =
    with_digit (digit_value h)
      (λ a. with_digit (digit_value l) (λ b. prepend (16 * a + b) (from_hex s)))

-- from_hex
pub from_hex-to_hex :
    (data_ : Bytes) → all_bytes data_ ≡ true → from_hex (to_hex data_) ≡ some data_
unfolding from_hex to_hex
from_hex-to_hex [] h = refl
from_hex-to_hex (c ∷ s) h =
    ap
      (λ o. with_digit o (λ a.
        with_digit (digit_value (get_or hex (c % 16) 0))
          (λ b. prepend (16 * a + b) (from_hex (to_hex s)))))
      (lower-digit (c / 16 % 16) (omega arith))
    ∙ ap (λ o. with_digit o (λ b. prepend (16 * (c / 16 % 16) + b) (from_hex (to_hex s))))
        (lower-digit (c % 16) (omega arith))
    ∙ ap (prepend (16 * (c / 16 % 16) + c % 16)) (from_hex-to_hex s (ground (arith, h)))
    ∙ ap (λ c. some (c ∷ s)) {x = 16 * (c / 16 % 16) + c % 16} {y = c}
        (omega (arith, ltb→lt c 256 (ground (arith, h))))
