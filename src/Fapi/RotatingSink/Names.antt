-- ===== src/Fapi/RotatingSink/Names.antt =====
-- The path of a segment tells its number.
use binapi.Prelude.{
  ℕ, zero, suc, ◌-◌, ◌^◌, ◌<◌, ◌≡◌, ◌∙◌, refl, sym, ap, inl, inr, false, [], ◌∷◌, ◌++◌, append-nil,
  append_assoc, ◌==◌, if◌then◌else◌, arith, Bool-cases, length, length-append, length-replicate,
  take, take_all, take_front, replicate,
}
use binapi.Prelude.Text.{Bytes}
use binapi.Decimal.Parse.Digits.{AllDigits, number}
use binapi.Decimal.Print.{integer_text}
use binapi.Decimal.Print.RoundTrip.{integer_text-Spells}
use binapi.Fapi.RotatingSink.{SinkConfig, zero_pad, lead, segment_name, segment_path}

strip : (s t : Bytes) → take (length (s ++ t) - length t) (s ++ t) ≡ s
strip s t =
    ap (λ n. take n (s ++ t)) {x = length (s ++ t) - length t} {y = length s}
      (omega (arith, length-append s t))
    ∙ take_front s t

zeros-AllDigits : (k : ℕ) (s : Bytes) → AllDigits s → AllDigits (replicate k b'0' ++ s)
zeros-AllDigits zero s h = h
zeros-AllDigits (suc k) s h = (omega arith, zeros-AllDigits k s h)

zeros_number : (k : ℕ) (s : Bytes) → number (replicate k b'0' ++ s) ≡ number s
zeros_number zero s = refl
zeros_number (suc k) s = zeros_number k s

zero_pad_lem : (n : ℕ) → n < 10 ^ 15 → AllDigits (zero_pad n 4) × (number (zero_pad n 4) ≡ n)
unfolding zero_pad
zero_pad_lem n h =
    let sp = integer_text-Spells n 15 h (omega arith) (omega arith) in
    let t = integer_text n in
    let fits = take_all (replicate (4 - length t) b'0' ++ t) 15 (
      omega (
        arith,
        length-append (replicate (4 - length t) b'0') t,
        length-replicate {A = ℕ} (4 - length t) b'0',
        sp.short,
      )) in
    rw fits (zeros-AllDigits (4 - length t) t sp.digits, zeros_number (4 - length t) t ∙ sp.spelled)

-- What stands behind the last dot.
last_piece : Bytes → Bytes → Bytes
last_piece cur [] = cur
last_piece cur (c ∷ s) =
    let longer = last_piece (cur ++ c ∷ []) s in
    let new = last_piece [] s in if c == b'.' then new else longer

last_piece-digits : (cur s : Bytes) → AllDigits s → last_piece cur s ≡ cur ++ s
unfolding last_piece
last_piece-digits cur [] h = sym (append-nil cur)
last_piece-digits cur (c ∷ s) h =
    let e : (c == b'.') ≡ false = ground (arith, h.0) in
    rw e (last_piece-digits (cur ++ c ∷ []) s h.1 ∙ append_assoc cur (c ∷ []) s)

last_piece-dot : (cur a s : Bytes) → last_piece cur (a ++ b'.' ∷ s) ≡ last_piece [] s
unfolding last_piece
last_piece-dot cur [] s = refl
last_piece-dot cur (c ∷ a) s = elim (Bool-cases (c == b'.')) [
  | inl e ↦ rw e (last_piece-dot [] a s)
  | inr e ↦ rw e (last_piece-dot (cur ++ c ∷ []) a s)
]

number_of : SinkConfig → Bytes → ℕ
number_of cfg path = number (last_piece [] (take (length path - length cfg.extension) path))

front : SinkConfig → Bytes → ℕ → Bytes
front cfg timestamp n =
    lead cfg.dir (segment_name cfg timestamp n) ++ cfg.basename ++ b'.' ∷ timestamp

regroup :
    (a b c d e : Bytes)
    → a ++ (b ++ b'.' ∷ (c ++ b'.' ∷ (d ++ e))) ≡ (a ++ b ++ b'.' ∷ c) ++ b'.' ∷ d ++ e
regroup a b c d e = simp (append_assoc)

path_spelled :
    (cfg : SinkConfig) (timestamp : Bytes) (n : ℕ)
    → segment_path cfg timestamp n ≡ front cfg timestamp n ++ b'.' ∷ zero_pad n 4 ++ cfg.extension
unfolding front
path_spelled cfg timestamp n =
    regroup (lead cfg.dir (segment_name cfg timestamp n)) cfg.basename timestamp (zero_pad n 4)
      cfg.extension

number_of_path :
    (cfg : SinkConfig) (timestamp : Bytes) (n : ℕ)
    → n < 10 ^ 15
    → number_of cfg (segment_path cfg timestamp n) ≡ n
unfolding number_of
number_of_path cfg timestamp n h =
    let pad = zero_pad_lem n h in
    let x = front cfg timestamp n ++ b'.' ∷ zero_pad n 4 in
    ap (number_of cfg) (path_spelled cfg timestamp n)
    ∙ ap (λ s. number (last_piece [] s)) (strip x cfg.extension)
    ∙ ap number (
        last_piece-dot [] (front cfg timestamp n) (zero_pad n 4)
        ∙ last_piece-digits [] (zero_pad n 4) pad.0)
    ∙ pad.1

pub path_unique :
    (cfg : SinkConfig) (t u : Bytes) (m n : ℕ)
    → m < 10 ^ 15
    → n < 10 ^ 15
    → segment_path cfg t m ≡ segment_path cfg u n
    → m ≡ n
path_unique cfg t u m n h k e =
    sym (number_of_path cfg t m h) ∙ ap (number_of cfg) e ∙ number_of_path cfg u n k
