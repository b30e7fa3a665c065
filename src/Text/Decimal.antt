-- ===== src/Text/Decimal.antt =====
-- Numbers in templates (`${n}`) and numbers read from text (`Number(s)` of a run of digits).
use Prim.Native.Nat.{◌*◌}
use ai_support_agent_builder.Prelude.{
  ℕ, zero, suc, ◌+◌, ◌-◌, ◌/◌, ◌%◌, ◌<◌, List, [], ◌∷◌, ◌++◌, Bool, true, ◌&&◌, leb, ltb,
  if◌then◌else◌, ◌≡◌, refl, ◌∙◌, arith, length, Bool-cases, inl, inr, ltb→lt, if_elim,
  length-append, ◌≤◌,
}

unfoldable pub is_digit : ℕ → Bool
is_digit c = leb b'0' c && leb c b'9'

-- The value of a run of digits behind the value so far.
unfoldable pub number_from : ℕ → List ℕ → ℕ
number_from n [] = n
number_from n (c ∷ s) = number_from (n * 10 + (c - b'0')) s

unfoldable pub number : List ℕ → ℕ
unfolding number_from
number s = number_from 0 s

decimal_from : ℕ → ℕ → List ℕ
decimal_from zero n = []
decimal_from (suc fuel) n =
    let more = decimal_from fuel (n / 10) in
    if ltb n 10 then (b'0' + n) ∷ [] else more ++ (b'0' + n % 10) ∷ []

-- `String(n)`. Each round divides by ten, so `n + 1` rounds are enough.
unfoldable pub decimal : ℕ → List ℕ
unfolding decimal_from
decimal n = decimal_from (suc n) n

number_from-append :
    (n : ℕ) (s : List ℕ) (c : ℕ) → number_from n (s ++ c ∷ []) ≡ number_from n s * 10 + (c - b'0')
unfolding number_from
number_from-append n [] c = refl
number_from-append n (d ∷ s) c = number_from-append (n * 10 + (d - b'0')) s c

number_from-decimal_from : (fuel n : ℕ) → n < fuel → number_from 0 (decimal_from fuel n) ≡ n
unfolding decimal_from number_from
number_from-decimal_from zero n h = elim h [ ]
number_from-decimal_from (suc fuel) n h = elim (Bool-cases (ltb n 10)) [
  | inl small ↦ ground arith
  | inr big ↦ rw big (
      number_from-append 0 (decimal_from fuel (n / 10)) (b'0' + n % 10)
      ∙ ground (arith, number_from-decimal_from fuel (n / 10)))
]

-- A number that is written and read comes back.
pub number-decimal : (n : ℕ) → number (decimal n) ≡ n
unfolding number decimal
number-decimal n = number_from-decimal_from (suc n) n (omega arith)

decimal_305 : number (decimal 305) ≡ 305
unfolding number decimal
decimal_305 = refl

abbrev pub AllDigits : List ℕ → Type 0
AllDigits [] = Unit
AllDigits (c ∷ s) = (is_digit c ≡ true) × AllDigits s

AllDigits-snoc : (s : List ℕ) (d : ℕ) → d < 10 → AllDigits s → AllDigits (s ++ (b'0' + d) ∷ [])
unfolding is_digit
AllDigits-snoc [] d h a = (ground arith, tt)
AllDigits-snoc (c ∷ s) d h (e, a) = (e, AllDigits-snoc s d h a)

decimal_from-AllDigits : (fuel n : ℕ) → AllDigits (decimal_from fuel n)
unfolding decimal_from
decimal_from-AllDigits zero n = tt
decimal_from-AllDigits (suc fuel) n =
    if_elim AllDigits (ltb n 10) _ _ (λ e. AllDigits-snoc [] n (ltb→lt n 10 e) tt)
      (λ e.
        AllDigits-snoc (decimal_from fuel (n / 10)) (n % 10) (omega arith)
          (decimal_from-AllDigits fuel (n / 10)))

pub decimal-AllDigits : (n : ℕ) → AllDigits (decimal n)
unfolding decimal
decimal-AllDigits n = decimal_from-AllDigits (suc n) n

pub length-decimal : (n : ℕ) → 1 ≤ length (decimal n)
unfolding decimal decimal_from
length-decimal n =
    if_elim (λ s. 1 ≤ length s) (ltb n 10) ((b'0' + n) ∷ [])
      (decimal_from n (n / 10) ++ (b'0' + n % 10) ∷ []) (λ e. omega arith)
      (λ e. omega (arith, length-append (decimal_from n (n / 10)) ((b'0' + n % 10) ∷ [])))
