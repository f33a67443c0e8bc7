-- ===== src/StringTools/Digits.antt =====
-- `size_t_to_string` writes the decimal digits of its number and a closing 0, and nothing else.
use orb_weaver.Memory.Text.{write-set}
use orb_weaver.Memory.{Bytes, write}
use native.Mathlib.Nat.{pow-suc, zero-add}
use mathlib.Core.List.{append_assoc}
use orb_weaver.Prelude.{
  ℕ, zero, suc, ◌+◌, ◌-◌, ◌*◌, ◌/◌, ◌%◌, ◌^◌, ◌≤◌, ◌<◌, ◌≡◌, refl, ap, ◌∙◌, true, false, [], ◌∷◌,
  ◌++◌, arith, ok, ◌==◌, if◌then◌else◌, length, length-append, take, drop, set-split,
  length-take_of_le, Bool-cases, inl, inr,
}
use orb_weaver.StringTools.{count_loop, digit_loop, digit_fuel, size_t_to_string}

-- The decimal digits of `n` in front of `rest`.
unfoldable pub digits : ℕ → ℕ → Bytes → Bytes
digits zero n rest = rest
digits (suc fuel) n rest =
    let more = digits fuel (n / 10) ((n % 10 + b'0') ∷ rest) in
    if n / 10 == 0 then (n % 10 + b'0') ∷ rest else more

-- The decimal text of a 64-bit number.
abbrev pub decimal : ℕ → Bytes
decimal n = digits digit_fuel n []

-- The number that a decimal text continues, read from its front.
unfoldable pub value_from : ℕ → Bytes → ℕ
value_from v [] = v
value_from v (c ∷ cs) = value_from (v * 10 + (c - b'0')) cs

abbrev pub IsDigits : Bytes → Type 0
IsDigits [] = Unit
IsDigits (c ∷ cs) = (b'0' ≤ c) × (c ≤ b'9') × IsDigits cs

div_ten : (n k : ℕ) → n < 10 ^ suc k → n / 10 < 10 ^ k
div_ten n k h = omega (arith, pow-suc 10 k)

one_more : (n k : ℕ) → n / 10 < 10 ^ k → (n / 10 == 0) ≡ false → 0 < k
one_more n zero h more = absurd (ground arith)
one_more n (suc k) h more = omega arith

regroup : (n : ℕ) → n / 10 * 10 + (n % 10 + 48 - 48) ≡ n
regroup n = omega arith

pub value_from-digits :
    (fuel n : ℕ) (rest : Bytes)
    → n < 10 ^ fuel
    → value_from 0 (digits fuel n rest) ≡ value_from n rest
unfolding value_from digits
value_from-digits zero n rest h = (let e : n ≡ 0 = omega arith in rw e)
value_from-digits (suc fuel) n rest h = elim (Bool-cases (n / 10 == 0)) [
  | inl last ↦ rw last (ap (λ v. value_from v rest) (ground arith))
  | inr more ↦ rw more (
      value_from-digits fuel (n / 10) ((n % 10 + b'0') ∷ rest) (div_ten n fuel h)
      ∙ ap (λ v. value_from v rest) (regroup n))
]

pub value_from-decimal : (n : ℕ) → n < 10 ^ digit_fuel → value_from 0 (decimal n) ≡ n
unfolding value_from
value_from-decimal n h = value_from-digits digit_fuel n [] h

pub digits-IsDigits : (fuel n : ℕ) (rest : Bytes) → IsDigits rest → IsDigits (digits fuel n rest)
unfolding digits
digits-IsDigits zero n rest h = h
digits-IsDigits (suc fuel) n rest h =
    ground (arith, digits-IsDigits fuel (n / 10) ((n % 10 + b'0') ∷ rest))

-- How many digits there are.
unfoldable pub size : ℕ → ℕ → ℕ
size zero n = 0
size (suc fuel) n = let more = size fuel (n / 10) in if n / 10 == 0 then 1 else suc more

pub length-digits :
    (fuel n : ℕ) (rest : Bytes) → length (digits fuel n rest) ≡ size fuel n + length rest
unfolding digits size
length-digits zero n rest = omega arith
length-digits (suc fuel) n rest =
    ground (arith, length-digits fuel (n / 10) ((n % 10 + b'0') ∷ rest))

pub size-le : (fuel n k : ℕ) → n < 10 ^ k → 0 < k → size fuel n ≤ k
unfolding size
size-le zero n k h pos = omega arith
size-le (suc fuel) n zero h pos = absurd (omega arith)
size-le (suc fuel) n (suc k) h pos = elim (Bool-cases (n / 10 == 0)) [
  | inl last ↦ rw last (omega arith)
  | inr more ↦ rw more (
      let below = div_ten n k h in
      omega (arith, size-le fuel (n / 10) k below (one_more n k below more)))
]

pub count_loop-size :
    (fuel n counter : ℕ)
    → n < 10 ^ fuel
    → 0 < fuel
    → count_loop fuel n counter ≡ ok (counter + size fuel n)
unfolding count_loop size
count_loop-size zero n counter h pos = absurd (omega arith)
count_loop-size (suc fuel) n counter h pos = elim (Bool-cases (n / 10 == 0)) [
  | inl last ↦ rw last
  | inr more ↦ rw more (
      let below = div_ten n fuel h in
      count_loop-size fuel (n / 10) (counter + 1) below (one_more n fuel below more)
      ∙ ap ok (omega arith))
]

write-append :
    (front : Bytes) (x : ℕ) (back : Bytes) (v : ℕ)
    → write (front ++ x ∷ back) (length front) v ≡ ok (front ++ v ∷ back)
unfolding write
write-append [] x back v = refl
write-append (c ∷ front) x back v = rw (write-append front x back v)

unsnoc :
    (xs : Bytes) (k : ℕ)
    → length xs ≡ suc k
    → (ys : Bytes) × (x : ℕ) × (xs ≡ ys ++ x ∷ []) × (length ys ≡ k)
unsnoc [] k h = absurd (omega arith)
unsnoc (x ∷ []) k h = ([], x, refl, omega arith)
unsnoc (x ∷ y ∷ xs) zero h = absurd (omega arith)
unsnoc (x ∷ y ∷ xs) (suc k) h =
    let (ys, z, e, l) = unsnoc (y ∷ xs) k (omega arith) in (x ∷ ys, z, ap (◌∷◌ x) e, omega arith)

length-snoc : (ys : Bytes) (x : ℕ) → length (ys ++ x ∷ []) ≡ suc (length ys)
length-snoc ys x = omega (arith, length-append ys (x ∷ []))

pub size_pos : (fuel n : ℕ) → 0 < size (suc fuel) n
unfolding size
size_pos fuel n = ground arith

size_more : (fuel n : ℕ) → (n / 10 == 0) ≡ false → size (suc fuel) n ≡ suc (size fuel (n / 10))
unfolding size
size_more fuel n more = rw more

digits-append :
    (fuel n : ℕ) (back rest : Bytes) → digits fuel n (back ++ rest) ≡ digits fuel n back ++ rest
unfolding digits
digits-append zero n back rest = refl
digits-append (suc fuel) n back rest =
    ground (arith, digits-append fuel (n / 10) ((n % 10 + b'0') ∷ back) rest)

digit_step :
    (fuel n : ℕ) (ys : Bytes) (x : ℕ) (back : Bytes)
    → suc (length ys) ≡ size (suc fuel) n
    → ((n / 10 == 0) ≡ false
        → digit_loop fuel (n / 10) (length ys) (ys ++ (n % 10 + b'0') ∷ back)
          ≡ ok (digits fuel (n / 10) ((n % 10 + b'0') ∷ back)))
    → digit_loop (suc fuel) n (suc (length ys)) (ys ++ x ∷ back) ≡ ok (digits (suc fuel) n back)
unfolding digit_loop digits size
digit_step fuel n [] x back l next = rw (write-append [] x back) (ground (arith, next))
digit_step fuel n (y ∷ ys) x back l next = rw (write-append (y ∷ ys) x back) (ground (arith, next))

digit_loop-digits :
    (fuel n : ℕ) (front back : Bytes)
    → n < 10 ^ fuel
    → 0 < fuel
    → length front ≡ size fuel n
    → digit_loop fuel n (length front) (front ++ back) ≡ ok (digits fuel n back)
digit_loop-digits zero n front back h pos l = absurd (omega arith)
digit_loop-digits (suc fuel) n front back h pos l =
    let (ys, x, e, m) = unsnoc front (length front - 1) (omega (arith, size_pos fuel n)) in
    let below = div_ten n fuel h in
    rw (e, append_assoc, length-snoc)
      (digit_step fuel n ys x back (omega (arith, l, m, size_pos fuel n)) (λ more.
        digit_loop-digits fuel (n / 10) ys ((n % 10 + b'0') ∷ back) below
          (one_more n fuel below more) (omega (arith, l, m, size_more fuel n more))))

-- For a 64-bit number and a buffer with room for its digits and a closing 0, `size_t_to_string`
-- writes the decimal digits, most significant first, and the 0, and leaves the bytes behind them.
pub size_t_to_string-decimal :
    (n : ℕ) (result : Bytes)
    → n < 2 ^ 64
    → length (decimal n) < length result
    → size_t_to_string n result ≡ ok (true, decimal n ++ 0 ∷ drop (suc (length (decimal n))) result)
unfolding size_t_to_string
size_t_to_string-decimal n result small room =
    let k = size digit_fuel n in
    let below : n < 10 ^ digit_fuel = omega arith in
    let wide : length (decimal n) ≡ k = omega (arith, length-digits digit_fuel n []) in
    let inside : k < length result = omega arith in
    let front : length (take k result) ≡ k = length-take_of_le k result (omega arith) in
    let run : digit_loop digit_fuel n k (take k result ++ 0 ∷ drop (suc k) result)
        ≡ ok (digits digit_fuel n (0 ∷ drop (suc k) result)) =
      rw front at (
        digit_loop-digits digit_fuel n (take k result) (0 ∷ drop (suc k) result) below (omega arith)
          front) in
    rw
      (
        count_loop-size digit_fuel n 0 below (omega arith),
        zero-add,
        write-set result k 0 inside,
        set-split result k 0 inside,
        run,
        wide,
      )
      (ap (λ b. ok (true, b)) (digits-append digit_fuel n [] (0 ∷ drop (suc k) result)))
