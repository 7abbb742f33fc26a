-- ===== src/Store/Months.antt =====
-- The texts of `_month_bounds` of python/analytics/store.py, and their order.
use Prim.Native.Char.{code}
use Prim.Native.String.{String}
use quer_project_q.Common.{
  text_before, ℕ, zero, suc, ◌+◌, ◌*◌, ◌/◌, ◌%◌, ◌≤◌, ◌<◌, ◌≡◌, refl, ap, arith, ltb, if◌then◌else◌,
}
use quer_project_q.Store.{Month, digit_char, decimal, digit_count, padded, first_day}

code-digit_char : (d : ℕ) → d < 10 → code (digit_char d) ≡ 48 + d
unfolding digit_char
code-digit_char zero h = refl
code-digit_char (suc zero) h = refl
code-digit_char (suc (suc zero)) h = refl
code-digit_char (suc (suc (suc zero))) h = refl
code-digit_char (suc (suc (suc (suc zero)))) h = refl
code-digit_char (suc (suc (suc (suc (suc zero))))) h = refl
code-digit_char (suc (suc (suc (suc (suc (suc zero)))))) h = refl
code-digit_char (suc (suc (suc (suc (suc (suc (suc zero))))))) h = refl
code-digit_char (suc (suc (suc (suc (suc (suc (suc (suc zero)))))))) h = refl
code-digit_char (suc (suc (suc (suc (suc (suc (suc (suc (suc zero))))))))) h = refl
code-digit_char (suc (suc (suc (suc (suc (suc (suc (suc (suc (suc d)))))))))) h =
    absurd (omega arith)

-- One digit decides, or leaves it to the rest: `a` and `b` are any numbers that are ordered so.
text_before_digit :
    (a b d e : ℕ) (s t : String)
    → d < 10
    → e < 10
    → (d < e → a < b)
    → (e < d → b < a)
    → (d ≡ e → text_before s t ≡ ltb a b)
    → text_before (String.◌∷◌ (digit_char d) s) (String.◌∷◌ (digit_char e) t) ≡ ltb a b
unfolding text_before
text_before_digit a b d e s t hd he lt gt eq =
    rw (code-digit_char d hd, code-digit_char e he) (ground (arith, lt, gt, eq))

-- Below ten times the limit there is one digit more.
digit_count-step :
    (limit k : ℕ)
    → ((fuel n : ℕ) → n < limit → digit_count fuel n ≤ k)
    → (fuel n : ℕ) → n < 10 * limit
    → digit_count fuel n ≤ suc k
unfolding digit_count
digit_count-step limit k below zero n h = omega arith
digit_count-step limit k below (suc fuel) n h =
    let fewer : n / 10 < limit = omega arith in ground (arith, below fuel (n / 10) fewer)

digit_count-one : (fuel n : ℕ) → n < 10 → digit_count fuel n ≤ 1
unfolding digit_count
digit_count-one zero n h = omega arith
digit_count-one (suc fuel) n h = ground arith

digit_count-two : (fuel n : ℕ) → n < 100 → digit_count fuel n ≤ 2
digit_count-two = digit_count-step 10 1 digit_count-one

digit_count-four : (fuel n : ℕ) → n < 10000 → digit_count fuel n ≤ 4
digit_count-four = digit_count-step 1000 3 (digit_count-step 100 2 digit_count-two)

abbrev widest : ℕ → ℕ → ℕ
widest width digits = if ltb digits width then width else digits

widest-eq : (width digits : ℕ) → digits ≤ width → widest width digits ≡ width
widest-eq width digits h = ground arith

padded-four : (n : ℕ) (tail : String) → n < 10000 → padded 4 n tail ≡ decimal 4 n tail
unfolding padded
padded-four n tail h =
    ap (λ width. decimal width n tail) (widest-eq 4 (digit_count n n) (digit_count-four n n h))

padded-two : (n : ℕ) (tail : String) → n < 100 → padded 2 n tail ≡ decimal 2 n tail
unfolding padded
padded-two n tail h =
    ap (λ width. decimal width n tail) (widest-eq 2 (digit_count n n) (digit_count-two n n h))

-- The number of a month since year 0.
abbrev pub month_number : Month → ℕ
month_number t = t.year * 12 + t.mon

abbrev pub IsMonth : Month → Type 0
IsMonth t = (1 ≤ t.mon) × (t.mon ≤ 12)

mon_before :
    (a b m n : ℕ) (s : String)
    → m < 100
    → n < 100
    → (m < n → a < b)
    → (n < m → b < a)
    → (m ≡ n → text_before s s ≡ ltb a b)
    → text_before (decimal 2 m s) (decimal 2 n s) ≡ ltb a b
unfolding decimal
mon_before a b m n s hm hn lt gt eq =
    text_before_digit a b (m / 10 % 10) (n / 10 % 10) _ _ (omega arith) (omega arith)
      (λ h. lt (omega arith)) (λ h. gt (omega arith))
      λ e.
        text_before_digit a b (m % 10) (n % 10) s s (omega arith) (omega arith)
          (λ h. lt (omega arith)) (λ h. gt (omega arith)) λ f. eq (omega arith)

-- The texts of two months of the same year, past the year.
rest_before :
    (a b m n : ℕ)
    → m ≤ 12
    → n ≤ 12
    → (m < n → a < b)
    → (n < m → b < a)
    → (m ≡ n → a ≡ b)
    → text_before (String.◌∷◌ "-" (decimal 2 m "-01")) (String.◌∷◌ "-" (decimal 2 n "-01"))
      ≡ ltb a b
unfolding text_before
rest_before a b m n hm hn lt gt eq =
    mon_before a b m n "-01" (omega arith) (omega arith) lt gt λ e. ground (arith, eq e)

year_before :
    (a b y z : ℕ) (s r : String)
    → y < 10000
    → z < 10000
    → (y < z → a < b)
    → (z < y → b < a)
    → (y ≡ z → text_before s r ≡ ltb a b)
    → text_before (decimal 4 y s) (decimal 4 z r) ≡ ltb a b
unfolding decimal
year_before a b y z s r hy hz lt gt eq =
    text_before_digit a b (y / 10 / 10 / 10 % 10) (z / 10 / 10 / 10 % 10) _ _ (omega arith)
      (omega arith) (λ h. lt (omega arith)) (λ h. gt (omega arith))
      λ e.
        text_before_digit a b (y / 10 / 10 % 10) (z / 10 / 10 % 10) _ _ (omega arith) (omega arith)
          (λ h. lt (omega arith)) (λ h. gt (omega arith))
          λ f.
            text_before_digit a b (y / 10 % 10) (z / 10 % 10) _ _ (omega arith) (omega arith)
              (λ h. lt (omega arith)) (λ h. gt (omega arith))
              λ g.
                text_before_digit a b (y % 10) (z % 10) s r (omega arith) (omega arith)
                  (λ h. lt (omega arith)) (λ h. gt (omega arith)) λ k. eq (omega arith)

-- Of months in years below 10000, the first days' texts are ordered as the months are.
pub first_day_before :
    (t u : Month)
    → IsMonth t
    → IsMonth u
    → t.year < 10000
    → u.year < 10000
    → text_before (first_day t) (first_day u) ≡ ltb (month_number t) (month_number u)
unfolding first_day
first_day_before t u ht hu hy hz =
    rw
      (
        padded-two t.mon "-01" (omega (arith, ht)),
        padded-two u.mon "-01" (omega (arith, hu)),
        padded-four t.year (String.◌∷◌ "-" (decimal 2 t.mon "-01")) hy,
        padded-four u.year (String.◌∷◌ "-" (decimal 2 u.mon "-01")) hz,
      )
      (year_before (month_number t) (month_number u) t.year u.year _ _ hy hz
        (λ h. omega (arith, ht, hu)) (λ h. omega (arith, ht, hu))
        λ e.
          rest_before (month_number t) (month_number u) t.mon u.mon ht.1 hu.1
            (λ h. omega (arith, e)) (λ h. omega (arith, e)) λ f. omega (arith, e, f))
