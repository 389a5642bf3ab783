-- ===== src/CString/Digits.antt =====
-- student-distrib/lib.c: `strrev` turns a string round, and `itoa` writes a number's digits.
use linux_like_os_kernel.Prelude.{
  ℕ, zero, suc, ◌+◌, ◌-◌, ◌*◌, ◌/◌, ◌%◌, ◌^◌, ◌<◌, ◌≤◌, ◌&&◌, ltb, leb, ◌==◌, if◌then◌else◌, update,
  ◌≡◌, ◌≢◌, ◌⊎◌, inl, inr, arith, refl, Bool-cases, ==_iff, ne→==, dec_lt, pow-zero, pow-suc, ap,
  ◌∙◌,
}
use linux_like_os_kernel.Machine.{Memory}
use linux_like_os_kernel.CString.{strrev_loop, strrev, itoa_loop, itoa, lookup_digit}
use linux_like_os_kernel.CString.Strings.{IsString, strlen_lem}

-- The byte at `a` after the bytes from offset `beg` to offset `end` of `s` have been turned round.
abbrev pub reversed : Memory → ℕ → ℕ → ℕ → ℕ → ℕ
reversed m s beg end a =
    if leb (s + beg) a && leb a (s + end) then m (s + (beg + end - (a - s))) else m a

strrev_loop_lem :
    (fuel s beg end : ℕ) (m : Memory)
    → end < beg + 2 * fuel
    → (a : ℕ) → strrev_loop fuel s beg end m a ≡ reversed m s beg end a
unfolding strrev_loop
strrev_loop_lem zero s beg end m h a = ground arith
strrev_loop_lem (suc fuel) s beg end m h a = elim (Bool-cases (ltb beg end)) [
  | inl e ↦
      let less : beg < end = ground arith in
      rw (e, strrev_loop)
        (ground (
          arith,
          strrev_loop_lem fuel s (beg + 1) (end - 1)
              (update (update m (s + end) (m (s + beg))) (s + beg) (m (s + end))) (omega arith) a,
        ))
  | inr e ↦ rw (e, strrev_loop) (ground arith)
]

-- `strrev` turns the `n` characters of a string round and changes no other byte.
pub strrev_lem :
    (s n : ℕ) (m : Memory)
    → IsString m s n
    → n < 2 ^ 32
    → (a : ℕ) → strrev s m a ≡ (if leb s a && ltb a (s + n) then m (s + (n - 1 - (a - s))) else m a)
unfolding strrev
strrev_lem s zero m str h a = rw (strlen_lem m s 0 str h) (ground arith)
strrev_lem s (suc n) m str h a =
    rw (strlen_lem m s (suc n) str h)
      (ground (arith, strrev_loop_lem (suc n) s 0 n m (omega arith) a))

-- The value of a digit: `0` to `9`, then `A` to `Z`. Every other character has the value 36, which is none of a
-- digit's.
abbrev pub digit_value : ℕ → ℕ
digit_value c =
    if leb b'0' c && leb c b'9'
    then c - b'0'
    else if leb b'A' c && leb c b'Z'
    then c - b'A' + 10
    else 36

digit_value-lookup_digit : (i : ℕ) → i < 36 → digit_value (lookup_digit i) ≡ i
digit_value-lookup_digit i h = ground arith

-- The number that `n` digits spell, the highest place first.
unfoldable pub number : Memory → ℕ → ℕ → ℕ → ℕ
number m p radix zero = 0
number m p radix (suc n) = number m p radix n * radix + digit_value (m (p + n))

-- The same with the lowest place first, the order in which the loop writes them.
number_low : Memory → ℕ → ℕ → ℕ → ℕ
number_low m p radix zero = 0
number_low m p radix (suc n) = digit_value (m p) + number_low m (p + 1) radix n * radix

number-reversed :
    (m m' : Memory) (p q radix n : ℕ)
    → ((i : ℕ) → i < n → m' (q + i) ≡ m (p + (n - 1 - i)))
    → number m' q radix n ≡ number_low m p radix n
unfolding number number_low
number-reversed m m' p q radix zero h = refl
number-reversed m m' p q radix (suc n) h =
    ground (arith, number-reversed m m' (p + 1) q radix n (λ i lt. ground (arith, h i)), h n)

number_low-agree :
    (m m' : Memory) (p radix n : ℕ)
    → ((a : ℕ) → p ≤ a → a < p + n → m' a ≡ m a)
    → number_low m' p radix n ≡ number_low m p radix n
unfolding number_low
number_low-agree m m' p radix zero h = refl
number_low-agree m m' p radix (suc n) h =
    ground (
      arith,
      h p,
      number_low-agree m m' (p + 1) radix n (λ a lo hi. h a (omega arith) (omega arith)),
    )

-- What the loop has written when it stops: `n` digits of `v` from the lowest, and a terminator.
record IsLow (m m' : Memory) (p radix v fuel : ℕ) : Type 0 where
  n : ℕ
  short : n ≤ fuel
  string : IsString m' p n
  digits : (i : ℕ) → i < n → digit_value (m' (p + i)) < radix
  value : number_low m' p radix n ≡ v
  outside : (a : ℕ) → (a < p) ⊎ (p + n < a) → m' a ≡ m a

IsLow-suc :
    (m m' : Memory) (p radix v fuel : ℕ)
    → 2 ≤ radix
    → radix ≤ 36
    → v ≢ 0
    → IsLow (update m p (lookup_digit (v % radix))) m' (p + 1) radix (v / radix) fuel
    → IsLow m m' p radix v (suc fuel)
unfolding number_low
IsLow-suc m m' p radix v fuel lo hi ne low = record {
  n = suc low.n;
  short = omega (arith, low.short);
  string = record {
    nonzero = λ i lt. elim (Bool-cases (i == 0)) [
      | inl e ↦ ground (arith, here)
      | inr e ↦ ground (arith, low.string.nonzero (i - 1))
    ];
    ends = ground (arith, low.string.ends);
  };
  digits = λ i lt. elim (Bool-cases (i == 0)) [
    | inl e ↦ ground (arith, here, digit_value-lookup_digit (v % radix) (grind arith), remainder)
    | inr e ↦ ground (arith, low.digits (i - 1))
  ];
  value = ground (
    arith,
    here,
    low.value,
    digit_value-lookup_digit (v % radix) (grind arith),
    division v radix (omega arith),
  );
  outside = λ a out. ground (arith, low.outside a);
}
  where
    here : m' p ≡ lookup_digit (v % radix)
    here = ground (arith, low.outside p)

    remainder : v % radix < radix
    remainder = grind arith

    division : (x k : ℕ) → 0 < k → x % k + x / k * k ≡ x
    division x k pos = grind arith

div-lt_of_lt_mul : (x k r : ℕ) → 0 < r → x < k * r → x / r < k
div-lt_of_lt_mul x k r p h = elim (dec_lt (x / r) k) [ yes lt ↦ lt | no ge ↦ absurd (grind arith) ]

-- A number below `radix ^ bound` has at most `bound` digits, if the fuel is enough for them.
itoa_loop-IsLow :
    (fuel bound v p radix : ℕ) (m : Memory)
    → 2 ≤ radix
    → radix ≤ 36
    → bound ≤ fuel
    → v < radix ^ bound
    → IsLow m (itoa_loop (suc fuel) v p radix m) p radix v bound
unfolding itoa_loop number_low
itoa_loop-IsLow fuel bound zero p radix m lo hi le h = record {
  n = 0;
  short = omega arith;
  string = record { nonzero = λ i lt. absurd (omega arith); ends = ground arith };
  digits = λ i lt. absurd (omega arith);
  value = refl;
  outside = λ a out. ground arith;
}
itoa_loop-IsLow fuel zero (suc v) p radix m lo hi le h = absurd (omega (arith, pow-zero radix))
itoa_loop-IsLow zero (suc bound) (suc v) p radix m lo hi le h = absurd (omega arith)
itoa_loop-IsLow (suc fuel) (suc bound) (suc v) p radix m lo hi le h =
    rw (ne→== (suc v) 0 (omega arith), itoa_loop)
      (IsLow-suc m _ p radix (suc v) bound lo hi (omega arith) (
        itoa_loop-IsLow fuel bound (suc v / radix) (p + 1) radix
          (update m p (lookup_digit (suc v % radix))) lo hi (omega arith)
          (div-lt_of_lt_mul (suc v) (radix ^ bound) radix (omega arith)
            (omega (arith, pow-suc radix bound)))))

-- What `itoa` leaves in memory: a string of 1 to `bound` digits of the radix that spells the value, its highest
-- place first, and no change outside of the string.
pub record IsNumeral (m m' : Memory) (p radix v bound : ℕ) : Type 0 where
  pub n : ℕ
  pub nonempty : 0 < n
  pub short : n ≤ bound
  pub string : IsString m' p n
  pub digits : (i : ℕ) → i < n → digit_value (m' (p + i)) < radix
  pub value : number m' p radix n ≡ v
  pub outside : (a : ℕ) → (a < p) ⊎ (p + n < a) → m' a ≡ m a

strrev-IsNumeral :
    (m m' : Memory) (p radix v bound : ℕ)
    → 0 < v
    → bound ≤ 32
    → IsLow m m' p radix v bound
    → IsNumeral m (strrev p m') p radix v bound
unfolding number_low
strrev-IsNumeral m m' p radix v bound h le low = record {
  n = low.n;
  nonempty = elim (Bool-cases (low.n == 0)) [
    | inl e ↦ absurd (omega (arith, ap (number_low m' p radix) ((==_iff low.n 0).0 e), low.value))
    | inr e ↦ ground arith
  ];
  short = low.short;
  string = record {
    nonzero = λ i lt. ground (arith, turned (p + i), low.string.nonzero (low.n - 1 - i));
    ends = ground (arith, turned (p + low.n), low.string.ends);
  };
  digits = λ i lt. ground (arith, turned (p + i), low.digits (low.n - 1 - i));
  value =
      number-reversed m' (strrev p m') p p radix low.n (λ i lt. ground (arith, turned (p + i)))
      ∙ low.value;
  outside = λ a out. ground (arith, turned a, low.outside a);
}
  where
    turned :
        (a : ℕ)
        → strrev p m' a
          ≡ (if leb p a && ltb a (p + low.n) then m' (p + (low.n - 1 - (a - p))) else m' a)
    turned = strrev_lem p low.n m' low.string (omega (arith, low.short))

-- `itoa` of a value below `radix ^ bound`, in a radix from 2 to 36 and with a bound from 1 to 32,
-- writes a terminated string of 1 to `bound` digits of the radix, from `0` to `9` and `A` to `Z`, that
-- reads back as the value, and changes no byte outside of it.
pub itoa-IsNumeral :
    (value buf radix bound : ℕ) (m : Memory)
    → 2 ≤ radix
    → radix ≤ 36
    → 0 < bound
    → bound ≤ 32
    → value < radix ^ bound
    → IsNumeral m (itoa value buf radix m) buf radix value bound
unfolding itoa number
itoa-IsNumeral zero buf radix bound m lo hi some_digit le h = record {
  n = 1;
  nonempty = omega arith;
  short = omega arith;
  string = record { nonzero = λ i lt. ground arith; ends = ground arith };
  digits = λ i lt. ground arith;
  value = ground arith;
  outside = λ a out. ground arith;
}
itoa-IsNumeral (suc v) buf radix bound m lo hi some_digit le h =
    rw (ne→== (suc v) 0 (omega arith), itoa)
      (strrev-IsNumeral m (itoa_loop 33 (suc v) buf radix m) buf radix (suc v) bound (omega arith)
        le (itoa_loop-IsLow 32 bound (suc v) buf radix m lo hi le h))
