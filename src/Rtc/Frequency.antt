-- ===== src/Rtc/Frequency.antt =====
-- student-distrib/rtc.c: the frequencies that `rtc_write` takes, and the rate that `rtc_set_freq` sends.
use linux_like_os_kernel.Prelude.{
  ℕ, zero, suc, ◌+◌, ◌-◌, ◌*◌, ◌^◌, ◌<◌, ◌≤◌, Bool, true, ◌||◌, not, ltb, ◌==◌, if◌then◌else◌, pos,
  failure, update, some, ◌≡◌, ◌≢◌, ◌⊎◌, inl, inr, refl, arith, Bool-cases, ==_iff, holds_below,
  holds_below_lem, pow-suc, pow-zero, ltb→lt, le→ltb, ℕ_discrete, ap,
}
use linux_like_os_kernel.Machine.{Machine, now_pcb_id, u8}
use linux_like_os_kernel.FileSystem.{read32}
use linux_like_os_kernel.Rtc.{rtc_write, valid_freq, rate_loop}

-- The frequencies from 2 to 1024 that are powers of 2.
abbrev pub IsRate : ℕ → Type 0
IsRate w = (k : ℕ) × (0 < k) × (k ≤ 10) × (w ≡ 2 ^ k)

-- The exponent of a power of 2 in that range.
abbrev exponent : ℕ → ℕ → ℕ
exponent zero w = 1
exponent (suc n) w = if w == 2 ^ suc n then suc n else exponent n w

exponent_bounds : (n w : ℕ) → 0 < n → (0 < exponent n w) × (exponent n w ≤ n)
exponent_bounds zero w h = absurd (omega arith)
exponent_bounds (suc zero) w h = ground arith
exponent_bounds (suc (suc n)) w h = ground (arith, exponent_bounds (suc n) w)

accepted_table : holds_below 1025 (λ w. not (valid_freq w 4) || w == 2 ^ exponent 10 w) ≡ true
unfolding holds_below valid_freq
accepted_table = refl

powers_table : holds_below 10 (λ k. valid_freq (2 ^ (k + 1)) 4) ≡ true
unfolding holds_below valid_freq
powers_table = refl

valid_freq_bounds :
    (w nbytes : ℕ) → w < 2 ^ 32 → valid_freq w nbytes ≡ true → (w < 1025) × (nbytes ≡ 4)
unfolding valid_freq
valid_freq_bounds w nbytes h v = ground arith

valid_freq-IsRate : (w nbytes : ℕ) → w < 2 ^ 32 → valid_freq w nbytes ≡ true → IsRate w
valid_freq-IsRate w nbytes h v =
    let (small, four) = valid_freq_bounds w nbytes h v in
    let (lo, hi) = exponent_bounds 10 w (omega arith) in
    let v4 : valid_freq w 4 ≡ true = rw four at v in
    (
      exponent 10 w,
      lo,
      hi,
      (==_iff w (2 ^ exponent 10 w)).0 (
          implied (valid_freq w 4) (w == 2 ^ exponent 10 w) v4 (
            holds_below_lem 1025 (λ x. not (valid_freq x 4) || x == 2 ^ exponent 10 x) w
              accepted_table small)),
    )
  where
    implied : (a b : Bool) → a ≡ true → (not a || b) ≡ true → b ≡ true
    implied a b p q = ground arith

IsRate-valid_freq : (w : ℕ) → IsRate w → valid_freq w 4 ≡ true
IsRate-valid_freq w (k, lo, hi, e) =
    rw (e, exact)
      (holds_below_lem 10 (λ j. valid_freq (2 ^ (j + 1)) 4) (k - 1) powers_table (omega arith))
  where
    exact : k ≡ k - 1 + 1
    exact = omega arith

-- `rtc_write` of 4 bytes that hold one of 2, 4, 8, …, 1024 stores it as the process's frequency and
-- returns 0. On a NULL buffer, another length or another value it returns -1 and changes nothing. The
-- value in memory is a uint32_t.
pub rtc_write_lem :
    (buf nbytes : ℕ) (m : Machine)
    → read32 m.mem buf < 2 ^ 32
    → ((buf ≢ 0)
        × (nbytes ≡ 4)
        × IsRate (read32 m.mem buf)
        × (rtc_write buf nbytes m ≡ (
          pos 0,
          record m {
            pcb =
                update m.pcb
                  (now_pcb_id m)
                  (record (m.pcb (now_pcb_id m)) { rtc_freq = read32 m.mem buf });
          },
        )))
      ⊎ (((buf ≡ 0) ⊎ ((nbytes ≢ 4) ⊎ ¬ IsRate (read32 m.mem buf)))
          × (rtc_write buf nbytes m ≡ (failure, m)))
unfolding rtc_write
rtc_write_lem buf nbytes m h = elim (Bool-cases (buf == 0)) [
  | inl null ↦ inr (inl ((==_iff buf 0).0 null), rw null)
  | inr some_buf ↦ elim (Bool-cases (valid_freq (read32 m.mem buf) nbytes)) [
    | inl good ↦ inl (
      ground arith,
      (valid_freq_bounds (read32 m.mem buf) nbytes h good).1,
      valid_freq-IsRate (read32 m.mem buf) nbytes h good,
      rw (some_buf, good),
    )
    | inr bad ↦ elim (ℕ_discrete nbytes 4) [
      | yes four ↦ inr (
        inr (
            inr (λ r.
              cc
                (IsRate-valid_freq (read32 m.mem buf) r, ap (valid_freq (read32 m.mem buf)) four))),
        rw (some_buf, bad),
      )
      | no other ↦ inr (inr (inl other), rw (some_buf, bad))
    ]
  ]
]

rate_loop-doublings :
    (fuel freq rate : ℕ)
    → 32768 ≤ freq * 2 ^ fuel
    → rate + fuel < 256
    → (k : ℕ) × (rate_loop fuel freq rate ≡ some (rate + k))
      × (32768 ≤ freq * 2 ^ k)
      × ((k ≡ 0) ⊎ (freq * 2 ^ k < 65536))
unfolding rate_loop
rate_loop-doublings zero freq rate h bound =
    (0, rw (le→ltb freq 32768 (omega (arith, pow-zero 2))) (ap some (omega arith)), h, inl refl)
rate_loop-doublings (suc fuel) freq rate h bound = elim (Bool-cases (ltb freq 32768)) [
  | inl low ↦
      let (k, result, reached, short) =
        rate_loop-doublings fuel (freq * 2) (u8 (rate + 1)) (double freq fuel h) (omega arith) in
      (
        suc k,
        rw (low, rate_loop, result) (ap some (omega arith)),
        double' freq k reached,
        inr (last freq k low short),
      )
  | inr high ↦
      (0, rw (high, rate_loop) (ap some (omega arith)), ground (arith, pow-zero 2), inl refl)
]
  where
    double : (f n : ℕ) → 32768 ≤ f * 2 ^ suc n → 32768 ≤ f * 2 * 2 ^ n
    double f n p = omega (arith, ap (λ (t : ℕ). f * t) (pow-suc 2 n))

    double' : (f n : ℕ) → 32768 ≤ f * 2 * 2 ^ n → 32768 ≤ f * 2 ^ suc n
    double' f n p = omega (arith, ap (λ (t : ℕ). f * t) (pow-suc 2 n))

    last :
        (f n : ℕ) → ltb f 32768 ≡ true → (n ≡ 0) ⊎ (f * 2 * 2 ^ n < 65536) → f * 2 ^ suc n < 65536
    last f n p (inl e) = rw e (omega (arith, ltb→lt f 32768 p))
    last f n p (inr q) = omega (arith, ap (λ (t : ℕ). f * t) (pow-suc 2 n))

-- The loop of `rtc_set_freq` ends for every frequency from 1 to 32768: it doubles the frequency `k`
-- times until it is at least 32768, no more often than needed, and the rate that it sends is `1 + k`.
pub rate_loop_lem :
    (freq : ℕ)
    → 0 < freq
    → freq ≤ 32768
    → (k : ℕ) × (rate_loop 15 freq 1 ≡ some (1 + k))
      × (32768 ≤ freq * 2 ^ k)
      × ((k ≡ 0) ⊎ (freq * 2 ^ k < 65536))
rate_loop_lem freq lo hi = rate_loop-doublings 15 freq 1 (omega arith) (omega arith)
