-- ===== src/Rtc/Ticks.antt =====
-- student-distrib/rtc.c: how long `rtc_read` waits.
use linux_like_os_kernel.Prelude.{
  ℕ, zero, suc, ◌-◌, ◌/◌, ◌<◌, Bool, true, false, ltb, ◌==◌, if◌then◌else◌, ℤ, pos, update, Option,
  none, some, ◌≡◌, ◌≢◌, ◌||◌, ◌↔◌, inl, inr, refl, arith, Bool-cases, ne→==, ==_refl, le→ltb,
  lt→ltb, ap, ◌∙◌, ==_iff,
}
use linux_like_os_kernel.Machine.{Machine, Pcb, now_pcb_id, term_pcb_id, set_pcb}
use linux_like_os_kernel.Pic.{send_eoi}
use linux_like_os_kernel.Rtc.{tick, tick_terms, rtc_interrupt_handler, rtc_wait, rtc_read}

-- Each terminal has a process, one of its own four.
pub record IsRunning (m : Machine) : Type 0 where
  pub first : (m.term 0).cur_pcb_id < 4
  pub second : (m.term 1).cur_pcb_id < 4
  pub third : (m.term 2).cur_pcb_id < 4

-- The process of one of the terminals.
abbrev pub IsTermPcb : Machine → ℕ → Type 0
IsTermPcb m id = (i : ℕ) × (i < 3) × (id ≡ term_pcb_id m i)

-- The three PCBs that the handler looks at.
abbrev ticked : Machine → ℕ → Bool
ticked m id = id == term_pcb_id m 0 || id == term_pcb_id m 1 || id == term_pcb_id m 2

ticked_iff : (m : Machine) (id : ℕ) → (ticked m id ≡ true) ↔ IsTermPcb m id
ticked_iff m id = (forth, back)
  where
    forth : ticked m id ≡ true → IsTermPcb m id
    forth h = elim (Bool-cases (id == term_pcb_id m 0)) [
      | inl e ↦ (0, omega arith, (==_iff _ _).0 e)
      | inr e ↦ elim (Bool-cases (id == term_pcb_id m 1)) [
        | inl f ↦ (1, omega arith, (==_iff _ _).0 f)
        | inr f ↦ (2, omega arith, ground arith)
      ]
    ]

    back : IsTermPcb m id → ticked m id ≡ true
    back (zero, h, e) = ground arith
    back (suc zero, h, e) = ground arith
    back (suc (suc zero), h, e) = ground arith
    back (suc (suc (suc n)), h, e) = absurd (omega arith)

-- Three changes in a row, at three places.
abbrev change : {A : Type 0} → (A → A) → ℕ → (ℕ → A) → ℕ → A
change g k f = update f k (g (f k))

three_changes :
    {A : Type 0} (g : A → A) (f : ℕ → A) (a b c id : ℕ)
    → a ≢ b
    → a ≢ c
    → b ≢ c
    → change g c (change g b (change g a f)) id
      ≡ (if id == a || id == b || id == c then g (f id) else f id)
three_changes g f a b c id ab ac bc = ground arith

-- The effect of the loop on one PCB.
tick_terms_lem :
    (m : Machine) (id : ℕ)
    → IsRunning m
    → (tick_terms 3 m).pcb id ≡ (if ticked m id then tick (m.pcb id) else m.pcb id)
unfolding tick_terms
tick_terms_lem m id r =
    three_changes tick m.pcb (term_pcb_id m 0) (term_pcb_id m 1) (term_pcb_id m 2) id
      (omega (arith, r.first, r.second, r.third)) (omega (arith, r.first, r.second, r.third))
      (omega (arith, r.first, r.second, r.third))

-- One interrupt takes one tick from the counter of each terminal's process, down to 0, and changes no
-- other process and no terminal. Each terminal must have a process.
pub rtc_interrupt_handler_lem :
    (m : Machine) (id : ℕ)
    → IsRunning m
    → ((rtc_interrupt_handler m).term ≡ m.term)
      × (IsTermPcb m id
          → (rtc_interrupt_handler m).pcb id
            ≡ record (m.pcb id) { rtc_counter = (m.pcb id).rtc_counter - 1 })
      × (¬ IsTermPcb m id → (rtc_interrupt_handler m).pcb id ≡ m.pcb id)
unfolding rtc_interrupt_handler tick_terms send_eoi
rtc_interrupt_handler_lem m id r = (
  refl,
  λ t. tick_terms_lem m id r ∙ rw ((ticked_iff m id).1 t) (tick_lem (m.pcb id)),
  λ t. tick_terms_lem m id r ∙ rw (unticked t),
)
  where
    tick_lem : (p : Pcb) → tick p ≡ record p { rtc_counter = p.rtc_counter - 1 }
    tick_lem p = ground arith

    unticked : ¬ IsTermPcb m id → ticked m id ≡ false
    unticked t = elim (Bool-cases (ticked m id)) [
      | inl e ↦ absurd (t ((ticked_iff m id).0 e))
      | inr e ↦ e
    ]

-- The machine after `n` interrupts.
pub after_interrupts : ℕ → Machine → Machine
after_interrupts zero m = m
after_interrupts (suc n) m = after_interrupts n (rtc_interrupt_handler m)

keeps : (m : Machine) → IsRunning m → (i : ℕ) → ((rtc_interrupt_handler m).term i) ≡ m.term i
keeps m r i = ap (λ t. t i) ((rtc_interrupt_handler_lem m 0 r).0)

rtc_interrupt_handler-IsRunning : (m : Machine) → IsRunning m → IsRunning (rtc_interrupt_handler m)
rtc_interrupt_handler-IsRunning m r = record {
  first = rw (keeps m r 0) r.first;
  second = rw (keeps m r 1) r.second;
  third = rw (keeps m r 2) r.third;
}

rtc_wait_lem :
    (interrupts : ℕ) (m : Machine) (id n : ℕ)
    → IsRunning m
    → IsTermPcb m id
    → (m.pcb id).rtc_counter ≡ n
    → rtc_wait id interrupts m ≡ (if ltb interrupts n then none else some (after_interrupts n m))
unfolding rtc_wait after_interrupts
rtc_wait_lem zero m id zero r t e = rw e
rtc_wait_lem zero m id (suc n) r t e = rw (e, lt→ltb 0 (suc n) (omega arith))
rtc_wait_lem (suc k) m id zero r t e = rw (e, rtc_wait) (rw (le→ltb (suc k) 0 (omega arith)))
rtc_wait_lem (suc k) m id (suc n) r t e =
    rw (e, lt→ltb 0 (suc n) (omega arith), rtc_wait)
      (rtc_wait_lem k (rtc_interrupt_handler m) id n (rtc_interrupt_handler-IsRunning m r) still
          (ap (λ (p : Pcb). p.rtc_counter) ((rtc_interrupt_handler_lem m id r).1 t) ∙ omega arith)
        ∙ shift)
  where
    still : IsTermPcb (rtc_interrupt_handler m) id
    still = (t.0, t.1, rw (keeps m r t.0) t.2)

    shift :
        ◌≡◌ {A = Option Machine}
          (if ltb k n then none else some (after_interrupts n (rtc_interrupt_handler m)))
          (if ltb (suc k) (suc n)
            then none
            else some (after_interrupts n (rtc_interrupt_handler m)))
    shift = ground arith

-- `rtc_read` of a process with a frequency of 1 or more returns 0 after exactly 1024 divided by the
-- frequency interrupts, and waits until then. The process must be that of the terminal that runs,
-- each terminal must have a process, and only clock interrupts come meanwhile.
pub rtc_read_lem :
    (interrupts : ℕ) (m : Machine)
    → IsRunning m
    → m.now_term_id < 3
    → 0 < (m.pcb (now_pcb_id m)).rtc_freq
    → let freq = (m.pcb (now_pcb_id m)).rtc_freq in
      let started = set_pcb (now_pcb_id m) (λ p. record p { rtc_counter = 1024 / freq }) m in
      rtc_read interrupts m ≡ (
        if ltb interrupts (1024 / freq)
        then none
        else some (pos 0, after_interrupts (1024 / freq) started))
unfolding rtc_read
rtc_read_lem interrupts m r run freq =
    rw (ne→== f 0 (omega arith), waited) (returned (ltb interrupts (1024 / f)))
  where
    f : ℕ
    f = (m.pcb (now_pcb_id m)).rtc_freq

    started : Machine
    started = set_pcb (now_pcb_id m) (λ p. record p { rtc_counter = 1024 / p.rtc_freq }) m

    waited :
        rtc_wait (now_pcb_id m) interrupts started
        ≡ (if ltb interrupts (1024 / f) then none else some (after_interrupts (1024 / f) started))
    waited =
        rtc_wait_lem interrupts started (now_pcb_id m) (1024 / f)
          (record { first = r.first; second = r.second; third = r.third })
          (m.now_term_id, run, refl) (rw (==_refl (now_pcb_id m)))

    returned :
        (b : Bool)
        → elim (if b then none else some (after_interrupts (1024 / f) started))
            as (λ o. Option (ℤ × Machine)) [ none ↦ none | some m' ↦ some (pos 0, m') ]
          ≡ (if b then none else some (pos 0, after_interrupts (1024 / f) started))
    returned true = refl
    returned false = refl
