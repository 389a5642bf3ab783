-- ===== src/Halt/Parent.antt =====
-- student-distrib/system_call.c: which descriptors `halt` closes.
use linux_like_os_kernel.Prelude.{
  ℕ, zero, suc, ◌+◌, ◌-◌, ◌/◌, ◌%◌, ◌<◌, ◌≤◌, Bool, true, false, ◌&&◌, ltb, leb, ◌==◌,
  if◌then◌else◌, pos, negsuc, failure, fill_lem, ◌≡◌, ◌≢◌, ◌⊎◌, inl, inr, refl, arith, Bool-cases,
  ◌∙◌, ap, ==_iff, ne→==, ==_refl, sym, leb, ℕ_discrete,
}
use linux_like_os_kernel.Machine.{Machine, FileDesc, error_fop, now_pcb_id, set_term}
use linux_like_os_kernel.Halt.{array_strlen, getargs, close_one, close_all, release, parent_slot}
use linux_like_os_kernel.Process.{set_mask}
use linux_like_os_kernel.Files.{close, set_fd}

-- `n` characters of an array of `n` or more, none of them a zero, with a zero behind them.
pub record IsArgument (s : ℕ → ℕ) (n : ℕ) : Type 0 where
  pub live : (i : ℕ) → i < n → s i ≢ 0
  pub ends : s n ≡ 0

array_strlen_lem :
    (s : ℕ → ℕ) (n i left : ℕ) → IsArgument s n → i ≤ n → n ≤ i + left → array_strlen s i left ≡ n
unfolding array_strlen
array_strlen_lem s n i zero a lo hi = omega arith
array_strlen_lem s n i (suc left) a lo hi = elim (ℕ_discrete i n) [
  | yes e ↦ ground (arith, a.ends, array_strlen_lem s n (i + 1) left a)
  | no ne ↦ ground (arith, a.live i, array_strlen_lem s n (i + 1) left a)
]

-- `getargs` copies the argument of the process that runs, of at most 100 characters, and a zero to
-- the buffer and returns 0, if it is not empty and shorter than the length given; no other byte
-- changes. Otherwise, and for every negative length, it returns -1 and changes nothing.
pub getargs_lem :
    (buf nbytes n : ℕ) (m : Machine)
    → n ≤ 100
    → IsArgument (m.pcb (now_pcb_id m)).argbuf n
    → (((0 < n)
          × (n < nbytes)
          × ((getargs buf (pos nbytes) m).0 ≡ pos 0)
          × ((a : ℕ)
              → (getargs buf (pos nbytes) m).1.mem a ≡ (
                  if leb buf a && ltb a (buf + n)
                  then (m.pcb (now_pcb_id m)).argbuf (a - buf)
                  else if a == buf + n
                  then 0
                  else m.mem a)))
        ⊎ (((n ≡ 0) ⊎ (nbytes ≤ n)) × (getargs buf (pos nbytes) m ≡ (failure, m))))
      × (getargs buf (negsuc nbytes) m ≡ (failure, m))
unfolding getargs
getargs_lem buf nbytes n m h a =
    rw (array_strlen_lem (m.pcb (now_pcb_id m)).argbuf n 0 100 a (omega arith) (omega arith)) (
      elim (Bool-cases (n == 0)) [
        | inl empty ↦ inr (inl ((==_iff n 0).0 empty), rw empty)
        | inr some_arg ↦ elim (Bool-cases (ltb n nbytes)) [
          | inl fits ↦ inl (
            ground arith,
            ground arith,
            rw (some_arg, fits),
            λ x.
                rw (some_arg, fits)
                  (ground (arith, fill_lem m.mem buf (m.pcb (now_pcb_id m)).argbuf n x)),
          )
          | inr long ↦ inr (inr (ground arith), rw (some_arg, long))
        ]
      ],
      elim (Bool-cases (n == 0)) [ inl empty ↦ rw empty | inr some_arg ↦ rw some_arg ],
    )

-- Whether descriptor `i` of process `id` is open.
abbrev pub flag : Machine → ℕ → ℕ → ℕ
flag m id i = ((m.pcb id).fds i).flags

record IsClosing (m m' : Machine) (id p n : ℕ) : Type 0 where
  now : now_pcb_id m' ≡ p
  ahead : (j : ℕ) → n ≤ j → flag m' id j ≡ flag m id j
  behind : (j : ℕ) → 2 ≤ j → j < n → flag m id j ≡ 1 → flag m' p j ≡ 0

close_one-now : (id i : ℕ) (m : Machine) → now_pcb_id (close_one id i m) ≡ now_pcb_id m
unfolding close_one close
close_one-now id i m = ground arith

set_fd-others :
    (id i q j : ℕ) (f : FileDesc → FileDesc) (m : Machine)
    → j ≢ i
    → flag (set_fd id i f m) q j ≡ flag m q j
set_fd-others id i q j f m ne = elim (Bool-cases (q == id)) [
  | inl e ↦ rw (e, ne→== j i ne, flag) (ap (λ k. flag m k j) (sym ((==_iff q id).0 e)))
  | inr e ↦ rw (e, flag)
]

close-others : (i q j : ℕ) (m : Machine) → j ≢ i → flag (close (pos i) m).1 q j ≡ flag m q j
unfolding close
close-others i q j m ne = elim (Bool-cases (leb 8 i)) [
  | inl e ↦ rw (e, flag)
  | inr e ↦ elim (Bool-cases (ltb i 2)) [
    | inl e' ↦ rw (e, e', flag)
    | inr e' ↦ elim (Bool-cases (((m.pcb (now_pcb_id m)).fds i).flags == 0)) [
      | inl shut ↦ rw (e, e', shut, flag)
      | inr live ↦
          rw (e, e', live, flag)
            (set_fd-others (now_pcb_id m) i q j (λ d. record d { flags = 0 }) m ne)
    ]
  ]
]

close_one-others : (id i q j : ℕ) (m : Machine) → j ≢ i → flag (close_one id i m) q j ≡ flag m q j
unfolding close_one
close_one-others id i q j m ne =
    set_fd-others id i q j (λ d. record d { optable = error_fop })
      (shut (((m.pcb id).fds i).flags == 1)) ne
    ∙ shut-others (((m.pcb id).fds i).flags == 1)
  where
    shut : Bool → Machine
    shut b = if b then (close (pos i) (set_fd id i (λ d. record d { flags = 0 }) m)).1 else m

    shut-others : (b : Bool) → flag (shut b) q j ≡ flag m q j
    shut-others true =
        close-others i q j (set_fd id i (λ d. record d { flags = 0 }) m) ne
        ∙ set_fd-others id i q j (λ d. record d { flags = 0 }) m ne
    shut-others false = refl

close_one-parent :
    (id i p : ℕ) (m : Machine)
    → now_pcb_id m ≡ p
    → id ≢ p
    → 2 ≤ i
    → i < 8
    → flag m id i ≡ 1
    → flag (close_one id i m) p i ≡ 0
unfolding close_one close
close_one-parent id i p m e ne lo hi was_open = ground arith

close_all-IsClosing :
    (m : Machine) (id p n : ℕ)
    → now_pcb_id m ≡ p
    → id ≢ p
    → n ≤ 8
    → IsClosing m (close_all id n m) id p n
unfolding close_all
close_all-IsClosing m id p zero e ne h = record {
  now = e;
  ahead = λ j lo. refl;
  behind = λ j lo hi is_open. absurd (omega arith);
}
close_all-IsClosing m id p (suc n) e ne h =
    let rest = close_all-IsClosing m id p n e ne (omega arith) in
    let m' = close_all id n m in
    record {
      now = close_one-now id n m' ∙ rest.now;
      ahead = λ j lo. close_one-others id n id j m' (omega arith) ∙ rest.ahead j (omega arith);
      behind = λ j lo hi is_open. elim (ℕ_discrete j n) [
        | yes same ↦ rw same (
            close_one-parent id n p m' rest.now ne (omega arith) (omega arith)
              (rest.ahead n (omega arith) ∙ ap (flag m id) (sym same) ∙ is_open))
        | no other ↦ close_one-others id n p j m' other ∙ rest.behind j lo (omega arith) is_open
      ];
    }

-- When a process with a parent in the same terminal releases what it holds in `halt`, every
-- descriptor from 2 to 7 that the process has open is closed in its parent.
pub release-closes_parent :
    (m : Machine) (id i : ℕ)
    → (m.pcb id).parent_process_number < 12
    → (m.pcb id).parent_process_number / 4 ≡ m.now_term_id
    → id ≢ (m.pcb id).parent_process_number
    → 2 ≤ i
    → i < 8
    → flag m id i ≡ 1
    → flag (release id m) (m.pcb id).parent_process_number i ≡ 0
unfolding release
release-closes_parent m id i small own ne lo hi is_open =
    (close_all-IsClosing before id (m.pcb id).parent_process_number 8 parent ne
        (omega arith)).behind
      i lo hi is_open
  where
    moved : Machine
    moved =
        set_term m.now_term_id
          (λ t. record t { cur_pcb_id = parent_slot (m.pcb id).parent_process_number }) m

    before : Machine
    before = record moved {
      pcb_mask =
          set_mask moved.pcb_mask ((m.pcb id).process_number / 4) ((m.pcb id).process_number % 4) 0;
    }

    parent : now_pcb_id before ≡ (m.pcb id).parent_process_number
    parent =
        rw (==_refl m.now_term_id, ne→== (m.pcb id).parent_process_number 255 (omega arith))
          (omega arith)
