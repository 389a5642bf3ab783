-- ===== src/Process/Mask.antt =====
-- student-distrib/system_call.c: `PCB_process_number` and `PCB_total_number` on the table of processes.
use linux_like_os_kernel.Prelude.{
  ℕ, zero, suc, ◌+◌, ◌*◌, ◌<◌, ◌≤◌, ltb, ◌==◌, if◌then◌else◌, ℤ, pos, failure, update, ◌≡◌, ◌≢◌,
  ◌⊎◌, inl, inr, refl, arith, Bool-cases, lt→ltb, ◌∙◌, ==_iff, ℕ_discrete, ==_refl, ne→==, sym,
  add-zero,
}
use linux_like_os_kernel.Process.{
  Mask, count_row, count_rows, pcb_total_number, set_mask, process_number_from, pcb_process_number,
}

count_row-update :
    (row : ℕ → ℕ) (i n : ℕ)
    → row i ≡ 0
    → count_row (update row i 1) n ≡ count_row row n + (if ltb i n then 1 else 0)
count_row-update row i zero h = ground arith
count_row-update row i (suc n) h = ground (arith, count_row-update row i n h)

row-set_mask :
    (mask : Mask) (t i n : ℕ)
    → mask t i ≡ 0
    → i < 4
    → count_row (set_mask mask t i 1 n) 4 ≡ count_row (mask n) 4 + (if n == t then 1 else 0)
row-set_mask mask t i n h lt = elim (ℕ_discrete n t) [
  | yes e ↦ rw (e, ==_refl t) (count_row-update (mask t) i 4 h ∙ rw (lt→ltb i 4 lt))
  | no ne ↦ rw (ne→== n t ne) (sym (add-zero (count_row (mask n) 4)))
]

add_row :
    (a b c d t n : ℕ)
    → a ≡ b + (if ltb t n then 1 else 0)
    → c ≡ d + (if n == t then 1 else 0)
    → a + c ≡ b + d + (if ltb t (suc n) then 1 else 0)
add_row a b c d t n p q = ground arith

count_rows-set_mask :
    (mask : Mask) (t i n : ℕ)
    → mask t i ≡ 0
    → i < 4
    → count_rows (set_mask mask t i 1) n ≡ count_rows mask n + (if ltb t n then 1 else 0)
count_rows-set_mask mask t i zero h lt = ground arith
count_rows-set_mask mask t i (suc n) h lt =
    add_row _ _ _ _ t n (count_rows-set_mask mask t i n h lt) (row-set_mask mask t i n h lt)

-- A process number is taken: the lowest free one of the terminal, while there are less than six.
pub record IsTaken (term : ℕ) (mask : Mask) (out : ℤ × Mask) : Type 0 where
  pub slot : ℕ
  pub in_row : slot < 4
  pub free : mask term slot ≡ 0
  pub lowest : (j : ℕ) → j < slot → mask term j ≢ 0
  pub room : pcb_total_number mask < 6
  pub counted : pcb_total_number out.1 ≡ pcb_total_number mask + 1
  pub result : out ≡ (pos (slot + term * 4), set_mask mask term slot 1)

-- No process number is taken: the terminal has four already, or there are six in all.
pub record IsRefused (term : ℕ) (mask : Mask) (out : ℤ × Mask) : Type 0 where
  pub reason : ((j : ℕ) → j < 4 → mask term j ≢ 0) ⊎ (6 ≤ pcb_total_number mask)
  pub failed : out.0 ≡ failure
  pub same : (t j : ℕ) → out.1 t j ≡ mask t j

process_number_from_lem :
    (term i left : ℕ) (mask : Mask)
    → term < 3
    → i + left ≡ 4
    → ((j : ℕ) → j < i → mask term j ≢ 0)
    → IsTaken term mask (process_number_from term i left mask)
      ⊎ IsRefused term mask (process_number_from term i left mask)
unfolding process_number_from
process_number_from_lem term i zero mask ht e taken =
    inr (record { reason = inl (λ j h. taken j (omega arith)); failed = refl; same = λ t j. refl })
process_number_from_lem term i (suc left) mask ht e taken = elim (Bool-cases (mask term i == 0)) [
  | inl free ↦ elim (Bool-cases (ltb 6 (pcb_total_number (set_mask mask term i 1)))) [
    | inl full ↦
        rw (free, full, process_number_from)
          (inr (record {
            reason = inr (ground (arith, total ((==_iff _ _).0 free)));
            failed = refl;
            same = λ t j. ground arith;
          }))
    | inr room ↦
        rw (free, room, process_number_from)
          (inl (record {
            slot = i;
            in_row = omega arith;
            free = (==_iff _ _).0 free;
            lowest = taken;
            room = ground (arith, total ((==_iff _ _).0 free));
            counted = total ((==_iff _ _).0 free);
            result = refl;
          }))
  ]
  | inr busy ↦
      rw (busy, process_number_from)
        (process_number_from_lem term (i + 1) left mask ht (omega arith)
          (λ j h. ground (arith, taken j)))
]
  where
    total : mask term i ≡ 0 → pcb_total_number (set_mask mask term i 1) ≡ pcb_total_number mask + 1
    total h =
        unfold pcb_total_number in
        count_rows-set_mask mask term i 3 h (omega arith) ∙ rw (lt→ltb term 3 ht)

-- `PCB_process_number` of one of the three terminals takes the terminal's lowest free number, if
-- fewer than six processes run in all; one more runs then. Otherwise it returns -1 and the table is
-- as it was, and either the terminal has its four processes or six run in all.
pub pcb_process_number_lem :
    (term : ℕ) (mask : Mask)
    → term < 3
    → IsTaken term mask (pcb_process_number term mask)
      ⊎ IsRefused term mask (pcb_process_number term mask)
unfolding pcb_process_number
pcb_process_number_lem term mask h =
    process_number_from_lem term 0 4 mask h refl (λ j lt. absurd (omega arith))
