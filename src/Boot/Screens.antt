-- ===== src/Boot/Screens.antt =====
-- student-distrib/terminal.c: the terminals, and their screens, as `term_init` leaves them.
use linux_like_os_kernel.Prelude.{
  ℕ, zero, suc, ◌+◌, ◌-◌, ◌*◌, ◌%◌, ◌<◌, ◌≤◌, ◌&&◌, ltb, leb, ◌==◌, if◌then◌else◌, ◌≡◌, ◌⊎◌, inl,
  arith, refl, fill_lem, update, ◌∙◌,
}
use linux_like_os_kernel.Machine.{Memory, Term}
use linux_like_os_kernel.Console.{blank, attrib}
use linux_like_os_kernel.Console.Cells.{cells_at}
use linux_like_os_kernel.Terminal.{init_cells, init_video, init_term}

init_cells_lem :
    (base id n : ℕ) (m : Memory) (a : ℕ)
    → init_cells base id n m a ≡ (
        if leb base a && ltb a (base + n * 2)
        then (if (a - base) % 2 == 0 then blank else attrib id)
        else m a)
unfolding init_cells
init_cells_lem base id zero m a = ground arith
init_cells_lem base id (suc n) m a = ground (arith, init_cells_lem base id n m a)

-- A screen after its loop, and another screen's cell that the loop leaves alone.
init_cells_inside :
    (base id k : ℕ) (m : Memory)
    → k < 2000
    → cells_at base (init_cells base id 2000 m) k ≡ (blank, attrib id)
init_cells_inside base id k m h = ground (
  arith,
  init_cells_lem base id 2000 m (base + k * 2),
  init_cells_lem base id 2000 m (base + k * 2 + 1),
)

init_cells_outside :
    (base id at k : ℕ) (m : Memory)
    → (at + 4000 ≤ base) ⊎ (base + 4000 ≤ at)
    → k < 2000
    → cells_at at (init_cells base id 2000 m) k ≡ cells_at at m k
init_cells_outside base id at k m apart h = ground (
  arith,
  init_cells_lem base id 2000 m (at + k * 2),
  init_cells_lem base id 2000 m (at + k * 2 + 1),
)

-- The memory behind the three loops.
abbrev pub three_screens : Memory → Memory
three_screens m =
    init_cells (init_video 2) 2 2000
      (init_cells (init_video 1) 1 2000 (init_cells (init_video 0) 0 2000 m))

-- Every cell of the three screens is blank then, with the colours of its terminal.
pub three_screens_lem :
    (m : Memory) (i k : ℕ)
    → i < 3
    → k < 2000
    → cells_at (0xB9000 + 0x1000 * i) (three_screens m) k ≡ (blank, attrib i)
three_screens_lem m zero k h l =
    init_cells_outside (init_video 2) 2 (init_video 0) k _ (inl (omega arith)) l
    ∙ init_cells_outside (init_video 1) 1 (init_video 0) k _ (inl (omega arith)) l
    ∙ init_cells_inside (init_video 0) 0 k m l
three_screens_lem m (suc zero) k h l =
    init_cells_outside (init_video 2) 2 (init_video 1) k _ (inl (omega arith)) l
    ∙ init_cells_inside (init_video 1) 1 k _ l
three_screens_lem m (suc (suc zero)) k h l = init_cells_inside (init_video 2) 2 k _ l
three_screens_lem m (suc (suc (suc i))) k h l = absurd (omega arith)

-- A terminal that `term_init` has set up as number `i`: no process, a cursor in the first cell, no line, and a
-- clock of 2 Hz that has not ticked.
pub record IsFresh (i : ℕ) (t : Term) : Type 0 where
  pub number : t.term_id ≡ i
  pub no_process : t.cur_pcb_id ≡ 255
  pub stopped : t.running ≡ 0
  pub column : t.cursor_x ≡ 0
  pub row : t.cursor_y ≡ 0
  pub no_enter : t.enter_state ≡ 0
  pub no_key : (j : ℕ) → j < 128 → t.key_buf j ≡ 0
  pub freq : t.rtc_virtual_freq ≡ 2
  pub counter : t.rtc_virtual_counter ≡ 0
  pub no_tick : t.rtc_interrupt_received ≡ 0

init_term-IsFresh : (i : ℕ) (t : Term) → IsFresh i (init_term i t)
init_term-IsFresh i t = record {
  number = refl;
  no_process = refl;
  stopped = refl;
  column = refl;
  row = refl;
  no_enter = refl;
  no_key = λ j l. ground (arith, fill_lem t.key_buf 0 (λ (k : ℕ). 0) 128 j);
  freq = refl;
  counter = refl;
  no_tick = refl;
}

-- The terminals behind the loop.
abbrev pub three_terms : (ℕ → Term) → ℕ → Term
three_terms t =
    update (update (update t 0 (init_term 0 (t 0))) 1 (init_term 1 (t 1))) 2 (init_term 2 (t 2))

pub three_terms_lem : (t : ℕ → Term) (i : ℕ) → i < 3 → IsFresh i (three_terms t i)
three_terms_lem t zero h = init_term-IsFresh 0 (t 0)
three_terms_lem t (suc zero) h = init_term-IsFresh 1 (t 1)
three_terms_lem t (suc (suc zero)) h = init_term-IsFresh 2 (t 2)
three_terms_lem t (suc (suc (suc i))) h = absurd (omega arith)
