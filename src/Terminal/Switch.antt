-- ===== src/Terminal/Switch.antt =====
-- student-distrib/terminal.c: switching to another terminal and back.
use linux_like_os_kernel.Prelude.{
  ℕ, ◌+◌, ◌<◌, ◌≤◌, fill_lem, ◌≡◌, ◌≢◌, ◌⊎◌, refl, arith, ne→==, ==_refl, lt→ltb, ◌∙◌, ap, sym,
}
use linux_like_os_kernel.Machine.{Machine, Memory, Term}
use linux_like_os_kernel.CString.Copy.{Disjoint, copied, memcpy_lem}
use linux_like_os_kernel.Console.{video, set_screen_cursor, place_cursor}
use linux_like_os_kernel.Terminal.{term_save, term_restore, term_switch}

-- What `term_save` keeps of the screen and of the key buffer.
record IsSaved (id : ℕ) (m m' : Machine) : Type 0 where
  bytes : (a : ℕ) → m'.mem a ≡ copied m.mem (m.term id).video_mem video 4000 a
  others : (i : ℕ) → i ≢ id → m'.term i ≡ m.term i
  screen : (m'.term id).video_mem ≡ (m.term id).video_mem
  column : (m'.term id).cursor_x ≡ m.console.screen_x
  row : (m'.term id).cursor_y ≡ m.console.screen_y
  keys : (j : ℕ) → j < 128 → (m'.term id).key_buf j ≡ m.keyboard.key_buf j
  count : (m'.term id).key_buf_idx ≡ m.keyboard.key_buf_idx

term_save-IsSaved :
    (id : ℕ) (m : Machine)
    → Disjoint (m.term id).video_mem video 4000
    → IsSaved id m (term_save id m)
unfolding term_save
term_save-IsSaved id m d = record {
  bytes = rw (==_refl id) (memcpy_lem (m.term id).video_mem video 4000 m.mem d);
  others = λ i ne. rw (ne→== i id ne);
  screen = rw (==_refl id);
  column = rw (==_refl id);
  row = rw (==_refl id);
  keys = λ j lt.
      rw (==_refl id) (ground (arith, fill_lem (m.term id).key_buf 0 m.keyboard.key_buf 128 j));
  count = rw (==_refl id);
}

record IsRestored (id : ℕ) (m m' : Machine) : Type 0 where
  bytes : (a : ℕ) → m'.mem a ≡ copied m.mem video (m.term id).video_mem 4000 a
  terms : (i : ℕ) → m'.term i ≡ m.term i
  column : m'.console.screen_x ≡ (m.term id).cursor_x
  row : m'.console.screen_y ≡ (m.term id).cursor_y
  keys : (j : ℕ) → j < 128 → m'.keyboard.key_buf j ≡ (m.term id).key_buf j
  count : m'.keyboard.key_buf_idx ≡ (m.term id).key_buf_idx
  current : m'.cur_term_id ≡ id

term_restore-IsRestored :
    (id : ℕ) (m : Machine)
    → Disjoint video (m.term id).video_mem 4000
    → (m.term id).cursor_x < 80
    → (m.term id).cursor_y < 25
    → IsRestored id m (term_restore id m)
unfolding term_restore set_screen_cursor place_cursor
term_restore-IsRestored id m d hx hy = record {
  bytes = rw (lt→ltb _ _ hx, lt→ltb _ _ hy) (memcpy_lem video (m.term id).video_mem 4000 m.mem d);
  terms = λ i. rw (lt→ltb _ _ hx, lt→ltb _ _ hy);
  column = rw (lt→ltb _ _ hx, lt→ltb _ _ hy);
  row = rw (lt→ltb _ _ hx, lt→ltb _ _ hy);
  keys = λ j lt.
      rw (lt→ltb _ _ hx, lt→ltb _ _ hy)
        (ground (arith, fill_lem m.keyboard.key_buf 0 (m.term id).key_buf 128 j));
  count = rw (lt→ltb _ _ hx, lt→ltb _ _ hy);
  current = refl;
}

-- Two terminals whose screens are kept apart from each other and from the one that is shown, with
-- the cursors on the screen.
pub record IsSeparate (m : Machine) (a b : ℕ) : Type 0 where
  pub distinct : a ≢ b
  pub first : Disjoint (m.term a).video_mem video 4000
  pub second : Disjoint (m.term b).video_mem video 4000
  pub apart : Disjoint (m.term a).video_mem (m.term b).video_mem 4000
  pub column : m.console.screen_x < 80
  pub row : m.console.screen_y < 25
  pub kept_column : (m.term b).cursor_x < 80
  pub kept_row : (m.term b).cursor_y < 25

copied_inside : (m : Memory) (d s n i : ℕ) → i < n → copied m d s n (d + i) ≡ m (s + i)
copied_inside m d s n i h = ground arith

copied_outside : (m : Memory) (d s n a : ℕ) → (a < d) ⊎ (d + n ≤ a) → copied m d s n a ≡ m a
copied_outside m d s n a h = ground arith

-- A switch from terminal `a` to `b` and back to `a` brings back the key buffer, the cursor and the
-- 4000 bytes of the screen, if the kept screens do not overlap and the cursors are on the screen.
pub term_switch_round_trip :
    (m : Machine) (a b : ℕ)
    → IsSeparate m a b
    → let m' = term_switch b a (term_switch a b m) in
      (m'.cur_term_id ≡ a)
      × (m'.console.screen_x ≡ m.console.screen_x)
      × (m'.console.screen_y ≡ m.console.screen_y)
      × (m'.keyboard.key_buf_idx ≡ m.keyboard.key_buf_idx)
      × ((j : ℕ) → j < 128 → m'.keyboard.key_buf j ≡ m.keyboard.key_buf j)
      × ((i : ℕ) → i < 4000 → m'.mem (video + i) ≡ m.mem (video + i))
unfolding term_switch
term_switch_round_trip m a b s = (
  r4.current,
  r4.column ∙ ap (λ (t : Term). t.cursor_x) t3 ∙ s1.column,
  r4.row ∙ ap (λ (t : Term). t.cursor_y) t3 ∙ s1.row,
  r4.count ∙ ap (λ (t : Term). t.key_buf_idx) t3 ∙ s1.count,
  λ j lt. r4.keys j lt ∙ ap (λ (t : Term). t.key_buf j) t3 ∙ s1.keys j lt,
  bytes,
)
  where
    m1 : Machine
    m1 = term_save a m

    m2 : Machine
    m2 = term_restore b m1

    m3 : Machine
    m3 = term_save b m2

    s1 : IsSaved a m m1
    s1 = term_save-IsSaved a m s.first

    t1 : m1.term b ≡ m.term b
    t1 = s1.others b (λ e. s.distinct (sym e))

    r2 : IsRestored b m1 m2
    r2 =
        term_restore-IsRestored b m1 (rw t1 (omega (arith, s.second))) (rw t1 s.kept_column)
          (rw t1 s.kept_row)

    t2 : (m2.term b).video_mem ≡ (m.term b).video_mem
    t2 = ap (λ (t : Term). t.video_mem) (r2.terms b ∙ t1)

    s3 : IsSaved b m2 m3
    s3 = term_save-IsSaved b m2 (rw t2 s.second)

    t3 : m3.term a ≡ m1.term a
    t3 = s3.others a s.distinct ∙ r2.terms a

    va : (m3.term a).video_mem ≡ (m.term a).video_mem
    va = ap (λ (t : Term). t.video_mem) t3 ∙ s1.screen

    r4 : IsRestored a m3 (term_restore a m3)
    r4 =
        term_restore-IsRestored a m3 (rw va (omega (arith, s.first))) (rw (t3, s1.column) s.column)
          (rw (t3, s1.row) s.row)

    bytes : (i : ℕ) → i < 4000 → (term_restore a m3).mem (video + i) ≡ m.mem (video + i)
    bytes i lt =
        r4.bytes (video + i)
        ∙ copied_inside m3.mem video (m3.term a).video_mem 4000 i lt
        ∙ ap (λ v. m3.mem (v + i)) va
        ∙ s3.bytes ((m.term a).video_mem + i)
        ∙ ap (λ v. copied m2.mem v video 4000 ((m.term a).video_mem + i)) t2
        ∙ copied_outside m2.mem (m.term b).video_mem video 4000 ((m.term a).video_mem + i)
            (omega (arith, s.apart))
        ∙ r2.bytes ((m.term a).video_mem + i)
        ∙ copied_outside m1.mem video (m1.term b).video_mem 4000 ((m.term a).video_mem + i)
            (omega (arith, s.first))
        ∙ s1.bytes ((m.term a).video_mem + i)
        ∙ copied_inside m.mem (m.term a).video_mem video 4000 i lt
