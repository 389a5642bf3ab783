-- ===== src/Terminal/Line.antt =====
-- student-distrib/terminal.c: the line that `term_read` gives to a program.
use linux_like_os_kernel.Prelude.{
  ℕ, zero, suc, ◌+◌, ◌-◌, ◌<◌, ◌≤◌, ◌&&◌, ltb, leb, ◌==◌, if◌then◌else◌, pos, update, fill_lem,
  some, List, ◌≡◌, ◌≢◌, ◌⊎◌, inl, inr, refl, arith, Bool-cases, ne→==,
}
use linux_like_os_kernel.Machine.{Machine, Memory, set_term, set_mem}
use linux_like_os_kernel.Terminal.{read_keys, term_read, wait_enter, buf_clear}

-- `count` is the length of the line in the key buffer from `i` on: up to a zero, a length or the
-- buffer's end.
pub record IsLine (key_buf : ℕ → ℕ) (len i stop count : ℕ) : Type 0 where
  pub start : i ≤ count
  pub within : count ≤ stop
  pub live : (j : ℕ) → i ≤ j → j < count → (key_buf j ≢ 0) × (j < len)
  pub ends : (count ≡ stop) ⊎ ((len ≤ count) ⊎ (key_buf count ≡ 0))

read_keys_lem :
    (key_buf : ℕ → ℕ) (buf len i left : ℕ) (m : Memory)
    → IsLine key_buf len i (i + left) (read_keys key_buf buf (pos len) i left m).0
      × ((a : ℕ)
          → (read_keys key_buf buf (pos len) i left m).1 a ≡ (
              if leb (buf + i) a && ltb a (buf + (read_keys key_buf buf (pos len) i left m).0)
              then key_buf (a - buf)
              else m a))
unfolding read_keys
read_keys_lem key_buf buf len i zero m = (
  record {
    start = omega arith;
    within = omega arith;
    live = λ j lo hi. absurd (omega arith);
    ends = inl (omega arith);
  },
  λ a. ground arith,
)
read_keys_lem key_buf buf len i (suc left) m = elim (Bool-cases (ltb i len)) [
  | inr long ↦
      rw (long, read_keys)
        (
          record {
            start = omega arith;
            within = omega arith;
            live = λ j lo hi. absurd (omega arith);
            ends = inr (inl (ground arith));
          },
          λ a. ground arith,
        )
  | inl short ↦ elim (Bool-cases (key_buf i == 0)) [
    | inl end ↦
        rw (short, end, read_keys)
          (
            record {
              start = omega arith;
              within = omega arith;
              live = λ j lo hi. absurd (omega arith);
              ends = inr (inr (ground arith));
            },
            λ a. ground arith,
          )
    | inr char ↦
        let (line, bytes) =
          read_keys_lem key_buf buf len (i + 1) left (update m (buf + i) (key_buf i)) in
        rw (short, char, read_keys)
          (
            record {
              start = omega (arith, line.start);
              within = omega (arith, line.within);
              live = λ j lo hi. ground (arith, line.live j);
              ends = ground (arith, line.ends);
            },
            λ a. ground (arith, bytes a, line.start),
          )
  ]
]

-- Once the wait for ENTER is over at machine `m1`, `term_read` copies the line in the key buffer to
-- the buffer, up to a zero, the length asked for or 128 characters, returns how many characters it
-- has copied and changes no other byte; all 128 bytes of the key buffer are zero then, its index is 0
-- and the terminal waits for the next ENTER. The pointer must not be NULL and the length not negative.
pub term_read_lem :
    (interrupts : List (Machine → Machine)) (buf len : ℕ) (m m1 : Machine)
    → buf ≢ 0
    → wait_enter interrupts m ≡ some m1
    → (count : ℕ) × (m' : Machine) × (term_read interrupts buf (pos len) m ≡ some (pos count, m'))
      × IsLine m1.keyboard.key_buf len 0 128 count
      × ((a : ℕ)
          → m'.mem a ≡ (
              if leb buf a && ltb a (buf + count) then m1.keyboard.key_buf (a - buf) else m1.mem a))
      × (m'.keyboard.key_buf_idx ≡ 0)
      × ((i : ℕ) → i < 128 → m'.keyboard.key_buf i ≡ 0)
      × ((m'.term m1.now_term_id).enter_state ≡ 0)
unfolding term_read buf_clear
term_read_lem interrupts buf len m m1 nn e =
    let (line, bytes) = read_keys_lem m1.keyboard.key_buf buf len 0 128 m1.mem in
    (
      out.0,
      done,
      rw (ne→== buf 0 nn, e),
      line,
      λ a. ground (arith, bytes a),
      refl,
      λ i h. ground (arith, fill_lem m1.keyboard.key_buf 0 (λ (k : ℕ). 0) 128 i),
      ground arith,
    )
  where
    out : ℕ × Memory
    out = read_keys m1.keyboard.key_buf buf (pos len) 0 128 m1.mem

    cleared : Machine
    cleared = set_term m1.now_term_id (λ t. record t { enter_state = 0 }) m1

    done : Machine
    done = buf_clear (set_mem out.1 cleared)
