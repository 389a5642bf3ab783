-- ===== src/Programs/Counter.antt =====
-- syscalls/ece391counter.c: the program that prints the numbers from 1 on.
use linux_like_os_kernel.Prelude.{
  ℕ, zero, suc, ◌+◌, ltb, ◌==◌, ◌&&◌, ◌||◌, pos, negsuc, is_failure, if◌then◌else◌, update, none,
  some, ascii,
}
use linux_like_os_kernel.Programs.{
  Syscalls, Exit, fdputs_literal, ece391_fdputs, ece391_strlen, ece391_itoa,
}

-- The switch on `buf[0]`.
unfoldable pub choice : ℕ → ℕ
choice c = if c == b'0' then 100 else if c == b'1' then 10000 else if c == b'2' then 100000 else 0

module _ {S : Type 0} (os : Syscalls S) where
  -- The loop from `i` on, with `left` rounds.
  unfoldable pub count_loop : ℕ → ℕ → ℕ → S → S
  count_loop i zero buf w = w
  count_loop i (suc left) buf w =
      let w1 = os.store (ece391_itoa (i + 1) buf 10) w in
      let w2 = ece391_fdputs os (pos 1) buf w1 in
      count_loop (i + 1) left buf (fdputs_literal os (ascii "\n") w2)

  -- `cnt` is a uint32_t, so that -1 is compared with 2 ^ 32 - 1; below -1 the string would end far
  -- outside the array.
  unfoldable pub counter_main : ℕ → S → Exit S
  counter_main buf w =
      let question = ascii "Enter the Test Number: (0): 100, (1): 10000, (2): 100000\n" in
      let (cnt, w1) = os.ece391_read (pos 0) buf 1023 (fdputs_literal os question w) in
      elim cnt [
        | negsuc k ↦
            if is_failure (negsuc k)
            then some (3, fdputs_literal os (ascii "Can't read the number from keyboard.\n") w1)
            else none
        | pos n ↦
            (let w2 = os.store (λ m. update m (buf + n) 0) w1 in
              let m = os.memory w2 in
              let length = ece391_strlen m buf in
              if ltb 2 length || length == 2 && (ltb (m buf) b'0' || ltb b'2' (m buf))
              then some (0, fdputs_literal os (ascii "Wrong Choice!\n") w2)
              else some (0, count_loop 0 (choice (m buf)) buf w2))
      ]
