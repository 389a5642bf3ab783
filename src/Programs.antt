-- ===== src/Programs.antt =====
-- syscalls/: the programs that run on the kernel, and the functions of ece391support.c that they share. A
-- program sees its own memory, and the kernel through `Syscalls`.
pub mod Support
pub mod Cat
pub mod Ls
pub mod Listing
pub mod System
pub mod Shell
pub mod Grep
pub mod Counter
pub mod Syserr
pub mod OnKernel
mod Tests
use linux_like_os_kernel.Prelude.{
  ℕ, zero, suc, ◌+◌, ◌-◌, ◌*◌, ◌/◌, ◌%◌, ◌^◌, Bool, true, false, ◌&&◌, ◌||◌, not, ltb, leb, ◌==◌,
  if◌then◌else◌, ℤ, pos, negsuc, sub_ℕ, failure, is_zero, is_failure, update, Option, none, some,
  List, ascii,
}
use linux_like_os_kernel.Machine.{Memory, u8}
use linux_like_os_kernel.CString.{address_space, lookup_digit}

-- `for (len = 0; '\0' != *s; s++, len++);`
unfoldable pub strlen_loop : ℕ → Memory → ℕ → ℕ → ℕ
strlen_loop zero m s len = len
strlen_loop (suc fuel) m s len = elim (m s == 0) [
  | true ↦ len
  | false ↦ strlen_loop fuel m (s + 1) (len + 1)
]

unfoldable pub ece391_strlen : Memory → ℕ → ℕ
ece391_strlen m s = strlen_loop address_space m s 0

-- `while ('\0' != (*dst++ = *src++));`
unfoldable pub strcpy_loop : ℕ → ℕ → ℕ → Memory → Memory
strcpy_loop zero dst src m = m
strcpy_loop (suc fuel) dst src m = elim (m src == 0) [
  | true ↦ update m dst (m src)
  | false ↦ strcpy_loop fuel (dst + 1) (src + 1) (update m dst (m src))
]

unfoldable pub ece391_strcpy : ℕ → ℕ → Memory → Memory
ece391_strcpy dst src m = strcpy_loop address_space dst src m

unfoldable pub strcmp_loop : ℕ → Memory → ℕ → ℕ → ℤ
strcmp_loop zero m s1 s2 = pos 0
strcmp_loop (suc fuel) m s1 s2 = elim (m s1 == m s2) [
  | true ↦ elim (m s1 == 0) [ true ↦ pos 0 | false ↦ strcmp_loop fuel m (s1 + 1) (s2 + 1) ]
  | false ↦ sub_ℕ (m s1) (m s2)
]

unfoldable pub ece391_strcmp : Memory → ℕ → ℕ → ℤ
ece391_strcmp m s1 s2 = strcmp_loop address_space m s1 s2

-- The loop while `n`, which is not 0, counts down.
unfoldable pub strncmp_loop : Memory → ℕ → ℕ → ℕ → ℤ
strncmp_loop m s1 s2 zero = pos 0
strncmp_loop m s1 s2 (suc n) = elim (m s1 == m s2) [
  | true ↦ elim (m s1 == 0 || n == 0) [ true ↦ pos 0 | false ↦ strncmp_loop m (s1 + 1) (s2 + 1) n ]
  | false ↦ sub_ℕ (m s1) (m s2)
]

unfoldable pub ece391_strncmp : Memory → ℕ → ℕ → ℕ → ℤ
ece391_strncmp m s1 s2 n = if n == 0 then pos 0 else strncmp_loop m s1 s2 n

-- The loop of `ece391_strrev`.
unfoldable pub swap_loop : ℕ → ℕ → ℕ → ℕ → Memory → Memory
swap_loop zero s beg end m = m
swap_loop (suc fuel) s beg end m = elim (ltb beg end) [
  | true ↦
      (let tmp = m (s + end) in
        let m1 = update m (s + end) (m (s + beg)) in
        swap_loop fuel s (beg + 1) (end - 1) (update m1 (s + beg) tmp))
  | false ↦ m
]

-- `end` is -1 for the empty string, which like 0 makes the function return at once.
unfoldable pub ece391_strrev : ℕ → Memory → Memory
ece391_strrev s m = let n = ece391_strlen m s in if leb n 1 then m else swap_loop n s 0 (n - 1) m

-- The loop of `ece391_itoa`, and the terminator behind it.
unfoldable pub place_loop : ℕ → ℕ → ℕ → ℕ → Memory → Memory
place_loop zero newval newbuf radix m = m
place_loop (suc fuel) newval newbuf radix m = elim (ltb 0 newval) [
  | true ↦
      place_loop fuel (newval / radix) (newbuf + 1) radix
        (update m newbuf (lookup_digit (newval % radix)))
  | false ↦ update m newbuf 0
]

-- A uint32_t has at most 32 digits.
unfoldable pub ece391_itoa : ℕ → ℕ → ℕ → Memory → Memory
ece391_itoa value buf radix m = elim (value == 0) [
  | true ↦ update (update m buf b'0') (buf + 1) 0
  | false ↦ ece391_strrev buf (place_loop 33 value buf radix m)
]

-- The system calls of ece391syscall.h, as the programs use them, over a state with the program's
-- memory. `literal` is where the linker has put a string constant.
pub record Syscalls (S : Type 0) : Type 0 where
  pub memory : S → Memory
  pub store : (Memory → Memory) → S → S
  pub literal : List ℕ → ℕ
  pub ece391_open : ℕ → S → ℤ × S
  pub ece391_read : ℤ → ℕ → ℕ → S → ℤ × S
  pub ece391_write : ℤ → ℕ → ℤ → S → ℤ × S
  pub ece391_getargs : ℕ → ℕ → S → ℤ × S
  pub ece391_execute : ℕ → S → ℤ × S
  pub ece391_close : ℤ → S → ℤ × S
  pub ece391_vidmap : ℕ → S → ℤ × S
  -- `int $0x80` with a number in %eax, whatever the other registers hold.
  pub int_0x80 : ℤ → S → ℤ × S

-- The exit status of a program that ends within the rounds of its loop that it is given, and the state.
abbrev pub Exit : Type 0 → Type 0
Exit S = Option (ℕ × S)

module _ {S : Type 0} (os : Syscalls S) where
  -- The result of the write is dropped.
  unfoldable pub ece391_fdputs : ℤ → ℕ → S → S
  ece391_fdputs fd s w = (os.ece391_write fd s (pos (ece391_strlen (os.memory w) s)) w).1

  abbrev pub fdputs_literal : List ℕ → S → S
  fdputs_literal message w = ece391_fdputs (pos 1) (os.literal message) w

  -- ece391cat.c: the loop, with `buf` where its array lies.
  unfoldable pub cat_loop : ℕ → ℤ → ℕ → S → Exit S
  cat_loop zero fd buf w = none
  cat_loop (suc fuel) fd buf w =
      let (cnt, w1) = os.ece391_read fd buf 1024 w in
      elim (is_zero cnt) [
        | true ↦ some (0, w1)
        | false ↦ elim (is_failure cnt) [
          | true ↦ some (3, fdputs_literal (ascii "file read failed\n") w1)
          | false ↦
              (let (written, w2) = os.ece391_write (pos 1) buf cnt w1 in
                elim (is_failure written) [ true ↦ some (3, w2) | false ↦ cat_loop fuel fd buf w2 ])
        ]
      ]

  unfoldable pub cat_main : ℕ → ℕ → S → Exit S
  cat_main fuel buf w =
      let (result, w1) = os.ece391_getargs buf 1024 w in
      if not (is_zero result)
      then some (3, fdputs_literal (ascii "could not read arguments\n") w1)
      else (let (fd, w2) = os.ece391_open buf w1 in
          if is_failure fd
          then some (2, fdputs_literal (ascii "file not found\n") w2)
          else cat_loop fuel fd buf w2)

  -- ece391ls.c: a name of 32 characters is ended by a newline in the 33rd.
  unfoldable pub ls_loop : ℕ → ℤ → ℕ → S → Exit S
  ls_loop zero fd buf w = none
  ls_loop (suc fuel) fd buf w =
      let (cnt, w1) = os.ece391_read fd buf 32 w in
      elim cnt [
        | negsuc k ↦
            if is_failure (negsuc k)
            then some (3, fdputs_literal (ascii "directory entry read failed\n") w1)
            else none
        | pos n ↦ elim (n == 0) [
          | true ↦ some (0, w1)
          | false ↦
              (let w2 = os.store (λ m. update m (buf + n) b'\n') w1 in
                let (written, w3) = os.ece391_write (pos 1) buf (pos (n + 1)) w2 in
                elim (is_failure written) [ true ↦ some (3, w3) | false ↦ ls_loop fuel fd buf w3 ])
        ]
      ]

  unfoldable pub ls_main : ℕ → ℕ → S → Exit S
  ls_main fuel buf w =
      let (fd, w1) = os.ece391_open (os.literal (ascii ".")) w in
      if is_failure fd
      then some (2, fdputs_literal (ascii "directory open failed\n") w1)
      else ls_loop fuel fd buf w1

  -- ece391testprint.c
  unfoldable pub testprint_main : S → Exit S
  testprint_main w =
      some (0, fdputs_literal (ascii "Hello, if this ran, the program was correct. Yay!\n") w)

  -- ece391hello.c; a `read` that returns less than -1 would index the array below its start.
  unfoldable pub hello_main : ℕ → S → Exit S
  hello_main buf w =
      let w1 = fdputs_literal (ascii "Hi, what's your name? ") w in
      let (cnt, w2) = os.ece391_read (pos 0) buf 1023 w1 in
      elim cnt [
        | negsuc k ↦
            if is_failure (negsuc k)
            then some (3, fdputs_literal (ascii "Can't read name from keyboard.\n") w2)
            else none
        | pos n ↦
            (let w3 = os.store (λ m. update m (buf + n) 0) w2 in
              some (0, ece391_fdputs (pos 1) buf (fdputs_literal (ascii "Hello, ") w3)))
      ]
