-- ===== src/Emulation.antt =====
-- syscalls/ece391emulate.c: the system calls of the programs on another system, so that a program can be tried
-- there. That system's library is `Host`.
pub mod Copies
pub mod Arguments
mod Tests
use linux_like_os_kernel.Prelude.{
  ℕ, zero, suc, ◌+◌, ◌-◌, ltb, leb, ◌==◌, ◌&&◌, ◌||◌, not, Bool, true, false, ℤ, pos, negsuc,
  failure, is_zero, is_failure, if◌then◌else◌, update, Option, none, some, List, [], ◌∷◌, ◌++◌,
  ascii,
}
use linux_like_os_kernel.Machine.{Memory, ◌▷◌}
use linux_like_os_kernel.CString.{address_space}
use linux_like_os_kernel.FileSystem.{int32, write32}
use linux_like_os_kernel.Terminal.{below}
use linux_like_os_kernel.Programs.{ece391_strlen, ece391_strcpy, ece391_strcmp}

-- How a process has ended, as `wait` tells it.
pub data Status : Type 0 where
  exited : ℕ → Status
  killed : ℕ → Status

-- What the file uses of the other system, over its state.
pub record Host (S : Type 0) : Type 0 where
  pub memory : S → Memory
  pub store : (Memory → Memory) → S → S
  pub literal : List ℕ → ℕ
  -- `int $0x80`, with %eax, %ebx, %ecx and %edx
  pub int_0x80 : ℕ → ℤ → ℕ → ℤ → S → ℕ × S
  -- an open directory, NULL where there is none, and the address of the next entry's name
  pub opendir : ℕ → S → ℕ × S
  pub readdir : ℕ → S → Option ℕ × S
  pub closedir : ℕ → S → S
  pub open_null : S → ℤ × S
  pub close_fd : ℤ → S → S
  -- `fork`, `execv` and `wait`
  pub run : ℕ → List ℕ → S → Status × S
  -- "/dev/mem", and where its first megabyte is mapped
  pub open_mem : S → ℤ × S
  pub map_mem : ℤ → S → Option ℕ × S

-- The static variables, and the state of the other system.
pub record Emulator (S : Type 0) : Type 0 where
  pub host : S
  pub dir : ℕ
  pub dir_fd : ℤ
  pub mem_fd : ℤ

-- `CMP $0xFFFFC000,%EAX; JBE 1f; MOVL $-1,%EAX`
unfoldable pub checked : ℕ → ℤ
checked eax = if ltb 0xFFFFC000 eax then failure else int32 eax

abbrev same_int : ℤ → ℤ → Bool
same_int (pos a) (pos b) = a == b
same_int (pos a) (negsuc b) = false
same_int (negsuc a) (pos b) = false
same_int (negsuc a) (negsuc b) = a == b

-- The end of a command.
abbrev pub is_end : ℕ → Bool
is_end c = c == 0 || c == b'\n'

-- `for (...; '\0' != *scan && ' ' != *scan && '\n' != *scan; scan++);`
unfoldable pub skip_word : ℕ → Memory → ℕ → ℕ
skip_word zero m scan = scan
skip_word (suc fuel) m scan = elim (is_end (m scan) || m scan == b' ') [
  | true ↦ scan
  | false ↦ skip_word fuel m (scan + 1)
]

unfoldable pub skip_spaces : ℕ → Memory → ℕ → ℕ
skip_spaces zero m scan = scan
skip_spaces (suc fuel) m scan = elim (m scan == b' ') [
  | true ↦ skip_spaces fuel m (scan + 1)
  | false ↦ scan
]

-- "parse arguments": the arguments from `scan` on, and memory with a zero behind each of them. A round
-- takes an argument.
unfoldable pub parse_arguments : ℕ → ℕ → Memory → List ℕ × Memory
parse_arguments zero scan m = ([], m)
parse_arguments (suc fuel) scan m =
    let start = skip_spaces address_space m scan in
    elim (is_end (m start)) [
      | true ↦ ([], update m start 0)
      | false ↦
          (let stop = skip_word address_space m start in
            let (rest, m1) = elim (m stop == 0) as (λ x. List ℕ × Memory) [
              | true ↦ parse_arguments fuel stop m
              | false ↦ parse_arguments fuel (stop + 1) (update m stop 0)
            ] in
            (start ∷ rest, m1))
    ]

-- What follows the loop of `getargs`.
unfoldable pub finish : ℕ → ℕ → Memory → ℤ × Memory
finish buf nbytes m = if ltb nbytes 1 then (failure, m) else (pos 0, update m buf 0)

-- A round of the loop, for an argument of `argv`; `next` is what follows `buf += len; nbytes -= len;`, and
-- `nbytes` is not negative.
abbrev pub copy_arg : (ℕ → ℕ → Memory → ℤ × Memory) → ℕ → ℕ → ℕ → Memory → ℤ × Memory
copy_arg next arg buf nbytes m = elim (ltb nbytes (ece391_strlen m arg)) [
  | true ↦ (failure, m)
  | false ↦
      next (buf + ece391_strlen m arg) (nbytes - ece391_strlen m arg) (ece391_strcpy buf arg m)
]

-- From there on, with the arguments that are left.
unfoldable pub getargs_rest : List ℕ → ℕ → ℕ → Memory → ℤ × Memory
getargs_rest [] buf nbytes m = finish buf nbytes m
getargs_rest (arg ∷ rest) buf nbytes m = elim (ltb nbytes 1) [
  | true ↦ (failure, m)
  | false ↦ copy_arg (getargs_rest rest) arg (buf + 1) (nbytes - 1) (update m buf b' ')
]

-- `argv` without the name of the program; `start_esp` points at `argc` and it.
unfoldable pub emulate_getargs : List ℕ → ℕ → ℕ → Memory → ℤ × Memory
emulate_getargs [] buf nbytes m = finish buf nbytes m
emulate_getargs (arg ∷ rest) buf nbytes m = copy_arg (getargs_rest rest) arg buf nbytes m

-- `if (++copied == nbytes)`
abbrev is_count : ℤ → ℕ → Bool
is_count (pos n) k = n == k
is_count (negsuc n) k = false

-- The first loop of `read`, which copies a name; `left` rounds are left to 32. The result is the number of
-- bytes, and whether the call ends with it.
unfoldable pub copy_name : ℕ → ℕ → ℕ → ℤ → ℕ → Memory → ℕ × Bool × Memory
copy_name zero from to nbytes copied m = (copied, true, m)
copy_name (suc left) from to nbytes copied m = elim (m (from + copied) == 0) [
  | true ↦ (copied, false, m)
  | false ↦
      (let m1 = update m (to + copied) (m (from + copied)) in
        elim (is_count nbytes (copied + 1)) [
          | true ↦ (copied + 1, true, m1)
          | false ↦ copy_name left from to nbytes (copied + 1) m1
        ])
]

-- The second loop: zeros up to `nbytes` and 32.
unfoldable pub pad_name : ℕ → ℕ → ℤ → ℕ → Memory → ℕ × Memory
pad_name zero to nbytes copied m = (copied, m)
pad_name (suc left) to nbytes copied m = elim (below copied nbytes) [
  | true ↦ pad_name left to nbytes (copied + 1) (update m (to + copied) 0)
  | false ↦ (copied, m)
]

-- Both loops for the name at `from`.
unfoldable pub read_name : ℕ → ℕ → ℤ → Memory → ℕ × Memory
read_name from to nbytes m =
    let (copied, done, m1) = copy_name 32 from to nbytes 0 m in
    elim done [ true ↦ (copied, m1) | false ↦ pad_name (32 - copied) to nbytes copied m1 ]

module _ {S : Type 0} (os : Host S) where
  abbrev set_memory : Memory → Emulator S → Emulator S
  set_memory m e = record e { host = os.store (λ x. m) e.host }

  -- A system call of the other system, by one of the wrappers.
  abbrev pass_on : ℕ → ℤ → ℕ → ℤ → Emulator S → ℤ × Emulator S
  pass_on number fd buf nbytes e =
      let (eax, w) = os.int_0x80 number fd buf nbytes e.host in (checked eax, record e { host = w })

  -- `NULL == dir || dir_fd != fd`
  abbrev is_other : ℤ → Emulator S → Bool
  is_other fd e = e.dir == 0 || not (same_int e.dir_fd fd)

  abbrev exit_status : Status → ℤ
  exit_status (exited status) = pos status
  exit_status (killed signal) = if signal == 9 then failure else pos 256

  -- `buf` is where its array lies.
  unfoldable pub emulate_execute : ℕ → ℕ → Emulator S → ℤ × Emulator S
  emulate_execute buf command e =
      let m = os.memory e.host in
      if ltb 1023 (ece391_strlen m command)
      then (failure, e)
      else (let m1 = ece391_strcpy (buf + 2) command (update (update m buf b'.') (buf + 1) b'/') in
          let scan = skip_word address_space m1 (buf + 2) in
          let (args, m2) = elim (m1 scan == 0) as (λ x. List ℕ × Memory) [
            | true ↦ ([], m1)
            | false ↦ parse_arguments 1024 (scan + 1) (update m1 scan 0)
          ] in
          let (status, w) = os.run buf (buf ∷ args) (set_memory m2 e).host in
          (exit_status status, record e { host = w }))

  unfoldable pub emulate_open : ℕ → Emulator S → ℤ × Emulator S
  emulate_open filename e =
      if is_zero (ece391_strcmp (os.memory e.host) filename (os.literal (ascii ".")))
      then (let (dir, w) = os.opendir (os.literal (ascii ".")) e.host in
          let (fd, w1) = os.open_null w in (fd, record e { host = w1; dir = dir; dir_fd = fd }))
      else (let (rval, w) = os.int_0x80 5 (pos filename) 0 (pos 0) e.host in
          (checked rval, record e { host = w }))

  unfoldable pub emulate_vidmap : ℕ → Emulator S → ℤ × Emulator S
  emulate_vidmap screen_start e =
      let (mem_fd, w) = if is_failure e.mem_fd then os.open_mem e.host else (e.mem_fd, e.host) in
      let (mapped, w1) = os.map_mem mem_fd w in
      elim mapped [
        | none ↦ (failure, record e { host = w1; mem_fd = mem_fd })
        | some image ↦ (
          pos 0,
          record e {
            host = os.store (λ m. write32 m screen_start (image + 0xB8000)) w1;
            mem_fd = mem_fd;
          },
        )
      ]

  unfoldable pub emulate_read : ℤ → ℕ → ℤ → Emulator S → ℤ × Emulator S
  emulate_read fd buf nbytes e =
      if is_other fd e
      then pass_on 3 fd buf nbytes e
      else (let (entry, w) = os.readdir e.dir e.host in
          elim entry [
            | none ↦ (pos 0, record e { host = w })
            | some name ↦
                (let (copied, m) = read_name name buf nbytes (os.memory w) in
                  (pos copied, record e { host = os.store (λ x. m) w }))
          ])

  unfoldable pub emulate_write : ℤ → ℕ → ℤ → Emulator S → ℤ × Emulator S
  emulate_write fd buf nbytes e = if is_other fd e then pass_on 4 fd buf nbytes e else (failure, e)

  unfoldable pub emulate_close : ℤ → Emulator S → ℤ × Emulator S
  emulate_close fd e = if is_other fd e then pass_on 6 fd 0 (pos 0) e else (
    pos 0,
    record e { host = os.close_fd e.dir_fd (os.closedir e.dir e.host); dir = 0; dir_fd = failure },
  )
