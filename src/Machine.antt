-- ===== src/Machine.antt =====
-- The state of the kernel: the globals of student-distrib/*.c and the memory they point into.
-- Sources: x86_desc.h, terminal.h, system_call.h, file_system.h, keyboard.c, i8259.c, paging.h, lib.c.
--
-- A C array is a function of its index, memory a function from an address to a byte, and an int8_t
-- or uint8_t is its byte (so -1 is 255). Each `outb` is recorded in `ports`, the latest first.
use linux_like_os_kernel.Prelude.{ℕ, ◌+◌, ◌*◌, ◌%◌, ◌^◌, List, ◌∷◌, update}

abbrev pub Memory : Type 0
Memory = ℕ → ℕ

-- The casts to the fixed widths.
abbrev pub u8 : ℕ → ℕ
u8 n = n % 2 ^ 8

abbrev pub u16 : ℕ → ℕ
u16 n = n % 2 ^ 16

abbrev pub u32 : ℕ → ℕ
u32 n = n % 2 ^ 32

-- The byte of an int8_t that holds -1.
abbrev pub byte_minus_one : ℕ
byte_minus_one = 255

abbrev pub term_max : ℕ
term_max = 3

abbrev pub key_buf_max : ℕ
key_buf_max = 128

abbrev pub max_pcb_mask_len : ℕ
max_pcb_mask_len = 4

abbrev pub max_file_num : ℕ
max_file_num = 8

abbrev pub max_arg_length : ℕ
max_arg_length = 100

-- `term_t`
pub record Term : Type 0 where
  pub term_id : ℕ
  pub cur_pcb_id : ℕ
  pub cursor_x : ℕ
  pub cursor_y : ℕ
  pub rtc_virtual_freq : ℕ
  pub rtc_virtual_counter : ℕ
  pub rtc_interrupt_received : ℕ
  pub key_buf : ℕ → ℕ
  pub key_buf_idx : ℕ
  pub enter_state : ℕ
  pub running : ℕ
  pub video_mem : ℕ

-- The six tables of function pointers that are assigned to `file_optable_t` variables.
pub data FileOps : Type 0 where
  stdin_fop stdout_fop rtc_fop dir_fop file_fop error_fop : FileOps

-- `file_desc_t`
pub record FileDesc : Type 0 where
  pub optable : FileOps
  pub inode : ℕ
  pub file_position : ℕ
  pub flags : ℕ

-- `pcb_t`, less `cur_tss`, which no code reads or writes
pub record Pcb : Type 0 where
  pub fds : ℕ → FileDesc
  pub parent_ksp : ℕ
  pub parent_kbp : ℕ
  pub ksp : ℕ
  pub kbp : ℕ
  pub process_number : ℕ
  pub parent_process_number : ℕ
  pub argbuf : ℕ → ℕ
  pub term_id : ℕ
  pub rtc_counter : ℕ
  pub rtc_freq : ℕ

-- i8259.c
pub record Pic : Type 0 where
  pub master_mask : ℕ
  pub slave_mask : ℕ

-- lib.c: the cursor, and where test output goes
pub record Console : Type 0 where
  pub screen_x : ℕ
  pub screen_y : ℕ
  pub video_mem : ℕ

-- keyboard.c
pub record Keyboard : Type 0 where
  pub key_buf : ℕ → ℕ
  pub key_buf_idx : ℕ
  pub scancode_state : ℕ
  pub ctrl_state : ℕ
  pub alt_state : ℕ
  pub keyboard_enabled : ℕ
  pub ctrl_c_flag : ℕ

-- paging.h: the tables, and the addresses that the linker gives two of them
pub record Paging : Type 0 where
  pub page_dir : ℕ → ℕ
  pub page_tab : ℕ → ℕ
  pub page_video_tab : ℕ → ℕ
  pub page_tab_addr : ℕ
  pub page_video_tab_addr : ℕ

-- file_system.h and the globals of file_system.c
pub record Fs : Type 0 where
  pub dentry_number : ℕ
  pub inode_number : ℕ
  pub block_number : ℕ
  pub num_dentries : ℕ
  pub num_inodes : ℕ
  pub num_datablocks : ℕ
  pub fs_dentry : ℕ
  pub inodeblk : ℕ
  pub first_datablk : ℕ
  pub num_file_read : ℕ
  pub flag_file_read : ℕ

pub record Machine : Type 0 where
  pub mem : Memory
  pub ports : List (ℕ × ℕ)
  pub pic : Pic
  pub console : Console
  pub keyboard : Keyboard
  pub paging : Paging
  pub fs : Fs
  pub term : ℕ → Term
  pub cur_term_id : ℕ
  pub now_term_id : ℕ
  pub next_term_id : ℕ
  pub prev_term_id : ℕ
  pub pcb_mask : ℕ → ℕ → ℕ
  pub pcb : ℕ → Pcb
  pub tss_esp0 : ℕ
  pub tss_ss0 : ℕ
  pub interrupt_halt_flag : ℕ

-- One statement after another: `m ▷ f ▷ g` runs `f`, then `g`.
infixl 5 ◌▷◌
abbrev pub ◌▷◌ {ℓ κ} : {A : Type ℓ} {B : Type κ} → A → (A → B) → B
a ▷ f = f a

-- The macro `outb(data, port)`.
abbrev pub outb : ℕ → ℕ → Machine → Machine
outb byte port m = record m { ports = (u8 byte, port) ∷ m.ports }

-- Assignments to one element of an array of structs.
abbrev pub set_term : ℕ → (Term → Term) → Machine → Machine
set_term i f m = record m { term = update m.term i (f (m.term i)) }

abbrev pub set_pcb : ℕ → (Pcb → Pcb) → Machine → Machine
set_pcb i f m = record m { pcb = update m.pcb i (f (m.pcb i)) }

abbrev pub set_mem : Memory → Machine → Machine
set_mem mem m = record m { mem = mem }

-- Which PCB `get_pcb_from_id(term[i].cur_pcb_id + i * MAX_PCB_MASK_LEN)` points to. The argument
-- is cast to uint8_t, and the PCB of `id` lies at 0x800000 - (id + 1) * 0x2000.
abbrev pub term_pcb_id : Machine → ℕ → ℕ
term_pcb_id m i = u8 ((m.term i).cur_pcb_id + i * max_pcb_mask_len)

abbrev pub now_pcb_id : Machine → ℕ
now_pcb_id m = term_pcb_id m m.now_term_id
