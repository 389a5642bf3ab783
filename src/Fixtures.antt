-- ===== src/Fixtures.antt =====
-- A machine for the tests: three idle terminals, and a small image of a file system in memory.
use linux_like_os_kernel.Prelude.{ℕ, ◌+◌, ◌*◌, ◌==◌, if◌then◌else◌, []}
use linux_like_os_kernel.Machine.{Memory, Machine, Term, FileDesc, Pcb, Fs, error_fop}

abbrev pub no_memory : Memory
no_memory a = 0

-- "ls" at address 10.
abbrev pub word : Memory
word a = if a == 10 then b'l' else if a == 11 then b's' else 0

-- A boot block with one entry, "ls", of inode 0; an inode of 2 bytes; its block, "hi". The name
-- "ls" also stands at address 10, and the count of inodes is 1.
abbrev pub image : Memory
image a =
    if a == 10
    then b'l'
    else if a == 11
    then b's'
    else if a == 64
    then b'l'
    else if a == 65
    then b's'
    else if a == 4096
    then 2
    else if a == 8192
    then b'h'
    else if a == 8193
    then b'i'
    else 0

abbrev pub image_fs : Fs
image_fs = record {
  dentry_number = 1;
  inode_number = 1;
  block_number = 1;
  num_dentries = 1;
  num_inodes = 1;
  num_datablocks = 1;
  fs_dentry = 64;
  inodeblk = 4096;
  first_datablk = 8192;
  num_file_read = 0;
  flag_file_read = 1;
}

abbrev pub idle_term : ℕ → Term
idle_term i = record {
  term_id = i;
  cur_pcb_id = 0;
  cursor_x = 0;
  cursor_y = 0;
  rtc_virtual_freq = 0;
  rtc_virtual_counter = 0;
  rtc_interrupt_received = 0;
  key_buf = λ k. 0;
  key_buf_idx = 0;
  enter_state = 0;
  running = 0;
  video_mem = 0xB9000 + i * 0x1000;
}

abbrev pub closed_fd : FileDesc
closed_fd = record { optable = error_fop; inode = 0; file_position = 0; flags = 0 }

abbrev pub idle_pcb : Pcb
idle_pcb = record {
  fds = λ i. closed_fd;
  parent_ksp = 0;
  parent_kbp = 0;
  ksp = 0;
  kbp = 0;
  process_number = 0;
  parent_process_number = 0;
  argbuf = λ i. 0;
  term_id = 0;
  rtc_counter = 0;
  rtc_freq = 512;
}

abbrev pub boot : Machine
boot = record {
  mem = image;
  ports = [];
  pic = record { master_mask = 255; slave_mask = 255 };
  console = record { screen_x = 79; screen_y = 24; video_mem = 0xB8000 };
  keyboard = record {
    key_buf = λ k. 0;
    key_buf_idx = 0;
    scancode_state = 0;
    ctrl_state = 0;
    alt_state = 0;
    keyboard_enabled = 0;
    ctrl_c_flag = 0;
  };
  paging = record {
    page_dir = λ i. 0;
    page_tab = λ i. 0;
    page_video_tab = λ i. 0;
    page_tab_addr = 0x500000;
    page_video_tab_addr = 0x501000;
  };
  fs = image_fs;
  term = idle_term;
  cur_term_id = 0;
  now_term_id = 1;
  next_term_id = 2;
  prev_term_id = 0;
  pcb_mask = λ i j. 0;
  pcb = λ i. idle_pcb;
  tss_esp0 = 0;
  tss_ss0 = 0;
  interrupt_halt_flag = 0;
}
