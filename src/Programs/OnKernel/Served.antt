-- ===== src/Programs/OnKernel/Served.antt =====
-- syscalls/ece391syserr.c on student-distrib/: what stays true of the machine while the program runs.
use linux_like_os_kernel.Prelude.{
  ℕ, ◌<◌, ◌≤◌, List, ascii, none, some, ◌≡◌, ◌≢◌, ◌⊎◌, inr, refl, ◌∙◌, ap, sym,
}
use linux_like_os_kernel.Machine.{Machine, FileDesc, stdin_fop, stdout_fop}
use linux_like_os_kernel.Console.{putc, put_all}
use linux_like_os_kernel.Console.Cursor.{IsOnScreen}
use linux_like_os_kernel.Console.Frame.{IsPrinting, put_all-IsPrinting}
use linux_like_os_kernel.Printf.Bounds.{IsConfined, putc-IsConfined}
use linux_like_os_kernel.Printf.Frame.{put_all-keeps}
use linux_like_os_kernel.FileSystem.{find_dentry}
use linux_like_os_kernel.Files.Descriptors.{now_fds}
use linux_like_os_kernel.Programs.Syserr.Passes.{speech, absent}
use linux_like_os_kernel.Programs.OnKernel.Strings.{HoldsString}
use linux_like_os_kernel.Programs.OnKernel.Names.{find_dentry_above}

-- The end of the screen in memory; the kernel, the file system and the program lie above it.
abbrev pub screen_end : ℕ
screen_end = 0xB8FA0

-- The program's strings are in memory, "." is in the directory and the absent names are not, and the
-- terminal that runs is shown.
pub record IsReady (literal : List ℕ → ℕ) (m : Machine) : Type 0 where
  pub shown : m.now_term_id ≡ m.cur_term_id
  pub on : IsOnScreen m
  pub strings : (k : ℕ) → HoldsString m.mem (literal (speech k)) (speech k)
  pub string_above : (k : ℕ) → screen_end ≤ literal (speech k)
  pub directory_above : screen_end ≤ m.fs.fs_dentry
  pub dot_above : screen_end ≤ literal (ascii ".")
  pub absent_above : (k : ℕ) → screen_end ≤ literal (absent k)
  pub dot_index : ℕ
  pub dot : find_dentry m.mem m.fs (literal (ascii ".")) 0 63 ≡ some dot_index
  pub away : (k : ℕ) → find_dentry m.mem m.fs (literal (absent k)) 0 63 ≡ none

-- Descriptors 0 and 1 are the terminal's, those from `lo` to `hi - 1` are open, and the others not.
pub record AreOpen (lo hi : ℕ) (fds : ℕ → FileDesc) : Type 0 where
  pub stdin : ((fds 0).flags ≡ 1) × ((fds 0).optable ≡ stdin_fop)
  pub stdout : ((fds 1).flags ≡ 1) × ((fds 1).optable ≡ stdout_fop)
  pub opened : (j : ℕ) → lo ≤ j → j < hi → (fds j).flags ≢ 0
  pub shut : (j : ℕ) → 2 ≤ j → j < 8 → (j < lo) ⊎ (hi ≤ j) → (fds j).flags ≡ 0

-- Since machine `base`, the text `out` has been put on the screen, and beside that only the processes'
-- descriptors have changed.
pub record IsServed (base : Machine) (lo hi : ℕ) (out : List ℕ) (m : Machine) : Type 0 where
  pub same : m ≡ record (put_all putc out base) { pcb = m.pcb }
  pub fds : AreOpen lo hi (now_fds m)

-- What has been put on the screen is nowhere else, and has changed neither the files nor the terminals.
confined : (s : List ℕ) (base : Machine) → IsOnScreen base → IsConfined base (put_all putc s base)
confined s base on =
    put_all-keeps putc (IsConfined base) (putc-IsConfined base) s base
      (record { on = on; same = λ a out. refl })

module _ (literal : List ℕ → ℕ) (base : Machine) (ready : IsReady literal base) (lo hi : ℕ)
    (out : List ℕ) (m : Machine) (served : IsServed base lo hi out m) where
  printing : IsPrinting base (put_all putc out base)
  printing = put_all-IsPrinting out base

  pub m-shown : m.now_term_id ≡ m.cur_term_id
  m-shown =
      ap (λ (x : Machine). x.now_term_id) served.same
      ∙ ap (λ (x : Machine). x.now_term_id) printing
      ∙ ready.shown
      ∙ sym (
          ap (λ (x : Machine). x.cur_term_id) served.same
          ∙ ap (λ (x : Machine). x.cur_term_id) printing)

  pub m-fs : m.fs ≡ base.fs
  m-fs = ap (λ (x : Machine). x.fs) served.same ∙ ap (λ (x : Machine). x.fs) printing

  pub m-mem : (a : ℕ) → screen_end ≤ a → base.mem a ≡ m.mem a
  m-mem a h =
      sym (ap (λ (x : Machine). x.mem a) served.same ∙ (confined out base ready.on).same a (inr h))

  pub m-find :
      (name : ℕ)
      → screen_end ≤ name
      → find_dentry m.mem m.fs name 0 63 ≡ find_dentry base.mem base.fs name 0 63
  m-find name h =
      ap (λ fs. find_dentry m.mem fs name 0 63) m-fs
      ∙ sym (
          find_dentry_above base.mem m.mem screen_end m-mem base.fs name 0 63 ready.directory_above
            h)
