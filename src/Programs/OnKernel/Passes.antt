-- ===== src/Programs/OnKernel/Passes.antt =====
-- syscalls/ece391syserr.c on student-distrib/: the kernel keeps the promises that the program checks.
use linux_like_os_kernel.Prelude.{
  ℕ, zero, suc, ◌+◌, ◌<◌, ◌≤◌, ltb, ◌&&◌, ℤ, pos, failure, sub_ℕ, List, [], ◌∷◌, ◌++◌, length,
  ascii, Option, none, some, ◌≡◌, ◌≢◌, refl, arith, ◌∙◌, ap, sym, subst, Bool, true, ne→==,
}
use linux_like_os_kernel.Machine.{Machine}
use linux_like_os_kernel.Console.{putc, put_all}
use linux_like_os_kernel.Console.Frame.{put_all-IsPrinting, put_all-set_pcbs}
use linux_like_os_kernel.FileSystem.{find_dentry}
use linux_like_os_kernel.Files.{write, write_op, open_file, close}
use linux_like_os_kernel.Files.Descriptors.{now_fds}
use linux_like_os_kernel.Process.{Frame}
use linux_like_os_kernel.Programs.{ece391_strlen, ece391_fdputs, fdputs_literal}
use linux_like_os_kernel.Programs.Cat.{Holds}
use linux_like_os_kernel.Programs.Syserr.{syserr_main}
use linux_like_os_kernel.Programs.Syserr.Passes.{speech, absent, IsRefusing, printed}
use linux_like_os_kernel.Programs.Syserr.Runs.{syserr_main_lem}
use linux_like_os_kernel.Programs.OnKernel.{Running, Registers, call, kernel}
use linux_like_os_kernel.Programs.OnKernel.Strings.{
  HoldsString, is_plain_text, ece391_strlen-HoldsString, term_write-HoldsString, put_all-append,
}
use linux_like_os_kernel.Programs.OnKernel.Served.{
  screen_end, IsReady, AreOpen, IsServed, m-shown, m-mem, m-find,
}
use linux_like_os_kernel.Programs.OnKernel.Refuses.{
  read-refused, write-refused, close-refused, open_file-refused, vidmap_at-refused,
  syc_handler-refused,
}
use linux_like_os_kernel.Programs.OnKernel.Opens.{
  open_file-IsServed, open_file-full, close-IsServed, emptied-IsServed,
}

-- What the program says is plain.
speech_plain : (k : ℕ) → (is_plain_text (speech k) && ltb (length (speech k)) 100) ≡ true
speech_plain zero = refl
speech_plain (suc zero) = refl
speech_plain (suc (suc zero)) = refl
speech_plain (suc (suc (suc zero))) = refl
speech_plain (suc (suc (suc (suc zero)))) = refl
speech_plain (suc (suc (suc (suc (suc zero))))) = refl
speech_plain (suc (suc (suc (suc (suc (suc zero)))))) = refl
speech_plain (suc (suc (suc (suc (suc (suc (suc zero))))))) = refl
speech_plain (suc (suc (suc (suc (suc (suc (suc (suc zero)))))))) = refl
speech_plain (suc (suc (suc (suc (suc (suc (suc (suc (suc n))))))))) = refl

plain_short : (p : Bool) (n : ℕ) → (p && ltb n 100) ≡ true → (p ≡ true) × (n < 100)
plain_short p n h = ground arith

Holds-same :
    (s : List ℕ) (m m' : ℕ → ℕ) (a bound : ℕ)
    → ((b : ℕ) → bound ≤ b → m b ≡ m' b)
    → bound ≤ a
    → Holds m a s
    → Holds m' a s
Holds-same [] m m' a bound same h k = tt
Holds-same (c ∷ s) m m' a bound same h (e, k) =
    (sym (same a h) ∙ e, Holds-same s m m' (a + 1) bound same (omega (arith, h)) k)

-- A string is written to descriptor 1.
write-HoldsString :
    (s : List ℕ) (m : Machine) (a : ℕ)
    → AreOpen 2 2 (now_fds m)
    → is_plain_text s ≡ true
    → HoldsString m.mem a s
    → a ≢ 0
    → m.now_term_id ≡ m.cur_term_id
    → write (pos 1) a (pos (length s)) m ≡ some (pos (length s), put_all putc s m)
unfolding write write_op
write-HoldsString s m a fds p h ne shown =
    rw (ne→== a 0 ne, fds.stdout.0, fds.stdout.1, write) (term_write-HoldsString s m a p h ne shown)

-- The program runs, and the machine is served.
abbrev pub At : Machine → ℕ → ℕ → List ℕ → Running → Type 0
At base lo hi out none = ⊥
At base lo hi out (some m) = IsServed base lo hi out m

module _ (frame : Frame) (ticks : ℕ) (keys : List (Machine → Machine)) (r : Registers)
    (literal : List ℕ → ℕ) (base : Machine) (ready : IsReady literal base) where
  print-IsServed :
      (k : ℕ) (out : List ℕ) (m : Machine)
      → IsServed base 2 2 out m
      → IsServed base 2 2 (out ++ speech k) (put_all putc (speech k) m)
  print-IsServed k out m served = record {
    same =
        ap (put_all putc (speech k)) served.same
        ∙ put_all-set_pcbs m.pcb (speech k) (put_all putc out base)
        ∙ ap (λ (x : Machine). record x { pcb = m.pcb }) (sym (put_all-append out (speech k) base))
        ∙ ap (λ pcb. record (put_all putc (out ++ speech k) base) { pcb = pcb })
            (sym (ap (λ (x : Machine). x.pcb) (put_all-IsPrinting (speech k) m)));
    fds = subst (AreOpen 2 2) (sym (ap now_fds (put_all-IsPrinting (speech k) m))) served.fds;
  }

  prints :
      (k : ℕ) (out : List ℕ) (w : Running)
      → At base 2 2 out w
      → At base 2 2
          (out ++ speech k)
          (fdputs_literal (kernel frame ticks keys r literal) (speech k) w)
  unfolding ece391_fdputs
  prints k out none at = at
  prints k out (some m) served =
      subst (λ o. At base 2 2 (out ++ speech k) (call (λ x. o) (some m)).1) (sym written)
        (print-IsServed k out m served)
    where
      a : ℕ
      a = literal (speech k)

      plain : (is_plain_text (speech k) ≡ true) × (length (speech k) < 100)
      plain = plain_short _ _ (speech_plain k)

      held : HoldsString m.mem a (speech k)
      held =
          Holds-same _ base.mem m.mem a screen_end (m-mem literal base ready 2 2 out m served)
            (ready.string_above k) (ready.strings k)

      written :
          write (pos 1) a (pos (ece391_strlen m.mem a)) m
          ≡ some (pos (length (speech k)), put_all putc (speech k) m)
      written =
          ap (λ n. write (pos 1) a (pos n) m)
            (ece391_strlen-HoldsString (speech k) m.mem a plain.0 plain.1 held)
          ∙ write-HoldsString (speech k) m a served.fds plain.0 held
              (omega (arith, ready.string_above k)) (m-shown literal base ready 2 2 out m served)

  call-refused :
      (f : Machine → Option (ℤ × Machine)) (lo hi : ℕ) (out : List ℕ) (w : Running)
      → At base lo hi out w
      → ((m : Machine) → IsServed base lo hi out m → f m ≡ some (failure, m))
      → call f w ≡ (failure, w)
  call-refused f lo hi out none at e = absurd at
  call-refused f lo hi out (some m) at e = rw (e m at) refl

  call-IsServed :
      (f : Machine → ℤ × Machine) (lo hi lo' hi' : ℕ) (out : List ℕ) (w : Running)
      → At base lo hi out w
      → ((m : Machine) → IsServed base lo hi out m → IsServed base lo' hi' out (f m).1)
      → At base lo' hi' out (call (λ m. some (f m)) w).1
  call-IsServed f lo hi lo' hi' out none at e = at
  call-IsServed f lo hi lo' hi' out (some m) at e = e m at

  dot_find :
      (lo hi : ℕ) (out : List ℕ) (m : Machine)
      → IsServed base lo hi out m
      → find_dentry m.mem m.fs (literal (ascii ".")) 0 63 ≡ some ready.dot_index
  dot_find lo hi out m served =
      m-find literal base ready lo hi out m served _ ready.dot_above ∙ ready.dot

  dot_real : literal (ascii ".") ≢ 0
  dot_real = omega (arith, ready.dot_above)

  dot_result :
      (hi : ℕ) (out : List ℕ) (w : Running)
      → 2 ≤ hi
      → hi < 8
      → At base 2 hi out w
      → (call (λ m. some (open_file (literal (ascii ".")) m)) w).0 ≡ pos hi
  dot_result hi out none h lt at = absurd at
  dot_result hi out (some m) h lt at =
      (open_file-IsServed base out m hi (literal (ascii ".")) ready.dot_index h lt at dot_real
        (dot_find 2 hi out m at)).0

  kernel-IsRefusing : IsRefusing (kernel frame ticks keys r literal) (At base)
  kernel-IsRefusing = record {
    prints = prints;
    reads = λ fd buf n out w h at.
        call-refused _ 2 2 out w at (λ m s. read-refused m s.fds ticks keys fd buf (pos n) h);
    writes = λ fd buf n out w h at.
        call-refused _ 2 2 out w at (λ m s. write-refused m s.fds fd buf n h);
    closes_none =
        λ fd out w at. call-refused _ 2 2 out w at (λ m s. ap some (close-refused m s.fds fd));
    opens_none = λ k out w at. call-refused _ 2 2 out w at (λ m s. ap some (
        open_file-refused m (literal (absent k))
          (m-find literal base ready 2 2 out m s _ (ready.absent_above k) ∙ ready.away k)));
    maps_none = λ p out w h at. call-refused _ 2 2 out w at (λ m s. vidmap_at-refused p m h);
    calls_none = λ number out w h at.
        call-refused _ 2 2 out w at (λ m s. syc_handler-refused frame ticks keys r number m h);
    opens = λ hi out w h lt at. (
      dot_result hi out w h lt at,
      call-IsServed (open_file (literal (ascii "."))) 2 hi 2 (hi + 1) out w at (λ m s.
          (open_file-IsServed base out m hi (literal (ascii ".")) ready.dot_index h lt s dot_real
            (dot_find 2 hi out m s)).1),
    );
    full = λ out w at. call-refused _ 2 8 out w at (λ m s. ap some (
        open_file-full base out m (literal (ascii ".")) ready.dot_index s dot_real
          (dot_find 2 8 out m s)));
    closes = λ lo out w h lt at.
        call-IsServed (close (pos lo)) lo 8 (lo + 1) 8 out w at
          (λ m s. close-IsServed base out m lo h lt s);
    emptied = λ out w at. emptied_at out w at;
  }
    where
      emptied_at : (out : List ℕ) (w : Running) → At base 8 8 out w → At base 2 2 out w
      emptied_at out none at = at
      emptied_at out (some m) at = emptied-IsServed base out m at

-- The machine has put the text `out` on the screen since `base` and still runs the program, and beside
-- the screen and the processes' descriptors nothing has changed.
abbrev pub HasSaid : Machine → List ℕ → Running → Type 0
HasSaid base out none = ⊥
HasSaid base out (some m) =
    (m ≡ record (put_all putc out base) { pcb = m.pcb }) × AreOpen 2 2 (now_fds m)

-- The tests of `syserr` pass on the kernel. When the program has read the line with the number of the
-- test, with nothing but the terminal open, its result is 0, and since then the screen has got what the
-- tests say when they pass, and nothing else has changed but the table of processes, where again
-- nothing but the terminal is open. The terminal that runs must be shown, with its cursor on the
-- screen, "." must be in the directory and the names that the program expects to be missing must not,
-- and its strings must lie above the screen, like the directory.
pub syserr_on_kernel :
    (frame : Frame) (ticks : ℕ) (keys : List (Machine → Machine)) (r : Registers)
    (literal : List ℕ → ℕ) (buf n : ℕ) (w : Running) (base : Machine)
    → (kernel frame ticks keys r literal).ece391_read (pos 0) buf 127 (
        fdputs_literal
          (kernel frame ticks keys r literal)
          (ascii "Choose from tests 1-8. 0 to run all: ")
          w)
      ≡ (pos n, some base)
    → IsReady literal base
    → AreOpen 2 2 (now_fds base)
    → ((syserr_main (kernel frame ticks keys r literal) buf w).0 ≡ 0)
      × HasSaid base
          (printed [] (sub_ℕ (base.mem buf) b'0'))
          (syserr_main (kernel frame ticks keys r literal) buf w).1
syserr_on_kernel frame ticks keys r literal buf n w base e ready fds =
    let (result, at) =
      syserr_main_lem (kernel frame ticks keys r literal) (At base)
        (kernel-IsRefusing frame ticks keys r literal base ready) buf [] (pos n) w (some base) e
        refl (record { same = unfold put_all in refl; fds = fds }) in
    (result, said _ at)
  where
    said :
        (v : Running)
        → At base 2 2 (printed [] (sub_ℕ (base.mem buf) b'0')) v
        → HasSaid base (printed [] (sub_ℕ (base.mem buf) b'0')) v
    said none at = at
    said (some m) at = (at.same, at.fds)
