-- ===== src/Kernel/Descriptors.antt =====
-- student-distrib/system_call.c, terminal.c and rtc.c: the calls on descriptors keep the kernel's invariant.
use linux_like_os_kernel.Prelude.{
  ℕ, zero, suc, Bool, true, false, ltb, ◌==◌, if◌then◌else◌, ℤ, pos, negsuc, failure, Option, none,
  some, List, [], ◌∷◌, length, ◌/◌,
}
use linux_like_os_kernel.Machine.{
  Machine, FileOps, stdin_fop, stdout_fop, rtc_fop, dir_fop, file_fop, error_fop, set_term, set_pcb,
  set_mem, now_pcb_id,
}
use linux_like_os_kernel.FileSystem.{read32}
use linux_like_os_kernel.Rtc.{rtc_interrupt_handler, rtc_wait, rtc_read, rtc_write, valid_freq}
use linux_like_os_kernel.Terminal.{
  wait_enter, read_keys, term_read, term_write, bytes_until, buf_clear,
}
use linux_like_os_kernel.Printf.{printf, multi_printf}
use linux_like_os_kernel.Files.{file_read, read_op, read, write_op, write, fd_index, bits}
use linux_like_os_kernel.Keyboard.{press}
use linux_like_os_kernel.Kernel.{presses}
use linux_like_os_kernel.Kernel.Sound.{
  IsSound, Ok, set_term-IsSound, printf-IsSound, multi_printf-IsSound,
}
use linux_like_os_kernel.Kernel.Keys.{
  buf_clear-IsSound, press-IsSound, rtc_interrupt_handler-IsSound,
}
use linux_like_os_kernel.Kernel.Calls.{if-second, set_mem-IsSound}

if-Ok : (b : Bool) (r r' : Option (ℤ × Machine)) → Ok r → Ok r' → Ok (if b then r else r')
if-Ok true r r' p q = p
if-Ok false r r' p q = q

-- The invariant holds of the machine at the end of a wait.
abbrev Waited : Option Machine → Type 0
Waited none = Unit {0}
Waited (some m) = IsSound m

if-Waited : (b : Bool) (r r' : Option Machine) → Waited r → Waited r' → Waited (if b then r else r')
if-Waited true r r' p q = p
if-Waited false r r' p q = q

elim-Waited :
    (b : Bool) (r r' : Option Machine)
    → Waited r
    → Waited r'
    → Waited (elim b as (λ o. Option Machine) [ true ↦ r | false ↦ r' ])
elim-Waited true r r' p q = p
elim-Waited false r r' p q = q

wait_enter-Waited :
    (codes : List ℕ) (m : Machine) → IsSound m → Waited (wait_enter (presses codes) m)
unfolding wait_enter presses
wait_enter-Waited [] m s = if-Waited _ none (some m) tt s
wait_enter-Waited (code ∷ codes) m s =
    elim-Waited ((m.term m.now_term_id).enter_state == 0) _ (some m)
      (wait_enter-Waited codes (press code m) (press-IsSound code m s)) s

rtc_wait-Waited : (id ticks : ℕ) (m : Machine) → IsSound m → Waited (rtc_wait id ticks m)
unfolding rtc_wait
rtc_wait-Waited id zero m s = if-Waited _ none (some m) tt s
rtc_wait-Waited id (suc ticks) m s =
    elim-Waited (ltb 0 (m.pcb id).rtc_counter) _ (some m)
      (rtc_wait-Waited id ticks (rtc_interrupt_handler m) (rtc_interrupt_handler-IsSound m s)) s

rtc_read-Ok : (ticks : ℕ) (m : Machine) → IsSound m → Ok (rtc_read ticks m)
unfolding rtc_read
rtc_read-Ok ticks m s = if-Ok ((m.pcb id).rtc_freq == 0) none _ tt (
    done (rtc_wait id ticks started)
      (rtc_wait-Waited id ticks started (record { shape = s.shape })))
  where
    id : ℕ
    id = now_pcb_id m

    started : Machine
    started = set_pcb id (λ p. record p { rtc_counter = 1024 / p.rtc_freq }) m

    done :
        (r : Option Machine)
        → Waited r
        → Ok (elim r as (λ o. Option (ℤ × Machine)) [ none ↦ none | some m' ↦ some (pos 0, m') ])
    done none w = tt
    done (some m') w = w

term_read-Ok :
    (codes : List ℕ) (buf : ℕ) (len : ℤ) (m : Machine)
    → IsSound m
    → Ok (term_read (presses codes) buf len m)
unfolding term_read
term_read-Ok codes buf len m s =
    if-Ok (buf == 0) (some (failure, m)) _ s
      (done (wait_enter (presses codes) m) (wait_enter-Waited codes m s))
  where
    done :
        (r : Option Machine)
        → Waited r
        → Ok (elim r as (λ o. Option (ℤ × Machine)) [
          | none ↦ none
          | some m1 ↦
              (let m2 = set_term m1.now_term_id (λ t. record t { enter_state = 0 }) m1 in
                let (count, mem) = read_keys m2.keyboard.key_buf buf len 0 128 m2.mem in
                some (pos count, buf_clear (set_mem mem m2)))
        ])
    done none w = tt
    done (some m1) w =
        let m2 = set_term m1.now_term_id (λ t. record t { enter_state = 0 }) m1 in
        buf_clear-IsSound _ (
          set_mem-IsSound _ m2 (
            set_term-IsSound m1.now_term_id (λ t. record t { enter_state = 0 }) m1
              (w.shape.aside m1.now_term_id) w))

term_write-Ok : (buf : ℕ) (nbytes : ℤ) (m : Machine) → IsSound m → Ok (term_write buf nbytes m)
unfolding term_write
term_write-Ok buf (negsuc n) m s = tt
term_write-Ok buf (pos n) m s = if-Ok (buf == 0) (some (failure, m)) _ s (
    done (m.now_term_id == m.cur_term_id) (printf temp_buf [] m) (multi_printf temp_buf [] m)
      (printf-IsSound temp_buf [] m s) (multi_printf-IsSound temp_buf [] m s))
  where
    temp_buf : List ℕ
    temp_buf = bytes_until m.mem buf n

    printed :
        (r : Option (ℕ × Machine))
        → Ok r
        → Ok (elim r as (λ o. Option (ℤ × Machine)) [
          | none ↦ none
          | some (count, m') ↦ some (pos (length temp_buf), m')
        ])
    printed none w = tt
    printed (some (count, m')) w = w

    done :
        (b : Bool) (r r' : Option (ℕ × Machine))
        → Ok r
        → Ok r'
        → Ok (elim (if b then r else r') as (λ o. Option (ℤ × Machine)) [
          | none ↦ none
          | some (count, m') ↦ some (pos (length temp_buf), m')
        ])
    done true r r' p q = printed r p
    done false r r' p q = printed r' q

file_read-IsSound :
    (fd buf : ℕ) (nbytes : ℤ) (m : Machine) → IsSound m → IsSound (file_read fd buf nbytes m).1
unfolding file_read
file_read-IsSound fd buf nbytes m s =
    if-second (fd == 0) (failure, m) _ s
      (if-second (buf == 0) (failure, m) _ s (record { shape = s.shape }))

read_op-Ok :
    (ops : FileOps) (ticks : ℕ) (codes : List ℕ) (fd buf : ℕ) (nbytes : ℤ) (m : Machine)
    → IsSound m
    → Ok (read_op ops ticks (presses codes) fd buf nbytes m)
unfolding read_op
read_op-Ok stdin_fop ticks codes fd buf nbytes m s = term_read-Ok codes buf nbytes m s
read_op-Ok stdout_fop ticks codes fd buf nbytes m s = s
read_op-Ok rtc_fop ticks codes fd buf nbytes m s = rtc_read-Ok ticks m s
read_op-Ok dir_fop ticks codes fd buf nbytes m s = record { shape = s.shape }
read_op-Ok file_fop ticks codes fd buf nbytes m s = file_read-IsSound fd buf nbytes m s
read_op-Ok error_fop ticks codes fd buf nbytes m s = s

rtc_write-IsSound : (buf nbytes : ℕ) (m : Machine) → IsSound m → IsSound (rtc_write buf nbytes m).1
unfolding rtc_write
rtc_write-IsSound buf nbytes m s =
    let freq = read32 m.mem buf in
    let taken : Machine = set_pcb (now_pcb_id m) (λ p. record p { rtc_freq = freq }) m in
    if-second (buf == 0) (failure, m) _ s
      (if-second (valid_freq freq nbytes) (pos 0, taken) (failure, m) (record { shape = s.shape })
        s)

write_op-Ok :
    (ops : FileOps) (fd buf : ℕ) (nbytes : ℤ) (m : Machine)
    → IsSound m
    → Ok (write_op ops fd buf nbytes m)
unfolding write_op
write_op-Ok stdin_fop fd buf nbytes m s = s
write_op-Ok stdout_fop fd buf nbytes m s = term_write-Ok buf nbytes m s
write_op-Ok rtc_fop fd buf nbytes m s = rtc_write-IsSound buf (bits nbytes) m s
write_op-Ok dir_fop fd buf nbytes m s = s
write_op-Ok file_fop fd buf nbytes m s = s
write_op-Ok error_fop fd buf nbytes m s = s

pub read-Ok :
    (ticks : ℕ) (codes : List ℕ) (fd nbytes : ℤ) (buf : ℕ) (m : Machine)
    → IsSound m
    → Ok (read ticks (presses codes) fd buf nbytes m)
unfolding read
read-Ok ticks codes fd nbytes buf m s = reads (fd_index fd)
  where
    reads :
        (found : Option ℕ)
        → Ok (elim found as (λ o. Option (ℤ × Machine)) [
          | none ↦ some (failure, m)
          | some i ↦
              if buf == 0
              then some (failure, m)
              else if ((m.pcb (now_pcb_id m)).fds i).flags == 0
              then some (failure, m)
              else read_op
                  ((m.pcb (now_pcb_id m)).fds i).optable
                  ticks
                  (presses codes)
                  i
                  buf
                  nbytes
                  m
        ])
    reads none = s
    reads (some i) = if-Ok (buf == 0) (some (failure, m)) _ s (
        if-Ok (((m.pcb (now_pcb_id m)).fds i).flags == 0) (some (failure, m)) _ s
          (read_op-Ok ((m.pcb (now_pcb_id m)).fds i).optable ticks codes i buf nbytes m s))

pub write-Ok : (fd nbytes : ℤ) (buf : ℕ) (m : Machine) → IsSound m → Ok (write fd buf nbytes m)
unfolding write
write-Ok fd nbytes buf m s = writes (fd_index fd)
  where
    writes :
        (found : Option ℕ)
        → Ok (elim found as (λ o. Option (ℤ × Machine)) [
          | none ↦ some (failure, m)
          | some i ↦
              if buf == 0
              then some (failure, m)
              else if ((m.pcb (now_pcb_id m)).fds i).flags == 0
              then some (failure, m)
              else write_op ((m.pcb (now_pcb_id m)).fds i).optable i buf nbytes m
        ])
    writes none = s
    writes (some i) = if-Ok (buf == 0) (some (failure, m)) _ s (
        if-Ok (((m.pcb (now_pcb_id m)).fds i).flags == 0) (some (failure, m)) _ s
          (write_op-Ok ((m.pcb (now_pcb_id m)).fds i).optable i buf nbytes m s))
