-- ===== src/Rtc/Tests.antt =====
-- student-distrib/rtc.c: the clock of a machine with three idle processes.
use linux_like_os_kernel.Prelude.{
  ℕ, ◌/◌, ltb, if◌then◌else◌, pos, failure, update, none, some, ◌≡◌, ◌≢◌, ◌⊎◌, arith,
}
use linux_like_os_kernel.Machine.{now_pcb_id, set_pcb}
use linux_like_os_kernel.Fixtures.{boot}
use linux_like_os_kernel.FileSystem.{read32}
use linux_like_os_kernel.Rtc.{rtc_write, rtc_read}
use linux_like_os_kernel.Rtc.Frequency.{IsRate, rtc_write_lem}
use linux_like_os_kernel.Rtc.Ticks.{IsRunning, after_interrupts, rtc_read_lem}

boot-IsRunning : IsRunning boot
boot-IsRunning = record { first = omega arith; second = omega arith; third = omega arith }

-- The image holds 2 at 4096.
abbrev buf : ℕ
buf = 4096

abbrev nbytes : ℕ
nbytes = 4

rtc_write_lem_example :
    ((buf ≢ 0)
      × (nbytes ≡ 4)
      × IsRate (read32 boot.mem 4096)
      × (rtc_write 4096 4 boot ≡ (
        pos 0,
        record boot {
          pcb =
              update boot.pcb
                (now_pcb_id boot)
                (record (boot.pcb (now_pcb_id boot)) { rtc_freq = read32 boot.mem 4096 });
        },
      )))
    ⊎ (((buf ≡ 0) ⊎ ((nbytes ≢ 4) ⊎ ¬ IsRate (read32 boot.mem 4096)))
        × (rtc_write 4096 4 boot ≡ (failure, boot)))
rtc_write_lem_example = rtc_write_lem 4096 4 boot (omega arith)

rtc_read_lem_example :
    let started = set_pcb (now_pcb_id boot) (λ p. record p { rtc_counter = 1024 / 512 }) boot in
    rtc_read 2 boot
    ≡ (if ltb 2 (1024 / 512) then none else some (pos 0, after_interrupts (1024 / 512) started))
rtc_read_lem_example = rtc_read_lem 2 boot boot-IsRunning (omega arith) (omega arith)
