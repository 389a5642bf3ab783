-- ===== src/Terminal/Tests.antt =====
-- student-distrib/terminal.c: a line that waits in the key buffer, and a switch there and back.
use linux_like_os_kernel.Prelude.{
  ℕ, ◌+◌, ◌-◌, ◌<◌, ◌&&◌, ltb, leb, ◌==◌, if◌then◌else◌, pos, some, [], ◌≡◌, arith, refl,
}
use linux_like_os_kernel.Machine.{Machine, set_term}
use linux_like_os_kernel.Fixtures.{boot}
use linux_like_os_kernel.Console.{video}
use linux_like_os_kernel.Terminal.{term_read, term_switch, wait_enter}
use linux_like_os_kernel.Terminal.Line.{IsLine, term_read_lem}
use linux_like_os_kernel.Terminal.Switch.{IsSeparate, term_switch_round_trip}

abbrev entered_line : Machine
entered_line =
    set_term 1 (λ t. record t { enter_state = 1 })
      (record boot {
        keyboard = record (boot.keyboard) {
          key_buf = λ k. if k == 0 then b'\n' else 0;
          key_buf_idx = 1;
        };
      })

no_wait : wait_enter [] entered_line ≡ some entered_line
unfolding wait_enter
no_wait = refl

term_read_lem_example :
    (count : ℕ) × (m' : Machine) × (term_read [] 500 (pos 20) entered_line ≡ some (pos count, m'))
    × IsLine entered_line.keyboard.key_buf 20 0 128 count
    × ((a : ℕ)
        → m'.mem a ≡ (
            if leb 500 a && ltb a (500 + count)
            then entered_line.keyboard.key_buf (a - 500)
            else entered_line.mem a))
    × (m'.keyboard.key_buf_idx ≡ 0)
    × ((i : ℕ) → i < 128 → m'.keyboard.key_buf i ≡ 0)
    × ((m'.term entered_line.now_term_id).enter_state ≡ 0)
term_read_lem_example = term_read_lem [] 500 20 entered_line entered_line (omega arith) no_wait

boot-IsSeparate : IsSeparate boot 0 2
boot-IsSeparate = record {
  distinct = omega arith;
  first = omega arith;
  second = omega arith;
  apart = omega arith;
  column = omega arith;
  row = omega arith;
  kept_column = omega arith;
  kept_row = omega arith;
}

term_switch_round_trip_example :
    let m' = term_switch 2 0 (term_switch 0 2 boot) in
    (m'.cur_term_id ≡ 0)
    × (m'.console.screen_x ≡ boot.console.screen_x)
    × (m'.console.screen_y ≡ boot.console.screen_y)
    × (m'.keyboard.key_buf_idx ≡ boot.keyboard.key_buf_idx)
    × ((j : ℕ) → j < 128 → m'.keyboard.key_buf j ≡ boot.keyboard.key_buf j)
    × ((i : ℕ) → i < 4000 → m'.mem (video + i) ≡ boot.mem (video + i))
term_switch_round_trip_example = term_switch_round_trip boot 0 2 boot-IsSeparate
