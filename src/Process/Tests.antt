-- ===== src/Process/Tests.antt =====
-- student-distrib/system_call.c: process numbers in an empty table, and a command line.
use linux_like_os_kernel.Prelude.{ℕ, ◌≡◌, ◌⊎◌, List, [], ◌∷◌, ◌++◌, arith, ascii, some}
use linux_like_os_kernel.Process.{Mask, pcb_process_number, parse_command, parsed, execute}
use linux_like_os_kernel.Process.Start.{Starts, execute-Starts}
use linux_like_os_kernel.Halt.Disk.{running, frame}
use linux_like_os_kernel.Process.Mask.{IsTaken, IsRefused, pcb_process_number_lem}
use linux_like_os_kernel.Process.Command.{store, no_chars, parse_command_lem}

abbrev idle : Mask
idle i j = 0

pcb_process_number_lem_example :
    IsTaken 2 idle (pcb_process_number 2 idle) ⊎ IsRefused 2 idle (pcb_process_number 2 idle)
pcb_process_number_lem_example = pcb_process_number_lem 2 idle (omega arith)

abbrev cat : List ℕ
cat = b'c' ∷ b'a' ∷ b't' ∷ []

parse_command_lem_example :
    parse_command (cat ++ (b' ' ∷ cat)) ≡ parsed (store no_chars 0 cat) (store no_chars 0 cat)
parse_command_lem_example =
    parse_command_lem cat cat (omega arith, (omega arith, (omega arith, tt))) (omega arith)
      (omega arith) (omega arith) (omega arith)

execute-Starts_example : Starts running frame (execute frame (some (ascii "sh")) running)
execute-Starts_example = execute-Starts frame (some (ascii "sh")) running
