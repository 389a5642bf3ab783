-- ===== src/Halt/Tests.antt =====
-- student-distrib/system_call.c: `getargs` of "l", and the release of a process whose parent runs in
-- the same terminal.
use linux_like_os_kernel.Prelude.{
  some, ascii, ℕ, ◌+◌, ◌-◌, ◌*◌, ◌<◌, ◌≤◌, ◌&&◌, ltb, leb, ◌==◌, if◌then◌else◌, pos, negsuc,
  failure, update, ◌≡◌, ◌⊎◌, arith, refl,
}
use linux_like_os_kernel.Machine.{Machine, set_pcb, now_pcb_id}
use linux_like_os_kernel.Fixtures.{boot}
use linux_like_os_kernel.Halt.{halt, getargs, release}
use linux_like_os_kernel.Process.{resumed}
use linux_like_os_kernel.Halt.Disk.{running, frame, started, pc_of, machine_of, started_lem}
use linux_like_os_kernel.Halt.Resume.{IsResumed, halt-IsResumed}
use linux_like_os_kernel.Halt.RoundTrip.{AreNumbered, HasRun, IsBack, execute-halt}
use linux_like_os_kernel.Halt.Parent.{IsArgument, flag, getargs_lem, release-closes_parent}

-- Process 4 has the argument "l"; process 5 is its child and has descriptor 3 open.
abbrev family : Machine
family =
    set_pcb 5
      (λ p. record p {
        parent_process_number = 4;
        fds = update p.fds 3 (record (p.fds 3) { flags = 1 });
      })
      (set_pcb 4 (λ p. record p { argbuf = λ i. if i == 0 then b'l' else 0 }) boot)

argument : IsArgument (family.pcb (now_pcb_id family)).argbuf 1
argument = record { live = λ i h. ground arith; ends = refl }

getargs_lem_example :
    (((0 < 1)
        × (1 < 100)
        × ((getargs 500 (pos 100) family).0 ≡ pos 0)
        × ((a : ℕ)
            → (getargs 500 (pos 100) family).1.mem a ≡ (
                if leb 500 a && ltb a (500 + 1)
                then (family.pcb (now_pcb_id family)).argbuf (a - 500)
                else if a == 500 + 1
                then 0
                else family.mem a)))
      ⊎ ((◌≡◌ {A = ℕ} 1 0 ⊎ (100 ≤ 1)) × (getargs 500 (pos 100) family ≡ (failure, family))))
    × (getargs 500 (negsuc 100) family ≡ (failure, family))
getargs_lem_example = getargs_lem 500 100 1 family (omega arith) argument

release-closes_parent_example : flag (release 5 family) 4 3 ≡ 0
release-closes_parent_example =
    release-closes_parent family 5 3 (omega arith) (omega arith) (omega arith) (omega arith)
      (omega arith) refl

-- Process 4 runs, and process 3 has started it.
abbrev child : Machine
child = set_pcb 4 (λ p. record p { parent_process_number = 3; process_number = 4 }) boot

halt-IsResumed_example : IsResumed child 9 (halt frame 9 child)
halt-IsResumed_example = halt-IsResumed frame 9 child (omega arith)

-- The program has cleared the memory.
abbrev ran : Machine
ran = record (machine_of started) { mem = λ a. 0 }

running-AreNumbered : AreNumbered running 1
running-AreNumbered j h taken = ground (arith, taken)

started-HasRun : HasRun (machine_of started) ran
started-HasRun = record {
  turn = refl;
  current = refl;
  mask = refl;
  no_exception = refl;
  kept = λ t j h taken. record { number = refl; parent = refl; kbp = refl; ksp = refl };
}

execute-halt_example :
    (caller : ℕ) × (after : Machine) × (halt frame 5 ran ≡ resumed 5 7 8 after)
    × (caller + 1 ≡ ((machine_of started).term 1).cur_pcb_id + 1 * 4)
    × IsBack running caller after
execute-halt_example =
    execute-halt frame frame (some (ascii "sh")) running (machine_of started) ran (pc_of started) 5
      (omega arith) refl (omega arith) running-AreNumbered started_lem started-HasRun
