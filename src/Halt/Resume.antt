-- ===== src/Halt/Resume.antt =====
-- student-distrib/system_call.c: where `halt` of a process with a parent goes on.
use linux_like_os_kernel.Prelude.{
  ℕ, zero, suc, ◌+◌, ◌-◌, ◌*◌, ◌/◌, ◌%◌, Bool, true, false, ltb, leb, ◌==◌, if◌then◌else◌, pos,
  some, bit_or, ◌≡◌, ◌≢◌, inl, inr, refl, arith, Bool-cases, ◌∙◌, ap, ne→==, ==_refl,
}
use linux_like_os_kernel.Machine.{Machine, Pcb, Term, FileDesc, error_fop, now_pcb_id, set_term}
use linux_like_os_kernel.Terminal.{buf_clear}
use linux_like_os_kernel.Paging.{pcb_mapping}
use linux_like_os_kernel.Paging.Translation.{translate}
use linux_like_os_kernel.Paging.Mappings.{pcb_mapping_lem}
use linux_like_os_kernel.Files.{close, set_fd}
use linux_like_os_kernel.Process.{Outcome, resumed, Frame, set_mask}
use linux_like_os_kernel.Halt.{halt, release, resume_parent, close_all, close_one, parent_slot}

-- Only descriptors have changed.
record Keeps (m m' : Machine) : Type 0 where
  term : m'.term ≡ m.term
  now : m'.now_term_id ≡ m.now_term_id
  mask : m'.pcb_mask ≡ m.pcb_mask
  flag : m'.interrupt_halt_flag ≡ m.interrupt_halt_flag
  keyboard : m'.keyboard ≡ m.keyboard
  number : (q : ℕ) → (m'.pcb q).process_number ≡ (m.pcb q).process_number
  parent : (q : ℕ) → (m'.pcb q).parent_process_number ≡ (m.pcb q).parent_process_number
  kbp : (q : ℕ) → (m'.pcb q).parent_kbp ≡ (m.pcb q).parent_kbp
  ksp : (q : ℕ) → (m'.pcb q).parent_ksp ≡ (m.pcb q).parent_ksp

Keeps-refl : (m : Machine) → Keeps m m
Keeps-refl m = record {
  term = refl;
  now = refl;
  mask = refl;
  flag = refl;
  keyboard = refl;
  number = λ q. refl;
  parent = λ q. refl;
  kbp = λ q. refl;
  ksp = λ q. refl;
}

Keeps-trans : (m m' m'' : Machine) → Keeps m m' → Keeps m' m'' → Keeps m m''
Keeps-trans m m' m'' k l = record {
  term = l.term ∙ k.term;
  now = l.now ∙ k.now;
  mask = l.mask ∙ k.mask;
  flag = l.flag ∙ k.flag;
  keyboard = l.keyboard ∙ k.keyboard;
  number = λ q. l.number q ∙ k.number q;
  parent = λ q. l.parent q ∙ k.parent q;
  kbp = λ q. l.kbp q ∙ k.kbp q;
  ksp = λ q. l.ksp q ∙ k.ksp q;
}

Keeps-set_fd : (id i : ℕ) (f : FileDesc → FileDesc) (m : Machine) → Keeps m (set_fd id i f m)
Keeps-set_fd id i f m = record {
  term = refl;
  now = refl;
  mask = refl;
  flag = refl;
  keyboard = refl;
  number = λ q. ground arith;
  parent = λ q. ground arith;
  kbp = λ q. ground arith;
  ksp = λ q. ground arith;
}

Keeps-close : (i : ℕ) (m : Machine) → Keeps m (close (pos i) m).1
unfolding close
Keeps-close i m = elim (Bool-cases (leb 8 i)) [
  | inl e ↦ rw (e, close) (Keeps-refl m)
  | inr e ↦ elim (Bool-cases (ltb i 2)) [
    | inl e' ↦ rw (e, e', close) (Keeps-refl m)
    | inr e' ↦ elim (Bool-cases (((m.pcb (now_pcb_id m)).fds i).flags == 0)) [
      | inl shut ↦ rw (e, e', shut, close) (Keeps-refl m)
      | inr live ↦
          rw (e, e', live, close) (Keeps-set_fd (now_pcb_id m) i (λ d. record d { flags = 0 }) m)
    ]
  ]
]

Keeps-close_one : (id i : ℕ) (m : Machine) → Keeps m (close_one id i m)
unfolding close_one
Keeps-close_one id i m =
    Keeps-trans m (shut (((m.pcb id).fds i).flags == 1)) _
      (Keeps-shut (((m.pcb id).fds i).flags == 1))
      (Keeps-set_fd id i (λ d. record d { optable = error_fop }) _)
  where
    shut : Bool → Machine
    shut b = if b then (close (pos i) (set_fd id i (λ d. record d { flags = 0 }) m)).1 else m

    Keeps-shut : (b : Bool) → Keeps m (shut b)
    Keeps-shut true =
        Keeps-trans m (set_fd id i (λ d. record d { flags = 0 }) m) _
          (Keeps-set_fd id i (λ d. record d { flags = 0 }) m)
          (Keeps-close i (set_fd id i (λ d. record d { flags = 0 }) m))
    Keeps-shut false = Keeps-refl m

Keeps-close_all : (id n : ℕ) (m : Machine) → Keeps m (close_all id n m)
unfolding close_all
Keeps-close_all id zero m = Keeps-refl m
Keeps-close_all id (suc n) m =
    Keeps-trans m (close_all id n m) _ (Keeps-close_all id n m)
      (Keeps-close_one id n (close_all id n m))

-- What `release` leaves of the machine.
record IsReleased (id : ℕ) (m m' : Machine) : Type 0 where
  mask :
      m'.pcb_mask
      ≡ set_mask m.pcb_mask ((m.pcb id).process_number / 4) ((m.pcb id).process_number % 4) 0
  current : (m'.term m.now_term_id).cur_pcb_id ≡ parent_slot (m.pcb id).parent_process_number
  flag : m'.interrupt_halt_flag ≡ m.interrupt_halt_flag
  number : (q : ℕ) → (m'.pcb q).process_number ≡ (m.pcb q).process_number
  parent : (q : ℕ) → (m'.pcb q).parent_process_number ≡ (m.pcb q).parent_process_number
  kbp : (q : ℕ) → (m'.pcb q).parent_kbp ≡ (m.pcb q).parent_kbp
  ksp : (q : ℕ) → (m'.pcb q).parent_ksp ≡ (m.pcb q).parent_ksp

release-IsReleased : (id : ℕ) (m : Machine) → IsReleased id m (release id m)
unfolding release
release-IsReleased id m = record {
  mask = kept.mask;
  current =
      ap (λ (t : ℕ → Term). (t m.now_term_id).cur_pcb_id) kept.term ∙ rw (==_refl m.now_term_id);
  flag = kept.flag;
  number = kept.number;
  parent = kept.parent;
  kbp = kept.kbp;
  ksp = kept.ksp;
}
  where
    moved : Machine
    moved =
        set_term m.now_term_id
          (λ t. record t { cur_pcb_id = parent_slot (m.pcb id).parent_process_number }) m

    before : Machine
    before = record moved {
      pcb_mask =
          set_mask moved.pcb_mask ((m.pcb id).process_number / 4) ((m.pcb id).process_number % 4) 0;
    }

    kept : Keeps before (close_all id 8 before)
    kept = Keeps-close_all id 8 before

-- `halt` goes back into the call of `execute` that had started the process: with the registers that
-- it kept, and the user memory and the kernel stack of the parent. The process number is free again.
pub record IsResumed (m : Machine) (status : ℕ) (out : Outcome) : Type 0 where
  pub after : Machine
  pub registers :
      out
      ≡ resumed
          (if m.interrupt_halt_flag == 0 then status else bit_or status 0x100)
          (m.pcb (now_pcb_id m)).parent_kbp
          (m.pcb (now_pcb_id m)).parent_ksp
          after
  pub no_exception : after.interrupt_halt_flag ≡ 0
  pub freed :
      after.pcb_mask
      ≡ set_mask m.pcb_mask
          ((m.pcb (now_pcb_id m)).process_number / 4)
          ((m.pcb (now_pcb_id m)).process_number % 4)
          0
  pub current :
      (after.term m.now_term_id).cur_pcb_id ≡ (m.pcb (now_pcb_id m)).parent_process_number % 4
  pub memory :
      (v : ℕ)
      → v / 0x400000 ≡ 32
      → translate after.paging v
        ≡ some (
          0x800000
              + (m.pcb (m.pcb (now_pcb_id m)).parent_process_number).process_number * 0x400000
              + v % 0x400000,
          true,
        )
  pub stack :
      after.tss_esp0
      ≡ 0x800000 - (m.pcb (m.pcb (now_pcb_id m)).parent_process_number).process_number * 0x2000 - 4

resume_parent-IsResumed :
    (m m' : Machine) (status : ℕ)
    → (m.pcb (now_pcb_id m)).parent_process_number ≢ 255
    → IsReleased (now_pcb_id m) m m'
    → IsResumed m status (resume_parent (now_pcb_id m) status m')
unfolding resume_parent
resume_parent-IsResumed m m' status has_parent r = record {
  after = after;
  registers = rw (← r.flag, ← r.kbp, ← r.ksp);
  no_exception = refl;
  freed = unfold pcb_mapping in r.mask;
  current = unfold pcb_mapping in r.current ∙ rw (ne→== p 255 has_parent);
  memory = λ v e.
      pcb_mapping_lem m' parent.process_number v
      ∙ rw e (ap (λ k. some (0x800000 + k * 0x400000 + v % 0x400000, true)) number);
  stack = ap (λ k. 0x800000 - k * 0x2000 - 4) number;
}
  where
    p : ℕ
    p = (m.pcb (now_pcb_id m)).parent_process_number

    parent : Pcb
    parent = m'.pcb (m'.pcb (now_pcb_id m)).parent_process_number

    after : Machine
    after = record (pcb_mapping 0x8000000 (0x800000 + parent.process_number * 0x400000) m') {
      tss_esp0 = 0x800000 - parent.process_number * 0x2000 - 4;
      interrupt_halt_flag = 0;
    }

    number : parent.process_number ≡ (m.pcb p).process_number
    number =
        r.number (m'.pcb (now_pcb_id m)).parent_process_number
        ∙ ap (λ q. (m.pcb q).process_number) (r.parent (now_pcb_id m))

-- `halt` of a process that has a parent resumes the parent with the status, or with 256 added to it
-- after an exception: at the registers that the process keeps of its parent, with the parent's user
-- memory and kernel stack; the process number is free and the parent is the terminal's process.
pub halt-IsResumed :
    (frame : Frame) (status : ℕ) (m : Machine)
    → (m.pcb (now_pcb_id m)).parent_process_number ≢ 255
    → IsResumed m status (halt frame status m)
unfolding halt buf_clear
halt-IsResumed frame status m has_parent =
    rw (ap (λ n. n == 255) (r.parent (now_pcb_id m)) ∙ ne→== _ 255 has_parent) (record {
      after = done.after;
      registers = done.registers;
      no_exception = done.no_exception;
      freed = done.freed;
      current = done.current;
      memory = done.memory;
      stack = done.stack;
    })
  where
    cleared : Machine
    cleared = buf_clear m

    r : IsReleased (now_pcb_id m) cleared (release (now_pcb_id m) cleared)
    r = release-IsReleased (now_pcb_id m) cleared

    done :
        IsResumed cleared status
          (resume_parent (now_pcb_id m) status (release (now_pcb_id m) cleared))
    done = resume_parent-IsResumed cleared (release (now_pcb_id m) cleared) status has_parent r
