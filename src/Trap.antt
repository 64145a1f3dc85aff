-- ===== src/Trap.antt =====
-- kern/trap: the registers that carry a system call (TSyscallArg/TSyscallArg.c), sys_yield of
-- TSyscall/TSyscall.c, and the page fault handler of TTrapHandler/TTrapHandler.c.
pub mod Fault
use os_audio.Base.{ℕ, ◌%◌, Option, none, some, ◌==◌, if◌then◌else◌, ◌>>=◌}
use os_audio.Vmm.Map.{magic_number, alloc_page}
use os_audio.Thread.Tcb.{Threads, get_curid}
use os_audio.Thread.Sched.{thread_yield}

-- The registers of a trap frame that carry arguments and results.
pub record TrapFrame : Type 0 where
  pub eax : ℕ
  pub ebx : ℕ
  pub ecx : ℕ
  pub edx : ℕ
  pub esi : ℕ
  pub edi : ℕ

abbrev pub syscall_get_arg1 : TrapFrame → ℕ
syscall_get_arg1 tf = tf.eax

abbrev pub syscall_get_arg2 : TrapFrame → ℕ
syscall_get_arg2 tf = tf.ebx

abbrev pub syscall_get_arg3 : TrapFrame → ℕ
syscall_get_arg3 tf = tf.ecx

abbrev pub syscall_get_arg4 : TrapFrame → ℕ
syscall_get_arg4 tf = tf.edx

abbrev pub syscall_get_arg5 : TrapFrame → ℕ
syscall_get_arg5 tf = tf.esi

abbrev pub syscall_get_arg6 : TrapFrame → ℕ
syscall_get_arg6 tf = tf.edi

abbrev pub syscall_set_errno : TrapFrame → ℕ → TrapFrame
syscall_set_errno tf errno = record tf { eax = errno }

abbrev pub syscall_set_retval1 : TrapFrame → ℕ → TrapFrame
syscall_set_retval1 tf retval = record tf { ebx = retval }

abbrev pub syscall_set_retval2 : TrapFrame → ℕ → TrapFrame
syscall_set_retval2 tf retval = record tf { ecx = retval }

abbrev pub syscall_set_retval3 : TrapFrame → ℕ → TrapFrame
syscall_set_retval3 tf retval = record tf { edx = retval }

abbrev pub syscall_set_retval4 : TrapFrame → ℕ → TrapFrame
syscall_set_retval4 tf retval = record tf { esi = retval }

abbrev pub syscall_set_retval5 : TrapFrame → ℕ → TrapFrame
syscall_set_retval5 tf retval = record tf { edi = retval }

-- E_SUCC
abbrev pub e_succ : ℕ
e_succ = 0

-- The frame is written once the thread runs again.
unfoldable pub sys_yield : Threads → TrapFrame → Option (Option (ℕ × ℕ) × Threads × TrapFrame)
unfolding thread_yield
sys_yield s tf = do (switch, s) ← thread_yield s; some (switch, s, syscall_set_errno tf e_succ)

-- `err` is the error number of the frame, `fault_va` the register CR2; `none` is a panic. PFE_PR is
-- the lowest bit, and PTE_W | PTE_U | PTE_P is 7.
unfoldable pub pgflt_handler : Threads → (err fault_va : ℕ) → Option Threads
pgflt_handler s err fault_va = if err % 2 == 1 then none else (do
  (result, paging) ← alloc_page s.paging (get_curid s) fault_va 7
  if result == magic_number then none else some (record s { paging = paging }))
