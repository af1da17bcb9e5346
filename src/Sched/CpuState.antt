-- ===== src/Sched/CpuState.antt =====
-- `struct cpu_state` of include/arch/i686/redshift/hal/cpu/state.h: the saved registers.
use redshift.Base.{ℕ}

pub record CpuState : Type 0 where
  pub eax : ℕ
  pub ebx : ℕ
  pub ecx : ℕ
  pub edx : ℕ
  pub esp : ℕ
  pub ebp : ℕ
  pub esi : ℕ
  pub edi : ℕ
  pub cs : ℕ
  pub ds : ℕ
  pub es : ℕ
  pub fs : ℕ
  pub gs : ℕ
  pub ss : ℕ
  pub eip : ℕ
  pub eflags : ℕ
  pub cr0 : ℕ
  pub cr2 : ℕ
  pub cr3 : ℕ
  pub cr4 : ℕ
  pub interrupt : ℕ
  pub error_code : ℕ

-- The state that `kmemory_fill8(&(process->state), 0, …)` leaves.
abbrev pub zero_state : CpuState
zero_state = record {
  eax = 0;
  ebx = 0;
  ecx = 0;
  edx = 0;
  esp = 0;
  ebp = 0;
  esi = 0;
  edi = 0;
  cs = 0;
  ds = 0;
  es = 0;
  fs = 0;
  gs = 0;
  ss = 0;
  eip = 0;
  eflags = 0;
  cr0 = 0;
  cr2 = 0;
  cr3 = 0;
  cr4 = 0;
  interrupt = 0;
  error_code = 0;
}
