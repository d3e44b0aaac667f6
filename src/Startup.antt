-- ===== src/Startup.antt =====
-- The scheduler's start, src/mame/coinline/millennium_rtos_startup_model.{h,cpp}.
pub mod Flags
use coin_line_emu.Base.{
  ℕ, zero, suc, ◌+◌, ◌*◌, Bool, true, false, not, ◌&&◌, ◌||◌, List, [], ◌∷◌, ◌++◌, bit_and, bit_or,
  length, get_or, set, replicate, leb, ltb, ◌==◌, if◌then◌else◌, u16, tests,
}

-- `task_desc`
pub record TaskDesc : Type 0 where
  pub status : ℕ
  pub priority : ℕ
  pub signals : ℕ
  pub signals_upper : ℕ

abbrev pub no_task : TaskDesc
no_task = record { status = 0; priority = 0; signals = 0; signals_upper = 0 }

abbrev pub max_tasks : ℕ
max_tasks = 16

pub record Scheduler : Type 0 where
  pub rom_tasks : List TaskDesc
  pub runtime_tasks : List TaskDesc
  pub rom_task_loaded : List Bool
  pub runtime_count : ℕ
  pub dispatch_ready : Bool
  pub init_seen : ℕ
  pub xflag_system_running : Bool
  pub xflag_all_init_done : Bool
  pub alarm_tel_not_responding : Bool

unfoldable pub reset : Scheduler → Scheduler
reset s = record {
  rom_tasks = replicate max_tasks no_task;
  runtime_tasks = replicate max_tasks no_task;
  rom_task_loaded = replicate max_tasks false;
  runtime_count = 0;
  dispatch_ready = false;
  init_seen = 0;
  xflag_system_running = false;
  xflag_all_init_done = false;
  alarm_tel_not_responding = false;
}

unfoldable pub load_rom_task : ℕ → TaskDesc → Scheduler → Scheduler
load_rom_task idx d s = if leb max_tasks idx then s else record s {
  rom_tasks = set s.rom_tasks idx d;
  rom_task_loaded = set s.rom_task_loaded idx true;
}

-- The loop over the tasks from the heads of the two lists on: a loaded task goes to the next slot.
unfoldable pub copy_from : List Bool → List TaskDesc → ℕ → List TaskDesc → List TaskDesc × ℕ
copy_from (taken ∷ flags) (d ∷ tasks) count runtime = elim taken [
  | true ↦ copy_from flags tasks (count + 1) (set runtime count d)
  | false ↦ copy_from flags tasks count runtime
]
copy_from _ _ count runtime = (runtime, count)

unfoldable pub copy_rom_to_runtime : Scheduler → Scheduler
copy_rom_to_runtime s =
    let (runtime, count) =
      copy_from s.rom_task_loaded s.rom_tasks 0 (replicate max_tasks no_task) in
    record s { runtime_tasks = runtime; runtime_count = count; dispatch_ready = true }

-- The signals of the init tasks.
abbrev pub nominal : ℕ
nominal = 0x0001 + 0x0004 + 0x0008 + 0x0010

abbrev pub degraded : ℕ
degraded = 0x0002 + 0x0004 + 0x0008 + 0x0010

unfoldable pub recompute_flags : Scheduler → Scheduler
recompute_flags s = record s {
  alarm_tel_not_responding = if tests s.init_seen 0x0002 then true else s.alarm_tel_not_responding;
  xflag_system_running =
      if tests s.init_seen 0x0004 && tests s.init_seen 0x0008 then true else s.xflag_system_running;
  xflag_all_init_done =
      if bit_and s.init_seen nominal == nominal || bit_and s.init_seen degraded == degraded
      then true
      else s.xflag_all_init_done;
}

unfoldable pub post_init_signal : ℕ → Scheduler → Scheduler
post_init_signal sig s = recompute_flags (record s { init_seen = u16 (bit_or s.init_seen sig) })

unfoldable pub can_dispatch_non_init_tasks : Scheduler → Bool
can_dispatch_non_init_tasks s = s.dispatch_ready && ltb 0 s.runtime_count && s.xflag_all_init_done
