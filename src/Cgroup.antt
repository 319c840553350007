-- ===== src/Cgroup.antt =====
-- src/systemd/cgroup.rs: accounting data. The `u64` fields are natural numbers.
pub mod Files
pub mod Needs
use procstar.Prelude.{ℕ, String, Option}

pub record Pids : Type 0 where
  pub current : ℕ
  pub peak : ℕ

pub record CpuStat : Type 0 where
  pub usage_usec : ℕ
  pub user_usec : ℕ
  pub system_usec : ℕ
  pub nr_periods : Option ℕ
  pub nr_throttled : Option ℕ
  pub throttled_usec : Option ℕ
  pub nr_bursts : Option ℕ
  pub burst_usec : Option ℕ

pub record MemoryEvents : Type 0 where
  pub low : ℕ
  pub high : ℕ
  pub max : ℕ
  pub oom : ℕ
  pub oom_kill : ℕ
  pub oom_group_kill : Option ℕ

pub data MemoryMax : Type 0 where
  unlimited : String → MemoryMax
  bytes : ℕ → MemoryMax

pub record Memory : Type 0 where
  pub current : ℕ
  pub peak : ℕ
  pub swap_current : ℕ
  pub swap_peak : ℕ
  pub events : Option MemoryEvents
  pub events_local : Option MemoryEvents
  pub max : Option MemoryMax

pub record CgroupAccounting : Type 0 where
  pub pids : Option Pids
  pub cpu_stat : Option CpuStat
  pub memory : Option Memory
