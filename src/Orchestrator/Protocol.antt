-- ===== src/Orchestrator/Protocol.antt =====
-- internal/orchestrator/worker.go, the types: the commands and events of the worker protocol.
use hash256_miner.Base.{ℕ, List, Bytes, codes, Option, ℤ}

pub data WorkerMode : Type 0 where
  cpu gpu : WorkerMode

unfoldable pub mode_text : WorkerMode → Bytes
mode_text cpu = codes "cpu"
mode_text gpu = codes "gpu"

pub record StartCmd : Type 0 where
  pub challenge : Bytes
  pub difficulty : Bytes
  pub prefix : Bytes
  pub batch : ℕ
  pub mode : Bytes
  pub gpu_device : Option ℤ
  pub cpu_threads : Option ℤ

pub record RetargetCmd : Type 0 where
  pub challenge : Bytes
  pub difficulty : Bytes

-- The `cmd` field of the JSON line is the constructor.
pub data Command : Type 0 where
  start : StartCmd → Command
  retarget : RetargetCmd → Command
  stop : Command

pub record GpuDevice : Type 0 where
  pub index : ℤ
  pub platform : Bytes
  pub name : Bytes
  pub compute_units : ℕ
  pub max_work_group_size : ℤ

pub record WorkerEvent (F : Type 0) : Type 0 where
  pub event : Bytes
  pub version : Bytes
  pub cpu_threads : ℤ
  pub gpu_devices : List GpuDevice
  pub gpu : List GpuDevice
  pub hashes : ℕ
  pub hashrate : F
  pub elapsed_ms : ℕ
  pub nonce : Bytes
  pub result : Bytes
  pub message : Bytes
