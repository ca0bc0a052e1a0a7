-- ===== src/Xnu/SysV.antt =====
-- macos/process/xnu_footprint_demo.cpp: demo_sysv_shared_memory.
pub mod Search
pub mod Segment
pub mod Children
use memory_demo.Base.{ℕ, ◌/◌, Option, none, some, List, [], ◌∷◌}
use memory_demo.Os.{
  shmget, shmctl_rmid, shmat, shmdt, cin_get, system, ipcs_limits, ipcs_segments, sysctl_sysv,
  error, value, Os, Action, ◌>>=◌, ◌>>◌, pure, done, ask, say, on_reply, touch,
}
use memory_demo.Xnu.Memory.{print_memory_info}
use memory_demo.Xnu.Sharing.{child_rewrites, share_with_child}
use memory_demo.Xnu.Shared.{demo_shared_memory}

-- flags_options, over IPC_CREAT = 01000 and IPC_EXCL = 02000 of sys/ipc.h.
abbrev pub flags_options : List ℕ
flags_options = 0o1666 ∷ 0o3666 ∷ 0o1600 ∷ 0o3600 ∷ []

abbrev pub size_options : List ℕ
size_options = 65536 ∷ 32768 ∷ 16384 ∷ 8192 ∷ 4096 ∷ []

-- The inner loop: the flags at one size, until one of them is granted.
pub try_flags : Os → ℕ → List ℕ → Action (Option ℕ)
try_flags os n [] = pure none
try_flags os n (flags ∷ rest) = do
  shmid ← ask os (shmget n flags)
  on_reply shmid (say (error "失败: ") >> try_flags os n rest)
      λ shmid. do say (value "成功创建共享内存" flags); pure (some shmid)

-- The outer loop: the sizes, from the largest on; the result is the segment and its size.
pub try_sizes : Os → List ℕ → Action (Option (ℕ × ℕ))
try_sizes os [] = pure none
try_sizes os (n ∷ rest) = do
  found ← try_flags os n flags_options
  on_reply found (try_sizes os rest) λ shmid. pure (some (shmid, n))

-- The clean-up of an old segment: shmget with a size of 0, and IPC_RMID.
pub remove_existing : Os → Action (Unit {0})
remove_existing os = do
  existing ← ask os (shmget 0 0o666)
  on_reply existing done λ shmid. do
    removed ← ask os (shmctl_rmid shmid)
    on_reply removed done λ _. say (value "成功删除已存在的共享内存段" shmid)

-- The part after the segment has been attached.
pub use_segment : Os → (shmid current_size buffer : ℕ) → Action (Unit {0})
use_segment os shmid current_size buffer = do
  say (value "已创建System V共享内存 MB" (current_size / 1024 / 1024))
  touch buffer current_size b'V'
  print_memory_info os
  share_with_child os (child_rewrites os buffer current_size b'C' (ask os (shmdt buffer) >> done))
      buffer
  ask os cin_get
  detached ← ask os (shmdt buffer)
  on_reply detached (say (error "无法分离System V共享内存: ")) λ _. done
  removed ← ask os (shmctl_rmid shmid)
  on_reply removed (say (error "无法删除System V共享内存: ")) λ _. done

pub attach_segment : Os → (shmid current_size : ℕ) → Action (Unit {0})
attach_segment os shmid current_size = do
  attached ← ask os (shmat shmid)
  on_reply attached
      (do say (error "无法附加到System V共享内存: "); ask os (shmctl_rmid shmid); demo_shared_memory os 1)
      λ buffer. use_segment os shmid current_size buffer

-- Where no segment was granted: the diagnostics, and POSIX shared memory instead.
pub fall_back : Os → Action (Unit {0})
fall_back os = do
  say (error "所有System V共享内存尝试都失败")
  ask os (system ipcs_segments)
  ask os (system sysctl_sysv)
  demo_shared_memory os 1

-- The parameter size_mb of the source is not used by it.
pub demo_sysv_shared_memory : Os → ℕ → Action (Unit {0})
demo_sysv_shared_memory os size_mb = do
  ask os (system ipcs_limits)
  remove_existing os
  found ← try_sizes os size_options
  on_reply found (fall_back os) λ (shmid, current_size). attach_segment os shmid current_size
