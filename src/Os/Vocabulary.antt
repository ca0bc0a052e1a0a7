-- ===== src/Os/Vocabulary.antt =====
-- The vocabulary of the demonstration programs: the calls that they make to the operating system,
-- the resources that such calls hand out, and the lines that they print.
use Prim.Native.String.{String}
use memory_demo.Base.{ℕ, List, ℕ_discrete}

-- The paths that the programs build; a number is the process id that the path ends in.
pub data FileName : Type 0 where
  -- "/tmp/memory_demo_<pid>.tmp" and "/tmp/file_mapping_demo_<pid>.tmp"
  memory_demo_tmp file_mapping_tmp : ℕ → FileName
  -- "/tmp/test_kernel_<pid>.metal", "/tmp/test_kernel.air", "/tmp/test_kernel.metallib"
  metal_source : ℕ → FileName
  metal_air metal_library : FileName
  -- "/tmp/run_metal.m" and "/tmp/run_metal"
  run_metal_source run_metal : FileName
  -- "/tmp/shared_lib_demo_<pid>", its "large_lib.cpp" and its "liblarge.dylib"
  shared_lib_dir large_source large_dylib : ℕ → FileName
  -- the file that GetTempFileNameA makes; the number is the one that it chose
  windows_temp : ℕ → FileName
  -- "/xnu_footprint_demo_<pid>", in the name space of shm_open
  shm_name : ℕ → FileName

pub FileName-discrete : Discrete FileName
FileName-discrete = hlevel ℕ_discrete

-- What a call hands out and another call gives back. Memory carries its address and its size.
pub data Resource : Type 0 where
  heap mapping segment vm virtual view array : ℕ → ℕ → Resource
  fd shm_segment port library handle : ℕ → Resource
  file directory shm_object : FileName → Resource

pub Resource-discrete : Discrete Resource
Resource-discrete = hlevel (ℕ_discrete, FileName-discrete)

-- The flags of mmap that the programs pass, with the descriptor where there is one.
pub data MapKind : Type 0 where
  shared_file : ℕ → MapKind
  private_anonymous shared_anonymous : MapKind

-- The flavours of task_info.
pub data Flavor : Type 0 where
  task_basic_info task_vm_info : Flavor

-- The command lines that are given to system().
pub data Command : Type 0 where
  metal_compile : FileName → Command
  metallib_create ipcs_limits ipcs_segments sysctl_sysv : Command
  -- the literals that its text is put together from
  osascript_run : List String → Command
  mkdir_p compile_library rm_rf : FileName → Command
  ps_self : Command

-- The protections and access modes that the Windows programs pass.
pub data Access : Type 0 where
  reserve_only reserve_commit : Access
  page_readwrite page_readonly : Access
  map_all_access map_copy : Access

-- What a Windows file mapping is backed by: INVALID_HANDLE_VALUE, or a file's handle.
pub data Backing : Type 0 where
  paging_file : Backing
  file_handle : ℕ → Backing

pub data Call : Type 0 where
  -- libc and POSIX
  malloc free : ℕ → Call
  mmap : MapKind → ℕ → Call
  munmap : ℕ → ℕ → Call
  create_file close_file open_file remove_file : FileName → Call
  write_file : FileName → ℕ → Call
  close fstat : ℕ → Call
  shm_open shm_unlink : FileName → Call
  ftruncate : ℕ → ℕ → Call
  shmget : ℕ → ℕ → Call
  shmctl_rmid shmat shmdt : ℕ → Call
  fork cin_get : Call
  waitpid sleep : ℕ → Call
  system : Command → Call
  dlopen : FileName → Call
  dlsym dlclose call_symbol : ℕ → Call
  -- Mach
  task_info : Flavor → Call
  vm_allocate : ℕ → Call
  vm_deallocate make_memory_entry vm_map : ℕ → ℕ → Call
  task_for_pid port_deallocate : ℕ → Call
  -- Windows
  virtual_alloc : Access → ℕ → Call
  virtual_free : ℕ → Call
  new_array delete_array : ℕ → Call
  create_mapping : Backing → Access → ℕ → Call
  map_view : ℕ → Access → ℕ → Call
  unmap_view close_handle : ℕ → Call
  get_temp_file : Call
  create_file_a delete_file : FileName → Call
  process_memory_info query_working_set : Call

-- A printed line: an error text, or a label with the number or the formatted size that
-- follows it. Banners that are the
-- same in every run are left out.
pub data Message : Type 0 where
  error : String → Message
  value : String → ℕ → Message
  text : String → List ℕ → Message
