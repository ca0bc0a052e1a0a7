-- ===== src/SharedLibrary.antt =====
-- macos/process/shared_library_demo.cpp.
pub mod Ownership
use memory_demo.Base.{
  ℕ, zero, suc, ◌+◌, ◌*◌, ◌/◌, ◌%◌, Bool, true, false, Option, none, some, List, [], ◌∷◌, ◌++◌, ltb,
  ◌==◌, if◌then◌else◌,
}
use memory_demo.Base.Word.{u64}
use memory_demo.Os.{
  shared_lib_dir, large_source, large_dylib, create_file, close_file, write_file, system, mkdir_p,
  compile_library, rm_rf, ps_self, dlopen, dlsym, dlclose, call_symbol, fork, waitpid, sleep,
  cin_get, error, value, Os, Action, ◌>>=◌, ◌>>◌, pure, done, ask, say, on_reply, run_child,
}

-- The characters of a number in decimal; 20 digits are enough for a size_t.
decimal_length : ℕ → ℕ → ℕ
decimal_length zero n = 0
decimal_length (suc digits) n =
    let rest = decimal_length digits (n / 10) in if ltb n 10 then 1 else 1 + rest

-- The bytes of one element of the array: blanks, number, comma, and a line end after each tenth.
entry_bytes : ℕ → ℕ
unfolding decimal_length
entry_bytes j = 8 + decimal_length 20 (j % 256) + 1 + (if j % 10 == 9 then 1 else 0)

entries_bytes : ℕ → ℕ → ℕ
unfolding entry_bytes
entries_bytes zero j = 0
entries_bytes (suc rounds) j = entry_bytes j + entries_bytes rounds (j + 1)

abbrev pub data_size : ℕ
data_size = 25000

-- The bytes of the function large_function_i.
pub function_bytes : ℕ → ℕ
unfolding entries_bytes
function_bytes i = 30 + decimal_length 20 i + 5 + 33 + entries_bytes data_size 0 + 7 + 20 + 3

-- The loop over the functions. What a write answers is not looked at.
pub write_functions : Os → ℕ → ℕ → ℕ → Action (Unit {0})
unfolding function_bytes
write_functions os pid zero i = done
write_functions os pid (suc rounds) i = do
  ask os (write_file (large_source pid) (function_bytes i))
  write_functions os pid rounds (i + 1)

-- The directory, the source in it and the library: false where one of them cannot be made.
pub create_large_shared_library : Os → (parent_pid size_mb : ℕ) → Action Bool
create_large_shared_library os pid size_mb = do
  ask os (system (mkdir_p (shared_lib_dir pid)))
  opened ← ask os (create_file (large_source pid))
  on_reply opened (say (error "无法创建源文件: ") >> pure false) λ _. do
    ask os (write_file (large_source pid) (19 + 21))
    write_functions os pid (size_mb * 10 % u64) 0
    ask os (write_file (large_source pid) (34 + 65 + 15 + 2))
    ask os (close_file (large_source pid))
    say (value "已创建共享库源代码" 0)
    result ← ask os (system (compile_library (shared_lib_dir pid)))
    on_reply result (say (error "编译共享库失败") >> pure false) λ status.
        if status == 0
        then (say (value "已成功编译共享库" 0) >> pure true)
        else (say (error "编译共享库失败") >> pure false)

-- The handle of the library; `none` is nullptr.
pub load_and_test_library : Os → (parent_pid : ℕ) → Action (Option ℕ)
load_and_test_library os pid = do
  loaded ← ask os (dlopen (large_dylib pid))
  on_reply loaded (say (error "无法加载共享库: ") >> pure none) λ library_handle. do
    test_func ← ask os (dlsym library_handle)
    on_reply test_func (do say (error "无法找到测试函数: "); ask os (dlclose library_handle); pure none)
        λ test_func. do
          result ← ask os (call_symbol test_func)
          on_reply result done λ result. say (value "测试函数返回值: " result)
          pure (some library_handle)

pub cleanup_library_files : Os → (parent_pid : ℕ) → Action (Unit {0})
cleanup_library_files os pid = do
  ask os (system (rm_rf (shared_lib_dir pid)))
  say (value "已清理临时文件" 0)

-- A child, up to its exit.
pub library_child : Os → (parent_pid i : ℕ) → Action (Unit {0})
library_child os pid i = do
  loaded ← load_and_test_library os pid
  on_reply loaded done λ child_handle. do
    say (value "子进程成功加载共享库" (i + 1))
    ask os (system ps_self)
    ask os (sleep 5)
    ask os (dlclose child_handle)
    done
  ask os cin_get
  say (value "子进程退出" (i + 1))

-- The loop that makes the children: it ends at the first fork that fails. A child touches nothing of
-- its parent's, so that it runs to its end where it is made.
pub fork_children : Os → (parent_pid rounds i : ℕ) → List ℕ → Action (List ℕ)
fork_children os pid zero i children = pure children
fork_children os pid (suc rounds) i children = do
  forked ← ask os fork
  on_reply forked (say (error "创建子进程失败") >> pure children) λ child. do
    run_child (library_child os pid i)
    say (value "父进程创建了子进程" child)
    ask os (sleep 1)
    fork_children os pid rounds (i + 1) (children ++ child ∷ [])

pub wait_for : Os → List ℕ → Action (Unit {0})
wait_for os [] = done
wait_for os (child ∷ rest) = do ask os (waitpid child); say (value "子进程已退出" child); wait_for os rest

-- The part after the library has been built.
pub share_library : Os → (parent_pid : ℕ) → Action (Unit {0})
share_library os pid = do
  ask os (system ps_self)
  loaded ← load_and_test_library os pid
  on_reply loaded (cleanup_library_files os pid) λ parent_handle. do
    ask os (system ps_self)
    children ← fork_children os pid 3 0 []
    ask os cin_get
    wait_for os children
    ask os (dlclose parent_handle)
    cleanup_library_files os pid

pub demo_shared_library_code_segment : Os → ℕ → Action (Unit {0})
demo_shared_library_code_segment os size_mb = do
  built ← create_large_shared_library os os.pid size_mb
  if built then share_library os os.pid else say (error "创建共享库失败")

pub library_main : Os → Action (Unit {0})
library_main os = do ask os cin_get; demo_shared_library_code_segment os 50
