-- ===== src/Xnu/IoKit.antt =====
-- macos/process/xnu_footprint_demo.cpp: demo_iokit_mapping.
pub mod Script
pub mod Files
use memory_demo.Base.{ℕ, ◌==◌, if◌then◌else◌, Option, none, some}
use memory_demo.Os.{
  metal_source, metal_air, metal_library, run_metal_source, run_metal, create_file, close_file,
  write_file, remove_file, system, metal_compile, metallib_create, osascript_run, error, Os, Action,
  ◌>>=◌, ◌>>◌, done, ask, say, on_reply,
}
use memory_demo.Xnu.Memory.{print_memory_info}
use memory_demo.Xnu.IoKit.Script.{run_metal_cmd}

-- The branches on `system(...) != 0`; `none` is the result -1.
abbrev pub on_status : {A : Type 0} → Option ℕ → Action A → Action A → Action A
on_status none failed ready = failed
on_status (some status) failed ready = if status == 0 then ready else failed

-- The bytes of metal_code.
abbrev pub metal_code_bytes : ℕ
metal_code_bytes = 200

-- What follows the making of the library: the program is run and every file is removed.
pub run_and_clean_up : Os → Action (Unit {0})
run_and_clean_up os = do
  ask os (system (osascript_run run_metal_cmd))
  ask os (remove_file (metal_source os.pid))
  ask os (remove_file metal_air)
  ask os (remove_file metal_library)
  ask os (remove_file run_metal_source)
  ask os (remove_file run_metal)
  print_memory_info os

pub make_metal_library : Os → Action (Unit {0})
make_metal_library os = do
  lib_result ← ask os (system metallib_create)
  on_status lib_result
      (do
        say (error "创建Metal库失败")
        ask os (remove_file (metal_source os.pid))
        ask os (remove_file metal_air)
        done)
      (run_and_clean_up os)

pub demo_iokit_mapping : Os → Action (Unit {0})
demo_iokit_mapping os = do
  metal_out ← ask os (create_file (metal_source os.pid))
  on_reply metal_out (say (error "无法创建Metal源文件")) λ _. do
    ask os (write_file (metal_source os.pid) metal_code_bytes)
    ask os (close_file (metal_source os.pid))
    compile_result ← ask os (system (metal_compile (metal_source os.pid)))
    on_status compile_result
        (do say (error "Metal编译失败"); ask os (remove_file (metal_source os.pid)); done)
        (make_metal_library os)
