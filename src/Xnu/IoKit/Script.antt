-- ===== src/Xnu/IoKit/Script.antt =====
-- macos/process/xnu_footprint_demo.cpp: run_metal_cmd of demo_iokit_mapping.
use Prim.Native.Char.{code}
use Prim.Native.String.{String}
use memory_demo.Base.{ℕ, ◌+◌, ◌≡◌, refl, List, [], ◌∷◌, ◌==◌, if◌then◌else◌}

-- The string literals, which the compiler joins with nothing between them.
pub run_metal_cmd : List String
run_metal_cmd =
    "/usr/bin/osascript -e '" ∷ "tell application \"Terminal\" " ∷ "do script \""
    ∷ "cat > /tmp/run_metal.m << EOL" ∷ "#import <Foundation/Foundation.h>"
    ∷ "#import <Metal/Metal.h>" ∷ "" ∷ "int main() {" ∷ "    @autoreleasepool {"
    ∷ "        // 获取默认Metal设备" ∷ "        id<MTLDevice> device = MTLCreateSystemDefaultDevice();"
    ∷ "        if (!device) {" ∷ "            NSLog(@\\\"无法获取Metal设备\\\");"
    ∷ "            return 1;" ∷ "        }" ∷ "" ∷ "        // 加载Metal库"
    ∷ "        NSError *error = nil;"
    ∷ "        id<MTLLibrary> library = [device newLibraryWithFile:@\\\"/tmp/test_kernel.metallib\\\" error:&error];"
    ∷ "        if (!library) {" ∷ "            NSLog(@\\\"加载Metal库失败: %@\\\", error);"
    ∷ "            return 1;" ∷ "        }" ∷ "" ∷ "        // 获取内核函数"
    ∷ "        id<MTLFunction> function = [library newFunctionWithName:@\\\"test_kernel\\\"];"
    ∷ "        if (!function) {" ∷ "            NSLog(@\\\"获取内核函数失败\\\");" ∷ "            return 1;"
    ∷ "        }" ∷ "" ∷ "        // 创建计算管道"
    ∷ "        id<MTLComputePipelineState> pipelineState = [device newComputePipelineStateWithFunction:function error:&error];"
    ∷ "        if (!pipelineState) {" ∷ "            NSLog(@\\\"创建计算管道失败: %@\\\", error);"
    ∷ "            return 1;" ∷ "        }" ∷ "" ∷ "        // 创建命令队列"
    ∷ "        id<MTLCommandQueue> commandQueue = [device newCommandQueue];"
    ∷ "        if (!commandQueue) {" ∷ "            NSLog(@\\\"创建命令队列失败\\\");"
    ∷ "            return 1;" ∷ "        }" ∷ "" ∷ "        // 创建缓冲区 (这将触发IOKit内存映射)"
    ∷ "        const NSUInteger bufferSize = 256 * 1024 * 1024; // 256MB"
    ∷ "        id<MTLBuffer> buffer = [device newBufferWithLength:bufferSize options:MTLResourceStorageModeShared];"
    ∷ "        if (!buffer) {" ∷ "            NSLog(@\\\"创建缓冲区失败\\\");" ∷ "            return 1;"
    ∷ "        }" ∷ ""
    ∷ "        NSLog(@\\\"成功创建Metal缓冲区，大小: %lu MB\\\", bufferSize / 1024 / 1024);"
    ∷ "        NSLog(@\\\"这将在底层创建IOKit内存映射，计入iokit_mapped指标\\\");" ∷ "" ∷ "        // 创建命令缓冲区"
    ∷ "        id<MTLCommandBuffer> commandBuffer = [commandQueue commandBuffer];"
    ∷ "        if (!commandBuffer) {" ∷ "            NSLog(@\\\"创建命令缓冲区失败\\\");"
    ∷ "            return 1;" ∷ "        }" ∷ "" ∷ "        // 创建计算命令编码器"
    ∷ "        id<MTLComputeCommandEncoder> computeEncoder = [commandBuffer computeCommandEncoder];"
    ∷ "        if (!computeEncoder) {" ∷ "            NSLog(@\\\"创建计算命令编码器失败\\\");"
    ∷ "            return 1;" ∷ "        }" ∷ "" ∷ "        // 设置计算管道"
    ∷ "        [computeEncoder setComputePipelineState:pipelineState];"
    ∷ "        [computeEncoder setBuffer:buffer offset:0 atIndex:0];" ∷ "" ∷ "        // 设置线程组大小"
    ∷ "        MTLSize gridSize = MTLSizeMake(bufferSize / sizeof(float), 1, 1);"
    ∷ "        MTLSize threadGroupSize = MTLSizeMake(pipelineState.maxTotalThreadsPerThreadgroup, 1, 1);"
    ∷ "        [computeEncoder dispatchThreads:gridSize threadsPerThreadgroup:threadGroupSize];"
    ∷ "" ∷ "        // 结束编码" ∷ "        [computeEncoder endEncoding];" ∷ "" ∷ "        // 提交命令缓冲区"
    ∷ "        [commandBuffer commit];" ∷ "        [commandBuffer waitUntilCompleted];" ∷ ""
    ∷ "        // 验证结果" ∷ "        float *data = (float *)[buffer contents];"
    ∷ "        NSLog(@\\\"缓冲区前10个元素:\\\");" ∷ "        for (int i = 0; i < 10; i++) {"
    ∷ "            NSLog(@\\\"%d: %f\\\", i, data[i]);" ∷ "        }" ∷ ""
    ∷ "        NSLog(@\\\"Metal操作完成，IOKit内存映射已创建\\\");" ∷ "        NSLog(@\\\"按Enter键继续...\\\");"
    ∷ "        char c;" ∷ "        scanf(\\\"%c\\\", &c);" ∷ "" ∷ "        // 释放资源 (ARC会自动处理)"
    ∷ "    }" ∷ "    return 0;" ∷ "}" ∷ "EOL" ∷ ""
    ∷ "clang -framework Foundation -framework Metal -fobjc-arc /tmp/run_metal.m -o /tmp/run_metal"
    ∷ "/tmp/run_metal" ∷ "\" " ∷ "end tell" ∷ "'" ∷ []

line_ends : String → ℕ
line_ends String.[] = 0
line_ends (String.◌∷◌ c s) = (if code c == b'\n' then 1 else 0) + line_ends s

line_ends_all : List String → ℕ
line_ends_all [] = 0
line_ends_all (s ∷ rest) = line_ends s + line_ends_all rest

-- The whole command is one line.
run_metal_cmd-line_ends : line_ends_all run_metal_cmd ≡ 0
unfolding line_ends_all line_ends run_metal_cmd
run_metal_cmd-line_ends = refl
