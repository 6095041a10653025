-- ===== src/Examples.antt =====
-- Runs on concrete inputs, and the theorems at concrete inputs.
mod Keys
mod Lru
mod Compile
mod Caches
mod Capture
mod Extent
mod DType
mod Errors
mod Dispatch
mod Batch
mod CApi
mod Constant
mod Specialize
mod PyBuffer
mod PyLaunch
mod PyBatch
mod Reflection
mod PyConstants
mod Entry
mod Runtime
mod PyKernel
mod PyModule
