-- ===== src/Memaccess.antt =====
-- memaccess/memaccess.go, its Linux half in memaccess/memaccess_linux.go, and that for Windows and
-- Darwin in memaccess/memaccess_c_wrapper.go.
pub mod Region
pub mod Platform
pub mod Image
pub mod Next
pub mod Print
pub mod Linux
pub mod Walk
pub mod Sliding
pub mod Calls
