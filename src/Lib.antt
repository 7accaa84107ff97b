-- ===== src/Lib.antt =====
-- masche: forensic access to the memory of other processes, on Linux, Windows and Darwin.
--
-- The library opens processes (process/), finds the regions of a process's memory and reads
-- them (memaccess/), searches the memory for bytes or for a regular expression (memsearch/) and
-- lists the loaded libraries (listlibs/). On Linux memory and libraries are read from the files
-- under /proc, whose lines common/ takes apart; on Windows and Darwin C functions are called, whose
-- errors cresponse/ reads.
--
-- Parts and files:
--  - Go: what the sources take from the language and its packages. Go.antt has errors, results,
--    panics and 64-bit arithmetic, with the wrap-around written out, Go/Int the signed integers;
--    Go/Strings, Go/Number and Go/Lines are the functions of packages strings, strconv and bufio
--    that the sources call, on texts as their UTF-8 bytes.
--  - System: the calls of packages os and path/filepath that the Linux files make. They are a
--    parameter, a record of functions on a world that is passed on from call to call.
--  - Cresponse: cresponse/cresponse.go. The C code's memory is a parameter, the record Responses.
--  - Maps: common/common_linux.go. MapsFilePathFromPid, ParseMapsFileMemoryLimits and
--    SplitMapsFileEntry become functions on lists of byte codes. Maps/Limits and Maps/Split are on
--    what they accept.
--  - Memaccess: memaccess/memaccess.go, memaccess/memaccess_linux.go and
--    memaccess/memaccess_c_wrapper.go.
--     - Region: Access, MemoryRegion and the sentinel NoRegionAvailable.
--     - Platform: nextMemoryRegion and copyMemory, which the operating system's file provides, as
--       a record that the shared code takes as a parameter.
--     - Next: NextMemoryRegion, NextMemoryRegionAccess and NextReadableMemoryRegion.
--     - Print: MemoryRegion.String, and the struct that MarshalJSON gives to json.Marshal.
--     - Walk: CopyMemory, walkRegion and WalkMemory. A callback is a function on what it keeps.
--       Walk/Ends is on when the walk through a region ends, Walk/Total (with Walk/Fine and
--       Walk/Failing) on when the whole walk does, Walk/Moving on regions that change from call to
--       call, Walk/Forever on a region at address 0, Walk/Retries on memory that cannot be copied,
--       Walk/Keeps on properties of the world that the platform keeps.
--     - Sliding: SlidingWalkMemory. The variables that its callback captures are a record, Window,
--       and the callback is a step on it. Sliding/Views has what the user's callback is to be shown,
--       a list of buffers with their addresses; Sliding/Full, Sliding/Owed, Sliding/Behind and
--       Sliding/Shown are on runs longer than the buffer, Sliding/Short, Sliding/Feeding and
--       Sliding/Whole on runs that fit in it, and Sliding/Reuse on the buffer from the third piece of
--       a run on.
--     - Linux: nextMemoryRegion and copyMemory of memaccess_linux.go, and from them a Platform.
--       Linux/Files keeps account of the open files.
--     - Calls: the same two of memaccess_c_wrapper.go, over the C functions as a parameter, and from
--       them a Platform. Calls/Live keeps account of the responses.
--     - Image: the abstract view, a process whose memory does not change: a list of regions in the
--       order of their addresses (Lists), and with it a function from addresses to bytes (IsStable).
--       Image/Rank counts the runs that are left at an address. A Stable child states an operation
--       over this view, Next/Moving the lookups over one that changes.
--  - Memsearch: memsearch/memsearch.go. The searches are sliding walks with a callback that stops
--    at the first match. Memsearch/Views states a search by the buffers that the callback is shown,
--    Memsearch/Exact compares it with one run by run where the runs fit in the buffer, and
--    Memsearch/Sound is on what stands where it reports a hit.
--  - Process: process/process.go over the record Host, the functions of the operating system's
--    file. Process/Matching is on OpenByName; the host noting keeps a note of each call of Close.
--     - Process/Linux is process/process_linux.go and processExe of process/process_info_linux.go.
--     - Process/Info is the rest of process/process_info_linux.go. What the code does with package
--       reflect is written out: the fields and their tags are a data type, and setting a field is a
--       function. The map of field names is a list, passed on from call to call; Info/Cached has the
--       goroutines that share it as a step relation, with a read under the read lock and a write
--       under the lock as steps. Info/Parsed has the status file as a list of entries.
--     - Process/Info/Wmic and Process/Info/Tasklist are the parsers of what wmic and tasklist print,
--       of process/process_info_windows.go, and Process/Info/Windows what the file makes of both, with
--       the type windowsProcess of process/process_windows.go. Package os/exec is a parameter, the
--       record Programs.
--     - Process/Handles is process/process_c_wrapper.go, Process/Windows and Process/Darwin the pids
--       and names of process/process_windows.go and process/process_darwin.go. Handles/Balance keeps
--       account of handles and responses, as process/process.h documents them, and Handles/Cycle does
--       over OpenAll and CloseAll together.
--  - Listlibs: listlibs/listlibs.go and listlibs/listlibs_linux.go; Listlibs/Listed has the lists of
--    listlibs/listlibs_darwin.go and listlibs/listlibs_windows.go.
--  - Examples: the programs of examples/. A run is what is printed, how it ends and the world behind
--    it. Examples/Pgrep and Examples/Listlibs are over a Host. A map is a function without an order;
--    the order in which range goes through it is a parameter.
--  - Tests: small inputs.
--
-- Bounds: addresses and sizes are natural numbers, and an addition or subtraction of the sources
-- keeps its wrap-around modulo 2 ^ 64 unless a test in front of it rules that out. A loop with no
-- bound of its own (the lookups, the walk, the parts of a region) gets rounds of fuel, one per pass,
-- and out_of_fuel is a result of its own. The lookups make one pass for each region and one more,
-- the walk one for each run and each retry, and the walk through a run one for each piece, which has
-- at least a byte.
--
-- Not modelled: package regexp, which is a parameter of the searches, of OpenByName and of the
-- library lists; the C code, whose functions are parameters; arrays that the Go code allocates for C
-- and frees behind a call; the system call behind windowsProcess.Handle; the parsing of the example
-- programs' flags; the getters of the process information; the programs that wmic and tasklist are;
-- and the tests. examples/memsearch.go does not compile and is left out. The deferred Close calls of a function that panics are left out.
pub mod Prelude
pub mod Go
pub mod System
pub mod Maps
pub mod Cresponse
pub mod Process
pub mod Listlibs
pub mod Memaccess
pub mod Memsearch
pub mod Examples
pub mod Tests
