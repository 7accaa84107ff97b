-- ===== src/Process/Info/Windows.antt =====
-- process/process_info_windows.go: `processInfo` and `processExe`, and from them the type
-- `windowsProcess` of process/process_windows.go. Package os/exec is a parameter.
pub mod Printed
use masche.Prelude.{
  ℕ, ◌+◌, ◌/◌, ◌%◌, ◌||◌, ◌&&◌, List, [], ◌∷◌, ◌++◌, Option, none, some, Bytes, codes, ltb, leb,
  if◌then◌else◌,
}
use masche.Go.{Error, Result, ok, err, Outcome, done, ◌>>=◌}
use masche.Go.Int.{ℤ, pos, negsuc, uint}
use masche.Go.Number.{decimal}
use masche.Process.{Named, Closed}
use masche.Process.Info.Wmic.{WmicProcess, wmic_process}
use masche.Process.Info.Tasklist.{tasklist_user}

-- `exec.Command(name, args...).Output()`
pub record Programs : Type 1 where
  pub World : Type 0
  pub output : Bytes → List Bytes → World → Result Bytes × World

-- The UTF-8 bytes of a code point, or of U+FFFD.
unfoldable pub rune_text : ℕ → Bytes
rune_text n =
    if ltb n 0x80
    then n ∷ []
    else if ltb n 0x800
    then (0xc0 + n / 0x40) ∷ (0x80 + n % 0x40) ∷ []
    else if leb 0x110000 n || (leb 0xd800 n && ltb n 0xe000)
    then 0xef ∷ 0xbf ∷ 0xbd ∷ []
    else if ltb n 0x10000
    then (0xe0 + n / 0x1000) ∷ (0x80 + n / 0x40 % 0x40) ∷ (0x80 + n % 0x40) ∷ []
    else (0xf0 + n / 0x40000)
      ∷ (0x80 + n / 0x1000 % 0x40)
      ∷ (0x80 + n / 0x40 % 0x40)
      ∷ (0x80 + n % 0x40)
      ∷ []

-- `string(pid)`
unfoldable pub string_of : ℤ → Bytes
unfolding rune_text
string_of (pos n) = rune_text n
string_of (negsuc n) = 0xef ∷ 0xbf ∷ 0xbd ∷ []

unfoldable pub wmic_args : ℤ → List Bytes
wmic_args pid =
    codes "path"
    ∷ codes "win32_process"
    ∷ codes "where"
    ∷ (codes "processid=" ++ decimal (uint pid))
    ∷ codes "get"
    ∷ codes "commandline,"
    ∷ codes "executablepath,"
    ∷ codes "handle,"
    ∷ codes "parentprocessid,"
    ∷ codes "sessionid"
    ∷ []

unfoldable pub tasklist_args : ℤ → List Bytes
unfolding string_of
tasklist_args pid = codes "/v" ∷ codes "/fi" ∷ (codes "PID eq " ++ string_of pid) ∷ []

pub record WindowsProcessInfo : Type 0 where
  pub id : ℤ
  pub handle : ℤ
  pub command : Bytes
  pub user_name : Bytes
  pub parent_process_id : ℤ
  pub executable : Bytes
  pub session_id : ℤ

-- What is filled in where wmic fails.
abbrev pub only_id : ℤ → WindowsProcessInfo
only_id pid = record {
  id = pid;
  handle = pos 0;
  command = [];
  user_name = [];
  parent_process_id = pos 0;
  executable = [];
  session_id = pos 0;
}

unfoldable pub with_user : ℤ → WmicProcess → Bytes → WindowsProcessInfo
with_user pid p user = record {
  id = pid;
  handle = p.handle;
  command = p.command;
  user_name = user;
  parent_process_id = p.parent_process_id;
  executable = p.executable;
  session_id = p.session_id;
}

module _ (run : Programs) where
  -- `commandExecutablePPIdPPIdHandleAndSessionId`; its results are empty where it has an error.
  unfoldable pub command_and_more : ℤ → run.World → Outcome (Result WmicProcess × run.World)
  command_and_more pid w =
      let (printed, w1) = run.output (codes "wmic") (wmic_args pid) w in
      elim printed [
        | err e ↦ done (err e, w1)
        | ok output ↦ wmic_process output >>= λ p. done (p, w1)
      ]

  unfoldable pub user_name : ℤ → run.World → Outcome (Result Bytes × run.World)
  user_name pid w =
      let (printed, w1) = run.output (codes "tasklist") (tasklist_args pid) w in
      elim printed [
        | err e ↦ done (err e, w1)
        | ok output ↦ tasklist_user output >>= λ user. done (ok user, w1)
      ]

  unfoldable pub process_info :
      ℤ → run.World → Outcome ((WindowsProcessInfo × Option Error) × run.World)
  unfolding command_and_more user_name with_user
  process_info pid w = command_and_more pid w >>= λ (r, w1). elim r [
    | err e ↦ done ((only_id pid, some e), w1)
    | ok p ↦ user_name pid w1 >>= λ (u, w2). elim u [
      | err e ↦ done ((with_user pid p [], some e), w2)
      | ok user ↦ done ((with_user pid p user, none), w2)
    ]
  ]

  -- The executable, with an error or without.
  unfoldable pub process_exe : ℤ → run.World → Outcome ((Bytes × Option Error) × run.World)
  unfolding command_and_more
  process_exe pid w = command_and_more pid w >>= λ (r, w1). elim r [
    | err e ↦ done (([], some e), w1)
    | ok p ↦ done ((p.executable, none), w1)
  ]

  -- The methods of `windowsProcess`, which is its pid.
  unfoldable pub get_process : ℤ → ℤ
  get_process pid = pid

  unfoldable pub pid_of : ℤ → ℤ
  pid_of p = p

  unfoldable pub windows_name : ℤ → run.World → Outcome (Named × run.World)
  unfolding process_exe pid_of
  windows_name p w = process_exe (pid_of p) w >>= λ ((name, error), w1).
      done (record { name = name; harderror = error; softerrors = [] }, w1)

  unfoldable pub windows_close : ℤ → run.World → Closed × run.World
  windows_close p w = (record { harderror = none; softerrors = [] }, w)
