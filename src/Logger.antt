-- ===== src/Logger.antt =====
-- src/logger.{h,cpp}. The log files are streams that the environment opens or not; what it answers to
-- the calls of the file system, and the wall clock's text, are arguments. What goes to the standard
-- error stream is left out.
pub mod Journal
pub mod Examples
use session_affinity_engine.Base.{Bool, true, false, not, ◌&&◌, [], ◌∷◌, ◌++◌, if◌then◌else◌}
use session_affinity_engine.Text.{Bytes, codes}

pub data LogLevel : Type 0 where
  info warning error debug : LogLevel

-- A std::ofstream in append mode: whether it is open, whether an operation on it has failed, and what
-- stands in its file.
pub record LogFile : Type 0 where
  pub is_open : Bool
  pub failed : Bool
  pub text : Bytes

pub record Logger : Type 0 where
  pub enabled : Bool
  pub request_file : LogFile
  pub system_file : LogFile

abbrev pub closed_file : Bytes → LogFile
closed_file text = record { is_open = false; failed = false; text = text }

-- Before `init`, with what earlier runs have left in the two files.
abbrev pub new : Bytes → Bytes → Logger
new requests systems = record {
  enabled = false;
  request_file = closed_file requests;
  system_file = closed_file systems;
}

-- `open` of a stream that is open fails; of another, it succeeds if the file system says so.
unfoldable pub open_file : LogFile → Bool → LogFile
open_file f granted =
    if not f.is_open && granted
    then record f { is_open = true; failed = false }
    else record f { failed = true }

abbrev pub close_file : LogFile → LogFile
close_file f = if f.is_open then record f { is_open = false } else f

-- `<<` and `flush`. Output to a stream that is not open fails, and a stream that has failed writes no more.
unfoldable pub append_line : LogFile → Bytes → LogFile
append_line f line =
    if f.failed
    then f
    else if f.is_open
    then record f { text = f.text ++ line }
    else record f { failed = true }

unfoldable pub level_to_string : LogLevel → Bytes
level_to_string info = codes "INFO"
level_to_string warning = codes "WARNING"
level_to_string error = codes "ERROR"
level_to_string debug = codes "DEBUG"

-- A text in brackets, with a space behind.
abbrev pub field : Bytes → Bytes → Bytes
field text rest = b'[' ∷ (text ++ (b']' ∷ b' ' ∷ rest))

-- The lines, without the end of line.
abbrev pub request_line : Bytes → Bytes → Bytes → Bytes → Bytes → Bytes
request_line stamp key action status details =
    field stamp (field key (field action (field status details)))

unfoldable pub system_line : Bytes → LogLevel → Bytes → Bytes
system_line stamp level message = field stamp (field (level_to_string level) message)

abbrev pub end_line : Bytes
end_line = b'\n' ∷ []

unfoldable pub log_request : Logger → Bytes → Bytes → Bytes → Bytes → Bytes → Logger
log_request l stamp key action status details = if not l.enabled then l else record l {
  request_file =
      append_line l.request_file (request_line stamp key action status details ++ end_line);
}

unfoldable pub log_system : Logger → Bytes → LogLevel → Bytes → Logger
log_system l stamp level message = if not l.enabled then l else record l {
  system_file = append_line l.system_file (system_line stamp level message ++ end_line);
}

-- What the file system answers to `init`: the directory is there, and each of the files opens.
pub record Disk : Type 0 where
  pub directory_made : Bool
  pub request_opens : Bool
  pub system_opens : Bool

unfoldable pub open_system : Logger → Disk → Bytes → Logger × Bool
open_system l disk stamp =
    let l' : Logger = record l { system_file = open_file l.system_file disk.system_opens } in
    if not l'.system_file.is_open
    then (l', false)
    else (log_system l' stamp info (codes "Logger initialized successfully."), true)

unfoldable pub open_files : Logger → Disk → Bytes → Logger × Bool
open_files l disk stamp =
    let l' : Logger = record l { request_file = open_file l.request_file disk.request_opens } in
    if not l'.request_file.is_open then (l', false) else open_system l' disk stamp

unfoldable pub init : Logger → Bool → Disk → Bytes → Logger × Bool
init l enabled disk stamp =
    let l' : Logger = record l { enabled = enabled } in
    if not enabled
    then (l', true)
    else if not disk.directory_made
    then (l', false)
    else open_files l' disk stamp

unfoldable pub shutdown : Logger → Bytes → Logger
shutdown l stamp =
    if l.enabled
    then (let l' = log_system l stamp info (codes "Logger shutting down.") in
        record l' {
          request_file = close_file l'.request_file;
          system_file = close_file l'.system_file;
        })
    else l
