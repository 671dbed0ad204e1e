-- ===== src/Connectors.antt =====
-- src/boveda/connectors.py: the commands that dump a database, and the stream of a process's output
-- (stream_subprocess_with_watchdog). A turn of its loop is an event; the stderr of the process, which
-- only goes into messages, is left out.
pub mod Streamed
use Prim.Native.String.{◌++◌ as text_append}
use boveda_pyme.Prelude.{
  ℕ, suc, zero, ◌-◌, String, Bool, true, false, not, ◌&&◌, ◌||◌, Option, none, some, List, [], ◌∷◌,
  ◌++◌, ltb, leb, ◌==◌, if◌then◌else◌, length, take, drop, str_eq, Result, ok, err,
}
use boveda_pyme.FastCdc.{is_empty}
use boveda_pyme.Pipeline.Tasks.{ReturnCode, exited, signalled}

-- An environment: names with their values.
abbrev pub Environment : Type 0
Environment = List (String × String)

abbrev pub password_entry : Option String → Environment
password_entry none = []
password_entry (some p) = if str_eq p "" then [] else ("PGPASSWORD", p) ∷ []

-- A file of options: its path and text.
pub record CnfFile : Type 0 where
  pub path : String
  pub body : String

module _ (str : ℕ → String) where
  unfoldable pub build_postgres_dump_command :
      String → String → ℕ → String → Option String → List String → List String × Environment
  build_postgres_dump_command db_name host port user password custom_flags = (
    "pg_dump" ∷ "--format=custom" ∷ "--no-owner" ∷ "--no-privileges" ∷ "--dbname" ∷ db_name
        ∷ custom_flags,
    ("PGHOST", host) ∷ ("PGPORT", str port) ∷ ("PGUSER", user) ∷ password_entry password,
  )

  unfoldable pub cnf_body : String → ℕ → String → String → String
  cnf_body host port user password = text_append "[client]\nhost=" (
      text_append host (
        text_append "\nport=" (
          text_append (str port) (
            text_append "\nuser="
              (text_append user (text_append "\npassword=" (text_append password "\n")))))))

  abbrev pub mysql_flags : List String
  mysql_flags =
      "--single-transaction" ∷ "--quick" ∷ "--skip-lock-tables" ∷ "--routines" ∷ "--triggers"
      ∷ "--events" ∷ []

  -- `temp_file` is the path that tempfile.mkstemp gives.
  unfoldable pub build_mysql_dump_command :
      String
      → String
      → String
      → ℕ
      → String
      → Option String
      → List String
      → List String × Option CnfFile
  unfolding cnf_body
  build_mysql_dump_command temp_file db_name host port user (some password) custom_flags = (
    "mysqldump" ∷ text_append "--defaults-extra-file=" temp_file ∷ mysql_flags
        ++ custom_flags
        ++ db_name ∷ [],
    some (record { path = temp_file; body = cnf_body host port user password }),
  )
  build_mysql_dump_command temp_file db_name host port user none custom_flags = (
    "mysqldump" ∷ mysql_flags
        ++ ("-h" ∷ host ∷ "-P" ∷ str port ∷ "-u" ∷ user ∷ [])
        ++ custom_flags
        ++ db_name ∷ [],
    none,
  )

unfoldable pub build_sqlite_backup_command : String → List String
build_sqlite_backup_command db_path = "sqlite3" ∷ db_path ∷ ".dump" ∷ []

-- What a turn of the loop meets: the shutdown event, no answer in time, or the bytes of a read, which
-- are none at the end of the output.
pub data Turn : Type 0 where
  shut_down no_answer : Turn
  received : List ℕ → Turn

pub data StreamError : Type 0 where
  streaming_timeout : ℕ → StreamError
  process_failed : ReturnCode → StreamError

abbrev pub Streamed : Type 0
Streamed = List (List ℕ) × Result StreamError (Unit {0})

-- The last chunk, after the loop.
abbrev pub flush : List ℕ → Streamed
flush accumulated = (if is_empty accumulated then [] else accumulated ∷ [], ok tt)

abbrev pub give : List ℕ → Streamed → Streamed
give chunk (cs, r) = (chunk ∷ cs, r)

-- The test of the return code, on a system that has SIGPIPE.
unfoldable pub check_exit : Bool → ReturnCode → Result StreamError (Unit {0})
check_exit shutdown (exited n) =
    if not (n == 0) && not shutdown then err (process_failed (exited n)) else ok tt
check_exit shutdown (signalled n) =
    if not (n == 13) && not shutdown then err (process_failed (signalled n)) else ok tt

abbrev pub then_wait : Bool → ReturnCode → Streamed → Streamed
then_wait shutdown code (cs, ok _) = (cs, check_exit shutdown code)
then_wait shutdown code (cs, err e) = (cs, err e)

module _ (chunk_size startup_timeout inactivity_timeout : ℕ) where
  -- The loop: `first` is whether no chunk has come yet. After the turns of the list the output ends.
  unfoldable pub stream_loop : Bool → List ℕ → List Turn → Streamed
  stream_loop first accumulated [] = flush accumulated
  stream_loop first accumulated (shut_down ∷ turns) = flush accumulated
  stream_loop first accumulated (no_answer ∷ turns) =
      ([], err (streaming_timeout (if first then startup_timeout else inactivity_timeout)))
  stream_loop first accumulated (received chunk ∷ turns) =
      let extended = accumulated ++ chunk in
      let on = stream_loop false extended turns in
      let after = stream_loop false (drop chunk_size extended) turns in
      if is_empty chunk
      then flush accumulated
      else (if leb chunk_size (length extended) then give (take chunk_size extended) after else on)

  unfoldable pub stream_subprocess_with_watchdog : List Turn → Bool → ReturnCode → Streamed
  unfolding stream_loop check_exit
  stream_subprocess_with_watchdog turns shutdown code =
      then_wait shutdown code (stream_loop true [] turns)
