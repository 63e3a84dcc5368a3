-- ===== src/Config/Files.antt =====
-- src/config.cpp: the file as lines, loading it, and rewriting its profile.
use mtop.Base.{
  ℕ, Bool, false, not, ◌==◌, if◌then◌else◌, List, [], ◌∷◌, ◌++◌, Option, none, some, is_nil, Bytes,
  str, beq, trim,
}
use mtop.View.{ViewProfile, view_profile_name}
use mtop.Config.{AppConfig, default_config, is_skipped, split_eq, parse_line}

abbrev pub push_byte : ℕ → List Bytes → List Bytes
push_byte c [] = (c ∷ []) ∷ []
push_byte c (l ∷ ls) = (c ∷ l) ∷ ls

-- The lines that std::getline reads: a newline ends a line, and the last line may lack it.
unfoldable pub split_lines : Bytes → List Bytes
split_lines [] = []
split_lines (c ∷ s) = if c == b'\n' then [] ∷ split_lines s else push_byte c (split_lines s)

-- `output << line << '\n'` for each line
unfoldable pub join_lines : List Bytes → Bytes
join_lines [] = []
join_lines (l ∷ ls) = l ++ (b'\n' ∷ join_lines ls)

-- the loop of `load_config`
unfoldable pub load_lines : List Bytes → AppConfig → AppConfig
load_lines [] config = config
load_lines (l ∷ ls) config = load_lines ls (parse_line (trim l) config)

-- What the file system holds at a path.
pub data File : Type 0 where
  missing unreadable : File
  readable : Bytes → File

-- `HOME`, if it is set, and the files by their paths.
pub record Disk : Type 0 where
  pub home : Option Bytes
  pub file : Bytes → File

-- `operator/` of std::filesystem::path puts a separator where the left side ends in a name.
abbrev needs_separator : Bytes → Bool
needs_separator [] = false
needs_separator (c ∷ []) = not (c == b'/')
needs_separator (c ∷ d ∷ path) = needs_separator (d ∷ path)

unfoldable pub default_config_path : Option Bytes → Bytes
default_config_path none = []
default_config_path (some home) =
    home ++ ((if needs_separator home then str "/" else []) ++ str ".config/mtop/config")

abbrev pub config_path : Disk → Bytes → Bytes
config_path disk explicit_path =
    if is_nil explicit_path then default_config_path disk.home else explicit_path

unfoldable pub load_file : File → AppConfig
load_file missing = default_config
load_file unreadable = default_config
load_file (readable content) = load_lines (split_lines content) default_config

unfoldable pub load_config : Disk → Bytes → AppConfig
unfolding default_config_path load_file
load_config disk explicit_path =
    let path = config_path disk explicit_path in
    if is_nil path then default_config else load_file (disk.file path)

-- the test of the loop in `persist_view_profile`
unfoldable pub sets_view_profile : Bytes → Bool
sets_view_profile line =
    let trimmed = trim line in
    if is_skipped trimmed then false else elim (split_eq trimmed) [
      | none ↦ false
      | some (key, value) ↦ beq (trim key) (str "view_profile")
    ]

unfoldable pub desired_line : ViewProfile → Bytes
desired_line profile = str "view_profile=" ++ view_profile_name profile

-- The loop and the `push_back` behind it: the first line that sets the profile is replaced, and if
-- there is none the new line goes to the end.
unfoldable pub update_lines : ViewProfile → List Bytes → List Bytes
update_lines profile [] = desired_line profile ∷ []
update_lines profile (l ∷ ls) =
    if sets_view_profile l then desired_line profile ∷ ls else l ∷ update_lines profile ls

-- How the file system answers: an error of create_directories by its message, and whether the file
-- can be opened for writing and written.
pub record Writing : Type 0 where
  pub has_parent : Bool
  pub parent : Bytes
  pub directory_error : Option Bytes
  pub opens : Bool
  pub completes : Bool

pub data Persisted : Type 0 where
  failed : Bytes → Persisted
  written : Bytes → Persisted

unfoldable pub write_lines : Bytes → Writing → List Bytes → Persisted
write_lines path w lines =
    if not w.opens
    then failed (str "could not write config file: " ++ path)
    else if not w.completes
    then failed (str "could not finish writing config file: " ++ path)
    else written (join_lines lines)

unfoldable pub create_and_write : Bytes → Writing → List Bytes → Persisted
unfolding write_lines
create_and_write path w lines =
    if w.has_parent
    then elim w.directory_error [
      | none ↦ write_lines path w lines
      | some message ↦
          failed (str "could not create config directory: " ++ (w.parent ++ (str ": " ++ message)))
    ]
    else write_lines path w lines

unfoldable pub persist_file : Bytes → Writing → ViewProfile → File → Persisted
unfolding create_and_write
persist_file path w profile missing = create_and_write path w (update_lines profile [])
persist_file path w profile unreadable = failed (str "could not read config file: " ++ path)
persist_file path w profile (readable content) =
    create_and_write path w (update_lines profile (split_lines content))

unfoldable pub persist_view_profile : Disk → Writing → Bytes → ViewProfile → Persisted
unfolding persist_file default_config_path
persist_view_profile disk w explicit_path profile =
    let path = config_path disk explicit_path in
    if is_nil path
    then failed (str "could not determine config path")
    else persist_file path w profile (disk.file path)
