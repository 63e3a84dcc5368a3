-- ===== src/Examples/Settings.antt =====
-- The theorems on the configuration at concrete files.
use mtop.Base.{
  List, lowercase, tolower, is_space, trim, ◌≡◌, ◌++◌, refl, true, false, [], ◌∷◌, Bytes, str, none,
  beq, inr,
}
use mtop.Config.Bounds.{InRange, load_config-InRange}
use mtop.Config.Files.{
  split_lines, write_lines, create_and_write, join_lines, persist_file, Disk, readable, Writing,
  written, persist_view_profile, load_config, load_lines, update_lines, desired_line,
  sets_view_profile,
}
use mtop.Config.Persist.{
  SetsNever, SetsTo, SetsAtMostOnce, with_profile, load_lines-update_lines_shadowed,
}
use mtop.Config.RoundTrip.{lines_of, store, load_config-persist_view_profile}
use mtop.Config.{split_eq, default_config}
use mtop.View.{parse_view_profile, trim_lower, alpha, beta}

-- One file, at any path.
abbrev pub disk : Disk
disk = record {
  home = none;
  file = λ path. readable (str "theme=mono" ++ (10 ∷ str "refresh_ms=7"));
}

abbrev pub writing : Writing
writing = record {
  has_parent = false;
  parent = [];
  directory_error = none;
  opens = true;
  completes = true;
}

load_config-InRange_example : InRange (load_config disk (str "mtop.conf"))
load_config-InRange_example = load_config-InRange disk (str "mtop.conf")

sets : sets_view_profile (str "view_profile = alpha") ≡ true
unfolding sets_view_profile trim str split_eq beq is_space
sets = refl

once : SetsAtMostOnce (lines_of (disk.file (str "mtop.conf")))
unfolding sets_view_profile trim str split_eq beq is_space split_lines
once = inr (refl, inr (refl, tt))

abbrev new_content : Bytes
new_content = join_lines (update_lines beta (str "theme=mono" ∷ str "refresh_ms=7" ∷ []))

is_written : persist_view_profile disk writing (str "mtop.conf") beta ≡ written new_content
unfolding persist_view_profile persist_file create_and_write write_lines split_lines str
is_written = refl

-- Between a line that sets nothing of it and another one, two lines set the profile.
abbrev twice : List Bytes
twice =
    (str "theme=mono" ∷ [])
    ++ (str "view_profile = alpha" ∷ ([] ++ (str "view_profile= Alpha" ∷ str "refresh_ms=7" ∷ [])))

never_before : SetsNever (str "theme=mono" ∷ [])
unfolding sets_view_profile trim str split_eq beq is_space
never_before = (refl, tt)

never_after : SetsNever (str "refresh_ms=7" ∷ [])
unfolding sets_view_profile trim str split_eq beq is_space
never_after = (refl, tt)

last_sets : SetsTo alpha (str "view_profile= Alpha")
unfolding sets_view_profile trim str split_eq beq is_space parse_view_profile trim_lower lowercase
    tolower
last_sets = (refl, (str "view_profile", str " Alpha", refl, refl))

load_lines-update_lines_shadowed_example :
    (update_lines beta twice
      ≡ (str "theme=mono" ∷ [])
        ++ (desired_line beta ∷ ([] ++ (str "view_profile= Alpha" ∷ str "refresh_ms=7" ∷ []))))
    × ((load_lines (update_lines beta twice) default_config).view_profile ≡ alpha)
load_lines-update_lines_shadowed_example =
    load_lines-update_lines_shadowed beta alpha (str "theme=mono" ∷ []) (str "view_profile = alpha")
      [] (str "view_profile= Alpha") (str "refresh_ms=7" ∷ []) default_config never_before sets
      last_sets never_after

load_config-persist_view_profile_example :
    load_config (store disk (str "mtop.conf") new_content) (str "mtop.conf")
    ≡ with_profile (load_config disk (str "mtop.conf")) beta
unfolding str
load_config-persist_view_profile_example =
    load_config-persist_view_profile disk writing (str "mtop.conf") beta once is_written
