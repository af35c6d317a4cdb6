-- ===== src/Dump.antt =====
-- scripts/dump_codebase.py: the text that it writes for a directory tree, with each file's contents
-- as they are when they are read.
pub mod Laws
use flux_guard.Base.{
  Bool, false, not, ◌||◌, ◌&&◌, Option, none, some, List, [], ◌∷◌, ◌++◌, if◌then◌else◌, Text, codes,
  same, starts_with,
}
use flux_guard.Base.Dict.{Dict, lookup, keys}
use flux_guard.Metrics.{sorted_texts}
use flux_guard.Dashboard.Scrape.{contains}

abbrev pub exclude_dirs : List Text
exclude_dirs =
    codes "node_modules"
    ∷ codes "coverage"
    ∷ codes "build"
    ∷ codes ".git"
    ∷ codes "__pycache__"
    ∷ codes "dist"
    ∷ codes ".next"
    ∷ []

abbrev pub exclude_files : List Text
exclude_files =
    codes "dump_codebase.py"
    ∷ codes ".DS_Store"
    ∷ codes "package-lock.json"
    ∷ codes "yarn.lock"
    ∷ []

abbrev pub exclude_extensions : List Text
exclude_extensions =
    codes ".png"
    ∷ codes ".jpg"
    ∷ codes ".jpeg"
    ∷ codes ".gif"
    ∷ codes ".svg"
    ∷ codes ".ico"
    ∷ codes ".webp"
    ∷ codes ".woff"
    ∷ codes ".woff2"
    ∷ codes ".ttf"
    ∷ codes ".eot"
    ∷ codes ".mp4"
    ∷ codes ".mp3"
    ∷ codes ".wav"
    ∷ codes ".pdf"
    ∷ codes ".zip"
    ∷ codes ".tar"
    ∷ codes ".gz"
    ∷ []

-- What reading a file gives: its text, or the text of the exception.
pub data Content : Type 0 where
  text failed : Text → Content

-- A directory: its files by name, and its directories in the order in which they are walked.
mutual
  pub data Dir : Type 0 where
    dir : Dict Content → Dirs → Dir

  pub data Dirs : Type 0 where
    no_dirs : Dirs
    sub : Text → Dir → Dirs → Dirs

-- `s.endswith(suffix)`
unfoldable pub ends_with : Text → Text → Bool
ends_with [] suffix = same [] suffix
ends_with (c ∷ s) suffix = same (c ∷ s) suffix || ends_with s suffix

unfoldable pub ends_with_any : Text → List Text → Bool
ends_with_any s [] = false
ends_with_any s (suffix ∷ suffixes) = ends_with s suffix || ends_with_any s suffixes

unfoldable pub should_skip_file : Text → Bool
should_skip_file file_name =
    contains file_name exclude_files || ends_with_any file_name exclude_extensions

-- `d not in EXCLUDE_DIRS and not d.startswith('.')`
unfoldable pub is_kept : Text → Bool
is_kept d = not (contains d exclude_dirs) && not (starts_with d (codes "."))

abbrev pub rule : Text
rule = codes "============================================================"

unfoldable pub content_of : Option Content → Text
content_of none = []
content_of (some (text t)) = t
content_of (some (failed e)) = codes "<Error reading file: " ++ (e ++ codes ">")

-- What is written for one file.
unfoldable pub file_block : Text → Option Content → Text
unfolding content_of
file_block file_name content =
    rule
    ++ (b'\n' ∷ codes "File: ")
    ++ file_name
    ++ (b'\n' ∷ rule)
    ++ (b'\n' ∷ b'\n' ∷ [])
    ++ content_of content
    ++ (b'\n' ∷ b'\n' ∷ [])

-- `for file_name in sorted(files)`
unfoldable pub dump_files : Dict Content → List Text → Text
dump_files files [] = []
dump_files files (file_name ∷ names) =
    let rest = dump_files files names in
    if should_skip_file file_name
    then rest
    else file_block file_name (lookup file_name files) ++ rest

-- `os.walk`, which goes into the directories that are kept.
unfoldable mutual
  pub dump_dir : Dir → Text
  dump_dir (dir files dirs) = dump_files files (sorted_texts (keys files)) ++ dump_dirs dirs

  pub dump_dirs : Dirs → Text
  dump_dirs no_dirs = []
  dump_dirs (sub d tree dirs) =
      let here = dump_dir tree in
      let rest = dump_dirs dirs in if is_kept d then here ++ rest else rest
