-- ===== src/Dump/Laws.antt =====
-- The walk that leaves directories out against the walk of the whole tree.
pub mod Contents
pub mod Walk
use flux_guard.Base.{
  ◌≡◌, refl, sym, ap, ◌∙◌, Bool, true, not, ◌&&◌, Option, List, [], ◌∷◌, ◌++◌, append_assoc, arith,
  if◌then◌else◌, Text,
}
use flux_guard.Base.Dict.{Dict, lookup, keys}
use flux_guard.Metrics.{sorted_texts}
use flux_guard.Dump.{
  Content, Dir, dir, Dirs, no_dirs, sub, should_skip_file, is_kept, file_block, dump_files,
  dump_dir, dump_dirs,
}

-- A file with the directories that lead to it from the root.
pub record Entry : Type 0 where
  pub path : List Text
  pub name : Text
  pub content : Option Content

abbrev pub all_files : List Text → Dict Content → List Text → List Entry
all_files path files [] = []
all_files path files (n ∷ names) =
    record { path = path; name = n; content = lookup n files } ∷ all_files path files names

-- Every file of the tree, in the order of the walk.
unfoldable mutual
  pub all_entries : List Text → Dir → List Entry
  all_entries path (dir files dirs) =
      all_files path files (sorted_texts (keys files)) ++ all_entries_in path dirs

  pub all_entries_in : List Text → Dirs → List Entry
  all_entries_in path no_dirs = []
  all_entries_in path (sub d tree dirs) =
      all_entries (path ++ d ∷ []) tree ++ all_entries_in path dirs

abbrev pub all_kept : List Text → Bool
all_kept [] = true
all_kept (d ∷ path) = is_kept d && all_kept path

-- The file and all directories on the way to it are kept.
abbrev pub is_dumped : Entry → Bool
is_dumped e = all_kept e.path && not (should_skip_file e.name)

-- The blocks of the files that are kept.
abbrev pub blocks : List Entry → Text
blocks [] = []
blocks (e ∷ es) = (if is_dumped e then file_block e.name e.content else []) ++ blocks es

blocks-append : (es fs : List Entry) → blocks (es ++ fs) ≡ blocks es ++ blocks fs
blocks-append [] fs = refl
blocks-append (e ∷ es) fs =
    ap (λ t. (if is_dumped e then file_block e.name e.content else []) ++ t) (blocks-append es fs)
    ∙ sym (append_assoc _ (blocks es) (blocks fs))

all_kept-append :
    (path : List Text) (d : Text) → all_kept (path ++ d ∷ []) ≡ all_kept path && is_kept d
all_kept-append [] d = ground arith
all_kept-append (c ∷ path) d = ground (arith, all_kept-append path d)

blocks-all_files :
    (path : List Text) (files : Dict Content) (names : List Text)
    → blocks (all_files path files names) ≡ (if all_kept path then dump_files files names else [])
unfolding dump_files
blocks-all_files path files [] = ground arith
blocks-all_files path files (n ∷ names) = ground (arith, blocks-all_files path files names)

mutual
  unfolding all_entries dump_dir

  blocks-all_entries :
      (path : List Text) (tree : Dir)
      → blocks (all_entries path tree) ≡ (if all_kept path then dump_dir tree else [])
  blocks-all_entries path (dir files dirs) =
      let names = sorted_texts (keys files) in
      blocks-append (all_files path files names) (all_entries_in path dirs)
      ∙ ground (arith, blocks-all_files path files names, blocks-all_entries_in path dirs)

  blocks-all_entries_in :
      (path : List Text) (dirs : Dirs)
      → blocks (all_entries_in path dirs) ≡ (if all_kept path then dump_dirs dirs else [])
  blocks-all_entries_in path no_dirs = ground arith
  blocks-all_entries_in path (sub d tree dirs) =
      blocks-append (all_entries (path ++ d ∷ []) tree) (all_entries_in path dirs)
      ∙ ground (
        arith,
        blocks-all_entries (path ++ d ∷ []) tree,
        blocks-all_entries_in path dirs,
        all_kept-append path d,
      )

pub dump-blocks : (tree : Dir) → dump_dir tree ≡ blocks (all_entries [] tree)
dump-blocks tree = sym (blocks-all_entries [] tree)
