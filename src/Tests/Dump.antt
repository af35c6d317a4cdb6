-- ===== src/Tests/Dump.antt =====
-- A tree with a directory that is left out.
use flux_guard.Base.{List, ◌≡◌, refl, false, text_dec, [], ◌∷◌, codes}
use flux_guard.Dashboard.Scrape.{contains}
use flux_guard.Dump.{
  Dir, dir, no_dirs, sub, text, failed, dump_dir, should_skip_file, ends_with, ends_with_any,
}
use flux_guard.Dump.Laws.{Entry}
use flux_guard.Dump.Laws.Walk.{Walk}
use flux_guard.Dump.Laws.Contents.{Sections, dump_dir-Sections}

abbrev tree : Dir
tree = dir ((codes "README.md", text (codes "FluxGuard")) ∷ (codes "logo.png", text []) ∷ []) (
    sub (codes ".git") (dir ((codes "HEAD", text (codes "ref")) ∷ []) no_dirs)
      (sub (codes "src") (dir ((codes "a.py", failed (codes "gone")) ∷ []) no_dirs) no_dirs))

dump_dir-Sections_example : (es : List Entry) × Walk [] tree es × Sections es (dump_dir tree)
dump_dir-Sections_example = dump_dir-Sections tree

-- The file that the script writes is not left out by its name.
own_output : should_skip_file (codes "codebase_dump.txt") ≡ false
unfolding should_skip_file contains ends_with_any ends_with text_dec
own_output = refl
