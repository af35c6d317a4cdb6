-- ===== src/Dump/Laws/Contents.antt =====
-- What a dump holds, by the names in the tree.
use flux_guard.Base.{
  ℕ, zero, suc, ◌≡◌, refl, sym, ap, ◌⊎◌, Bool, true, not, ◌&&◌, Option, none, some, List, [], ◌∷◌,
  ◌++◌, append_assoc, arith, if◌then◌else◌, Text, codes, same, starts_with, subst, Bool-cases, inl,
  inr,
}
use flux_guard.Metrics.{join_lines}
use flux_guard.Dashboard.Scrape.{contains}
use flux_guard.Dump.{
  Content, text, failed, Dir, exclude_dirs, exclude_files, exclude_extensions, ends_with,
  ends_with_any, should_skip_file, is_kept, content_of, file_block, dump_dir, rule,
}
use flux_guard.Dump.Laws.Walk.{Walk, all_entries-Walk}
use flux_guard.Dump.Laws.{Entry, all_entries, all_kept, is_dumped, blocks, dump-blocks}

-- The names that a dump leaves out.
abbrev pub media : List Text
media =
    codes ".png"
    ∷ codes ".jpg"
    ∷ codes ".jpeg"
    ∷ codes ".gif"
    ∷ codes ".svg"
    ∷ codes ".ico"
    ∷ codes ".webp"
    ∷ codes ".woff"
    ∷ codes ".woff2"
    ∷ codes ".ttf"
    ∷ codes ".eot"
    ∷ codes ".mp4"
    ∷ codes ".mp3"
    ∷ codes ".wav"
    ∷ codes ".pdf"
    ∷ codes ".zip"
    ∷ codes ".tar"
    ∷ codes ".gz"
    ∷ []

abbrev pub ignored_files : List Text
ignored_files =
    codes "dump_codebase.py"
    ∷ codes ".DS_Store"
    ∷ codes "package-lock.json"
    ∷ codes "yarn.lock"
    ∷ []

abbrev pub ignored_dirs : List Text
ignored_dirs =
    codes "node_modules"
    ∷ codes "coverage"
    ∷ codes "build"
    ∷ codes ".git"
    ∷ codes "__pycache__"
    ∷ codes "dist"
    ∷ codes ".next"
    ∷ []

-- A file by one of the names, or of one of the kinds.
abbrev pub IsIgnored : Text → Type 0
IsIgnored name =
    (contains name ignored_files ≡ true)
    ⊎ ((stem : Text) × (kind : Text) × (contains kind media ≡ true) × (name ≡ stem ++ kind))

-- A directory by one of the names, or with a dot before its name.
abbrev pub IsHidden : Text → Type 0
IsHidden d = (contains d ignored_dirs ≡ true) ⊎ ((rest : Text) × (d ≡ b'.' ∷ rest))

abbrev pub AnyHidden : List Text → Type 0
AnyHidden [] = ⊥
AnyHidden (d ∷ path) = IsHidden d ⊎ AnyHidden path

abbrev pub LeftOut : Entry → Type 0
LeftOut e = AnyHidden e.path ⊎ IsIgnored e.name

abbrev pub repeat : ℕ → ℕ → Text
repeat zero c = []
repeat (suc n) c = c ∷ repeat n c

-- The text of a file, or why there is none.
abbrev pub body : Option Content → Text
body none = []
body (some (text t)) = t
body (some (failed e)) = codes "<Error reading file: " ++ e ++ codes ">"

-- A heading of four lines, the text of the file, and two line ends.
abbrev pub section : Entry → Text
section e =
    join_lines (repeat 60 b'=' ∷ (codes "File: " ++ e.name) ∷ repeat 60 b'=' ∷ [] ∷ [])
    ++ body e.content
    ++ (b'\n' ∷ b'\n' ∷ [])

-- The sections of the files that are not left out, in the order of the entries.
abbrev pub Sections : List Entry → Text → Type 0
Sections [] t = t ≡ []
Sections (e ∷ es) t =
    (LeftOut e × Sections es t)
    ⊎ ((LeftOut e → ⊥) × (rest : Text) × Sections es rest × (t ≡ section e ++ rest))

ends_with-append :
    (s suffix : Text) → ends_with s suffix ≡ true → (stem : Text) × (s ≡ stem ++ suffix)
unfolding ends_with
ends_with-append [] suffix h = ([], ground (arith, h))
ends_with-append (c ∷ s) suffix h = elim (Bool-cases (same (c ∷ s) suffix)) [
  | inl whole ↦ ([], ground (arith, whole))
  | inr part ↦
      let (stem, e) = ends_with-append s suffix (ground (arith, h, part)) in
      (c ∷ stem, ap (λ t. c ∷ t) e)
]

ends_with_self : (suffix : Text) → ends_with suffix suffix ≡ true
unfolding ends_with
ends_with_self [] = ground arith
ends_with_self (c ∷ suffix) = ground arith

append-ends_with : (stem suffix : Text) → ends_with (stem ++ suffix) suffix ≡ true
unfolding ends_with
append-ends_with [] suffix = ends_with_self suffix
append-ends_with (c ∷ stem) suffix = ground (arith, append-ends_with stem suffix)

ends_with_any-found :
    (s : Text) (kinds : List Text)
    → ends_with_any s kinds ≡ true
    → (stem : Text) × (kind : Text) × (contains kind kinds ≡ true) × (s ≡ stem ++ kind)
unfolding ends_with_any contains
ends_with_any-found s [] h = absurd (ground (arith, h))
ends_with_any-found s (k ∷ kinds) h = elim (Bool-cases (ends_with s k)) [
  | inl here ↦ let (stem, e) = ends_with-append s k here in (stem, k, ground arith, e)
  | inr there ↦
      let (stem, kind, c, e) = ends_with_any-found s kinds (ground (arith, h, there)) in
      (stem, kind, ground (arith, c), e)
]

found-ends_with_any :
    (stem kind : Text) (kinds : List Text)
    → contains kind kinds ≡ true
    → ends_with_any (stem ++ kind) kinds ≡ true
unfolding ends_with_any contains
found-ends_with_any stem kind [] c = absurd (ground (arith, c))
found-ends_with_any stem kind (k ∷ kinds) c = elim (Bool-cases (same kind k)) [
  | inl here ↦
      let e : kind ≡ k = ground (arith, here) in
      let ends : ends_with (stem ++ kind) k ≡ true =
        subst (λ x. ends_with (stem ++ kind) x ≡ true) e (append-ends_with stem kind) in
      ground (arith, ends)
  | inr there ↦
      let rest = found-ends_with_any stem kind kinds (ground (arith, c, there)) in
      ground (arith, rest)
]

-- What a test decides.
abbrev Decides : Bool → Type 0 → Type 0
Decides b Q = (b ≡ true → Q) × (Q → b ≡ true)

should_skip_file-IsIgnored : (name : Text) → Decides (should_skip_file name) (IsIgnored name)
unfolding should_skip_file
should_skip_file-IsIgnored name = (to, from)
  where
    to : should_skip_file name ≡ true → IsIgnored name
    to h = elim (Bool-cases (contains name exclude_files)) [
      | inl named ↦ inl named
      | inr other ↦ inr (ends_with_any-found name exclude_extensions (ground (arith, h, other)))
    ]

    from : IsIgnored name → should_skip_file name ≡ true
    from (inl named) = ground (arith, named)
    from (inr (stem, kind, c, e)) =
        let ends : ends_with_any name exclude_extensions ≡ true =
          subst (λ t. ends_with_any t exclude_extensions ≡ true) (sym e)
            (found-ends_with_any stem kind exclude_extensions c) in
        ground (arith, ends)

is_kept-IsHidden : (d : Text) → Decides (not (is_kept d)) (IsHidden d)
unfolding is_kept starts_with
is_kept-IsHidden [] = (
  λ h. inl (ground (arith, h)),
  λ h. elim h [ inl named ↦ ground (arith, named) | inr (rest, e) ↦ absurd (ground (arith, e)) ],
)
is_kept-IsHidden (c ∷ d) = (to, from)
  where
    to : not (is_kept (c ∷ d)) ≡ true → IsHidden (c ∷ d)
    to h = elim (Bool-cases (contains (c ∷ d) exclude_dirs)) [
      | inl named ↦ inl named
      | inr other ↦ inr (d, ground (arith, h, other))
    ]

    from : IsHidden (c ∷ d) → not (is_kept (c ∷ d)) ≡ true
    from (inl named) = ground (arith, named)
    from (inr (rest, e)) = ground (arith, e)

is_kept_or :
    (d : Text) (path : List Text) (Q : Type 0)
    → Decides (not (all_kept path)) Q
    → Decides (not (is_kept d && all_kept path)) (IsHidden d ⊎ Q)
is_kept_or d path Q ih = (to, from)
  where
    to : not (is_kept d && all_kept path) ≡ true → IsHidden d ⊎ Q
    to h = elim (Bool-cases (not (is_kept d))) [
      | inl hidden ↦ inl ((is_kept-IsHidden d).0 hidden)
      | inr kept ↦ inr (ih.0 (ground (arith, h, kept)))
    ]

    from : IsHidden d ⊎ Q → not (is_kept d && all_kept path) ≡ true
    from (inl hidden) = ground (arith, (is_kept-IsHidden d).1 hidden)
    from (inr later) = ground (arith, ih.1 later)

all_kept-AnyHidden : (path : List Text) → Decides (not (all_kept path)) (AnyHidden path)
all_kept-AnyHidden [] = (λ h. absurd (ground (arith, h)), λ h. absurd h)
all_kept-AnyHidden (d ∷ path) = is_kept_or d path (AnyHidden path) (all_kept-AnyHidden path)

is_dumped-LeftOut : (e : Entry) → Decides (not (is_dumped e)) (LeftOut e)
is_dumped-LeftOut e = (to, from)
  where
    to : not (is_dumped e) ≡ true → LeftOut e
    to h = elim (Bool-cases (not (all_kept e.path))) [
      | inl hidden ↦ inl ((all_kept-AnyHidden e.path).0 hidden)
      | inr kept ↦ inr ((should_skip_file-IsIgnored e.name).0 (ground (arith, h, kept)))
    ]

    from : LeftOut e → not (is_dumped e) ≡ true
    from (inl hidden) = ground (arith, (all_kept-AnyHidden e.path).1 hidden)
    from (inr ignored) = ground (arith, (should_skip_file-IsIgnored e.name).1 ignored)

content_of-body : (o : Option Content) → content_of o ≡ body o
unfolding content_of
content_of-body none = refl
content_of-body (some (text t)) = refl
content_of-body (some (failed e)) = refl

file_block-section : (e : Entry) → file_block e.name e.content ≡ section e
unfolding file_block join_lines
file_block-section e =
    let end : Text = b'\n' ∷ b'\n' ∷ [] in
    rw (content_of-body e.content) (
      ap (λ t. (rule ++ (b'\n' ∷ codes "File: ")) ++ ((t ++ body e.content) ++ end))
        (append_assoc e.name (b'\n' ∷ rule) end))

blocks-Sections : (es : List Entry) → Sections es (blocks es)
blocks-Sections [] = refl
blocks-Sections (e ∷ es) = elim (Bool-cases (is_dumped e)) [
  | inl kept ↦ inr (
    λ out. absurd (ground (arith, kept, (is_dumped-LeftOut e).1 out)),
    blocks es,
    blocks-Sections es,
    rw (kept, if◌then◌else◌) (ap (λ t. t ++ blocks es) (file_block-section e)),
  )
  | inr out ↦ inl (
    (is_dumped-LeftOut e).0 (ground (arith, out)),
    subst (Sections es) (ground (arith, out)) (blocks-Sections es),
  )
]

-- What the script writes for a tree is one section after the other, for the files of a walk of the
-- tree that takes the files of each directory in ascending order of their names and then the
-- directories in it, but for those whose name, or a directory on the way to them, is left out: each
-- section is the heading with the file's name, then its text, or the text of the error in reading it.
pub dump_dir-Sections :
    (tree : Dir) → (es : List Entry) × Walk [] tree es × Sections es (dump_dir tree)
dump_dir-Sections tree = (
  all_entries [] tree,
  all_entries-Walk [] tree,
  subst (Sections (all_entries [] tree)) (sym (dump-blocks tree))
      (blocks-Sections (all_entries [] tree)),
)
