-- ===== src/Api/Listing.antt =====
-- A change of the allowlist, and the listing by a request after it.
use flux_guard.Base.{
  ℕ, true, false, ◌≡◌, refl, subst, inl, inr, sym, ap, ◌∙◌, ◌≤◌, Option, none, some, List, [], ◌∷◌,
  arith, if◌then◌else◌, Text, same, length, ==_iff, zero, suc,
}
use flux_guard.Base.Dict.{Dict, lookup, contains_key, keys}
use flux_guard.Base.Exec.{ok}
use flux_guard.Address.{Codec, IsCodec, IsPacked}
use flux_guard.Bpf.{Bpf, set_map_u32, del_map_u32, dump_map_u32_v6}
use flux_guard.Bpf.Laws.{HashMaps, IsHashMaps, IsWritten}
use flux_guard.Bpf.Dump.{AllPacked, shown, lookup-shown, dump_map_u32_lem}
use flux_guard.Brain.State.{if_open}
use flux_guard.Metrics.{sorted_texts}
use flux_guard.Dashboard.Scrape.{contains}
use flux_guard.Dashboard.Scrape.Contents.{contains-sorted_texts}
use flux_guard.Config.{str}
use flux_guard.Config.Python.{Python, is_falsy}
use flux_guard.Api.{
  get, post, delete, Request, listed, added, deleted, answer, MapFds, check_auth, require,
  list_maps, change_v4, change_by, change, change_given, allowlist, handle, given_ip, change_value,
}
use flux_guard.Api.Answers.{set_map_u32-Answered, del_map_u32-Answered}

contains-keys : {V : Type 0} (k : Text) (d : Dict V) → contains k (keys d) ≡ contains_key k d
unfolding contains contains_key lookup
contains-keys k [] = refl
contains-keys k ((j, v) ∷ d) = ground (arith, contains-keys k d)

module _ (B : Bpf) (M : HashMaps B) where
  -- A map whose keys have the family's width, and fuel for each of its entries.
  abbrev pub IsDumpable : Codec → ℕ → ℕ → B.State → Type 0
  IsDumpable c fuel fd s = AllPacked c.width (M.entries fd s) × (length (M.entries fd s) ≤ fuel)

  abbrev pub AllDumpable : Codec → ℕ → Option ℕ → B.State → Type 0
  AllDumpable c fuel none s = Unit
  AllDumpable c fuel (some fd) s = IsDumpable c fuel fd s

module _ (B : Bpf) (Y : Python) (M : HashMaps B) (H : IsHashMaps B M) (v4 v6 : Codec)
    (L4 : IsCodec v4) (L6 : IsCodec v6) (fuel : ℕ) (fds : MapFds) where
  dump_other :
      (o : Option ℕ) (s : B.State)
      → AllDumpable B M v6 fuel o s
      → (d : Dict ℕ) × (if_open o (dump_map_u32_v6 B v6 fuel) (λ s. (ok [], s)) s ≡ (ok d, s))
  dump_other none s h = ([], refl)
  dump_other (some zero) s h = ([], refl)
  dump_other (some (suc fd)) s (p, f) =
      (shown v6 (M.entries (suc fd) s), dump_map_u32_lem B M H v6 L6 fuel (suc fd) s p f)

  list_maps_lem :
      (fd : ℕ) (o : Option ℕ) (s : B.State) (j : Text)
      → IsPacked v4.width j
      → IsDumpable B M v4 fuel fd s
      → AllDumpable B M v6 fuel o s
      → (l4 : List Text) × (l6 : List Text) × (list_maps B Y v4 v6 fuel fds (some fd) o s
          ≡ (ok (listed l4 l6), s))
        × (contains (v4.format j) l4 ≡ contains_key j (M.entries fd s))
  unfolding list_maps require contains_key
  list_maps_lem fd o s j pj (p, f) h =
      let (d, e) = dump_other o s h in
      let shown_as = shown v4 (M.entries fd s) in
      (
        sorted_texts (keys shown_as),
        sorted_texts (keys d),
        ground (arith, dump_map_u32_lem B M H v4 L4 fuel fd s p f, e),
        contains-sorted_texts (v4.format j) (keys shown_as)
            ∙ contains-keys (v4.format j) shown_as
            ∙ ground (arith, lookup-shown v4 L4 j (M.entries fd s) pj p),
      )

  -- Authorized requests, with a map open for IPv4.
  module _ (token : Text) (req reader : Request) (fd ch : ℕ) (ip k : Text)
      (authorized : check_auth token req.authorization ≡ true)
      (reads : check_auth token reader.authorization ≡ true) (gets : reader.method ≡ get)
      (opened : fds.allowlist ≡ some fd) (given : given_ip Y req.body ≡ ok (some (str (ch ∷ ip))))
      (valid : v4.parse (ch ∷ ip) ≡ some k) where
    post-IsWritten :
        (s s' : B.State)
        → req.method ≡ post
        → handle B Y v4 v6 fuel fds token req s ≡ (ok (added (str (ch ∷ ip))), s')
        → IsWritten M fd k (some 1) s s'
    unfolding handle allowlist change_given change_value is_falsy change change_by require change_v4
    post-IsWritten s s' m e =
        let run = answer B (set_map_u32 B v4 fd (ch ∷ ip) 1) (added (str (ch ∷ ip))) s in
        let same_run : run ≡ (ok (added (str (ch ∷ ip))), s') =
          sym (ground (arith, authorized, m, given, valid, opened)) ∙ e in
        elim (set_map_u32-Answered B M H v4 fd (ch ∷ ip) k (added (str (ch ∷ ip))) s valid) [
          | inl (r, written) ↦ subst (IsWritten M fd k (some 1) s) (ap (λ z. z.1) same_run) written
          | inr (status, r, same_maps) ↦ ground (arith, same_run, r)
        ]

    delete-IsWritten :
        (s s' : B.State)
        → req.method ≡ delete
        → handle B Y v4 v6 fuel fds token req s ≡ (ok (deleted (str (ch ∷ ip))), s')
        → IsWritten M fd k none s s'
    unfolding handle allowlist change_given change_value is_falsy change change_by require change_v4
    delete-IsWritten s s' m e =
        let run = answer B (del_map_u32 B v4 fd (ch ∷ ip)) (deleted (str (ch ∷ ip))) s in
        let same_run : run ≡ (ok (deleted (str (ch ∷ ip))), s') =
          sym (ground (arith, authorized, m, given, valid, opened)) ∙ e in
        elim (del_map_u32-Answered B M H v4 fd (ch ∷ ip) k (deleted (str (ch ∷ ip))) s valid) [
          | inl (r, written) ↦ subst (IsWritten M fd k none s) (ap (λ z. z.1) same_run) written
          | inr (status, r, same_maps) ↦ ground (arith, same_run, r)
        ]

    list-IsWritten :
        (o : Option ℕ) (s s' : B.State) (j : Text)
        → IsWritten M fd k o s s'
        → IsPacked v4.width j
        → IsDumpable B M v4 fuel fd s'
        → AllDumpable B M v6 fuel fds.allowlist_v6 s'
        → (l4 : List Text) × (l6 : List Text) × (handle B Y v4 v6 fuel fds token reader s'
            ≡ (ok (listed l4 l6), s'))
          × (contains (v4.format j) l4 ≡ (
              if same j k
              then (elim o [ none ↦ false | some v ↦ true ])
              else contains_key j (M.entries fd s)))
    unfolding handle allowlist contains_key
    list-IsWritten o s s' j w pj dump others =
        let (l4, l6, e, c) = list_maps_lem fd fds.allowlist_v6 s' j pj dump others in
        (
          l4,
          l6,
          ground (arith, reads, gets, opened, e),
          c ∙ ground (arith, w fd j, (==_iff (M.map_id fd) (M.map_id fd)).1 refl),
        )

    -- For hash maps as documented and lawful codecs, with maps whose keys have their family's width
    -- and fuel for each entry: after an authorized POST of an IPv4 address has been answered as
    -- done, an authorized GET lists that address, and besides it the IPv4 addresses that were in
    -- the map before, and leaves the state.
    pub post-listed :
        (s s' : B.State) (j : Text)
        → req.method ≡ post
        → handle B Y v4 v6 fuel fds token req s ≡ (ok (added (str (ch ∷ ip))), s')
        → IsPacked v4.width j
        → IsDumpable B M v4 fuel fd s'
        → AllDumpable B M v6 fuel fds.allowlist_v6 s'
        → (l4 : List Text) × (l6 : List Text) × (handle B Y v4 v6 fuel fds token reader s'
            ≡ (ok (listed l4 l6), s'))
          × (contains (v4.format j) l4
              ≡ (if same j k then true else contains_key j (M.entries fd s)))
    post-listed s s' j m e = list-IsWritten (some 1) s s' j (post-IsWritten s s' m e)

    -- For hash maps as documented and lawful codecs, with maps whose keys have their family's width
    -- and fuel for each entry: after an authorized DELETE of an IPv4 address has been answered as
    -- done, an authorized GET lists the IPv4 addresses that were in the map before except that
    -- one, and leaves the state.
    pub delete-listed :
        (s s' : B.State) (j : Text)
        → req.method ≡ delete
        → handle B Y v4 v6 fuel fds token req s ≡ (ok (deleted (str (ch ∷ ip))), s')
        → IsPacked v4.width j
        → IsDumpable B M v4 fuel fd s'
        → AllDumpable B M v6 fuel fds.allowlist_v6 s'
        → (l4 : List Text) × (l6 : List Text) × (handle B Y v4 v6 fuel fds token reader s'
            ≡ (ok (listed l4 l6), s'))
          × (contains (v4.format j) l4
              ≡ (if same j k then false else contains_key j (M.entries fd s)))
    delete-listed s s' j m e = list-IsWritten none s s' j (delete-IsWritten s s' m e)
