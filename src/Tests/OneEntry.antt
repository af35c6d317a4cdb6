-- ===== src/Tests/OneEntry.antt =====
-- A kernel whose only entry can be written and deleted, in its blacklist.
use flux_guard.Base.{
  ◌^◌, ℕ, ◌≡◌, ◌≤◌, refl, true, ◌&&◌, Option, none, some, [], ◌∷◌, ◌==◌, arith, if◌then◌else◌, Text,
  same, text_dec, length, inl, inr, Bool-cases, ==_iff,
}
use flux_guard.Base.Dict.{Dict, lookup, NodupKeys}
use flux_guard.Address.{IsPacked}
use flux_guard.Address.Ipv4
use flux_guard.Address.Ipv4.Plain
use flux_guard.Address.Ipv4.RoundTrip
use flux_guard.Bpf.{Bpf, Reply, reply, failed, enoent}
use flux_guard.Bpf.Dump.{AllPacked}
use flux_guard.Bpf.Keys.{ipv4, ipv4-IsCodec}
use flux_guard.Bpf.Laws.{HashMaps, IsHashMaps, or_enoent, succeeded}
use flux_guard.Brain.State.{Platform, Checkpoint, parsed}
use flux_guard.Brain.Expire.Returns.{Addressed}
use flux_guard.Brain.Blacklist.{Blacklist}
use flux_guard.Brain.Expire.Unblocks.{Deletes}
use flux_guard.Brain.Tick.Returns.{Serves}
use flux_guard.Brain.Tick.Saved.{as_floats}
use flux_guard.Tests.Sim.{pins, next}
use flux_guard.Tests.Total.{eperm, fds}

abbrev pub host : Text
host = 10 ∷ 0 ∷ 0 ∷ 7 ∷ []

abbrev e2big : ℕ
e2big = 7

abbrev pub contents : Option ℕ → ℕ → Dict ℕ
contents none fd = []
contents (some v) fd = if fd == 4 then (host, v) ∷ [] else []

abbrev delete : ℕ → Text → Option ℕ → Reply (Unit {0}) × Option ℕ
delete fd k none = (failed enoent, none)
delete fd k (some v) = if fd == 4 && same k host then (reply tt, none) else (failed enoent, some v)

-- There is room for one entry only.
abbrev update : ℕ → Text → ℕ → Option ℕ → Reply (Unit {0}) × Option ℕ
update fd k v s = if fd == 4 && same k host then (reply tt, some v) else (failed e2big, s)

abbrev pub kernel : Bpf
kernel = record {
  State = Option ℕ;
  obj_get = λ path s. (or_enoent (lookup path pins), s);
  lookup_elem = λ fd k s. (or_enoent (lookup k (contents s fd)), s);
  lookup_percpu = λ fd k s. (failed eperm, s);
  lookup_bucket = λ fd k s. (failed eperm, s);
  update_elem = update;
  delete_elem = delete;
  get_next_key = λ fd k s. (next k (contents s fd), s);
}

abbrev pub maps : HashMaps kernel
maps = record { entries = λ fd s. contents s fd; map_id = λ fd. fd }

deleted :
    (v g : ℕ) (j : Text)
    → none ≡ (if g == 4 && same j host then none else lookup j (contents (some v) g))
unfolding lookup
deleted v g j = ground arith

written :
    (v g : ℕ) (j : Text) (s : Option ℕ)
    → lookup j (contents (some v) g)
      ≡ (if g == 4 && same j host then some v else lookup j (contents s g))
unfolding lookup
written v g j none = ground arith
written v g j (some u) = ground arith

delete_law :
    (fd : ℕ) (k : Text) (s : Option ℕ) (g : ℕ) (j : Text)
    → lookup j (contents (delete fd k s).1 g) ≡ (
        if succeeded (delete fd k s).0 && (g == fd && same j k)
        then none
        else lookup j (contents s g))
unfolding lookup text_dec
delete_law fd k none g j = refl
delete_law fd k (some v) g j = elim (Bool-cases (fd == 4)) [
  | inr other ↦ rw (other, if◌then◌else◌)
  | inl four ↦ elim (text_dec k host) [
    | no n ↦ ground (arith, four, n)
    | yes q ↦ rw (q, (==_iff fd 4).0 four) (deleted v g j)
  ]
]

update_law :
    (fd : ℕ) (k : Text) (v : ℕ) (s : Option ℕ) (g : ℕ) (j : Text)
    → lookup j (contents (update fd k v s).1 g) ≡ (
        if succeeded (update fd k v s).0 && (g == fd && same j k)
        then some v
        else lookup j (contents s g))
unfolding lookup text_dec
update_law fd k v s g j = elim (Bool-cases (fd == 4)) [
  | inr other ↦ rw (other, if◌then◌else◌)
  | inl four ↦ elim (text_dec k host) [
    | no n ↦ ground (arith, four, n)
    | yes q ↦ rw (q, (==_iff fd 4).0 four) (written v g j s)
  ]
]

one_key : (s : Option ℕ) (fd : ℕ) → NodupKeys (contents s fd)
unfolding lookup
one_key none fd = tt
one_key (some v) fd = ground arith

kernel-IsHashMaps : IsHashMaps kernel maps
unfolding next lookup
kernel-IsHashMaps = record {
  nodup = λ fd s. one_key s fd;
  lookup_lem = λ fd k s. refl;
  first_lem = λ fd s. refl;
  next_lem = λ fd k v s h. refl;
  update_lem = update_law;
  delete_lem = delete_law;
  bucket_lem = λ fd k s g. refl;
  get_lem = λ path s g. refl;
}

-- Both families are written in dotted decimal here.
abbrev pub lab : Platform
lab = record {
  floats = record { one = 2 ^ 56; tenth = 7_205_759_403_792_794; nearest = λ z. z };
  log_open = none;
  log_error = λ lines. none;
  bpf = kernel;
  Disk = Checkpoint;
  read = λ d. d;
  write = λ d b. parsed (as_floats b);
  v4 = ipv4;
  v6 = ipv4;
  fuel = 1;
}

served : (fd : ℕ) (s : Option ℕ) → AllPacked 4 (contents s fd) × (length (contents s fd) ≤ 1)
served fd none = (tt, omega arith)
served fd (some v) = ground arith

text : (k : Text) → IsPacked 4 k → Addressed lab (ipv4.format k)
text k h = ground (arith, Ipv4.RoundTrip.parse-format k h)

pub lab-Serves : Serves lab maps fds
lab-Serves = record {
  laws = kernel-IsHashMaps;
  codec_v4 = ipv4-IsCodec;
  codec_v6 = ipv4-IsCodec;
  allowlist = λ s. served 5 s;
  blacklist = λ s. served 4 s;
  meter = λ s. served 3 s;
  allowlist_v6 = tt;
  blacklist_v6 = tt;
  meter_v6 = tt;
  text_v4 = text;
  text_v6 = text;
  log_opens = refl;
  log = λ lines. refl;
}

pub lab-Blacklist : Blacklist lab maps fds
lab-Blacklist = record {
  laws = kernel-IsHashMaps;
  codec = ipv4-IsCodec;
  canonical = λ ip k p. Ipv4.RoundTrip.format-parse ip k p;
  plain = λ k h. Ipv4.Plain.format-plain k h.1;
  apart = λ fd e. ground (arith, e);
}

willing :
    (fd : ℕ) (k : Text) (v : ℕ) (s : Option ℕ)
    → lookup k (contents s fd) ≡ some v
    → succeeded (delete fd k s).0 ≡ true
unfolding lookup
willing fd k v none h = ground (arith, h)
willing fd k v (some u) h = ground (arith, h)

pub lab-Deletes : Deletes lab maps fds
lab-Deletes = record { map = lab-Blacklist; willing = willing }

pub host-IsPacked : IsPacked 4 host
host-IsPacked = ground arith
