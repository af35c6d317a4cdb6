-- ===== src/Api/Laws.antt =====
-- What a request to the allowlist can do to the maps.
use flux_guard.Base.{
  sym, ap, ◌∙◌, ℕ, zero, suc, ◌^◌, ◌≡◌, ◌≢◌, refl, Option, none, some, ltb, arith, if◌then◌else◌,
  Text, Bool-cases, inl, inr, ◌⊎◌,
}
use flux_guard.Base.Int.{pos, negsuc}
use flux_guard.Base.Exec.{Result, ok, err, Error, Exec}
use flux_guard.Address.{Codec, IsCodec, IsPacked}
use flux_guard.Bpf.{Bpf}
use flux_guard.Bpf.Laws.{HashMaps, IsHashMaps, IsWritten, SameMaps}
use flux_guard.Config.{Value, null, flag, int, float, str, array, object}
use flux_guard.Config.Python.{Python, is_falsy}
use flux_guard.Api.{
  Method, get, post, delete, head, Request, Response, added, deleted, aborted, MapFds, check_auth,
  given_ip, number_key, require, change_v4, change_v6, change_other, change_by, change,
  change_number_v4, change_number, change_value, change_given, allowlist, handle,
}
use flux_guard.Api.Answers.{
  Answered, update-Answered, delete-Answered, set_map_u32-Answered, del_map_u32-Answered,
}

-- The key that a value of JSON names in a family: an address as a text, or by its number.
abbrev number_of : Codec → ℕ → Option Text
number_of c n = if ltb n (256 ^ c.width) then some (number_key c.width n) else none

unfoldable pub key_of : Codec → Value → Option Text
key_of c (str ip) = c.parse ip
key_of c (int (pos n)) = number_of c n
key_of c (flag b) = number_of c (if b then 1 else 0)
key_of c other = none

-- What a method leaves under the key, and the answer that tells of it.
abbrev pub left_by : Method → Option ℕ
left_by post = some 1
left_by other = none

abbrev pub told_by : Method → Value → Response
told_by post ip = added ip
told_by other ip = deleted ip

-- The text that an IPv6 address is answered by: the canonical form of the text that was given, or
-- the text of its key.
unfoldable pub text_of : Python → Codec → Value → Text → Text
text_of Y v6 (str ip) k = Y.canonical_v6 ip
text_of Y v6 other k = v6.format k

-- What is documented of the canonical form: it is a text of the same address.
abbrev pub IsCanonical : Python → Codec → Type 0
IsCanonical Y v6 = (ip k : Text) → v6.parse ip ≡ some k → v6.parse (Y.canonical_v6 ip) ≡ some k

-- The request was turned down with an error status, and no map differs; or it was done for a value
-- that names an address of IPv4, or else one of IPv6, which is answered by its text, in the map
-- open for its family, and nothing else differs.
abbrev pub Changed :
    {B : Bpf}
    → HashMaps B
    → Python
    → Codec
    → Codec
    → MapFds
    → Method
    → Value
    → B.State
    → Result Response
    → B.State
    → Type 0
Changed M Y v4 v6 fds method ip s r s' =
    ((status : ℕ) × (r ≡ ok (aborted status)) × SameMaps M s s')
    ⊎ ((fd : ℕ) × (k : Text) × (fds.allowlist ≡ some fd)
        × (key_of v4 ip ≡ some k)
        × (r ≡ ok (told_by method ip))
        × IsWritten M fd k (left_by method) s s')
    ⊎ ((fd : ℕ) × (k : Text) × (fds.allowlist_v6 ≡ some fd)
        × (key_of v4 ip ≡ none)
        × (key_of v6 ip ≡ some k)
        × (r ≡ ok (told_by method (str (text_of Y v6 ip k))))
        × IsWritten M fd k (left_by method) s s')

-- The same of a request as it came: it was turned down, with an exception only where the body is
-- no dict; or the value under "ip" was handled.
abbrev pub Handled :
    {B : Bpf}
    → HashMaps B
    → Python
    → Codec
    → Codec
    → MapFds
    → Method
    → Result (Option Value)
    → B.State
    → Result Response
    → B.State
    → Type 0
Handled M Y v4 v6 fds method given s r s' =
    ((e : Error) × (given ≡ err e) × (r ≡ err e) × SameMaps M s s')
    ⊎ ((status : ℕ) × (r ≡ ok (aborted status)) × SameMaps M s s')
    ⊎ ((ip : Value) × (given ≡ ok (some ip)) × Changed M Y v4 v6 fds method ip s r s')

number_key-IsPacked : (width n : ℕ) → IsPacked width (number_key width n)
unfolding number_key
number_key-IsPacked zero n = (refl, tt)
number_key-IsPacked (suc width) n = ground (arith, number_key-IsPacked width n)

module _ (B : Bpf) (Y : Python) (M : HashMaps B) (H : IsHashMaps B M) (v4 v6 : Codec)
    (L : IsCodec v6) (C : IsCanonical Y v6) (fuel : ℕ) (fds : MapFds) where
  change_v4-Answered :
      (method : Method) (fd : ℕ) (ip k : Text) (s : B.State)
      → v4.parse ip ≡ some k
      → (let run = change_v4 B Y v4 v6 fuel fds method ip fd s in
          Answered M fd k (left_by method) (told_by method (str ip)) s run.0 run.1)
  unfolding change_v4
  change_v4-Answered get fd ip k s p = del_map_u32-Answered B M H v4 fd ip k (deleted (str ip)) s p
  change_v4-Answered post fd ip k s p = set_map_u32-Answered B M H v4 fd ip k (added (str ip)) s p
  change_v4-Answered delete fd ip k s p =
      del_map_u32-Answered B M H v4 fd ip k (deleted (str ip)) s p
  change_v4-Answered head fd ip k s p = del_map_u32-Answered B M H v4 fd ip k (deleted (str ip)) s p

  change_v6-Answered :
      (method : Method) (fd : ℕ) (canon k : Text) (s : B.State)
      → v6.parse canon ≡ some k
      → (let run = change_v6 B Y v4 v6 fuel fds method canon fd s in
          Answered M fd k (left_by method) (told_by method (str canon)) s run.0 run.1)
  unfolding change_v6
  change_v6-Answered get fd canon k s p =
      del_map_u32-Answered B M H v6 fd canon k (deleted (str canon)) s p
  change_v6-Answered post fd canon k s p =
      set_map_u32-Answered B M H v6 fd canon k (added (str canon)) s p
  change_v6-Answered delete fd canon k s p =
      del_map_u32-Answered B M H v6 fd canon k (deleted (str canon)) s p
  change_v6-Answered head fd canon k s p =
      del_map_u32-Answered B M H v6 fd canon k (deleted (str canon)) s p

  change_number_v4-Answered :
      (method : Method) (fd : ℕ) (ip : Value) (n : ℕ) (s : B.State)
      → (let run = change_number_v4 B Y v4 v6 fuel fds method ip n fd s in
          Answered M fd (number_key v4.width n) (left_by method) (told_by method ip) s run.0 run.1)
  unfolding change_number_v4
  change_number_v4-Answered get fd ip n s = delete-Answered B M H fd _ (deleted ip) s
  change_number_v4-Answered post fd ip n s = update-Answered B M H fd _ 1 (added ip) s
  change_number_v4-Answered delete fd ip n s = delete-Answered B M H fd _ (deleted ip) s
  change_number_v4-Answered head fd ip n s = delete-Answered B M H fd _ (deleted ip) s

  require-v4 :
      (method : Method) (ip : Value) (k : Text) (open_fd : Option ℕ) (m : ℕ → Exec B.State Response)
      (s : B.State)
      → fds.allowlist ≡ open_fd
      → key_of v4 ip ≡ some k
      → ((fd : ℕ) → Answered M fd k (left_by method) (told_by method ip) s (m fd s).0 (m fd s).1)
      → (let run = require B Y v4 v6 fuel fds open_fd m s in
          Changed M Y v4 v6 fds method ip s run.0 run.1)
  unfolding require
  require-v4 method ip k none m s e p h = inl (503, refl, λ g j. refl)
  require-v4 method ip k (some fd) m s e p h = elim (h fd) [
    | inl (r, written) ↦ inr (inl (fd, k, e, p, r, written))
    | inr refused ↦ inl refused
  ]

  require-v6 :
      (method : Method) (ip : Value) (canon k : Text) (open_fd : Option ℕ) (s : B.State)
      → fds.allowlist_v6 ≡ open_fd
      → key_of v4 ip ≡ none
      → key_of v6 ip ≡ some k
      → text_of Y v6 ip k ≡ canon
      → v6.parse canon ≡ some k
      → (let run =
            require B Y v4 v6 fuel fds open_fd (change_v6 B Y v4 v6 fuel fds method canon) s in
          Changed M Y v4 v6 fds method ip s run.0 run.1)
  unfolding require
  require-v6 method ip canon k none s e q p t c = inl (503, refl, λ g j. refl)
  require-v6 method ip canon k (some fd) s e q p t c =
      elim (change_v6-Answered method fd canon k s c) [
        | inl (r, written) ↦
            let told = r ∙ ap (λ x. ok (told_by method (str x))) (sym t) in
            inr (inr (fd, k, e, q, p, told, written))
        | inr refused ↦ inl refused
      ]

  change_other-Changed :
      (method : Method) (ip : Text) (o6 : Option Text) (s : B.State)
      → v4.parse ip ≡ none
      → v6.parse ip ≡ o6
      → (let run = change_other B Y v4 v6 fuel fds method ip o6 s in
          Changed M Y v4 v6 fds method (str ip) s run.0 run.1)
  unfolding change_other key_of text_of
  change_other-Changed method ip none s q p = inl (400, refl, λ g j. refl)
  change_other-Changed method ip (some k) s q p =
      require-v6 method (str ip) (Y.canonical_v6 ip) k fds.allowlist_v6 s refl q p refl (C ip k p)

  change_by-Changed :
      (method : Method) (ip : Text) (o4 : Option Text) (s : B.State)
      → v4.parse ip ≡ o4
      → (let run = change_by B Y v4 v6 fuel fds method ip o4 s in
          Changed M Y v4 v6 fds method (str ip) s run.0 run.1)
  unfolding change_by key_of
  change_by-Changed method ip none s p = change_other-Changed method ip (v6.parse ip) s p refl
  change_by-Changed method ip (some k) s p =
      require-v4 method (str ip) k fds.allowlist _ s refl p
        (λ fd. change_v4-Answered method fd ip k s p)

  change_number-Changed :
      (method : Method) (ip : Value) (n : ℕ) (s : B.State)
      → key_of v4 ip ≡ number_of v4 n
      → key_of v6 ip ≡ number_of v6 n
      → ((k : Text) → text_of Y v6 ip k ≡ v6.format k)
      → (let run = change_number B Y v4 v6 fuel fds method ip n s in
          Changed M Y v4 v6 fds method ip s run.0 run.1)
  unfolding change_number
  change_number-Changed method ip n s e4 e6 told = elim (Bool-cases (ltb n (256 ^ v4.width))) [
    | inl small ↦
        rw (small, if◌then◌else◌)
          (require-v4 method ip (number_key v4.width n) fds.allowlist _ s refl
            (ground (arith, e4, small)) (λ fd. change_number_v4-Answered method fd ip n s))
    | inr large ↦ elim (Bool-cases (ltb n (256 ^ v6.width))) [
      | inl fits ↦
          rw (large, fits, if◌then◌else◌)
            (require-v6 method ip (v6.format (number_key v6.width n)) (number_key v6.width n)
              fds.allowlist_v6 s refl (ground (arith, e4, large)) (ground (arith, e6, fits))
              (told (number_key v6.width n)) (L.parse-format _ (number_key-IsPacked v6.width n)))
      | inr huge ↦ rw (large, huge, if◌then◌else◌) (inl (400, refl, λ g j. refl))
    ]
  ]

  change_value-Changed :
      (method : Method) (ip : Value) (s : B.State)
      → (let run = change_value B Y v4 v6 fuel fds method ip s in
          Changed M Y v4 v6 fds method ip s run.0 run.1)
  unfolding change_value change key_of text_of
  change_value-Changed method (str ip) s = change_by-Changed method ip (v4.parse ip) s refl
  change_value-Changed method (int (pos n)) s =
      change_number-Changed method (int (pos n)) n s refl refl (λ k. refl)
  change_value-Changed method (int (negsuc n)) s = inl (400, refl, λ g j. refl)
  change_value-Changed method (flag b) s =
      change_number-Changed method (flag b) (if b then 1 else 0) s refl refl (λ k. refl)
  change_value-Changed method null s = inl (400, refl, λ g j. refl)
  change_value-Changed method (float t) s = inl (400, refl, λ g j. refl)
  change_value-Changed method (array vs) s = inl (400, refl, λ g j. refl)
  change_value-Changed method (object ms) s = inl (400, refl, λ g j. refl)

  change_given-Handled :
      (method : Method) (given : Result (Option Value)) (s : B.State)
      → (let run = change_given B Y v4 v6 fuel fds method given s in
          Handled M Y v4 v6 fds method given s run.0 run.1)
  unfolding change_given
  change_given-Handled method (err e) s = inl (e, refl, refl, λ g j. refl)
  change_given-Handled method (ok none) s = inr (inl (400, refl, λ g j. refl))
  change_given-Handled method (ok (some ip)) s = elim (Bool-cases (is_falsy Y ip)) [
    | inl falsy ↦ rw (falsy, if◌then◌else◌) (inr (inl (400, refl, λ g j. refl)))
    | inr truthy ↦
        rw (truthy, if◌then◌else◌) (inr (inr (ip, refl, change_value-Changed method ip s)))
  ]

  -- For hash maps as documented, a lawful IPv6 codec and a canonical form of the same address, a
  -- POST, DELETE or HEAD with any body, from anyone: either it is answered by an error status, or by an exception if its body is a value
  -- other than a dict, and no map differs; or its body has under "ip" the text or the number of an
  -- address, the answer tells of that address, and its key has got the value 1 in the allowlist of
  -- its family, or has gone from it, while nothing else differs.
  pub handle-change :
      (token : Text) (req : Request) (s : B.State)
      → req.method ≢ get
      → (let run = handle B Y v4 v6 fuel fds token req s in
          Handled M Y v4 v6 fds req.method (given_ip Y req.body) s run.0 run.1)
  unfolding handle allowlist
  handle-change token req s m = elim (Bool-cases (check_auth token req.authorization)) [
    | inl good ↦ rw (good, if◌then◌else◌) (by_method req.method m)
    | inr bad ↦ rw (bad, if◌then◌else◌) (inr (inl (401, refl, λ g j. refl)))
  ]
    where
      by_method :
          (method : Method)
          → method ≢ get
          → (let run = allowlist B Y v4 v6 fuel fds method req.body s in
              Handled M Y v4 v6 fds method (given_ip Y req.body) s run.0 run.1)
      by_method get m = absurd (m refl)
      by_method post m = change_given-Handled post (given_ip Y req.body) s
      by_method delete m = change_given-Handled delete (given_ip Y req.body) s
      by_method head m = change_given-Handled head (given_ip Y req.body) s
