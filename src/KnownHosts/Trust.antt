-- ===== src/KnownHosts/Trust.antt =====
-- Trust on first use in crates/synchrotron-git/src/known_hosts.rs.
use synchrotron.Base.{
  ℕ, ◌≡◌, ◌≢◌, ◌⊎◌, ◌∙◌, refl, sym, ap, inl, inr, Bool, true, false, not, Option, none, some, List,
  [], ◌∷◌, ◌++◌, ℕ_eq, List_eq, ◌==◌, if◌then◌else◌, arith, nat_eq, is_empty, contains, Bool-cases,
  eq_self,
}
use synchrotron.Base.Result.{ok, err}
use synchrotron.Base.Text.{codes}
use synchrotron.KnownHosts.{
  Text, accept_new, VerifyStatus, matching, unknown_host, mismatch, plain, HostEntry,
  KnownHostsFile, host_key_mismatch, Crypto, Disk, port_form, host_lookup_forms,
  canonical_host_form, host_pattern_matches, compare_key, scan, verify_host, new_entry, pushed,
  after_write, append, on_status, check_host, entry_line,
}

module _ (B : Crypto) where
  compare_key-known :
      (o : Option (List ℕ)) (key : List ℕ) (rest : VerifyStatus)
      → compare_key B o key rest ≡ unknown_host
      → rest ≡ unknown_host
  compare_key-known none key rest h = h
  compare_key-known (some stored) key rest h = ground arith

  -- The entry is passed over if it is another host's or of another type.
  either-known :
      (other other_type : Bool) (o : Option (List ℕ)) (key : List ℕ) (rest : VerifyStatus)
      → (if other then rest else if other_type then rest else compare_key B o key rest)
        ≡ unknown_host
      → rest ≡ unknown_host
  either-known true other_type o key rest h = h
  either-known false true o key rest h = h
  either-known false false o key rest h = compare_key-known o key rest h

  -- A host that was found is known.
  scan-found :
      (forms : List Text) (key_type : Text) (key : List ℕ) (entries : List HostEntry)
      → scan B forms key_type key entries true ≢ unknown_host
  unfolding scan
  scan-found forms key_type key [] h = cc
  scan-found forms key_type key (entry ∷ entries) h =
      scan-found forms key_type key entries (either-known _ _ (B.decode entry.key_b64) key _ h)

  -- Behind entries of which none is the host's, the scan goes on as at first.
  scan-unknown :
      (forms : List Text) (key_type : Text) (key key' : List ℕ) (entries more : List HostEntry)
      → scan B forms key_type key entries false ≡ unknown_host
      → scan B forms key_type key' (entries ++ more) false ≡ scan B forms key_type key' more false
  unfolding scan
  scan-unknown forms key_type key key' [] more h = refl
  scan-unknown forms key_type key key' (entry ∷ entries) more h =
      go (scan-unknown forms key_type key key' entries more)
        (not (host_pattern_matches B entry.pattern forms)) (not (entry.key_type == key_type)) h
    where
      go :
          (scan B forms key_type key entries false ≡ unknown_host
            → scan B forms key_type key' (entries ++ more) false
              ≡ scan B forms key_type key' more false)
          → (other other_type : Bool)
          → (if other
              then scan B forms key_type key entries false
              else if other_type
              then scan B forms key_type key entries false
              else compare_key B
                  (B.decode entry.key_b64)
                  key
                  (scan B forms key_type key entries true))
            ≡ unknown_host
          → (if other
              then scan B forms key_type key' (entries ++ more) false
              else if other_type
              then scan B forms key_type key' (entries ++ more) false
              else compare_key B
                  (B.decode entry.key_b64)
                  key'
                  (scan B forms key_type key' (entries ++ more) true))
            ≡ scan B forms key_type key' more false
      go rec true other_type h = rec h
      go rec false true h = rec h
      go rec false false h = absurd (
          scan-found forms key_type key entries
            (compare_key-known (B.decode entry.key_b64) key _ h))

  canonical-found :
      (host : Text) (port : ℕ)
      → contains (host_lookup_forms host port) (canonical_host_form host port) ≡ true
  unfolding host_lookup_forms canonical_host_form
  canonical-found host port = elim (Bool-cases (nat_eq port 22)) [
    | inl h ↦ rw h (ground (arith, eq_self host))
    | inr h ↦ rw h (ground (arith, eq_self (port_form host port)))
  ]

  scan-new :
      (forms : List Text) (form key_type : Text) (key key' : List ℕ)
      → contains forms form ≡ true
      → scan B forms key_type key'
          (record { pattern = plain (form ∷ []); key_type = key_type; key_b64 = B.encode key } ∷ [])
          false
        ≡ (if key == key' then matching else mismatch)
  unfolding scan host_pattern_matches
  scan-new forms form key_type key key' h = rw (h, eq_self key_type, B.decode-encode key) refl

  -- A host that is unknown is known with the appended key, and with no other of its type.
  verify_host-pushed :
      (file : KnownHostsFile) (host : Text) (port : ℕ) (key_type : Text) (key key' : List ℕ)
      → verify_host B file host port key_type key ≡ unknown_host
      → scan B
          (host_lookup_forms host port)
          key_type
          key'
          (file.entries
            ++ record {
              pattern = plain (canonical_host_form host port ∷ []);
              key_type = key_type;
              key_b64 = B.encode key;
            }
              ∷ [])
          false
        ≡ (if key == key' then matching else mismatch)
  unfolding verify_host
  verify_host-pushed file host port key_type key key' h =
      scan-unknown (host_lookup_forms host port) key_type key key' file.entries _ h
      ∙ scan-new (host_lookup_forms host port) (canonical_host_form host port) key_type key key'
          (canonical-found host port)

  module _ (D : Disk) where
    -- What is answered for the host, the port and the type, whatever key is shown
    abbrev pub Trusts : KnownHostsFile → Text → ℕ → Text → List ℕ → Type 0
    Trusts file host port key_type key =
        (shown : List ℕ) (w : D.World)
        → check_host B D accept_new file host port key_type shown w
          ≡ (if key == shown then ok tt else err (host_key_mismatch host key_type), file, w)

    decided :
        (same : Bool) (file : KnownHostsFile) (host : Text) (port : ℕ) (key_type : Text)
        (shown : List ℕ) (w : D.World)
        → on_status B D
            (if same then matching else mismatch)
            accept_new
            file
            host
            port
            key_type
            shown
            w
          ≡ (if same then ok tt else err (host_key_mismatch host key_type), file, w)
    decided true file host port key_type shown w = refl
    decided false file host port key_type shown w = refl

    pushed-Trusts :
        (file : KnownHostsFile) (host : Text) (port : ℕ) (key_type : Text) (key : List ℕ)
        → verify_host B file host port key_type key ≡ unknown_host
        → Trusts (pushed B D file (new_entry B D host port key_type key)) host port key_type key
    unfolding check_host verify_host
    pushed-Trusts file host port key_type key unknown shown w =
        let file' = pushed B D file (new_entry B D host port key_type key) in
        ap (λ s. on_status B D s accept_new file' host port key_type shown w)
          (verify_host-pushed file host port key_type key shown unknown)
        ∙ decided (key == shown) file' host port key_type shown w

    written-accepted :
        (file : KnownHostsFile) (entry : HostEntry) (p : Option Text × D.World)
        → p.0 ≡ none
        → after_write B D file entry p ≡ (ok tt, pushed B D file entry, p.1)
    written-accepted file entry (none, w) h = refl
    written-accepted file entry (some e, w) h = absurd (cc h)

    append-accepted :
        (file : KnownHostsFile) (host : Text) (port : ℕ) (key_type : Text) (key : List ℕ)
        (w : D.World)
        → (is_empty file.path ≡ true)
          ⊎ ((D.append_to w file.path (entry_line B D host port key_type key ++ codes "\n")).0
              ≡ none)
        → (w' : D.World) × (append B D file host port key_type key w
            ≡ (ok tt, pushed B D file (new_entry B D host port key_type key), w'))
    unfolding append
    append-accepted file host port key_type key w writes = elim (Bool-cases (is_empty file.path)) [
      | inl h ↦ (w, rw h refl)
      | inr h ↦ (
        (D.append_to w file.path (entry_line B D host port key_type key ++ codes "\n")).1,
        rw h (
            written-accepted file (new_entry B D host port key_type key)
              (D.append_to w file.path (entry_line B D host port key_type key ++ codes "\n"))
              (written h writes)),
      )
    ]
      where
        written :
            is_empty file.path ≡ false
            → (is_empty file.path ≡ true)
              ⊎ ((D.append_to w file.path (entry_line B D host port key_type key ++ codes "\n")).0
                  ≡ none)
            → (D.append_to w file.path (entry_line B D host port key_type key ++ codes "\n")).0
              ≡ none
        written h (inl k) = absurd (cc (sym h ∙ k))
        written h (inr k) = k

    -- The first key that an unknown host shows is accepted and learned, if the file has no path or its
    -- line can be written. With the file as it is then, that key is accepted again for the host, the
    -- port and the type, every other one is refused as a mismatch, and neither changes the file.
    pub check_host-Trusts :
        (file : KnownHostsFile) (host : Text) (port : ℕ) (key_type : Text) (key : List ℕ)
        (w : D.World)
        → verify_host B file host port key_type key ≡ unknown_host
        → (is_empty file.path ≡ true)
          ⊎ ((D.append_to w file.path (entry_line B D host port key_type key ++ codes "\n")).0
              ≡ none)
        → (file' : KnownHostsFile) × (w' : D.World) × (check_host B D accept_new file host port
              key_type key w
            ≡ (ok tt, file', w'))
          × Trusts file' host port key_type key
    unfolding check_host
    check_host-Trusts file host port key_type key w unknown writes =
        let (w', stored) = append-accepted file host port key_type key w writes in
        (
          pushed B D file (new_entry B D host port key_type key),
          w',
          ap (λ s. on_status B D s accept_new file host port key_type key w) unknown ∙ stored,
          pushed-Trusts file host port key_type key unknown,
        )
