-- ===== src/KnownHosts.antt =====
-- crates/synchrotron-git/src/known_hosts.rs: the keys of the SSH hosts. A text is the list of its characters'
-- codes. Base64 and HMAC-SHA1 are the interface Crypto, the file system is the interface Disk.
pub mod Syntax
pub mod Trust
pub mod Lines
pub mod Samples
use synchrotron.Base.{
  ℕ, ◌≡◌, Bool, true, false, not, ◌||◌, Option, none, some, List, [], ◌∷◌, ◌++◌, ℕ_eq, List_eq,
  ◌==◌, if◌then◌else◌, nat_eq, is_empty, contains,
}
use synchrotron.Base.Result.{Result, ok, err}
use synchrotron.Base.Text.{codes, decimal}
use synchrotron.Base.Words.{IsVisible}

abbrev pub Text : Type 0
Text = List ℕ

pub data HostKeyMode : Type 0 where
  yes_mode ask accept_new no_mode : HostKeyMode

pub data VerifyStatus : Type 0 where
  matching unknown_host mismatch : VerifyStatus

pub data HostPattern : Type 0 where
  plain : List Text → HostPattern
  hashed : (salt hash : List ℕ) → HostPattern

pub record HostEntry : Type 0 where
  pub pattern : HostPattern
  pub key_type : Text
  pub key_b64 : Text

pub record KnownHostsFile : Type 0 where
  pub path : Text
  pub entries : List HostEntry

pub data GitError : Type 0 where
  io : (path source : Text) → GitError
  host_key_mismatch : (host key_type : Text) → GitError
  unknown_host_key : (host key_type : Text) → GitError

-- The base64 and the hmac and sha1 crates
pub record Crypto : Type 0 where
  pub decode : Text → Option (List ℕ)
  pub encode : List ℕ → Text
  pub hmac_sha1 : (salt text : List ℕ) → List ℕ
  pub decode-encode : (bytes : List ℕ) → decode (encode bytes) ≡ some bytes
  pub decode_empty : decode [] ≡ some []
  pub encode_visible : (bytes : List ℕ) → IsVisible (encode bytes)

-- A file that is opened to append to and written at its end; the error is the system's text.
pub record Disk : Type 1 where
  pub World : Type 0
  pub append_to : World → (path line : Text) → Option Text × World

abbrev pub port_form : Text → ℕ → Text
port_form host port = codes "[" ++ host ++ codes "]:" ++ decimal port

unfoldable pub host_lookup_forms : Text → ℕ → List Text
host_lookup_forms host port = host ∷ (if not (nat_eq port 22) then port_form host port ∷ [] else [])

unfoldable pub canonical_host_form : Text → ℕ → Text
canonical_host_form host port = if nat_eq port 22 then host else port_form host port

abbrev pub any_plain : List Text → List Text → Bool
any_plain [] forms = false
any_plain (p ∷ entries) forms = contains forms p || any_plain entries forms

module _ (B : Crypto) where
  abbrev pub any_hashed : (salt hash : List ℕ) → List Text → Bool
  any_hashed salt hash [] = false
  any_hashed salt hash (h ∷ forms) = B.hmac_sha1 salt h == hash || any_hashed salt hash forms

  unfoldable pub host_pattern_matches : HostPattern → List Text → Bool
  host_pattern_matches (plain entries) host_forms = any_plain entries host_forms
  host_pattern_matches (hashed salt hash) host_forms = any_hashed salt hash host_forms

  abbrev pub compare_key : Option (List ℕ) → List ℕ → VerifyStatus → VerifyStatus
  compare_key none key_bytes rest = rest
  compare_key (some stored) key_bytes rest = if stored == key_bytes then matching else rest

  -- The loop of `verify` over the entries
  unfoldable pub scan :
      List Text → Text → List ℕ → List HostEntry → (found_for_host : Bool) → VerifyStatus
  unfolding host_pattern_matches
  scan forms key_type key_bytes [] found_for_host =
      if found_for_host then mismatch else unknown_host
  scan forms key_type key_bytes (entry ∷ entries) found_for_host =
      let skipped = scan forms key_type key_bytes entries found_for_host in
      let rest = scan forms key_type key_bytes entries true in
      if not (host_pattern_matches entry.pattern forms)
      then skipped
      else if not (entry.key_type == key_type)
      then skipped
      else compare_key (B.decode entry.key_b64) key_bytes rest

  unfoldable pub verify_host : KnownHostsFile → Text → ℕ → Text → List ℕ → VerifyStatus
  unfolding scan host_lookup_forms
  verify_host file host port key_type key_bytes =
      scan (host_lookup_forms host port) key_type key_bytes file.entries false

  module _ (D : Disk) where
    abbrev pub Checked : Type 0
    Checked = Result Unit GitError × KnownHostsFile × D.World

    abbrev pub new_entry : Text → ℕ → Text → List ℕ → HostEntry
    new_entry host port key_type key_bytes = record {
      pattern = plain (canonical_host_form host port ∷ []);
      key_type = key_type;
      key_b64 = B.encode key_bytes;
    }

    -- What `format!` makes of an entry
    abbrev pub entry_line : Text → ℕ → Text → List ℕ → Text
    entry_line host port key_type key_bytes =
        canonical_host_form host port ++ 32 ∷ (key_type ++ 32 ∷ B.encode key_bytes)

    abbrev pub pushed : KnownHostsFile → HostEntry → KnownHostsFile
    pushed file entry = record file { entries = file.entries ++ entry ∷ [] }

    abbrev pub after_write : KnownHostsFile → HostEntry → Option Text × D.World → Checked
    after_write file entry (none, w) = (ok tt, pushed file entry, w)
    after_write file entry (some e, w) = (err (io file.path e), file, w)

    unfoldable pub append : KnownHostsFile → Text → ℕ → Text → List ℕ → D.World → Checked
    unfolding canonical_host_form
    append file host port key_type key_bytes w =
        let entry = new_entry host port key_type key_bytes in
        if not (is_empty file.path)
        then after_write file entry
            (D.append_to w file.path (entry_line host port key_type key_bytes ++ codes "\n"))
        else (ok tt, pushed file entry, w)

    abbrev pub on_unknown :
        HostKeyMode → KnownHostsFile → Text → ℕ → Text → List ℕ → D.World → Checked
    on_unknown accept_new file host port key_type key_bytes w =
        append file host port key_type key_bytes w
    on_unknown yes_mode file host port key_type key_bytes w =
        (err (unknown_host_key host key_type), file, w)
    on_unknown ask file host port key_type key_bytes w =
        (err (unknown_host_key host key_type), file, w)
    on_unknown no_mode file host port key_type key_bytes w = (ok tt, file, w)

    abbrev pub on_status :
        VerifyStatus → HostKeyMode → KnownHostsFile → Text → ℕ → Text → List ℕ → D.World → Checked
    on_status matching mode file host port key_type key_bytes w = (ok tt, file, w)
    on_status mismatch mode file host port key_type key_bytes w =
        (err (host_key_mismatch host key_type), file, w)
    on_status unknown_host mode file host port key_type key_bytes w =
        on_unknown mode file host port key_type key_bytes w

    abbrev pub is_no : HostKeyMode → Bool
    is_no no_mode = true
    is_no _ = false

    -- `HostVerifier::check`
    unfoldable pub check_host :
        HostKeyMode → KnownHostsFile → Text → ℕ → Text → List ℕ → D.World → Checked
    unfolding append verify_host
    check_host mode file host port key_type key_bytes w =
        if is_no mode
        then (ok tt, file, w)
        else on_status (verify_host file host port key_type key_bytes) mode file host port key_type
            key_bytes w
