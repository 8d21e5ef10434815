-- ===== src/KnownHosts/Syntax.antt =====
-- The syntax of the lines in crates/synchrotron-git/src/known_hosts.rs.
use synchrotron.Base.{
  ℕ, Bool, false, ◌&&◌, ◌||◌, Option, none, some, List, [], ◌∷◌, ℕ_eq, List_eq, if◌then◌else◌,
  nat_eq, is_empty, contains,
}
use synchrotron.Base.Options.{and_then}
use synchrotron.Base.Text.{codes, trim, split_at}
use synchrotron.Base.Words.{split_whitespace}
use synchrotron.KnownHosts.{Text, HostPattern, plain, hashed, HostEntry, Crypto}

-- `is_known_key_type`
abbrev pub known_key_types : List Text
known_key_types =
    codes "ssh-rsa"
    ∷ codes "ssh-dss"
    ∷ codes "ssh-ed25519"
    ∷ codes "ssh-ed448"
    ∷ codes "ecdsa-sha2-nistp256"
    ∷ codes "ecdsa-sha2-nistp384"
    ∷ codes "ecdsa-sha2-nistp521"
    ∷ codes "sk-ecdsa-sha2-nistp256@openssh.com"
    ∷ codes "sk-ssh-ed25519@openssh.com"
    ∷ []

unfoldable pub is_known_key_type : Text → Bool
is_known_key_type s = contains known_key_types s

abbrev pub starts_with : Text → ℕ → Bool
starts_with [] c = false
starts_with (d ∷ text) c = nat_eq d c

-- `strip_prefix("|1|")`
abbrev pub strip_hashed : Text → Option Text
strip_hashed (a ∷ b ∷ c ∷ text) =
    if nat_eq a b'|' && nat_eq b b'1' && nat_eq c b'|' then some text else none
strip_hashed _ = none

module _ (B : Crypto) where
  abbrev pub hashed_pattern : List Text → Option HostPattern
  hashed_pattern (salt ∷ hash ∷ rest) =
      and_then (B.decode salt) λ s. and_then (B.decode hash) λ h. some (hashed s h)
  hashed_pattern _ = none

  abbrev pub pattern_of : Text → Option Text → Option HostPattern
  pattern_of first (some rest) = hashed_pattern (split_at b'|' rest)
  pattern_of first none = some (plain (split_at b',' first))

  -- A key that can be read and is not empty
  abbrev pub check_key : HostPattern → Text → Text → Option (List ℕ) → Option HostEntry
  check_key pattern key_type key_b64 none = none
  check_key pattern key_type key_b64 (some []) = none
  check_key pattern key_type key_b64 (some (b ∷ bytes)) =
      some (record { pattern = pattern; key_type = key_type; key_b64 = key_b64 })

  -- The host's names and the tokens after them
  abbrev pub parse_entry : Text → List Text → Option HostEntry
  parse_entry first (key_type ∷ key_b64 ∷ rest) =
      if is_known_key_type key_type
      then and_then (pattern_of first (strip_hashed first))
          (λ pattern. check_key pattern key_type key_b64 (B.decode key_b64))
      else none
  parse_entry first _ = none

  -- A marker in front of the names is passed over.
  abbrev pub parse_tokens : List Text → Option HostEntry
  parse_tokens [] = none
  parse_tokens (first ∷ []) = none
  parse_tokens (first ∷ second ∷ tokens) =
      if starts_with first b'@'
      then parse_entry second tokens
      else parse_entry first (second ∷ tokens)

  -- Blank lines and comments are no entries.
  abbrev pub read_trimmed : Text → Option HostEntry
  read_trimmed trimmed =
      if is_empty trimmed || starts_with trimmed b'#'
      then none
      else parse_tokens (split_whitespace trimmed)

  unfoldable pub parse_line : Text → Option HostEntry
  unfolding trim split_whitespace is_known_key_type split_at
  parse_line line = read_trimmed (trim line)

  abbrev pub put_entry : Option HostEntry → List HostEntry → List HostEntry
  put_entry none entries = entries
  put_entry (some entry) entries = entry ∷ entries

  -- `load` of a file that could be read, line by line
  unfoldable pub parse_lines : List Text → List HostEntry
  unfolding parse_line
  parse_lines [] = []
  parse_lines (line ∷ lines) = put_entry (parse_line line) (parse_lines lines)
