-- ===== src/KnownHosts/Samples.antt =====
-- Known hosts at concrete inputs. For base64 stands a coding of each number by as many letters a and a
-- letter b.
use synchrotron.Base.{
  ℕ, zero, suc, ◌≡◌, refl, ap, inr, true, Option, none, some, List, [], ◌∷◌, ◌++◌, ℕ_eq, List_eq,
  if◌then◌else◌, nat_eq,
}
use synchrotron.Base.Result.{ok}
use synchrotron.Base.Text.{codes, is_whitespace, decimal}
use synchrotron.Base.Words.{IsVisible}
use synchrotron.KnownHosts.{
  Text, accept_new, unknown_host, Crypto, Disk, KnownHostsFile, verify_host, check_host, entry_line,
  new_entry, pushed, canonical_host_form,
}
use synchrotron.KnownHosts.Syntax.{parse_line, is_known_key_type}
use synchrotron.KnownHosts.Trust.{Trusts, check_host-Trusts}
use synchrotron.KnownHosts.Lines.{IsHostText, parse_line-entry_line}

abbrev unary : ℕ → Text → Text
unary zero text = b'b' ∷ text
unary (suc n) text = b'a' ∷ unary n text

abbrev unaries : List ℕ → Text
unaries [] = []
unaries (n ∷ ns) = unary n (unaries ns)

abbrev one_more : Option (List ℕ) → Option (List ℕ)
one_more (some (n ∷ ns)) = some (suc n ∷ ns)
one_more _ = none

abbrev start_zero : Option (List ℕ) → Option (List ℕ)
start_zero (some ns) = some (0 ∷ ns)
start_zero none = none

abbrev read_unaries : Text → Option (List ℕ)
read_unaries [] = some []
read_unaries (c ∷ text) =
    let rest = read_unaries text in
    if nat_eq c b'b' then start_zero rest else if nat_eq c b'a' then one_more rest else none

read-unary :
    (n : ℕ) (text : Text) (ns : List ℕ)
    → read_unaries text ≡ some ns
    → read_unaries (unary n text) ≡ some (n ∷ ns)
read-unary zero text ns h = ap start_zero h
read-unary (suc n) text ns h = ap one_more (read-unary n text ns h)

read-unaries : (ns : List ℕ) → read_unaries (unaries ns) ≡ some ns
read-unaries [] = refl
read-unaries (n ∷ ns) = read-unary n (unaries ns) ns (read-unaries ns)

unary-IsVisible : (n : ℕ) (text : Text) → IsVisible text → IsVisible (unary n text)
unfolding is_whitespace
unary-IsVisible zero text v = (refl, v)
unary-IsVisible (suc n) text v = (refl, unary-IsVisible n text v)

unaries-IsVisible : (ns : List ℕ) → IsVisible (unaries ns)
unaries-IsVisible [] = tt
unaries-IsVisible (n ∷ ns) = unary-IsVisible n (unaries ns) (unaries-IsVisible ns)

abbrev letters : Crypto
letters = record {
  decode = read_unaries;
  encode = unaries;
  hmac_sha1 = λ salt text. salt ++ text;
  decode-encode = read-unaries;
  decode_empty = refl;
  encode_visible = unaries-IsVisible;
}

-- The text of the only file
abbrev disk : Disk
disk = record { World = Text; append_to = λ w path line. (none, w ++ line) }

abbrev hosts : KnownHostsFile
hosts = record { path = codes "/known_hosts"; entries = [] }

abbrev host : Text
host = codes "git.example"

abbrev ed25519 : Text
ed25519 = codes "ssh-ed25519"

abbrev learned : KnownHostsFile
learned = pushed letters disk hosts (new_entry letters disk host 2222 ed25519 (1 ∷ []))

abbrev line : Text
line = entry_line letters disk host 2222 ed25519 (1 ∷ [])

first_contact :
    check_host letters disk accept_new hosts host 2222 ed25519 (1 ∷ []) []
    ≡ (ok tt, learned, line ++ codes "\n")
unfolding check_host
first_contact = refl

unknown_at_first : verify_host letters hosts host 2222 ed25519 (1 ∷ []) ≡ unknown_host
unfolding verify_host
unknown_at_first = refl

check_host-Trusts_example :
    (file' : KnownHostsFile) × (w' : List ℕ) × (check_host letters disk accept_new hosts host 2222
        ed25519
        (1 ∷ [])
        []
      ≡ (ok tt, file', w'))
    × Trusts letters disk file' host 2222 ed25519 (1 ∷ [])
check_host-Trusts_example =
    check_host-Trusts letters disk hosts host 2222 ed25519 (1 ∷ []) [] unknown_at_first (inr refl)

host-IsHostText : IsHostText host
unfolding is_whitespace
host-IsHostText =
    (refl, (refl, (refl, (refl, (refl, (refl, (refl, (refl, (refl, (refl, (refl, tt)))))))))))

ed25519_known : is_known_key_type ed25519 ≡ true
unfolding is_known_key_type
ed25519_known = refl

parse_line-entry_line_example :
    parse_line letters (entry_line letters disk host 2222 ed25519 (1 ∷ []))
    ≡ some (new_entry letters disk host 2222 ed25519 (1 ∷ []))
parse_line-entry_line_example =
    parse_line-entry_line letters disk host 2222 ed25519 (1 ∷ []) (λ e. cc) host-IsHostText
      ed25519_known (λ e. cc)

-- A key that is marked as revoked is an entry like any other.
revoked_accepted :
    parse_line letters (codes "@revoked " ++ line)
    ≡ some (new_entry letters disk host 2222 ed25519 (1 ∷ []))
unfolding parse_line canonical_host_form decimal
revoked_accepted = refl

-- Two lines without a break between them are none.
joined_lines_lost : parse_line letters (line ++ line) ≡ none
unfolding parse_line canonical_host_form decimal
joined_lines_lost = refl
