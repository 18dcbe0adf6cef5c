-- ===== src/ComputeRequest/Guest.antt =====
-- Under which address, alias and host keys a guest is reached (lib/abc/compute-request/mod.ts).
pub mod KnownHosts
use Prim.Native.String
use atproto_market.Common.{
  String, ℕ, Bool, true, false, ◌&&◌, ◌||◌, Option, none, some, List, [], ◌∷◌, ◌⧺◌, if◌then◌else◌,
  or_else, is_empty, eqb, leb, every, any_of, codes, is_digit, is_lower, starts_with, split, last?,
  singleton, ◌+◌,
}
use Prim.Native.Char.{Char, code}
use atproto_market.Records.{RecordRef}
use atproto_market.ComputeRequest.State.{HostKey}
use atproto_market.ComputeRequest.Events.{authority_of}

pub data AddressKind : Type 0 where
  iroh_ticket refused ip hostname : AddressKind

abbrev pub iroh_scheme : String
iroh_scheme = "iroh://"

-- A run of digits, as long as it can be, of one to three: what follows it. `n` digits are read.
octet : ℕ → List ℕ → Option (List ℕ)
octet n [] = if leb 1 n && leb n 3 then some [] else none
octet n (c ∷ cs) =
    let more = octet (n + 1) cs in
    if is_digit c then more else if leb 1 n && leb n 3 then some (c ∷ cs) else none

dot : List ℕ → Option (List ℕ)
dot [] = none
dot (c ∷ cs) = if eqb c b'.' then some cs else none

infixl 5 ◌>>=◌
abbrev ◌>>=◌ : Option (List ℕ) → (List ℕ → Option (List ℕ)) → Option (List ℕ)
none >>= f = none
some a >>= f = f a

four_octets : List ℕ → Option (List ℕ)
unfolding octet dot
four_octets cs = do
  a ← octet 0 cs
  b ← dot a
  c ← octet 0 b
  d ← dot c
  e ← octet 0 d
  f ← dot e
  octet 0 f

-- (:\d+)?$
port : Option (List ℕ) → Bool
port none = false
port (some []) = true
port (some (c ∷ [])) = false
port (some (c ∷ d ∷ ds)) = eqb c b':' && every is_digit (d ∷ ds)

-- /^\d{1,3}(\.\d{1,3}){3}(:\d+)?$/
unfoldable pub is_ip : String → Bool
unfolding four_octets port
is_ip address = port (four_octets (codes address))

unfoldable pub guest_address_kind : String → AddressKind
guest_address_kind address =
    if is_ip address
    then ip
    else if starts_with iroh_scheme address
    then iroh_ticket
    else if any_of (λ c. eqb c b'.') (codes address)
    then refused
    else hostname

-- The characters that stay in an alias: [a-z0-9].
unfoldable pub is_alias_char : ℕ → Bool
is_alias_char c = is_lower c || is_digit c

-- `s.replace(/[^a-z0-9]+/g, "-")`: `inside` says that the run before `s` has its dash already.
collapse : Bool → String → String
unfolding is_alias_char
collapse inside String.[] = String.[]
collapse inside (String.◌∷◌ c s) =
    let kept = String.◌∷◌ c (collapse false s) in
    let skipped = collapse true s in
    if is_alias_char (code c) then kept else if inside then skipped else "-" ⧺ skipped

-- `s.replace(/^-+|-+$/g, "")`
trim_left : String → String
trim_left String.[] = String.[]
trim_left (String.◌∷◌ c s) =
    let rest = trim_left s in if eqb (code c) b'-' then rest else String.◌∷◌ c s

-- The character `c` before the text `rest` whose dashes at the end are gone.
before_trimmed : Char → String → String
before_trimmed c String.[] = if eqb (code c) b'-' then String.[] else singleton c
before_trimmed c rest = String.◌∷◌ c rest

trim_right : String → String
unfolding before_trimmed
trim_right String.[] = String.[]
trim_right (String.◌∷◌ c s) = before_trimmed c (trim_right s)

-- `toLowerCase` is the platform's: the parameter `lower`.
unfoldable pub clean : (String → String) → String → String
unfolding collapse trim_left trim_right
clean lower v = trim_right (trim_left (collapse false (lower v)))

unfoldable pub host_key_alias_of : (String → String) → RecordRef → String
unfolding clean
host_key_alias_of lower receipt =
    "swc-guest-"
    ⧺ clean lower (authority_of receipt.uri)
    ⧺ "-"
    ⧺ clean lower (or_else (last? (split b'/' receipt.uri)) "")

-- One entry of an OpenSSH known_hosts file.
abbrev pub known_host : String → HostKey → String
known_host alias k = alias ⧺ " " ⧺ k.type ⧺ " " ⧺ k.public_key

unfoldable pub known_hosts_of : String → List HostKey → String
known_hosts_of alias [] = ""
known_hosts_of alias (k ∷ ks) = known_host alias k ⧺ "\n" ⧺ known_hosts_of alias ks

unfoldable pub receipt_key_of : RecordRef → String
receipt_key_of receipt = receipt.uri ⧺ "#" ⧺ receipt.cid
