-- ===== src/ComputeRequest/Guest/KnownHosts.antt =====
-- What the alias and the host keys of a guest may hold, and that a known_hosts file has one line
-- for each key.
use Prim.Native.Char.{Char, code}
use text.Mathlib.TextLemmas.{cons-append, nil-append}
use atproto_market.Common.{
  String, ℕ, Bool, true, false, ◌≡◌, refl, ap, ◌∙◌, arith, List, [], ◌∷◌, ◌++◌, map, ◌⧺◌, ◌||◌, All,
  Bool-cases, inl, inr, eqb, split, is_lower, is_digit,
}
use atproto_market.Common.Checked.{accepted}
use atproto_market.Common.Split.{
  Only, Only-append, codes-Only, Only-Without, Without, Without-append, split-line,
  split_of_Without,
}
use atproto_market.Records.{RecordRef}
use atproto_market.ComputeRequest.State.{HostKey, HostKeys}
use atproto_market.ComputeRequest.Events.{Envelope, host_keys_of, is_type_char}
use atproto_market.ComputeRequest.Events.Keys.{
  IsWellFormed, is_blob_char, type-Only, public_key-Only, host_keys_of-IsHostKeysOf,
}
use atproto_market.ComputeRequest.Guest.{
  is_alias_char, collapse, trim_left, before_trimmed, trim_right, clean, host_key_alias_of,
  known_host, known_hosts_of,
}

-- The characters of an alias: [a-z0-9-].
abbrev pub is_safe : ℕ → Bool
is_safe c = is_lower c || is_digit c || eqb c b'-'

dash_then : (s : String) → Only is_safe s → Only is_safe ("-" ⧺ s)
dash_then s h = rw cons-append (rw nil-append (refl, h))

collapse-Only : (inside : Bool) (s : String) → Only is_safe (collapse inside s)
unfolding collapse is_alias_char
collapse-Only inside String.[] = tt
collapse-Only inside (String.◌∷◌ c s) =
    ground (arith, collapse-Only false s, collapse-Only true s, dash_then (collapse true s))

trim_left-Only : (s : String) → Only is_safe s → Only is_safe (trim_left s)
unfolding trim_left
trim_left-Only String.[] h = tt
trim_left-Only (String.◌∷◌ c s) h = ground (arith, trim_left-Only s h.1)

before_trimmed-Only :
    (c : Char) (s : String)
    → is_safe (code c) ≡ true
    → Only is_safe s
    → Only is_safe (before_trimmed c s)
unfolding before_trimmed
before_trimmed-Only c String.[] k h = elim (Bool-cases (eqb (code c) b'-')) [
  | inl dash ↦ rw dash tt
  | inr other ↦ rw other (k, tt)
]
before_trimmed-Only c (String.◌∷◌ d s) k h = (k, h)

trim_right-Only : (s : String) → Only is_safe s → Only is_safe (trim_right s)
unfolding trim_right
trim_right-Only String.[] h = tt
trim_right-Only (String.◌∷◌ c s) h =
    before_trimmed-Only c (trim_right s) h.0 (trim_right-Only s h.1)

clean-Only : (lower : String → String) (v : String) → Only is_safe (clean lower v)
unfolding clean
clean-Only lower v = trim_right-Only _ (trim_left-Only _ (collapse-Only false (lower v)))

-- Whatever the receipt's uri and whatever the platform's lower-casing does, the host key alias
-- holds only the characters [a-z0-9-]: no space, no line break, no pattern of ssh.
pub host_key_alias_of-Only :
    (lower : String → String) (receipt : RecordRef) → Only is_safe (host_key_alias_of lower receipt)
unfolding host_key_alias_of
host_key_alias_of-Only lower receipt =
    Only-append is_safe "swc-guest-" _ (codes-Only is_safe "swc-guest-" refl) (
      Only-append is_safe (clean lower _) _ (clean-Only lower _)
        (Only-append is_safe "-" _ (refl, tt) (clean-Only lower _)))

-- A text of printing characters that are no spaces, as every part of an accepted key is.
known_host-Without :
    (alias : String) (k : HostKey)
    → Only is_safe alias
    → IsWellFormed k
    → Without 10 (known_host alias k)
unfolding is_type_char
known_host-Without alias k safe w =
    Without-append 10 alias _ (Only-Without is_safe 10 alias refl safe) (
      Without-append 10 " " _ (refl, tt)
        (Without-append 10 k.type _ (Only-Without is_type_char 10 k.type refl (type-Only w)) (
          Without-append 10 " " _ (refl, tt)
            (Only-Without is_blob_char 10 k.public_key refl (public_key-Only w)))))

known_hosts_lines :
    (alias : String) (ks : List HostKey)
    → Only is_safe alias
    → All IsWellFormed ks
    → split 10 (known_hosts_of alias ks) ≡ map (known_host alias) ks ++ "" ∷ []
unfolding known_hosts_of
known_hosts_lines alias [] safe all = split_of_Without 10 "" tt
known_hosts_lines alias (k ∷ ks) safe (w, all) =
    split-line 10 _ (known_host alias k) (known_hosts_of alias ks) refl
      (known_host-Without alias k safe w)
    ∙ ap (λ ls. known_host alias k ∷ ls) (known_hosts_lines alias ks safe all)

-- The known_hosts text written for the keys that an event reports has one line for each key, and
-- each line is the alias, the type and the key: whatever the bidder sends, it adds no line.
pub known_hosts_of-lines :
    (lower : String → String) (e : Envelope) (receipt : RecordRef) (h : HostKeys)
    → host_keys_of e receipt ≡ accepted h
    → split 10 (known_hosts_of (host_key_alias_of lower receipt) h.keys)
      ≡ map (known_host (host_key_alias_of lower receipt)) h.keys ++ "" ∷ []
known_hosts_of-lines lower e receipt h ok =
    known_hosts_lines (host_key_alias_of lower receipt) h.keys
      (host_key_alias_of-Only lower receipt) (host_keys_of-IsHostKeysOf e receipt h ok).well_formed
