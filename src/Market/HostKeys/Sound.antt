-- ===== src/Market/HostKeys/Sound.antt =====
-- What the check of host keys accepts.
use atproto_market.Common.{
  String, suc, ◌≤◌, Bool, true, false, not, ◌≡◌, refl, ap, arith, Option, none, some, List, [], ◌∷◌,
  eq_iff, All, ◌⧺◌, Bool-cases, inl, inr, includes, length, ltb, map, ◌⊎◌,
}
use atproto_market.Common.Checked.{accepted, demand, demand_some, >>=-eq-accepted}
use atproto_market.Common.Json.{
  Json, Items, null, boolean, number, str, array, object, items, member, is_object, as_text,
}
use atproto_market.ComputeRequest.State.{HostKey}
use atproto_market.ComputeRequest.Events.{
  max_vm_host_keys, is_host_key_type, is_host_key_blob, passing,
}
use atproto_market.Common.Distinct.{Distinct}
use atproto_market.Common.Sort.{sort_by, sort_by-All, sort_by-Distinct, length-sort_by, AreNew}
use atproto_market.Market.HostKeys.{
  KeyPlatform, ssh_key_blob_type, ssh_host_key_fingerprint, names, agrees, check_key, check_keys,
  check_list, check_host_keys,
}

-- A key of a well-formed type whose blob names that type, with the fingerprint of its own blob.
pub record IsSound (p : KeyPlatform) (k : HostKey) : Type 0 where
  pub type : is_host_key_type k.type ≡ true
  pub public_key : is_host_key_blob k.public_key ≡ true
  pub named : ssh_key_blob_type p k.public_key ≡ some k.type
  pub fingerprint : ssh_host_key_fingerprint p k.public_key ≡ accepted k.fingerprint

-- The key has the type and the key of a member of the report, and the fingerprint there, if the
-- member names one.
pub record IsKeyOf (raw : Json) (k : HostKey) : Type 0 where
  pub type : as_text (member raw "type") ≡ some k.type
  pub public_key : as_text (member raw "publicKey") ≡ some k.public_key
  pub fingerprint :
      (member raw "fingerprint" ≡ none) ⊎ (member raw "fingerprint" ≡ some (str k.fingerprint))

-- The key is that of a member of the report.
abbrev pub IsReported : List Json → HostKey → Type 0
IsReported [] k = ⊥
IsReported (raw ∷ raws) k = IsKeyOf raw k ⊎ IsReported raws k

agrees_lem : (o : Option Json) (s : String) → agrees o s ≡ true → (o ≡ none) ⊎ (o ≡ some (str s))
unfolding agrees
agrees_lem none s h = inl refl
agrees_lem (some (str t)) s h = let is : t ≡ s = (eq_iff t s).0 h in inr (rw is refl)
agrees_lem (some null) s h = absurd (ground (arith, h))
agrees_lem (some (boolean b)) s h = absurd (ground (arith, h))
agrees_lem (some (number n)) s h = absurd (ground (arith, h))
agrees_lem (some (array vs)) s h = absurd (ground (arith, h))
agrees_lem (some (object fs)) s h = absurd (ground (arith, h))

passing-eq :
    (test : String → Bool) (o : Option String) (s : String) → passing test o ≡ some s → o ≡ some s
unfolding passing
passing-eq test none s h = absurd (ground (arith, h))
passing-eq test (some t) s h = ground (arith, h)

passing_lem :
    (test : String → Bool) (o : Option String) (s : String)
    → passing test o ≡ some s
    → test s ≡ true
unfolding passing
passing_lem test none s h = absurd (ground (arith, h))
passing_lem test (some t) s h = elim (Bool-cases (test t)) [
  | inl good ↦ ground (arith, h, good)
  | inr bad ↦ absurd (ground (arith, h, bad))
]

demand_some_lem {ℓ} :
    {A : Type ℓ} (o : Option A) (e : String) (a : A) → demand_some o e ≡ accepted a → o ≡ some a
demand_some_lem none e a h = absurd (ground (arith, h))
demand_some_lem (some b) e a h = cc h

demand_lem : (b : Bool) (e : String) (x : Unit {0}) → demand b e ≡ accepted x → b ≡ true
demand_lem true e x h = refl
demand_lem false e x h = absurd (ground (arith, h))

names_lem : (o : Option String) (s : String) → names o s ≡ true → o ≡ some s
unfolding names
names_lem none s h = absurd (ground (arith, h))
names_lem (some t) s h = ap some ((eq_iff t s).0 h)

IsReported-behind :
    (raw : Json) (raws : List Json) (ks : List HostKey)
    → All (IsReported raws) ks
    → All (IsReported (raw ∷ raws)) ks
IsReported-behind raw raws [] h = tt
IsReported-behind raw raws (k ∷ ks) (h, hs) = (inr h, IsReported-behind raw raws ks hs)

module _ (p : KeyPlatform) where
  check_key-IsSound :
      (types : List String) (raw : Json) (k : HostKey)
      → check_key p types raw ≡ accepted k
      → IsSound p k × (includes k.type types ≡ false) × IsKeyOf raw k
  unfolding check_key
  check_key-IsSound types raw k h =
      let (x1, o, h1) = >>=-eq-accepted (demand (is_object raw) "key is not an object") _ h in
      let (type, t, h2) =
        >>=-eq-accepted
          (demand_some (passing is_host_key_type (as_text (member raw "type")))
            "key type is malformed")
          _ h1 in
      let (key, b, h3) =
        >>=-eq-accepted
          (demand_some (passing is_host_key_blob (as_text (member raw "publicKey")))
            (type ⧺ " public key is not a base64 key blob"))
          _ h2 in
      let (x2, n, h4) =
        >>=-eq-accepted
          (demand (names (ssh_key_blob_type p key) type) (type ⧺ " key blob names another type")) _
          h3 in
      let (x3, u, h5) =
        >>=-eq-accepted (demand (not (includes type types)) (type ⧺ " reported twice")) _ h4 in
      let (computed, f, h6) = >>=-eq-accepted (ssh_host_key_fingerprint p key) _ h5 in
      let (x4, a, h7) =
        >>=-eq-accepted
          (demand (agrees (member raw "fingerprint") computed)
            (type ⧺ " fingerprint does not match its key"))
          _ h6 in
      let is : (record { type = type; public_key = key; fingerprint = computed }) ≡ k = cc h7 in
      let fresh = demand_lem _ _ x3 u in
      rw (← is) (
        record {
          type = passing_lem is_host_key_type _ type (demand_some_lem _ _ type t);
          public_key = passing_lem is_host_key_blob _ key (demand_some_lem _ _ key b);
          named = names_lem _ type (demand_lem _ _ x2 n);
          fingerprint = f;
        },
        ground (arith, fresh),
        record {
          type = passing-eq is_host_key_type _ type (demand_some_lem _ _ type t);
          public_key = passing-eq is_host_key_blob _ key (demand_some_lem _ _ key b);
          fingerprint = agrees_lem _ computed (demand_lem _ _ x4 a);
        },
      )

  check_keys-AreSound :
      (types : List String) (raws : List Json) (ks : List HostKey)
      → check_keys p types raws ≡ accepted ks
      → All (IsSound p) ks
        × AreNew (λ k. k.type) (λ a b. p.before a.type b.type) types ks
        × (length ks ≡ length raws)
        × All (IsReported raws) ks
  unfolding check_keys
  check_keys-AreSound types [] [] h = (tt, tt, refl, tt)
  check_keys-AreSound types [] (k ∷ ks) h = absurd (ground (arith, h))
  check_keys-AreSound types (raw ∷ raws) ls h =
      let (k, one, h1) = >>=-eq-accepted (check_key p types raw) _ h in
      let (ks, others, h2) = >>=-eq-accepted (check_keys p (k.type ∷ types) raws) _ h1 in
      let (sound, new, key_of) = check_key-IsSound types raw k one in
      let (all_sound, all_new, same, reported) =
        check_keys-AreSound (k.type ∷ types) raws ks others in
      let is : (k ∷ ks) ≡ ls = cc h2 in
      rw (← is) (
        (sound, all_sound),
        (new, all_new),
        ap suc same,
        (inl key_of, IsReported-behind raw raws ks reported),
      )

  -- One to eight sound keys, no two of the same type; they are as many as the members of the report,
  -- and each is that of a member.
  pub record AreSound (raws : List Json) (ks : List HostKey) : Type 0 where
    pub sound : All (IsSound p) ks
    pub reported : All (IsReported raws) ks
    pub one_each : length ks ≡ length raws
    pub apart : Distinct (map (λ k. k.type) ks)
    pub some_key : 1 ≤ length ks
    pub few_keys : length ks ≤ 8

  check_list-AreSound :
      (raws : List Json) (ks : List HostKey) → check_list p raws ≡ accepted ks → AreSound raws ks
  unfolding check_list
  check_list-AreSound [] ks h = absurd (ground (arith, h))
  check_list-AreSound (raw ∷ raws) ks h =
      let (x, few, h1) =
        >>=-eq-accepted
          (demand (not (ltb max_vm_host_keys (length (raw ∷ raws)))) "more than 8 keys") _ h in
      let (ls, checked, h2) = >>=-eq-accepted (check_keys p [] (raw ∷ raws)) _ h1 in
      let (sound, new, same, reported) = check_keys-AreSound [] (raw ∷ raws) ls checked in
      let less = λ (a b : HostKey). p.before a.type b.type in
      let size = length-sort_by (λ k. k.type) less [] ls in
      let bound = demand_lem _ _ x few in
      let is : sort_by less [] ls ≡ ks = cc h2 in
      rw (← is) (record {
        sound = sort_by-All (IsSound p) less [] ls tt sound;
        reported = sort_by-All (IsReported (raw ∷ raws)) less [] ls tt reported;
        one_each = omega (arith, size, same);
        apart = sort_by-Distinct (λ k. k.type) less [] [] ls (λ u. refl) tt new;
        some_key = omega (arith, size, same);
        few_keys = ground (arith, size, same, bound);
      })

  -- A report that is accepted is an array of one to eight members, and the keys are theirs, one for
  -- each: of the type and with the blob of the member, which is of a well-formed type and names it;
  -- the fingerprint is that of the blob, and the one of the member where it names one; no two keys are
  -- of one type.
  pub check_host_keys-AreSound :
      (raw : Option Json) (ks : List HostKey)
      → check_host_keys p raw ≡ accepted ks
      → (vs : Items) × (raw ≡ some (array vs)) × AreSound (items vs) ks
  unfolding check_host_keys
  check_host_keys-AreSound none ks h = absurd (ground (arith, h))
  check_host_keys-AreSound (some (array vs)) ks h = (vs, refl, check_list-AreSound (items vs) ks h)
  check_host_keys-AreSound (some null) ks h = absurd (ground (arith, h))
  check_host_keys-AreSound (some (boolean b)) ks h = absurd (ground (arith, h))
  check_host_keys-AreSound (some (number n)) ks h = absurd (ground (arith, h))
  check_host_keys-AreSound (some (str s)) ks h = absurd (ground (arith, h))
  check_host_keys-AreSound (some (object fs)) ks h = absurd (ground (arith, h))
