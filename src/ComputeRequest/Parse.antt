-- ===== src/ComputeRequest/Parse.antt =====
-- Reading a stored contract state (lib/abc/compute-request/mod.ts).
use atproto_market.Common.{
  String, Bool, true, false, not, ◌&&◌, ◌≡◌, ◌↔◌, refl, arith, Option, none, some, List, [], ◌∷◌,
  if◌then◌else◌, is_some, includes, eqb, All, Option-cases, inl, inr,
}
use atproto_market.Common.Json.{Json, number, natural, is_object, member, as_text}
use atproto_market.ComputeRequest.State.{contract_state_version}
use atproto_market.ComputeRequest.Events.{as_record_ref}

-- The reasons of `InvalidContractStateError`.
pub data InvalidState : Type 0 where
  not_json not_an_object unsupported_version unknown_phase timestamps_not_an_object : InvalidState
  not_a_string not_a_strong_ref : String → InvalidState

pub data Parsed : Type 0 where
  valid : Json → Parsed
  invalid : InvalidState → Parsed

-- The argument `string | unknown`.
pub data Input : Type 0 where
  serialized : String → Input
  value : Json → Input

abbrev pub phase_names : List String
phase_names =
    "requested" ∷ "rfp_submitted" ∷ "winner_selected" ∷ "accepted" ∷ "receipt" ∷ "network"
    ∷ "released" ∷ []

abbrev pub text_fields : List String
text_fields = "vmName" ∷ "requesterDid" ∷ "marketDid" ∷ []

abbrev pub ref_fields : List String
ref_fields = "payload" ∷ "rfp" ∷ "policy" ∷ "bid" ∷ "accept" ∷ "receipt" ∷ []

is_version : Option Json → Bool
is_version (some (number (natural n))) = eqb n contract_state_version
is_version _ = false

pub is_phase : Option String → Bool
unfolding includes
is_phase none = false
is_phase (some s) = includes s phase_names

pub is_object_at : Option Json → Bool
is_object_at none = false
is_object_at (some v) = is_object v

-- The first field of the list that is no text.
not_text : Json → List String → Option String
not_text v [] = none
not_text v (k ∷ ks) = if is_some (as_text (member v k)) then not_text v ks else some k

-- The first field of the list that is there and is no reference.
not_ref : Json → List String → Option String
not_ref v [] = none
not_ref v (k ∷ ks) =
    if is_some (member v k) && not (is_some (as_record_ref (member v k)))
    then some k
    else not_ref v ks

parse_value : Json → Parsed
parse_value v =
    if not (is_object v)
    then invalid not_an_object
    else if not (is_version (member v "version"))
    then invalid unsupported_version
    else if not (is_phase (as_text (member v "phase")))
    then invalid unknown_phase
    else elim (not_text v text_fields) [
      | some k ↦ invalid (not_a_string k)
      | none ↦ elim (not_ref v ref_fields) [
        | some k ↦ invalid (not_a_strong_ref k)
        | none ↦
            if is_object_at (member v "timestamps")
            then valid v
            else invalid timestamps_not_an_object
      ]
    ]

-- `JSON.parse` is the platform's: the parameter `json`, `none` where it throws.
unfoldable pub parse_contract_state : (String → Option Json) → Input → Parsed
unfolding parse_value is_version is_phase is_object_at not_text not_ref
parse_contract_state json (value v) = parse_value v
parse_contract_state json (serialized s) = elim (json s) [
  | none ↦ invalid not_json
  | some v ↦ parse_value v
]

-- The value that the input stands for.
abbrev pub value_of : (String → Option Json) → Input → Option Json
value_of json (value v) = some v
value_of json (serialized s) = json s

abbrev pub IsText : Json → String → Type 0
IsText v k = is_some (as_text (member v k)) ≡ true

-- The field is missing, or a reference with a uri and a cid.
abbrev pub IsRefOrMissing : Json → String → Type 0
IsRefOrMissing v k = is_some (member v k) ≡ is_some (as_record_ref (member v k))

-- What a stored state has to be.
pub record IsContractState (v : Json) : Type 0 where
  pub object : is_object v ≡ true
  pub version : member v "version" ≡ some (number (natural 1))
  pub phase : is_phase (as_text (member v "phase")) ≡ true
  pub texts : All (IsText v) text_fields
  pub refs : All (IsRefOrMissing v) ref_fields
  pub timestamps : is_object_at (member v "timestamps") ≡ true

is_version_iff : (v : Option Json) → (is_version v ≡ true) ↔ (v ≡ some (number (natural 1)))
unfolding is_version
is_version_iff v = ground arith

not_text_iff : (v : Json) (ks : List String) → (not_text v ks ≡ none) ↔ All (IsText v) ks
unfolding not_text
not_text_iff v [] = (λ h. tt, λ h. refl)
not_text_iff v (k ∷ ks) = ground (arith, not_text_iff v ks)

ref-is_some : (o : Option Json) → is_some o ≡ false → is_some (as_record_ref o) ≡ false
unfolding as_record_ref
ref-is_some none h = refl
ref-is_some (some v) h = cc

not_ref_iff : (v : Json) (ks : List String) → (not_ref v ks ≡ none) ↔ All (IsRefOrMissing v) ks
unfolding not_ref
not_ref_iff v [] = (λ h. tt, λ h. refl)
not_ref_iff v (k ∷ ks) = ground (arith, not_ref_iff v ks, ref-is_some (member v k))

parse_value_sound :
    (v w : Json)
    → parse_value v ≡ valid w
    → (v ≡ w)
      × (is_object v ≡ true)
      × (is_version (member v "version") ≡ true)
      × (is_phase (as_text (member v "phase")) ≡ true)
      × (not_text v text_fields ≡ none)
      × (not_ref v ref_fields ≡ none)
      × (is_object_at (member v "timestamps") ≡ true)
unfolding parse_value
parse_value_sound v w h = ground arith

parse_value_complete :
    (v : Json)
    → is_object v ≡ true
    → is_version (member v "version") ≡ true
    → is_phase (as_text (member v "phase")) ≡ true
    → not_text v text_fields ≡ none
    → not_ref v ref_fields ≡ none
    → is_object_at (member v "timestamps") ≡ true
    → parse_value v ≡ valid v
unfolding parse_value
parse_value_complete v o e p t r s = rw o (rw e (rw p (rw t (rw r (rw s refl)))))

parse_value_iff : (v w : Json) → (parse_value v ≡ valid w) ↔ ((v ≡ w) × IsContractState w)
parse_value_iff v w = (
  λ h.
      let (same, o, e, p, t, r, s) = parse_value_sound v w h in
      (
        same,
        rw same at (
            let c : IsContractState v = record {
              object = o;
              version = (is_version_iff _).0 e;
              phase = p;
              texts = (not_text_iff v text_fields).0 t;
              refs = (not_ref_iff v ref_fields).0 r;
              timestamps = s;
            } in
            c),
      ),
  λ (same, c). rw same (
      parse_value_complete w c.object ((is_version_iff _).1 c.version) c.phase
        ((not_text_iff w text_fields).1 c.texts) ((not_ref_iff w ref_fields).1 c.refs)
        c.timestamps),
)

-- A stored state is accepted exactly when the input is JSON for an object of version 1 with a known
-- phase, the three names as texts, references where references stand, and an object of time
-- stamps; and what is accepted is the value itself.
pub parse_contract_state_iff :
    (json : String → Option Json) (input : Input) (v : Json)
    → (parse_contract_state json input ≡ valid v)
      ↔ ((value_of json input ≡ some v) × IsContractState v)
unfolding parse_contract_state
parse_contract_state_iff json (value w) v = ground (arith, parse_value_iff w v)
parse_contract_state_iff json (serialized s) v = elim (Option-cases (json s)) [
  | inl wrong ↦ ground arith
  | inr (w, read) ↦ ground (arith, parse_value_iff w v)
]
