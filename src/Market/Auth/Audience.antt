-- ===== src/Market/Auth/Audience.antt =====
-- For whom an accepted token was minted.
use atproto_market.Common.{
  String, true, false, ◌≡◌, ap, ◌∙◌, sym, arith, Option, none, some, List, [], ◌∷◌, ◌⧺◌, ◌==◌,
  eq_iff, eq_refl, Bool-cases, Option-cases, inl, inr, ◌⊎◌, includes, or_else,
}
use atproto_market.Common.Attempt.{Attempt, returned, >>=-eq-returned, returned-eq}
use atproto_market.Common.Dict.{Dict, get, set, get-set, get-nil}
use atproto_market.Common.Json.{Json, Fields, fields_get, str, null, boolean, number, array, object}
use atproto_market.Market.Auth.{
  ServiceAuth, extract_bearer, service_did_for_host, accept_ids, accept_dids, acceptable,
  audience_of, issuer_of, AuthOptions, verify_market_service_auth,
}

-- The audience is a did itself, without a service id, or its reference to one of the services.
abbrev pub IsAudienceOf : List String → String → Option String → String → Type 0
IsAudienceOf ids aud none did = aud ≡ did
IsAudienceOf ids aud (some id) did = (aud ≡ did ⧺ "#" ⧺ id) × (includes id ids ≡ true)

-- It is that of one of the dids.
abbrev pub IsFor : List String → List String → String → Option String → Type 0
IsFor [] ids aud o = ⊥
IsFor (did ∷ dids) ids aud o = IsAudienceOf ids aud o did ⊎ IsFor dids ids aud o

module _ (aud : String) (o : Option String) where
  -- A write that the lookup hits gives what was written.
  get-set_hit :
      (m : Dict (Option String)) (k : String) (v : Option String)
      → get (set m k v) aud ≡ some o
      → (k == aud) ≡ true
      → (o ≡ v) × (aud ≡ k)
  get-set_hit m k v h same =
      (ground (arith, h, get-set m k aud v, same), sym ((eq_iff k aud).0 same))

  get-set_miss :
      (m : Dict (Option String)) (k : String) (v : Option String)
      → get (set m k v) aud ≡ some o
      → (k == aud) ≡ false
      → get m aud ≡ some o
  get-set_miss m k v h other = ground (arith, h, get-set m k aud v, other)

  -- What the loop over the ids adds.
  accept_ids-get :
      (all : List String) (did : String) (ids : List String) (m : Dict (Option String))
      → ((id : String) → includes id ids ≡ true → includes id all ≡ true)
      → get (accept_ids did ids m) aud ≡ some o
      → (get m aud ≡ some o) ⊎ IsAudienceOf all aud o did
  unfolding accept_ids includes
  accept_ids-get all did [] m sub h = inl h
  accept_ids-get all did (id ∷ ids) m sub h =
      elim (accept_ids-get all did ids (set m (did ⧺ "#" ⧺ id) (some id))
        (λ i k. sub i (ground (arith, k))) h) [
          | inr found ↦ inr found
          | inl before ↦ elim (Bool-cases ((did ⧺ "#" ⧺ id) == aud)) [
            | inl same ↦
                let (is_id, key) = get-set_hit m (did ⧺ "#" ⧺ id) (some id) before same in
                inr (rw is_id (key, sub id (ground (arith, eq_refl id))))
            | inr other ↦ inl (get-set_miss m (did ⧺ "#" ⧺ id) (some id) before other)
          ]
        ]

  accept_dids-get :
      (dids ids : List String) (m : Dict (Option String))
      → get (accept_dids dids ids m) aud ≡ some o
      → (get m aud ≡ some o) ⊎ IsFor dids ids aud o
  unfolding accept_dids
  accept_dids-get [] ids m h = inl h
  accept_dids-get (did ∷ dids) ids m h =
      elim (accept_dids-get dids ids (accept_ids did ids (set m did none)) h) [
        | inr found ↦ inr (inr found)
        | inl before ↦ elim (accept_ids-get ids did ids (set m did none) (λ i k. k) before) [
          | inr one ↦ inr (inl one)
          | inl bare ↦ elim (Bool-cases (did == aud)) [
            | inl same ↦
                let (is_none, key) = get-set_hit m did none bare same in inr (inl (rw is_none key))
            | inr other ↦ inl (get-set_miss m did none bare other)
          ]
        ]
      ]

  acceptable-IsFor :
      (dids ids : List String) → get (acceptable dids ids) aud ≡ some o → IsFor dids ids aud o
  unfolding acceptable
  acceptable-IsFor dids ids h = elim (accept_dids-get dids ids [] h) [
    | inr found ↦ found
    | inl empty ↦ absurd (ground (arith, empty, get-nil {V = Option String} aud))
  ]

module _ (show : Json → String) (dids ids : List String) where
  audience_of-IsFor :
      (v : Option Json) (aud : String) (o : Option String)
      → audience_of show (acceptable dids ids) v ≡ returned (aud, o)
      → (v ≡ some (str aud)) × IsFor dids ids aud o
  unfolding audience_of
  audience_of-IsFor none aud o h = absurd (ground (arith, h))
  audience_of-IsFor (some null) aud o h = absurd (ground (arith, h))
  audience_of-IsFor (some (boolean b)) aud o h = absurd (ground (arith, h))
  audience_of-IsFor (some (number n)) aud o h = absurd (ground (arith, h))
  audience_of-IsFor (some (array vs)) aud o h = absurd (ground (arith, h))
  audience_of-IsFor (some (object fs)) aud o h = absurd (ground (arith, h))
  audience_of-IsFor (some (str t)) aud o h = elim (Option-cases (get (acceptable dids ids) t)) [
    | inl missing ↦ absurd (ground (arith, h, missing))
    | inr (found, there) ↦
        let same : t ≡ aud = ground (arith, h, there) in
        let one : found ≡ o = ground (arith, h, there) in
        (
          ap (λ u. some (str u)) same,
          acceptable-IsFor aud o dids ids
              (ap (get (acceptable dids ids)) (sym same) ∙ there ∙ ap some one),
        )
  ]

module _ (trim : String → String) (show : Json → String)
    (verify_jwt : String → String → Attempt Fields) where
  -- A request that is accepted bears a token that the library verified for the method asked for, and
  -- the token's audience is one of this service: its did or another did that it answers for, bare,
  -- and then without a service id, or with one of the configured service ids, the one returned.
  pub verify_market_service_auth-IsFor :
      (opts : AuthOptions) (r : ServiceAuth)
      → verify_market_service_auth trim show verify_jwt opts ≡ returned r
      → ((token : String) × (payload : Fields) × (extract_bearer trim opts.auth_header
            ≡ returned token)
          × (verify_jwt token opts.lxm ≡ returned payload)
          × (fields_get payload "aud" ≡ some (str r.audience)))
        × IsFor
            (service_did_for_host opts.hostname ∷ or_else opts.extra_audience_dids [])
            opts.service_ids
            r.audience
            r.service_id
  unfolding verify_market_service_auth
  verify_market_service_auth-IsFor opts r h =
      let (token, bearer, rest) = >>=-eq-returned (extract_bearer trim opts.auth_header) _ h in
      let (payload, checked, rest') = >>=-eq-returned (verify_jwt token opts.lxm) _ rest in
      let dids = service_did_for_host opts.hostname ∷ or_else opts.extra_audience_dids [] in
      let ((aud, o), found, rest'') =
        >>=-eq-returned
          (audience_of show (acceptable dids opts.service_ids) (fields_get payload "aud")) _
          rest' in
      let (iss, issued, last) = >>=-eq-returned (issuer_of (fields_get payload "iss")) _ rest'' in
      let (named, for) =
        audience_of-IsFor show dids opts.service_ids (fields_get payload "aud") aud o found in
      rw (← returned-eq last) ((token, payload, bearer, checked, named), for)
