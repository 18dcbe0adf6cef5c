-- ===== src/Market/Server/Submit/Quiet.antt =====
-- A push of an rfp ends with a response.
use atproto_market.Common.{String, ◌≡◌, refl, arith, Option, none, some, ◌==◌, Bool-cases, inl, inr}
use atproto_market.Common.Dict.{keys}
use atproto_market.Common.Attempt.{Attempt, returned, thrown}
use atproto_market.Common.Json.{Json, str, member}
use atproto_market.Records.{at_uri_authority}
use atproto_market.Market.Auth.{ServiceAuth}
use atproto_market.Market.Server.{
  Request, Response, Deps, Outcome, goes_on, responds, throws, ◌>>=◌, HandlerResult, finish,
  authorize, check_auth, check_author, text_of, given, read_body, required, truthy, is_truthy,
}
use atproto_market.Market.Server.Submit.{
  Routed, RfpConfig, caught, dispatch_rfp, submit_rfp, respond_rfp, submit_rfp_lxm, internal_error,
}

-- Any end but an exception.
abbrev pub IsQuiet {ℓ} : {A : Type ℓ} → Outcome A → Type 0
IsQuiet (goes_on a) = Unit {0}
IsQuiet (responds r) = Unit {0}
IsQuiet (throws e) = ⊥

>>=-IsQuiet {ℓ κ} :
    {A : Type ℓ} {B : Type κ} (m : Outcome A) (f : A → Outcome B)
    → IsQuiet m
    → ((a : A) → m ≡ goes_on a → IsQuiet (f a))
    → IsQuiet (m >>= f)
>>=-IsQuiet (goes_on a) f q g = g a refl
>>=-IsQuiet (responds r) f q g = tt
>>=-IsQuiet (throws e) f q g = q

caught-IsQuiet {ℓ} : {A : Type ℓ} (o : Outcome A) → IsQuiet (caught o)
unfolding caught
caught-IsQuiet (goes_on a) = tt
caught-IsQuiet (responds r) = tt
caught-IsQuiet (throws e) = tt

given-IsQuiet : (r : Response) (o : Option Json) → IsQuiet (given r o)
unfolding given
given-IsQuiet r none = tt
given-IsQuiet r (some v) = tt

given_lem :
    (r : Response) (o : Option Json) (v : Json) → given r (truthy o) ≡ goes_on v → o ≡ some v
unfolding given
given_lem r o v h = elim (Bool-cases (is_truthy o)) [
  | inr hollow ↦ absurd (ground (arith, h, hollow))
  | inl full ↦ kept o (rw full at h)
]
  where
    kept : (p : Option Json) → given r p ≡ goes_on v → p ≡ some v
    kept none e = absurd (ground (arith, e))
    kept (some w) e = cc e

check_auth-IsQuiet :
    (d : Deps) (u : String) (m : Attempt ServiceAuth) → IsQuiet (check_auth d (str u) m)
unfolding check_auth check_author text_of
check_auth-IsQuiet d u (thrown e) = tt
check_auth-IsQuiet d u (returned auth) = elim (Bool-cases (auth.issuer_did == at_uri_authority u)) [
  | inl same ↦ rw same tt
  | inr other ↦ rw other tt
]

respond_rfp_lem :
    {C : Type 0} (call : Routed C → Attempt (Option HandlerResult)) (o : Outcome (Routed C))
    → IsQuiet o
    → (r : Response) × (respond_rfp call o ≡ returned r)
unfolding respond_rfp
respond_rfp_lem call (throws e) q = elim q [ ]
respond_rfp_lem call (responds r) q = (r, refl)
respond_rfp_lem call (goes_on a) q = ended (call a)
  where
    ended :
        (m : Attempt (Option HandlerResult))
        → (r : Response) × ((elim m [
          | returned x ↦ returned (finish x)
          | thrown e ↦ returned internal_error
        ])
            ≡ returned r)
    ended (returned x) = (finish x, refl)
    ended (thrown e) = (internal_error, refl)

module _ {C : Type 0} (d : Deps) (cfg : RfpConfig C) (req : Request)
    (texts : (body uri : Json)
      → req.body ≡ some body
      → member body "rfpUri" ≡ some uri
      → (u : String) × (uri ≡ str u)) where
  submit_rfp-IsQuiet : IsQuiet (submit_rfp d cfg req)
  unfolding submit_rfp authorize read_body required
  submit_rfp-IsQuiet = >>=-IsQuiet (read_body req) _ (given-IsQuiet _ (truthy req.body)) (λ body b.
      >>=-IsQuiet (required "missing rfpUri or rfpCid" body "rfpUri") _
        (given-IsQuiet _ (truthy (member body "rfpUri")))
        (λ uri u.
          >>=-IsQuiet (required "missing rfpUri or rfpCid" body "rfpCid") _
            (given-IsQuiet _ (truthy (member body "rfpCid")))
            (λ cid c.
              >>=-IsQuiet (authorize d req submit_rfp_lxm (keys cfg.callbacks) uri) _
                (let (s, is) =
                    texts body uri (given_lem _ req.body body b)
                      (given_lem _ (member body "rfpUri") uri u) in
                  rw is (check_auth-IsQuiet d s _))
                (λ auth a.
                  caught-IsQuiet
                    (dispatch_rfp d cfg auth.0 cid auth.1.issuer_did auth.1.service_id)))))

  -- The handler of pushed rfps always returns a response, whatever the resolver, the filter and the
  -- callback throw, unless the body has an rfpUri that is no text.
  pub submit_rfp_responds :
      (call : Routed C → Attempt (Option HandlerResult))
      → (r : Response) × (respond_rfp call (submit_rfp d cfg req) ≡ returned r)
  submit_rfp_responds call = respond_rfp_lem call (submit_rfp d cfg req) submit_rfp-IsQuiet
