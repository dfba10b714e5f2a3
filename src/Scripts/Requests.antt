-- ===== src/Scripts/Requests.antt =====
-- `adminRequest` of admin-client.js: when a call succeeds, and what it then returns.
use vpn_register_kit.Prelude.{
  ◌≤◌, ◌≡◌, refl, sym, ap, ◌∙◌, ◌⊎◌, inl, inr, ◌&&◌, true, false, Bool-cases, ◌++◌, Option, none,
  some, Text, is_empty, leb, arith,
}
use vpn_register_kit.Js.Value.{Value}
use vpn_register_kit.Js.Result.{Thrown, Result, ok, err}
use vpn_register_kit.Scripts.{
  Environment, Call, Reply, given, drop_slashes, admin_config, admin_request,
}

-- The environment has both variables, and the server answers the call with a status of success.
pub record Answers (server : Call → Result Reply) (env : Environment) (path : Text) (method : Text)
    (body : Option Text) (reply : Reply) : Type 0 where
  pub url : Text
  pub has_url : env.registry_url ≡ some url
  pub url_given : is_empty url ≡ false
  pub token : Text
  pub has_token : env.admin_token ≡ some token
  pub token_given : is_empty token ≡ false
  pub answered :
      server
        (record { url = drop_slashes url ++ path; method = method; token = token; body = body })
      ≡ ok reply
  pub low : 200 ≤ reply.status
  pub high : reply.status ≤ 299

-- A call that is answered so returns the JSON of the reply.
pub admin_request_lem :
    (parse : Text → Option Value) (server : Call → Result Reply) (env : Environment)
    (path method : Text) (body : Option Text) (reply : Reply) (v : Value)
    → Answers server env path method body reply
    → is_empty reply.text ≡ false
    → parse reply.text ≡ some v
    → admin_request parse server env path method body ≡ ok v
unfolding admin_request admin_config
admin_request_lem parse server env path method body reply v a some_text parsed =
    let low : leb 200 reply.status ≡ true = (let l = a.low in ground arith) in
    let high : leb reply.status 299 ≡ true = (let h = a.high in ground arith) in
    rw
      (a.has_url, a.url_given, a.has_token, a.token_given, a.answered, low, high, some_text, parsed)

given_some :
    (o : Option Text)
    → is_empty (given o) ≡ false
    → (t : Text) × (o ≡ some t) × (is_empty t ≡ false)
given_some none h = absurd (cc)
given_some (some t) h = (t, refl, h)

given_none : (o : Option Text) (t : Text) → o ≡ some t → is_empty (given o) ≡ is_empty t
given_none o t h = ap (λ x. is_empty (given x)) h

result_cases : {A : Type 0} (r : Result A) → ((a : A) × (r ≡ ok a)) ⊎ ((e : Thrown) × (r ≡ err e))
result_cases (ok a) = inl (a, refl)
result_cases (err e) = inr (e, refl)

abbrev pub Gives : Result Value → Type 0
Gives (ok v) = Unit
Gives (err e) = ⊥

abbrev pub Throws : Result Value → Type 0
Throws (ok v) = ⊥
Throws (err e) = Unit

pub given_value : (r : Result Value) → Gives r → (v : Value) × (r ≡ ok v)
given_value (ok v) h = (v, refl)
given_value (err e) h = absurd h

pub thrown_error : (r : Result Value) → Throws r → (e : Thrown) × (r ≡ err e)
thrown_error (ok v) h = absurd h
thrown_error (err e) h = (e, refl)

module _ (parse : Text → Option Value) (server : Call → Result Reply) (env : Environment)
    (path method : Text) (body : Option Text) where
  -- The call goes out and is answered with a status of success, and returns; or there is no such
  -- answer, and it throws.
  abbrev pub RequestRun : Result Value → Type 0
  RequestRun r =
      ((reply : Reply) × Answers server env path method body reply × Gives r)
      ⊎ (((reply : Reply) → Answers server env path method body reply → ⊥) × Throws r)

  abbrev call_of : Text → Text → Call
  call_of url token = record {
    url = drop_slashes url ++ path;
    method = method;
    token = token;
    body = body;
  }

  some_text : (s t : Text) → ◌≡◌ {A = Option Text} (some s) (some t) → s ≡ t
  some_text s t h = cc

  -- The reply is that to the call of the two variables.
  replied :
      (url token : Text) (reply : Reply)
      → env.registry_url ≡ some url
      → env.admin_token ≡ some token
      → Answers server env path method body reply
      → server (call_of url token) ≡ ok reply
  replied url token reply has_url has_token a =
      let u = some_text url a.url (sym has_url ∙ a.has_url) in
      let t = some_text token a.token (sym has_token ∙ a.has_token) in
      (λ i. server (call_of (u i) (t i))) ∙ a.answered

  same_reply : (a b : Reply) → ◌≡◌ {A = Result Reply} (ok a) (ok b) → a ≡ b
  same_reply a b h = cc

  answered_run :
      (url token : Text)
      → env.registry_url ≡ some url
      → is_empty url ≡ false
      → env.admin_token ≡ some token
      → is_empty token ≡ false
      → RequestRun (admin_request parse server env path method body)
  unfolding admin_request admin_config
  answered_run url token has_url url_given has_token token_given =
      elim (result_cases (server (call_of url token))) [
        | inr (e, thrown) ↦ inr (
          λ reply a.
              let h = sym thrown ∙ replied url token reply has_url has_token a in absurd (cc),
          rw (has_url, url_given, has_token, token_given, thrown) tt,
        )
        | inl (reply, answered) ↦ elim (Bool-cases (leb 200 reply.status && leb reply.status 299)) [
          | inl good ↦ inl (
            reply,
            record {
              url = url;
              has_url = has_url;
              url_given = url_given;
              token = token;
              has_token = has_token;
              token_given = token_given;
              answered = answered;
              low = ground arith;
              high = ground arith;
            },
            rw (has_url, url_given, has_token, token_given, answered, good) tt,
          )
          | inr bad ↦ inr (
            λ other a.
                let h =
                  same_reply reply other
                    (sym answered ∙ replied url token other has_url has_token a) in
                let low = a.low in
                let high = a.high in
                let status : reply.status ≡ other.status = ap (λ (r : Reply). r.status) h in
                ground arith,
            rw (has_url, url_given, has_token, token_given, answered, bad) tt,
          )
        ]
      ]

  no_url_run :
      is_empty (given env.registry_url) ≡ true
      → RequestRun (admin_request parse server env path method body)
  unfolding admin_request admin_config
  no_url_run h = inr (
    λ reply a.
        let e = sym h ∙ given_none env.registry_url a.url a.has_url ∙ a.url_given in absurd (cc),
    rw h tt,
  )

  no_token_run :
      is_empty (given env.registry_url) ≡ false
      → is_empty (given env.admin_token) ≡ true
      → RequestRun (admin_request parse server env path method body)
  unfolding admin_request admin_config
  no_token_run u h = inr (
    λ reply a.
        let e = sym h ∙ given_none env.admin_token a.token a.has_token ∙ a.token_given in
        absurd (cc),
    rw (u, h) tt,
  )

  -- Every call, whatever the environment and the server.
  pub admin_request_run : RequestRun (admin_request parse server env path method body)
  admin_request_run = elim (Bool-cases (is_empty (given env.registry_url))) [
    | inl none_ ↦ no_url_run none_
    | inr has ↦ elim (Bool-cases (is_empty (given env.admin_token))) [
      | inl none_ ↦ no_token_run has none_
      | inr has' ↦
          let (url, has_url, url_given) = given_some env.registry_url has in
          let (token, has_token, token_given) = given_some env.admin_token has' in
          answered_run url token has_url url_given has_token token_given
    ]
  ]
