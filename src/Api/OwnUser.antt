-- ===== src/Api/OwnUser.antt =====
-- A client's token and the user that the body of a request names.
use mgl_communication.Base.{String, some, Result, ok, err, ◌≡◌, refl, sym, ◌∙◌, ap}
use mgl_communication.Auth.{
  Identity, user, Authenticator, Request, Verdict, identified, middleware, require_app_id,
  require_user_id,
}
use mgl_communication.Auth.Identities.{middleware-require_user_id}
use mgl_communication.Api.{Services, Deps, Instant}
use mgl_communication.Api.Calls.{
  CreateCallRequest, CallActorRequest, ActorRoute, create_by, create_as, act_as, with_actor,
  told_by, method_of, resume_as, token_as, handle_action, handle_create_call, handle_call_token,
  handle_resume_call,
}
use mgl_communication.Api.Routes.{ApiRequest, creates, acts, asks_token, resumes, serve}

-- A request to one of the routes on calls whose body names the user who acts.
pub data CallRequest : Type 0 where
  create_with : CreateCallRequest → CallRequest
  act_with : ActorRoute → String → CallActorRequest → CallRequest
  token_with resume_with : String → CallActorRequest → CallRequest

-- The request with this name in its body.
abbrev pub as_user : String → CallRequest → ApiRequest
as_user u (create_with req) = creates (some (record req { caller_id = u }))
as_user u (act_with route id req) = acts route id (record req { user_id = u })
as_user u (token_with id req) = asks_token id (record req { user_id = u })
as_user u (resume_with id req) = resumes id (record req { user_id = u })

-- For a request that the middleware identifies by the token of a user, none of the routes that
-- create, act on or resume a call or issue a token for one depends on the user that the body
-- names: the response and the states of the services are the same for any two names.
pub serve_own_user :
    (a : Authenticator) (q : Request) (i : Identity)
    → middleware a q ≡ identified i
    → i.kind ≡ user
    → (deps : Deps) (t : Instant) (u named : String) (r : CallRequest) (s : Services)
    → serve deps t (middleware a q) (as_user u r) s
      ≡ serve deps t (middleware a q) (as_user named r) s
unfolding serve with_actor handle_action handle_create_call handle_call_token handle_resume_call
serve_own_user a q i e k deps t u named r s = go r
  where
    v : Verdict
    v = middleware a q

    same : require_user_id v u ≡ require_user_id v named
    same =
        (middleware-require_user_id a q i e k u).1
        ∙ sym (middleware-require_user_id a q i e k named).1

    for_app :
        (req : CreateCallRequest) (app : Result String)
        → create_as deps t v app (some (record req { caller_id = u })) s
          ≡ create_as deps t v app (some (record req { caller_id = named })) s
    for_app req (err x) = refl
    for_app req (ok app_id) = ap (λ x. create_by deps t v app_id req x s) same

    go : (x : CallRequest) → serve deps t v (as_user u x) s ≡ serve deps t v (as_user named x) s
    go (create_with req) = for_app req (require_app_id v)
    go (act_with route id req) =
        ap (λ x. act_as v id req (told_by route) (method_of route t.now) x s) same
    go (token_with id req) = ap (λ x. token_as deps id x s) same
    go (resume_with id req) = ap (λ x. resume_as deps v id req x s) same
