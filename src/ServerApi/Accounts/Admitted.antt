-- ===== src/ServerApi/Accounts/Admitted.antt =====
-- server/api/login.go: whom a login admits.
use alfred_brave_com.Base.{
  ◌≡◌, refl, sym, ap, subst, ◌∙◌, String, Bool, true, false, not, Option, none, some, ◌==◌,
}
use alfred_brave_com.Base.Exec.{ok}
use alfred_brave_com.Abort.{
  answered, answered-injective, call-answered, guard-answered, answer, abort, unexpected,
  wrong_password, service_unavailable, bad_request, login_error,
}
use alfred_brave_com.Database.{Session, User}
use alfred_brave_com.ServerApi.Social.{lookup_login_user, add_friends}
use alfred_brave_com.ServerApi.Accounts.{
  Accounts, UserLogin, LoginView, with_token, log_in, login, verify_login_parameter,
  get_service_by_random, update_login_at,
}

pub not-false : (b : Bool) → not b ≡ false → b ≡ true
not-false true e = refl
not-false false e = cc

module _ (a : Accounts) where
  -- The user's hash accepts the password, the token is signed for the user, and the server is the
  -- one that was chosen.
  pub record IsAdmitted (password : String) (user : User) (view : LoginView) : Type 0 where
    pub knows : a.compare_hash user.password password ≡ true
    pub signed : a.sign user.uid ≡ some view.token
    pub server : view.ws_addr ≡ get_service_by_random a a.services
    pub served : (view.ws_addr == "") ≡ false

  with_token-answered :
      (user : User) (ws_addr : String) (token : Option String) (s : Session) (view : LoginView)
      → (with_token a user ws_addr token s).0 ≡ answered view
      → (view.user ≡ user) × (token ≡ some view.token) × (view.ws_addr ≡ ws_addr)
  unfolding with_token abort answer
  with_token-answered user ws_addr none s view = λ e. cc
  with_token-answered user ws_addr (some token) s view =
      call-answered _ (add_friends user.uid) (λ e. unexpected) _ (update_login_at user.uid s).1 view
        λ friends got e.
          let same = answered-injective _ view e in
          (
            sym (ap (λ (v : LoginView). v.user) same),
            ap (λ (v : LoginView). some v.token) same,
            sym (ap (λ (v : LoginView). v.ws_addr) same),
          )

  log_in-answered :
      (password : String) (user : User) (s : Session) (view : LoginView)
      → (log_in a password user s).0 ≡ answered view
      → (view.user ≡ user) × IsAdmitted password user view
  unfolding log_in
  log_in-answered password user s view =
      guard-answered _ (not (a.compare_hash user.password password)) wrong_password _ s view
        λ knows.
          guard-answered _ (get_service_by_random a a.services == "") service_unavailable _ s view
            λ served e.
              let (is_user, signed, server) =
                with_token-answered user _ (a.sign user.uid) s view e in
              (
                is_user,
                record {
                  knows = not-false _ knows;
                  signed = signed;
                  server = server;
                  served = ap (λ addr. addr == "") server ∙ served;
                },
              )

  -- A login is only answered where its checks let it pass, for the user whom the lookup of its name
  -- and address gives, with a password that the user's hash accepts. The token is signed for that
  -- user, and the server is the one chosen of those registered, and is not empty.
  pub login-IsAdmitted :
      (ul : UserLogin) (s : Session) (view : LoginView)
      → (login a (some ul) s).0 ≡ answered view
      → (verify_login_parameter a ul ≡ true)
        × ((lookup_login_user ul.user_name ul.email s).0 ≡ ok view.user)
        × IsAdmitted ul.password view.user view
  unfolding login
  login-IsAdmitted ul s view =
      guard-answered _ (not (verify_login_parameter a ul)) bad_request _ s view λ valid.
        call-answered _ (lookup_login_user ul.user_name ul.email) (λ e. login_error) _ s view
          λ user found e.
            let (is_user, admitted) = log_in-answered ul.password user _ view e in
            (
              not-false _ valid,
              found ∙ ap ok (sym is_user),
              subst (λ u. IsAdmitted ul.password u view) (sym is_user) admitted,
            )
