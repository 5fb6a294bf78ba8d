-- ===== src/ServerApi/Accounts/Returning.antt =====
-- server/api/register.go and login.go: a user who has registered can log in.
use alfred_brave_com.Base.{
  ◌≡◌, refl, ap, sym, ◌∙◌, String, true, false, not, Option, none, some, [], arith, both_ways,
  subst, ◌==◌,
}
use alfred_brave_com.Base.Exec.{Result, ok, err, ◌>>=◌, pure}
use alfred_brave_com.Abort.{answered, answered-injective, Handler, call, continue, answer, abort}
use alfred_brave_com.Database.{
  Db, Session, User, steady, statement, settle, select, select_one, one_row, next_fate,
}
use alfred_brave_com.Database.Friends.{friends_of, list_by_owner}
use alfred_brave_com.Database.Users.{create_user, get_by_user_name}
use alfred_brave_com.Database.Users.Created.{IsCreated, create_user-IsCreated, IsCreated-find}
use alfred_brave_com.ServerApi.Social.{lookup_login_user, add_friends, friend_infos}
use alfred_brave_com.ServerApi.Accounts.{
  Accounts, UserRegister, UserLogin, register, register_hashed, create_refusal,
  verify_register_parameter, verify_login_parameter, given_and, login, log_in, with_token,
  get_service_by_random, update_login_at,
}
use alfred_brave_com.ServerApi.Accounts.Admitted.{not-false}

abbrev pub new_user : UserRegister → String → User
new_user ur hash = record { uid = ""; user_name = ur.user_name; email = ur.email; password = hash }

-- The name and the password of a registration.
abbrev pub sign_in : UserRegister → UserLogin
sign_in ur = record { user_name = some ur.user_name; email = none; password = ur.password }

created_answer :
    (r : Result User) (s : Session) (user : User)
    → (continue create_refusal (λ u. answer u) r s).0 ≡ answered user
    → (r ≡ ok user) × ((continue create_refusal (λ u. answer u) r s).1 ≡ s)
unfolding answer
created_answer (ok x) s user e = (ap ok (answered-injective x user e), refl)
created_answer (err x) s user e = cc

module _ (a : Accounts) where
  record IsRegistered (ur : UserRegister) (user : User) (db : Db) : Type 0 where
    valid : verify_register_parameter a ur ≡ true
    hash : String
    hashed : a.generate_hash ur.password ≡ some hash
    created : IsCreated (new_user ur hash) user db

  hashed-IsCreated :
      (ur : UserRegister) (o : Option String) (s : Session) (user : User)
      → (register_hashed a ur o s).0 ≡ answered user
      → (hash : String) × (o ≡ some hash)
        × IsCreated (new_user ur hash) user (register_hashed a ur o s).1.db
  unfolding register_hashed call abort
  hashed-IsCreated ur none s user e = cc
  hashed-IsCreated ur (some hash) s user e =
      let m = create_user a.new_uuid (new_user ur hash) in
      let (made, same) = created_answer (m s).0 (m s).1 user e in
      (
        hash,
        refl,
        subst (λ (x : Session). IsCreated (new_user ur hash) user x.db) (sym same)
            ((create_user-IsCreated a.new_uuid (new_user ur hash)).at s user tt made),
      )

  register-IsRegistered :
      (ur : UserRegister) (s : Session) (user : User)
      → (register a (some ur) s).0 ≡ answered user
      → IsRegistered ur user (register a (some ur) s).1.db
  unfolding register abort
  register-IsRegistered ur s user =
      both_ways (λ (h : Handler User). (h s).0 ≡ answered user → IsRegistered ur user (h s).1.db)
        (not (verify_register_parameter a ur)) _ _ (λ bad e. cc)
        (λ good e.
          let (hash, hashed, created) =
            hashed-IsCreated ur (a.generate_hash ur.password) s user e in
          record { valid = not-false _ good; hash = hash; hashed = hashed; created = created })

  login_valid :
      (ur : UserRegister)
      → verify_register_parameter a ur ≡ true
      → verify_login_parameter a (sign_in ur) ≡ true
  unfolding verify_register_parameter verify_login_parameter given_and
  login_valid ur e = ground (arith, e)

  module _
      (accepts : (password hash : String)
        → a.generate_hash password ≡ some hash
        → a.compare_hash hash password ≡ true) where
    -- A user whose registration was answered, whatever it met at the database, and who owns no
    -- friendship yet, is let in with the name and the password of the registration, where bcrypt
    -- accepts the passwords of the hashes that it makes, the token is signed, a server is chosen and
    -- every round trip of the login is answered.
    pub register-login :
        (ur : UserRegister) (s : Session) (user : User) (token : String) (db : Db)
        → (register a (some ur) s).0 ≡ answered user
        → (register a (some ur) s).1.db ≡ db
        → friends_of user.uid db ≡ []
        → a.sign user.uid ≡ some token
        → (get_service_by_random a a.services == "") ≡ false
        → (login a (some (sign_in ur)) (steady db s.drawn)).0
          ≡ answered (record {
            user = user;
            token = token;
            ws_addr = get_service_by_random a a.services;
            friends = [];
          })
    unfolding login log_in with_token call answer lookup_login_user get_by_user_name statement
        settle select select_one one_row next_fate update_login_at add_friends list_by_owner
        friend_infos ◌>>=◌ pure
    register-login ur s user token db done after lonely signed served =
        let r = register-IsRegistered ur s user done in
        let created = subst (λ d. IsCreated (new_user ur r.hash) user d) after r.created in
        let known = IsCreated-find (new_user ur r.hash) user db created in
        let fits =
          ap (λ h. a.compare_hash h ur.password) created.password
          ∙ accepts ur.password r.hash r.hashed in
        rw (login_valid ur r.valid, known, fits, served, signed, lonely) refl
