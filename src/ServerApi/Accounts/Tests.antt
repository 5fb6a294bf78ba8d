-- ===== src/ServerApi/Accounts/Tests.antt =====
-- server/api/login.go and register.go: runs of the checks and of a login.
use alfred_brave_com.Base.{
  ◌≡◌, refl, String, arith, eq_iff, true, false, none, some, [], ◌∷◌, ◌==◌, find, keep, exists,
}
use alfred_brave_com.Base.Exec.{ok, pure, ◌>>=◌}
use alfred_brave_com.Abort.{answered, answer, call}
use alfred_brave_com.Database.{Db, User, empty_db, steady, statement, select, select_one}
use alfred_brave_com.Database.Users.{get_by_user_name, create_user, insert_user}
use alfred_brave_com.Database.Friends.{list_by_owner, friends_of}
use alfred_brave_com.ServerApi.Social.{lookup_login_user, add_friends}
use alfred_brave_com.ServerApi.Accounts.{
  Accounts, UserLogin, LoginView, login, verify_login_parameter, verify_user_name, verify_password,
  get_service_by_random, update_login_at, runes, byte_size, UserRegister, register,
  verify_register_parameter, verify_email,
}
use alfred_brave_com.ServerApi.Accounts.Admitted.{IsAdmitted, login-IsAdmitted}
use alfred_brave_com.ServerApi.Accounts.Returning.{sign_in, register-login}
use alfred_brave_com.Database.Conversations.{draw}

short_name : verify_user_name "ab" ≡ false
unfolding verify_user_name runes exists
short_name = refl

no_digit : verify_password "secretsecret" ≡ false
unfolding verify_password runes exists byte_size
no_digit = refl

abbrev accounts : Accounts
accounts = record {
  new_uuid = λ n. "u9";
  generate_hash = λ password. some password;
  compare_hash = λ hash password. hash == password;
  parsed_address = λ email. some email;
  services = "10.0.0.1:7000" ∷ [];
  pick = λ services. "10.0.0.1:7000";
  sign = λ uid. some uid;
}

abbrev ada : User
ada = record { uid = "u1"; user_name = "ada"; email = "ada@x.org"; password = "secret12" }

abbrev ada_only : Db
ada_only = record empty_db { users = ada ∷ [] }

abbrev by_name : UserLogin
by_name = record { user_name = some "ada"; email = none; password = "secret12" }

abbrev welcome : LoginView
welcome = record { user = ada; token = "u1"; ws_addr = "10.0.0.1:7000"; friends = [] }

answered_login : (login accounts (some by_name) (steady ada_only 0)).0 ≡ answered welcome
unfolding login call answer verify_login_parameter verify_user_name verify_password runes byte_size
    exists lookup_login_user get_by_user_name get_service_by_random update_login_at add_friends
    list_by_owner statement select select_one find keep ◌>>=◌ pure
answered_login = refl

login-IsAdmitted_example :
    (verify_login_parameter accounts by_name ≡ true)
    × ((lookup_login_user (some "ada") none (steady ada_only 0)).0 ≡ ok ada)
    × IsAdmitted accounts "secret12" ada welcome
login-IsAdmitted_example =
    login-IsAdmitted accounts by_name (steady ada_only 0) welcome answered_login

abbrev bob_wishes : UserRegister
bob_wishes = record { user_name = "bob"; email = "bob@x.org"; password = "bobs-pass-1" }

abbrev bob : User
bob = record { uid = "u9"; user_name = "bob"; email = "bob@x.org"; password = "bobs-pass-1" }

abbrev both_db : Db
both_db = record empty_db { users = ada ∷ bob ∷ [] }

bob_registers :
    ((register accounts (some bob_wishes) (steady ada_only 0)).0 ≡ answered bob)
    × ((register accounts (some bob_wishes) (steady ada_only 0)).1.db ≡ both_db)
unfolding register verify_register_parameter verify_user_name verify_password verify_email runes
    byte_size exists create_user insert_user draw call answer statement ◌>>=◌ pure
bob_registers = (refl, refl)

same_text : (password hash : String) → some password ≡ some hash → (hash == password) ≡ true
same_text password hash e = ground (arith, eq_iff hash password, e)

bob_alone : friends_of "u9" both_db ≡ []
unfolding friends_of keep
bob_alone = refl

served : (get_service_by_random accounts accounts.services == "") ≡ false
unfolding get_service_by_random
served = refl

register-login_example :
    (login accounts (some (sign_in bob_wishes)) (steady both_db 0)).0
    ≡ answered (record {
      user = bob;
      token = "u9";
      ws_addr = get_service_by_random accounts accounts.services;
      friends = [];
    })
register-login_example =
    register-login accounts same_text bob_wishes (steady ada_only 0) bob "u9" both_db
      bob_registers.0 bob_registers.1 bob_alone refl served
