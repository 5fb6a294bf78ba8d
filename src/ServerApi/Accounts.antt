-- ===== src/ServerApi/Accounts.antt =====
-- server/api/register.go and login.go: the checks of names, addresses and passwords, registration and
-- login. The parameters are bcrypt, what net/mail reads from an address, the choice of a server and
-- the signer of tokens; profile, avatar and times are left out.
pub mod Admitted
pub mod Returning
mod Tests
use Prim.Native.Char.{code}
use alfred_brave_com.Base.{
  ℕ, ◌+◌, String, Bool, true, false, not, ◌&&◌, ◌||◌, Option, none, some, List, [], ◌∷◌, leb, ltb,
  nat_eq, length, exists, ◌==◌, if◌then◌else◌,
}
use alfred_brave_com.Base.Errors.{Error, duplicate_user}
use alfred_brave_com.Base.Exec.{ok, Exec}
use alfred_brave_com.Abort.{
  Abort, Handler, answer, abort, call, bad_request, database_error, conflict, login_error,
  wrong_password, service_unavailable, unexpected,
}
use alfred_brave_com.Database.{Session, User, statement}
use alfred_brave_com.Database.Users.{create_user}
use alfred_brave_com.ServerApi.Social.{lookup_login_user, add_friends}

pub record UserRegister : Type 0 where
  pub user_name : String
  pub email : String
  pub password : String

pub record UserLogin : Type 0 where
  pub user_name : Option String
  pub email : Option String
  pub password : String

pub record LoginView : Type 0 where
  pub user : User
  pub token : String
  pub ws_addr : String
  pub friends : List User

pub record Accounts : Type 0 where
  pub new_uuid : ℕ → String
  pub generate_hash : String → Option String
  pub compare_hash : String → String → Bool
  pub parsed_address : String → Option String
  pub services : List String
  pub pick : List String → String
  pub sign : String → Option String

-- The code points of a text.
unfoldable pub runes : String → List ℕ
runes String.[] = []
runes (String.◌∷◌ c s) = code c ∷ runes s

rune_size : ℕ → ℕ
rune_size r = if ltb r 128 then 1 else if ltb r 2048 then 2 else if ltb r 65536 then 3 else 4

-- The bytes of a text in UTF-8, which len counts.
unfoldable pub byte_size : List ℕ → ℕ
unfolding rune_size
byte_size [] = 0
byte_size (r ∷ rs) = rune_size r + byte_size rs

abbrev between : ℕ → ℕ → ℕ → Bool
between low high r = leb low r && leb r high

abbrev pub is_letter : ℕ → Bool
is_letter r = between 97 122 r || between 65 90 r

abbrev pub is_digit : ℕ → Bool
is_digit r = between 48 57 r

-- Letters, digits, the underscore, the hyphen, and the Chinese characters of the source's range.
abbrev pub is_name_rune : ℕ → Bool
is_name_rune r = is_letter r || is_digit r || nat_eq r 95 || nat_eq r 45 || between 19968 40869 r

unfoldable pub verify_user_name : String → Bool
unfolding runes exists
verify_user_name name =
    let rs = runes name in between 3 32 (length rs) && not (exists (λ r. not (is_name_rune r)) rs)

unfoldable pub verify_password : String → Bool
unfolding runes exists byte_size
verify_password password =
    let rs = runes password in
    between 8 64 (byte_size rs) && exists is_letter rs && exists is_digit rs

create_refusal : Error → Abort
create_refusal duplicate_user = conflict
create_refusal _ = database_error

-- UPDATE of the column login_at, which is left out of the rows.
unfoldable pub update_login_at : String → Exec Session (Unit {0})
update_login_at uid = statement λ db. ok (tt, db)

module _ (a : Accounts) where
  address_is : String → Option String → Bool
  address_is email none = false
  address_is email (some address) = address == email

  unfoldable pub verify_email : String → Bool
  unfolding runes exists byte_size address_is
  verify_email email =
      let rs = runes email in
      between 1 254 (byte_size rs)
      && address_is email (a.parsed_address email)
      && exists (λ r. nat_eq r 64) rs

  unfoldable pub verify_register_parameter : UserRegister → Bool
  unfolding verify_user_name verify_email verify_password
  verify_register_parameter ur =
      verify_user_name ur.user_name && verify_email ur.email && verify_password ur.password

  register_hashed : UserRegister → Option String → Handler User
  unfolding create_refusal
  register_hashed ur none = abort bad_request
  register_hashed ur (some hash) =
      call
        (create_user a.new_uuid
          (record { uid = ""; user_name = ur.user_name; email = ur.email; password = hash }))
        create_refusal λ user. answer user

  unfoldable pub register : Option UserRegister → Handler User
  unfolding register_hashed verify_register_parameter
  register none = abort bad_request
  register (some ur) =
      if not (verify_register_parameter ur)
      then abort bad_request
      else register_hashed ur (a.generate_hash ur.password)

  given_and : (String → Bool) → Option String → Bool
  given_and test none = true
  given_and test (some s) = test s

  unfoldable pub verify_login_parameter : UserLogin → Bool
  unfolding given_and verify_user_name verify_email verify_password
  verify_login_parameter ul =
      given_and verify_user_name ul.user_name
      && given_and verify_email ul.email
      && verify_password ul.password

  unfoldable pub get_service_by_random : List String → String
  get_service_by_random [] = ""
  get_service_by_random (s ∷ services) = a.pick (s ∷ services)

  -- The error of update_login_at is logged.
  with_token : User → String → Option String → Handler LoginView
  unfolding update_login_at
  with_token user ws_addr none s = abort unexpected s
  with_token user ws_addr (some token) s =
      call (add_friends user.uid) (λ e. unexpected)
        (λ friends.
          answer (record { user = user; token = token; ws_addr = ws_addr; friends = friends }))
        (update_login_at user.uid s).1

  log_in : String → User → Handler LoginView
  unfolding with_token get_service_by_random
  log_in password user =
      if not (a.compare_hash user.password password)
      then abort wrong_password
      else let ws_addr = get_service_by_random a.services in
        if ws_addr == ""
        then abort service_unavailable
        else with_token user ws_addr (a.sign user.uid)

  unfoldable pub login : Option UserLogin → Handler LoginView
  unfolding log_in verify_login_parameter
  login none = abort bad_request
  login (some ul) =
      if not (verify_login_parameter ul)
      then abort bad_request
      else call (lookup_login_user ul.user_name ul.email) (λ e. login_error)
          λ user. log_in ul.password user
