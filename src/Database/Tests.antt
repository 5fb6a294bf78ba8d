-- ===== src/Database/Tests.antt =====
-- Runs of the operations of database/ on small tables, and the theorems at them.
use alfred_brave_com.Base.{List, keep, ℕ, ◌≡◌, refl, String, some, [], ◌∷◌, find, exists}
use alfred_brave_com.Base.Table.{lookup}
use alfred_brave_com.Base.Exec.{ok, ◌>>=◌}
use alfred_brave_com.Base.Order.{gtb}
use alfred_brave_com.Database.{
  empty_db, Db, Session, answered, refused, ConvType, Conversation, steady, statement, select,
  select_one, transaction,
}
use alfred_brave_com.Database.Conversations.{
  single_key, has_single_key, has_conv, insert_conversation, insert_member, get_conversation,
  new_single, resolve, ensure_single, ensure_single_tx, draw, is_row,
}
use alfred_brave_com.Database.Single.{IsEnsured, Only, ensure_single_again, single_key_comm}
use alfred_brave_com.Database.Friends.Symmetric.{
  IsSymmetric, has_friend, perform_friend, befriend, perform_friend-IsSymmetric,
}
use alfred_brave_com.Database.Sequence.{IsDense}
use alfred_brave_com.Database.Groups.Changes.{Field}
use alfred_brave_com.Database.Groups.Changes.Calls.{create, perform}
use alfred_brave_com.Database.Groups.Changes.Numbers.{perform-IsDense}

abbrev new_uuid : ℕ → String
new_uuid n = "c1"

abbrev made : Conversation
made = record {
  conv_id = "c1";
  type = ConvType.single;
  single_key = some "ada:bob";
  members = "bob" ∷ "ada" ∷ [];
  last_seq = 0;
}

first_call : (ensure_single new_uuid "bob" "ada" (steady empty_db 0)).0 ≡ ok made
unfolding ensure_single ensure_single_tx resolve new_single draw transaction statement select
    select_one insert_conversation insert_member get_conversation single_key has_single_key has_conv
    find exists is_row ◌>>=◌ gtb
first_call = refl

-- The same conversation, some messages later.
abbrev used : Conversation
used = record made { last_seq = 3 }

abbrev later_db : Db
later_db = record empty_db { conversations = used ∷ [] }

used-IsEnsured : IsEnsured new_uuid "bob" "ada" used later_db
unfolding find has_single_key has_conv single_key gtb
used-IsEnsured = record {
  resolved = record { row = used; found = refl; id = refl };
  stored = refl;
  differ = refl;
}

-- The last round trip of the second call fails.
abbrev shaken : Session
shaken = record { db = later_db; fates = answered ∷ answered ∷ answered ∷ refused ∷ []; drawn = 7 }

ensure_single_again_example :
    ((ensure_single new_uuid "ada" "bob" shaken).1.db ≡ later_db)
    × Only new_uuid "bob" "ada" used (ensure_single new_uuid "ada" "bob" shaken).0
    × (ensure_single new_uuid "ada" "bob" (steady later_db 7) ≡ (ok used, steady later_db 7))
ensure_single_again_example = ensure_single_again new_uuid "bob" "ada" shaken used used-IsEnsured

single_key_comm_example : single_key "zed" "ada" ≡ single_key "ada" "zed"
single_key_comm_example = single_key_comm "ada" "zed"

abbrev marshal : List (String × Field) → String
marshal fields = "{}"

empty_db-IsDense : IsDense empty_db
unfolding lookup keep
empty_db-IsDense = record { numbered = λ conv_id. refl }

perform-IsDense_example :
    IsDense
      (perform new_uuid marshal
        (create (some "g2") "ada" "team" ("bob" ∷ []))
        (steady empty_db 0)).1.db
perform-IsDense_example =
    perform-IsDense new_uuid marshal (create (some "g2") "ada" "team" ("bob" ∷ []))
      (steady empty_db 0) empty_db-IsDense

empty_db-IsSymmetric : IsSymmetric empty_db
unfolding has_friend exists
empty_db-IsSymmetric a b = refl

perform_friend-IsSymmetric_example :
    IsSymmetric (perform_friend (befriend "ada" "bob") (steady empty_db 0)).1.db
perform_friend-IsSymmetric_example =
    perform_friend-IsSymmetric (befriend "ada" "bob") (steady empty_db 0) empty_db-IsSymmetric
