-- ===== src/Database.antt =====
-- database/store.go: the tables, and how a statement or a transaction of the pool runs.
-- A table is the list of its rows, oldest first. The columns that only PostgreSQL writes and no
-- code reads (created_at and updated_at of most tables) are left out. What becomes of each
-- statement is an input: a list of fates, one for each round trip, in which a missing one is
-- `answered`.
pub mod Rules
pub mod Ends
pub mod Sequence
pub mod Single
mod Tests
pub mod Kv
pub mod Conversations
pub mod Users
pub mod Messages
pub mod Groups
pub mod Feed
pub mod Friends
use alfred_brave_com.Base.{
  ℕ, suc, ◌≡◌, refl, String, Bool, true, false, Option, none, some, List, [], ◌∷◌, arith,
  if◌then◌else◌,
}
use alfred_brave_com.Base.Errors.{Error, driver, not_found}
use alfred_brave_com.Base.Exec.{Result, ok, err, Exec, Keeps, ◌>>=◌}
use alfred_brave_com.Chat.{MsgType}

-- kv.v, a JSON value: what the program writes there, and any other value, with what PostgreSQL's
-- operator v->>'cs' gives for it.
pub data Value : Type 0 where
  -- online:{uid}: the fields cs, addr, ts
  online : String → String → ℕ → Value
  -- seq:{conv_id}: the field next
  counter : ℕ → Value
  other : Option String → String → Value

pub record KvRow : Type 0 where
  pub v : Value
  pub version : ℕ

pub record User : Type 0 where
  pub uid : String
  pub user_name : String
  pub email : String
  pub password : String

pub data ConvType : Type 0 where
  single group : ConvType

pub record Conversation : Type 0 where
  pub conv_id : String
  pub type : ConvType
  pub single_key : Option String
  pub members : List String
  pub last_seq : ℕ

pub record Member : Type 0 where
  pub conv_id : String
  pub uid : String

pub record Message : Type 0 where
  pub msg_id : String
  pub conv_id : String
  pub seq : ℕ
  pub from_uid : String
  pub type : MsgType
  pub content : String

pub data GroupStatus : Type 0 where
  active dismissed : GroupStatus

pub record Group : Type 0 where
  pub gid : String
  pub name : String
  pub announcement : String
  pub announced : Bool
  pub owner_uid : String
  pub pinned_msg_id : Option String
  pub status : GroupStatus
  pub member_count : ℕ

pub data Role : Type 0 where
  owner member : Role

-- `left` is `left_at IS NOT NULL`.
pub record GroupMember : Type 0 where
  pub gid : String
  pub uid : String
  pub role : Role
  pub left : Bool

pub record Friend : Type 0 where
  pub owner_uid : String
  pub friend_uid : String

-- A post; `content` and `media` are JSON texts, and times are numbers of microseconds.
pub record Post : Type 0 where
  pub post_id : String
  pub uid : String
  pub content : String
  pub media : String
  pub is_big_v : Bool
  pub is_deleted : Bool
  pub created_at : ℕ

pub record InboxEntry : Type 0 where
  pub uid : String
  pub post_id : String
  pub created_at : ℕ

pub data Action : Type 0 where
  like comment : Action

pub record PostAction : Type 0 where
  pub post_id : String
  pub uid : String
  pub action : Action
  pub content : Option String
  pub created_at : ℕ

pub record PostCounter : Type 0 where
  pub post_id : String
  pub like_cnt : ℕ
  pub comment_cnt : ℕ

-- The tables of the feed.
pub record FeedTables : Type 0 where
  pub posts : List Post
  pub inbox : List InboxEntry
  pub actions : List PostAction
  pub counters : List PostCounter

pub record Db : Type 0 where
  pub kv : List (String × KvRow)
  pub users : List User
  pub conversations : List Conversation
  pub conversation_members : List Member
  pub messages : List Message
  pub groups : List Group
  pub group_members : List GroupMember
  pub friends : List Friend
  pub feed : FeedTables

-- Tables with no rows.
abbrev pub empty_db : Db
empty_db = record {
  kv = [];
  users = [];
  conversations = [];
  conversation_members = [];
  messages = [];
  groups = [];
  group_members = [];
  friends = [];
  feed = record { posts = []; inbox = []; actions = []; counters = [] };
}

-- A round trip is answered, or fails before the server has done its part, or after.
pub data Fate : Type 0 where
  answered refused lost : Fate

pub record Session : Type 0 where
  pub db : Db
  pub fates : List Fate
  -- How many UUIDs have been drawn.
  pub drawn : ℕ

-- What the next round trip meets, and the fates behind it.
unfoldable pub next_fate : List Fate → Fate × List Fate
next_fate [] = (answered, [])
next_fate (f ∷ rest) = (f, rest)

-- A statement either gives a value and the tables after it, or the server refuses it and the
-- tables stay.
abbrev pub Sql : Type 0 → Type 0
Sql B = Db → Result (B × Db)

unfoldable pub select : {A : Type 0} → (Db → A) → Sql A
select f db = ok (f db, db)

-- QueryRow and Scan, with ErrNoRows renamed by wrapNoRows.
unfoldable pub one_row : {A : Type 0} → Option A → Db → Result (A × Db)
one_row none db = err not_found
one_row (some a) db = ok (a, db)

unfoldable pub select_one : {A : Type 0} → (Db → Option A) → Sql A
unfolding one_row
select_one f db = one_row (f db) db

-- A session whose every round trip is answered.
abbrev pub steady : Db → ℕ → Session
steady db n = record { db = db; fates = []; drawn = n }

-- The value with which a body returns: from a Commit, or with none.
pub data Ending (A : Type 0) : Type 0 where
  commit_with left_with : A → Ending A

module _ {A : Type 0} where
  unfoldable pub settle : Fate → Result (A × Db) → Session → Result A × Session
  settle refused r s = (err driver, s)
  settle lost (ok (a, db)) s = (err driver, record s { db = db })
  settle lost (err e) s = (err driver, s)
  settle answered (ok (a, db)) s = (ok a, record s { db = db })
  settle answered (err e) s = (err e, s)

  -- One statement, outside a transaction or in one.
  unfoldable pub statement : Sql A → Exec Session A
  unfolding settle next_fate
  statement q s =
      let (fate, rest) = next_fate s.fates in settle fate (q s.db) (record s { fates = rest })

  -- tx.Commit: the tables of the whole transaction, or those before it.
  unfoldable pub commit : Fate → A → Db → Session → Result A × Session
  commit answered a before s = (ok a, s)
  commit refused a before s = (err driver, record s { db = before })
  commit lost a before s = (err driver, s)

  -- How a transaction's body ends: with an error or without a commit, the deferred Rollback
  -- takes back its writes.
  unfoldable pub finish : Result (Ending A) → Db → Session → Result A × Session
  unfolding commit next_fate
  finish (err e) before s = (err e, record s { db = before })
  finish (ok (left_with a)) before s = (ok a, record s { db = before })
  finish (ok (commit_with a)) before s =
      let (fate, rest) = next_fate s.fates in commit fate a before (record s { fates = rest })

  unfoldable pub begun : Fate → Exec Session (Ending A) → Session → Result A × Session
  unfolding finish
  begun answered m s = let (r, s') = m s in finish r s.db s'
  begun _ m s = (err driver, s)

  -- Begin, the body, and its end.
  unfoldable pub transaction : Exec Session (Ending A) → Exec Session A
  unfolding begun next_fate
  transaction m s = let (fate, rest) = next_fate s.fates in begun fate m (record s { fates = rest })
