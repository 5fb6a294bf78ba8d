-- ===== src/Exchange/Idle.antt =====
-- joker/exchange/manager.go: which connections a round of cleanIdleClients leaves in the table.
use alfred_brave_com.Base.{
  ℕ, ◌≡◌, refl, sym, ap, ◌∙◌, inl, inr, String, Bool, ◌&&◌, none, List, [], ◌∷◌, arith, exists,
  nat_eq, nat_eq_iff, if◌then◌else◌, Bool-cases, ◌==◌,
}
use alfred_brave_com.Base.Table.{lookup, remove, lookup-remove}
use alfred_brave_com.Exchange.{
  Client, Manager, close, close_client, set_client, event_unregister, idle_exceeded, is_idle, clean,
}

-- Whose connection each handle is, and when it was last active.
pub record IsNamed (ids : ℕ → String) (active : ℕ → ℕ) (m : Manager) : Type 0 where
  pub ids_agree : (h : ℕ) → (m.heap h).user_id ≡ ids h
  pub active_agree : (h : ℕ) → (m.heap h).last_active ≡ active h

pub close-user_id : (c : Client) → (close c).user_id ≡ c.user_id
unfolding close
close-user_id c = ground arith

close-last_active : (c : Client) → (close c).last_active ≡ c.last_active
unfolding close
close-last_active c = ground arith

pub event_unregister-users :
    (h : ℕ) (m : Manager) → (event_unregister h m).users ≡ remove (m.heap h).user_id m.users
unfolding event_unregister
event_unregister-users h m = ground arith

pub event_unregister-heap : (h : ℕ) (m : Manager) → (event_unregister h m).heap ≡ m.heap
unfolding event_unregister
event_unregister-heap h m = ground arith

pub close_client-users : (h : ℕ) (m : Manager) → (close_client h m).users ≡ m.users
unfolding close_client set_client
close_client-users h m = refl

-- What a write that keeps a field of one client does to that field anywhere.
pub set_client-field :
    {A : Type 0} (f : Client → A) (h i : ℕ) (c : Client) (m : Manager)
    → f c ≡ f (m.heap h)
    → f ((set_client h c m).heap i) ≡ f (m.heap i)
unfolding set_client
set_client-field f h i c m same = elim (Bool-cases (nat_eq i h)) [
  | inl e ↦
      let i-h = (nat_eq_iff i h).0 e in
      ap (λ b. f (if b then c else m.heap i)) e ∙ same ∙ ap (λ j. f (m.heap j)) (sym i-h)
  | inr e ↦ ap (λ b. f (if b then c else m.heap i)) e
]

pub close_client-user_id :
    (h i : ℕ) (m : Manager) → ((close_client h m).heap i).user_id ≡ (m.heap i).user_id
unfolding close_client
close_client-user_id h i m =
    set_client-field (λ c. c.user_id) h i (close (m.heap h)) m (close-user_id (m.heap h))

close_client-last_active :
    (h i : ℕ) (m : Manager) → ((close_client h m).heap i).last_active ≡ (m.heap i).last_active
unfolding close_client
close_client-last_active h i m =
    set_client-field (λ c. c.last_active) h i (close (m.heap h)) m (close-last_active (m.heap h))

module _ (ids : ℕ → String) (active : ℕ → ℕ) where
  pub kicked-IsNamed :
      (h : ℕ) (m : Manager)
      → IsNamed ids active m
      → IsNamed ids active (event_unregister h (close_client h m))
  kicked-IsNamed h m named = record {
    ids_agree = λ i.
        ap (λ heap. (heap i).user_id) (event_unregister-heap h (close_client h m))
        ∙ close_client-user_id h i m
        ∙ named.ids_agree i;
    active_agree = λ i.
        ap (λ heap. (heap i).last_active) (event_unregister-heap h (close_client h m))
        ∙ close_client-last_active h i m
        ∙ named.active_agree i;
  }

  kicked-lookup :
      (h : ℕ) (uid : String) (m : Manager)
      → IsNamed ids active m
      → lookup uid (event_unregister h (close_client h m)).users
        ≡ (if ids h == uid then none else lookup uid m.users)
  kicked-lookup h uid m named =
      ap (lookup uid) (event_unregister-users h (close_client h m))
      ∙ ap (λ own. lookup uid (remove own (close_client h m).users))
          (close_client-user_id h h m ∙ named.ids_agree h)
      ∙ ap (λ rows. lookup uid (remove (ids h) rows)) (close_client-users h m)
      ∙ lookup-remove (ids h) uid m.users

  module _ (now timeout : ℕ) (uid : String) where
    abbrev pub is_kicked : ℕ → Bool
    is_kicked h = idle_exceeded (active h) now timeout && (ids h == uid)

    -- A user's entry goes when the loop meets an idle connection of that user.
    pub clean-lookup :
        (hs : List ℕ) (m : Manager)
        → IsNamed ids active m
        → lookup uid (clean now timeout hs m).1.users
          ≡ (if exists is_kicked hs then none else lookup uid m.users)
    unfolding clean exists is_idle
    clean-lookup [] m named = refl
    clean-lookup (h ∷ hs) m named =
        let after = event_unregister h (close_client h m) in
        ground (
          arith,
          named.active_agree h,
          kicked-lookup h uid m named,
          clean-lookup hs m named,
          clean-lookup hs after (kicked-IsNamed h m named),
        )
